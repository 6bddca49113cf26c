-- ===== src/Player/Time.antt =====
-- The position in the file, of dtplayer/dtplayer_update.c.
use dtplayer_c.Base.{
  ℕ, Bool, ◌&&◌, ◌||◌, not, if◌then◌else◌, ℤ, pos, negsuc, ltb_ℤ, eqb_ℤ, sub_64, add_64, mul_64,
  llabs, quot, int32,
}
use dtplayer_c.Host.Clock.{is_invalid, avsync_threshold_max}
use dtplayer_c.Host.State.{HostState}
use dtplayer_c.Player.{State, Ctrl}

abbrev pub first_time_diff_max : ℕ
first_time_diff_max = 180000

-- `llabs(a - b) < FIRST_TIME_DIFF_MAX`
unfoldable pub is_near : ℤ → ℤ → Bool
is_near a b = ltb_ℤ (llabs (sub_64 a b)) (pos first_time_diff_max)

-- `first_time` where it was -1, audio and video are there: the earlier of the two where they are near,
-- else the one that is near the start.
unfoldable pub first_of : ℤ → ℤ → ℤ → ℤ
first_of apts vpts start =
    if is_near apts vpts
    then (if ltb_ℤ vpts apts then vpts else apts)
    else if is_near vpts start
    then vpts
    else if is_near apts start
    then apts
    else negsuc 0

unfoldable pub choose_first : ℤ → ℤ → ℤ → ℤ
choose_first apts vpts start =
    if not (is_invalid apts) && not (is_invalid vpts)
    then first_of apts vpts start
    else if not (is_invalid apts)
    then apts
    else if not (is_invalid vpts)
    then vpts
    else negsuc 0

-- `start_time` and `first_time` at the beginning of `calc_cur_time`.
unfoldable pub set_start : State → Ctrl → State
set_start s c = if ltb_ℤ c.start_time (pos 0) then s else record s { start_time = c.start_time }

unfoldable pub set_first : State → Ctrl → HostState → Ctrl
set_first s c h =
    let d : Ctrl =
      (if ltb_ℤ c.start_time (pos 0) then c else record c { first_time = c.start_time }) in
    if eqb_ℤ d.first_time (negsuc 0)
    then (if d.has_audio && d.has_video
        then record d { first_time = choose_first h.pts_audio_first h.pts_video_first s.start_time }
        else record d { first_time = d.start_time })
    else d

unfoldable pub set_full : State → ℤ → State
set_full s duration = if eqb_ℤ s.full_time (pos 0) then record s { full_time = duration } else s

-- The current time of the stream and the time that counts as its start.
unfoldable pub times : Ctrl → HostState → ℤ × ℤ
times c h =
    let since_audio : ℤ =
      (if ltb_ℤ (pos 0) h.audio_discontinue_point
        then h.audio_discontinue_point
        else c.first_time) in
    let since_video : ℤ =
      (if ltb_ℤ (pos 0) h.video_discontinue_point
        then h.video_discontinue_point
        else c.first_time) in
    if c.has_audio && c.has_video
    then (if h.audio_discontinue_flag
        then (if h.video_discontinue_flag
            then (h.pts_video_current, since_audio)
            else (h.pts_video_current, since_video))
        else (if h.video_discontinue_flag then (h.pts_audio_current, since_audio) else (
          (if is_invalid h.pts_video_first then h.pts_audio_current else h.pts_video_current),
          since_audio,
        )))
    else (h.sys_time_current, h.sys_time_start)

-- `discontinue_point_ms` where both times have jumped.
unfoldable pub set_point : State → Ctrl → HostState → State
set_point s c h =
    if (c.has_audio && c.has_video) && (h.audio_discontinue_flag && h.video_discontinue_flag)
    then record s { discontinue_point_ms = s.cur_time_ms }
    else s

-- Whether the host is told to forget the jumps.
unfoldable pub clears_flag : Ctrl → HostState → Bool
clears_flag c h =
    let avdiff = int32 (quot (llabs (sub_64 h.pts_audio_current h.pts_video_current)) 90) in
    (c.has_audio && c.has_video)
    && ((h.audio_discontinue_flag || h.video_discontinue_flag)
        && ltb_ℤ avdiff (pos avsync_threshold_max))

-- The end of `calc_cur_time`.
unfoldable pub set_time : State → ℤ × ℤ → State
set_time s (now, since) =
    let t = sub_64 (add_64 now (mul_64 s.discontinue_point_ms 90)) since in
    record s { cur_time = quot t 90000; cur_time_ms = quot t 90 }

-- `calc_cur_time`: the new state and control, and whether the host is told to forget the jumps.
unfoldable pub calc_cur_time : State → Ctrl → ℤ → HostState → State × Ctrl × Bool
calc_cur_time s c duration h =
    let s1 = set_full (set_start s c) duration in
    let d = set_first (set_start s c) c h in
    (set_time (set_point s1 d h) (times d h), d, clears_flag d h)
