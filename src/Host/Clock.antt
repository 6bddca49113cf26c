-- ===== src/Host/Clock.antt =====
-- Part 1 of dthost/dthost.c: the presentation times, and the system clock that follows them.
pub mod Sync
pub mod Time
pub mod Store
use dtplayer_c.Base.{
  ℕ, Bool, true, false, not, ◌&&◌, ◌||◌, if◌then◌else◌, ℤ, pos, negsuc, ltb_ℤ, eqb_ℤ, sub_64,
  add_64, mul_64, llabs, quot,
}
use dtplayer_c.Host.{Host, SyncMode, audio_master, video_master, is_video_master, no_pts}

-- DT_PTS_FREQ_MS, DT_SYNC_DISCONTINUE_THRESHOLD, AVSYNC_THRESHOLD and AVSYNC_THRESHOLD_MAX
abbrev pub pts_freq_ms : ℕ
pts_freq_ms = 90

abbrev pub sync_discontinue_threshold : ℕ
sync_discontinue_threshold = 5400000

abbrev pub avsync_threshold : ℕ
avsync_threshold = 100

abbrev pub avsync_threshold_max : ℕ
avsync_threshold_max = 5000

-- PTS_INVALID
unfoldable pub is_invalid : ℤ → Bool
is_invalid x = eqb_ℤ x (negsuc 0) || eqb_ℤ x no_pts

pub host_sync_enable : Host → Bool
host_sync_enable c = c.sync_enable

unfoldable pub host_get_apts : Host → ℤ
host_get_apts c = c.pts_audio_current

unfoldable pub host_get_vpts : Host → ℤ
host_get_vpts c = c.pts_video_current

unfoldable pub host_get_spts : Host → ℤ
host_get_spts c = c.pts_sub

unfoldable pub host_get_systime : Host → ℤ
host_get_systime c = c.sys_time_current

-- The value that `host_get_avdiff` computes.
unfoldable pub avdiff_of : Host → ℤ
avdiff_of c = quot (sub_64 c.pts_audio_current c.pts_video_current) pts_freq_ms

unfoldable pub host_get_avdiff : Host → ℤ × Host
host_get_avdiff c = (avdiff_of c, record c { av_diff = avdiff_of c })

unfoldable pub host_reset_systime : ℤ → Host → ℤ → Host
host_reset_systime now c sys_time = record c {
  sys_time_last = c.sys_time_current;
  sys_time_start = sys_time;
  sys_time_current = sys_time;
  sys_time_start_time = now;
}

-- The distance is compared in milliseconds.
pub is_jump : ℤ → Bool
is_jump jump = not (ltb_ℤ (quot jump pts_freq_ms) (pos sync_discontinue_threshold))

pub mark_audio_jump : Host → ℤ → Host
mark_audio_jump c apts =
    let jump = llabs (sub_64 apts c.pts_audio_current) in
    if is_jump jump
    then record c {
      audio_discontinue_flag = true;
      audio_discontinue_point = apts;
      audio_discontinue_step = jump;
    }
    else c

pub mark_video_jump : Host → ℤ → Host
mark_video_jump c vpts =
    let jump = llabs (sub_64 vpts c.pts_video_current) in
    if is_jump jump
    then record c {
      video_discontinue_flag = true;
      video_discontinue_point = vpts;
      video_discontinue_step = jump;
    }
    else c

unfoldable pub store_apts : Host → ℤ → Host
store_apts c apts = record c { pts_audio_last = c.pts_audio_current; pts_audio_current = apts }

pub store_vpts : Host → ℤ → Host
store_vpts c vpts = record c { pts_video_last = c.pts_video_current; pts_video_current = vpts }

-- Without video the audio is the clock.
unfoldable pub follow_audio : Host → ℤ → Host
follow_audio c apts = record c {
  sys_time_current = apts;
  sys_time_start = if eqb_ℤ c.sys_time_start no_pts then apts else c.sys_time_start;
}

unfoldable pub set_mode : Host → SyncMode → Host
set_mode c mode = record c { sync_mode = mode }

-- `host_update_apts` from its last test of `avdiff` on.
pub correct_audio : ℤ → Host → ℤ → ℤ → ℤ → Host
correct_audio now c apts avdiff asdiff =
    let back : Bool = is_video_master c.sync_mode && ltb_ℤ avdiff (pos avsync_threshold_max) in
    let c' : Host = if back then set_mode c audio_master else c in
    if ltb_ℤ asdiff (pos avsync_threshold) then c' else host_reset_systime now c' apts

-- `host_update_apts` with synchronisation on and the audio output open.
pub sync_audio : ℤ → Host → ℤ → Host
sync_audio now c apts =
    let avdiff : ℤ = llabs (avdiff_of c) in
    let asdiff : ℤ = quot (llabs (sub_64 apts c.sys_time_current)) pts_freq_ms in
    let c' : Host = (host_get_avdiff c).1 in
    if is_invalid c.sys_time_current
    then c'
    else if ltb_ℤ (pos avsync_threshold_max) avdiff
    then set_mode c' video_master
    else correct_audio now c' apts avdiff asdiff

-- `host_update_apts` once the time is stored. `aout_close` is what `host_get_aout_closed` returns.
pub after_audio : Bool → ℤ → Host → ℤ → ℤ × Host
after_audio aout_close now c apts =
    if not c.para.has_video
    then (pos 0, follow_audio c apts)
    else if not (host_sync_enable c)
    then (pos 0, c)
    else if aout_close
    then (pos 0, c)
    else (pos 0, sync_audio now c apts)

-- `now` is what `dt_gettime` returns.
pub host_update_apts : Bool → ℤ → Host → ℤ → ℤ × Host
host_update_apts aout_close now c apts =
    after_audio aout_close now (store_apts (mark_audio_jump c apts) apts) apts

-- `vsdiff` is compared without a conversion to milliseconds.
pub correct_video : ℤ → Host → ℤ → Host
correct_video now c vpts =
    let vsdiff : ℤ = llabs (sub_64 c.sys_time_current vpts) in
    if ltb_ℤ (pos avsync_threshold) vsdiff then host_reset_systime now c vpts else c

-- `host_update_vpts` once the time is stored.
pub sync_video : ℤ → Host → ℤ → Host
sync_video now c vpts =
    let avdiff : ℤ = llabs (avdiff_of c) in
    let c' : Host = (host_get_avdiff c).1 in
    if is_invalid c.sys_time_current
    then c'
    else if not (host_sync_enable c')
    then correct_video now c' vpts
    else if ltb_ℤ (pos avsync_threshold_max) avdiff
    then correct_video now (set_mode c' video_master) vpts
    else if is_video_master c'.sync_mode && ltb_ℤ avdiff (pos avsync_threshold_max)
    then set_mode c' audio_master
    else c'

pub host_update_vpts : ℤ → Host → ℤ → ℤ × Host
host_update_vpts now c vpts =
    (pos 0, sync_video now (store_vpts (mark_video_jump c vpts) vpts) vpts)

unfoldable pub host_update_spts : Host → ℤ → ℤ × Host
host_update_spts c spts = (pos 0, record c { pts_sub = spts })

-- Ticks of 90 a millisecond from microseconds: nine hundredths.
unfoldable pub host_update_systime : ℤ → Host → ℤ → ℤ × Host
host_update_systime now c sys_time =
    if is_invalid c.sys_time_current
    then (
      pos 0,
      record c {
        sys_time_current = sys_time;
        sys_time_first = sys_time;
        sys_time_start = sys_time;
        sys_time_last = sys_time;
        sys_time_start_time = now;
      },
    )
    else (
      pos 0,
      record c {
        sys_time_last = c.sys_time_current;
        sys_time_current =
            add_64 c.sys_time_start (quot (mul_64 (sub_64 now c.sys_time_start_time) 9) 100);
      },
    )

unfoldable pub host_clear_discontinue_flag : Host → ℤ × Host
host_clear_discontinue_flag c =
    (pos 0, record c { audio_discontinue_flag = false; video_discontinue_flag = false })

unfoldable pub host_get_current_time : Host → ℤ
host_get_current_time c = c.sys_time_current
