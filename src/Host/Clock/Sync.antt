-- ===== src/Host/Clock/Sync.antt =====
-- How the system clock follows the audio and the video in dthost/dthost.c.
use dtplayer_c.Base.{
  ℕ, ◌≡◌, refl, sym, ap, ◌∙◌, true, false, ◌&&◌, if◌then◌else◌, arith, inl, inr, Bool-cases, ℤ, pos,
  ltb_ℤ, pos_part, neg_part, sub_ℕ, ◌-ℤ◌, ◌+◌, sub_64, int64, wrap, llabs, quot,
}
use dtplayer_c.Host.{Host, SyncMode, is_video_master, audio_master, video_master}
use dtplayer_c.Host.Clock.{
  is_invalid, avdiff_of, host_get_avdiff, host_reset_systime, host_sync_enable, mark_audio_jump,
  mark_video_jump, store_apts, store_vpts, set_mode, correct_audio, sync_audio, correct_video,
  sync_video, after_audio, host_update_apts, host_update_vpts, avsync_threshold,
  avsync_threshold_max, pts_freq_ms,
}

sub_ℕ_self : (a b : ℕ) → a ≡ b → sub_ℕ a b ≡ pos 0
sub_ℕ_self a b e = ground arith

sub_64_self : (x : ℤ) → sub_64 x x ≡ pos 0
unfolding sub_64 int64 wrap ◌-ℤ◌
sub_64_self x = rw (sub_ℕ_self (pos_part x + neg_part x) (neg_part x + pos_part x) (omega arith))

-- The audio time `apts` is less than `avsync_threshold` milliseconds from the clock `sys_time`.
abbrev pub FollowsAudio : ℤ → ℤ → Type 0
FollowsAudio sys_time apts =
    ltb_ℤ (quot (llabs (sub_64 apts sys_time)) pts_freq_ms) (pos avsync_threshold) ≡ true

FollowsAudio-self : (x : ℤ) → FollowsAudio x x
unfolding quot llabs
FollowsAudio-self x = rw (sub_64_self x) refl

correct_audio-systime :
    (now : ℤ) (c : Host) (apts avdiff asdiff : ℤ)
    → (correct_audio now c apts avdiff asdiff).sys_time_current
      ≡ (if ltb_ℤ asdiff (pos avsync_threshold) then c.sys_time_current else apts)
unfolding correct_audio host_reset_systime set_mode
correct_audio-systime now c apts avdiff asdiff = ground arith

correct_audio-mode :
    (now : ℤ) (c : Host) (apts avdiff asdiff : ℤ)
    → (correct_audio now c apts avdiff asdiff).sync_mode ≡ (
        if is_video_master c.sync_mode && ltb_ℤ avdiff (pos avsync_threshold_max)
        then audio_master
        else c.sync_mode)
unfolding correct_audio host_reset_systime set_mode
correct_audio-mode now c apts avdiff asdiff = ground arith

sync_audio-FollowsAudio :
    (now : ℤ) (c : Host) (apts : ℤ)
    → is_invalid c.sys_time_current ≡ false
    → ltb_ℤ (pos avsync_threshold_max) (llabs (avdiff_of c)) ≡ false
    → FollowsAudio (sync_audio now c apts).sys_time_current apts
unfolding sync_audio host_get_avdiff
sync_audio-FollowsAudio now c apts valid near =
    let asdiff : ℤ = quot (llabs (sub_64 apts c.sys_time_current)) pts_freq_ms in
    rw
      (
        valid,
        near,
        correct_audio-systime now (host_get_avdiff c).1 apts (llabs (avdiff_of c)) asdiff,
      )
      (elim (Bool-cases (ltb_ℤ asdiff (pos avsync_threshold))) [
        | inl e ↦ rw e e
        | inr e ↦ rw e (FollowsAudio-self apts)
      ])

-- What a jump of the audio time changes is read by no other part of the update.
record SameClock (c d : Host) : Type 0 where
  para_is : d.para ≡ c.para
  enable_is : d.sync_enable ≡ c.sync_enable
  mode_is : d.sync_mode ≡ c.sync_mode
  systime_is : d.sys_time_current ≡ c.sys_time_current
  audio_is : d.pts_audio_current ≡ c.pts_audio_current
  video_is : d.pts_video_current ≡ c.pts_video_current

mark_audio_jump-SameClock : (c : Host) (apts : ℤ) → SameClock c (mark_audio_jump c apts)
unfolding mark_audio_jump
mark_audio_jump-SameClock c apts = ground arith

mark_video_jump-SameClock : (c : Host) (vpts : ℤ) → SameClock c (mark_video_jump c vpts)
unfolding mark_video_jump
mark_video_jump-SameClock c vpts = ground arith

after_audio-sync :
    (now : ℤ) (c : Host) (apts : ℤ)
    → c.para.has_video ≡ true
    → c.sync_enable ≡ true
    → after_audio false now c apts ≡ (pos 0, sync_audio now c apts)
unfolding after_audio host_sync_enable
after_audio-sync now c apts video on = simp (video, on)

-- With video and synchronisation on, the audio output open and a clock that is set: where audio and
-- video are not more than `avsync_threshold_max` milliseconds apart, `host_update_apts` leaves a
-- system clock less than `avsync_threshold` milliseconds from the audio time.
pub host_update_apts-FollowsAudio :
    (now : ℤ) (c : Host) (apts : ℤ)
    → c.para.has_video ≡ true
    → c.sync_enable ≡ true
    → is_invalid c.sys_time_current ≡ false
    → ltb_ℤ (pos avsync_threshold_max) (llabs (avdiff_of (store_apts c apts))) ≡ false
    → FollowsAudio (host_update_apts false now c apts).1.sys_time_current apts
unfolding host_update_apts store_apts avdiff_of
host_update_apts-FollowsAudio now c apts video on valid near =
    let s = mark_audio_jump-SameClock c apts in
    let d : Host = store_apts (mark_audio_jump c apts) apts in
    rw (after_audio-sync now d apts (ap (λ p. p.has_video) s.para_is ∙ video) (s.enable_is ∙ on))
      (sync_audio-FollowsAudio now d apts (ap is_invalid s.systime_is ∙ valid) (rw s.video_is near))

-- The video time is at most `avsync_threshold` ticks of 1/90 millisecond from the clock.
abbrev pub FollowsVideo : ℤ → ℤ → Type 0
FollowsVideo sys_time vpts = ltb_ℤ (pos avsync_threshold) (llabs (sub_64 sys_time vpts)) ≡ false

correct_video-FollowsVideo :
    (now : ℤ) (c : Host) (vpts : ℤ) → FollowsVideo (correct_video now c vpts).sys_time_current vpts
unfolding correct_video host_reset_systime llabs
correct_video-FollowsVideo now c vpts =
    elim (Bool-cases (ltb_ℤ (pos avsync_threshold) (llabs (sub_64 c.sys_time_current vpts)))) [
      | inl e ↦ rw (e, sub_64_self vpts) refl
      | inr e ↦ rw e e
    ]

sync_video-off :
    (now : ℤ) (c : Host) (vpts : ℤ)
    → is_invalid c.sys_time_current ≡ false
    → c.sync_enable ≡ false
    → sync_video now c vpts ≡ correct_video now (host_get_avdiff c).1 vpts
unfolding sync_video host_sync_enable host_get_avdiff
sync_video-off now c vpts valid off = simp (valid, off)

-- With synchronisation off and a clock that is set, `host_update_vpts` leaves a system clock at
-- most 100 ticks of 1/90 millisecond from the video time.
pub host_update_vpts-FollowsVideo :
    (now : ℤ) (c : Host) (vpts : ℤ)
    → c.sync_enable ≡ false
    → is_invalid c.sys_time_current ≡ false
    → FollowsVideo (host_update_vpts now c vpts).1.sys_time_current vpts
unfolding host_update_vpts store_vpts
host_update_vpts-FollowsVideo now c vpts off valid =
    let s = mark_video_jump-SameClock c vpts in
    let d : Host = store_vpts (mark_video_jump c vpts) vpts in
    rw (sync_video-off now d vpts (ap is_invalid s.systime_is ∙ valid) (s.enable_is ∙ off))
      (correct_video-FollowsVideo now (host_get_avdiff d).1 vpts)

-- The mode for a distance of `d` milliseconds between audio and video.
abbrev next_mode : ℤ → SyncMode → SyncMode
next_mode d mode =
    if ltb_ℤ (pos avsync_threshold_max) d
    then video_master
    else if is_video_master mode && ltb_ℤ d (pos avsync_threshold_max)
    then audio_master
    else mode

sync_audio-mode :
    (now : ℤ) (c : Host) (apts : ℤ)
    → is_invalid c.sys_time_current ≡ false
    → (sync_audio now c apts).sync_mode ≡ next_mode (llabs (avdiff_of c)) c.sync_mode
unfolding sync_audio host_get_avdiff set_mode
sync_audio-mode now c apts valid =
    rw (valid, correct_audio-mode now (host_get_avdiff c).1 apts) (ground arith)

sync_video-mode :
    (now : ℤ) (c : Host) (vpts : ℤ)
    → is_invalid c.sys_time_current ≡ false
    → c.sync_enable ≡ true
    → (sync_video now c vpts).sync_mode ≡ next_mode (llabs (avdiff_of c)) c.sync_mode
unfolding sync_video host_get_avdiff set_mode host_sync_enable correct_video host_reset_systime
sync_video-mode now c vpts valid on = rw (valid, on) (ground arith)

-- With video and synchronisation on, the audio output open and a clock that is set: from the same
-- mode and the same two times, `host_update_apts` and `host_update_vpts` choose the same mode,
-- whichever of the two times arrives last.
pub host_update-modes_agree :
    (now : ℤ) (c : Host) (apts vpts : ℤ)
    → c.para.has_video ≡ true
    → c.sync_enable ≡ true
    → is_invalid c.sys_time_current ≡ false
    → (host_update_apts false now (record c { pts_video_current = vpts }) apts).1.sync_mode
      ≡ (host_update_vpts now (record c { pts_audio_current = apts }) vpts).1.sync_mode
unfolding host_update_apts host_update_vpts store_apts store_vpts avdiff_of
host_update-modes_agree now c apts vpts video on valid =
    let a : Host = record c { pts_video_current = vpts } in
    let b : Host = record c { pts_audio_current = apts } in
    let s = mark_audio_jump-SameClock a apts in
    let t = mark_video_jump-SameClock b vpts in
    let a' : Host = store_apts (mark_audio_jump a apts) apts in
    let b' : Host = store_vpts (mark_video_jump b vpts) vpts in
    let on_a : (sync_audio now a' apts).sync_mode
        ≡ next_mode (llabs (quot (sub_64 apts vpts) pts_freq_ms)) c.sync_mode =
      sync_audio-mode now a' apts (ap is_invalid s.systime_is ∙ valid)
      ∙ rw (s.video_is, s.mode_is) in
    let on_b : (sync_video now b' vpts).sync_mode
        ≡ next_mode (llabs (quot (sub_64 apts vpts) pts_freq_ms)) c.sync_mode =
      sync_video-mode now b' vpts (ap is_invalid t.systime_is ∙ valid) (t.enable_is ∙ on)
      ∙ rw (t.audio_is, t.mode_is) in
    ap (λ (r : ℤ × Host). r.1.sync_mode)
      (after_audio-sync now a' apts (ap (λ p. p.has_video) s.para_is ∙ video) (s.enable_is ∙ on))
    ∙ on_a
    ∙ sym on_b
