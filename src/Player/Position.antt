-- ===== src/Player/Position.antt =====
-- The position that `calc_cur_time` computes.
use dtplayer_c.Base.{
  ℕ, ◌+◌, ◌/◌, ◌<◌, ◌≡◌, refl, ap, ◌∙◌, true, false, arith, ℤ, pos, negsuc, ltb_ℤ, eqb_ℤ, sub_64,
  add_64, mul_64, int64, int64_pos, quot, two_63, ◌-ℤ◌, ◌+ℤ◌,
}
use dtplayer_c.Host.Clock.{is_invalid}
use dtplayer_c.Host.State.{HostState}
use dtplayer_c.Player.{State, Ctrl}
use dtplayer_c.Player.Time.{
  set_start, set_first, set_full, set_point, set_time, times, calc_cur_time,
}

-- Both streams play without a jump, the first time of the video is known, and the time of the video is
-- `d` ticks behind the start of the file, at `st`.
pub record Plain (st d : ℕ) (s : State) (c : Ctrl) (h : HostState) : Type 0 where
  pub both : (c.has_audio ≡ true) × (c.has_video ≡ true)
  pub no_jump : (h.audio_discontinue_flag ≡ false) × (h.video_discontinue_flag ≡ false)
  pub no_point : ltb_ℤ (pos 0) h.audio_discontinue_point ≡ false
  pub no_offset : s.discontinue_point_ms ≡ pos 0
  pub starts : c.start_time ≡ pos st
  pub known : is_invalid h.pts_video_first ≡ false
  pub video_at : h.pts_video_current ≡ pos (st + d)

-- The position of `n` ticks after 0 ms.
set_time-ticks :
    (s : State) (st d : ℕ)
    → s.discontinue_point_ms ≡ pos 0
    → st + d < two_63
    → ((set_time s (pos (st + d), pos st)).cur_time ≡ pos (d / 90000))
      × ((set_time s (pos (st + d), pos st)).cur_time_ms ≡ pos (d / 90))
unfolding set_time
set_time-ticks s st d e h =
    let z : mul_64 (pos 0) 90 ≡ pos 0 = unfold mul_64 in (int64_pos 0 (omega arith)) in
    let a : add_64 (pos (st + d)) (pos 0) ≡ pos (st + d) =
      unfold add_64 ◌+ℤ◌ in (ap int64 (ground arith) ∙ int64_pos (st + d) h) in
    let b : sub_64 (pos (st + d)) (pos st) ≡ pos d =
      unfold sub_64 ◌-ℤ◌ in (ap int64 (ground arith) ∙ int64_pos d (omega arith)) in
    simp (e, z, a, b) (unfold quot in (ground arith, ground arith))

module _ {st d : ℕ} {s : State} {c : Ctrl} {h : HostState} (p : Plain st d s c h) where
  set_first-Plain : (s' : State) → set_first s' c h ≡ record c { first_time = pos st }
  unfolding set_first
  set_first-Plain s' =
      let e : ltb_ℤ (pos st) (pos 0) ≡ false = ground arith in
      let f : eqb_ℤ (pos st) (negsuc 0) ≡ false = ground arith in simp (p.starts, e, f)

  times-Plain : times (record c { first_time = pos st }) h ≡ (pos (st + d), pos st)
  unfolding times
  times-Plain = simp (p.both.0, p.both.1, p.no_jump.0, p.no_jump.1, p.known, p.no_point, p.video_at)

  offset-Plain :
      (duration : ℤ)
      → (set_point
          (set_full (set_start s c) duration)
          (record c { first_time = pos st })
          h).discontinue_point_ms
        ≡ pos 0
  unfolding set_point set_full set_start
  offset-Plain duration = ground (arith, p.no_offset, p.no_jump.0)

-- Where audio and video play without a jump from a known start, `calc_cur_time` sets the position to
-- the time of the video since the start of the file, in seconds and in milliseconds, rounded down, and
-- notes the start as the first time.
pub calc_cur_time-Plain :
    (st d : ℕ) (s : State) (c : Ctrl) (duration : ℤ) (h : HostState)
    → Plain st d s c h
    → st + d < two_63
    → ((calc_cur_time s c duration h).0.cur_time ≡ pos (d / 90000))
      × ((calc_cur_time s c duration h).0.cur_time_ms ≡ pos (d / 90))
      × ((calc_cur_time s c duration h).1.first_time ≡ pos st)
unfolding calc_cur_time
calc_cur_time-Plain st d s c duration h p r =
    let q : State =
      set_point (set_full (set_start s c) duration) (record c { first_time = pos st }) h in
    let (a, b) = set_time-ticks q st d (offset-Plain p duration) r in
    simp (set_first-Plain p (set_start s c), times-Plain p) (a, b, refl)
