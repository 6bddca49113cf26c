-- ===== src/Audio/Control.antt =====
-- dtaudio/dtaudio.c: the state of the audio part, and the time that it reports.
use dtplayer_c.Base.{
  ℕ, ◌-◌, ◌≤◌, ◌<◌, ◌≡◌, refl, ap, Bool, true, false, Option, none, some, ltb, if◌then◌else◌, ◌>>=◌,
  arith, ℤ, pos, negsuc, ltb_ℤ, eqb_ℤ, sub_64, int64_pos, ◌-ℤ◌, two_63, Bool-cases, inl, inr,
}
use dtplayer_c.Audio.{
  running, Device, AudioOut, audio_output_start, audio_output_pause, audio_output_resume,
  audio_output_get_latency,
}

-- `dtaudio_status_t`
pub data AudioState : Type 0 where
  idle initing inited running_state active paused stop terminated : AudioState

-- `audio_state < AUDIO_STATUS_INITED`
unfoldable pub before_inited : AudioState → Bool
before_inited idle = true
before_inited initing = true
before_inited _ = false

-- `dtaudio_context_t`, as far as these calls use it.
pub record AudioCtx : Type 0 where
  pub audio_state : AudioState
  pub audio_out : AudioOut

unfoldable pub start_from : AudioState → AudioCtx → ℤ × AudioCtx
unfolding audio_output_start
start_from inited a =
    (pos 0, record a { audio_out = audio_output_start a.audio_out; audio_state = active })
start_from _ a = (negsuc 0, a)

unfoldable pub audio_start : AudioCtx → ℤ × AudioCtx
audio_start a = start_from a.audio_state a

-- The time of the decoder less the latency, but not below 0.
unfoldable pub less_delay : ℤ → ℤ → ℤ
less_delay pts delay =
    let d = if eqb_ℤ delay (negsuc 0) then pos 0 else delay in
    if ltb_ℤ d pts then sub_64 pts d else pos 0

not_minus : (n : ℕ) → eqb_ℤ (pos n) (negsuc 0) ≡ false
not_minus n = ground arith

sub_64-pos : (p d : ℕ) → d ≤ p → p < two_63 → sub_64 (pos p) (pos d) ≡ pos (p - d)
unfolding sub_64 ◌-ℤ◌
sub_64-pos p d le lt =
    let e : pos p -ℤ pos d ≡ pos (p - d) = ground arith in rw e (int64_pos (p - d) (omega arith))

less_delay-pos : (p d : ℕ) → p < two_63 → less_delay (pos p) (pos d) ≡ pos (p - d)
unfolding less_delay
less_delay-pos p d lt = elim (Bool-cases (ltb d p)) [
  | inl e ↦
      let t : ltb_ℤ (pos d) (pos p) ≡ true = ground arith in
      simp (not_minus d, t) (sub_64-pos p d (ground arith) lt)
  | inr e ↦
      let t : ltb_ℤ (pos d) (pos p) ≡ false = ground arith in
      let z : p - d ≡ 0 = ground arith in simp (not_minus d, t, z) refl
]

module _ {W : Type 0} (device : Device W) where
  unfoldable pub pause_from : AudioState → AudioCtx → W → AudioCtx × W
  pause_from active a w =
      let r = audio_output_pause device a.audio_out w in
      (record a { audio_out = r.0; audio_state = paused }, r.1)
  pause_from _ a w = (a, w)

  unfoldable pub audio_pause : AudioCtx → W → AudioCtx × W
  audio_pause a w = pause_from a.audio_state a w

  unfoldable pub resume_from : AudioState → AudioCtx → W → Option (AudioCtx × W)
  resume_from paused a w = audio_output_resume device a.audio_out w >>= λ r.
      some (record a { audio_out = r.0; audio_state = active }, r.1)
  resume_from _ a w = some (a, w)

  unfoldable pub audio_resume : AudioCtx → W → Option (AudioCtx × W)
  audio_resume a w = resume_from a.audio_state a w

  -- `dec_pts` is what `audio_decoder_get_pts` returns.
  unfoldable pub audio_get_current_pts : ℤ → AudioCtx → W → ℤ × AudioCtx
  audio_get_current_pts dec_pts a w =
      if before_inited a.audio_state
      then (negsuc 0, a)
      else if eqb_ℤ dec_pts (negsuc 0)
      then (negsuc 0, a)
      else let r = audio_output_get_latency device a.audio_out w in
        (less_delay dec_pts r.0, record a { audio_out = r.1 })

  -- The time that is sent to the host, where one is.
  unfoldable pub audio_update_pts : ℤ → AudioCtx → W → Option ℤ × AudioCtx
  audio_update_pts dec_pts a w =
      if before_inited a.audio_state
      then (none, a)
      else if eqb_ℤ dec_pts (negsuc 0)
      then (none, a)
      else let r = audio_output_get_latency device a.audio_out w in
        (some (less_delay dec_pts r.0), record a { audio_out = r.1 })

  -- Where the audio part is set up and the decoder has a time, `audio_update_pts` sends the host this time
  -- less the latency, or 0 where the latency is more, and `audio_get_current_pts` returns it. Where the
  -- decoder has no time, which is -1, or the audio part is not set up, nothing is sent, and -1 is returned.
  -- The time is to be below 2 ^ 63 and the latency not negative.
  pub audio_update_pts-current :
      (p d : ℕ) (a : AudioCtx) (w : W)
      → p < two_63
      → (audio_output_get_latency device a.audio_out w).0 ≡ pos d
      → ((audio_update_pts (pos p) a w).0
          ≡ (if before_inited a.audio_state then none else some (pos (p - d))))
        × ((audio_get_current_pts (pos p) a w).0
            ≡ (if before_inited a.audio_state then negsuc 0 else pos (p - d)))
        × ((audio_update_pts (negsuc 0) a w).0 ≡ none)
        × ((audio_get_current_pts (negsuc 0) a w).0 ≡ negsuc 0)
  unfolding audio_update_pts audio_get_current_pts
  audio_update_pts-current p d a w lt e = elim (Bool-cases (before_inited a.audio_state)) [
    | inl f ↦ (simp f refl, simp f refl, simp f refl, simp f refl)
    | inr f ↦ (
      simp (f, not_minus p, e, less_delay-pos p d lt) refl,
      simp (f, not_minus p, e, less_delay-pos p d lt) refl,
      simp f refl,
      simp f refl,
    )
  ]

  audio_pause-active :
      (a : AudioCtx) (w : W) → a.audio_state ≡ active → audio_pause a w ≡ pause_from active a w
  unfolding audio_pause
  audio_pause-active a w e = ap (λ (s : AudioState). pause_from s a w) e

  -- An audio part that is paused before its device is open, which succeeds, faults when it is resumed.
  pub audio_resume-faults :
      (a : AudioCtx) (w : W)
      → a.audio_state ≡ active
      → a.audio_out.aoc ≡ false
      → audio_resume (audio_pause a w).0 (audio_pause a w).1 ≡ none
  unfolding audio_resume resume_from audio_output_pause audio_output_resume pause_from
  audio_resume-faults a w e f = rw (audio_pause-active a w e) (simp f refl)

  -- An audio part that plays to an open device plays again after a pause and a resume: its states are
  -- as before, and the device has been paused and resumed.
  pub audio_resume-pause :
      (a : AudioCtx) (w : W)
      → a.audio_state ≡ active
      → a.audio_out.status ≡ running
      → a.audio_out.aoc ≡ true
      → audio_resume (audio_pause a w).0 (audio_pause a w).1
        ≡ some (a, device.resume_device (device.pause_device w))
  unfolding audio_resume resume_from audio_output_pause audio_output_resume pause_from
  audio_resume-pause a w e s f = rw (audio_pause-active a w e) (simp f (ground arith))
