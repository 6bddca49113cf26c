-- ===== src/Audio/Run.antt =====
-- The decoder, the buffer and the thread, round by round.
use dtplayer_c.Base.{
  ℕ, ◌≡◌, refl, sym, ap, ◌∙◌, Bool, Option, some, List, [], ◌∷◌, ◌++◌, ◌>>=◌, ◌==◌, if◌then◌else◌,
  arith, length, take, drop, take_all, append-nil, append_assoc, Bool-cases, inl, inr,
}
use dtplayer_c.Buffer.{Buffer, contents}
use dtplayer_c.Buffer.Inv.{IsValid}
use dtplayer_c.Audio.{
  running, exit, Device, AudioOut, audio_output_start, audio_output_pause, ask_exit,
  audio_output_thread, Refill, refill_round,
}
use dtplayer_c.Audio.Pipe.{audio_output_thread-Played, left_to_write, IsRefill, refill_round-Moved}

-- The output, the buffer, the decoder's block and the device.
pub record Pipe (W : Type 0) : Type 0 where
  pub out : AudioOut
  pub buffer : Buffer
  pub block : Refill
  pub world : W

-- A round of the output's thread, a round of the refill, a new block of samples, or a call from
-- outside. A call of `audio_output_resume` with an open device does to the thread what a start does.
pub data Action : Type 0 where
  play_round : Action
  refill : Bool → Action
  decoded : List ℕ → Action
  started paused stopped : Action

-- The decoder has a new block once it has written the one before.
unfoldable pub new_block : List ℕ → Refill → List ℕ × Refill
new_block pcm d =
    if d.outlen == 0
    then (pcm, record { outptr = pcm; fill_size = 0; outlen = length pcm })
    else ([], d)

-- What the device has taken, what has been decoded, and the state after the step.
abbrev pub Moves : Type 0 → Type 0
Moves W = List ℕ × List ℕ × Pipe W

-- What is behind moves up.
behind :
    (a i c i' c' rest : List ℕ)
    → a ++ (i' ++ c') ≡ i ++ c
    → a ++ (i' ++ (c' ++ rest)) ≡ (i ++ (c ++ rest)) ++ []
behind a i c i' c' rest e =
    simp append-nil (simp append_assoc at (ap (λ (l : List ℕ). l ++ rest) e))

-- With nothing left to write, a new block is last.
new_behind :
    (i c pcm old : List ℕ) {n : ℕ} → n ≡ 0 → i ++ (c ++ pcm) ≡ (i ++ (c ++ take n old)) ++ pcm
new_behind i c pcm old e = rw e (simp (append-nil, append_assoc) refl)

module _ {W : Type 0} (device : Device W) where
  unfoldable pub step : Action → Pipe W → Option (Moves W)
  step play_round s = audio_output_thread device s.out s.buffer s.world >>= λ r.
      some (r.0, [], record s { out = r.1; buffer = r.2; world = r.3 })
  step (refill is_known) s = refill_round device is_known s.block s.buffer s.world >>= λ r.
      some ([], [], record s { block = r.0; buffer = r.1 })
  step (decoded pcm) s =
      some ([], (new_block pcm s.block).0, record s { block = (new_block pcm s.block).1 })
  step started s = some ([], [], record s { out = audio_output_start s.out })
  step paused s =
      let r = audio_output_pause device s.out s.world in
      some ([], [], record s { out = r.0; world = r.1 })
  step stopped s = some ([], [], record s { out = ask_exit s.out })

  unfoldable pub run : List Action → Pipe W → Option (Moves W)
  run [] s = some ([], [], s)
  run (action ∷ actions) s =
      step action s >>= λ r. run actions r.2 >>= λ q. some (r.0 ++ q.0, r.1 ++ q.1, q.2)

  -- The bytes on their way, those nearest to the device first.
  abbrev pub under_way : Pipe W → List ℕ
  under_way s = s.out.in_hand ++ (contents s.buffer ++ left_to_write s.block)

  abbrev pub IsPipe : Pipe W → Type 0
  IsPipe s = ((mem : List ℕ) × IsValid mem s.buffer) × IsRefill s.block

  abbrev pub Flows : Pipe W → Option (Moves W) → Type 0
  Flows s r =
      (out pcm : List ℕ) × (s' : Pipe W) × (r ≡ some (out, pcm, s'))
      × IsPipe s'
      × (out ++ under_way s' ≡ under_way s ++ pcm)

  step-Flows : (action : Action) (s : Pipe W) → IsPipe s → Flows s (step action s)
  unfolding step new_block audio_output_start audio_output_pause ask_exit
  step-Flows play_round s ((mem, v), f) =
      let (r, e, (mem', v', p)) = audio_output_thread-Played device s.out s.buffer s.world v in
      (
        r.0,
        [],
        record s { out = r.1; buffer = r.2; world = r.3 },
        rw e refl,
        ((mem', v'), f),
        behind r.0 s.out.in_hand (contents s.buffer) r.1.in_hand (contents r.2)
            (left_to_write s.block) p,
      )
  step-Flows (refill is_known) s ((mem, v), f) =
      let (d, b, e, v', f', p) = refill_round-Moved device is_known s.block s.buffer s.world v f in
      (
        [],
        [],
        record s { block = d; buffer = b },
        rw e refl,
        (v', f'),
        ap (λ (l : List ℕ). s.out.in_hand ++ l) p ∙ sym (append-nil _),
      )
  step-Flows (decoded pcm) s (v, f) = elim (Bool-cases (s.block.outlen == 0)) [
    | inr e ↦ ([], [], s, simp e refl, (v, f), sym (append-nil _))
    | inl e ↦
        let none_left : s.block.outlen ≡ 0 = ground arith in
        (
          [],
          pcm,
          record s { block = record { outptr = pcm; fill_size = 0; outlen = length pcm } },
          simp e refl,
          (v, omega arith),
          ap (λ (l : List ℕ). s.out.in_hand ++ (contents s.buffer ++ l))
                (take_all (length pcm) pcm (omega arith))
              ∙ new_behind s.out.in_hand (contents s.buffer) pcm
                  (drop s.block.fill_size s.block.outptr) none_left,
        )
  ]
  step-Flows started s v =
      ([], [], record s { out = record s.out { status = running } }, refl, v, sym (append-nil _))
  step-Flows paused s v =
      let r = audio_output_pause device s.out s.world in
      ([], [], record s { out = r.0; world = r.1 }, refl, v, sym (append-nil _))
  step-Flows stopped s v =
      ([], [], record s { out = record s.out { status = exit } }, refl, v, sym (append-nil _))

  -- However the rounds of the output's thread and of the refill, the blocks of samples from the
  -- decoder and the calls follow one another, none faults, and what the device has taken, followed by
  -- what is in the thread's hand, in the buffer and still to be written, is what was there at first,
  -- followed by the new blocks: no byte is lost, doubled or out of order. The buffer is to be valid.
  pub run-Flows : (actions : List Action) (s : Pipe W) → IsPipe s → Flows s (run actions s)
  unfolding run
  run-Flows [] s v = ([], [], s, refl, v, sym (append-nil _))
  run-Flows (action ∷ actions) s v =
      let (out, pcm, s1, e, v1, p) = step-Flows action s v in
      let (out', pcm', s2, e', v2, p') = run-Flows actions s1 v1 in
      (
        out ++ out',
        pcm ++ pcm',
        s2,
        rw (e, e') refl,
        v2,
        append_assoc out out' (under_way s2)
            ∙ ap (λ (l : List ℕ). out ++ l) p'
            ∙ sym (append_assoc out (under_way s1) pcm')
            ∙ ap (λ (l : List ℕ). l ++ pcm') p
            ∙ append_assoc (under_way s) pcm pcm',
      )
