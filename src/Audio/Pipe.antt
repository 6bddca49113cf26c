-- ===== src/Audio/Pipe.antt =====
-- The way of the samples: from the decoder's block through the buffer and the thread to the device.
use dtplayer_c.Base.{
  ℕ, zero, suc, ◌+◌, ◌-◌, ◌≤◌, ◌≡◌, refl, sym, ap, ◌∙◌, Bool, true, false, ◌&&◌, ◌||◌, some, List,
  [], ◌++◌, ltb, ◌==◌, arith, min, length, take, drop, take-append-drop, drop-take, drop-drop,
  drop-min, length-take, append_assoc, eq-nil, Bool-cases, inl, inr, pos, ltb_ℤ, pos_part,
}
use dtplayer_c.Ring.{region}
use dtplayer_c.Buffer.{Buffer, contents, buf_level}
use dtplayer_c.Buffer.Inv.{IsValid, buf_space-some, contents-region}
use dtplayer_c.Buffer.Refine.{buf_get_lem, buf_put_lem}
use dtplayer_c.Audio.{
  AoStatus, idle, pause, running, exit, Device, AudioOut, Round, written, write_round, opened,
  open_round, fetched, play_round, by_status, audio_output_thread, Refill, filled, refill_round,
}

module _ {W : Type 0} (device : Device W) where
  -- The bytes that the device has taken, those in hand and those in the buffer are those in hand and
  -- in the buffer before.
  abbrev pub Played : List ℕ → Round W → Type 0
  Played bytes (out, o, b, w) =
      (mem : List ℕ) × IsValid mem b × (out ++ (o.in_hand ++ contents b) ≡ bytes)

  write_round-Played :
      {mem : List ℕ} (o : AudioOut) (b : Buffer) (w : W)
      → IsValid mem b
      → Played (o.in_hand ++ contents b) (write_round device o b w)
  unfolding write_round written
  write_round-Played {mem} o b w v =
      let n : ℕ = pos_part (device.write o.in_hand w).0 in
      elim (Bool-cases (ltb_ℤ (pos 0) (device.write o.in_hand w).0)) [
        | inl e ↦ rw e (
          mem,
          v,
          sym (append_assoc (take n o.in_hand) (drop n o.in_hand) (contents b))
              ∙ ap (λ (l : List ℕ). l ++ contents b) (take-append-drop n o.in_hand),
        )
        | inr e ↦ rw e (mem, v, refl)
      ]

  open_round-Played :
      {mem : List ℕ} (o : AudioOut) (b : Buffer) (w : W)
      → IsValid mem b
      → Played (o.in_hand ++ contents b) (open_round device o b w)
  unfolding open_round opened
  open_round-Played {mem} o b w v =
      let o' : AudioOut = record o { render_inited = true; aoc = true } in
      elim (Bool-cases o.render_inited) [
        | inl e ↦ simp e (write_round-Played o b w v)
        | inr e ↦ elim (Bool-cases (device.has_device w && device.alloc_ao_context w)) [
          | inr f ↦ simp (e, f) (mem, v, refl)
          | inl f ↦ elim (Bool-cases (ltb_ℤ (device.init w).0 (pos 0))) [
            | inl g ↦ simp (e, f, g) (mem, v, refl)
            | inr g ↦ simp (e, f, g) (write_round-Played o' b (device.init w).1 v)
          ]
        ]
      ]

  fetched-Played :
      {mem : List ℕ} (o : AudioOut) (b : Buffer) (w : W) (n : ℕ) (bytes : List ℕ)
      → IsValid mem b
      → o.in_hand ≡ []
      → (n ≡ 0 → bytes ≡ [])
      → Played (bytes ++ contents b) (fetched device o w (n, bytes, b))
  unfolding fetched
  fetched-Played {mem} o b w zero bytes v e none_read =
      (mem, v, ap (λ (l : List ℕ). l ++ contents b) (e ∙ sym (none_read refl)))
  fetched-Played o b w (suc n) bytes v e none_read =
      let some_read : (suc n == 0) ≡ false = ground arith in
      rw some_read (open_round-Played (record o { in_hand = bytes }) b w v)

  play_round-Played :
      {mem : List ℕ} (o : AudioOut) (b : Buffer) (w : W)
      → IsValid mem b
      → (r : Round W) × (play_round device o b w ≡ some r) × Played (o.in_hand ++ contents b) r
  unfolding play_round
  play_round-Played {mem} o b w v = elim (Bool-cases (length o.in_hand == 0)) [
    | inr e ↦ (
      open_round device o b (device.update_pts w),
      simp e refl,
      open_round-Played o b (device.update_pts w) v,
    )
    | inl e ↦
        let (b', get, v', left, _) = buf_get_lem o.unit_size v in
        let n : ℕ = min b.level o.unit_size in
        let bytes : List ℕ = take n (region mem b.rd_ptr b.level) in
        let empty : o.in_hand ≡ [] = eq-nil o.in_hand (ground arith) in
        let all : bytes ++ contents b' ≡ o.in_hand ++ contents b =
          rw (contents-region v', left, take-append-drop n (region mem b.rd_ptr b.level), empty)
            (sym (contents-region v)) in
        let none_read = λ (z : n ≡ 0). ap (λ (k : ℕ). take k (region mem b.rd_ptr b.level)) z in
        (
          fetched device o (device.update_pts w) (n, bytes, b'),
          simp (e, get) refl,
          rw (sym all) (fetched-Played o b' (device.update_pts w) n bytes v' empty none_read),
        )
  ]

  by_status-Played :
      {mem : List ℕ} (status : AoStatus) (o : AudioOut) (b : Buffer) (w : W)
      → IsValid mem b
      → (r : Round W) × (by_status device status o b w ≡ some r)
        × Played (o.in_hand ++ contents b) r
  unfolding by_status
  by_status-Played {mem} idle o b w v = (([], o, b, w), refl, (mem, v, refl))
  by_status-Played {mem} pause o b w v = (([], o, b, w), refl, (mem, v, refl))
  by_status-Played {mem} exit o b w v =
      (([], record o { has_left = true }, b, w), refl, (mem, v, refl))
  by_status-Played running o b w v = play_round-Played o b w v

  -- A round of the thread does not fault.
  pub audio_output_thread-Played :
      {mem : List ℕ} (o : AudioOut) (b : Buffer) (w : W)
      → IsValid mem b
      → (r : Round W) × (audio_output_thread device o b w ≡ some r)
        × Played (o.in_hand ++ contents b) r
  unfolding audio_output_thread
  audio_output_thread-Played {mem} o b w v = elim (Bool-cases o.has_left) [
    | inl e ↦ (([], o, b, w), simp e refl, (mem, v, refl))
    | inr e ↦ let (r, s, p) = by_status-Played o.status o b w v in (r, simp e s, p)
  ]

-- What the decoder has still to write, which is all there.
abbrev pub left_to_write : Refill → List ℕ
left_to_write d = take d.outlen (drop d.fill_size d.outptr)

abbrev pub IsRefill : Refill → Type 0
IsRefill d = d.fill_size + d.outlen ≤ length d.outptr

-- A round of the refill moves bytes from the decoder to the buffer.
pub refill_round-Moved :
    {W : Type 0} (device : Device W) (is_known : Bool) {mem : List ℕ} (d : Refill) (b : Buffer)
    (w : W)
    → IsValid mem b
    → IsRefill d
    → (d' : Refill) × (b' : Buffer) × (refill_round device is_known d b w ≡ some (d', b'))
      × ((mem' : List ℕ) × IsValid mem' b')
      × IsRefill d'
      × (contents b' ++ left_to_write d' ≡ contents b ++ left_to_write d)
unfolding refill_round filled
refill_round-Moved device is_known {mem} d b w v f =
    let space : ℕ = b.size - b.level in
    let room = buf_space-some v in
    elim (Bool-cases (is_known && (device.too_late (buf_level b) w || ltb space d.outlen))) [
      | inl e ↦ (d, b, simp (room, e) refl, (mem, v), f, refl)
      | inr e ↦
          let rest : List ℕ = left_to_write d in
          let (mem', b', put, v', held, _) = buf_put_lem rest v in
          let n : ℕ = length (take space rest) in
          let few : n ≤ d.outlen =
            omega
              (arith, length-take space rest, length-take d.outlen (drop d.fill_size d.outptr)) in
          let least : min (length rest) space ≡ n = omega (arith, length-take space rest) in
          let left : left_to_write (record d { fill_size = d.fill_size + n; outlen = d.outlen - n })
              ≡ drop space rest =
            ap (take (d.outlen - n)) (sym (drop-drop n d.fill_size d.outptr))
            ∙ sym (drop-take n d.outlen (drop d.fill_size d.outptr))
            ∙ ap (λ (k : ℕ). drop k rest) (sym least)
            ∙ drop-min space rest in
          (
            record d { fill_size = d.fill_size + n; outlen = d.outlen - n },
            b',
            simp (room, e, put) refl,
            (mem', v'),
            omega arith,
            rw (contents-region v', held, contents-region v, left)
                (append_assoc (region mem b.rd_ptr b.level) (take space rest) (drop space rest)
                  ∙ ap (λ (l : List ℕ). region mem b.rd_ptr b.level ++ l)
                      (take-append-drop space rest)),
          )
    ]
