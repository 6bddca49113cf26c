-- ===== src/Aac/Probe.antt =====
-- `demuxer_aac_probe` reads within its buffer, ends, and accepts a buffer that begins with frames.
use Prim.Native.Nat.{bit_and, bit_or}
use dtplayer_c.Base.{
  not, ◌/◌, ◌^◌, ℕ, zero, suc, ◌+◌, ◌-◌, ◌≤◌, ◌<◌, ◌≡◌, refl, ◌∙◌, Option, none, some, List, [],
  ◌∷◌, min, ltb, leb, arith, length, get_elem?, Bool-cases, inl, inr, if◌then◌else◌, ◌==◌, ltb→lt,
  Option-cases, ◌*◌,
}
use dtplayer_c.Aac.{rb16, rb32, is_header, size_at, count_frames, scan, score, demuxer_aac_probe}

pub at_byte : (bs : List ℕ) (i : ℕ) → i < length bs → (x : ℕ) × (get_elem? bs i ≡ some x)
at_byte [] i h = absurd (omega arith)
at_byte (x ∷ bs) zero h = (x, refl)
at_byte (x ∷ bs) (suc i) h = at_byte bs i (omega arith)

-- The step of the inner loop, its bytes read.
abbrev advance : ℕ → ℕ → ℕ → Option ℕ
advance header fsize room =
    if not (is_header header) then none else if ltb fsize 7 then none else some (min fsize room)

advance-bounds :
    (header fsize room n : ℕ) → 0 < room → advance header fsize room ≡ some n → (0 < n) × (n ≤ room)
advance-bounds header fsize room n pos e = ground arith

module _ (bs : List ℕ) (end : ℕ) (fits : end + 7 ≤ length bs) where
  rb16-Safe : (i : ℕ) → i < end → (header : ℕ) × (rb16 bs i ≡ some header)
  unfolding rb16
  rb16-Safe i lt =
      let (x, ex) = at_byte bs i (omega arith) in
      let (y, ey) = at_byte bs (i + 1) (omega arith) in (bit_or (x * 2 ^ 8) y, rw (ex, ey))

  rb32-Safe : (i : ℕ) → i < end → (word : ℕ) × (rb32 bs (i + 3) ≡ some word)
  unfolding rb32
  rb32-Safe i lt =
      let (x, ex) = at_byte bs (i + 3) (omega arith) in
      let (y, ey) = at_byte bs (i + 3 + 1) (omega arith) in
      let (z, ez) = at_byte bs (i + 3 + 2) (omega arith) in
      let (t, et) = at_byte bs (i + 3 + 3) (omega arith) in
      (bit_or (bit_or (bit_or (x * 2 ^ 24) (y * 2 ^ 16)) (z * 2 ^ 8)) t, rw (ex, ey, ez, et))

  -- Every byte that the step reads is in the buffer.
  size_at-Safe :
      (i : ℕ)
      → i < end
      → (header fsize : ℕ) × (size_at bs end i ≡ some (advance header fsize (end - i)))
  unfolding size_at
  size_at-Safe i lt =
      let (header, eh) = rb16-Safe i lt in
      let (word, ew) = rb32-Safe i lt in
      (
        header,
        bit_and (word / 2 ^ 13) 0x1FFF,
        elim (Bool-cases (is_header header)) [ inl h ↦ rw (eh, ew, h) | inr h ↦ rw (eh, h) ],
      )

  -- Each round goes at least a byte further, so that there is fuel enough.
  pub count_frames-Safe :
      (fuel i frames : ℕ)
      → i ≤ end
      → end - i < fuel
      → (r : ℕ × ℕ) × (count_frames fuel bs end i frames ≡ some r)
        × (i ≤ r.0)
        × (r.0 ≤ end)
        × (frames ≤ r.1)
  unfolding count_frames
  count_frames-Safe zero i frames le f = absurd (omega arith)
  count_frames-Safe (suc fuel) i frames le f = elim (Bool-cases (ltb i end)) [
    | inr e ↦ rw (e, count_frames) ((i, frames), refl, omega arith, le, omega arith)
    | inl e ↦
        let (header, fsize, s) = size_at-Safe i (ltb→lt i end e) in
        elim (Option-cases (advance header fsize (end - i))) [
          | inl stop ↦
              rw (e, count_frames) (rw (s, stop) ((i, frames), refl, omega arith, le, omega arith))
          | inr (n, go) ↦
              let (p, q) = advance-bounds header fsize (end - i) n (ground arith) go in
              let (r, c, lo, hi, more) =
                count_frames-Safe fuel (i + n) (frames + 1) (ground arith) (ground arith) in
              rw (e, count_frames) (rw (s, go) (r, c, omega arith, hi, omega arith))
        ]
  ]

  pub scan-Safe :
      (fuel i m k : ℕ)
      → i ≤ end + 1
      → end + 1 < i + fuel
      → (r : ℕ × ℕ) × (scan fuel bs end i m k ≡ some r) × (0 < i → r.1 ≡ k)
  unfolding scan
  scan-Safe zero i m k le f = absurd (omega arith)
  scan-Safe (suc fuel) i m k le f = elim (Bool-cases (ltb i end)) [
    | inr e ↦ rw (e, scan) ((m, k), refl, λ p. refl)
    | inl e ↦
        let (r, c, lo, hi, _) = count_frames-Safe (suc fuel) i 0 (ground arith) (omega arith) in
        let m' : ℕ = if ltb r.1 m then m else r.1 in
        let k' : ℕ = if i == 0 then r.1 else k in
        let (q, s, same) = scan-Safe fuel (r.0 + 1) m' k' (omega arith) (omega arith) in
        rw (e, scan) (rw c (q, s, λ p. same (omega arith) ∙ ground arith))
  ]

-- The probe of any buffer ends, reads no byte outside it, and answers 0 or 1.
pub demuxer_aac_probe-Safe : (bs : List ℕ) → (n : ℕ) × (demuxer_aac_probe bs ≡ some n) × (n ≤ 1)
unfolding demuxer_aac_probe
demuxer_aac_probe-Safe bs = elim (Bool-cases (ltb (length bs) 10)) [
  | inl e ↦ rw e (0, refl, omega arith)
  | inr e ↦
      let (r, s, _) =
        scan-Safe bs (length bs - 7) (ground arith) (length bs + 1) 0 0 0 (omega arith)
          (ground arith) in
      rw (e, s) (if leb 50 (score r.0 r.1) then 1 else 0, refl, ground arith)
]
