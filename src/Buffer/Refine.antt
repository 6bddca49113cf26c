-- ===== src/Buffer/Refine.antt =====
-- `buf_get` and `buf_put` of a valid buffer, in every position of the two pointers.
use mathlib.Core.Option.{Option}
use dtplayer_c.Base.{
  ℕ, ◌+◌, ◌-◌, ◌≤◌, ◌<◌, ◌≡◌, refl, ◌∙◌, ap, sym, ◌⊎◌, inl, inr, some, List, ◌++◌, arith, min, ltb,
  leb, ◌==◌, Bool-cases, length, take, drop, take-min, length-take, le→leb, ltb→lt, length-drop,
  append_assoc, take-append-drop, append-nil,
}
use dtplayer_c.Ring.{
  region, splice, copy_in-ok, copy_out-ok, length-splice, take-region, drop-region,
  take-region_wrap, drop-region_wrap, region-splice_straight, region-splice_wrapped,
}
use dtplayer_c.Buffer.{
  Buffer, live, buf_get, buf_put, get_straight, get_wrapped, get_from, put_from, put_straight,
  put_wrapped,
}
use dtplayer_c.Buffer.Inv.{IsValid, deref-some}

-- `buf_get` has taken `n` bytes, which are the oldest.
abbrev Took : List ℕ → Buffer → ℕ → Option (ℕ × List ℕ × Buffer) → Type 0
Took mem b n r =
    (b' : Buffer) × (r ≡ some (n, take n (region mem b.rd_ptr b.level), b'))
    × IsValid mem b'
    × (region mem b'.rd_ptr b'.level ≡ drop n (region mem b.rd_ptr b.level))
    × (b'.size ≡ b.size)

module _ {mem : List ℕ} {b : Buffer} (v : IsValid mem b) (n : ℕ) (le : n ≤ b.level) where
  get_straight-Took : b.rd_ptr + n ≤ b.size → Took mem b n (get_straight b mem n)
  unfolding get_straight
  get_straight-Took h = (
    record b { rd_ptr = b.rd_ptr + n; level = b.level - n },
    rw (copy_out-ok mem b.rd_ptr n (omega arith)) (
        ap (λ (t : List ℕ). some (n, t, record b { rd_ptr = b.rd_ptr + n; level = b.level - n }))
          (take-region mem b.rd_ptr b.level n (omega arith) le)),
    ground arith,
    drop-region mem b.rd_ptr b.level n (omega arith) le,
    refl,
  )

  get_wrapped-Took :
      (tail : ℕ)
      → b.wr_ptr ≤ b.rd_ptr
      → b.rd_ptr + tail ≡ b.size
      → tail < n
      → Took mem b n (get_wrapped b mem n tail)
  unfolding get_wrapped
  get_wrapped-Took tail g e h = (
    record b { rd_ptr = n - tail; level = b.level - n },
    rw (copy_out-ok mem b.rd_ptr tail (omega arith), copy_out-ok mem 0 (n - tail) (omega arith))
        (ap (λ (t : List ℕ). some (n, t, record b { rd_ptr = n - tail; level = b.level - n }))
          (take-region_wrap mem b.rd_ptr b.level tail n (omega arith) (omega arith) le)),
    ground arith,
    drop-region_wrap mem b.rd_ptr b.level tail n (omega arith) (omega arith) le (omega arith),
    refl,
  )

  get_from-Took : 0 < b.level → Took mem b n (get_from b mem n)
  unfolding get_from
  get_from-Took pos = elim (Bool-cases (ltb b.rd_ptr b.wr_ptr)) [
    | inl lt ↦ rw lt (get_straight-Took (ground arith))
    | inr ge ↦
        rw (ge, le→leb b.rd_ptr b.size v.rd_in)
          (elim (Bool-cases (leb n (b.size - b.rd_ptr))) [
            | inl fits ↦ rw fits (get_straight-Took (ground arith))
            | inr past ↦
                rw past
                  (get_wrapped-Took (b.size - b.rd_ptr) (ground arith) (omega arith) (ground arith))
          ])
  ]

-- `buf_get` of `n` bytes from a valid buffer returns the oldest `n`, or all if there are fewer,
-- with their number, and leaves the others, in every position of the two pointers.
pub buf_get_lem :
    {mem : List ℕ} {b : Buffer} (n : ℕ) → IsValid mem b → Took mem b (min b.level n) (buf_get b n)
unfolding buf_get
buf_get_lem {mem} {b} n v = elim (Bool-cases (b.level == 0)) [
  | inl e ↦ let z : min b.level n ≡ 0 = ground arith in rw (e, z) (b, refl, v, refl, refl)
  | inr e ↦ rw (e, deref-some v) (get_from-Took v (min b.level n) (omega arith) (ground arith))
]

-- `buf_put` has stored the bytes behind those that were there.
abbrev Stored : List ℕ → Buffer → List ℕ → Option (ℕ × Buffer) → Type 0
Stored mem b bytes r =
    (mem' : List ℕ) × (b' : Buffer) × (r ≡ some (length bytes, b'))
    × IsValid mem' b'
    × (region mem' b'.rd_ptr b'.level ≡ region mem b.rd_ptr b.level ++ bytes)
    × (b'.size ≡ b.size)

module _ {mem : List ℕ} {b : Buffer} (v : IsValid mem b) (bytes : List ℕ)
    (room : b.level + length bytes ≤ b.size) where
  put_straight-Stored :
      b.wr_ptr + length bytes ≤ b.size
      → (b.wr_ptr < b.rd_ptr) ⊎ (b.rd_ptr + b.level ≡ b.wr_ptr)
      → Stored mem b bytes (put_straight b mem bytes)
  unfolding put_straight
  put_straight-Stored h c = (
    splice mem b.wr_ptr bytes,
    record b {
      block = live (splice mem b.wr_ptr bytes);
      wr_ptr = b.wr_ptr + length bytes;
      level = b.level + length bytes;
    },
    rw (copy_in-ok mem b.wr_ptr bytes (omega arith)),
    ground (arith, length-splice mem b.wr_ptr bytes),
    (elim c [
      | inl lt ↦
          region-splice_wrapped mem b.wr_ptr bytes b.rd_ptr b.level (omega arith) (omega arith)
            (omega arith)
      | inr p ↦ region-splice_straight mem b.wr_ptr bytes b.rd_ptr b.level p (omega arith)
    ]),
    refl,
  )

  put_wrapped-Stored :
      (tail : ℕ)
      → b.rd_ptr ≤ b.wr_ptr
      → b.wr_ptr + tail ≡ b.size
      → tail < length bytes
      → Stored mem b bytes (put_wrapped b mem bytes tail)
  unfolding put_wrapped
  put_wrapped-Stored tail g e h =
      let front : List ℕ = take tail bytes in
      let back : List ℕ = drop tail bytes in
      let lf : length front ≡ tail = omega (arith, length-take tail bytes) in
      let lb : length back ≡ length bytes - tail = omega (arith, length-drop tail bytes) in
      let mem' : List ℕ = splice mem b.wr_ptr front in
      let lm : length mem' ≡ b.size = omega (arith, length-splice mem b.wr_ptr front) in
      let first : region mem' b.rd_ptr (b.level + length front)
          ≡ region mem b.rd_ptr b.level ++ front =
        region-splice_straight mem b.wr_ptr front b.rd_ptr b.level (omega arith) (omega arith) in
      let second : region (splice mem' 0 back) b.rd_ptr (b.level + length front + length back)
          ≡ region mem' b.rd_ptr (b.level + length front) ++ back =
        region-splice_wrapped mem' 0 back b.rd_ptr (b.level + length front) (omega arith)
          (omega arith) (omega arith) in
      let total : b.level + length front + length back ≡ b.level + length bytes = omega arith in
      (
        splice mem' 0 back,
        record b {
          block = live (splice mem' 0 back);
          wr_ptr = length bytes - tail;
          level = b.level + length bytes;
        },
        rw (copy_in-ok mem b.wr_ptr front (omega arith), copy_in-ok mem' 0 back (omega arith)),
        ground (arith, length-splice mem' 0 back),
        (rw total at second)
            ∙ ap (λ (t : List ℕ). t ++ back) first
            ∙ append_assoc (region mem b.rd_ptr b.level) front back
            ∙ ap (λ (t : List ℕ). region mem b.rd_ptr b.level ++ t) (take-append-drop tail bytes),
        refl,
      )

  put_from-Stored : b.level < b.size → Stored mem b bytes (put_from b mem bytes)
  unfolding put_from
  put_from-Stored pos = elim (Bool-cases (ltb b.wr_ptr b.rd_ptr)) [
    | inl lt ↦ rw lt (put_straight-Stored (ground arith) (inl (ltb→lt _ _ lt)))
    | inr ge ↦
        rw (ge, le→leb b.wr_ptr b.size v.wr_in)
          (elim (Bool-cases (leb (length bytes) (b.size - b.wr_ptr))) [
            | inl fits ↦ rw fits (put_straight-Stored (ground arith) (inr (ground arith)))
            | inr past ↦
                rw past (
                  put_wrapped-Stored (b.size - b.wr_ptr) (ground arith) (omega arith)
                    (ground arith))
          ])
  ]

-- `buf_put` into a valid buffer stores as many of the first bytes as there is room for, behind
-- those that were there, and returns their number.
pub buf_put_lem :
    {mem : List ℕ} {b : Buffer} (input : List ℕ)
    → IsValid mem b
    → Stored mem b (take (b.size - b.level) input) (buf_put b input)
unfolding buf_put
buf_put_lem {mem} {b} input v = elim (Bool-cases (b.level == b.size)) [
  | inl e ↦
      let z : b.size - b.level ≡ 0 = ground arith in
      rw (e, z) (mem, b, refl, v, sym (append-nil _), refl)
  | inr e ↦
      let swap : min (b.size - b.level) (length input) ≡ min (length input) (b.size - b.level) =
        omega arith in
      rw
        (e, deref-some v, le→leb b.level b.size v.level_in, swap, take-min (b.size - b.level) input)
        (put_from-Stored v (take (b.size - b.level) input)
          (omega (arith, length-take (b.size - b.level) input)) (ground arith))
]
