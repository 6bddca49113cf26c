-- ===== src/Ring.antt =====
-- Bytes in a fixed block of memory that is used as a ring, as dtutils/dt_buffer.c and
-- dtstream/stream/stream_cache.c do: `memcpy` out of and into the block, and the bytes that a
-- read position and a fill level stand for.
use dtplayer_c.Base.{
  ℕ, ◌+◌, ◌⊎◌, inl, inr, ◌-◌, ◌≤◌, ◌≡◌, sym, ap, ◌∙◌, Option, some, none, List, ◌++◌, arith, length,
  take, drop, length-append, length-take, length-drop, leb, if◌then◌else◌, le→leb, take-append_le,
  take-append_ge, drop-append_le, drop-append_ge, take_all, drop-drop, take-take_le, drop-take,
  append_assoc,
}

-- `memcpy(out, mem + off, n)`: a fault if the block ends before.
unfoldable pub copy_out : List ℕ → ℕ → ℕ → Option (List ℕ)
copy_out mem off n = if leb (off + n) (length mem) then some (take n (drop off mem)) else none

-- `memcpy(mem + off, bytes, |bytes|)`.
unfoldable pub copy_in : List ℕ → ℕ → List ℕ → Option (List ℕ)
copy_in mem off bytes =
    if leb (off + length bytes) (length mem)
    then some (take off mem ++ (bytes ++ drop (off + length bytes) mem))
    else none

-- The `level` bytes from position `rd` on, going round at the end of the block.
unfoldable pub region : List ℕ → ℕ → ℕ → List ℕ
region mem rd level = take level (drop rd mem ++ mem)

-- What a successful `copy_in` leaves.
pub splice : List ℕ → ℕ → List ℕ → List ℕ
splice mem off bytes = take off mem ++ (bytes ++ drop (off + length bytes) mem)

pub copy_in-ok :
    (mem : List ℕ) (off : ℕ) (bytes : List ℕ)
    → off + length bytes ≤ length mem
    → copy_in mem off bytes ≡ some (splice mem off bytes)
unfolding copy_in splice
copy_in-ok mem off bytes h = rw (le→leb _ _ h)

pub length-splice :
    (mem : List ℕ) (off : ℕ) (bytes : List ℕ)
    → off + length bytes ≤ length mem
    → length (splice mem off bytes) ≡ length mem
unfolding splice
length-splice mem off bytes h = omega (
  arith,
  length-append (take off mem) (bytes ++ drop (off + length bytes) mem),
  length-append bytes (drop (off + length bytes) mem),
  length-take off mem,
  length-drop (off + length bytes) mem,
)

pub copy_out-ok :
    (mem : List ℕ) (off n : ℕ)
    → off + n ≤ length mem
    → copy_out mem off n ≡ some (take n (drop off mem))
unfolding copy_out
copy_out-ok mem off n h = rw (le→leb _ _ h)

module _ (mem : List ℕ) (rd level : ℕ) where
  pub length-region : rd ≤ length mem → level ≤ length mem → length (region mem rd level) ≡ level
  unfolding region
  length-region h k =
      omega (arith, length-take level (drop rd mem ++ mem), length-append (drop rd mem) mem)

  -- A read that does not reach the end of the block takes the first bytes of the region.
  pub take-region :
      (n : ℕ)
      → rd + n ≤ length mem
      → n ≤ level
      → take n (drop rd mem) ≡ take n (region mem rd level)
  unfolding region
  take-region n h k = sym (
      take-take_le n level (drop rd mem ++ mem) k
      ∙ take-append_le n (drop rd mem) mem (omega (arith, length-drop rd mem)))

  pub drop-region :
      (n : ℕ)
      → rd + n ≤ length mem
      → n ≤ level
      → region mem (rd + n) (level - n) ≡ drop n (region mem rd level)
  unfolding region
  drop-region n h k = sym (
      drop-take n level (drop rd mem ++ mem)
      ∙ ap (take (level - n)) (
          drop-append_le n (drop rd mem) mem (omega (arith, length-drop rd mem))
          ∙ ap (λ (t : List ℕ). t ++ mem) (drop-drop n rd mem)))

  -- A read in two parts: the `tail` bytes up to the end of the block, and the rest from its start.
  module _ (tail n : ℕ) (end : rd + tail ≡ length mem) (past : tail ≤ n) (inside : n ≤ level) where
    pub take-region_wrap :
        take tail (drop rd mem) ++ take (n - tail) mem ≡ take n (region mem rd level)
    unfolding region
    take-region_wrap =
        let e : length (drop rd mem) ≡ tail = omega (arith, length-drop rd mem) in
        sym (
          take-take_le n level (drop rd mem ++ mem) inside
          ∙ take-append_ge n (drop rd mem) mem (omega (arith, length-drop rd mem))
          ∙ rw (take_all tail (drop rd mem) (omega (arith, length-drop rd mem)), e))

    pub drop-region_wrap :
        level ≤ length mem → region mem (n - tail) (level - n) ≡ drop n (region mem rd level)
    unfolding region
    drop-region_wrap l =
        let e : length (drop rd mem) ≡ tail = omega (arith, length-drop rd mem) in
        sym (
          drop-take n level (drop rd mem ++ mem)
          ∙ ap (take (level - n))
              (drop-append_ge n (drop rd mem) mem (omega (arith, length-drop rd mem)))
          ∙ rw e (
              sym (
                take-append_le (level - n) (drop (n - tail) mem) mem
                  (omega (arith, length-drop (n - tail) mem)))))

  -- The region in two forms: within the block, and past its end.
  region_straight : rd + level ≤ length mem → region mem rd level ≡ drop rd (take (rd + level) mem)
  unfolding region
  region_straight h =
      take-append_le level (drop rd mem) mem (omega (arith, length-drop rd mem))
      ∙ sym (
          drop-take rd (rd + level) mem
          ∙ (let e : rd + level - rd ≡ level = omega arith in ap (λ k. take k (drop rd mem)) e))

  region_wrapped :
      rd ≤ length mem
      → length mem ≤ rd + level
      → region mem rd level ≡ drop rd mem ++ take (rd + level - length mem) mem
  unfolding region
  region_wrapped h k =
      take-append_ge level (drop rd mem) mem (omega (arith, length-drop rd mem))
      ∙ ap (λ k. drop rd mem ++ take k mem) (omega (arith, length-drop rd mem))

module _ (mem : List ℕ) (wr : ℕ) (bytes : List ℕ) where
  take-splice :
      wr ≤ length mem → take (wr + length bytes) (splice mem wr bytes) ≡ take wr mem ++ bytes
  unfolding splice
  take-splice h =
      let e : wr + length bytes - length (take wr mem) ≡ length bytes =
        omega (arith, length-take wr mem) in
      take-append_ge (wr + length bytes) (take wr mem) _ (omega (arith, length-take wr mem))
      ∙ rw e (
          ap (λ (t : List ℕ). take wr mem ++ t)
            (take-append_le (length bytes) bytes _ (omega arith)
              ∙ take_all (length bytes) bytes (omega arith)))

  drop-splice :
      (rd : ℕ)
      → wr ≤ length mem
      → wr + length bytes ≤ rd
      → drop rd (splice mem wr bytes) ≡ drop rd mem
  unfolding splice
  drop-splice rd h k =
      let e : rd - length (take wr mem) - length bytes ≡ rd - wr - length bytes =
        omega (arith, length-take wr mem) in
      let f : wr + length bytes + (rd - wr - length bytes) ≡ rd = omega arith in
      drop-append_ge rd (take wr mem) _ (omega (arith, length-take wr mem))
      ∙ drop-append_ge (rd - length (take wr mem)) bytes _ (omega (arith, length-take wr mem))
      ∙ rw e (drop-drop (rd - wr - length bytes) (wr + length bytes) mem)
      ∙ ap (λ k. drop k mem) f

  -- A write that starts where the region ends extends the region by its bytes, if it stays within
  -- the block and, where the region has gone round, below the read position.
  pub region-splice_straight :
      (rd level : ℕ)
      → rd + level ≡ wr
      → wr + length bytes ≤ length mem
      → region (splice mem wr bytes) rd (level + length bytes) ≡ region mem rd level ++ bytes
  region-splice_straight rd level p h =
      region_straight (splice mem wr bytes) rd (level + length bytes)
        (omega (arith, length-splice mem wr bytes h))
      ∙ rw (e, take-splice (omega arith))
          (drop-append_le rd (take wr mem) bytes (omega (arith, length-take wr mem))
            ∙ ap (λ (t : List ℕ). t ++ bytes)
                (sym (region_straight mem rd level (omega arith) ∙ rw p)))
    where
      e : rd + (level + length bytes) ≡ wr + length bytes
      e = omega arith

  pub region-splice_wrapped :
      (rd level : ℕ)
      → rd + level ≡ wr + length mem
      → rd ≤ length mem
      → wr + length bytes ≤ rd
      → region (splice mem wr bytes) rd (level + length bytes) ≡ region mem rd level ++ bytes
  region-splice_wrapped rd level p h k =
      region_wrapped (splice mem wr bytes) rd (level + length bytes)
        (omega (arith, length-splice mem wr bytes (omega arith)))
        (omega (arith, length-splice mem wr bytes (omega arith)))
      ∙ rw (e, take-splice (omega arith), drop-splice rd (omega arith) k)
          (sym (append_assoc (drop rd mem) (take wr mem) bytes)
            ∙ ap (λ (t : List ℕ). t ++ bytes)
                (sym (region_wrapped mem rd level h (omega arith) ∙ rw f)))
    where
      e : rd + (level + length bytes) - length (splice mem wr bytes) ≡ wr + length bytes
      e = omega (arith, length-splice mem wr bytes (omega arith))

      f : rd + level - length mem ≡ wr
      f = omega arith

-- Whatever form the position `p` bytes into a region has, the region from there is what is left.
pub region_at :
    (mem : List ℕ) (rd level p rd' : ℕ)
    → p ≤ level
    → rd ≤ length mem
    → rd' ≤ length mem
    → level ≤ length mem
    → (rd + p ≡ rd') ⊎ (rd + p ≡ rd' + length mem)
    → region mem rd' (level - p) ≡ drop p (region mem rd level)
region_at mem rd level p rd' h k k' l (inl e) =
    rw (← e) (drop-region mem rd level p (omega arith) h)
region_at mem rd level p rd' h k k' l (inr e) =
    let f : p - (length mem - rd) ≡ rd' = omega arith in
    rw f at (drop-region_wrap mem rd level (length mem - rd) p (omega arith) (omega arith) h l)
