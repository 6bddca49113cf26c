-- ===== src/Cache/Fifo.antt =====
-- `cache_read` on a valid cache: first in, first out.
use dtplayer_c.Base.{
  ℕ, ◌+◌, ◌-◌, ◌≤◌, ◌<◌, ◌≡◌, refl, ap, ◌⊎◌, inl, inr, Option, some, List, arith, min, ltb, leb,
  ◌==◌, Bool-cases, take, drop, le→leb, ◌+ℤ◌,
}
use dtplayer_c.Ring.{
  region, copy_out-ok, take-region, drop-region, take-region_wrap, drop-region_wrap,
}
use dtplayer_c.Cache.{Cache, consume, read_straight, read_wrapped, read_from, cache_read}
use dtplayer_c.Cache.Inv.{IsValid, contents, Keeps, window}

-- `cache_read` has taken the `n` oldest bytes, by an advance of the read position.
abbrev Took : Cache → ℕ → Option (ℕ × List ℕ × Cache) → Type 0
Took c n r =
    (rp : ℕ) × (r ≡ some (n, take n (contents c), consume c n rp))
    × IsValid (consume c n rp)
    × (contents (consume c n rp) ≡ drop n (contents c))
    × ((c.rp + n ≡ rp) ⊎ (c.rp + n ≡ rp + c.total_size))

module _ {c : Cache} (v : IsValid c) (n : ℕ) (le : n ≤ c.level) where
  read_straight-Took : c.rp + n ≤ c.total_size → Took c n (read_straight c n)
  unfolding read_straight consume contents
  read_straight-Took h = (
    c.rp + n,
    rw (copy_out-ok c.mem c.rp n (omega arith)) (
        ap (λ (t : List ℕ). some (n, t, consume c n (c.rp + n)))
          (take-region c.mem c.rp c.level n (omega arith) le)),
    ground arith,
    drop-region c.mem c.rp c.level n (omega arith) le,
    inl refl,
  )

  read_wrapped-Took :
      (tail : ℕ)
      → c.wp ≤ c.rp
      → c.rp + tail ≡ c.total_size
      → tail < n
      → Took c n (read_wrapped c n tail)
  unfolding read_wrapped consume contents
  read_wrapped-Took tail g e h = (
    n - tail,
    rw (copy_out-ok c.mem c.rp tail (omega arith), copy_out-ok c.mem 0 (n - tail) (omega arith))
        (ap (λ (t : List ℕ). some (n, t, consume c n (n - tail)))
          (take-region_wrap c.mem c.rp c.level tail n (omega arith) (omega arith) le)),
    ground arith,
    drop-region_wrap c.mem c.rp c.level tail n (omega arith) (omega arith) le (omega arith),
    inr (omega arith),
  )

  read_from-Took : 0 < n → Took c n (read_from c n)
  unfolding read_from
  read_from-Took p = elim (Bool-cases (ltb c.rp c.wp)) [
    | inl lt ↦ rw lt (read_straight-Took (ground arith))
    | inr ge ↦
        rw (ge, le→leb c.rp c.total_size v.rp_in)
          (elim (Bool-cases (leb n (c.total_size - c.rp))) [
            | inl fits ↦ rw fits (read_straight-Took (ground arith))
            | inr past ↦ rw past (
                read_wrapped-Took (c.total_size - c.rp) (ground arith) (omega arith) (ground arith))
          ])
  ]

-- The read position moves on by `m`: the bytes passed join those that are kept.
pub consume-Keeps :
    {c : Cache} (k m rp : ℕ)
    → Keeps k c
    → m ≤ c.level
    → rp ≤ c.total_size
    → (c.rp + m ≡ rp) ⊎ (c.rp + m ≡ rp + c.total_size)
    → Keeps (k + m) (consume c m rp) × (window (k + m) (consume c m rp) ≡ window k c)
unfolding consume window ◌+ℤ◌
consume-Keeps {c} k m rp keep le in_block moved =
    let total : k + m + (c.level - m) ≡ k + c.level = omega arith in
    (
      record {
        size_is = ground arith;
        pre_in = keep.pre_in;
        room = omega arith;
        pre_ends = omega (arith, keep.pre_ends, moved);
      },
      ap (λ (x : ℕ). region c.mem c.pre_rp x) total,
    )

-- What a read of `m` bytes does to a cache that keeps `k`.
abbrev pub Read : ℕ → ℕ → Cache → Option (ℕ × List ℕ × Cache) → Type 0
Read k m c r =
    (c' : Cache) × (r ≡ some (m, take m (contents c), c'))
    × IsValid c'
    × (contents c' ≡ drop m (contents c))
    × Keeps (k + m) c'
    × (window (k + m) c' ≡ window k c)

read_from-Read :
    {c : Cache} (k m : ℕ) → IsValid c → Keeps k c → m ≤ c.level → 0 < m → Read k m c (read_from c m)
unfolding consume
read_from-Read {c} k m v keep le p =
    let (rp, r, v', d, moved) = read_from-Took v m le p in
    let (keep', w) = consume-Keeps k m rp keep le v'.rp_in moved in
    (consume c m rp, r, v', d, keep', w)

-- From a valid cache that keeps `k` bytes, a read of `n` bytes returns the oldest `n`, or all if
-- there are fewer, with their number, and leaves the others. The bytes read join those that are
-- kept: the window stays as it was.
pub cache_read_lem :
    {c : Cache} (n k : ℕ) → IsValid c → Keeps k c → Read k (min c.level n) c (cache_read c n)
unfolding cache_read
cache_read_lem {c} n k v keep = elim (Bool-cases (min c.level n == 0)) [
  | inl e ↦
      let z : min c.level n ≡ 0 = ground arith in
      let y : k + 0 ≡ k = omega arith in rw (z, y) (c, refl, v, refl, keep, refl)
  | inr e ↦ rw e (read_from-Read k (min c.level n) v keep (omega arith) (ground arith))
]

-- What a read of `n` bytes returns and leaves, whatever is kept.
abbrev pub Fifo : ℕ → Cache → Option (ℕ × List ℕ × Cache) → Type 0
Fifo n c r =
    (c' : Cache) × (r ≡ some (n, take n (contents c), c'))
    × IsValid c'
    × (contents c' ≡ drop n (contents c))

pub cache_read-Fifo : {c : Cache} (n : ℕ) → IsValid c → Fifo (min c.level n) c (cache_read c n)
unfolding cache_read
cache_read-Fifo {c} n v = elim (Bool-cases (min c.level n == 0)) [
  | inl e ↦ let z : min c.level n ≡ 0 = ground arith in rw (z) (c, refl, v, refl)
  | inr e ↦
      let (rp, r, v', d, moved) = read_from-Took v (min c.level n) (omega arith) (ground arith) in
      rw e (consume c (min c.level n) rp, r, v', d)
]
