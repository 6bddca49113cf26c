-- ===== src/Cache/Write.antt =====
-- `cache_write` on a valid cache: first in, first out.
use dtplayer_c.Base.{
  ℕ, ◌+◌, ◌-◌, ◌≤◌, ◌<◌, ◌≡◌, refl, ◌∙◌, ap, ◌⊎◌, inl, inr, Option, some, List, [], ◌++◌, arith,
  min, ltb, leb, ◌==◌, Bool-cases, length, take, drop, take-min, eq-nil, length-take, length-drop,
  le→leb, ltb→lt, pos, ◌+ℤ◌, ◌-ℤ◌, append_assoc, take-append-drop, append-nil,
}
use dtplayer_c.Ring.{
  region, splice, copy_in-ok, length-splice, region-splice_straight, region-splice_wrapped,
}
use dtplayer_c.Cache.{
  Cache, move_pre, pre_below, pre_straight, pre_wrapped, write_at, write_around, write_from,
  cache_write,
}
use dtplayer_c.Cache.Inv.{IsValid, contents, Keeps}

-- `cache_write` has stored the bytes behind those that were there.
abbrev pub Stored : Cache → List ℕ → Option (ℕ × Cache) → Type 0
Stored c bytes r =
    (c' : Cache) × (r ≡ some (length bytes, c'))
    × IsValid c'
    × (contents c' ≡ contents c ++ bytes)
    × (c'.rp ≡ c.rp)

module _ {c : Cache} (v : IsValid c) (bytes : List ℕ)
    (room : c.level + length bytes ≤ c.total_size) where
  write_at-Stored :
      c.wp + length bytes ≤ c.total_size
      → (c.wp < c.rp) ⊎ (c.rp + c.level ≡ c.wp)
      → Stored c bytes (write_at c bytes)
  unfolding write_at contents
  write_at-Stored h side = (
    record c {
      mem = splice c.mem c.wp bytes;
      wp = c.wp + length bytes;
      level = c.level + length bytes;
    },
    rw (copy_in-ok c.mem c.wp bytes (omega arith)),
    ground (arith, length-splice c.mem c.wp bytes),
    (elim side [
      | inl lt ↦
          region-splice_wrapped c.mem c.wp bytes c.rp c.level (omega arith) (omega arith)
            (omega arith)
      | inr e ↦ region-splice_straight c.mem c.wp bytes c.rp c.level e (omega arith)
    ]),
    refl,
  )

  write_around-Stored :
      (tail : ℕ)
      → c.rp ≤ c.wp
      → c.wp + tail ≡ c.total_size
      → tail < length bytes
      → Stored c bytes (write_around c bytes tail)
  unfolding write_around contents
  write_around-Stored tail g e h =
      let front : List ℕ = take tail bytes in
      let back : List ℕ = drop tail bytes in
      let lf : length front ≡ tail = omega (arith, length-take tail bytes) in
      let lb : length back ≡ length bytes - tail = omega (arith, length-drop tail bytes) in
      let mem' : List ℕ = splice c.mem c.wp front in
      let lm : length mem' ≡ c.total_size = omega (arith, length-splice c.mem c.wp front) in
      let first : region mem' c.rp (c.level + length front) ≡ region c.mem c.rp c.level ++ front =
        region-splice_straight c.mem c.wp front c.rp c.level (omega arith) (omega arith) in
      let second : region (splice mem' 0 back) c.rp (c.level + length front + length back)
          ≡ region mem' c.rp (c.level + length front) ++ back =
        region-splice_wrapped mem' 0 back c.rp (c.level + length front) (omega arith) (omega arith)
          (omega arith) in
      let total : c.level + length front + length back ≡ c.level + length bytes = omega arith in
      (
        record c {
          mem = splice mem' 0 back;
          wp = length bytes - tail;
          level = c.level + length bytes;
        },
        rw (copy_in-ok c.mem c.wp front (omega arith), copy_in-ok mem' 0 back (omega arith)),
        ground (arith, length-splice mem' 0 back),
        (rw total at second)
            ∙ ap (λ (t : List ℕ). t ++ back) first
            ∙ append_assoc (region c.mem c.rp c.level) front back
            ∙ ap (λ (t : List ℕ). region c.mem c.rp c.level ++ t) (take-append-drop tail bytes),
        refl,
      )

-- The bookkeeping of `pre_rp` and `pre_size` touches nothing that a write depends on.
record SameRing (c d : Cache) : Type 0 where
  mem_is : d.mem ≡ c.mem
  level_is : d.level ≡ c.level
  total_is : d.total_size ≡ c.total_size
  rp_is : d.rp ≡ c.rp
  wp_is : d.wp ≡ c.wp

pre_below-SameRing : (c : Cache) (n : ℕ) → SameRing c (pre_below c n)
unfolding pre_below move_pre
pre_below-SameRing c n = ground arith

pre_straight-SameRing : (c : Cache) (n : ℕ) → SameRing c (pre_straight c n)
unfolding pre_straight move_pre
pre_straight-SameRing c n = ground arith

pre_wrapped-SameRing : (c : Cache) (n : ℕ) → SameRing c (pre_wrapped c n)
unfolding pre_wrapped move_pre
pre_wrapped-SameRing c n = ground arith

module _ {c d : Cache} (same : SameRing c d) where
  SameRing-IsValid : IsValid c → IsValid d
  SameRing-IsValid v = ground arith

  SameRing-Stored : (bytes : List ℕ) {r : Option (ℕ × Cache)} → Stored d bytes r → Stored c bytes r
  unfolding contents
  SameRing-Stored bytes (c', r, v, s, e) =
      let f : contents d ≡ contents c = rw (same.mem_is, same.rp_is, same.level_is) in
      (c', r, v, s ∙ ap (λ (x : List ℕ). x ++ bytes) f, e ∙ same.rp_is)

module _ {c : Cache} (v : IsValid c) (bytes : List ℕ)
    (room : c.level + length bytes ≤ c.total_size) where
  prepared-Stored :
      {d : Cache}
      → SameRing c d
      → c.wp + length bytes ≤ c.total_size
      → (c.wp < c.rp) ⊎ (c.rp + c.level ≡ c.wp)
      → Stored c bytes (write_at d bytes)
  prepared-Stored same fits side = SameRing-Stored same bytes (
      write_at-Stored (SameRing-IsValid same v) bytes (omega arith) (omega arith)
        (omega (arith, side)))

  prepared-Stored_around :
      {d : Cache} (tail : ℕ)
      → SameRing c d
      → c.rp ≤ c.wp
      → c.wp + tail ≡ c.total_size
      → tail < length bytes
      → Stored c bytes (write_around d bytes tail)
  prepared-Stored_around tail same ge end past = SameRing-Stored same bytes (
      write_around-Stored (SameRing-IsValid same v) bytes (omega arith) tail (omega arith)
        (omega arith) past)

  write_from-Stored : 0 < length bytes → Stored c bytes (write_from c bytes)
  unfolding write_from
  write_from-Stored p = elim (Bool-cases (ltb c.wp c.rp)) [
    | inl lt ↦ rw lt (
        prepared-Stored (pre_below-SameRing c (length bytes)) (ground arith)
          (inl (ltb→lt c.wp c.rp lt)))
    | inr ge ↦
        rw (ge, le→leb c.wp c.total_size v.wp_in)
          (elim (Bool-cases (leb (length bytes) (c.total_size - c.wp))) [
            | inl fits ↦ rw fits (
                prepared-Stored (pre_straight-SameRing c (length bytes)) (ground arith)
                  (inr (ground arith)))
            | inr past ↦ rw past (
                prepared-Stored_around (c.total_size - c.wp)
                  (pre_wrapped-SameRing c (length bytes - (c.total_size - c.wp))) (ground arith)
                  (omega arith) (ground arith))
          ])
  ]

-- Where the level of a valid cache leaves the reserve of `fix_pre_size` bytes free, `cache_write`
-- stores as many of the first bytes as fit below the reserve, behind those that were there, and
-- returns their number. The read position stays.
pub cache_write_lem :
    {c : Cache} (input : List ℕ)
    → IsValid c
    → c.level + c.fix_pre_size ≤ c.total_size
    → Stored c (take (c.total_size - (c.level + c.fix_pre_size)) input) (cache_write c input)
unfolding cache_write
cache_write_lem {c} input v reserve =
    let room : ℕ = c.total_size - (c.level + c.fix_pre_size) in
    let bytes : List ℕ = take room input in
    let l : length bytes ≡ min room (length input) = length-take room input in
    let same : take (min room (length input)) input ≡ bytes =
      (let swap : min room (length input) ≡ min (length input) room = omega arith in
        rw swap (take-min room input)) in
    rw (le→leb _ _ reserve) (elim (Bool-cases (min room (length input) == 0)) [
      | inl e ↦
          let z : length bytes ≡ 0 = ground arith in
          let nil : bytes ≡ [] = eq-nil bytes z in
          (c, rw (e, z), v, rw (nil, append-nil (contents c)), refl)
      | inr e ↦ rw (e, same) (write_from-Stored v bytes (omega arith) (ground arith))
    ])

-- Where, in a valid cache, a write that stays within the block overruns the bytes kept, which begin
-- behind the read position, the
-- new `pre_size` is the old `pre_rp`.
pub pre_straight-stale :
    (c : Cache) (k n : ℕ)
    → IsValid c
    → Keeps k c
    → c.rp < c.pre_rp
    → c.pre_rp < c.wp + n
    → ((pre_straight c n).pre_rp ≡ c.wp + n) × ((pre_straight c n).pre_size ≡ pos c.pre_rp)
unfolding pre_straight move_pre ◌+ℤ◌ ◌-ℤ◌
pre_straight-stale c k n v keep g h = ground arith
