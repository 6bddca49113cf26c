-- ===== src/Cache/Life.antt =====
-- `create_cache` and `cache_reset`.
use dtplayer_c.Base.{
  ℕ, zero, suc, ◌+◌, ◌-◌, ◌≤◌, ◌<◌, ◌≡◌, refl, true, some, List, [], arith, length, pos, ◌-ℤ◌, sym,
}
use dtplayer_c.Ring.{region}
use dtplayer_c.Cache.{Cache, create_cache, cache_level, cache_space, cache_reset}
use dtplayer_c.Cache.Inv.{IsValid, Keeps, contents, length-contents}

-- A valid cache with nothing to read and nothing kept.
abbrev pub Blank : Cache → Type 0
Blank c = IsValid c × Keeps 0 c × (contents c ≡ [])

-- `create_cache` of a positive size, where both blocks can be allocated, makes a valid cache of
-- that size with nothing to read and nothing kept.
pub create_cache-Blank :
    (mem : List ℕ) (size scaled : ℕ)
    → length mem ≡ size
    → 0 < size
    → (c : Cache) × (create_cache true (some mem) (pos size) scaled ≡ some c)
      × Blank c
      × (c.total_size ≡ size)
unfolding create_cache contents region
create_cache-Blank mem zero scaled e h = absurd (omega arith)
create_cache-Blank mem (suc n) scaled e h = (_, refl, (ground arith, ground arith, refl), refl)

-- `cache_reset` of a valid cache leaves a valid cache of the same size and memory, with nothing to
-- read and nothing kept.
pub cache_reset-Blank :
    {c : Cache}
    → IsValid c
    → 0 < c.total_size
    → Blank (cache_reset c).1 × ((cache_reset c).1.mem ≡ c.mem)
unfolding cache_reset contents region
cache_reset-Blank {c} v h = ((ground arith, ground arith, refl), refl)

-- `cache_level` is the number of unread bytes. Where the reserve is free, `cache_space` is the
-- number of bytes that `cache_write` accepts.
pub cache_level-cache_space :
    {c : Cache}
    → IsValid c
    → c.level + c.fix_pre_size ≤ c.total_size
    → (cache_level c ≡ length (contents c))
      × (cache_space c ≡ pos (c.total_size - (length (contents c) + c.fix_pre_size)))
unfolding cache_level cache_space ◌-ℤ◌
cache_level-cache_space {c} v h = (sym (length-contents v), rw (length-contents v) (ground arith))
