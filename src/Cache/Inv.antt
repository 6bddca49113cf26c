-- ===== src/Cache/Inv.antt =====
-- The representation invariants of `stream_cache_t`.
use dtplayer_c.Base.{ℕ, ◌+◌, ◌-◌, ◌≤◌, ◌<◌, ◌≡◌, ◌⊎◌, List, arith, length, drop, pos}
use dtplayer_c.Ring.{region, region_at, length-region}
use dtplayer_c.Cache.{Cache}

-- The unread bytes stand between the read and the write position, either of which may stand at
-- the end of the block.
pub record IsValid (c : Cache) : Type 0 where
  pub fits : length c.mem ≡ c.total_size
  pub rp_in : c.rp ≤ c.total_size
  pub wp_in : c.wp ≤ c.total_size
  pub level_in : c.level ≤ c.total_size
  pub ends : (c.rp + c.level ≡ c.wp) ⊎ (c.rp + c.level ≡ c.wp + c.total_size)

-- The unread bytes, oldest first.
unfoldable pub contents : Cache → List ℕ
contents c = region c.mem c.rp c.level

-- `n` bytes already read are kept, from `pre_rp` to the read position.
pub record Keeps (n : ℕ) (c : Cache) : Type 0 where
  pub size_is : c.pre_size ≡ pos n
  pub pre_in : c.pre_rp < c.total_size
  pub room : n + c.level ≤ c.total_size
  pub pre_ends : (c.pre_rp + n ≡ c.rp) ⊎ (c.pre_rp + n ≡ c.rp + c.total_size)

-- The bytes kept, and the unread bytes behind them.
unfoldable pub window : ℕ → Cache → List ℕ
window n c = region c.mem c.pre_rp (n + c.level)

pub length-contents : {c : Cache} → IsValid c → length (contents c) ≡ c.level
unfolding contents
length-contents {c} v = length-region c.mem c.rp c.level (omega arith) (omega arith)

-- The unread bytes are the window from the `n`-th on.
pub contents-window : {n : ℕ} {c : Cache} → IsValid c → Keeps n c → contents c ≡ drop n (window n c)
unfolding contents window
contents-window {n} {c} v k =
    let e : n + c.level - n ≡ c.level = omega arith in
    rw e at (
      region_at c.mem c.pre_rp (n + c.level) n c.rp (omega arith) (omega arith) (omega arith)
        (omega arith) (ground arith))
