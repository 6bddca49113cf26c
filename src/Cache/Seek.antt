-- ===== src/Cache/Seek.antt =====
-- `cache_seek`: a move of the read position within the window.
use dtplayer_c.Base.{
  ℕ, zero, suc, ◌+◌, ◌-◌, ◌≤◌, ◌<◌, ◌≡◌, ◌≢◌, refl, ◌∙◌, ap, ◌⊎◌, inl, inr, true, false, Option,
  some, List, arith, ltb, Bool-cases, le→leb, ltb→lt, ℤ, pos, negsuc, ltb_ℤ, ◌+ℤ◌, ◌-ℤ◌, drop,
}
use dtplayer_c.Ring.{region}
use dtplayer_c.Cache.{Cache, moved_back, moved_on, seek_back, seek_on, cache_seek}
use dtplayer_c.Cache.Inv.{IsValid, contents, Keeps, window, contents-window}

pub cache_seek-on :
    (c : Cache) (step : ℕ) → 0 < step → cache_seek c (pos step) true ≡ seek_on c step
unfolding cache_seek
cache_seek-on c zero h = absurd (omega arith)
cache_seek-on c (suc n) h = refl

pub cache_seek-back :
    (c : Cache) (step : ℕ) → 0 < step → cache_seek c (pos step) false ≡ seek_back c step
unfolding cache_seek
cache_seek-back c zero h = absurd (omega arith)
cache_seek-back c (suc n) h = refl

-- The cache now keeps `k` bytes of the same window, and has the others to read.
abbrev pub At : ℕ → List ℕ → Cache → Type 0
At k w c = IsValid c × Keeps k c × (window k c ≡ w) × (contents c ≡ drop k w)

At-of : {c : Cache} {w : List ℕ} (k : ℕ) → IsValid c → Keeps k c → window k c ≡ w → At k w c
At-of k v keep e = (v, keep, e, contents-window v keep ∙ ap (drop k) e)

module _ {c : Cache} {k : ℕ} (v : IsValid c) (keep : Keeps k c) (step : ℕ) where
  moved_on-At :
      (rp : ℕ)
      → step ≤ c.level
      → rp ≤ c.total_size
      → (c.rp + step ≡ rp) ⊎ ((c.rp + step ≡ rp + c.total_size) × (c.wp < c.rp))
      → At (k + step) (window k c) (moved_on c step rp)
  unfolding moved_on window ◌+ℤ◌
  moved_on-At rp le in_block moved =
      let total : k + step + (c.level - step) ≡ k + c.level = omega arith in
      At-of (k + step) (omega (arith, v.ends, moved))
        (record {
          size_is = ground arith;
          pre_in = keep.pre_in;
          room = omega arith;
          pre_ends = omega (arith, keep.pre_ends, moved);
        })
        (ap (λ (x : ℕ). region c.mem c.pre_rp x) total)

  moved_back-At :
      (rp : ℕ)
      → step ≤ k
      → rp ≤ c.total_size
      → 0 < c.wp
      → (rp + step ≡ c.rp) ⊎ (rp + step ≡ c.rp + c.total_size)
      → (c.pre_rp + (k - step) ≡ rp) ⊎ (c.pre_rp + (k - step) ≡ rp + c.total_size)
      → At (k - step) (window k c) (moved_back c step rp)
  unfolding moved_back window ◌-ℤ◌
  moved_back-At rp le in_block started moved back =
      let total : k - step + (c.level + step) ≡ k + c.level = omega arith in
      At-of (k - step) (omega (arith, v.ends, moved))
        (record {
          size_is = ground arith;
          pre_in = keep.pre_in;
          room = omega arith;
          pre_ends = back;
        })
        (ap (λ (x : ℕ). region c.mem c.pre_rp x) total)

  -- What a successful seek leaves.
  abbrev pub Moved : ℕ → Option (ℤ × Cache) → Type 0
  Moved n r = (c' : Cache) × (r ≡ some (pos 0, c')) × At n (window k c) c'

  seek_on-Moved :
      0 < step → step ≤ c.level → c.level < c.total_size → Moved (k + step) (seek_on c step)
  unfolding seek_on
  seek_on-Moved p le lt =
      let inside : ltb c.level step ≡ false = ground arith in
      rw inside (elim (Bool-cases (ltb c.rp c.wp)) [
        | inl e ↦ rw e (
          moved_on c step (c.rp + step),
          refl,
          moved_on-At (c.rp + step) le (ground arith) (inl refl),
        )
        | inr e ↦
            let e' : ltb c.wp c.rp ≡ true = ground arith in
            rw (e, e', le→leb c.rp c.total_size v.rp_in)
              (elim (Bool-cases (ltb step (c.total_size - c.rp))) [
                | inl f ↦ rw f (
                  moved_on c step (c.rp + step),
                  refl,
                  moved_on-At (c.rp + step) le (ground arith) (inl refl),
                )
                | inr f ↦ rw f (
                  moved_on c step (step - (c.total_size - c.rp)),
                  refl,
                  moved_on-At (step - (c.total_size - c.rp)) le (ground arith)
                      (inr (ground arith, ltb→lt c.wp c.rp e')),
                )
              ])
      ])

  pub seek_back-Moved :
      0 < step → step ≤ k → 0 < c.wp → c.pre_rp ≢ c.rp → Moved (k - step) (seek_back c step)
  unfolding seek_back
  seek_back-Moved p le started ne =
      let inside : ltb_ℤ c.pre_size (pos step) ≡ false = ground arith in
      rw inside (elim (Bool-cases (ltb c.pre_rp c.rp)) [
        | inl e ↦
            rw (e, le→leb step c.rp (ground arith))
              (
                moved_back c step (c.rp - step),
                refl,
                moved_back-At (c.rp - step) le (ground arith) started (inl (ground arith))
                    (ground arith),
              )
        | inr e ↦
            let e' : ltb c.rp c.pre_rp ≡ true = ground arith in
            rw (e, e')
              (elim (Bool-cases (ltb step c.rp)) [
                | inl f ↦ rw f (
                  moved_back c step (c.rp - step),
                  refl,
                  moved_back-At (c.rp - step) le (ground arith) started (inl (ground arith))
                      (ground arith),
                )
                | inr f ↦
                    rw (f, le→leb (step - c.rp) c.total_size (ground arith))
                      (
                        moved_back c step (c.total_size - (step - c.rp)),
                        refl,
                        moved_back-At (c.total_size - (step - c.rp)) le (ground arith) started
                            (ground arith) (ground arith),
                      )
              ])
      ])

  -- In a valid cache that keeps `k` bytes, a seek forward within the unread bytes succeeds, where
  -- the cache is not full to the last byte. The window stays, and the bytes passed are kept.
  cache_seek-forward :
      0 < step
      → step ≤ c.level
      → c.level < c.total_size
      → Moved (k + step) (cache_seek c (pos step) true)
  cache_seek-forward p le lt = rw (cache_seek-on c step p) (seek_on-Moved p le lt)

  -- In a valid cache that keeps `k` bytes, a seek back within the bytes kept succeeds, where
  -- something has been written and the bytes kept do not fill the whole block. The window stays,
  -- and the bytes passed can be read again.
  pub cache_seek-backward :
      0 < step
      → step ≤ k
      → 0 < c.wp
      → c.pre_rp ≢ c.rp
      → Moved (k - step) (cache_seek c (pos step) false)
  cache_seek-backward p le started ne =
      rw (cache_seek-back c step p) (seek_back-Moved p le started ne)

-- A seek by more than the bytes kept and than the unread bytes fails in both directions, and
-- changes nothing.
pub cache_seek-refuses :
    (c : Cache) (k step : ℕ)
    → Keeps k c
    → k < step
    → c.level < step
    → (cache_seek c (pos step) false ≡ some (negsuc 0, c))
      × (cache_seek c (pos step) true ≡ some (negsuc 0, c))
unfolding cache_seek seek_back seek_on
cache_seek-refuses c k zero keep h g = absurd (omega arith)
cache_seek-refuses c k (suc n) keep h g =
    let e : ltb_ℤ c.pre_size (pos (suc n)) ≡ true = ground arith in
    let f : ltb c.level (suc n) ≡ true = ground arith in (rw e, rw f)
