-- ===== src/Stream/Seek.antt =====
-- Where a seek lands in the cache, and the step that `stream_cache_seek` computes.
use dtplayer_c.Base.{
  ℕ, zero, suc, ◌+◌, ◌-◌, ◌≤◌, ◌<◌, ◌≡◌, refl, ◌⊎◌, inl, inr, true, false, Option, some, List,
  arith, ltb, ◌==◌, Bool-cases, length, drop, le→leb, ltb→lt, ltb_ℤ, pos, negsuc, ◌-ℤ◌, ℤ, int32,
  sub_64, sub_ℕ, int64_pos, int64_negsuc, int32_pos, int32_negsuc,
}
use dtplayer_c.Ring.{region_at, length-region}
use dtplayer_c.Cache.{Cache, moved_on, seek_on, seek_back}
use dtplayer_c.Cache.Inv.{IsValid, Keeps, contents, window, length-contents}
use dtplayer_c.Cache.Seek.{seek_back-Moved}
use dtplayer_c.Stream.{Info}
use dtplayer_c.Stream.Wrapper.{seek_set, abs, step_of}

-- Where `cache_seek` accepts a seek, the unread bytes of the new cache are `bytes` from the `n`-th on,
-- and where it refuses, the cache stays.
abbrev pub Lands : Cache → ℕ → List ℕ → Option (ℤ × Cache) → Type 0
Lands c n bytes r =
    (r ≡ some (negsuc 0, c))
    ⊎ ((c' : Cache) × (r ≡ some (pos 0, c'))
        × IsValid c'
        × (n ≤ length bytes)
        × (contents c' ≡ drop n bytes))

pub length-window : {c : Cache} {k : ℕ} → IsValid c → Keeps k c → length (window k c) ≡ k + c.level
unfolding window
length-window {c} {k} v keep =
    length-region c.mem c.pre_rp (k + c.level) (omega arith) (omega arith)

module _ {c : Cache} (v : IsValid c) (step : ℕ) where
  moved_on-Lands :
      (rp : ℕ)
      → step ≤ c.level
      → rp ≤ c.total_size
      → ((c.rp + step ≡ rp) ⊎ ((c.rp + step ≡ rp + c.total_size) × (c.wp < c.rp)))
      → Lands c step (contents c) (some (pos 0, moved_on c step rp))
  unfolding moved_on contents
  moved_on-Lands rp le in_block moved = inr (
    moved_on c step rp,
    refl,
    omega (arith, v.ends, moved),
    omega (arith, length-contents v),
    region_at c.mem c.rp c.level step rp le (omega arith) (omega arith) (omega arith)
        (omega (arith, moved)),
  )

  pub seek_on-Lands : 0 < step → Lands c step (contents c) (seek_on c step)
  unfolding seek_on
  seek_on-Lands p = elim (Bool-cases (ltb c.level step)) [
    | inl e ↦ rw e (inl refl)
    | inr in_level ↦ rw in_level (elim (Bool-cases (ltb c.rp c.wp)) [
      | inl e ↦ rw e (moved_on-Lands (c.rp + step) (ground arith) (ground arith) (inl refl))
      | inr e ↦ rw e (elim (Bool-cases (ltb c.wp c.rp)) [
        | inl f ↦
            rw (f, le→leb c.rp c.total_size v.rp_in)
              (elim (Bool-cases (ltb step (c.total_size - c.rp))) [
                | inl g ↦
                    rw g (moved_on-Lands (c.rp + step) (ground arith) (ground arith) (inl refl))
                | inr g ↦ rw g (
                    moved_on-Lands (step - (c.total_size - c.rp)) (ground arith) (ground arith)
                      (inr (ground arith, ltb→lt c.wp c.rp f)))
              ])
        | inr f ↦ rw f (inl refl)
      ])
    ])
  ]

  pub seek_back-past :
      (k : ℕ) → Keeps k c → ltb k step ≡ true → seek_back c step ≡ some (negsuc 0, c)
  unfolding seek_back
  seek_back-past k keep e = let f : ltb_ℤ c.pre_size (pos step) ≡ true = ground arith in rw f refl

  -- A seek back within the `k` bytes kept, or a refusal.
  pub seek_back-Lands :
      (k : ℕ)
      → Keeps k c
      → 0 < step
      → step ≤ k
      → (0 < k → 0 < c.wp)
      → Lands c (k - step) (window k c) (seek_back c step)
  seek_back-Lands k keep p le started = elim (Bool-cases (c.pre_rp == c.rp)) [
    | inl f ↦
        let a : ltb c.pre_rp c.rp ≡ false = ground arith in
        let b : ltb c.rp c.pre_rp ≡ false = ground arith in
        let d : ltb_ℤ c.pre_size (pos step) ≡ false = ground arith in
        unfold seek_back in rw (d, a, b) (inl refl)
    | inr f ↦
        let (c', r, at) = seek_back-Moved v keep step p le (started (omega arith)) (ground arith) in
        inr (c', r, at.0, omega (arith, length-window v keep), at.3)
  ]

-- The conversions in `stream_cache_seek` are exact for a distance below 2 ^ 31.
abs_on : (n d : ℕ) → d < 2147483648 → abs (int32 (sub_64 (pos n) (pos (n + d)))) ≡ some d
unfolding abs sub_64 ◌-ℤ◌
abs_on n zero h =
    let e : sub_ℕ (n + 0) (0 + (n + 0)) ≡ pos 0 = ground arith in
    rw (e, int64_pos 0 (omega arith), int32_pos 0 (omega arith)) refl
abs_on n (suc d) h =
    let e : sub_ℕ (n + 0) (0 + (n + suc d)) ≡ negsuc d = ground arith in
    rw (e, int64_negsuc d (omega arith), int32_negsuc d (omega arith)) (ground arith)

abs_back : (n d : ℕ) → d < 2147483648 → abs (int32 (sub_64 (pos (n + d)) (pos n))) ≡ some d
unfolding abs sub_64 ◌-ℤ◌
abs_back n d h =
    let e : sub_ℕ (n + d + 0) (0 + n) ≡ pos d = ground arith in
    rw (e, int64_pos d (omega arith), int32_pos d (omega arith)) refl

module _ (i : Info) (n m : ℕ) (at_n : i.cur_pos ≡ pos n) where
  pub step_of-on : n ≤ m → m - n < 2147483648 → step_of i (pos m) seek_set ≡ some (m - n, true)
  unfolding step_of
  step_of-on le h =
      let e : n + (m - n) ≡ m = omega arith in
      let f : ltb_ℤ (pos m) (pos n) ≡ false = ground arith in
      rw (at_n, f, rw e at (abs_on n (m - n) h)) refl

  pub step_of-back : m < n → n - m < 2147483648 → step_of i (pos m) seek_set ≡ some (n - m, false)
  unfolding step_of
  step_of-back lt h =
      let e : m + (n - m) ≡ n = omega arith in
      let f : ltb_ℤ (pos m) (pos n) ≡ true = ground arith in
      rw (at_n, f, rw e at (abs_back m (n - m) h)) refl
