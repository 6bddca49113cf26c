-- ===== src/Stream/Life.antt =====
-- Opening and closing the cached stream, the end of the file, and the limits of a seek.
use dtplayer_c.Base.{
  ℕ, suc, ◌+◌, ◌-◌, ◌<◌, ◌≡◌, refl, sym, ap, ◌∙◌, ◌*◌, ◌%◌, sub_ℕ, int64_negsuc, ◌⊎◌, inl, inr,
  true, false, some, List, [], ◌++◌, arith, min, take, ◌==◌, Bool-cases, ltb_ℤ, pos, negsuc, int32,
  wrap, sub_64, two_63, ◌-ℤ◌,
}
use dtplayer_c.Cache.{Cache, cache_seek, cache_level}
use dtplayer_c.Cache.Inv.{IsValid, contents, contents-window}
use dtplayer_c.Cache.Fifo.{cache_read-Fifo}
use dtplayer_c.Cache.Life.{Blank}
use dtplayer_c.Stream.{Source, is_pause, create_cache_thread}
use dtplayer_c.Stream.Wrapper.{
  Stream, ready, with_cache, after_read, move_pos, stream_cache_read, seek_set, step_of, abs,
  seek_done, seek_after, stream_cache_seek, stream_cache_open, stream_cache_close, after_cache,
  after_thread,
}
use dtplayer_c.Stream.Pause.{stop_cache_thread-has_quit}
use dtplayer_c.Stream.Place.{Placed}

module _ {W : Type 0} where
  -- Whatever the thread has met, a read of a positive length from a valid cache leaves `eof_flag` as
  -- it was: on an empty cache it returns 0 and changes nothing, and on another it returns the first bytes
  -- of the cache, as many as are asked for and there, which is one at least.
  pub stream_cache_read-no_eof :
      (s : Stream W) (len : ℕ)
      → IsValid s.ctx.cache
      → 0 < len
      → (out : List ℕ) × (t : Stream W) × (n : ℕ) × (stream_cache_read s len ≡ some (n, out, t))
        × (t.info.eof_flag ≡ s.info.eof_flag)
        × (t.ctx.cache_flag ≡ s.ctx.cache_flag)
        × (((s.ctx.cache.level ≡ 0) × (n ≡ 0) × (out ≡ []) × (t ≡ s))
            ⊎ ((0 < s.ctx.cache.level)
                × (0 < n)
                × (n ≡ min s.ctx.cache.level len)
                × (out ≡ take n (contents s.ctx.cache))))
  unfolding stream_cache_read cache_level with_cache after_read move_pos
  stream_cache_read-no_eof s len v h = elim (Bool-cases (s.ctx.cache.level == 0)) [
    | inl e ↦
        let z : s.ctx.cache.level ≡ 0 = ground arith in
        rw e ([], s, 0, refl, refl, refl, inl (z, refl, refl, refl))
    | inr e ↦
        let (c', r, v', d) = cache_read-Fifo len v in
        let f : (min s.ctx.cache.level len == 0) ≡ false = ground arith in
        let full : 0 < s.ctx.cache.level = ground arith in
        rw (e, r, f) (_, _, _, refl, refl, refl, inr (full, omega arith, refl, refl))
  ]

abs_cut :
    (n j : ℕ)
    → suc j * 4294967296 < two_63
    → abs (int32 (sub_64 (pos n) (pos (n + suc j * 4294967296)))) ≡ some 0
unfolding abs int32 sub_64 ◌-ℤ◌ wrap
abs_cut n j h =
    let d : ℕ = suc j * 4294967296 - 1 in
    let e : sub_ℕ (n + 0) (0 + (n + suc j * 4294967296)) ≡ negsuc d = ground arith in
    let m : d % 4294967296 ≡ 4294967295 = omega arith in
    rw (e, int64_negsuc d (omega arith), m) refl

module _ {W : Type 0} (source : Source W) where
  -- A seek with SEEK_SET by a multiple of 2 ^ 32 bytes, below 2 ^ 63, succeeds without moving: the
  -- distance is cut to an `int`, which is 0. The position is the one asked for, and the end is no
  -- longer noted, but the cache, the thread and the real stream stay as they were.
  pub stream_cache_seek-cut :
      (fuel n j : ℕ) (s : Stream W)
      → s.info.cur_pos ≡ pos n
      → suc j * 4294967296 < two_63
      → stream_cache_seek source fuel s (pos (n + suc j * 4294967296)) seek_set
        ≡ some (pos 0, record s { info = seek_done s.info (pos (n + suc j * 4294967296)) seek_set })
  unfolding stream_cache_seek step_of cache_seek seek_after with_cache
  stream_cache_seek-cut fuel n j s e h =
      let f : ltb_ℤ (pos (n + suc j * 4294967296)) (pos n) ≡ false = ground arith in
      rw (e, f, abs_cut n j h) refl

  -- Closing takes one round of a thread that has not left its loop at most: the real stream is
  -- closed as it is then.
  pub stream_cache_close_lem :
      (fuel : ℕ) (s : Stream W)
      → s.ctx.has_quit ≡ false
      → stream_cache_close source (suc (suc fuel)) s ≡ some (source.close_source s.ctx.real_st)
  unfolding stream_cache_close
  stream_cache_close_lem fuel s h = rw (stop_cache_thread-has_quit source fuel s.ctx h) refl

  -- Where the real stream opens at the start of a file, the context and the thread can be made, and
  -- the cache is blank, `stream_cache_open` returns a stream placed at the start of the file.
  pub stream_cache_open-Placed :
      (rest : W → List ℕ) (file : List ℕ) (c : Cache) (w : W)
      → Blank c
      → (source.open_source w).0 ≡ pos 0
      → (source.info_source (source.open_source w).1).cur_pos ≡ pos 0
      → rest (source.open_source w).1 ≡ file
      → (s : Stream W) × (stream_cache_open source true (some c) true w ≡ ready s)
        × Placed rest file 0 0 s
  unfolding stream_cache_open after_cache after_thread create_cache_thread is_pause
  stream_cache_open-Placed rest file c w blank e p r = simp e (
    _,
    refl,
    record {
      flows = record { valid = blank.0; no_pause = refl; not_paused = λ q. cc q };
      at_work = refl;
      idle_clear = λ q. refl;
      keeps = blank.1;
      written = λ q. absurd (omega arith);
      kept_in = omega arith;
      cur_is = p;
      window_is =
          ap (λ (t : List ℕ). t ++ rest (source.open_source w).1)
            (sym (contents-window blank.0 blank.1) ∙ blank.2)
          ∙ r;
    },
  )
