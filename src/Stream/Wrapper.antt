-- ===== src/Stream/Wrapper.antt =====
-- `stream_cache_open` to `stream_cache_close`: what the wrapper `stream_cache` offers.
use dtplayer_c.Base.{
  ℕ, suc, Bool, true, false, Option, none, some, List, [], ltb, ◌==◌, if◌then◌else◌, ◌>>=◌, ℤ, pos,
  negsuc, ltb_ℤ, eqb_ℤ, int32, add_64, sub_64,
}
use dtplayer_c.Cache.{Cache, cache_read, cache_seek, cache_reset, cache_level}
use dtplayer_c.Stream.{
  Ctx, Info, Source, Flag, null, pause, eof, idle, create_cache_thread, resume_cache_thread,
  pause_cache_thread, stop_cache_thread,
}

-- The wrapper of the cache: its `info`, and the context behind `stream_priv`.
pub record Stream (W : Type 0) : Type 0 where
  pub info : Info
  pub ctx : Ctx W

-- `stream_cache_open` fails with a code, or the stream is ready.
pub data Opened (W : Type 0) : Type 0 where
  failed : ℤ → W → Opened W
  ready : Stream W → Opened W

unfoldable pub is_eof : Flag → Bool
is_eof eof = true
is_eof null = false
is_eof pause = false

abbrev pub avseek_size : ℤ
avseek_size = pos 65536

abbrev pub seek_set : ℤ
seek_set = pos 0

abbrev pub seek_cur : ℤ
seek_cur = pos 1

-- `abs` of an `int`: there is no absolute value of the least one.
unfoldable pub abs : ℤ → Option ℕ
abs (pos n) = some n
abs (negsuc n) = if ltb n 2147483647 then some (suc n) else none

unfoldable pub move_pos : Info → ℕ → Info
move_pos i n = record i { cur_pos = add_64 i.cur_pos (pos n) }

-- `step` and `orig` of `stream_cache_seek`. They are not set for another `whence`.
unfoldable pub step_of : Info → ℤ → ℤ → Option (ℕ × Bool)
step_of i p whence =
    if eqb_ℤ whence seek_set
    then (abs (int32 (sub_64 i.cur_pos p)) >>= λ n.
        some (n, (if ltb_ℤ p i.cur_pos then false else true)))
    else if eqb_ℤ whence seek_cur
    then (abs (int32 p) >>= λ n. some (n, (if ltb_ℤ p (pos 0) then false else true)))
    else none

-- The end of `stream_cache_seek`.
unfoldable pub seek_done : Info → ℤ → ℤ → Info
seek_done i p whence =
    if eqb_ℤ whence seek_set
    then record i { eof_flag = 0; cur_pos = p }
    else if eqb_ℤ whence seek_cur
    then record i { eof_flag = 0; cur_pos = add_64 i.cur_pos p }
    else record i { eof_flag = 0 }

-- `info` after a read of `r` bytes.
unfoldable pub after_read : Flag → Info → ℕ → Info
after_read flag i r =
    if r == 0 then (if is_eof flag then record i { eof_flag = 1 } else i) else move_pos i r

-- The cache behind the context.
unfoldable pub with_cache : {W : Type 0} → Stream W → Cache → Stream W
with_cache {W} s c = let x : Ctx W = s.ctx in record s { ctx = record x { cache = c } }

module _ {W : Type 0} where
  -- The result is the number of bytes, the bytes, and the new stream.
  unfoldable pub stream_cache_read : Stream W → ℕ → Option (ℕ × List ℕ × Stream W)
  stream_cache_read s len =
      if cache_level s.ctx.cache == 0
      then some (0, [], s)
      else (cache_read s.ctx.cache len >>= λ r.
          (let t = with_cache s r.2 in
            some (r.0, r.1, record t { info = after_read s.ctx.cache_flag s.info r.0 })))

module _ {W : Type 0} (source : Source W) where
  -- The seek through the real stream: the thread pauses, and the cache starts again.
  unfoldable pub seek_real : ℕ → Stream W → ℤ → ℤ → Option (ℤ × Stream W)
  seek_real fuel s p whence = do
    x ← pause_cache_thread source fuel s.ctx
    let sought = source.seek_source x.real_st p whence
    some (
      sought.0,
      record s {
        info = seek_done s.info p whence;
        ctx =
            resume_cache_thread (record x { real_st = sought.1; cache = (cache_reset x.cache).1 });
      },
    )

  -- After `cache_seek` has returned a code and the cache.
  unfoldable pub seek_after : ℕ → Stream W → ℤ → ℤ → ℤ × Cache → Option (ℤ × Stream W)
  seek_after fuel s p whence (code, c) =
      if eqb_ℤ code (pos 0)
      then (let t = with_cache s c in some (pos 0, record t { info = seek_done s.info p whence }))
      else seek_real fuel (with_cache s c) p whence

  -- A request for the size returns it through an `int`.
  unfoldable pub stream_cache_seek : ℕ → Stream W → ℤ → ℤ → Option (ℤ × Stream W)
  stream_cache_seek fuel s p whence =
      if eqb_ℤ whence avseek_size
      then (let i : Info = s.info in
          some (int32 s.info.stream_size, record s { info = record i { eof_flag = 0 } }))
      else (step_of s.info p whence >>= λ m.
          cache_seek s.ctx.cache (pos m.0) m.1 >>= seek_after fuel s p whence)

  -- What is left is the real stream: the thread is gone, the cache and the context are freed.
  unfoldable pub stream_cache_close : ℕ → Stream W → Option W
  stream_cache_close fuel s =
      stop_cache_thread source fuel s.ctx >>= λ x. some (source.close_source x.real_st)

  -- The result of `create_cache_thread`.
  unfoldable pub after_thread : W → Info → ℤ × Ctx W → Opened W
  after_thread w i (code, x) =
      if eqb_ℤ code (negsuc 0)
      then failed code (source.close_source w)
      else ready (record { info = i; ctx = x })

  -- The result of `create_cache`.
  unfoldable pub after_cache : Bool → W → Option Cache → Opened W
  after_cache created w none = failed (negsuc 0) (source.close_source w)
  after_cache created w (some c) = after_thread w (source.info_source w) (
      create_cache_thread created (record {
        cache = c;
        cache_flag = null;
        cache_status = idle;
        real_st = w;
        tmp_buf = [];
        has_quit = false;
      }))

  -- `has_ctx` says whether the context could be allocated, `made` is the result of `create_cache`
  -- and `created` that of `pthread_create`. The name of the stream is part of `w`.
  unfoldable pub stream_cache_open : Bool → Option Cache → Bool → W → Opened W
  stream_cache_open has_ctx made created w =
      (let r = source.open_source w in
        if eqb_ℤ r.0 (pos 0)
        then (if has_ctx
            then after_cache created r.1 made
            else failed (negsuc 0) (source.close_source r.1))
        else failed (negsuc 0) r.1)
