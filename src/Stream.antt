-- ===== src/Stream.antt =====
-- The thread that fills the cache of dtstream/stream/stream_cache.c, and the stream that reads from
-- it. The real stream is an interface, on a state `W` that the model does not look into. A round of
-- the thread's loop is one step, so that the threads interleave between rounds.
pub mod Wrapper
pub mod File
pub mod Order
pub mod Pause
pub mod Seek
pub mod Place
pub mod Life
mod Tests
use dtplayer_c.Base.{
  ℕ, zero, suc, ◌+◌, Bool, true, false, ◌&&◌, Option, none, some, List, [], ltb, ◌==◌,
  if◌then◌else◌, ◌>>=◌, ◌>>◌, guard, ℤ, pos, negsuc, pos_part, neg_part, ltb_ℤ, eqb_ℤ, ◌+ℤ◌, ◌-ℤ◌,
  int32, length, drop,
}
use dtplayer_c.Cache.{
  Cache, cache_read, cache_write, cache_seek, cache_reset, cache_level, cache_space, create_cache,
}

-- `ST_FLAG_NULL`, `ST_FLAG_PAUSE` and `ST_FLAG_EOF`.
pub data Flag : Type 0 where
  null pause eof : Flag

-- `st_status_t`
pub data Status : Type 0 where
  idle paused running quit : Status

-- `stream_ctrl_t`
pub record Info : Type 0 where
  pub is_stream : ℕ
  pub seek_support : ℕ
  pub cur_pos : ℤ
  pub stream_size : ℤ
  pub eof_flag : ℕ

-- The functions of a `stream_wrapper_t`. `read` gives no bytes where the code returns a negative
-- number, and else those that it wrote to the buffer.
pub record Source (W : Type 0) : Type 0 where
  pub open_source : W → ℤ × W
  pub read_source : W → ℕ → Option (List ℕ) × W
  pub seek_source : W → ℤ → ℤ → ℤ × W
  pub close_source : W → W
  pub info_source : W → Info

-- `cache_ctx_t` with the real stream behind `wrapper`, the local `tmp_buf` of the thread up to
-- `rlen`, and whether the thread has left its loop.
pub record Ctx (W : Type 0) : Type 0 where
  pub cache : Cache
  pub cache_flag : Flag
  pub cache_status : Status
  pub real_st : W
  pub tmp_buf : List ℕ
  pub has_quit : Bool

abbrev pub read_per_time : ℕ
read_per_time = 10240

unfoldable pub is_pause : Flag → Bool
is_pause pause = true
is_pause null = false
is_pause eof = false

unfoldable pub is_idle : Status → Bool
is_idle idle = true
is_idle paused = false
is_idle running = false
is_idle quit = false

-- What is left of `tmp_buf` after a write of `wlen` bytes.
pub left_over : List ℕ → ℕ → List ℕ
left_over bytes wlen =
    if wlen == 0 then bytes else (if ltb 0 (length (drop wlen bytes)) then [] else drop wlen bytes)

module _ {W : Type 0} where
  -- The new context after `pthread_create`, whose success is `created`. The thread starts with
  -- nothing in `tmp_buf`.
  pub create_cache_thread : Bool → Ctx W → ℤ × Ctx W
  create_cache_thread false x = (negsuc 0, record x { cache_status = idle; cache_flag = null })
  create_cache_thread true x = (
    pos 0,
    record x { cache_status = running; cache_flag = null; tmp_buf = []; has_quit = false },
  )

  pub resume_cache_thread : Ctx W → Ctx W
  resume_cache_thread x = record x { cache_flag = null; cache_status = running }

  -- The first test of a round.
  pub see_flag : Ctx W → Ctx W
  see_flag x = if is_pause x.cache_flag then record x { cache_status = paused } else x

  pub clean : Ctx W → Ctx W
  clean x = record x { tmp_buf = []; cache_flag = null; cache_status = idle }

  pub store : Ctx W → Option (Ctx W)
  store x =
      if ltb_ℤ (cache_space x.cache) (pos (length x.tmp_buf))
      then some x
      else (cache_write x.cache x.tmp_buf >>= λ r.
          some (record x { cache = r.1; tmp_buf = left_over x.tmp_buf r.0 }))

module _ {W : Type 0} (source : Source W) where
  -- What a read of the real stream has returned.
  pub received : Ctx W → Option (List ℕ) × W → Option (Ctx W)
  received x (none, w) =
      some (record x { real_st = w; tmp_buf = []; cache_flag = eof; cache_status = idle })
  received x (some bytes, w) = store (record x { real_st = w; tmp_buf = bytes })

  pub fill : Ctx W → Option (Ctx W)
  fill x =
      if length x.tmp_buf == 0
      then received x (source.read_source x.real_st read_per_time)
      else store x

  pub by_status : Status → Ctx W → Option (Ctx W)
  by_status idle x = some x
  by_status quit x = some (record x { has_quit = true })
  by_status paused x = some (clean x)
  by_status running x = fill x

  -- A round of `cache_thread`. A thread that has left its loop does nothing.
  pub cache_thread : Ctx W → Option (Ctx W)
  cache_thread x = if x.has_quit then some x else (let y = see_flag x in by_status y.cache_status y)

  -- The loop of `pause_cache_thread`: the thread goes round between two looks at the status.
  pub wait_idle : ℕ → Ctx W → Option (Ctx W)
  wait_idle zero x = none
  wait_idle (suc fuel) x = elim (is_idle x.cache_status) [
    | true ↦ some x
    | false ↦ cache_thread x >>= wait_idle fuel
  ]

  pub pause_cache_thread : ℕ → Ctx W → Option (Ctx W)
  pause_cache_thread fuel x = wait_idle fuel (record x { cache_flag = pause }) >>= λ y.
      some (record y { cache_flag = null })

  -- `pthread_join`.
  pub wait_quit : ℕ → Ctx W → Option (Ctx W)
  wait_quit zero x = none
  wait_quit (suc fuel) x = elim x.has_quit [
    | true ↦ some x
    | false ↦ cache_thread x >>= wait_quit fuel
  ]

  pub stop_cache_thread : ℕ → Ctx W → Option (Ctx W)
  stop_cache_thread fuel x = wait_quit fuel (record x { cache_flag = null; cache_status = quit })
