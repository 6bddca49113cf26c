-- ===== src/Cache.antt =====
-- The cache of dtstream/stream/stream_cache.c: a ring of bytes that also keeps bytes already read,
-- so that a short seek needs no access to the real stream. The offsets and the level are numbers;
-- an operation faults where one would become negative. `pre_size` is a C `int`, since the code can
-- set it to any value. The mutex is left out: each operation holds it from beginning to end.
pub mod Inv
pub mod Fifo
pub mod Write
pub mod Seek
pub mod Life
mod Tests
use dtplayer_c.Base.{
  ℕ, zero, ◌+◌, ◌-◌, Bool, true, false, ◌&&◌, Option, none, some, List, [], ◌++◌, min, ltb, leb,
  ◌==◌, if◌then◌else◌, ◌>>=◌, ◌>>◌, sub?, ℤ, pos, negsuc, sub_ℕ, ◌+ℤ◌, ◌-ℤ◌, ltb_ℤ, length, take,
  drop,
}
use dtplayer_c.Ring.{copy_in, copy_out}

-- `stream_cache_t`, with its block of `total_size` bytes.
pub record Cache : Type 0 where
  pub mem : List ℕ
  pub level : ℕ
  pub total_size : ℕ
  pub pre_size : ℤ
  pub fix_pre_size : ℕ
  pub pre_rp : ℕ
  pub rp : ℕ
  pub wp : ℕ

-- `ctx` says whether the structure could be allocated, `allocated` is what `malloc(size)` returns,
-- and `scaled` is the integer part of the float product `size * pre`.
pub create_cache : Bool → Option (List ℕ) → ℤ → ℕ → Option Cache
create_cache ctx allocated (negsuc n) scaled = none
create_cache ctx allocated (pos zero) scaled = none
create_cache false allocated (pos size) scaled = none
create_cache true none (pos size) scaled = none
create_cache true (some mem) (pos size) scaled = some (record {
  mem = mem;
  level = 0;
  total_size = size;
  pre_size = pos 0;
  fix_pre_size = scaled;
  pre_rp = 0;
  rp = 0;
  wp = 0;
})

-- `level -= len; pre_size += len` with the new read position.
pub consume : Cache → ℕ → ℕ → Cache
consume c len rp = record c { rp = rp; level = c.level - len; pre_size = c.pre_size +ℤ pos len }

pub read_straight : Cache → ℕ → Option (ℕ × List ℕ × Cache)
read_straight c len = do out ← copy_out c.mem c.rp len; some (len, out, consume c len (c.rp + len))

pub read_wrapped : Cache → ℕ → ℕ → Option (ℕ × List ℕ × Cache)
read_wrapped c len tail_len = do
  front ← copy_out c.mem c.rp tail_len
  back ← copy_out c.mem 0 (len - tail_len)
  some (len, front ++ back, consume c len (len - tail_len))

-- `cache_read` of `len` bytes, once `len` is known.
pub read_from : Cache → ℕ → Option (ℕ × List ℕ × Cache)
read_from c len = if ltb c.rp c.wp then read_straight c len else do
  tail_len ← sub? c.total_size c.rp
  if leb len tail_len then read_straight c len else read_wrapped c len tail_len

-- The result is the count, the bytes written to `out`, and the new cache.
pub cache_read : Cache → ℕ → Option (ℕ × List ℕ × Cache)
cache_read c size =
    let len = min c.level size in if len == 0 then some (0, [], c) else read_from c len

unfoldable pub cache_level : Cache → ℕ
cache_level c = c.level

unfoldable pub cache_space : Cache → ℤ
cache_space c = pos c.total_size -ℤ pos c.level -ℤ pos c.fix_pre_size

-- The start of the bytes kept moves to `p`.
pub move_pre : Cache → ℕ → ℤ → Cache
move_pre c p size = record c { pre_rp = p; pre_size = size }

-- The bookkeeping of each branch of `cache_write`, before its copy.
pub pre_below : Cache → ℕ → Cache
pre_below c len =
    if leb c.pre_rp (c.wp + len) then move_pre c (c.wp + len) (sub_ℕ c.rp (c.wp + len)) else c

-- The source subtracts `pre_size`, not `pre_rp`.
pub pre_straight : Cache → ℕ → Cache
pre_straight c len =
    if ltb c.rp c.pre_rp && ltb c.pre_rp (c.wp + len)
    then move_pre c (c.wp + len) (pos c.rp +ℤ pos c.total_size -ℤ c.pre_size)
    else c

pub pre_wrapped : Cache → ℕ → Cache
pre_wrapped c rest =
    if ltb c.rp c.pre_rp
    then move_pre c rest (sub_ℕ c.rp rest)
    else if ltb c.pre_rp rest
    then move_pre c rest (sub_ℕ c.rp rest)
    else c

-- One copy at the write position, for the cache `c'` whose bookkeeping is done.
pub write_at : Cache → List ℕ → Option (ℕ × Cache)
write_at c bytes = do
  mem' ← copy_in c.mem c.wp bytes
  let len = length bytes
  some (len, record c { mem = mem'; wp = c.wp + len; level = c.level + len })

-- Two copies, up to the end of the block and from its start.
pub write_around : Cache → List ℕ → ℕ → Option (ℕ × Cache)
write_around c bytes tail_len = do
  mem' ← copy_in c.mem c.wp (take tail_len bytes)
  mem'' ← copy_in mem' 0 (drop tail_len bytes)
  let len = length bytes
  some (len, record c { mem = mem''; wp = len - tail_len; level = c.level + len })

-- `cache_write` of `len` bytes, once `len` is known.
pub write_from : Cache → List ℕ → Option (ℕ × Cache)
write_from c bytes = if ltb c.wp c.rp then write_at (pre_below c (length bytes)) bytes else do
  tail_len ← sub? c.total_size c.wp
  if leb (length bytes) tail_len
      then write_at (pre_straight c (length bytes)) bytes
      else write_around (pre_wrapped c (length bytes - tail_len)) bytes tail_len

-- `input` holds `size` bytes. Where the level is over the limit, the length is negative and the
-- copy faults.
pub cache_write : Cache → List ℕ → Option (ℕ × Cache)
cache_write c input = do
  room ← sub? c.total_size (c.level + c.fix_pre_size)
  let len = min room (length input)
  if len == 0 then some (0, c) else write_from c (take len input)

-- `rp`, `pre_size` and `level` after a seek back or forward by `step`.
unfoldable pub moved_back : Cache → ℕ → ℕ → Cache
moved_back c step rp = record c {
  rp = rp;
  pre_size = c.pre_size -ℤ pos step;
  level = c.level + step;
}

unfoldable pub moved_on : Cache → ℕ → ℕ → Cache
moved_on c step rp = record c { rp = rp; pre_size = c.pre_size +ℤ pos step; level = c.level - step }

unfoldable pub seek_back : Cache → ℕ → Option (ℤ × Cache)
seek_back c step =
    if ltb_ℤ c.pre_size (pos step)
    then some (negsuc 0, c)
    else if ltb c.pre_rp c.rp
    then (do rp ← sub? c.rp step; some (pos 0, moved_back c step rp))
    else if ltb c.rp c.pre_rp
    then (if ltb step c.rp
        then some (pos 0, moved_back c step (c.rp - step))
        else (do rp ← sub? c.total_size (step - c.rp); some (pos 0, moved_back c step rp)))
    else some (negsuc 0, c)

unfoldable pub seek_on : Cache → ℕ → Option (ℤ × Cache)
seek_on c step =
    if ltb c.level step
    then some (negsuc 0, c)
    else if ltb c.rp c.wp
    then some (pos 0, moved_on c step (c.rp + step))
    else if ltb c.wp c.rp
    then (do
      tail ← sub? c.total_size c.rp
      if ltb step tail
          then some (pos 0, moved_on c step (c.rp + step))
          else some (pos 0, moved_on c step (step - tail)))
    else some (negsuc 0, c)

-- `orig` is 0 for a seek back, and 1 for a seek forward.
unfoldable pub cache_seek : Cache → ℤ → Bool → Option (ℤ × Cache)
cache_seek c (negsuc n) orig = some (pos 0, c)
cache_seek c (pos zero) orig = some (pos 0, c)
cache_seek c (pos step) false = seek_back c step
cache_seek c (pos step) true = seek_on c step

unfoldable pub cache_reset : Cache → ℤ × Cache
cache_reset c = (pos 0, record c { rp = 0; wp = 0; pre_rp = 0; pre_size = pos 0; level = 0 })
