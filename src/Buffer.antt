-- ===== src/Buffer.antt =====
-- dtutils/dt_buffer.c: a ring of bytes in one allocated block. A pointer into the block is its
-- offset from `data`. The mutex is left out: each operation holds it from beginning to end.
pub mod Spec
pub mod Inv
pub mod Life
pub mod Refine
pub mod Run
mod Tests
use dtplayer_c.Base.{
  ℕ, ◌+◌, ◌-◌, Bool, Option, none, some, List, [], ◌++◌, min, ltb, leb, ◌==◌, if◌then◌else◌, ◌>>=◌,
  ◌>>◌, sub?, ℤ, pos, negsuc,
}
use dtplayer_c.Ring.{copy_in, copy_out, region}
use dtplayer_c.Base.{length, take, drop}

-- What the field `data` points to. After `free` the field still holds the old address.
pub data Block : Type 0 where
  null freed : Block
  live : List ℕ → Block

-- `dt_buffer_t`
pub record Buffer : Type 0 where
  pub block : Block
  pub size : ℕ
  pub level : ℕ
  pub rd_ptr : ℕ
  pub wr_ptr : ℕ

-- Only a live block can be accessed.
pub deref : Block → Option (List ℕ)
deref null = none
deref freed = none
deref (live mem) = some mem

-- `allocated` is what `malloc(size)` returns.
pub buf_init : Buffer → Option (List ℕ) → ℕ → ℤ × Buffer
buf_init b none size = (negsuc 0, record b { block = null })
buf_init b (some mem) size =
    (pos 0, record { block = live mem; size = size; level = 0; rd_ptr = 0; wr_ptr = 0 })

pub buf_reinit : Buffer → ℤ × Buffer
buf_reinit b = (pos 0, record b { level = 0; rd_ptr = 0; wr_ptr = 0 })

-- To free a freed block is a fault. `data` keeps its address.
pub buf_release : Buffer → Option (ℤ × Buffer)
buf_release b = elim b.block [
  | null ↦ some (pos 0, record b { size = 0 })
  | freed ↦ none
  | live mem ↦ some (pos 0, record b { block = freed; size = 0 })
]

pub buf_empty : Buffer → Bool
buf_empty b = b.level == 0

pub buf_full : Buffer → Bool
buf_full b = b.level == b.size

pub buf_space : Buffer → Option ℕ
buf_space b = sub? b.size b.level

pub buf_level : Buffer → ℕ
buf_level b = b.level

-- The first two branches of `buf_get`: one copy.
pub get_straight : Buffer → List ℕ → ℕ → Option (ℕ × List ℕ × Buffer)
get_straight b mem len = do
  out ← copy_out mem b.rd_ptr len
  some (len, out, record b { rd_ptr = b.rd_ptr + len; level = b.level - len })

-- The third: a copy up to the end of the block, and one from its start.
pub get_wrapped : Buffer → List ℕ → ℕ → ℕ → Option (ℕ × List ℕ × Buffer)
get_wrapped b mem len tail_len = do
  front ← copy_out mem b.rd_ptr tail_len
  back ← copy_out mem 0 (len - tail_len)
  some (len, front ++ back, record b { rd_ptr = len - tail_len; level = b.level - len })

-- `buf_get` of `len` bytes, once `len` is known.
pub get_from : Buffer → List ℕ → ℕ → Option (ℕ × List ℕ × Buffer)
get_from b mem len = if ltb b.rd_ptr b.wr_ptr then get_straight b mem len else do
  tail_len ← sub? b.size b.rd_ptr
  if leb len tail_len then get_straight b mem len else get_wrapped b mem len tail_len

-- The result is the count, the bytes written to `out`, and the new buffer.
pub buf_get : Buffer → ℕ → Option (ℕ × List ℕ × Buffer)
unfolding buf_empty
buf_get b size =
    if buf_empty b
    then some (0, [], b)
    else do mem ← deref b.block; get_from b mem (min b.level size)

pub put_straight : Buffer → List ℕ → List ℕ → Option (ℕ × Buffer)
put_straight b mem bytes = do
  mem' ← copy_in mem b.wr_ptr bytes
  let len = length bytes
  some (len, record b { block = live mem'; wr_ptr = b.wr_ptr + len; level = b.level + len })

pub put_wrapped : Buffer → List ℕ → List ℕ → ℕ → Option (ℕ × Buffer)
put_wrapped b mem bytes tail_len = do
  mem' ← copy_in mem b.wr_ptr (take tail_len bytes)
  mem'' ← copy_in mem' 0 (drop tail_len bytes)
  let len = length bytes
  some (len, record b { block = live mem''; wr_ptr = len - tail_len; level = b.level + len })

-- `buf_put` of `len` bytes, once `len` is known.
pub put_from : Buffer → List ℕ → List ℕ → Option (ℕ × Buffer)
put_from b mem bytes = if ltb b.wr_ptr b.rd_ptr then put_straight b mem bytes else do
  tail_len ← sub? b.size b.wr_ptr
  if leb (length bytes) tail_len then put_straight b mem bytes else put_wrapped b mem bytes tail_len

-- `input` holds `size` bytes, so its first `len` are `take len input`.
pub buf_put : Buffer → List ℕ → Option (ℕ × Buffer)
unfolding buf_full
buf_put b input = if buf_full b then some (0, b) else do
  mem ← deref b.block
  space ← sub? b.size b.level
  put_from b mem (take (min space (length input)) input)

-- The bytes that a buffer holds, oldest first.
pub contents : Buffer → List ℕ
unfolding region
contents b = elim b.block [ null ↦ [] | freed ↦ [] | live mem ↦ region mem b.rd_ptr b.level ]
