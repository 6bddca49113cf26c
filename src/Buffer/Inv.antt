-- ===== src/Buffer/Inv.antt =====
-- The representation invariant of `dt_buffer_t`.
use dtplayer_c.Base.{ℕ, ◌+◌, ◌≤◌, ◌≡◌, ◌⊎◌, List, arith, length}
use dtplayer_c.Base.{some, ◌∙◌, ap, le→leb, ◌-◌}
use dtplayer_c.Ring.{region, length-region}
use dtplayer_c.Buffer.{Buffer, live, contents, deref, buf_space}

-- `mem` is the live block; the write position is the fill level behind the read position, and
-- either may stand at the end of the block.
pub record IsValid (mem : List ℕ) (b : Buffer) : Type 0 where
  pub is_live : b.block ≡ live mem
  pub fits : length mem ≡ b.size
  pub rd_in : b.rd_ptr ≤ b.size
  pub wr_in : b.wr_ptr ≤ b.size
  pub level_in : b.level ≤ b.size
  pub ends : (b.rd_ptr + b.level ≡ b.wr_ptr) ⊎ (b.rd_ptr + b.level ≡ b.wr_ptr + b.size)

module _ {mem : List ℕ} {b : Buffer} (v : IsValid mem b) where
  pub deref-some : deref b.block ≡ some mem
  unfolding deref
  deref-some = rw (v.is_live, deref)

  pub buf_space-some : buf_space b ≡ some (b.size - b.level)
  unfolding buf_space
  buf_space-some = rw (le→leb b.level b.size v.level_in)

  pub contents-region : contents b ≡ region mem b.rd_ptr b.level
  unfolding contents
  contents-region = rw (v.is_live, contents)

  pub length-contents : length (contents b) ≡ b.level
  length-contents =
      ap length contents-region ∙ length-region mem b.rd_ptr b.level (omega arith) (omega arith)
