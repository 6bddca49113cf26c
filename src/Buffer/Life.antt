-- ===== src/Buffer/Life.antt =====
-- From `buf_init` to `buf_release`.
use dtplayer_c.Base.{
  sym, ◌-◌, le→leb, ℕ, ◌<◌, ◌≡◌, refl, false, none, some, List, [], arith, length, pos, ◌==◌,
}
use dtplayer_c.Ring.{region}
use dtplayer_c.Buffer.{
  Buffer, freed, buf_space, buf_level, buf_init, buf_reinit, buf_release, buf_get, buf_empty, deref,
  contents,
}
use dtplayer_c.Buffer.Inv.{IsValid, contents-region, length-contents}

-- `buf_init` with a block of the requested size makes a valid, empty buffer.
pub buf_init-IsValid :
    (b : Buffer) (mem : List ℕ) (size : ℕ)
    → length mem ≡ size
    → IsValid mem (buf_init b (some mem) size).1 × (contents (buf_init b (some mem) size).1 ≡ [])
unfolding buf_init contents
buf_init-IsValid b mem size h = (ground arith, refl)

module _ {mem : List ℕ} {b : Buffer} (v : IsValid mem b) where
  -- `buf_reinit` empties a valid buffer, and keeps it valid and of the same size.
  pub buf_reinit-IsValid :
      IsValid mem (buf_reinit b).1
      × (contents (buf_reinit b).1 ≡ [])
      × ((buf_reinit b).1.size ≡ b.size)
  unfolding buf_reinit region
  buf_reinit-IsValid =
      let v' : IsValid mem (record b { level = 0; rd_ptr = 0; wr_ptr = 0 }) = ground arith in
      (v', contents-region v', refl)

  -- `buf_release` of a valid buffer that holds bytes succeeds once. It keeps the level and the
  -- address of the freed block, so a second call and a `buf_get` are faults.
  pub buf_release_once :
      (n : ℕ)
      → 0 < b.level
      → (b' : Buffer) × (buf_release b ≡ some (pos 0, b'))
        × (buf_release b' ≡ none)
        × (buf_get b' n ≡ none)
  unfolding buf_release buf_get deref buf_empty
  buf_release_once n h =
      let e : (b.level == 0) ≡ false = ground arith in
      (record b { block = freed; size = 0 }, rw (v.is_live, buf_release), refl, rw e)

  -- `buf_level` of a valid buffer is the number of bytes that it holds, and `buf_space` the number
  -- that fits beside them.
  pub buf_space_lem :
      (buf_level b ≡ length (contents b)) × (buf_space b ≡ some (b.size - length (contents b)))
  unfolding buf_space buf_level
  buf_space_lem =
      (sym (length-contents v), rw (length-contents v, le→leb b.level b.size v.level_in) refl)
