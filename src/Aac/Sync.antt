-- ===== src/Aac/Sync.antt =====
-- A stream that is a file, and the search for a sync word in it.
use dtplayer_c.Base.{
  ℕ, zero, suc, ◌+◌, ◌-◌, ◌≤◌, ◌<◌, ◌≡◌, ◌≢◌, refl, sym, ap, ◌∙◌, true, false, some, List, [], ◌∷◌,
  ◌++◌, ◌==◌, arith, length, take, drop, length-drop, length-append, drop-drop, pos, negsuc,
}
use dtplayer_c.Aac.{Input}
use dtplayer_c.Aac.Reader.{stored, find_ff}

-- The stream reads `file`, and `at` is its position: a read of some bytes that are there succeeds and
-- sets no mark of the end, and a step within the file succeeds and takes the mark away.
pub record IsFile {W : Type 0} (input : Input W) (file : List ℕ) (at : W → ℕ) : Type 0 where
  pub read_ret : (n : ℕ) (w : W) → 0 < n → at w + n ≤ length file → (input.read n w).0 ≡ pos n
  pub read_bytes :
      (n : ℕ) (w : W)
      → 0 < n
      → at w + n ≤ length file
      → (input.read n w).1 ≡ take n (drop (at w) file)
  pub read_at : (n : ℕ) (w : W) → 0 < n → at w + n ≤ length file → at (input.read n w).2 ≡ at w + n
  pub read_eof :
      (n : ℕ) (w : W) → 0 < n → at w + n ≤ length file → input.eof (input.read n w).2 ≡ input.eof w
  pub back_at : (n : ℕ) (w : W) → n < at w → at (input.skip (negsuc n) w) ≡ at w - suc n
  pub back_eof : (n : ℕ) (w : W) → n < at w → input.eof (input.skip (negsuc n) w) ≡ false
  pub on_at : (n : ℕ) (w : W) → at w + n ≤ length file → at (input.skip (pos n) w) ≡ at w + n
  pub rewind_at : (w : W) → at (input.rewind w) ≡ 0
  pub has_memory : (n : ℕ) (w : W) → input.malloc n w ≡ true

-- No byte is 0xFF.
abbrev pub NoSync : List ℕ → Type 0
NoSync [] = Unit {0}
NoSync (b ∷ bs) = (b ≢ 0xFF) × NoSync bs

-- What follows the bytes at a position.
pub drop-more :
    (file : List ℕ) (i n : ℕ) {bs : List ℕ} → drop i file ≡ bs → drop (i + n) file ≡ drop n bs
drop-more file i n e = sym (drop-drop n i file) ∙ ap (drop n) e

-- Bytes that are there are within the file.
pub within :
    (file : List ℕ) (i : ℕ) (xs ys : List ℕ)
    → drop i file ≡ xs ++ ys
    → 0 < length xs
    → i + length xs + length ys ≡ length file
within file i xs ys e p = omega (arith, ap length e, length-drop i file, length-append xs ys)

module _ {W : Type 0} {input : Input W} {file : List ℕ} {at : W → ℕ}
    (v : IsFile input file at) where
  find_ff-next :
      (fuel c x : ℕ) (w : W)
      → (c == 0xFF) ≡ false
      → (input.read 1 w).0 ≡ pos 1
      → (input.read 1 w).1 ≡ x ∷ []
      → find_ff input (suc fuel) c w ≡ find_ff input fuel x (input.read 1 w).2
  unfolding find_ff stored
  find_ff-next fuel c x w n r b = rw (n, find_ff) (rw r (rw b refl))

  -- Where the search stands behind the next 0xFF.
  pub find_ff-found :
      (junk more : List ℕ) (fuel c : ℕ) (w : W)
      → NoSync junk
      → (c == 0xFF) ≡ false
      → drop (at w) file ≡ junk ++ (0xFF ∷ more)
      → length junk + 1 < fuel
      → (w' : W) × (find_ff input fuel c w ≡ some (true, w'))
        × (at w' ≡ at w + length junk + 1)
        × (input.eof w' ≡ input.eof w)
  find_ff-found junk more zero c w j n e f = absurd (omega arith)
  find_ff-found junk more (suc zero) c w j n e f = absurd (omega arith)
  find_ff-found [] more (suc (suc fuel)) c w j n e f =
      let l = within file (at w) (0xFF ∷ []) more e (omega arith) in
      let r = v.read_ret 1 w (omega arith) (omega arith) in
      let b = v.read_bytes 1 w (omega arith) (omega arith) ∙ ap (take 1) e in
      (
        (input.read 1 w).2,
        find_ff-next (suc fuel) c 0xFF w n r b ∙ unfold find_ff in refl,
        v.read_at 1 w (omega arith) (omega arith) ∙ omega arith,
        v.read_eof 1 w (omega arith) (omega arith),
      )
  find_ff-found (x ∷ junk) more (suc fuel) c w (ne, j) n e f =
      let other : (x == 0xFF) ≡ false = ground arith in
      let l = within file (at w) (x ∷ []) (junk ++ (0xFF ∷ more)) e (omega arith) in
      let r = v.read_ret 1 w (omega arith) (omega arith) in
      let b = v.read_bytes 1 w (omega arith) (omega arith) ∙ ap (take 1) e in
      let p = v.read_at 1 w (omega arith) (omega arith) in
      let (w', g, q, h) =
        find_ff-found junk more fuel x (input.read 1 w).2 j other
          (ap (λ (k : ℕ). drop k file) p ∙ drop-more file (at w) 1 e) (omega arith) in
      (
        w',
        find_ff-next fuel c x w n r b ∙ g,
        omega arith,
        h ∙ v.read_eof 1 w (omega arith) (omega arith),
      )
