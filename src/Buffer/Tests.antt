-- ===== src/Buffer/Tests.antt =====
-- Runs of dtutils/dt_buffer.c at small blocks, and its theorems at them.
use mathlib.Core.Option
use mathlib.Core.Option.{Option, some, none}
use dtplayer_c.Base.{◌≡◌, refl, List, [], ◌∷◌, arith, inr, some}
use dtplayer_c.Ring.{copy_in, copy_out}
use dtplayer_c.Buffer.{
  Buffer, live, buf_get, buf_put, contents, buf_empty, buf_full, deref, get_from, put_from,
  get_straight, get_wrapped, put_straight, put_wrapped,
}
use dtplayer_c.Buffer.Spec
use dtplayer_c.Buffer.Spec.{Op, get, put}
use dtplayer_c.Buffer.Inv.{IsValid}
use dtplayer_c.Buffer.Run.{run, step, run-Refines, Refines}

-- Five bytes, two of them behind the end: 7, 8, 9, then 1.
abbrev wrapped : Buffer
wrapped = record {
  block = live (1 ∷ 5 ∷ 7 ∷ 8 ∷ 9 ∷ []);
  size = 5;
  level = 4;
  rd_ptr = 2;
  wr_ptr = 1;
}

wrapped-IsValid : IsValid (1 ∷ 5 ∷ 7 ∷ 8 ∷ 9 ∷ []) wrapped
wrapped-IsValid = record {
  is_live = refl;
  fits = refl;
  rd_in = omega arith;
  wr_in = omega arith;
  level_in = omega arith;
  ends = inr refl;
}

abbrev calls : List Op
calls = put (6 ∷ 6 ∷ []) ∷ get 4 ∷ put (2 ∷ 3 ∷ []) ∷ get 9 ∷ []

run-wrapped :
    Option.map (λ r. r.0) (run wrapped calls)
    ≡ some ((1, []) ∷ (4, 7 ∷ 8 ∷ 9 ∷ 1 ∷ []) ∷ (2, []) ∷ (3, 6 ∷ 2 ∷ 3 ∷ []) ∷ [])
unfolding run step buf_get buf_put buf_empty buf_full deref get_from put_from get_straight
    get_wrapped put_straight put_wrapped copy_out copy_in
run-wrapped = refl

run-Refines_example : Refines wrapped (run wrapped calls) (Spec.run 5 (contents wrapped) calls)
run-Refines_example = run-Refines calls wrapped-IsValid
