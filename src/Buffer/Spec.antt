-- ===== src/Buffer/Spec.antt =====
-- What a byte buffer promises: a queue of at most `cap` bytes, oldest first.
use dtplayer_c.Base.{ℕ, ◌-◌, List, [], ◌∷◌, ◌++◌, length, take, drop}

pub data Op : Type 0 where
  get : ℕ → Op
  put : List ℕ → Op

-- What a call returns: the count, and the bytes that it hands out.
abbrev pub Reply : Type 0
Reply = ℕ × List ℕ

unfoldable pub step : ℕ → List ℕ → Op → Reply × List ℕ
step cap q (get n) = ((length (take n q), take n q), drop n q)
step cap q (put bs) =
    let taken : List ℕ = take (cap - length q) bs in ((length taken, []), q ++ taken)

unfoldable pub run : ℕ → List ℕ → List Op → List Reply × List ℕ
run cap q [] = ([], q)
run cap q (op ∷ ops) =
    let (r, q') = step cap q op in let (rs, q'') = run cap q' ops in (r ∷ rs, q'')
