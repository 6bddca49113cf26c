-- ===== src/Buffer/Run.antt =====
-- A valid buffer behaves as the bounded queue of the bytes that it holds.
use mathlib.Core.Option
use mathlib.Core.Option.{Option}
use dtplayer_c.Base.{
  ℕ, ◌≡◌, refl, ◌∙◌, ap, sym, ◌>>=◌, some, List, [], ◌∷◌, arith, min, length, take, drop, take-min,
  drop-min, length-take,
}
use dtplayer_c.Ring.{region}
use dtplayer_c.Buffer.{Buffer, contents, buf_get, buf_put}
use dtplayer_c.Buffer.Spec
use dtplayer_c.Buffer.Spec.{Op, get, put, Reply}
use dtplayer_c.Buffer.Inv.{IsValid, contents-region, length-contents}
use dtplayer_c.Buffer.Refine.{buf_get_lem, buf_put_lem}

-- What one call returns and leaves, in the form of the specification.
unfoldable pub step : Buffer → Op → Option (Reply × Buffer)
step b (get n) = Option.map (λ (len, out, b'). ((len, out), b')) (buf_get b n)
step b (put input) = Option.map (λ (len, b'). ((len, []), b')) (buf_put b input)

unfoldable pub run : Buffer → List Op → Option (List Reply × Buffer)
run b [] = some ([], b)
run b (op ∷ ops) = do (r, b') ← step b op; (rs, b'') ← run b' ops; some (r ∷ rs, b'')

-- The next buffer is valid and holds what the specification holds.
abbrev pub Refines {ℓ} : {A : Type ℓ} → Buffer → Option (A × Buffer) → A × List ℕ → Type ℓ
Refines b r (a, q) =
    (mem' : List ℕ) × (b' : Buffer) × (r ≡ some (a, b'))
    × IsValid mem' b'
    × (contents b' ≡ q)
    × (b'.size ≡ b.size)

module _ {mem : List ℕ} {b : Buffer} (v : IsValid mem b) where
  step-Refines : (op : Op) → Refines b (step b op) (Spec.step b.size (contents b) op)
  unfolding step Spec.step
  step-Refines (get n) =
      let (b', e, v', c, s) = buf_get_lem n v in
      let q : List ℕ = region mem b.rd_ptr b.level in
      let lq : length q ≡ b.level = ap length (sym (contents-region v)) ∙ length-contents v in
      let t : take (min b.level n) q ≡ take n q = rw lq at (take-min n q) in
      let d : drop (min b.level n) q ≡ drop n q = rw lq at (drop-min n q) in
      let l : min b.level n ≡ length (take n q) = omega (arith, length-take n q) in
      rw (contents-region v) (mem, b', rw (e, t, l), v', contents-region v' ∙ c ∙ d, s)
  step-Refines (put input) =
      let (mem', b', e, v', c, s) = buf_put_lem input v in
      rw (length-contents v)
        (mem', b', rw e, v', contents-region v' ∙ c ∙ rw (contents-region v), s)

-- Any sequence of `buf_get` and `buf_put` from a valid buffer runs without a fault, returns what
-- the bounded queue of the buffer's contents returns, call by call, and leaves a valid buffer that
-- holds what that queue then holds.
pub run-Refines :
    (ops : List Op) {mem : List ℕ} {b : Buffer}
    → IsValid mem b
    → Refines b (run b ops) (Spec.run b.size (contents b) ops)
unfolding run Spec.run
run-Refines [] {mem} {b} v = (mem, b, refl, v, refl, refl)
run-Refines (op ∷ ops) {b} v =
    let (mem', b', e, v', c, s) = step-Refines v op in
    let (mem'', b'', e', v'', c', s') = run-Refines ops v' in
    (mem'', b'', rw (e, e', c, s), v'', c' ∙ rw (c, s), s' ∙ s)
