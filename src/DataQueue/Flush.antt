-- ===== src/DataQueue/Flush.antt =====
-- The loop that empties the queue.
use dtplayer_c.Base.{
  ℕ, zero, suc, ◌+◌, ◌≡◌, ◌≢◌, refl, ◌∙◌, Option, some, none, List, [], ◌∷◌, ◌++◌, true, false,
  ◌==◌, ◌>>=◌, arith, length, length-append, inl, inr,
}
use mathlib.Core.List.{reverse}
use mathlib.Mathlib.Data.List.Basic.{reverse-concat'}
use dtplayer_c.Heap.{Ptr, null}
use dtplayer_c.Heap.Chain.{Cells}
use dtplayer_c.DataQueue.{DataQueue, Memory, queue_pop_tail, empty_loop, queue_flush}
use dtplayer_c.DataQueue.Ends.{IsDataQueue, snoc_view, queue_pop_tail-Popped, not_null}
use dtplayer_c.DataQueue.Run.{values, values-snoc, empty_tail}

-- None of the pointers is NULL.
abbrev pub AllGiven : List Ptr → Type 0
AllGiven [] = Unit {0}
AllGiven (x ∷ l) = (x ≢ null) × AllGiven l

AllGiven-snoc : (l : List Ptr) (x : Ptr) → AllGiven (l ++ (x ∷ [])) → AllGiven l × (x ≢ null)
AllGiven-snoc [] x g = (tt, g.0)
AllGiven-snoc (y ∷ l) x g = let r = AllGiven-snoc l x g.1 in ((g.0, r.0), r.1)

-- The nodes of these cells are not allocated.
abbrev pub AllFreed : Memory → Cells Ptr → Type 0
AllFreed h [] = Unit {0}
AllFreed h ((p, _) ∷ xs) = (h p ≡ none) × AllFreed h xs

AllFreed-snoc :
    (h : Memory) (xs : Cells Ptr) (p x : Ptr)
    → AllFreed h xs
    → h p ≡ none
    → AllFreed h (xs ++ ((p, x) ∷ []))
AllFreed-snoc h [] p x all e = (e, tt)
AllFreed-snoc h (_ ∷ xs) p x all e = (all.0, AllFreed-snoc h xs p x all.1 e)

-- The pointers have been given back in this order, nothing is left, the nodes of `xs` are freed, and
-- nothing has been allocated.
abbrev pub Emptied : Memory → Cells Ptr → List Ptr → Option (List Ptr × DataQueue × Memory) → Type 0
Emptied h xs l r =
    (q' : DataQueue) × (h' : Memory) × (r ≡ some (l, q', h'))
    × IsDataQueue h' [] q'
    × AllFreed h' xs
    × ((z : Ptr) → h z ≡ none → h' z ≡ none)

goes_on :
    {A : Type 0} (x : Ptr) (a b : A) → x ≢ null → (elim (x == null) [ true ↦ a | false ↦ b ]) ≡ b
goes_on x a b ne = rw (not_null x ne) refl

empty_loop-pop :
    (k x : ℕ) (q q' : DataQueue) (h h' : Memory)
    → queue_pop_tail q h ≡ some (x, q', h')
    → x ≢ null
    → empty_loop (suc k) q h ≡ (empty_loop k q' h' >>= λ s. some (x ∷ s.0, s.1, s.2))
unfolding empty_loop
empty_loop-pop k x q q' h h' e ne = rw e (goes_on x _ _ ne)

empty_loop-Emptied :
    (n : ℕ) (xs : Cells Ptr) {q : DataQueue} {h : Memory}
    → length xs ≡ n
    → IsDataQueue h xs q
    → AllGiven (values xs)
    → Emptied h xs (reverse (values xs)) (empty_loop (suc n) q h)
unfolding empty_loop
empty_loop-Emptied zero [] {q} {h} =
    λ e v g. (q, h, rw (empty_tail v) refl, v, tt, (λ z unused. unused))
empty_loop-Emptied zero (_ ∷ xs) {q} {h} = λ e v g. absurd (omega (arith, e))
empty_loop-Emptied (suc n) xs {q} {h} = elim (snoc_view xs) [
  | inl e ↦ rw e (λ count v g. absurd (omega (arith, count)))
  | inr (init, p, x, e) ↦ rw e λ count v g.
      let (given, x_given) = AllGiven-snoc (values init) x (rw (values-snoc init p x) at g) in
      let (q1, h1, s, v1, freed, kept) = queue_pop_tail-Popped init p x v in
      let fewer : length init ≡ n = omega (arith, count, length-append init ((p, x) ∷ [])) in
      let (q2, h2, s', v2, all, kept') = empty_loop-Emptied n init fewer v1 given in
      (
        q2,
        h2,
        empty_loop-pop (suc n) x q q1 h h1 s x_given
            ∙ rw (s', values-snoc init p x, reverse-concat' (values init) x) refl,
        v2,
        AllFreed-snoc h2 init p x all (kept' p freed),
        (λ z unused. kept' z (kept z unused)),
      )
]

-- `queue_flush` of a well-formed queue that holds no NULL ends, gives every pointer back once, the last
-- one first, frees every node, allocates none, and leaves a well-formed empty queue.
pub queue_flush-Emptied :
    (xs : Cells Ptr) {q : DataQueue} {h : Memory}
    → IsDataQueue h xs q
    → AllGiven (values xs)
    → Emptied h xs (reverse (values xs)) (queue_flush q h)
unfolding queue_flush
queue_flush-Emptied xs {q} v g =
    let rounds : q.length + 1 ≡ suc (length xs) = omega (arith, v.count) in
    rw rounds (empty_loop-Emptied (length xs) xs refl v g)
