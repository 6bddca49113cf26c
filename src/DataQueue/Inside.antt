-- ===== src/DataQueue/Inside.antt =====
-- A place inside the queue: what the calls with a position do there.
use dtplayer_c.Base.{
  ℕ, zero, suc, ◌+◌, ◌<◌, ◌≡◌, refl, ap, ◌∙◌, Option, some, none, List, [], ◌∷◌, ◌++◌, false, ltb,
  leb, arith, length, length-append,
}
use dtplayer_c.Heap.{Ptr, null}
use dtplayer_c.Heap.Chain.{Cells, last_of, last_of-snoc}
use dtplayer_c.DataQueue.{
  data_node, DataQueue, Memory, load, set_prev, unlink_between, queue_pop_nth, get_node_link_nth,
}
use dtplayer_c.DataQueue.Links.{load-node, set_next-node, Links-split}
use dtplayer_c.DataQueue.Ends.{IsDataQueue, last_cell}
use dtplayer_c.DataQueue.Run.{values}
use dtplayer_c.DataQueue.Nth.{get_node_link_nth-at, unlink_between-Popped}

pub values-append : (xs ys : Cells Ptr) → values (xs ++ ys) ≡ values xs ++ values ys
values-append [] ys = refl
values-append ((_, x) ∷ xs) ys = ap (λ (l : List Ptr). x ∷ l) (values-append xs ys)

pub length-values : (xs : Cells Ptr) → length (values xs) ≡ length xs
length-values [] = refl
length-values (_ ∷ xs) = omega (arith, length-values xs)

-- The list cut behind its first `n` cells, of which there are some, and before some others.
abbrev pub Cut : ℕ → Cells Ptr → Type 0
Cut n xs =
    (init : Cells Ptr) × (l w r y : Ptr) × (post : Cells Ptr) × (xs
      ≡ (init ++ ((l, w) ∷ [])) ++ ((r, y) ∷ post))
    × (length init + 1 ≡ n)

pub Cut-at : (n : ℕ) (xs : Cells Ptr) → 0 < n → n < length xs → Cut n xs
Cut-at zero xs more lt = absurd (omega arith)
Cut-at (suc n) [] more lt = absurd (omega arith)
Cut-at (suc n) (_ ∷ []) more lt = absurd (omega arith)
Cut-at (suc zero) ((l, w) ∷ (r, y) ∷ post) more lt = ([], l, w, r, y, post, refl, refl)
Cut-at (suc (suc n)) ((p, x) ∷ (q, z) ∷ xs) more lt =
    let (init, l, w, r, y, post, e, count) =
      Cut-at (suc n) ((q, z) ∷ xs) (omega arith) (omega (arith, lt)) in
    ((p, x) ∷ init, l, w, r, y, post, ap (λ (c : Cells Ptr). (p, x) ∷ c) e, omega (arith, count))

-- A pop has taken the element behind the first `k` out of the list.
abbrev pub Removed : ℕ → List Ptr → Option (Ptr × DataQueue × Memory) → Type 0
Removed k l r =
    (x : Ptr) × (q' : DataQueue) × (h' : Memory) × (xs' : Cells Ptr) × (before after : List Ptr)
    × (r ≡ some (x, q', h'))
    × IsDataQueue h' xs' q'
    × (l ≡ before ++ (x ∷ after))
    × (length before ≡ k)
    × (values xs' ≡ before ++ after)

pop_nth-at :
    (k : ℕ) (init : Cells Ptr) (l w p x : Ptr) (back : Cells Ptr) {q : DataQueue} {h : Memory}
    → IsDataQueue h ((init ++ ((l, w) ∷ [])) ++ ((p, x) ∷ back)) q
    → length init + 1 ≡ k
    → k + 1 < length ((init ++ ((l, w) ∷ [])) ++ ((p, x) ∷ back))
    → Removed k (values ((init ++ ((l, w) ∷ [])) ++ ((p, x) ∷ back))) (queue_pop_nth q (k + 1) h)
unfolding queue_pop_nth
pop_nth-at k init l w p x [] {q} {h} v count lt =
    let front = init ++ ((l, w) ∷ []) in
    absurd (
      omega (arith, lt, count, length-append front ((p, x) ∷ []), length-append init ((l, w) ∷ [])))
pop_nth-at k init l w p x ((r, y) ∷ post) {q} {h} v count lt =
    let front = init ++ ((l, w) ∷ []) in
    let size : length front ≡ k = omega (arith, count, length-append init ((l, w) ∷ [])) in
    let (q', h', s, v', _, _) = unlink_between-Popped init l w p x r y post v in
    let within : ltb q.length (k + 1) ≡ false = ground (arith, v.count, lt) in
    let later : leb (k + 1) 1 ≡ false = ground (arith, count) in
    let found : get_node_link_nth q (k + 1) h ≡ some p =
      rw size at (get_node_link_nth-at front p x ((r, y) ∷ post) v) in
    (
      x,
      q',
      h',
      front ++ ((r, y) ∷ post),
      values front,
      y ∷ values post,
      rw (within, later, found) s,
      v',
      values-append front ((p, x) ∷ (r, y) ∷ post),
      length-values front ∙ size,
      values-append front ((r, y) ∷ post),
    )

last_pop-at :
    (k : ℕ) (init : Cells Ptr) (l w p x : Ptr) (back : Cells Ptr) {q : DataQueue} {h : Memory}
    → IsDataQueue h ((init ++ ((l, w) ∷ [])) ++ ((p, x) ∷ back)) q
    → length init + 1 ≡ k
    → k + 1 ≡ length ((init ++ ((l, w) ∷ [])) ++ ((p, x) ∷ back))
    → queue_pop_nth q (k + 1) h ≡ none
unfolding queue_pop_nth unlink_between set_prev load
last_pop-at k init l w p x (c ∷ back) v count end =
    let front = init ++ ((l, w) ∷ []) in
    absurd (
      omega (
        arith,
        end,
        count,
        length-append front ((p, x) ∷ c ∷ back),
        length-append init ((l, w) ∷ []),
      ))
last_pop-at k init l w p x [] {q} {h} v count end =
    let front = init ++ ((l, w) ∷ []) in
    let size : length front ≡ k = omega (arith, count, length-append init ((l, w) ∷ [])) in
    let within : ltb q.length (k + 1) ≡ false = ground (arith, v.count, end) in
    let later : leb (k + 1) 1 ≡ false = ground (arith, count) in
    let found : get_node_link_nth q (k + 1) h ≡ some p =
      rw size at (get_node_link_nth-at front p x [] v) in
    let last : last_of null front ≡ l = last_of-snoc l null w init in
    let (front_on, (p_ne, at_p, _, _), _) = Links-split h null null front ((p, x) ∷ []) v.links in
    let (l_ne, at_l, _, _) = last_cell h init l w p front_on in
    let held : h p ≡ some (data_node x null l) = rw last at at_p in
    rw (within, later, found, load-node h p p_ne held, set_next-node h l null l_ne at_l) refl

pop_nth-Cut :
    (k : ℕ) (xs : Cells Ptr) {q : DataQueue} {h : Memory}
    → Cut k xs
    → k + 1 < length xs
    → IsDataQueue h xs q
    → Removed k (values xs) (queue_pop_nth q (k + 1) h)
pop_nth-Cut k xs (init, l, w, p, x, back, e, count) =
    rw e (λ lt v. pop_nth-at k init l w p x back v count lt)

-- On a well-formed queue, a pop at a position `k + 1` that is neither the first nor the last takes out
-- the node there, returns its pointer, frees it and leaves a well-formed queue of the others in order.
pub queue_pop_nth-Removed :
    (k : ℕ) (xs : Cells Ptr) {q : DataQueue} {h : Memory}
    → 0 < k
    → k + 1 < length xs
    → IsDataQueue h xs q
    → Removed k (values xs) (queue_pop_nth q (k + 1) h)
queue_pop_nth-Removed k xs more lt = pop_nth-Cut k xs (Cut-at k xs more (omega arith)) lt

last_pop-Cut :
    (k : ℕ) (xs : Cells Ptr) {q : DataQueue} {h : Memory}
    → Cut k xs
    → k + 1 ≡ length xs
    → IsDataQueue h xs q
    → queue_pop_nth q (k + 1) h ≡ none
last_pop-Cut k xs (init, l, w, p, x, back, e, count) =
    rw e (λ end v. last_pop-at k init l w p x back v count end)

-- On a well-formed queue of two or more, a pop at the last position writes through the NULL behind the
-- last node, which is a fault.
pub queue_pop_nth-faults :
    (k : ℕ) (xs : Cells Ptr) {q : DataQueue} {h : Memory}
    → 0 < k
    → k + 1 ≡ length xs
    → IsDataQueue h xs q
    → queue_pop_nth q (k + 1) h ≡ none
queue_pop_nth-faults k xs more end = last_pop-Cut k xs (Cut-at k xs more (omega arith)) end
