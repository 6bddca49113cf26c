-- ===== src/DataQueue/Ends.antt =====
-- The calls at the two ends of the queue.
use dtplayer_c.Base.{
  ℕ, suc, ◌≡◌, ◌≢◌, refl, sym, ap, ◌∙◌, Option, some, none, [], ◌∷◌, ◌++◌, false, ◌==◌, arith,
  length, length-append, sub?, ◌⊎◌, inl, inr,
}
use dtplayer_c.Heap.{Ptr, null}
use dtplayer_c.Heap.Chain.{Cells, Apart, Disjoint, last_of, last_of-snoc}
use dtplayer_c.DataQueue.{
  DataNode, data_node, DataQueue, Memory, write_cell, set_prev_if, set_next_if, queue_pop_head,
  queue_pop_tail, queue_pre_pop_head,
}
use dtplayer_c.DataQueue.Links.{
  head_or, Links, write_cell_self, write_cell_ne, keeps_none, load-node, set_next-node,
  set_prev-node, free-node, Links-write_cell, Apart-front, Links-split, Links-join,
}

-- The queue holds the pointers of the cells, in this order.
pub record IsDataQueue (h : Memory) (xs : Cells Ptr) (q : DataQueue) : Type 0 where
  pub links : Links h null xs null
  pub head_is : q.head ≡ head_or null xs
  pub tail_is : q.tail ≡ last_of null xs
  pub count : q.length ≡ length xs

-- A call has taken out `x` and freed its node at `p`, the cells `xs` are left, and nothing has been
-- allocated.
abbrev pub Popped : Memory → Ptr → Cells Ptr → Ptr → Option (Ptr × DataQueue × Memory) → Type 0
Popped h p xs x r =
    (q' : DataQueue) × (h' : Memory) × (r ≡ some (x, q', h'))
    × IsDataQueue h' xs q'
    × (h' p ≡ none)
    × ((z : Ptr) → h z ≡ none → h' z ≡ none)

pub sub_one : (n k : ℕ) → n ≡ suc k → sub? n 1 ≡ some k
sub_one n k e = ground arith

pub not_null : (p : Ptr) → p ≢ null → (p == null) ≡ false
not_null p ne = ground arith

pub set_prev_if-node :
    (h : Memory) (p q : Ptr) {n : DataNode}
    → p ≢ null
    → h p ≡ some n
    → set_prev_if h p q ≡ some (write_cell h p (some (record n { prev = q })))
unfolding set_prev_if
set_prev_if-node h p q ne e = rw (not_null p ne) (set_prev-node h p q ne e)

pub set_next_if-node :
    (h : Memory) (p q : Ptr) {n : DataNode}
    → p ≢ null
    → h p ≡ some n
    → set_next_if h p q ≡ some (write_cell h p (some (record n { next = q })))
unfolding set_next_if
set_next_if-node h p q ne e = rw (not_null p ne) (set_next-node h p q ne e)

-- The first node goes, and the second one has none before it.
pub queue_pop_head-Popped :
    {h : Memory} (p x : Ptr) (xs : Cells Ptr) {q : DataQueue}
    → IsDataQueue h ((p, x) ∷ xs) q
    → Popped h p xs x (queue_pop_head q h)
unfolding queue_pop_head set_prev_if
queue_pop_head-Popped {h} p x [] {q} v =
    let (ne, held, _, _) = v.links in
    rw
      (
        v.head_is,
        not_null p ne,
        load-node h p ne held,
        sub_one q.length 0 v.count,
        free-node h p ne held,
      )
      (
        record { head = null; tail = null; length = 0 },
        write_cell h p none,
        refl,
        record { links = tt; head_is = refl; tail_is = refl; count = refl },
        write_cell_self h p none,
        (λ z unused. keeps_none h p none z held unused),
      )
queue_pop_head-Popped {h} p x ((r, y) ∷ xs) {q} v =
    let (ne, held, (apart, apart'), (ne', held', apart_r, links)) = v.links in
    let h1 = write_cell h r (some (data_node y (head_or null xs) null)) in
    let held1 : h1 p ≡ some (data_node x r null) = write_cell_ne h r _ p apart ∙ held in
    rw
      (
        v.head_is,
        not_null p ne,
        load-node h p ne held,
        not_null r ne',
        set_prev-node h r null ne' held',
        sub_one q.length (suc (length xs)) (omega (arith, v.count)),
        free-node h1 p ne held1,
      )
      (
        record { head = r; tail = q.tail; length = suc (length xs) },
        write_cell h1 p none,
        refl,
        record {
          links = (
            ne',
            write_cell_ne h1 p none r (λ e. apart (sym e)) ∙ write_cell_self h r _,
            apart_r,
            Links-write_cell h1 p none r null xs apart'
                (Links-write_cell h r _ r null xs apart_r links),
          );
          head_is = refl;
          tail_is = v.tail_is;
          count = omega arith;
        },
        write_cell_self h1 p none,
        (λ z unused. keeps_none h1 p none z held1 (keeps_none h r _ z held' unused)),
      )

pub queue_pre_pop_head_lem :
    {h : Memory} (p x : Ptr) (xs : Cells Ptr) {q : DataQueue}
    → IsDataQueue h ((p, x) ∷ xs) q
    → queue_pre_pop_head q h ≡ some x
unfolding queue_pre_pop_head
queue_pre_pop_head_lem {h} p x xs {q} v =
    rw (v.head_is, not_null p v.links.0, load-node h p v.links.0 v.links.1) refl

pub Apart-of : (p x : Ptr) (xs : Cells Ptr) → Disjoint xs ((p, x) ∷ []) → Apart p xs
Apart-of p x [] d = tt
Apart-of p x ((r, _) ∷ xs) d = ((λ e. d.0.0 (sym e)), Apart-of p x xs d.1)

Disjoint-of : (p x : Ptr) (xs : Cells Ptr) → Apart p xs → Disjoint xs ((p, x) ∷ [])
Disjoint-of p x [] o = tt
Disjoint-of p x ((r, _) ∷ xs) o = (((λ e. o.0 (sym e)), tt), Disjoint-of p x xs o.1)

-- A list is empty or has a last cell.
pub snoc_view :
    (xs : Cells Ptr) → (xs ≡ []) ⊎ ((init : Cells Ptr) × (r y : Ptr) × (xs ≡ init ++ ((r, y) ∷ [])))
snoc_view [] = inl refl
snoc_view ((p, x) ∷ xs) = elim (snoc_view xs) [
  | inl e ↦ inr ([], p, x, ap (λ (l : Cells Ptr). (p, x) ∷ l) e)
  | inr (init, r, y, e) ↦ inr ((p, x) ∷ init, r, y, ap (λ (l : Cells Ptr). (p, x) ∷ l) e)
]

-- The last node, given the cells before it.
pub last_cell :
    (h : Memory) (init : Cells Ptr) (p x a : Ptr)
    → Links h null (init ++ ((p, x) ∷ [])) a
    → (p ≢ null)
      × (h p ≡ some (data_node x a (last_of null init)))
      × Apart p init
      × Links h null init p
last_cell h init p x a l =
    let (front, back, d) = Links-split h null a init ((p, x) ∷ []) l in
    (back.0, back.1, Apart-of p x init d, front)

-- A new last cell.
pub Links-snoc :
    (h : Memory) (init : Cells Ptr) (p x a : Ptr)
    → p ≢ null
    → h p ≡ some (data_node x a (last_of null init))
    → Apart p init
    → Links h null init p
    → Links h null (init ++ ((p, x) ∷ [])) a
Links-snoc h init p x a ne held apart front =
    Links-join h null a init ((p, x) ∷ []) front (ne, held, tt, tt) (Disjoint-of p x init apart)

pub head_or-snoc : (a b p x : Ptr) (xs : Cells Ptr) → head_or a (xs ++ ((p, x) ∷ [])) ≡ head_or p xs
head_or-snoc a b p x [] = refl
head_or-snoc a b p x (_ ∷ xs) = refl

pub tail_at :
    (h : Memory) (init : Cells Ptr) (p x : Ptr) {q : DataQueue}
    → IsDataQueue h (init ++ ((p, x) ∷ [])) q
    → q.tail ≡ p
tail_at h init p x v = v.tail_is ∙ last_of-snoc p null x init

pop_tail_one :
    {h : Memory} (p x : Ptr) {q : DataQueue}
    → IsDataQueue h ((p, x) ∷ []) q
    → Popped h p [] x (queue_pop_tail q h)
unfolding queue_pop_tail set_next_if
pop_tail_one {h} p x {q} v =
    let (ne, held, _, _) = v.links in
    rw
      (
        v.tail_is,
        not_null p ne,
        load-node h p ne held,
        sub_one q.length 0 v.count,
        free-node h p ne held,
      )
      (
        record { head = null; tail = null; length = 0 },
        write_cell h p none,
        refl,
        record { links = tt; head_is = refl; tail_is = refl; count = refl },
        write_cell_self h p none,
        (λ z unused. keeps_none h p none z held unused),
      )

pop_tail_more :
    {h : Memory} (init : Cells Ptr) (r y p x : Ptr) {q : DataQueue}
    → IsDataQueue h ((init ++ ((r, y) ∷ [])) ++ ((p, x) ∷ [])) q
    → Popped h p (init ++ ((r, y) ∷ [])) x (queue_pop_tail q h)
unfolding queue_pop_tail set_next_if
pop_tail_more {h} init r y p x {q} v =
    let before = init ++ ((r, y) ∷ []) in
    let (ne, held, apart, front) = last_cell h before p x null v.links in
    let (ne', held', apart', front') = last_cell h init r y p front in
    let (apart_p, (p_r, _)) = Apart-front p init ((r, y) ∷ []) apart in
    let last : last_of null before ≡ r = last_of-snoc r null y init in
    let held_r : h p ≡ some (data_node x null r) = rw last at held in
    let h1 = write_cell h r (some (data_node y null (last_of null init))) in
    let held1 : h1 p ≡ some (data_node x null r) = write_cell_ne h r _ p p_r ∙ held_r in
    rw
      (
        tail_at h before p x v,
        not_null p ne,
        load-node h p ne held_r,
        not_null r ne',
        set_next-node h r null ne' held',
        sub_one q.length (length before)
            (v.count ∙ length-append before ((p, x) ∷ []) ∙ omega arith),
        free-node h1 p ne held1,
      )
      (
        record { head = q.head; tail = r; length = length before },
        write_cell h1 p none,
        refl,
        record {
          links =
              Links-snoc (write_cell h1 p none) init r y null ne'
                (write_cell_ne h1 p none r (λ e. p_r (sym e)) ∙ write_cell_self h r _) apart'
                (Links-write_cell h1 p none null r init apart_p
                  (Links-write_cell h r _ null r init apart' front'));
          head_is =
              v.head_is
              ∙ head_or-snoc null null p x before
              ∙ head_or-snoc p null r y init
              ∙ sym (head_or-snoc null null r y init);
          tail_is = sym last;
          count = refl;
        },
        write_cell_self h1 p none,
        (λ z unused. keeps_none h1 p none z held1 (keeps_none h r _ z held' unused)),
      )

-- The last node goes, and the one before it has none behind it.
pub queue_pop_tail-Popped :
    {h : Memory} (init : Cells Ptr) (p x : Ptr) {q : DataQueue}
    → IsDataQueue h (init ++ ((p, x) ∷ [])) q
    → Popped h p init x (queue_pop_tail q h)
queue_pop_tail-Popped init p x = elim (snoc_view init) [
  | inl e ↦ rw e (pop_tail_one p x)
  | inr (before, r, y, e) ↦ rw e (pop_tail_more before r y p x)
]
