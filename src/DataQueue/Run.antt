-- ===== src/DataQueue/Run.antt =====
-- The queue as a list of pointers, for any sequence of calls at its ends.
use dtplayer_c.Base.{
  ◌≡◌, ◌≢◌, refl, ap, Bool, Option, some, none, List, [], ◌∷◌, ◌++◌, true, not, ◌==◌, ◌&&◌, ◌>>=◌,
  arith, inl, inr,
}
use dtplayer_c.Heap.{Ptr, null}
use dtplayer_c.Heap.Chain.{Cells}
use dtplayer_c.DataQueue.{
  DataQueue, Memory, queue_pop_head, queue_pop_tail, queue_pre_pop_head, queue_push_head,
  queue_push_tail,
}
use dtplayer_c.DataQueue.Ends.{
  IsDataQueue, queue_pop_head-Popped, queue_pop_tail-Popped, queue_pre_pop_head_lem, snoc_view,
}
use dtplayer_c.DataQueue.Push.{queue_push_head-Pushed, queue_push_tail-Pushed}

pub data Call : Type 0 where
  push_head push_tail : Ptr → Call
  pop_head pop_tail pre_pop_head : Call

-- The pointers, first to last.
abbrev pub values : Cells Ptr → List Ptr
values [] = []
values ((_, x) ∷ xs) = x ∷ values xs

abbrev pub take_first : List Ptr → Ptr × List Ptr
take_first [] = (null, [])
take_first (x ∷ xs) = (x, xs)

unfoldable pub take_last : List Ptr → Ptr × List Ptr
take_last [] = (null, [])
take_last (x ∷ []) = (x, [])
take_last (x ∷ y ∷ xs) = let r = take_last (y ∷ xs) in (r.0, x ∷ r.1)

-- What a call does to a list: its result, NULL where it has none, and the list after it.
unfoldable pub on_list : Call → List Ptr → Ptr × List Ptr
on_list (push_head d) l = (null, d ∷ l)
on_list (push_tail d) l = (null, l ++ (d ∷ []))
on_list pop_head l = take_first l
on_list pop_tail l = take_last l
on_list pre_pop_head l = ((take_first l).0, l)

unfoldable pub all_on_list : List Call → List Ptr → List Ptr × List Ptr
all_on_list [] l = ([], l)
all_on_list (c ∷ calls) l =
    let r = on_list c l in let rest = all_on_list calls r.1 in (r.0 ∷ rest.0, rest.1)

pub values-snoc :
    (xs : Cells Ptr) (p x : Ptr) → values (xs ++ ((p, x) ∷ [])) ≡ values xs ++ (x ∷ [])
values-snoc [] p x = refl
values-snoc ((_, y) ∷ xs) p x = ap (λ (l : List Ptr). y ∷ l) (values-snoc xs p x)

take_last-snoc : (xs : List Ptr) (x : Ptr) → take_last (xs ++ (x ∷ [])) ≡ (x, xs)
unfolding take_last
take_last-snoc [] x = refl
take_last-snoc (y ∷ []) x = refl
take_last-snoc (y ∷ z ∷ xs) x =
    ap (λ (r : Ptr × List Ptr). (r.0, y ∷ r.1)) (take_last-snoc (z ∷ xs) x)

pub empty_head :
    {h : Memory} {q : DataQueue} → IsDataQueue h [] q → queue_pop_head q h ≡ some (null, q, h)
unfolding queue_pop_head
empty_head v = rw v.head_is refl

pub empty_tail :
    {h : Memory} {q : DataQueue} → IsDataQueue h [] q → queue_pop_tail q h ≡ some (null, q, h)
unfolding queue_pop_tail
empty_tail v = rw v.tail_is refl

pub empty_pre :
    {h : Memory} {q : DataQueue} → IsDataQueue h [] q → queue_pre_pop_head q h ≡ some null
unfolding queue_pre_pop_head
empty_pre v = rw v.head_is refl

-- What `malloc` promises: an address that is not in use, or NULL.
abbrev pub Allocates : (Memory → Ptr) → Type 0
Allocates malloc = (h : Memory) → malloc h ≢ null → h (malloc h) ≡ none

-- A call has answered as it does on the list, and left a queue that holds the list after it.
abbrev pub Does : Ptr × List Ptr → Option (Ptr × DataQueue × Memory) → Type 0
Does (x, l) r =
    (q' : DataQueue) × (h' : Memory) × (xs' : Cells Ptr) × (r ≡ some (x, q', h'))
    × IsDataQueue h' xs' q'
    × (values xs' ≡ l)

abbrev pub DoesAll : List Ptr × List Ptr → Option (List Ptr × DataQueue × Memory) → Type 0
DoesAll (out, l) r =
    (q' : DataQueue) × (h' : Memory) × (xs' : Cells Ptr) × (r ≡ some (out, q', h'))
    × IsDataQueue h' xs' q'
    × (values xs' ≡ l)

pop_tail-Does :
    (xs : Cells Ptr) {q : DataQueue} {h : Memory}
    → IsDataQueue h xs q
    → Does (take_last (values xs)) (queue_pop_tail q h)
unfolding take_last
pop_tail-Does xs {q} {h} = elim (snoc_view xs) [
  | inl e ↦ rw e (λ v. (q, h, [], empty_tail v, v, refl))
  | inr (init, r, y, e) ↦
      rw (e, values-snoc init r y, take_last-snoc (values init) y)
        λ v.
          let (q', h', s, v', _, _) = queue_pop_tail-Popped init r y v in
          (q', h', init, s, v', refl)
]

module _ (malloc : Memory → Ptr) where
  unfoldable pub step : Call → DataQueue → Memory → Option (Ptr × DataQueue × Memory)
  step (push_head d) q h = queue_push_head malloc q d h >>= λ r. some (null, r.0, r.1)
  step (push_tail d) q h = queue_push_tail malloc q d h >>= λ r. some (null, r.0, r.1)
  step pop_head q h = queue_pop_head q h
  step pop_tail q h = queue_pop_tail q h
  step pre_pop_head q h = queue_pre_pop_head q h >>= λ x. some (x, q, h)

  -- The results, one for each call, and the queue after them.
  unfoldable pub run : List Call → DataQueue → Memory → Option (List Ptr × DataQueue × Memory)
  run [] q h = some ([], q, h)
  run (c ∷ calls) q h = step c q h >>= λ r. run calls r.1 r.2 >>= λ s. some (r.0 ∷ s.0, s.1, s.2)

  unfoldable pub has_memory : Call → Memory → Bool
  has_memory (push_head d) h = not (malloc h == null)
  has_memory (push_tail d) h = not (malloc h == null)
  has_memory pop_head h = true
  has_memory pop_tail h = true
  has_memory pre_pop_head h = true

  -- `malloc` does not refuse in this run.
  unfoldable pub is_enough : List Call → DataQueue → Memory → Bool
  is_enough [] q h = true
  is_enough (c ∷ calls) q h =
      has_memory c h && elim (step c q h) [ none ↦ true | some r ↦ is_enough calls r.1 r.2 ]

  module _ (fresh : Allocates malloc) where
    step-Does :
        (c : Call) (xs : Cells Ptr) {q : DataQueue} {h : Memory}
        → has_memory c h ≡ true
        → IsDataQueue h xs q
        → Does (on_list c (values xs)) (step c q h)
    unfolding step on_list has_memory
    step-Does (push_head d) xs {q} {h} e v =
        let ne : malloc h ≢ null = ground arith in
        let (q', h', s, v') = queue_push_head-Pushed malloc d xs ne (fresh h ne) v in
        (q', h', (malloc h, d) ∷ xs, rw s refl, v', refl)
    step-Does (push_tail d) xs {q} {h} e v =
        let ne : malloc h ≢ null = ground arith in
        let (q', h', s, v') = queue_push_tail-Pushed malloc d xs ne (fresh h ne) v in
        (q', h', xs ++ ((malloc h, d) ∷ []), rw s refl, v', values-snoc xs (malloc h) d)
    step-Does pop_head [] {q} {h} e v = (q, h, [], empty_head v, v, refl)
    step-Does pop_head ((p, x) ∷ xs) e v =
        let (q', h', s, v', _, _) = queue_pop_head-Popped p x xs v in (q', h', xs, s, v', refl)
    step-Does pop_tail xs {q} {h} e v = pop_tail-Does xs v
    step-Does pre_pop_head [] {q} {h} e v = (q, h, [], rw (empty_pre v) refl, v, refl)
    step-Does pre_pop_head ((p, x) ∷ xs) {q} {h} e v =
        (q, h, (p, x) ∷ xs, rw (queue_pre_pop_head_lem p x xs v) refl, v, refl)

    -- Any sequence of pushes and pops at the two ends and of looks at the head, in which `malloc` does
    -- not refuse, on a queue that is well-formed runs without a fault and answers as the same calls on
    -- the list of its pointers do; the queue is
    -- well-formed after it and holds the list that they leave.
    pub run-DoesAll :
        (calls : List Call) (xs : Cells Ptr) {q : DataQueue} {h : Memory}
        → is_enough calls q h ≡ true
        → IsDataQueue h xs q
        → DoesAll (all_on_list calls (values xs)) (run calls q h)
    unfolding run all_on_list is_enough
    run-DoesAll [] xs {q} {h} e v = (q, h, xs, refl, v, refl)
    run-DoesAll (c ∷ calls) xs {q} {h} e v =
        let here : has_memory c h ≡ true = ground arith in
        let (q1, h1, xs1, s, v1, l1) = step-Does c xs here v in
        let rest : is_enough calls q1 h1 ≡ true = rw (here, s) at e in
        let ih : DoesAll (all_on_list calls (on_list c (values xs)).1) (run calls q1 h1) =
          rw l1 at (run-DoesAll calls xs1 rest v1) in
        let (q2, h2, xs2, s', v2, l2) = ih in (q2, h2, xs2, rw (s, s') refl, v2, l2)
