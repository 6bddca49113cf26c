-- ===== src/DataQueue/Push.antt =====
-- New nodes at the two ends of the queue.
use dtplayer_c.Base.{
  ◌+◌, ◌≡◌, ◌≢◌, refl, sym, ◌∙◌, Option, some, none, [], ◌∷◌, ◌++◌, false, ◌==◌, arith,
  length-append, inl, inr,
}
use dtplayer_c.Heap.{Ptr, null}
use dtplayer_c.Heap.Chain.{Cells, Apart, last_of, last_of-snoc, Apart-snoc}
use dtplayer_c.DataQueue.{
  DataNode, data_node, DataQueue, Memory, write_cell, set_prev_if, set_next_if, write_new,
  queue_push_head, queue_push_tail,
}
use dtplayer_c.DataQueue.Links.{
  head_or, Links, write_cell_self, write_cell_ne, Links-write_cell, Apart-new, set_prev-node,
  set_next-node,
}
use dtplayer_c.DataQueue.Ends.{IsDataQueue, not_null, snoc_view, last_cell, Links-snoc, tail_at}

-- A call has left the cells `xs`.
abbrev pub Pushed : Cells Ptr → Option (DataQueue × Memory) → Type 0
Pushed xs r = (q' : DataQueue) × (h' : Memory) × (r ≡ some (q', h')) × IsDataQueue h' xs q'

pub write_new-node :
    (h : Memory) (p : Ptr) (n : DataNode)
    → p ≢ null
    → write_new h p n ≡ some (write_cell h p (some n))
unfolding write_new
write_new-node h p n ne = rw (not_null p ne) refl

last_of-not_null :
    (h : Memory) (b a p x : Ptr) (xs : Cells Ptr) → Links h b ((p, x) ∷ xs) a → last_of p xs ≢ null
last_of-not_null h b a p x [] l = l.0
last_of-not_null h b a p x ((r, y) ∷ xs) l = last_of-not_null h p a r y xs l.3

head_or-not_null :
    (h : Memory) (b a p x : Ptr) (init : Cells Ptr)
    → Links h b (init ++ ((p, x) ∷ [])) a
    → head_or null (init ++ ((p, x) ∷ [])) ≢ null
head_or-not_null h b a p x [] l = l.0
head_or-not_null h b a p x (_ ∷ init) l = l.0

-- A cell behind the others does not change the first one.
same_head :
    (m d r y : Ptr) (init : Cells Ptr)
    → head_or null (init ++ ((r, y) ∷ [])) ≡ head_or null ((init ++ ((r, y) ∷ [])) ++ ((m, d) ∷ []))
same_head m d r y [] = refl
same_head m d r y (_ ∷ init) = refl

-- The two are different nodes where one is in use and the other is not.
pub other : (h : Memory) (p m : Ptr) {n : DataNode} → h p ≡ some n → h m ≡ none → p ≢ m
other h p m e f = λ s. cc (e, f, s)

module _ (malloc : Memory → Ptr) {h : Memory} (d : Ptr) where
  pub queue_push_head-Pushed :
      (xs : Cells Ptr) {q : DataQueue}
      → malloc h ≢ null
      → h (malloc h) ≡ none
      → IsDataQueue h xs q
      → Pushed ((malloc h, d) ∷ xs) (queue_push_head malloc q d h)
  unfolding queue_push_head set_prev_if
  queue_push_head-Pushed [] {q} ne fresh v =
      let m = malloc h in
      rw (v.head_is, v.tail_is, write_new-node h m (data_node d null null) ne)
        (
          record { head = m; tail = m; length = q.length + 1 },
          write_cell h m (some (data_node d null null)),
          refl,
          record {
            links = (ne, write_cell_self h m _, tt, tt);
            head_is = refl;
            tail_is = refl;
            count = omega (arith, v.count);
          },
        )
  queue_push_head-Pushed ((r, y) ∷ xs) {q} ne fresh v =
      let m = malloc h in
      let (ne', held, apart_r, links) = v.links in
      let r_m : r ≢ m = other h r m held fresh in
      let apart_m : Apart m xs = Apart-new h m r null xs links fresh in
      let h1 = write_cell h m (some (data_node d r null)) in
      let held1 : h1 r ≡ some (data_node y (head_or null xs) null) =
        write_cell_ne h m _ r r_m ∙ held in
      let full : (q.tail == null) ≡ false =
        rw v.tail_is (not_null (last_of r xs) (last_of-not_null h null null r y xs v.links)) in
      rw
        (
          v.head_is,
          full,
          write_new-node h m (data_node d r null) ne,
          not_null r ne',
          set_prev-node h1 r m ne' held1,
        )
        (
          record { head = m; tail = q.tail; length = q.length + 1 },
          write_cell h1 r (some (data_node y (head_or null xs) m)),
          refl,
          record {
            links = (
              ne,
              write_cell_ne h1 r _ m (λ e. r_m (sym e)) ∙ write_cell_self h m _,
              ((λ e. r_m (sym e)), apart_m),
              (
                ne',
                write_cell_self h1 r _,
                apart_r,
                Links-write_cell h1 r _ r null xs apart_r
                    (Links-write_cell h m _ r null xs apart_m links),
              ),
            );
            head_is = refl;
            tail_is = v.tail_is;
            count = omega (arith, v.count);
          },
        )

  push_tail_more :
      (init : Cells Ptr) (r y : Ptr) {q : DataQueue}
      → malloc h ≢ null
      → h (malloc h) ≡ none
      → IsDataQueue h (init ++ ((r, y) ∷ [])) q
      → Pushed ((init ++ ((r, y) ∷ [])) ++ ((malloc h, d) ∷ [])) (queue_push_tail malloc q d h)
  unfolding queue_push_tail set_next_if
  push_tail_more init r y {q} ne fresh v =
      let m = malloc h in
      let before = init ++ ((r, y) ∷ []) in
      let (ne', held, apart_r, front) = last_cell h init r y null v.links in
      let r_m : r ≢ m = other h r m held fresh in
      let apart_m : Apart m init = Apart-new h m null r init front fresh in
      let h1 = write_cell h m (some (data_node d null r)) in
      let held1 : h1 r ≡ some (data_node y null (last_of null init)) =
        write_cell_ne h m _ r r_m ∙ held in
      let h2 = write_cell h1 r (some (data_node y m (last_of null init))) in
      let full : (q.head == null) ≡ false =
        rw v.head_is (not_null _ (head_or-not_null h null null r y init v.links)) in
      let last : last_of null before ≡ r = last_of-snoc r null y init in
      let fresh2 : h2 m ≡ some (data_node d null (last_of null before)) =
        rw last (write_cell_ne h1 r _ m (λ e. r_m (sym e)) ∙ write_cell_self h m _) in
      rw
        (
          full,
          tail_at h init r y v,
          write_new-node h m (data_node d null r) ne,
          not_null r ne',
          set_next-node h1 r m ne' held1,
        )
        (
          record { head = q.head; tail = m; length = q.length + 1 },
          h2,
          refl,
          record {
            links =
                Links-snoc h2 before m d null ne fresh2
                  (Apart-snoc m r y init apart_m (λ e. r_m (sym e)))
                  (Links-snoc h2 init r y m ne' (write_cell_self h1 r _) apart_r (
                    Links-write_cell h1 r _ null r init apart_r
                      (Links-write_cell h m _ null r init apart_m front)));
            head_is = v.head_is ∙ same_head m d r y init;
            tail_is = sym (last_of-snoc m null d before);
            count = omega (arith, v.count, length-append before ((m, d) ∷ []));
          },
        )

  push_tail_first :
      {q : DataQueue}
      → malloc h ≢ null
      → IsDataQueue h [] q
      → Pushed ((malloc h, d) ∷ []) (queue_push_tail malloc q d h)
  unfolding queue_push_tail set_next_if
  push_tail_first {q} ne v =
      let m = malloc h in
      rw (v.head_is, v.tail_is, write_new-node h m (data_node d null null) ne)
        (
          record { head = m; tail = m; length = q.length + 1 },
          write_cell h m (some (data_node d null null)),
          refl,
          record {
            links = (ne, write_cell_self h m _, tt, tt);
            head_is = refl;
            tail_is = refl;
            count = omega (arith, v.count);
          },
        )

  pub queue_push_tail-Pushed :
      (xs : Cells Ptr) {q : DataQueue}
      → malloc h ≢ null
      → h (malloc h) ≡ none
      → IsDataQueue h xs q
      → Pushed (xs ++ ((malloc h, d) ∷ [])) (queue_push_tail malloc q d h)
  queue_push_tail-Pushed xs {q} = elim (snoc_view xs) [
    | inl e ↦ rw e (λ ne fresh v. push_tail_first ne v)
    | inr (init, r, y, e) ↦ rw e (λ ne fresh v. push_tail_more init r y ne fresh v)
  ]
