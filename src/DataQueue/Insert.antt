-- ===== src/DataQueue/Insert.antt =====
-- A new node inside the queue.
use dtplayer_c.Base.{
  ℕ, ◌+◌, ◌-◌, ◌≤◌, ◌<◌, ◌≡◌, ◌≢◌, refl, sym, ◌∙◌, Option, some, none, List, [], ◌∷◌, ◌++◌, false,
  ltb, leb, arith, length, length-append, append_assoc,
}
use dtplayer_c.Heap.{Ptr, null}
use dtplayer_c.Heap.Chain.{Cells, Apart, Disjoint, last_of, last_of-snoc}
use dtplayer_c.DataQueue.{
  data_node, DataQueue, Memory, write_cell, link_behind, queue_push_nth, get_node_link_nth,
}
use dtplayer_c.DataQueue.Links.{
  head_or, write_cell_self, write_cell_ne, load-node, set_next-node, set_prev-node,
  Links-write_cell, Links-split, Links-join, Apart-new,
}
use dtplayer_c.DataQueue.Ends.{IsDataQueue, last_cell, Links-snoc}
use dtplayer_c.DataQueue.Push.{Pushed, write_new-node, other}
use dtplayer_c.DataQueue.Run.{values}
use dtplayer_c.DataQueue.Nth.{
  get_node_link_nth-at, head_front, last_of-append, Disjoint-last, Apart-first,
}
use dtplayer_c.DataQueue.Inside.{values-append, length-values, Cut, Cut-at}

Disjoint-cons :
    (m d : Ptr) (xs ys : Cells Ptr) → Apart m xs → Disjoint xs ys → Disjoint xs ((m, d) ∷ ys)
Disjoint-cons m d [] ys o d' = tt
Disjoint-cons m d (_ ∷ xs) ys o d' = (((λ e. o.0 (sym e)), d'.0), Disjoint-cons m d xs ys o.1 d'.1)

-- A push has put the pointer behind the first `k`.
abbrev pub Inserted : ℕ → Ptr → List Ptr → Option (DataQueue × Memory) → Type 0
Inserted k d l r =
    (q' : DataQueue) × (h' : Memory) × (xs' : Cells Ptr) × (before after : List Ptr) × (r
      ≡ some (q', h'))
    × IsDataQueue h' xs' q'
    × (l ≡ before ++ after)
    × (length before ≡ k)
    × (values xs' ≡ before ++ (d ∷ after))

module _ (malloc : Memory → Ptr) {h : Memory} (d : Ptr) (ne : malloc h ≢ null)
    (fresh : h (malloc h) ≡ none) where
  link_behind-Pushed :
      (init : Cells Ptr) (p x r y : Ptr) (post : Cells Ptr) {q : DataQueue}
      → IsDataQueue h ((init ++ ((p, x) ∷ [])) ++ ((r, y) ∷ post)) q
      → Pushed
          ((init ++ ((p, x) ∷ [])) ++ ((malloc h, d) ∷ (r, y) ∷ post))
          (link_behind malloc q p d h)
  unfolding link_behind
  link_behind-Pushed init p x r y post {q} v =
      let m = malloc h in
      let front = init ++ ((p, x) ∷ []) in
      let back = (r, y) ∷ post in
      let last : last_of null front ≡ p = last_of-snoc p null x init in
      let (front_on, (r_ne, at_r, r_post, post_on), apart) =
        Links-split h null null front back v.links in
      let (p_ne, at_p, p_init, init_on) = last_cell h init p x r front_on in
      let (init_apart, (p_r, p_post)) = Disjoint-last p x init back apart in
      let r_init = Apart-first r y init post init_apart in
      let p_m : p ≢ m = other h p m at_p fresh in
      let r_m : r ≢ m = other h r m at_r fresh in
      let m_init : Apart m init = Apart-new h m null p init init_on fresh in
      let m_post : Apart m post = Apart-new h m r null post post_on fresh in
      let m_front : Apart m front = Apart-new h m null r front front_on fresh in
      let h1 = write_cell h m (some (data_node d r p)) in
      let held1 : h1 p ≡ some (data_node x r (last_of null init)) =
        write_cell_ne h m _ p p_m ∙ at_p in
      let h2 = write_cell h1 p (some (data_node x m (last_of null init))) in
      let held2 : h2 r ≡ some (data_node y (head_or null post) (last_of null front)) =
        write_cell_ne h1 p _ r (λ e. p_r (sym e)) ∙ write_cell_ne h m _ r r_m ∙ at_r in
      let h3 = write_cell h2 r (some (data_node y (head_or null post) m)) in
      rw
        (
          load-node h p p_ne at_p,
          write_new-node h m (data_node d r p) ne,
          set_next-node h1 p m p_ne held1,
          set_prev-node h2 r m r_ne held2,
        )
        (
          record { head = q.head; tail = q.tail; length = q.length + 1 },
          h3,
          refl,
          record {
            links =
                Links-join h3 null null front ((m, d) ∷ back)
                  (Links-snoc h3 init p x m p_ne
                    (write_cell_ne h2 r _ p p_r ∙ write_cell_self h1 p _) p_init
                    (Links-write_cell h2 r _ null p init r_init (
                      Links-write_cell h1 p _ null p init p_init
                        (Links-write_cell h m _ null p init m_init init_on))))
                  (rw last (
                    ne,
                    write_cell_ne h2 r _ m (λ e. r_m (sym e))
                        ∙ write_cell_ne h1 p _ m (λ e. p_m (sym e))
                        ∙ write_cell_self h m _,
                    ((λ e. r_m (sym e)), m_post),
                    (
                      r_ne,
                      write_cell_self h2 r _,
                      r_post,
                      Links-write_cell h2 r _ r null post r_post (
                          Links-write_cell h1 p _ r null post p_post
                            (Links-write_cell h m _ r null post m_post post_on)),
                    ),
                  ))
                  (Disjoint-cons m d front back m_front apart);
            head_is =
                v.head_is
                ∙ head_front null p x init back
                ∙ sym (head_front null p x init ((m, d) ∷ back));
            tail_is =
                v.tail_is
                ∙ last_of-append null front back
                ∙ sym (last_of-append null front ((m, d) ∷ back));
            count =
                omega
                  (arith, v.count, length-append front back, length-append front ((m, d) ∷ back));
          },
        )

  push_nth-at :
      (k : ℕ) (init : Cells Ptr) (p x r y : Ptr) (post : Cells Ptr) {q : DataQueue}
      → IsDataQueue h ((init ++ ((p, x) ∷ [])) ++ ((r, y) ∷ post)) q
      → length init + 1 ≡ k
      → k + 1 ≤ length ((init ++ ((p, x) ∷ [])) ++ ((r, y) ∷ post))
      → Inserted k d
          (values ((init ++ ((p, x) ∷ [])) ++ ((r, y) ∷ post)))
          (queue_push_nth malloc q d (k + 1) h)
  unfolding queue_push_nth
  push_nth-at k init p x r y post {q} v count le =
      let front = init ++ ((p, x) ∷ []) in
      let back = (r, y) ∷ post in
      let size : length front ≡ k = omega (arith, count, length-append init ((p, x) ∷ [])) in
      let (q', h', s, v') = link_behind-Pushed init p x r y post v in
      let within : ltb q.length (k + 1) ≡ false = ground (arith, v.count, le) in
      let later : leb (k + 1) 1 ≡ false = ground (arith, count) in
      let place : k + 1 - 1 ≡ length init + 1 = omega (arith, count) in
      let found : get_node_link_nth q (k + 1 - 1) h ≡ some p =
        rw place
          (get_node_link_nth-at init p x back (rw (append_assoc init ((p, x) ∷ []) back) at v)) in
      (
        q',
        h',
        front ++ ((malloc h, d) ∷ back),
        values front,
        y ∷ values post,
        rw (within, later, found) s,
        v',
        values-append front back,
        length-values front ∙ size,
        values-append front ((malloc h, d) ∷ back),
      )

  push_nth-Cut :
      (k : ℕ) (xs : Cells Ptr) {q : DataQueue}
      → Cut k xs
      → k + 1 ≤ length xs
      → IsDataQueue h xs q
      → Inserted k d (values xs) (queue_push_nth malloc q d (k + 1) h)
  push_nth-Cut k xs (init, p, x, r, y, post, e, count) =
      rw e (λ le v. push_nth-at k init p x r y post v count le)

  -- On a well-formed queue, and where `malloc` gives memory, a push at a position `k + 1` that is not
  -- the first, up to the length, puts the pointer there and leaves the others in order.
  pub queue_push_nth-Inserted :
      (k : ℕ) (xs : Cells Ptr) {q : DataQueue}
      → 0 < k
      → k + 1 ≤ length xs
      → IsDataQueue h xs q
      → Inserted k d (values xs) (queue_push_nth malloc q d (k + 1) h)
  queue_push_nth-Inserted k xs more le = push_nth-Cut k xs (Cut-at k xs more (omega arith)) le
