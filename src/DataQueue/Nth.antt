-- ===== src/DataQueue/Nth.antt =====
-- The calls with a position.
use dtplayer_c.Base.{
  ℕ, zero, suc, ◌+◌, ◌-◌, ◌/◌, ◌≡◌, ◌≢◌, refl, sym, ◌∙◌, some, none, [], ◌∷◌, ◌++◌, ltb, arith,
  length, length-append, Bool-cases, inl, inr, Option-cases,
}
use dtplayer_c.Heap.{Ptr, null}
use dtplayer_c.Heap.Chain.{Cells, Apart, Disjoint, last_of, last_of-snoc, Disjoint-cons_right}
use dtplayer_c.DataQueue.{
  DataNode, data_node, DataQueue, Memory, write_cell, load, walk_next, walk_prev, get_node_link_nth,
  unlink_between,
}
use dtplayer_c.DataQueue.Links.{
  head_or, Links, write_cell_self, write_cell_ne, keeps_none, load-node, set_prev-node,
  set_next-node, free-node, Links-write_cell, Links-split, Links-join,
}
use dtplayer_c.DataQueue.Ends.{IsDataQueue, Popped, sub_one, last_cell, Links-snoc}

pub last_of-append :
    (b : Ptr) (xs ys : Cells Ptr) → last_of b (xs ++ ys) ≡ last_of (last_of b xs) ys
last_of-append b [] ys = refl
last_of-append b ((p, _) ∷ xs) ys = last_of-append p xs ys

pub head_front :
    (a l w : Ptr) (init ys : Cells Ptr)
    → head_or a ((init ++ ((l, w) ∷ [])) ++ ys) ≡ head_or a (init ++ ((l, w) ∷ []))
head_front a l w [] ys = refl
head_front a l w (_ ∷ init) ys = refl

pub Disjoint-last :
    (l w : Ptr) (init ys : Cells Ptr)
    → Disjoint (init ++ ((l, w) ∷ [])) ys
    → Disjoint init ys × Apart l ys
Disjoint-last l w [] ys d = (tt, d.0)
Disjoint-last l w (_ ∷ init) ys d = let (d', o) = Disjoint-last l w init ys d.1 in ((d.0, d'), o)

pub Apart-first : (p x : Ptr) (xs ys : Cells Ptr) → Disjoint xs ((p, x) ∷ ys) → Apart p xs
Apart-first p x [] ys d = tt
Apart-first p x ((r, _) ∷ xs) ys d = ((λ e. d.0.0 (sym e)), Apart-first p x xs ys d.1)

walk_next-to :
    (h : Memory) (b a p x : Ptr) (front back : Cells Ptr)
    → Links h b (front ++ ((p, x) ∷ back)) a
    → walk_next (length front) (head_or a (front ++ ((p, x) ∷ back))) h ≡ some p
unfolding walk_next
walk_next-to h b a p x [] back l = refl
walk_next-to h b a p x ((r, y) ∷ front) back l =
    rw (load-node h r l.0 l.1) (walk_next-to h r a p x front back l.3)

walk_prev-suc :
    (h : Memory) (n : ℕ) (t r : Ptr) {c : DataNode}
    → walk_prev n t h ≡ some r
    → r ≢ null
    → h r ≡ some c
    → walk_prev (suc n) t h ≡ some c.prev
unfolding walk_prev
walk_prev-suc h zero t r e ne held =
    let same : t ≡ r = ground arith in rw (same, load-node h r ne held) refl
walk_prev-suc h (suc n) t r e ne held = elim (Option-cases (load h t)) [
  | inl f ↦ absurd (ground (arith, f))
  | inr (c, f) ↦ rw f (walk_prev-suc h n c.prev r (rw f at e) ne held)
]

walk_prev-to :
    (h : Memory) (b a p x : Ptr) (back : Cells Ptr)
    → Links h b ((p, x) ∷ back) a
    → walk_prev (length back) (last_of p back) h ≡ some p
unfolding walk_prev
walk_prev-to h b a p x [] l = refl
walk_prev-to h b a p x ((r, y) ∷ back) l =
    walk_prev-suc h (length back) (last_of r back) r (walk_prev-to h p a r y back l.3) l.3.0 l.3.1

-- The node at a position is found from either end.
pub get_node_link_nth-at :
    {h : Memory} (front : Cells Ptr) (p x : Ptr) (back : Cells Ptr) {q : DataQueue}
    → IsDataQueue h (front ++ ((p, x) ∷ back)) q
    → get_node_link_nth q (length front + 1) h ≡ some p
unfolding get_node_link_nth
get_node_link_nth-at {h} front p x back {q} v =
    let count : q.length ≡ length front + suc (length back) =
      v.count ∙ length-append front ((p, x) ∷ back) in
    let before : length front + 1 - 1 ≡ length front = omega arith in
    let behind : q.length - (length front + 1) ≡ length back = omega (arith, count) in
    let (_, links, _) = Links-split h null null front ((p, x) ∷ back) v.links in
    elim (Bool-cases (ltb (length front + 1) (q.length / 2))) [
      | inl e ↦ rw (e, before, v.head_is) (walk_next-to h null null p x front back v.links)
      | inr e ↦
          rw (e, behind, v.tail_is, last_of-append null front ((p, x) ∷ back))
            (walk_prev-to h (last_of null front) null p x back links)
    ]

-- The node between the cells `front` and `back` is taken out.
pub unlink_between-Popped :
    {h : Memory} (init : Cells Ptr) (l w p x r y : Ptr) (post : Cells Ptr) {q : DataQueue}
    → IsDataQueue h ((init ++ ((l, w) ∷ [])) ++ ((p, x) ∷ (r, y) ∷ post)) q
    → Popped h p ((init ++ ((l, w) ∷ [])) ++ ((r, y) ∷ post)) x (unlink_between q p h)
unfolding unlink_between
unlink_between-Popped {h} init l w p x r y post {q} v =
    let front = init ++ ((l, w) ∷ []) in
    let back = (r, y) ∷ post in
    let last : last_of null front ≡ l = last_of-snoc l null w init in
    let (front_on, (p_ne, at_p, (p_r, p_post), (r_ne, at_r, r_post, post_on)), apart) =
      Links-split h null null front ((p, x) ∷ back) v.links in
    let (l_ne, at_l, l_init, init_on) = last_cell h init l w p front_on in
    let (init_apart, (l_p, (l_r, l_post))) = Disjoint-last l w init ((p, x) ∷ back) apart in
    let p_init = Apart-first p x init back init_apart in
    let init_back = Disjoint-cons_right init back p x init_apart in
    let r_init = Apart-first r y init post init_back in
    let held : h p ≡ some (data_node x r l) = rw last at at_p in
    let h1 = write_cell h l (some (data_node w r (last_of null init))) in
    let held1 : h1 r ≡ some (data_node y (head_or null post) p) =
      write_cell_ne h l _ r (λ e. l_r (sym e)) ∙ at_r in
    let h2 = write_cell h1 r (some (data_node y (head_or null post) l)) in
    let held2 : h2 p ≡ some (data_node x r l) =
      write_cell_ne h1 r _ p p_r ∙ write_cell_ne h l _ p (λ e. l_p (sym e)) ∙ held in
    let h3 = write_cell h2 p none in
    let left : length front + suc (length post) ≡ length (front ++ back) =
      sym (length-append front back) in
    rw
      (
        load-node h p p_ne held,
        set_next-node h l r l_ne at_l,
        set_prev-node h1 r l r_ne held1,
        sub_one q.length (length (front ++ back))
            (omega (arith, v.count, length-append front ((p, x) ∷ back), left)),
        free-node h2 p p_ne held2,
      )
      (
        record { head = q.head; tail = q.tail; length = length (front ++ back) },
        h3,
        refl,
        record {
          links =
              Links-join h3 null null front back
                (Links-snoc h3 init l w r l_ne
                  (write_cell_ne h2 p none l l_p
                    ∙ write_cell_ne h1 r _ l l_r
                    ∙ write_cell_self h l _)
                  l_init
                  (Links-write_cell h2 p none null l init p_init (
                    Links-write_cell h1 r _ null l init r_init
                      (Links-write_cell h l _ null l init l_init init_on))))
                (rw last (
                  r_ne,
                  write_cell_ne h2 p none r (λ e. p_r (sym e)) ∙ write_cell_self h1 r _,
                  r_post,
                  Links-write_cell h2 p none r null post p_post (
                      Links-write_cell h1 r _ r null post r_post
                        (Links-write_cell h l _ r null post l_post post_on)),
                ))
                (Disjoint-cons_right front back p x apart);
          head_is =
              v.head_is
              ∙ head_front null l w init ((p, x) ∷ back)
              ∙ sym (head_front null l w init back);
          tail_is =
              v.tail_is
              ∙ last_of-append null front ((p, x) ∷ back)
              ∙ sym (last_of-append null front back);
          count = refl;
        },
        write_cell_self h2 p none,
        (λ z unused.
            keeps_none h2 p none z held2
              (keeps_none h1 r _ z held1 (keeps_none h l _ z at_l unused))),
      )
