-- ===== src/Heap/Chain.antt =====
-- The list that a chain of `next` pointers stands for.
use dtplayer_c.Base.{◌≡◌, refl, ◌≢◌, Option, none, some, List, [], ◌∷◌, ◌++◌, arith, ◌∙◌}
use dtplayer_c.Heap.{Ptr, null, Node, node, Heap, write, set_next}

-- Address and item of each node, in order.
abbrev pub Cells {ℓ} : Type ℓ → Type ℓ
Cells A = List (Ptr × A)

module _ {ℓ} {A : Type ℓ} where
  abbrev pub head_of : Cells A → Ptr
  head_of [] = null
  head_of ((p, _) ∷ _) = p

  abbrev pub last_of : Ptr → Cells A → Ptr
  last_of q [] = q
  last_of q ((p, _) ∷ xs) = last_of p xs

  -- `p` is none of the addresses.
  abbrev pub Apart : Ptr → Cells A → Type 0
  Apart p [] = Unit {0}
  Apart p ((q, _) ∷ xs) = (p ≢ q) × Apart p xs

  -- The nodes are allocated at different addresses, each points to the next, the last to NULL.
  abbrev pub Chain : Heap A → Cells A → Type ℓ
  Chain h [] = Unit {ℓ}
  Chain h ((p, a) ∷ xs) = (p ≢ null) × (h p ≡ some (node a (head_of xs))) × Apart p xs × Chain h xs

  pub Apart-of_none : (h : Heap A) (p : Ptr) (xs : Cells A) → Chain h xs → h p ≡ none → Apart p xs
  Apart-of_none h p [] c e = tt
  Apart-of_none h p ((q, a) ∷ xs) c e = ((λ s. cc (e, c.1)), Apart-of_none h p xs c.3 e)

  pub Chain-write :
      (h : Heap A) (p : Ptr) (n : Option (Node A)) (xs : Cells A)
      → Apart p xs
      → Chain h xs
      → Chain (write h p n) xs
  unfolding write
  Chain-write h p n [] o c = tt
  Chain-write h p n ((q, a) ∷ xs) o c = (c.0, ground arith, c.2, Chain-write h p n xs o.1 c.3)

  pub Apart-snoc :
      (p q : Ptr) (a : A) (xs : Cells A) → Apart p xs → p ≢ q → Apart p (xs ++ ((q, a) ∷ []))
  Apart-snoc p q a [] o ne = (ne, tt)
  Apart-snoc p q a ((r, b) ∷ xs) o ne = (o.0, Apart-snoc p q a xs o.1 ne)

  pub last_of-snoc : (p q : Ptr) (a : A) (xs : Cells A) → last_of q (xs ++ ((p, a) ∷ [])) ≡ p
  last_of-snoc p q a [] = refl
  last_of-snoc p q a ((r, b) ∷ xs) = last_of-snoc p r a xs

  -- The last item of a list that is not empty, given its first.
  abbrev pub last_item : A → Cells A → A
  last_item a [] = a
  last_item a ((_, b) ∷ xs) = last_item b xs

  Apart-last : (r p : Ptr) (a : A) (xs : Cells A) → Apart r ((p, a) ∷ xs) → r ≢ last_of p xs
  Apart-last r p a [] o = o.0
  Apart-last r p a ((q, b) ∷ xs) o = Apart-last r q b xs o.1

  pub last-node :
      (h : Heap A) (p : Ptr) (a : A) (xs : Cells A)
      → Chain h ((p, a) ∷ xs)
      → (last_of p xs ≢ null) × (h (last_of p xs) ≡ some (node (last_item a xs) null))
  last-node h p a [] c = (c.0, c.1)
  last-node h p a ((q, b) ∷ xs) c = last-node h q b xs c.3

  -- The heap after a new last node.
  pub snoc_heap : Heap A → Ptr → A → Cells A → Ptr → A → Heap A
  snoc_heap h p a xs q b =
      write (write h q (some (node b null))) (last_of p xs) (some (node (last_item a xs) q))

  pub snoc_heap-frame :
      (h : Heap A) (p : Ptr) (a : A) (xs : Cells A) (q : Ptr) (b : A) (r : Ptr)
      → Apart r ((p, a) ∷ xs)
      → r ≢ q
      → snoc_heap h p a xs q b r ≡ h r
  unfolding snoc_heap write
  snoc_heap-frame h p a xs q b r o ne = ground (arith, Apart-last r p a xs o)

  pub Chain-snoc :
      (h : Heap A) (p : Ptr) (a : A) (xs : Cells A) (q : Ptr) (b : A)
      → Chain h ((p, a) ∷ xs)
      → h q ≡ none
      → q ≢ null
      → Chain (snoc_heap h p a xs q b) (((p, a) ∷ xs) ++ ((q, b) ∷ []))
  unfolding snoc_heap write
  Chain-snoc h p a [] q b c e ne =
      let d : p ≢ q = λ s. cc (e, c.1) in (c.0, ground arith, (d, tt), (ne, ground arith, tt, tt))
  Chain-snoc h p a ((p', a') ∷ xs) q b c e ne =
      let d : p ≢ q = λ s. cc (e, c.1) in
      let frame : snoc_heap h p' a' xs q b p ≡ h p = snoc_heap-frame h p' a' xs q b p c.2 d in
      (c.0, frame ∙ c.1, Apart-snoc p q b ((p', a') ∷ xs) c.2 d, Chain-snoc h p' a' xs q b c.3 e ne)

  -- Appending by the two writes of the code: the new node, and the `next` of the last.
  pub set_next-last :
      (h : Heap A) (p : Ptr) (a : A) (xs : Cells A) (q : Ptr) (b : A)
      → Chain h ((p, a) ∷ xs)
      → h q ≡ none
      → set_next (write h q (some (node b null))) (last_of p xs) q ≡ some (snoc_heap h p a xs q b)
  unfolding snoc_heap set_next write
  set_next-last h p a xs q b c e = ground (arith, last-node h p a xs c)

  -- No node belongs to both lists.
  abbrev pub Disjoint : Cells A → Cells A → Type 0
  Disjoint [] ys = Unit {0}
  Disjoint ((p, _) ∷ xs) ys = Apart p ys × Disjoint xs ys

  -- A chain survives any change that spares its nodes.
  pub Chain-frame :
      (h h' : Heap A) (xs ys : Cells A) (p : Ptr)
      → ((r : Ptr) → Apart r xs → r ≢ p → h' r ≡ h r)
      → h p ≡ none
      → Disjoint ys xs
      → Chain h ys
      → Chain h' ys
  Chain-frame h h' xs [] p same e d c = tt
  Chain-frame h h' xs ((q, b) ∷ ys) p same e d c =
      (c.0, same q d.0 (λ s. cc (e, c.1)) ∙ c.1, c.2, Chain-frame h h' xs ys p same e d.1 c.3)

  pub Chain-spared :
      (h h' : Heap A) (xs ys : Cells A)
      → ((r : Ptr) → Apart r xs → h' r ≡ h r)
      → Disjoint ys xs
      → Chain h ys
      → Chain h' ys
  Chain-spared h h' xs [] same d c = tt
  Chain-spared h h' xs ((q, b) ∷ ys) same d c =
      (c.0, same q d.0 ∙ c.1, c.2, Chain-spared h h' xs ys same d.1 c.3)

  pub Disjoint-nil : (xs : Cells A) → Disjoint xs []
  Disjoint-nil [] = tt
  Disjoint-nil (_ ∷ xs) = (tt, Disjoint-nil xs)

  pub Disjoint-snoc_right :
      (h : Heap A) (xs ys : Cells A) (p : Ptr) (a : A)
      → Chain h xs
      → h p ≡ none
      → Disjoint xs ys
      → Disjoint xs (ys ++ ((p, a) ∷ []))
  Disjoint-snoc_right h [] ys p a c e d = tt
  Disjoint-snoc_right h ((q, b) ∷ xs) ys p a c e d =
      (Apart-snoc q p a ys d.0 (λ s. cc (e, c.1)), Disjoint-snoc_right h xs ys p a c.3 e d.1)

  pub Disjoint-snoc_left :
      (h : Heap A) (xs ys : Cells A) (p : Ptr) (a : A)
      → Chain h ys
      → h p ≡ none
      → Disjoint xs ys
      → Disjoint (xs ++ ((p, a) ∷ [])) ys
  Disjoint-snoc_left h [] ys p a c e d = (Apart-of_none h p ys c e, tt)
  Disjoint-snoc_left h ((q, b) ∷ xs) ys p a c e d = (d.0, Disjoint-snoc_left h xs ys p a c e d.1)

  pub Disjoint-cons_right :
      (xs ys : Cells A) (p : Ptr) (a : A) → Disjoint xs ((p, a) ∷ ys) → Disjoint xs ys
  Disjoint-cons_right [] ys p a d = tt
  Disjoint-cons_right ((q, b) ∷ xs) ys p a d = (d.0.1, Disjoint-cons_right xs ys p a d.1)
