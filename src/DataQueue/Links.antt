-- ===== src/DataQueue/Links.antt =====
-- Doubly linked nodes, and the two parts of such a list.
use dtplayer_c.Base.{◌≡◌, ◌≢◌, refl, sym, ◌∙◌, Option, some, none, [], ◌∷◌, ◌++◌, arith, ==_refl}
use dtplayer_c.Heap.{Ptr, null}
use dtplayer_c.Heap.Chain.{Cells, Apart, Disjoint, last_of}
use dtplayer_c.DataQueue.{DataNode, data_node, Memory, write_cell, load, set_next, set_prev, free}

abbrev pub head_or : Ptr → Cells Ptr → Ptr
head_or a [] = a
head_or a ((p, _) ∷ xs) = p

-- The nodes are at different addresses; each points to the one before it, the first to `b`, and to the
-- one behind it, the last to `a`.
abbrev pub Links : Memory → Ptr → Cells Ptr → Ptr → Type 0
Links h b [] a = Unit {0}
Links h b ((p, x) ∷ xs) a =
    (p ≢ null) × (h p ≡ some (data_node x (head_or a xs) b)) × Apart p xs × Links h p xs a

pub write_cell_self : (h : Memory) (p : Ptr) (c : Option DataNode) → write_cell h p c p ≡ c
unfolding write_cell
write_cell_self h p c = rw (==_refl p)

pub write_cell_ne :
    (h : Memory) (p : Ptr) (c : Option DataNode) (r : Ptr) → r ≢ p → write_cell h p c r ≡ h r
unfolding write_cell
write_cell_ne h p c r ne = ground arith

-- A cell that is not in use stays so.
pub keeps_none :
    (h : Memory) (p : Ptr) (c : Option DataNode) (z : Ptr) {n : DataNode}
    → h p ≡ some n
    → h z ≡ none
    → write_cell h p c z ≡ none
keeps_none h p c z held unused = write_cell_ne h p c z (λ e. cc (e, held, unused)) ∙ unused

pub load-node : (h : Memory) (p : Ptr) {n : DataNode} → p ≢ null → h p ≡ some n → load h p ≡ some n
unfolding load
load-node h p ne e = ground arith

pub set_next-node :
    (h : Memory) (p q : Ptr) {n : DataNode}
    → p ≢ null
    → h p ≡ some n
    → set_next h p q ≡ some (write_cell h p (some (record n { next = q })))
unfolding set_next
set_next-node h p q ne e = rw (load-node h p ne e) refl

pub set_prev-node :
    (h : Memory) (p q : Ptr) {n : DataNode}
    → p ≢ null
    → h p ≡ some n
    → set_prev h p q ≡ some (write_cell h p (some (record n { prev = q })))
unfolding set_prev
set_prev-node h p q ne e = rw (load-node h p ne e) refl

pub free-node :
    (h : Memory) (p : Ptr) {n : DataNode}
    → p ≢ null
    → h p ≡ some n
    → free h p ≡ some (write_cell h p none)
unfolding free
free-node h p ne e = rw (load-node h p ne e) refl

pub Links-write_cell :
    (h : Memory) (p : Ptr) (c : Option DataNode) (b a : Ptr) (xs : Cells Ptr)
    → Apart p xs
    → Links h b xs a
    → Links (write_cell h p c) b xs a
Links-write_cell h p c b a [] o l = tt
Links-write_cell h p c b a ((q, x) ∷ xs) o l = (
  l.0,
  write_cell_ne h p c q (λ e. o.0 (sym e)) ∙ l.1,
  l.2,
  Links-write_cell h p c q a xs o.1 l.3,
)

pub Apart-new :
    (h : Memory) (p b a : Ptr) (xs : Cells Ptr) → Links h b xs a → h p ≡ none → Apart p xs
Apart-new h p b a [] l e = tt
Apart-new h p b a ((q, x) ∷ xs) l e = ((λ s. cc (e, l.1)), Apart-new h p q a xs l.3 e)

Apart-append : (p : Ptr) (xs ys : Cells Ptr) → Apart p xs → Apart p ys → Apart p (xs ++ ys)
Apart-append p [] ys o o' = o'
Apart-append p (_ ∷ xs) ys o o' = (o.0, Apart-append p xs ys o.1 o')

pub Apart-front : (p : Ptr) (xs ys : Cells Ptr) → Apart p (xs ++ ys) → Apart p xs × Apart p ys
Apart-front p [] ys o = (tt, o)
Apart-front p (_ ∷ xs) ys o = let r = Apart-front p xs ys o.1 in ((o.0, r.0), r.1)

pub Links-split :
    (h : Memory) (b a : Ptr) (xs ys : Cells Ptr)
    → Links h b (xs ++ ys) a
    → Links h b xs (head_or a ys) × Links h (last_of b xs) ys a × Disjoint xs ys
Links-split h b a [] ys l = (tt, l, tt)
Links-split h b a ((p, x) ∷ []) ys l = ((l.0, l.1, tt, tt), l.3, (l.2, tt))
Links-split h b a ((p, x) ∷ (q, y) ∷ xs) ys l =
    let (front, back, apart) = Links-split h p a ((q, y) ∷ xs) ys l.3 in
    let (o, o') = Apart-front p ((q, y) ∷ xs) ys l.2 in ((l.0, l.1, o, front), back, (o', apart))

pub Links-join :
    (h : Memory) (b a : Ptr) (xs ys : Cells Ptr)
    → Links h b xs (head_or a ys)
    → Links h (last_of b xs) ys a
    → Disjoint xs ys
    → Links h b (xs ++ ys) a
Links-join h b a [] ys front back apart = back
Links-join h b a ((p, x) ∷ []) ys front back apart = (front.0, front.1, apart.0, back)
Links-join h b a ((p, x) ∷ (q, y) ∷ xs) ys front back apart = (
  front.0,
  front.1,
  Apart-append p ((q, y) ∷ xs) ys front.2 apart.0,
  Links-join h p a ((q, y) ∷ xs) ys front.3 back apart.1,
)
