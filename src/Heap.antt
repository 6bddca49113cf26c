-- ===== src/Heap.antt =====
-- Nodes of singly linked lists on an explicit heap, as dtport/dt_packet_queue.c allocates them.
pub mod Chain
use dtplayer_c.Base.{
  ℕ, Bool, Option, none, some, ◌==◌, if◌then◌else◌, ◌>>=◌, ◌>>◌, ◌≡◌, ◌≢◌, arith, ==_refl,
}

abbrev pub Ptr : Type 0
Ptr = ℕ

abbrev pub null : Ptr
null = 0

pub record Node {ℓ} (A : Type ℓ) : Type ℓ where
  pub item : A
  pub next : Ptr

abbrev pub node {ℓ} : {A : Type ℓ} → A → Ptr → Node A
node a p = record { item = a; next = p }

-- `none`: nothing is allocated there.
abbrev pub Heap {ℓ} : Type ℓ → Type ℓ
Heap A = Ptr → Option (Node A)

module _ {ℓ} {A : Type ℓ} where
  unfoldable pub write : Heap A → Ptr → Option (Node A) → Heap A
  write h p c = λ q. if q == p then c else h q

  -- To read or free through NULL or a freed address is a fault.
  unfoldable pub load : Heap A → Ptr → Option (Node A)
  load h p = if p == null then none else h p

  unfoldable pub set_next : Heap A → Ptr → Ptr → Option (Heap A)
  unfolding load
  set_next h p q = do n ← load h p; some (write h p (some (node n.item q)))

  unfoldable pub free : Heap A → Ptr → Option (Heap A)
  unfolding load
  free h p = do n ← load h p; some (write h p none)

  pub write_self : (h : Heap A) (p : Ptr) (c : Option (Node A)) → write h p c p ≡ c
  unfolding write
  write_self h p c = rw (==_refl p)

  pub free-ok :
      (h : Heap A) (p : Ptr) {n : Node A}
      → p ≢ null
      → h p ≡ some n
      → (load h p ≡ some n) × (free h p ≡ some (write h p none))
  unfolding load free
  free-ok h p ne e = (ground arith, ground arith)

  pub write_ne :
      (h : Heap A) (p : Ptr) (c : Option (Node A)) (r : Ptr) → r ≢ p → write h p c r ≡ h r
  unfolding write
  write_ne h p c r ne = ground arith
