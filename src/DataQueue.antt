-- ===== src/DataQueue.antt =====
-- dtutils/dt_queue.c: a doubly linked queue of pointers, which the decoders fill and the outputs empty.
-- The nodes are on an explicit heap; `malloc` is a parameter, whose NULL the code does not test. A call
-- holds the mutex from beginning to end, so that it is one step. The queue itself is not NULL: with
-- NULL each call returns at once.
pub mod Links
pub mod Ends
pub mod Push
pub mod Run
pub mod Nth
pub mod Inside
pub mod Insert
pub mod Flush
mod Tests
use dtplayer_c.Base.{
  ℕ, zero, suc, ◌+◌, ◌-◌, ◌/◌, Bool, true, false, Option, none, some, List, [], ◌∷◌, ltb, leb, ◌==◌,
  if◌then◌else◌, ◌>>=◌, ◌>>◌, sub?,
}
use dtplayer_c.Heap.{Ptr, null}

-- `_node_t`; the code never uses its `size`.
pub record DataNode : Type 0 where
  pub data_ptr : Ptr
  pub next : Ptr
  pub prev : Ptr

abbrev pub data_node : Ptr → Ptr → Ptr → DataNode
data_node d n p = record { data_ptr = d; next = n; prev = p }

-- `none`: nothing is allocated there.
abbrev pub Memory : Type 0
Memory = Ptr → Option DataNode

-- `queue_t`
pub record DataQueue : Type 0 where
  pub head : Ptr
  pub tail : Ptr
  pub length : ℕ

unfoldable pub write_cell : Memory → Ptr → Option DataNode → Memory
write_cell h p c = λ q. if q == p then c else h q

-- To read, write or free through NULL or a freed address is a fault.
unfoldable pub load : Memory → Ptr → Option DataNode
load h p = if p == null then none else h p

unfoldable pub set_next : Memory → Ptr → Ptr → Option Memory
set_next h p q = do n ← load h p; some (write_cell h p (some (record n { next = q })))

unfoldable pub set_prev : Memory → Ptr → Ptr → Option Memory
set_prev h p q = do n ← load h p; some (write_cell h p (some (record n { prev = q })))

unfoldable pub free : Memory → Ptr → Option Memory
free h p = do n ← load h p; some (write_cell h p none)

-- The fields of a new node.
unfoldable pub write_new : Memory → Ptr → DataNode → Option Memory
write_new h p n = if p == null then none else some (write_cell h p (some n))

abbrev pub new_queue : DataQueue
new_queue = record { head = null; tail = null; length = 0 }

-- `if (p) p->prev = q`
unfoldable pub set_prev_if : Memory → Ptr → Ptr → Option Memory
set_prev_if h p q = if p == null then some h else set_prev h p q

unfoldable pub set_next_if : Memory → Ptr → Ptr → Option Memory
set_next_if h p q = if p == null then some h else set_next h p q

-- NULL where the queue is empty.
unfoldable pub queue_pop_head : DataQueue → Memory → Option (Ptr × DataQueue × Memory)
queue_pop_head q h = if q.head == null then some (null, q, h) else do
  n ← load h q.head
  h1 ← set_prev_if h n.next null
  len ← sub? q.length 1
  h2 ← free h1 q.head
  some (
    n.data_ptr,
    record { head = n.next; tail = (if n.next == null then null else q.tail); length = len },
    h2,
  )

unfoldable pub queue_pop_tail : DataQueue → Memory → Option (Ptr × DataQueue × Memory)
queue_pop_tail q h = if q.tail == null then some (null, q, h) else do
  n ← load h q.tail
  h1 ← set_next_if h n.prev null
  len ← sub? q.length 1
  h2 ← free h1 q.tail
  some (
    n.data_ptr,
    record { head = (if n.prev == null then null else q.head); tail = n.prev; length = len },
    h2,
  )

-- The loop of `queue_flush` and `queue_free`, on fuel: the pointers that go to `func` and to `free`, in
-- order. It ends at the first that is NULL.
unfoldable pub empty_loop : ℕ → DataQueue → Memory → Option (List Ptr × DataQueue × Memory)
empty_loop zero q h = none
empty_loop (suc k) q h = queue_pop_tail q h >>= λ r. elim (r.0 == null) [
  | true ↦ some ([], r.1, r.2)
  | false ↦ empty_loop k r.1 r.2 >>= λ s. some (r.0 ∷ s.0, s.1, s.2)
]

-- One round more than there are nodes: see DataQueue.Flush.
unfoldable pub queue_flush : DataQueue → Memory → Option (List Ptr × DataQueue × Memory)
queue_flush q h = empty_loop (q.length + 1) q h

unfoldable pub queue_pre_pop_head : DataQueue → Memory → Option Ptr
queue_pre_pop_head q h =
    if q.head == null then some null else (do n ← load h q.head; some n.data_ptr)

unfoldable pub queue_peek_head : DataQueue → Memory → Option Ptr
queue_peek_head q h = if q.head == null then some null else (do n ← load h q.head; some n.data_ptr)

unfoldable pub queue_peek_tail : DataQueue → Memory → Option Ptr
queue_peek_tail q h = if q.tail == null then some null else (do n ← load h q.tail; some n.data_ptr)

unfoldable pub walk_next : ℕ → Ptr → Memory → Option Ptr
walk_next zero p h = some p
walk_next (suc n) p h = load h p >>= λ c. walk_next n c.next h

unfoldable pub walk_prev : ℕ → Ptr → Memory → Option Ptr
walk_prev zero p h = some p
walk_prev (suc n) p h = load h p >>= λ c. walk_prev n c.prev h

-- Called with `n` from 1 to the length.
unfoldable pub get_node_link_nth : DataQueue → ℕ → Memory → Option Ptr
get_node_link_nth q n h =
    if ltb n (q.length / 2) then walk_next (n - 1) q.head h else walk_prev (q.length - n) q.tail h

unfoldable pub queue_peek_nth : DataQueue → ℕ → Memory → Option Ptr
queue_peek_nth q n h =
    if ltb q.length n
    then queue_peek_tail q h
    else if leb n 1
    then queue_peek_head q h
    else do p ← get_node_link_nth q n h; c ← load h p; some c.data_ptr

-- The node at `p` between its neighbours is taken out. The code does not look whether there is one
-- behind it.
unfoldable pub unlink_between : DataQueue → Ptr → Memory → Option (Ptr × DataQueue × Memory)
unlink_between q p h = do
  c ← load h p
  h1 ← set_next h c.prev c.next
  h2 ← set_prev h1 c.next c.prev
  len ← sub? q.length 1
  h3 ← free h2 p
  some (c.data_ptr, record q { length = len }, h3)

unfoldable pub queue_pop_nth : DataQueue → ℕ → Memory → Option (Ptr × DataQueue × Memory)
queue_pop_nth q n h =
    if ltb q.length n
    then queue_pop_tail q h
    else if leb n 1
    then queue_pop_head q h
    else (do p ← get_node_link_nth q n h; unlink_between q p h)

module _ (malloc : Memory → Ptr) where
  unfoldable pub queue_push_head : DataQueue → Ptr → Memory → Option (DataQueue × Memory)
  queue_push_head q d h = do
    h1 ← write_new h (malloc h) (data_node d q.head null)
    h2 ← set_prev_if h1 q.head (malloc h)
    some (
      record {
        head = malloc h;
        tail = (if q.tail == null then malloc h else q.tail);
        length = q.length + 1;
      },
      h2,
    )

  unfoldable pub queue_push_tail : DataQueue → Ptr → Memory → Option (DataQueue × Memory)
  queue_push_tail q d h = do
    h1 ← write_new h (malloc h) (data_node d null q.tail)
    h2 ← set_next_if h1 q.tail (malloc h)
    some (
      record {
        head = (if q.head == null then malloc h else q.head);
        tail = malloc h;
        length = q.length + 1;
      },
      h2,
    )

  -- A new node behind the one at `p`.
  unfoldable pub link_behind : DataQueue → Ptr → Ptr → Memory → Option (DataQueue × Memory)
  link_behind q p d h = do
    c ← load h p
    h1 ← write_new h (malloc h) (data_node d c.next p)
    h2 ← set_next h1 p (malloc h)
    h3 ← set_prev h2 c.next (malloc h)
    some (record q { length = q.length + 1 }, h3)

  unfoldable pub queue_push_nth : DataQueue → Ptr → ℕ → Memory → Option (DataQueue × Memory)
  queue_push_nth q d n h =
      if ltb q.length n
      then queue_push_tail q d h
      else if leb n 1
      then queue_push_head q d h
      else (do p ← get_node_link_nth q (n - 1) h; link_behind q p d h)
