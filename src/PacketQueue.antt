-- ===== src/PacketQueue.antt =====
-- dtport/dt_packet_queue.c: a linked list of packets with its last node, its length and the sum of
-- the packets' sizes. The list nodes are on an explicit heap; `malloc` is a parameter, and answers
-- NULL where memory is exhausted. `packet_queue_get` and `packet_queue_put` hold the queue's mutex
-- from beginning to end, so a call is one step. The counters are numbers: see PacketQueue.Refine
-- for their range.
pub mod Inv
pub mod Refine
pub mod Trace
pub mod Tests
use dtplayer_c.Base.{
  true, false, ℕ, zero, suc, ◌+◌, ◌-◌, Option, none, some, List, [], ◌∷◌, leb, ◌==◌, ◌&&◌,
  if◌then◌else◌, ◌>>=◌, ◌>>◌, sub?, ℤ, pos, negsuc,
}
use dtplayer_c.Heap.{Ptr, null, Node, node, Heap, write, load, set_next, free}
use dtplayer_c.Media.{Packet, is_video, is_audio}

-- `dt_packet_queue_t`
pub record Queue : Type 0 where
  pub nb_packets : ℕ
  pub size : ℕ
  pub first : Ptr
  pub last : Ptr

-- The fields of `dtp_setting` that the queue reads.
pub record Limits : Type 0 where
  pub video_max_size : ℕ
  pub audio_max_size : ℕ

unfoldable pub packet_queue_init : Queue → ℤ × Queue
packet_queue_init q = (pos 0, record { nb_packets = 0; size = 0; first = null; last = null })

-- `packet_queue_put_frame` behind a successful `malloc`.
unfoldable pub link_frame : Ptr → Queue → Packet → Heap Packet → Option (ℤ × Queue × Heap Packet)
link_frame p q frame h =
    let grown : Queue = record q {
      last = p;
      nb_packets = q.nb_packets + 1;
      size = q.size + frame.size;
    } in
    let h' : Heap Packet = write h p (some (node frame null)) in
    if q.last == null
    then some (pos 0, record grown { first = p }, h')
    else do h'' ← set_next h' q.last p; some (pos 0, grown, h'')

module _ (malloc : Heap Packet → Ptr) where
  unfoldable pub packet_queue_put_frame :
      Queue → Packet → Heap Packet → Option (ℤ × Queue × Heap Packet)
  packet_queue_put_frame q frame h =
      if malloc h == null then some (negsuc 0, q, h) else link_frame (malloc h) q frame h

  unfoldable pub packet_queue_put :
      Limits → Queue → Packet → Heap Packet → Option (ℤ × Queue × Heap Packet)
  packet_queue_put s q frame h =
      if is_video frame.type && leb s.video_max_size q.size
      then some (negsuc 0, q, h)
      else if is_audio frame.type && leb s.audio_max_size q.size
      then some (negsuc 1, q, h)
      else packet_queue_put_frame q frame h

-- The last node of the list is gone where `first` becomes NULL.
unfoldable pub unlink_first : Queue → Node Packet → Ptr
unlink_first q n = if n.next == null then null else q.last

-- The option beside the status is what goes through `*pkt`.
unfoldable pub packet_queue_get_frame :
    Queue → Heap Packet → Option (ℤ × Option Packet × Queue × Heap Packet)
packet_queue_get_frame q h =
    if q.nb_packets == 0
    then some (negsuc 0, none, q, h)
    else if q.first == null
    then some (negsuc 0, none, q, h)
    else do
      n ← load h q.first
      size ← sub? q.size n.item.size
      h' ← free h q.first
      some (
        pos 0,
        some n.item,
        record {
          nb_packets = q.nb_packets - 1;
          size = size;
          first = n.next;
          last = unlink_first q n;
        },
        h',
      )

unfoldable pub packet_queue_get :
    Queue → Heap Packet → Option (ℤ × Option Packet × Queue × Heap Packet)
packet_queue_get q h = packet_queue_get_frame q h

pub packet_queue_size : Queue → ℕ
packet_queue_size q = q.nb_packets

pub packet_queue_data_size : Queue → ℕ
packet_queue_data_size q = q.size

-- The loop of `packet_queue_flush`, on fuel: the packets that go to `dtp_packet_free`, in order.
unfoldable pub flush_loop : ℕ → Ptr → Heap Packet → Option (List Packet × Heap Packet)
flush_loop zero p h = none
flush_loop (suc k) p h = elim (p == null) [
  | true ↦ some ([], h)
  | false ↦ do
    n ← load h p
    h' ← free h p
    (freed, h'') ← flush_loop k n.next h'
    some (n.item ∷ freed, h'')
]

-- `nb_packets + 1` rounds are enough for a well-formed queue: `PacketQueue.Refine.flush_lem`.
unfoldable pub packet_queue_flush :
    Queue → Heap Packet → Option (ℤ × List Packet × Queue × Heap Packet)
packet_queue_flush q h = do
  (freed, h') ← flush_loop (q.nb_packets + 1) q.first h
  some (pos 0, freed, record { nb_packets = 0; size = 0; first = null; last = null }, h')

unfoldable pub packet_queue_release :
    Queue → Heap Packet → Option (ℤ × List Packet × Queue × Heap Packet)
packet_queue_release q h = packet_queue_flush q h
