-- ===== src/PacketQueue/Inv.antt =====
-- The representation invariant of `dt_packet_queue_t`.
use dtplayer_c.Base.{ℕ, ◌+◌, ◌≡◌, [], ◌∷◌, ◌++◌, arith, length}
use dtplayer_c.Heap.{Heap, null}
use dtplayer_c.Heap.Chain.{Cells, Chain, head_of, last_of}
use dtplayer_c.Media.{Packet}
use dtplayer_c.PacketQueue.{Queue, packet_queue_size, packet_queue_data_size}

-- The sizes of the packets, added up.
abbrev pub total_size : Cells Packet → ℕ
total_size [] = 0
total_size ((_, f) ∷ xs) = f.size + total_size xs

pub total_size-append :
    (xs ys : Cells Packet) → total_size (xs ++ ys) ≡ total_size xs + total_size ys
total_size-append [] ys = omega arith
total_size-append ((p, f) ∷ xs) ys = omega (arith, total_size-append xs ys)

-- The queue holds the packets of the cells `xs`, in this order.
pub record IsQueue (h : Heap Packet) (xs : Cells Packet) (q : Queue) : Type 0 where
  pub chain : Chain h xs
  pub first_is : q.first ≡ head_of xs
  pub last_is : q.last ≡ last_of null xs
  pub count : q.nb_packets ≡ length xs
  pub bytes : q.size ≡ total_size xs

-- `packet_queue_size` and `packet_queue_data_size` of a well-formed queue are the number of its
-- packets and the sum of their sizes.
pub packet_queue_size_lem :
    {h : Heap Packet} {xs : Cells Packet} {q : Queue}
    → IsQueue h xs q
    → (packet_queue_size q ≡ length xs) × (packet_queue_data_size q ≡ total_size xs)
unfolding packet_queue_size packet_queue_data_size
packet_queue_size_lem v = (v.count, v.bytes)
