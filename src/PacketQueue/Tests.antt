-- ===== src/PacketQueue/Tests.antt =====
-- Runs of dtport/dt_packet_queue.c on a heap of three cells, and its theorems at them.
use mathlib.Core.Option
use dtplayer_c.Base.{
  ℕ, ◌≡◌, refl, true, false, none, some, List, [], ◌∷◌, Bool, if◌then◌else◌, arith, pos, negsuc,
}
use dtplayer_c.Heap.{Ptr, null, node, Heap, write, write_self, load, set_next, free}
use dtplayer_c.Heap.Chain.{Cells}
use dtplayer_c.Media.{MediaType, video, audio, Packet}
use dtplayer_c.PacketQueue.{
  Queue, Limits, packet_queue_put, packet_queue_put_frame, packet_queue_get, packet_queue_get_frame,
  link_frame, unlink_first,
}
use dtplayer_c.PacketQueue.Inv.{IsQueue}
use dtplayer_c.PacketQueue.Refine.{Allocates, items}
use dtplayer_c.PacketQueue.Trace.{Op, put, get, Reply, Trace, run, step, run-Trace}

abbrev is_used : Heap Packet → Ptr → Bool
is_used h p = elim (h p) [ none ↦ false | some _ ↦ true ]

-- The first of three addresses that is not in use.
abbrev pub first_free : Heap Packet → Ptr
first_free h =
    if is_used h 1 then (if is_used h 2 then (if is_used h 3 then 0 else 3) else 2) else 1

is_used-none : (h : Heap Packet) (p : Ptr) → is_used h p ≡ false → h p ≡ none
is_used-none h p e = ground arith

pub first_free-Allocates : Allocates first_free
first_free-Allocates h ne = ground arith

abbrev pub sample : MediaType → ℕ → Packet
sample type size = record {
  payload = 16;
  size = size;
  pts = pos 90;
  dts = pos 90;
  duration = pos 0;
  key_frame = 0;
  type = type;
  flags = 0;
  opaque = 0;
}

abbrev pub no_packets : Heap Packet
no_packets p = none

abbrev pub one_packet : Heap Packet
one_packet = write no_packets 1 (some (node (sample video 5) null))

abbrev pub one_queued : Queue
one_queued = record { nb_packets = 1; size = 5; first = 1; last = 1 }

abbrev pub one_cell : Cells Packet
one_cell = (1, sample video 5) ∷ []

pub one_queued-IsQueue : IsQueue one_packet one_cell one_queued
one_queued-IsQueue = record {
  chain = ((λ e. absurd (omega arith)), write_self no_packets 1 _, tt, tt);
  first_is = refl;
  last_is = refl;
  count = refl;
  bytes = refl;
}

abbrev pub narrow : Limits
narrow = record { video_max_size = 8; audio_max_size = 100 }

abbrev calls : List Op
calls = put (sample audio 4) ∷ put (sample video 7) ∷ get ∷ get ∷ get ∷ []

run-calls :
    Option.map (λ r. r.0) (run first_free narrow one_queued one_packet calls)
    ≡ some (
        (pos 0, none)
        ∷ (negsuc 0, none)
        ∷ (pos 0, some (sample video 5))
        ∷ (pos 0, some (sample audio 4))
        ∷ (negsuc 0, none)
        ∷ [])
unfolding run step packet_queue_put packet_queue_put_frame packet_queue_get packet_queue_get_frame
    link_frame unlink_first write load set_next free
run-calls = refl

run-Trace_example :
    (rs : List Reply) × (xs' : Cells Packet) × (q' : Queue) × (h' : Heap Packet) × (run first_free
        narrow one_queued one_packet calls
      ≡ some (rs, q', h'))
    × IsQueue h' xs' q'
    × Trace first_free narrow one_queued one_packet (items one_cell) calls rs (items xs')
run-Trace_example = run-Trace first_free narrow first_free-Allocates calls one_queued-IsQueue
