-- ===== src/Port/Tests.antt =====
-- Runs of dtport/dtport.c with one video packet queued, and its theorems at them.
use dtplayer_c.Base.{◌≡◌, refl, ◌≢◌, true, false, some, [], ◌∷◌, arith, pos}
use dtplayer_c.Heap.{Heap, write}
use dtplayer_c.Heap.Chain.{Cells, Disjoint}
use dtplayer_c.Media.{video, audio, Packet}
use dtplayer_c.PacketQueue.{Queue}
use dtplayer_c.PacketQueue.Inv.{IsQueue}
use dtplayer_c.PacketQueue.Tests.{
  first_free, first_free-Allocates, sample, one_packet, one_queued, one_cell, one_queued-IsQueue,
}
use dtplayer_c.Port.{
  Port, Setting, Slot, audio_slot, video_slot, subtitle_slot, set_queue, queue_of, port_write_frame,
  port_stop, slot_of, limit, limits, audio_write_enable,
}
use dtplayer_c.Port.Inv.{IsPort, update}
use dtplayer_c.Port.Stop.{port_stop_lem}
use dtplayer_c.Port.Write.{port_write_frame_lem}

abbrev no_queued : Queue
no_queued = record { nb_packets = 0; size = 0; first = 0; last = 0 }

no_queued-IsQueue : (h : Heap Packet) → IsQueue h [] no_queued
no_queued-IsQueue h = record {
  chain = tt;
  first_is = refl;
  last_is = refl;
  count = refl;
  bytes = refl;
}

abbrev pub one_video : Port
one_video = record {
  queue_audio = no_queued;
  queue_video = one_queued;
  queue_subtitle = no_queued;
  param = record { has_video = true; has_audio = true; has_subtitle = false };
}

abbrev pub cells : Slot → Cells Packet
cells video_slot = one_cell
cells _ = []

one_video-queues : (t : Slot) → IsQueue one_packet (cells t) (queue_of one_video t)
unfolding queue_of
one_video-queues audio_slot = no_queued-IsQueue one_packet
one_video-queues video_slot = one_queued-IsQueue
one_video-queues subtitle_slot = no_queued-IsQueue one_packet

cells-Disjoint : (t u : Slot) → t ≢ u → Disjoint (cells t) (cells u)
cells-Disjoint audio_slot u ne = tt
cells-Disjoint video_slot audio_slot ne = (tt, tt)
cells-Disjoint video_slot video_slot ne = absurd (ne refl)
cells-Disjoint video_slot subtitle_slot ne = (tt, tt)
cells-Disjoint subtitle_slot u ne = tt

pub one_video-IsPort : IsPort one_packet cells one_video
one_video-IsPort = record { queues = one_video-queues; apart = cells-Disjoint }

-- At most two audio packets; the video limits are wide.
abbrev pub setting : Setting
setting = record {
  audio_max_num = pos 2;
  audio_max_size = pos 100;
  video_max_num = pos 1;
  video_max_size = pos 100;
}

port_write_frame_lem_example :
    (q : Queue) × (h' : Heap Packet) × (port_write_frame first_free setting one_video
        (sample audio 4)
        audio
        one_packet
      ≡ some (pos 0, set_queue one_video audio_slot q, h'))
    × IsPort h'
        (update cells audio_slot ((2, sample audio 4) ∷ []))
        (set_queue one_video audio_slot q)
unfolding write audio_write_enable slot_of queue_of limit limits
port_write_frame_lem_example =
    port_write_frame_lem first_free setting audio_slot (sample audio 4) audio first_free-Allocates
      one_video-IsPort refl (λ e. absurd (omega arith)) refl refl

abbrev closed : Setting
closed = record {
  audio_max_num = pos 0;
  audio_max_size = pos 100;
  video_max_num = pos 9;
  video_max_size = pos 1;
}

port_stop_lem_example :
    (c' : Port) × (h' : Heap Packet) × (port_stop one_video one_packet
      ≡ some (pos 0, sample video 5 ∷ [], c', h'))
    × IsPort h' (update (update cells audio_slot []) video_slot []) c'
unfolding update
port_stop_lem_example = port_stop_lem one_video-IsPort
