-- ===== src/Port/Start.antt =====
-- `port_init` on a port without packets.
use dtplayer_c.Base.{
  ltb, ℕ, zero, suc, ◌<◌, ◌≡◌, ◌||◌, arith, ℤ, negsuc, pos, refl, Bool, true, false, not, ◌&&◌, [],
  inl, inr, Bool-cases,
}
use dtplayer_c.Heap.{Heap}
use dtplayer_c.Heap.Chain.{Cells}
use dtplayer_c.Media.{Packet}
use dtplayer_c.PacketQueue.{Queue, packet_queue_init}
use dtplayer_c.PacketQueue.Inv.{IsQueue}
use dtplayer_c.Port.{
  queue_max_pack_num, queue_max_vbuf_size, limit, default_to, complete_setting, audio_write_enable,
  video_write_enable, Port, Para, Setting, Slot, audio_slot, video_slot, subtitle_slot, queue_of,
  init_if, port_init,
}
use dtplayer_c.Port.Inv.{IsPort}

-- No slot holds a packet.
abbrev pub no_cells : Slot → Cells Packet
no_cells _ = []

init_if-IsQueue :
    {h : Heap Packet} (b : Bool) {q : Queue} → IsQueue h [] q → IsQueue h [] (init_if b q)
unfolding init_if packet_queue_init
init_if-IsQueue false v = v
init_if-IsQueue true v = record {
  chain = tt;
  first_is = refl;
  last_is = refl;
  count = refl;
  bytes = refl;
}

init-queues :
    {h : Heap Packet} {c : Port} (para : Para) (v : IsPort h no_cells c) (t : Slot)
    → IsQueue h [] (
        queue_of
          (record {
            queue_audio = init_if para.has_audio c.queue_audio;
            queue_video = init_if para.has_video c.queue_video;
            queue_subtitle = init_if para.has_subtitle c.queue_subtitle;
            param = para;
          })
          t)
unfolding queue_of
init-queues para v audio_slot = init_if-IsQueue para.has_audio (v.queues audio_slot)
init-queues para v video_slot = init_if-IsQueue para.has_video (v.queues video_slot)
init-queues para v subtitle_slot = init_if-IsQueue para.has_subtitle (v.queues subtitle_slot)

same-queues :
    {h : Heap Packet} {c : Port} (para : Para) (v : IsPort h no_cells c) (t : Slot)
    → IsQueue h [] (queue_of (record c { param = para }) t)
unfolding queue_of
same-queues para v audio_slot = v.queues audio_slot
same-queues para v video_slot = v.queues video_slot
same-queues para v subtitle_slot = v.queues subtitle_slot

-- A port without packets is well-formed and without packets after `port_init`, failed or not.
pub port_init-IsPort :
    {h : Heap Packet} {c : Port} (para : Para) (s : Setting)
    → IsPort h no_cells c
    → IsPort h no_cells (port_init c para s).1
unfolding port_init
port_init-IsPort para s v = elim (Bool-cases (not para.has_audio && not para.has_video)) [
  | inl off ↦ rw off (record { queues = same-queues para v; apart = λ t u ne. tt })
  | inr on ↦ rw on (record { queues = init-queues para v; apart = λ t u ne. tt })
]

pub port_init-ok :
    (c : Port) (para : Para) (s : Setting) → para.has_audio ≡ true → (port_init c para s).0 ≡ pos 0
unfolding port_init
port_init-ok c para s on = simp on

default_to-positive : (x : ℤ) (n : ℕ) → 0 < limit (default_to x (suc n))
unfolding limit default_to
default_to-positive (pos zero) n = omega arith
default_to-positive (pos (suc m)) n = omega arith
default_to-positive (negsuc m) n = omega arith

-- After a `port_init` for audio or video the port accepts writes: the limits for audio and video
-- packets are completed to positive numbers, whatever the settings were.
pub port_init-write_enable :
    (c : Port) (para : Para) (s : Setting)
    → (para.has_audio || para.has_video) ≡ true
    → (audio_write_enable (port_init c para s).2 (port_init c para s).1
        || video_write_enable (port_init c para s).2 (port_init c para s).1)
      ≡ true
unfolding port_init audio_write_enable video_write_enable complete_setting packet_queue_init init_if
port_init-write_enable c para s on =
    let a : ltb 0 (limit (default_to s.audio_max_num queue_max_pack_num)) ≡ true =
      ground (arith, default_to-positive s.audio_max_num 7) in
    let b : ltb 0 (limit (default_to s.video_max_size queue_max_vbuf_size)) ≡ true =
      ground (arith, default_to-positive s.video_max_size 52428799) in
    elim (Bool-cases para.has_audio) [
      | inl e ↦ simp (e, a)
      | inr e ↦ let f : para.has_video ≡ true = ground arith in simp (e, f, b)
    ]
