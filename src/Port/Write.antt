-- ===== src/Port/Write.antt =====
-- `port_write_frame` and `port_read_frame` on a well-formed port.
use dtplayer_c.Base.{
  ◌≡◌, ◌≢◌, sym, arith, none, some, true, false, not, ◌&&◌, ◌||◌, ◌++◌, ◌∷◌, [], pos,
}
use dtplayer_c.Heap.{Heap, Ptr, null, write}
use dtplayer_c.Heap.Chain.{
  Cells, Disjoint, Chain-frame, Chain-write, Disjoint-snoc_right, Disjoint-snoc_left,
  Disjoint-cons_right,
}
use dtplayer_c.Media.{Packet, MediaType}
use dtplayer_c.PacketQueue.{Queue}
use dtplayer_c.PacketQueue.Inv.{IsQueue}
use dtplayer_c.PacketQueue.Refine.{Allocates, refuses, packet_queue_put_lem, packet_queue_get_lem}
use dtplayer_c.Port.{
  Port, Setting, Slot, queue_of, set_queue, slot_of, limits, audio_write_enable, video_write_enable,
  write_slot, port_write_frame, port_read_frame,
}
use dtplayer_c.Port.Inv.{IsPort, IsPort-set, update}

module _ (malloc : Heap Packet → Ptr) {h : Heap Packet} {cells : Slot → Cells Packet} {c : Port}
    (s : Setting) (t : Slot) (f : Packet) where
  -- In a well-formed port, where audio or video may be written, memory is left and the queue's
  -- limit in bytes is not reached, a packet for slot `t` is appended to that queue. The port stays
  -- well-formed.
  pub port_write_frame_lem :
      (type : MediaType)
      → Allocates malloc
      → IsPort h cells c
      → slot_of type ≡ some t
      → malloc h ≢ null
      → (audio_write_enable s c || video_write_enable s c) ≡ true
      → refuses (limits s) (queue_of c t) f ≡ false
      → (q : Queue) × (h' : Heap Packet) × (port_write_frame malloc s c f type h
          ≡ some (pos 0, set_queue c t q, h'))
        × IsPort h' (update cells t (cells t ++ ((malloc h, f) ∷ []))) (set_queue c t q)
  unfolding port_write_frame write_slot
  port_write_frame_lem type fresh v is_t ne on below =
      let (q, h', e, vq, same) =
        packet_queue_put_lem malloc (limits s) f fresh (v.queues t) ne below in
      let unused = fresh h ne in
      let going : (not (audio_write_enable s c) && not (video_write_enable s c)) ≡ false =
        ground arith in
      (
        q,
        h',
        rw going (rw (is_t, port_write_frame) (rw e)),
        IsPort-set t (cells t ++ ((malloc h, f) ∷ [])) q v vq
            (λ u tu.
              Chain-frame h h' (cells t) (cells u) (malloc h) same unused
                (v.apart u t (λ e'. tu (sym e'))) (v.queues u).chain)
            (λ u tu. (
              Disjoint-snoc_left h (cells t) (cells u) (malloc h) f (v.queues u).chain unused
                  (v.apart t u tu),
              Disjoint-snoc_right h (cells u) (cells t) (malloc h) f (v.queues u).chain unused
                  (v.apart u t (λ e'. tu (sym e'))),
            )),
      )

-- In a well-formed port, reading takes the oldest packet of the slot's queue, where there is one.
-- The other queues keep theirs, and the port stays well-formed.
pub port_read_frame_lem :
    {h : Heap Packet} {cells : Slot → Cells Packet} {c : Port} (type : MediaType) (t : Slot)
    (p : Ptr) (f : Packet) (xs : Cells Packet)
    → IsPort h cells c
    → slot_of type ≡ some t
    → cells t ≡ (p, f) ∷ xs
    → (q : Queue) × (port_read_frame c type h
        ≡ some (pos 0, some f, set_queue c t q, write h p none))
      × IsPort (write h p none) (update cells t xs) (set_queue c t q)
unfolding port_read_frame
port_read_frame_lem {h} {cells} {c} type t p f xs v is_t held =
    let vt : IsQueue h ((p, f) ∷ xs) (queue_of c t) = rw held at (v.queues t) in
    let (q, e, vq) = packet_queue_get_lem p f vt in
    (
      q,
      rw (is_t, port_read_frame) (rw e),
      IsPort-set t xs q v vq
          (λ u tu.
            let d : Disjoint ((p, f) ∷ xs) (cells u) = rw held at (v.apart t u tu) in
            Chain-write h p none (cells u) d.0 (v.queues u).chain)
          (λ u tu.
            let d : Disjoint ((p, f) ∷ xs) (cells u) = rw held at (v.apart t u tu) in
            let d' : Disjoint (cells u) ((p, f) ∷ xs) =
              rw held at (v.apart u t (λ e'. tu (sym e'))) in
            (d.1, Disjoint-cons_right (cells u) xs p f d')),
    )
