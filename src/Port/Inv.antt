-- ===== src/Port/Inv.antt =====
-- The representation invariant of the port: three well-formed queues that share no node.
use mathlib.Core.Logic.{ite, if_pos, if_neg}
use mathlib.Core.Path.{subst}
use dtplayer_c.Base.{ℕ, some, pos, length, ap, ◌≡◌, refl, ◌≢◌, ◌∙◌, sym}
use dtplayer_c.Heap.{Heap}
use dtplayer_c.Heap.Chain.{Cells, Chain, Disjoint}
use dtplayer_c.Media.{MediaType, Packet}
use dtplayer_c.PacketQueue.{Queue}
use dtplayer_c.PacketQueue.Inv.{IsQueue, total_size}
use dtplayer_c.Port.{
  slot_of, port_get_state, Port, Slot, audio_slot, video_slot, subtitle_slot, queue_of, set_queue,
}

pub record IsPort (h : Heap Packet) (cells : Slot → Cells Packet) (c : Port) : Type 0 where
  pub queues : (t : Slot) → IsQueue h (cells t) (queue_of c t)
  pub apart : (t u : Slot) → t ≢ u → Disjoint (cells t) (cells u)

pub Slot-discrete : Discrete Slot
Slot-discrete = hlevel

-- The cells of slot `t` are now `xs`.
unfoldable pub update : (Slot → Cells Packet) → Slot → Cells Packet → Slot → Cells Packet
update cells t xs u = ite (Slot-discrete t u) xs (cells u)

pub update_self :
    (cells : Slot → Cells Packet) (t : Slot) (xs : Cells Packet) → update cells t xs t ≡ xs
unfolding update
update_self cells t xs = rw (if_pos (Slot-discrete t t) refl)

pub update_ne :
    (cells : Slot → Cells Packet) (t : Slot) (xs : Cells Packet) {u : Slot}
    → t ≢ u
    → update cells t xs u ≡ cells u
unfolding update
update_ne cells t xs {u} ne = rw (if_neg (Slot-discrete t u) ne)

pub queue_of-set_self : (c : Port) (t : Slot) (q : Queue) → queue_of (set_queue c t q) t ≡ q
unfolding queue_of set_queue
queue_of-set_self c audio_slot q = refl
queue_of-set_self c video_slot q = refl
queue_of-set_self c subtitle_slot q = refl

pub queue_of-set_ne :
    (c : Port) (t : Slot) (q : Queue) (u : Slot)
    → t ≢ u
    → queue_of (set_queue c t q) u ≡ queue_of c u
unfolding queue_of set_queue
queue_of-set_ne c audio_slot q audio_slot ne = absurd (ne refl)
queue_of-set_ne c audio_slot q video_slot ne = refl
queue_of-set_ne c audio_slot q subtitle_slot ne = refl
queue_of-set_ne c video_slot q audio_slot ne = refl
queue_of-set_ne c video_slot q video_slot ne = absurd (ne refl)
queue_of-set_ne c video_slot q subtitle_slot ne = refl
queue_of-set_ne c subtitle_slot q audio_slot ne = refl
queue_of-set_ne c subtitle_slot q video_slot ne = refl
queue_of-set_ne c subtitle_slot q subtitle_slot ne = absurd (ne refl)

-- One queue changes, and its new nodes stay apart from the others': the port is well-formed again.
pub IsPort-set :
    {h h' : Heap Packet} {cells : Slot → Cells Packet} {c : Port} (t : Slot) (xs : Cells Packet)
    (q : Queue)
    → IsPort h cells c
    → IsQueue h' xs q
    → ((u : Slot) → t ≢ u → Chain h' (cells u))
    → ((u : Slot) → t ≢ u → Disjoint xs (cells u) × Disjoint (cells u) xs)
    → IsPort h' (update cells t xs) (set_queue c t q)
IsPort-set {h} {h'} {cells} {c} t xs q v vq kept apart = record {
  queues = λ u. elim (Slot-discrete t u) [
    | yes e ↦
        subst (λ w. IsQueue h' (update cells t xs w) (queue_of (set_queue c t q) w)) e
          (rw (update_self cells t xs, queue_of-set_self c t q) vq)
    | no ne ↦
        rw (update_ne cells t xs ne, queue_of-set_ne c t q u ne)
          (record {
            chain = kept u ne;
            first_is = (v.queues u).first_is;
            last_is = (v.queues u).last_is;
            count = (v.queues u).count;
            bytes = (v.queues u).bytes;
          })
  ];
  apart = λ u w uw. elim (Slot-discrete t u) [
    | yes e ↦
        let tw : t ≢ w = λ e'. uw (sym e ∙ e') in
        subst (λ z. Disjoint (update cells t xs z) (update cells t xs w)) e
          (rw (update_self cells t xs, update_ne cells t xs tw) (apart w tw).0)
    | no ne ↦ rw (update_ne cells t xs ne) (elim (Slot-discrete t w) [
      | yes e ↦
          subst (λ z. Disjoint (cells u) (update cells t xs z)) e
            (rw (update_self cells t xs) (apart u ne).1)
      | no ne' ↦ rw (update_ne cells t xs ne') (v.apart u w uw)
    ])
  ];
}

-- `port_get_state` of a well-formed port tells the bytes and the number of the packets that the
-- queue for the type holds.
pub port_get_state_lem :
    {h : Heap Packet} {cells : Slot → Cells Packet} {c : Port} (type : MediaType) (t : Slot)
    → IsPort h cells c
    → slot_of type ≡ some t
    → port_get_state c type ≡ (pos 0, some (total_size (cells t), length (cells t)))
unfolding port_get_state
port_get_state_lem {cells} {c} type t v e =
    rw (e, port_get_state)
      (ap (λ (x : ℕ × ℕ). (pos 0, some x)) (cc ((v.queues t).bytes, (v.queues t).count)))
