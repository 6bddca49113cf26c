-- ===== src/Port/Stop.antt =====
-- `port_stop` on a well-formed port.
use dtplayer_c.Base.{
  ◌≡◌, refl, ◌≢◌, ◌∙◌, sym, Bool, true, false, Option, some, List, [], ◌++◌, pos, if◌then◌else◌,
}
use dtplayer_c.Heap.{Heap}
use dtplayer_c.Heap.Chain.{Cells, Chain-spared, Disjoint-nil}
use dtplayer_c.Media.{Packet}
use dtplayer_c.PacketQueue.{Queue, packet_queue_release}
use dtplayer_c.PacketQueue.Refine.{items, flush_lem}
use dtplayer_c.Port.{
  Port, Slot, audio_slot, video_slot, subtitle_slot, queue_of, set_queue, release_if, port_stop,
}
use dtplayer_c.Port.Inv.{IsPort, IsPort-set, update, update_ne}

-- The cells after the release of slot `t`, where it is in use.
abbrev pub emptied : Bool → Slot → (Slot → Cells Packet) → Slot → Cells Packet
emptied b t cells = if b then update cells t [] else cells

abbrev pub held : Bool → Cells Packet → List Packet
held b xs = if b then items xs else []

set_queue_self : (c : Port) (t : Slot) → set_queue c t (queue_of c t) ≡ c
unfolding set_queue queue_of
set_queue_self c audio_slot = refl
set_queue_self c video_slot = refl
set_queue_self c subtitle_slot = refl

-- The release of slot `t` has handed out its packets.
abbrev Released :
    (Slot → Cells Packet) → Port → Bool → Slot → Option (List Packet × Queue × Heap Packet) → Type 0
Released cells c b t r =
    (q : Queue) × (h' : Heap Packet) × (r ≡ some (held b (cells t), q, h'))
    × IsPort h' (emptied b t cells) (set_queue c t q)

release_if-Released :
    {h : Heap Packet} {cells : Slot → Cells Packet} {c : Port} (b : Bool) (t : Slot)
    → IsPort h cells c
    → Released cells c b t (release_if b (queue_of c t) h)
unfolding release_if packet_queue_release
release_if-Released {h} {cells} {c} false t v = (queue_of c t, h, refl, rw (set_queue_self c t) v)
release_if-Released {h} {cells} {c} true t v =
    let (q, h', e, vq, gone, same) = flush_lem (v.queues t) in
    (
      q,
      h',
      rw e,
      IsPort-set t [] q v vq
          (λ u tu.
            Chain-spared h h' (cells t) (cells u) same (v.apart u t (λ e'. tu (sym e')))
              (v.queues u).chain)
          (λ u tu. (tt, Disjoint-nil (cells u))),
    )

emptied_ne :
    (b : Bool) (cells : Slot → Cells Packet) {t u : Slot} → t ≢ u → emptied b t cells u ≡ cells u
emptied_ne false cells ne = refl
emptied_ne true cells {t} ne = update_ne cells t [] ne

-- `port_stop` of a well-formed port returns. It frees every packet of the queues in use exactly
-- once, audio before video before subtitles, each queue in order, and leaves a well-formed port
-- where these queues are empty.
pub port_stop_lem :
    {h : Heap Packet} {cells : Slot → Cells Packet} {c : Port}
    → IsPort h cells c
    → (c' : Port) × (h' : Heap Packet) × (port_stop c h
        ≡ some (
          pos 0,
          held c.param.has_audio (cells audio_slot)
              ++ (held c.param.has_video (cells video_slot)
                  ++ held c.param.has_subtitle (cells subtitle_slot)),
          c',
          h',
        ))
      × IsPort h'
          (emptied c.param.has_subtitle subtitle_slot
            (emptied c.param.has_video video_slot (emptied c.param.has_audio audio_slot cells)))
          c'
unfolding port_stop queue_of set_queue
port_stop_lem {h} {cells} {c} v =
    let cells1 = emptied c.param.has_audio audio_slot cells in
    let cells2 = emptied c.param.has_video video_slot cells1 in
    let (qa, h1, ea, v1) = release_if-Released c.param.has_audio audio_slot v in
    let (qv, h2, ev, v2) = release_if-Released c.param.has_video video_slot v1 in
    let (qs, h3, es, v3) = release_if-Released c.param.has_subtitle subtitle_slot v2 in
    let video_is : cells1 video_slot ≡ cells video_slot =
      emptied_ne c.param.has_audio cells (λ e. cc e) in
    let subtitle_is : cells2 subtitle_slot ≡ cells subtitle_slot =
      emptied_ne c.param.has_video cells1 (λ e. cc e)
      ∙ emptied_ne c.param.has_audio cells (λ e. cc e) in
    (
      record c { queue_audio = qa; queue_video = qv; queue_subtitle = qs },
      h3,
      rw (ea, ev, es, video_is, subtitle_is) refl,
      v3,
    )
