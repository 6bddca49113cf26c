-- ===== src/Host/Control/Life.antt =====
-- `host_init` and `host_stop` with the port that they make and release.
use dtplayer_c.Base.{
  ◌≡◌, refl, ◌∙◌, ap, ◌⊎◌, inl, inr, Bool, true, false, not, ◌||◌, Bool-cases, Option, none, some,
  List, [], ◌++◌, ℤ, pos, negsuc,
}
use dtplayer_c.Heap.{Heap}
use dtplayer_c.Heap.Chain.{Cells}
use dtplayer_c.Media.{Packet}
use dtplayer_c.PacketQueue.Inv.{IsQueue}
use dtplayer_c.Port.{Port, Slot, audio_slot, video_slot, subtitle_slot, queue_of, port_init}
use dtplayer_c.Port.Inv.{IsPort}
use dtplayer_c.Port.Start.{no_cells, port_init-IsPort}
use dtplayer_c.Port.Stop.{port_stop_lem, held}
use dtplayer_c.Host.{Host, Outputs, Env}
use dtplayer_c.Host.Control.{
  is_negative, port_para, zero_port, dtport_init, dtport_stop, do_if, stop_outputs, host_stop,
  init_fields, abort_audio, abort_video, init_sub, init_audio, init_video, host_init,
}

-- The host has a live, well-formed port with the packets of `cells`.
abbrev pub HasPort : {W : Type 0} → (Slot → Cells Packet) → Host → Env W → Type 0
HasPort cells c e = (port : Port) × (c.port_priv ≡ some port) × IsPort e.heap cells port

-- The packets that a stop of the port frees.
abbrev pub queued : (Slot → Cells Packet) → Port → List Packet
queued cells port =
    held port.param.has_audio (cells audio_slot)
    ++ (held port.param.has_video (cells video_slot)
        ++ held port.param.has_subtitle (cells subtitle_slot))

pub dtport_stop_lem :
    {h : Heap Packet} {cells : Slot → Cells Packet} {port : Port}
    → IsPort h cells port
    → (h' : Heap Packet) × (dtport_stop (some port) h ≡ some (pos 0, queued cells port, h'))
unfolding dtport_stop
dtport_stop_lem v = let (port', h', e, v') = port_stop_lem v in (h', rw e refl)

pub zero_port-IsPort : (h : Heap Packet) → IsPort h no_cells zero_port
unfolding queue_of
zero_port-IsPort h = record {
  queues = λ t. elim t as (λ t. IsQueue h [] (queue_of zero_port t)) [
    | audio_slot ↦ record {
      chain = tt;
      first_is = refl;
      last_is = refl;
      count = refl;
      bytes = refl;
    }
    | video_slot ↦ record {
      chain = tt;
      first_is = refl;
      last_is = refl;
      count = refl;
      bytes = refl;
    }
    | subtitle_slot ↦ record {
      chain = tt;
      first_is = refl;
      last_is = refl;
      count = refl;
      bytes = refl;
    }
  ];
  apart = λ t u ne. tt;
}

module _ {W : Type 0} (m : Outputs W) where
  -- `host_stop` of a host with a well-formed port returns. It frees every packet queued exactly
  -- once, in order, and stops the outputs in use.
  pub host_stop_lem :
      {cells : Slot → Cells Packet} (c : Host) (e : Env W) (port : Port)
      → c.port_priv ≡ some port
      → IsPort e.heap cells port
      → (c' : Host) × (e' : Env W) × (host_stop m c e ≡ some (pos 0, queued cells port, c', e'))
        × (c'.port_priv ≡ none)
        × (e'.outputs ≡ stop_outputs m c.para e.outputs)
  unfolding host_stop
  host_stop_lem {cells} c e port is_port v =
      let (h', s) = dtport_stop_lem v in
      (
        record c { port_priv = none },
        record e { outputs = stop_outputs m c.para e.outputs; heap = h' },
        ap (λ p. host_stop m (record c { port_priv = p }) e) is_port ∙ rw s refl,
        refl,
        refl,
      )

  -- The call has returned: with a failure, or with 0 and an empty, well-formed port.
  abbrev pub Begun : Option (ℤ × Host × Env W) → Type 0
  Begun r =
      (ret : ℤ) × (c' : Host) × (e' : Env W) × (r ≡ some (ret, c', e'))
      × ((is_negative ret ≡ true) ⊎ ((ret ≡ pos 0) × HasPort no_cells c' e'))

  abort_audio-Begun : (c : Host) (e : Env W) → HasPort no_cells c e → Begun (abort_audio m c e)
  unfolding abort_audio is_negative
  abort_audio-Begun c e (port, is_port, v) =
      let (h', s) = dtport_stop_lem v in
      (
        negsuc 1,
        record c { port_priv = none },
        record e { heap = h' },
        ap (λ p. abort_audio m (record c { port_priv = p }) e) is_port ∙ rw s refl,
        inl refl,
      )

  abort_video-Begun : (c : Host) (e : Env W) → HasPort no_cells c e → Begun (abort_video m c e)
  unfolding abort_video is_negative
  abort_video-Begun c e (port, is_port, v) =
      let (h', s) = dtport_stop_lem v in
      (
        negsuc 2,
        record c { port_priv = none },
        record e { outputs = do_if c.para.has_audio m.audio_stop e.outputs; heap = h' },
        ap (λ p. abort_video m (record c { port_priv = p }) e) is_port ∙ rw s refl,
        inl refl,
      )

  init_sub-Begun : (c : Host) (e : Env W) → HasPort no_cells c e → Begun (init_sub m c e)
  unfolding init_sub
  init_sub-Begun c e (port, is_port, v) = elim (Bool-cases c.para.has_sub) [
    | inl on ↦ elim (Bool-cases (is_negative (m.sub_init c.para e.outputs).0)) [
      | inl bad ↦ (
        pos 0,
        record c { para = record c.para { has_sub = false } },
        record e { outputs = (m.sub_init c.para e.outputs).1 },
        simp (on, bad),
        inr (refl, (port, is_port, v)),
      )
      | inr ok ↦ (
        pos 0,
        c,
        record e { outputs = (m.sub_init c.para e.outputs).1 },
        simp (on, ok),
        inr (refl, (port, is_port, v)),
      )
    ]
    | inr off ↦ (pos 0, c, e, simp off, inr (refl, (port, is_port, v)))
  ]

  init_audio-Begun : (c : Host) (e : Env W) → HasPort no_cells c e → Begun (init_audio m c e)
  unfolding init_audio is_negative
  init_audio-Begun c e p = elim (Bool-cases c.para.has_audio) [
    | inl on ↦
        let r = m.audio_init c.para e.outputs in
        elim (Bool-cases (is_negative r.0)) [
          | inl bad ↦ simp (on, bad) (abort_audio-Begun c (record e { outputs = r.2 }) p)
          | inr ok ↦ elim (Bool-cases r.1) [
            | inl there ↦ simp (on, ok, there) (init_sub-Begun c (record e { outputs = r.2 }) p)
            | inr gone ↦ (negsuc 0, c, record e { outputs = r.2 }, simp (on, ok, gone), inl refl)
          ]
        ]
    | inr off ↦ simp off (init_sub-Begun c e p)
  ]

  init_video-Begun : (c : Host) (e : Env W) → HasPort no_cells c e → Begun (init_video m c e)
  unfolding init_video
  init_video-Begun c e p = elim (Bool-cases c.para.has_video) [
    | inl on ↦
        let r = m.video_init c.para e.outputs in
        elim (Bool-cases (is_negative r.0 || not r.1)) [
          | inl bad ↦ simp (on, bad) (abort_video-Begun c (record e { outputs = r.2 }) p)
          | inr ok ↦ simp (on, ok) (init_audio-Begun c (record e { outputs = r.2 }) p)
        ]
    | inr off ↦ simp off (init_audio-Begun c e p)
  ]

  -- `host_init` always returns: with a failure, or with 0 and a host whose port is well-formed and
  -- holds no packet.
  pub host_init-Begun : (room : Bool) (c : Host) (e : Env W) → Begun (host_init m room c e)
  unfolding host_init dtport_init is_negative
  host_init-Begun false c e =
      (negsuc 0, record (init_fields m c) { port_priv = none }, e, refl, inl refl)
  host_init-Begun true c e =
      let r = port_init zero_port (port_para m c.para) e.setting in
      elim (Bool-cases (is_negative r.0)) [
        | inl bad ↦ (
          negsuc 0,
          record (init_fields m c) { port_priv = none },
          record e { setting = r.2 },
          simp bad,
          inl refl,
        )
        | inr ok ↦ simp ok (
            init_video-Begun (record (init_fields m c) { port_priv = some r.1 })
              (record e { setting = r.2 })
              (
                r.1,
                refl,
                port_init-IsPort (port_para m c.para) e.setting (zero_port-IsPort e.heap),
              ))
      ]
