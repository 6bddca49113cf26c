-- ===== src/Host/Control.antt =====
-- Part 2 of dthost/dthost.c: the outputs and the port are started and stopped together. Calls of
-- the outputs are in the order of the code; a status that the code only logs is dropped.
pub mod Life
pub mod Fail
pub mod Resume
use dtplayer_c.Base.{
  ℕ, Bool, true, false, not, ◌&&◌, ◌||◌, if◌then◌else◌, Option, none, some, ◌>>=◌, List, [], ℤ, pos,
  negsuc, ltb_ℤ, eqb_ℤ,
}
use dtplayer_c.Heap.{Heap}
use dtplayer_c.Media.{Packet}
use dtplayer_c.PacketQueue.{packet_queue_init, Queue}
use dtplayer_c.Port
use dtplayer_c.Port.{Port, Setting, port_init, port_stop}
use dtplayer_c.Host.{Host, Para, Outputs, Env, SyncMode, audio_master, video_master, no_pts}
use dtplayer_c.Host.Clock.{host_get_apts, host_get_vpts, host_reset_systime}

unfoldable pub is_negative : ℤ → Bool
is_negative x = ltb_ℤ x (pos 0)

-- The port as `memset` leaves it.
abbrev pub zero_port : Port
zero_port =
    let q : Queue = record { nb_packets = 0; size = 0; first = 0; last = 0 } in
    record {
      queue_audio = q;
      queue_video = q;
      queue_subtitle = q;
      param = record { has_video = false; has_audio = false; has_subtitle = false };
    }

-- `dtport_init`; `room` says whether its `malloc` succeeds.
unfoldable pub dtport_init : Bool → Port.Para → Setting → ℤ × Option Port × Setting
dtport_init false para s = (negsuc 0, none, s)
dtport_init true para s =
    let (ret, port, s') = port_init zero_port para s in
    if is_negative ret then (negsuc 0, none, s') else (ret, some port, s')

-- `dtport_stop`: a fault without a port. The list holds the packets that were freed.
unfoldable pub dtport_stop : Option Port → Heap Packet → Option (ℤ × List Packet × Heap Packet)
dtport_stop none h = none
dtport_stop (some c) h = do (_, freed, _, h') ← port_stop c h; some (pos 0, freed, h')

module _ {W : Type 0} where
  -- One call of an output that is in use.
  unfoldable pub call_if : Bool → (W → ℤ × W) → W → ℤ × W
  call_if true f w = f w
  call_if false f w = (pos 0, w)

  unfoldable pub do_if : Bool → (W → ℤ × W) → W → W
  do_if b f w = (call_if b f w).1

  module _ (m : Outputs W) where
    unfoldable pub start_outputs : Para → W → ℤ × W
    start_outputs p w =
        let (ra, w1) = call_if p.has_audio m.audio_start w in
        if is_negative ra
        then (negsuc 0, w1)
        else let (rv, w2) = call_if p.has_video m.video_start w1 in
          if is_negative rv
          then (negsuc 0, w2)
          else let (rs, w3) = call_if p.has_sub m.sub_start w2 in
            if is_negative rs then (negsuc 0, w3) else (pos 0, w3)

    -- `host_drop` is the field of `dtp_setting`.
    unfoldable pub host_start : Bool → Host → W → ℤ × Host × W
    host_start host_drop c w =
        let drop_enable : Bool = host_drop && c.para.has_audio && c.para.has_video in
        let c' : Host = if drop_enable then c else record c { drop_done = true } in
        let (ret, w') = start_outputs c.para w in (ret, c', w')

    unfoldable pub host_pause : Host → W → ℤ × W
    host_pause c w =
        (pos 0, do_if c.para.has_video m.video_pause (do_if c.para.has_audio m.audio_pause w))

    unfoldable pub restart_clock : ℤ → Host → Host
    restart_clock now c =
        if c.para.has_video
        then host_reset_systime now c (host_get_vpts c)
        else if c.para.has_audio
        then host_reset_systime now c (host_get_apts c)
        else c

    unfoldable pub host_resume : ℤ → Host → W → ℤ × Host × W
    host_resume now c w = (
      pos 0,
      restart_clock now c,
      do_if c.para.has_video m.video_resume (do_if c.para.has_audio m.audio_resume w),
    )

    unfoldable pub stop_outputs : Para → W → W
    stop_outputs p w =
        do_if p.has_sub m.sub_stop
          (do_if p.has_video m.video_stop (do_if p.has_audio m.audio_stop w))

    -- The list holds the packets that the port freed.
    unfoldable pub host_stop : Host → Env W → Option (ℤ × List Packet × Host × Env W)
    host_stop c e = do
      (_, freed, h') ← dtport_stop c.port_priv e.heap
      some (
        pos 0,
        freed,
        record c { port_priv = none },
        record e { outputs = stop_outputs c.para e.outputs; heap = h' },
      )

    -- `host_init` up to the port.
    unfoldable pub init_fields : Host → Host
    init_fields c =
        let both : Bool = c.para.has_audio && c.para.has_video in
        record c {
          av_sync = if both then audio_master else video_master;
          sync_enable = both && c.para.sync_enable;
          av_diff = pos 0;
          sys_time_start = no_pts;
          sys_time_first = no_pts;
          sys_time_current = no_pts;
          sys_time_last = no_pts;
          sys_time_start_time = negsuc 0;
          pts_audio_first = no_pts;
          pts_audio_last = no_pts;
          pts_audio_current = no_pts;
          audio_discontinue_flag = false;
          audio_discontinue_point = negsuc 0;
          audio_discontinue_step = negsuc 0;
          pts_video_first = no_pts;
          pts_video_last = no_pts;
          pts_video_current = no_pts;
          video_discontinue_flag = false;
          video_discontinue_point = negsuc 0;
          video_discontinue_step = negsuc 0;
        }

    unfoldable pub port_para : Para → Port.Para
    port_para p = record {
      has_video = p.has_video;
      has_audio = p.has_audio;
      has_subtitle = p.has_sub;
    }

    -- The label ERR2: the audio output is not there.
    pub abort_audio : Host → Env W → Option (ℤ × Host × Env W)
    abort_audio c e = do
      (_, _, h') ← dtport_stop c.port_priv e.heap
      some (negsuc 1, record c { port_priv = none }, record e { heap = h' })

    -- The label ERR3: the video output is not there.
    pub abort_video : Host → Env W → Option (ℤ × Host × Env W)
    abort_video c e = do
      (_, _, h') ← dtport_stop c.port_priv e.heap
      some (
        negsuc 2,
        record c { port_priv = none },
        record e { outputs = do_if c.para.has_audio m.audio_stop e.outputs; heap = h' },
      )

    -- A subtitle output that fails to start is done without.
    unfoldable pub init_sub : Host → Env W → Option (ℤ × Host × Env W)
    init_sub c e =
        if not c.para.has_sub
        then some (pos 0, c, e)
        else let (ret, w) = m.sub_init c.para e.outputs in
          let c' : Host =
            if is_negative ret then record c { para = record c.para { has_sub = false } } else c in
          some (pos 0, c', record e { outputs = w })

    unfoldable pub init_audio : Host → Env W → Option (ℤ × Host × Env W)
    init_audio c e =
        if not c.para.has_audio
        then init_sub c e
        else let (ret, there, w) = m.audio_init c.para e.outputs in
          let e' : Env W = record e { outputs = w } in
          if is_negative ret
          then abort_audio c e'
          else if there
          then init_sub c e'
          else some (negsuc 0, c, e')

    unfoldable pub init_video : Host → Env W → Option (ℤ × Host × Env W)
    init_video c e =
        if not c.para.has_video
        then init_audio c e
        else let (ret, there, w) = m.video_init c.para e.outputs in
          let e' : Env W = record e { outputs = w } in
          if is_negative ret || not there then abort_video c e' else init_audio c e'

    -- `room` says whether the port's `malloc` succeeds.
    unfoldable pub host_init : Bool → Host → Env W → Option (ℤ × Host × Env W)
    host_init room c e =
        let c1 : Host = init_fields c in
        let (ret, port, s) = dtport_init room (port_para c.para) e.setting in
        let c2 : Host = record c1 { port_priv = port } in
        let e2 : Env W = record e { setting = s } in
        if is_negative ret then some (negsuc 0, c2, e2) else init_video c2 e2

    -- The audio output is resumed even where there is none.
    unfoldable pub host_video_resize : Host → ℤ → ℤ → W → ℤ × Host × W
    host_video_resize c w h s =
        if not c.para.has_video
        then (negsuc 0, c, s)
        else let (_, s1) = host_pause c s in
          let (ret, s2) = m.video_resize w h s1 in
          let c' : Host =
            (if eqb_ℤ ret (pos 0)
              then record c { para = record c.para { video_dest_width = w; video_dest_height = h } }
              else c) in
          (ret, c', (m.audio_resume s2).1)
