-- ===== src/Host/Control/Fail.antt =====
-- `host_init` where an output cannot be started.
use dtplayer_c.Base.{◌≡◌, refl, ap, Bool, true, false, none, some, pos, negsuc}
use dtplayer_c.Port.{port_init}
use dtplayer_c.Port.Start.{no_cells, port_init-IsPort, port_init-ok}
use dtplayer_c.Host.{Host, Outputs, Env}
use dtplayer_c.Host.Control.{
  is_negative, port_para, zero_port, dtport_init, init_fields, abort_audio, init_audio, init_video,
  host_init,
}
use dtplayer_c.Host.Control.Life.{HasPort, dtport_stop_lem, zero_port-IsPort}

module _ {W : Type 0} (m : Outputs W) where
  init_video-leaves_video :
      (c : Host) (e : Env W) (x : Bool) (w1 w2 : W)
      → c.para.has_audio ≡ true
      → c.para.has_video ≡ true
      → m.video_init c.para e.outputs ≡ (pos 0, true, w1)
      → m.audio_init c.para w1 ≡ (negsuc 0, x, w2)
      → HasPort no_cells c e
      → (c' : Host) × (e' : Env W) × (init_video m c e ≡ some (negsuc 1, c', e'))
        × (e'.outputs ≡ w2)
  unfolding init_video init_audio abort_audio is_negative
  init_video-leaves_video c e x w1 w2 audio video started failed (port, is_port, v) =
      let (h', s) = dtport_stop_lem v in
      (
        record c { port_priv = none },
        record e { outputs = w2; heap = h' },
        simp (video, started, audio, failed, is_port, s),
        refl,
      )

  -- Where the video output starts and the audio output then fails, `host_init` fails, and no call
  -- reaches the outputs after the failure: the video output is not stopped.
  pub host_init-leaves_video :
      (c : Host) (e : Env W) (x : Bool) (w1 w2 : W)
      → c.para.has_audio ≡ true
      → c.para.has_video ≡ true
      → m.video_init c.para e.outputs ≡ (pos 0, true, w1)
      → m.audio_init c.para w1 ≡ (negsuc 0, x, w2)
      → (c' : Host) × (e' : Env W) × (host_init m true c e ≡ some (negsuc 1, c', e'))
        × (e'.outputs ≡ w2)
  unfolding host_init dtport_init is_negative init_fields port_para
  host_init-leaves_video c e x w1 w2 audio video started failed =
      let r = port_init zero_port (port_para m c.para) e.setting in
      let ok : is_negative r.0 ≡ false =
        ap is_negative (port_init-ok zero_port (port_para m c.para) e.setting audio) in
      simp ok (
        init_video-leaves_video (record (init_fields m c) { port_priv = some r.1 })
          (record e { setting = r.2 }) x w1 w2 audio video started failed
          (r.1, refl, port_init-IsPort (port_para m c.para) e.setting (zero_port-IsPort e.heap)))
