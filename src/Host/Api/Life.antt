-- ===== src/Host/Api/Life.antt =====
-- From `dthost_init` to `dthost_stop`.
use dtplayer_c.Base.{
  ◌≡◌, refl, ◌⊎◌, inl, inr, Bool, true, false, Option, none, some, [], ℤ, pos, negsuc,
}
use dtplayer_c.Port.{Port}
use dtplayer_c.Port.Start.{no_cells}
use dtplayer_c.Port.Stop.{held}
use dtplayer_c.Host.{Host, Para, Outputs, Env}
use dtplayer_c.Host.Control.{is_negative}
use dtplayer_c.Host.Control.Life.{HasPort, queued, host_stop_lem, host_init-Begun}
use dtplayer_c.Host.Api.{fresh_host, dthost_init, dthost_stop}

held-nil : (b : Bool) → held b [] ≡ []
held-nil true = refl
held-nil false = refl

queued-nil : (port : Port) → queued no_cells port ≡ []
queued-nil port =
    rw
      (
        held-nil port.param.has_audio,
        held-nil port.param.has_video,
        held-nil port.param.has_subtitle,
      )
      refl

module _ {W : Type 0} (m : Outputs W) where
  stop-returns :
      (c : Host) (e : Env W)
      → HasPort no_cells c e
      → (e' : Env W) × (dthost_stop m (some c) e ≡ some (pos 0, [], e'))
  unfolding dthost_stop
  stop-returns c e (port, is_port, v) =
      let (c', e', s, gone, called) = host_stop_lem m c e port is_port v in
      (e', rw (s, queued-nil port) refl)

  -- `dthost_init` always returns: with a failure and no host, or with 0 and a host that
  -- `dthost_stop` can stop at once, where no packet is left to free.
  pub dthost_init-stop :
      (ctx room : Bool) (p : Para) (e : Env W)
      → (ret : ℤ) × (host : Option Host) × (e' : Env W) × (dthost_init m ctx room none p e
          ≡ some (ret, host, e'))
        × (((is_negative ret ≡ true) × (host ≡ none))
            ⊎ ((ret ≡ pos 0) × ((e'' : Env W) × (dthost_stop m host e' ≡ some (pos 0, [], e'')))))
  unfolding dthost_init is_negative
  dthost_init-stop false room p e = (negsuc 0, none, e, refl, inl (refl, refl))
  dthost_init-stop true room p e =
      let (ret, c, e', begun, outcome) = host_init-Begun m room (fresh_host p) e in
      elim outcome [
        | inl bad ↦ (negsuc 0, none, e', rw (begun, bad) refl, inl (refl, refl))
        | inr (ok, there) ↦
            (ret, some c, e', rw (begun, ok) refl, inr (ok, stop-returns c e' there))
      ]
