-- ===== src/Host/Api/Info.antt =====
-- `dthost_set_info` and `dthost_get_info` on the times of the host.
use dtplayer_c.Host.Commands.{
  dthost_set_first_apts, dthost_set_first_vpts, dthost_update_apts, dthost_update_vpts,
  dthost_update_spts, dthost_get_first_apts, dthost_get_first_vpts, dthost_get_apts,
  dthost_get_vpts, dthost_get_spts,
}
use dtplayer_c.Base.{
  ◌≡◌, refl, ap, Bool, true, false, inl, inr, Bool-cases, ltb, if◌then◌else◌, some, ℤ, pos,
}
use dtplayer_c.Media.{audio}
use dtplayer_c.Port.{Port}
use dtplayer_c.Host.{Host, Outputs}
use dtplayer_c.Host.Clock.{
  host_get_apts, host_get_vpts, host_get_spts, host_update_apts, host_update_vpts, host_update_spts,
}
use dtplayer_c.Host.Clock.Store.{host_update_apts-apts, host_update_vpts-vpts}
use dtplayer_c.Host.State.{HostState, host_get_aout_closed, with_port, data_len}
use dtplayer_c.Host.Api
use dtplayer_c.Host.Api.{
  Command, Value, number, set_first_apts, get_first_apts, set_first_vpts, get_first_vpts, get_apts,
  set_apts, get_vpts, set_vpts, get_spts, set_spts, dthost_set_info, dthost_get_info,
}

-- The second command reads what the first one sets.
pub data Reads : Command → Command → Type 0 where
  first_audio : Reads set_first_apts get_first_apts
  first_audio_now : Reads set_first_apts get_apts
  first_video : Reads set_first_vpts get_first_vpts
  first_video_now : Reads set_first_vpts get_vpts
  audio_now : Reads set_apts get_apts
  video_now : Reads set_vpts get_vpts
  sub_now : Reads set_spts get_spts

module _ {W : Type 0} (m : Outputs W) where
  aout_closed-some :
      (c : Host) (w : W) (port : Port)
      → c.port_priv ≡ some port
      → (b : Bool) × (host_get_aout_closed m c w ≡ some b)
  unfolding host_get_aout_closed with_port
  aout_closed-some c w port e = elim (Bool-cases c.para.has_audio) [
    | inl on ↦ ((if ltb 0 (data_len port audio) then false else m.audio_out_closed w), simp (on, e))
    | inr off ↦ (true, simp off)
  ]

  -- With a live port, a time that `dthost_set_info` sets is the time that `dthost_get_info` returns
  -- next, for the first audio and video times and the current audio, video and subtitle times.
  pub dthost_set_info-get_info :
      {cmd cmd' : Command} (now : ℤ) (c : Host) (port : Port) (t : ℤ) (old : HostState) (w : W)
      → Reads cmd cmd'
      → c.port_priv ≡ some port
      → (c' : Host) × (w' : W) × (dthost_set_info m now (some c) cmd t w
          ≡ some (pos 0, some c', w'))
        × (dthost_get_info m (some c') cmd' old w' ≡ some (pos 0, some (number t), some c'))
  unfolding dthost_set_info Api.set_info dthost_get_info Api.get_info dthost_set_first_apts
      dthost_set_first_vpts dthost_update_apts dthost_update_vpts dthost_update_spts
      dthost_get_first_apts dthost_get_first_vpts dthost_get_apts dthost_get_vpts dthost_get_spts
      host_get_apts host_get_vpts host_get_spts host_update_spts
  dthost_set_info-get_info now c port t old w first_audio e = (_, _, refl, refl)
  dthost_set_info-get_info now c port t old w first_audio_now e = (_, _, refl, refl)
  dthost_set_info-get_info now c port t old w first_video e = (_, _, refl, refl)
  dthost_set_info-get_info now c port t old w first_video_now e = (_, _, refl, refl)
  dthost_set_info-get_info now c port t old w audio_now e =
      let (b, closed) = aout_closed-some c w port e in
      (
        (host_update_apts b now c t).1,
        w,
        rw closed refl,
        ap (λ x. some (pos 0, some (number x), some (host_update_apts b now c t).1))
            (host_update_apts-apts b now c t),
      )
  dthost_set_info-get_info now c port t old w video_now e =
      let c' : Host = (host_update_vpts now c t).1 in
      (
        c',
        w,
        refl,
        ap (λ x. some (pos 0, some (number x), some c')) (host_update_vpts-vpts now c t),
      )
  dthost_set_info-get_info now c port t old w sub_now e = (_, _, refl, refl)
