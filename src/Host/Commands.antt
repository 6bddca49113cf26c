-- ===== src/Host/Commands.antt =====
-- The functions behind the commands of dthost/dthost_api.c. `host_priv` is `none` where it is NULL:
-- a getter answers -1 or 0 then, and a setter does nothing.
use dtplayer_c.Base.{Bool, true, if◌then◌else◌, Option, none, some, ◌>>=◌, ℤ, pos, negsuc, int32}
use dtplayer_c.Host.{Host, Outputs, first_audio_decode, first_video_decode}
use dtplayer_c.Host.Clock.{
  host_get_apts, host_get_vpts, host_get_spts, host_get_systime, host_get_avdiff,
  host_get_current_time, host_update_apts, host_update_vpts, host_update_spts, host_update_systime,
  host_clear_discontinue_flag,
}
use dtplayer_c.Host.State.{HostState, host_get_state, host_get_aout_closed, host_get_out_closed}

abbrev pub flag : Bool → ℤ
flag b = if b then pos 1 else pos 0

unfoldable pub dthost_get_first_apts : Option Host → ℤ
dthost_get_first_apts none = negsuc 0
dthost_get_first_apts (some c) = c.pts_audio_first

unfoldable pub dthost_get_first_vpts : Option Host → ℤ
dthost_get_first_vpts none = negsuc 0
dthost_get_first_vpts (some c) = c.pts_video_first

unfoldable pub dthost_get_drop_done : Option Host → ℤ
dthost_get_drop_done none = negsuc 0
dthost_get_drop_done (some c) = flag c.drop_done

unfoldable pub dthost_set_drop_done : Option Host → Option Host
dthost_set_drop_done none = none
dthost_set_drop_done (some c) = some (record c { drop_done = true })

unfoldable pub dthost_get_apts : Option Host → ℤ
dthost_get_apts none = negsuc 0
dthost_get_apts (some c) = host_get_apts c

unfoldable pub dthost_get_vpts : Option Host → ℤ
dthost_get_vpts none = negsuc 0
dthost_get_vpts (some c) = host_get_vpts c

unfoldable pub dthost_get_spts : Option Host → ℤ
dthost_get_spts none = negsuc 0
dthost_get_spts (some c) = host_get_spts c

unfoldable pub dthost_get_systime : Option Host → ℤ
dthost_get_systime none = negsuc 0
dthost_get_systime (some c) = host_get_systime c

unfoldable pub dthost_get_current_time : Option Host → ℤ
dthost_get_current_time none = negsuc 0
dthost_get_current_time (some c) = host_get_current_time c

-- The difference is cut to an `int` on the way.
unfoldable pub dthost_get_avdiff : Option Host → ℤ × Option Host
dthost_get_avdiff none = (pos 0, none)
dthost_get_avdiff (some c) = let (d, c') = host_get_avdiff c in (int32 d, some c')

unfoldable pub dthost_update_vpts : ℤ → Option Host → ℤ → Option Host
dthost_update_vpts now none vpts = none
dthost_update_vpts now (some c) vpts = some (host_update_vpts now c vpts).1

unfoldable pub dthost_update_spts : Option Host → ℤ → Option Host
dthost_update_spts none spts = none
dthost_update_spts (some c) spts = some (host_update_spts c spts).1

unfoldable pub dthost_update_systime : ℤ → Option Host → ℤ → Option Host
dthost_update_systime now none systime = none
dthost_update_systime now (some c) systime = some (host_update_systime now c systime).1

unfoldable pub dthost_clear_discontinue_flag : Option Host → Option Host
dthost_clear_discontinue_flag none = none
dthost_clear_discontinue_flag (some c) = some (host_clear_discontinue_flag c).1

module _ {W : Type 0} (m : Outputs W) where
  unfoldable pub dthost_set_first_apts : Option Host → ℤ → W → ℤ × Option Host × W
  dthost_set_first_apts none pts w = (negsuc 0, none, w)
  dthost_set_first_apts (some c) pts w = (
    pos 0,
    some (record c { pts_audio_first = pts; pts_audio_last = pts; pts_audio_current = pts }),
    m.notify first_audio_decode w,
  )

  unfoldable pub dthost_set_first_vpts : Option Host → ℤ → W → ℤ × Option Host × W
  dthost_set_first_vpts none pts w = (negsuc 0, none, w)
  dthost_set_first_vpts (some c) pts w = (
    pos 0,
    some (record c { pts_video_first = pts; pts_video_last = pts; pts_video_current = pts }),
    m.notify first_video_decode w,
  )

  -- `none`: the audio output is asked through a port that is not there.
  unfoldable pub dthost_update_apts : ℤ → Option Host → ℤ → W → Option (ℤ × Option Host)
  dthost_update_apts now none pts w = some (negsuc 0, none)
  dthost_update_apts now (some c) pts w = do
    aout_close ← host_get_aout_closed m c w
    let (ret, c') = host_update_apts aout_close now c pts
    some (ret, some c')

  unfoldable pub dthost_get_state : Option Host → W → HostState → Option (ℤ × HostState)
  dthost_get_state none w state = some (negsuc 0, state)
  dthost_get_state (some c) w state = do (_, s) ← host_get_state m c w state; some (pos 0, s)

  unfoldable pub dthost_get_render_closed : Option Host → W → Option ℤ
  dthost_get_render_closed none w = some (negsuc 0)
  dthost_get_render_closed (some c) w = do closed ← host_get_out_closed m c w; some (flag closed)
