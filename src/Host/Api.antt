-- ===== src/Host/Api.antt =====
-- dthost/dthost_api.c: the calls of the player and of the decoders. `host_priv` is `none` where it
-- is NULL. The times go through a pointer: what a command writes there is a `Value`.
pub mod Info
pub mod Life
use dtplayer_c.Host.Commands.{
  dthost_get_first_apts, dthost_get_first_vpts, dthost_get_drop_done, dthost_set_drop_done,
  dthost_get_apts, dthost_get_vpts, dthost_get_spts, dthost_get_systime, dthost_get_current_time,
  dthost_get_avdiff, dthost_update_vpts, dthost_update_spts, dthost_update_systime,
  dthost_clear_discontinue_flag, dthost_set_first_apts, dthost_set_first_vpts, dthost_update_apts,
  dthost_get_state, dthost_get_render_closed,
}
use dtplayer_c.Base.{
  ℕ, Bool, true, false, if◌then◌else◌, Option, none, some, ◌>>=◌, ◌>>◌, List, [], ℤ, pos, negsuc,
  eqb_ℤ, int32,
}
use dtplayer_c.Heap.{Heap, Ptr}
use dtplayer_c.Media.{MediaType, Packet}
use dtplayer_c.Host.{Host, Para, Outputs, Env, audio_master, first_audio_decode, first_video_decode}
use dtplayer_c.Host.Clock.{
  host_get_apts, host_get_vpts, host_get_spts, host_get_systime, host_get_avdiff,
  host_get_current_time, host_update_apts, host_update_vpts, host_update_spts, host_update_systime,
  host_clear_discontinue_flag,
}
use dtplayer_c.Host.Control.{
  is_negative, host_start, host_pause, host_resume, host_stop, host_init, host_video_resize,
}
use dtplayer_c.Host.State.{
  HostState, host_write_frame, host_read_frame, host_get_state, host_get_aout_closed,
  host_get_out_closed,
}

-- `enum HOST_CMD`; GET_DISCONTINUE_FLAG is not compiled.
pub data Command : Type 0 where
  unknown_command : Command
  set_first_apts get_first_apts set_first_vpts get_first_vpts set_drop_done get_drop_done : Command
  get_apts set_apts get_vpts set_vpts get_spts set_spts get_systime set_systime : Command
  get_avdiff get_current_time get_discontinue_flag set_discontinue_flag : Command
  get_render_closed get_state : Command

-- What `*arg` holds: a number, or a state.
pub data Value : Type 0 where
  number : ℤ → Value
  state : HostState → Value

-- DTERROR_INVALID_CMD
abbrev pub invalid_cmd : ℤ
invalid_cmd = negsuc 199

-- The context as `memset` leaves it, with the parameters copied in.
abbrev pub fresh_host : Para → Host
fresh_host p = record {
  para = p;
  av_sync = audio_master;
  sys_time_start = pos 0;
  sys_time_start_time = pos 0;
  sys_time_first = pos 0;
  sys_time_last = pos 0;
  sys_time_current = pos 0;
  pts_audio_first = pos 0;
  pts_audio_last = pos 0;
  pts_audio_current = pos 0;
  audio_discontinue_point = pos 0;
  audio_discontinue_flag = false;
  audio_discontinue_step = pos 0;
  pts_video_first = pos 0;
  pts_video_last = pos 0;
  pts_video_current = pos 0;
  video_discontinue_point = pos 0;
  video_discontinue_flag = false;
  video_discontinue_step = pos 0;
  pts_sub = pos 0;
  sync_enable = false;
  sync_mode = audio_master;
  av_diff = pos 0;
  drop_done = false;
  port_priv = none;
}

module _ {W : Type 0} where
  -- The first `Bool` is whether `malloc` gives a context, the second whether it gives a port.
  unfoldable pub dthost_init :
      Outputs W → Bool → Bool → Option Host → Para → Env W → Option (ℤ × Option Host × Env W)
  dthost_init m ctx room (some c) para e = some (negsuc 0, some c, e)
  dthost_init m false room none para e = some (negsuc 0, none, e)
  dthost_init m true room none para e = do
    (ret, c, e') ← host_init m room (fresh_host para) e
    if is_negative ret then some (negsuc 0, none, e') else some (ret, some c, e')

  -- The context is freed.
  unfoldable pub dthost_stop : Outputs W → Option Host → Env W → Option (ℤ × List Packet × Env W)
  dthost_stop m none e = some (negsuc 0, [], e)
  dthost_stop m (some c) e = do (ret, freed, _, e') ← host_stop m c e; some (ret, freed, e')

  unfoldable pub dthost_start : Outputs W → Bool → Host → W → ℤ × Host × W
  dthost_start m host_drop c w = host_start m host_drop c w

  unfoldable pub dthost_pause : Outputs W → Host → W → ℤ × W
  dthost_pause m c w = host_pause m c w

  unfoldable pub dthost_resume : Outputs W → ℤ → Host → W → ℤ × Host × W
  dthost_resume m now c w = host_resume m now c w

  unfoldable pub dthost_video_resize : Outputs W → Host → ℤ → ℤ → W → ℤ × Host × W
  dthost_video_resize m c w h s = host_video_resize m c w h s

  unfoldable pub dthost_read_frame :
      Option Host → MediaType → Env W → Option (ℤ × Option Packet × Option Host × Env W)
  dthost_read_frame none type e = some (negsuc 0, none, none, e)
  dthost_read_frame (some c) type e = do
    (ret, frame, c', e') ← host_read_frame c type e
    some (ret, frame, some c', e')

  unfoldable pub dthost_write_frame :
      (Heap Packet → Ptr)
      → Option Host
      → Packet
      → MediaType
      → Env W
      → Option (ℤ × Option Host × Env W)
  dthost_write_frame malloc none frame type e = some (negsuc 0, none, e)
  dthost_write_frame malloc (some c) frame type e = do
    (ret, c', e') ← host_write_frame malloc c frame type e
    some (ret, some c', e')

  -- The status, the context and the outputs after the `switch` of `dthost_set_info`. The statuses
  -- of the functions behind it are dropped.
  unfoldable pub set_info :
      Outputs W → ℤ → Option Host → Command → ℤ → W → Option (ℤ × Option Host × W)
  set_info m now c set_first_apts arg w =
      let (_, c', w') = dthost_set_first_apts m c arg w in some (pos 0, c', w')
  set_info m now c set_first_vpts arg w =
      let (_, c', w') = dthost_set_first_vpts m c arg w in some (pos 0, c', w')
  set_info m now c set_drop_done arg w = some (pos 0, dthost_set_drop_done c, w)
  set_info m now c set_apts arg w = do
    (_, c') ← dthost_update_apts m now c arg w
    some (pos 0, c', w)
  set_info m now c set_vpts arg w = some (pos 0, dthost_update_vpts now c arg, w)
  set_info m now c set_spts arg w = some (pos 0, dthost_update_spts c arg, w)
  set_info m now c set_systime arg w = some (pos 0, dthost_update_systime now c arg, w)
  set_info m now c set_discontinue_flag arg w =
      some (pos 0, (if eqb_ℤ arg (pos 0) then dthost_clear_discontinue_flag c else c), w)
  set_info m now c _ arg w = some (invalid_cmd, c, w)

  unfoldable pub dthost_set_info :
      Outputs W → ℤ → Option Host → Command → ℤ → W → Option (ℤ × Option Host × W)
  dthost_set_info m now none cmd arg w = some (negsuc 0, none, w)
  dthost_set_info m now (some c) cmd arg w = set_info m now (some c) cmd arg w

  -- The `switch` of `dthost_get_info`; `old` is what `*arg` holds before.
  unfoldable pub get_info :
      Outputs W → Option Host → Command → HostState → W → Option (ℤ × Option Value × Option Host)
  get_info m c get_first_apts old w = some (pos 0, some (number (dthost_get_first_apts c)), c)
  get_info m c get_first_vpts old w = some (pos 0, some (number (dthost_get_first_vpts c)), c)
  get_info m c get_drop_done old w = some (pos 0, some (number (dthost_get_drop_done c)), c)
  get_info m c get_apts old w = some (pos 0, some (number (dthost_get_apts c)), c)
  get_info m c get_vpts old w = some (pos 0, some (number (dthost_get_vpts c)), c)
  get_info m c get_spts old w = some (pos 0, some (number (dthost_get_spts c)), c)
  get_info m c get_systime old w = some (pos 0, some (number (dthost_get_systime c)), c)
  get_info m c get_avdiff old w =
      let (d, c') = dthost_get_avdiff c in some (pos 0, some (number d), c')
  get_info m c get_current_time old w = some (pos 0, some (number (dthost_get_current_time c)), c)
  get_info m c get_render_closed old w = do
    closed ← dthost_get_render_closed m c w
    some (pos 0, some (number closed), c)
  get_info m c get_state old w = do
    (ret, s) ← dthost_get_state m c w old
    some (ret, some (state s), c)
  get_info m c _ old w = some (invalid_cmd, none, c)

  unfoldable pub dthost_get_info :
      Outputs W → Option Host → Command → HostState → W → Option (ℤ × Option Value × Option Host)
  dthost_get_info m none cmd old w = some (negsuc 0, none, none)
  dthost_get_info m (some c) cmd old w = get_info m (some c) cmd old w
