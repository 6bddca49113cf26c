-- ===== src/Host.antt =====
-- dthost/dthost.c and dthost/dthost_api.c: the host joins the port with the audio, video and
-- subtitle outputs, and keeps the clock that they are synchronised by.
pub mod Clock
pub mod Control
pub mod State
pub mod Commands
pub mod Api
pub mod Tests
mod Session
use dtplayer_c.Base.{Bool, true, false, Option, ℤ, negsuc}
use dtplayer_c.Heap.{Heap}
use dtplayer_c.Media.{Packet}
use dtplayer_c.Port.{Port, Setting}

-- `dtp_sync_mode_t`
pub data SyncMode : Type 0 where
  audio_master video_master external_clock : SyncMode

abbrev pub is_video_master : SyncMode → Bool
is_video_master video_master = true
is_video_master _ = false

-- `dthost_para_t`, less the formats that the host only copies to the outputs.
pub record Para : Type 0 where
  pub has_audio : Bool
  pub has_video : Bool
  pub has_sub : Bool
  pub sync_enable : Bool
  pub video_dest_width : ℤ
  pub video_dest_height : ℤ

-- `dthost_context_t`, without the outputs' contexts and the callback, which are in `Env` and
-- `Outputs`. `port_priv` is `none` where there is no live port.
pub record Host : Type 0 where
  pub para : Para
  pub av_sync : SyncMode
  pub sys_time_start : ℤ
  pub sys_time_start_time : ℤ
  pub sys_time_first : ℤ
  pub sys_time_last : ℤ
  pub sys_time_current : ℤ
  pub pts_audio_first : ℤ
  pub pts_audio_last : ℤ
  pub pts_audio_current : ℤ
  pub audio_discontinue_point : ℤ
  pub audio_discontinue_flag : Bool
  pub audio_discontinue_step : ℤ
  pub pts_video_first : ℤ
  pub pts_video_last : ℤ
  pub pts_video_current : ℤ
  pub video_discontinue_point : ℤ
  pub video_discontinue_flag : Bool
  pub video_discontinue_step : ℤ
  pub pts_sub : ℤ
  pub sync_enable : Bool
  pub sync_mode : SyncMode
  pub av_diff : ℤ
  pub drop_done : Bool
  pub port_priv : Option Port

-- DT_NOPTS_VALUE
abbrev pub no_pts : ℤ
no_pts = negsuc 9223372036854775807

-- The events that the host hands to the player.
pub data Event : Type 0 where
  first_audio_decode first_video_decode : Event

-- What the host reads of `dec_state_t`.
pub record DecState : Type 0 where
  pub error_count : ℤ
  pub last_ms : ℤ
  pub dec_type : ℤ

-- The calls into dtaudio, dtvideo and dtsub, on a state `W` that they share, and the callback to
-- the player. An init returns its status, and whether it has set the context that it was to set.
pub record Outputs (W : Type 0) : Type 0 where
  pub audio_init : Para → W → ℤ × Bool × W
  pub audio_start : W → ℤ × W
  pub audio_pause : W → ℤ × W
  pub audio_resume : W → ℤ × W
  pub audio_stop : W → ℤ × W
  pub audio_out_closed : W → Bool
  pub audio_state : W → DecState
  pub video_init : Para → W → ℤ × Bool × W
  pub video_start : W → ℤ × W
  pub video_pause : W → ℤ × W
  pub video_resume : W → ℤ × W
  pub video_stop : W → ℤ × W
  pub video_resize : ℤ → ℤ → W → ℤ × W
  pub video_out_closed : W → Bool
  pub video_state : W → DecState
  pub sub_init : Para → W → ℤ × W
  pub sub_start : W → ℤ × W
  pub sub_stop : W → ℤ × W
  pub notify : Event → W → W

-- The outputs' state, the packets' nodes, and the fields of `dtp_setting` that the port completes.
pub record Env (W : Type 0) : Type 0 where
  pub outputs : W
  pub heap : Heap Packet
  pub setting : Setting
