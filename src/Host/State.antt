-- ===== src/Host/State.antt =====
-- Parts 3 and 4 of dthost/dthost.c: frames through the port, and what the player asks for. A call
-- through a port that is not there is a fault.
use dtplayer_c.Base.{
  ℕ, Bool, true, false, not, ◌&&◌, if◌then◌else◌, Option, none, some, ◌>>=◌, ltb, ℤ, pos, negsuc,
}
use dtplayer_c.Heap.{Heap, Ptr}
use dtplayer_c.Media.{MediaType, audio, video, subtitle, Packet}
use dtplayer_c.Port.{Port, port_write_frame, port_read_frame, port_get_state}
use dtplayer_c.Host.{Host, Outputs, Env}

unfoldable pub is_subtitle : MediaType → Bool
is_subtitle subtitle = true
is_subtitle _ = false

-- `buf_state.data_len` after `dtport_get_state`.
unfoldable pub data_len : Port → MediaType → ℕ
data_len c type = elim (port_get_state c type).1 [ none ↦ 0 | some (bytes, _) ↦ bytes ]

-- `host_state_t`
pub record HostState : Type 0 where
  pub abuf_level : ℤ
  pub vbuf_level : ℤ
  pub sbuf_level : ℤ
  pub adec_err_cnt : ℤ
  pub vdec_err_cnt : ℤ
  pub sdec_err_cnt : ℤ
  pub sys_time_start : ℤ
  pub sys_time_current : ℤ
  pub pts_audio_first : ℤ
  pub pts_audio_current : ℤ
  pub audio_discontinue_flag : Bool
  pub audio_discontinue_point : ℤ
  pub adec_last_ms : ℤ
  pub pts_video_first : ℤ
  pub pts_video_current : ℤ
  pub video_discontinue_flag : Bool
  pub video_discontinue_point : ℤ
  pub vdec_last_ms : ℤ
  pub vdec_type : ℤ

unfoldable pub with_port {ℓ} : {A : Type ℓ} → Host → (Port → Option A) → Option A
with_port c f = do port ← c.port_priv; f port

module _ {W : Type 0} where
  unfoldable pub host_write_frame :
      (Heap Packet → Ptr) → Host → Packet → MediaType → Env W → Option (ℤ × Host × Env W)
  host_write_frame malloc c frame type e =
      if not c.para.has_sub && is_subtitle type then some (pos 0, c, e) else do
        port ← c.port_priv
        (ret, port', h') ← port_write_frame malloc e.setting port frame type e.heap
        some (ret, record c { port_priv = some port' }, record e { heap = h' })

  -- `hctx` is not NULL here.
  unfoldable pub host_read_frame :
      Host → MediaType → Env W → Option (ℤ × Option Packet × Host × Env W)
  host_read_frame c type e = elim c.port_priv [
    | none ↦ some (negsuc 0, none, c, e)
    | some port ↦ do
      (ret, frame, port', h') ← port_read_frame port type e.heap
      some (ret, frame, record c { port_priv = some port' }, record e { heap = h' })
  ]

  module _ (m : Outputs W) where
    unfoldable pub audio_part : Host → W → HostState → Option HostState
    audio_part c w state =
        if c.para.has_audio
        then with_port c (λ port. some (record state {
          abuf_level = pos (data_len port audio);
          adec_err_cnt = (m.audio_state w).error_count;
          adec_last_ms = (m.audio_state w).last_ms;
        }))
        else some (record state { abuf_level = negsuc 0; adec_err_cnt = negsuc 0 })

    unfoldable pub video_part : Host → W → HostState → Option HostState
    video_part c w state =
        if c.para.has_video
        then with_port c (λ port. some (record state {
          vbuf_level = pos (data_len port video);
          vdec_err_cnt = (m.video_state w).error_count;
          vdec_last_ms = (m.video_state w).last_ms;
          vdec_type = (m.video_state w).dec_type;
        }))
        else some (record state { vbuf_level = negsuc 0; vdec_err_cnt = negsuc 0 })

    unfoldable pub sub_part : Host → HostState → Option HostState
    sub_part c state =
        if c.para.has_sub
        then with_port c (λ port.
          some (record state { sbuf_level = pos (data_len port subtitle); sdec_err_cnt = pos 0 }))
        else some (record state { sbuf_level = negsuc 0; sdec_err_cnt = negsuc 0 })

    unfoldable pub clock_part : Host → HostState → HostState
    clock_part c state = record state {
      sys_time_start = c.sys_time_start;
      sys_time_current = c.sys_time_current;
      pts_audio_first = c.pts_audio_first;
      pts_audio_current = c.pts_audio_current;
      audio_discontinue_flag = c.audio_discontinue_flag;
      audio_discontinue_point = c.audio_discontinue_point;
      pts_video_first = c.pts_video_first;
      pts_video_current = c.pts_video_current;
      video_discontinue_flag = c.video_discontinue_flag;
      video_discontinue_point = c.video_discontinue_point;
    }

    -- `state` is what the caller's structure held before.
    unfoldable pub host_get_state : Host → W → HostState → Option (ℤ × HostState)
    host_get_state c w state = do
      s1 ← audio_part c w state
      s2 ← video_part c w s1
      s3 ← sub_part c s2
      some (pos 0, clock_part c s3)

    -- An output is closed only where no data waits for it.
    unfoldable pub host_get_aout_closed : Host → W → Option Bool
    host_get_aout_closed c w =
        if c.para.has_audio
        then with_port c
            (λ port. some (if ltb 0 (data_len port audio) then false else m.audio_out_closed w))
        else some true

    unfoldable pub host_get_vout_closed : Host → W → Option Bool
    host_get_vout_closed c w =
        if c.para.has_video
        then with_port c
            (λ port. some (if ltb 0 (data_len port video) then false else m.video_out_closed w))
        else some true

    unfoldable pub host_get_out_closed : Host → W → Option Bool
    host_get_out_closed c w = do
      aout_close ← host_get_aout_closed c w
      vout_close ← host_get_vout_closed c w
      some (aout_close && vout_close)
