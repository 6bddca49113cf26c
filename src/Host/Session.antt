-- ===== src/Host/Session.antt =====
-- A run of a session with the host, from `dthost_init` to `dthost_stop`, with the calls that the
-- outputs get.
use dtplayer_c.Host.Commands.{
  dthost_get_drop_done, dthost_set_drop_done, dthost_update_systime, dthost_clear_discontinue_flag,
  dthost_get_systime, dthost_get_current_time, dthost_get_avdiff, dthost_get_render_closed,
  dthost_get_state,
}
use dtplayer_c.Heap.{write, load, set_next, free}
use dtplayer_c.PacketQueue.{
  link_frame, packet_queue_put_frame, packet_queue_put, unlink_first, packet_queue_get_frame,
  packet_queue_get, flush_loop, packet_queue_flush, packet_queue_release, packet_queue_init,
}
use dtplayer_c.Port.{
  port_init, init_if, complete_setting, default_to, port_stop, release_if, port_write_frame,
  write_slot, port_read_frame, set_queue, port_get_state, queue_of, slot_of, limit, limits,
  audio_write_enable, video_write_enable,
}
use dtplayer_c.Base.{
  ◌≡◌, refl, Bool, true, false, Option, none, some, ◌>>=◌, List, [], ◌∷◌, ℤ, pos, sub_64, add_64,
  mul_64, quot, int64, int32, wrap, ◌-ℤ◌, ◌+ℤ◌,
}
use dtplayer_c.Media.{Packet, video}
use dtplayer_c.PacketQueue.Tests.{sample, first_free}
use dtplayer_c.Host.{Outputs}
use dtplayer_c.Host.Clock.{
  host_clear_discontinue_flag, host_get_current_time, host_reset_systime, host_get_vpts,
  host_get_systime, host_get_avdiff, avdiff_of, host_update_systime, is_invalid,
}
use dtplayer_c.Host.Control.{
  host_pause, host_resume, host_start, host_stop, host_init, init_fields, init_sub, init_audio,
  init_video, is_negative, call_if, do_if, start_outputs, stop_outputs, restart_clock,
  host_video_resize, dtport_init, dtport_stop, port_para,
}
use dtplayer_c.Host.State.{
  host_get_state, host_get_out_closed, host_get_aout_closed, host_get_vout_closed, audio_part,
  video_part, sub_part, clock_part, with_port, data_len, is_subtitle, host_write_frame,
  host_read_frame,
}
use dtplayer_c.Host.Api.{
  dthost_init, dthost_start, dthost_pause, dthost_resume, dthost_video_resize, dthost_read_frame,
  dthost_write_frame, dthost_stop, Value, number, get_drop_done, get_info, dthost_get_info,
  set_info, dthost_set_info, set_systime, set_discontinue_flag, set_drop_done, get_systime,
  get_current_time, get_avdiff, get_render_closed, get_state,
}
use dtplayer_c.Host.Tests.{
  Call, outputs, both, playing, env, blank, init_a, start_a, pause_a, resume_a, stop_a, init_v,
  start_v, pause_v, resume_v, resize_v, stop_v,
}

abbrev good : Outputs (List Call)
good = outputs (pos 0)

-- Statuses, the level reported, the packet read back, and the calls of the outputs, latest first.
session : Option (List ℤ × Option Value × Option Packet × List Call)
session = do
  (r1, h1, e1) ← dthost_init good true true none both env
  c1 ← h1
  let (r2, c2, w2) = dthost_start good false c1 e1.outputs
  (r3, h3, e3) ←
      dthost_write_frame first_free (some c2) (sample video 7) video (record e1 { outputs = w2 })
  (r4, v4, h4) ← dthost_get_info good h3 get_drop_done blank e3.outputs
  (r5, f5, h5, e5) ← dthost_read_frame h4 video e3
  c5 ← h5
  let (r6, w6) = dthost_pause good c5 e5.outputs
  let (r7, c7, w7) = dthost_resume good (pos 1000) c5 w6
  let (r8, c8, w8) = dthost_video_resize good c7 (pos 10) (pos 20) w7
  (r9, freed, e9) ← dthost_stop good (some c8) (record e5 { outputs = w8 })
  some (r1 ∷ r2 ∷ r3 ∷ r4 ∷ r5 ∷ r6 ∷ r7 ∷ r8 ∷ r9 ∷ [], v4, f5, e9.outputs)

session-ok :
    session
    ≡ some (
      pos 0 ∷ pos 0 ∷ pos 0 ∷ pos 0 ∷ pos 0 ∷ pos 0 ∷ pos 0 ∷ pos 0 ∷ pos 0 ∷ [],
      some (number (pos 1)),
      some (sample video 7),
      stop_v ∷ stop_a ∷ resume_a ∷ resize_v ∷ pause_v ∷ pause_a ∷ resume_v ∷ resume_a ∷ pause_v
          ∷ pause_a ∷ start_v ∷ start_a ∷ init_a ∷ init_v ∷ [],
    )
unfolding session dthost_start dthost_pause dthost_resume dthost_video_resize dthost_read_frame
    dthost_write_frame dthost_stop dthost_init get_info dthost_get_info dthost_get_drop_done
    host_pause host_resume host_start host_stop host_init init_fields init_sub init_audio init_video
    is_negative call_if do_if start_outputs stop_outputs restart_clock host_video_resize dtport_init
    dtport_stop port_para is_subtitle host_write_frame host_read_frame host_reset_systime
    host_get_vpts port_init init_if complete_setting default_to port_stop release_if
    port_write_frame write_slot port_read_frame set_queue queue_of slot_of limit limits
    audio_write_enable video_write_enable link_frame packet_queue_put_frame packet_queue_put
    unlink_first packet_queue_get_frame packet_queue_get flush_loop packet_queue_flush
    packet_queue_release packet_queue_init write load set_next free
session-ok = refl

-- What is told of a host that plays: the video level, the clock, and that its outputs are open.
told : Option (ℤ × ℤ × ℤ × Bool)
told = do
  (r, s) ← host_get_state good playing [] blank
  closed ← host_get_out_closed good playing []
  some (
    s.abuf_level,
    s.vbuf_level,
    host_get_current_time (host_clear_discontinue_flag playing).1,
    closed,
  )

told-ok : told ≡ some (pos 0, pos 5, pos 9000, false)
unfolding told host_get_state host_get_out_closed host_get_aout_closed host_get_vout_closed
    audio_part video_part sub_part clock_part with_port data_len host_clear_discontinue_flag
    host_get_current_time port_get_state slot_of queue_of
told-ok = refl

-- Answers to commands, a millisecond after the clock was set: two times, the difference between
-- audio and video in milliseconds, the flag for dropping, and whether the outputs are closed.
answers : Option (List (Option Value) × ℤ)
answers = do
  (_, h1, w1) ← dthost_set_info good (pos 1500) (some playing) set_systime (pos 0) []
  (_, h2, w2) ← dthost_set_info good (pos 1500) h1 set_discontinue_flag (pos 0) w1
  (_, h3, w3) ← dthost_set_info good (pos 1500) h2 set_drop_done (pos 0) w2
  (_, v1, _) ← dthost_get_info good h3 get_systime blank w3
  (_, v2, _) ← dthost_get_info good h3 get_current_time blank w3
  (_, v3, h4) ← dthost_get_info good h3 get_avdiff blank w3
  (_, v4, _) ← dthost_get_info good h4 get_drop_done blank w3
  (_, v5, _) ← dthost_get_info good h4 get_render_closed blank w3
  (ret, _, _) ← dthost_get_info good h4 get_state blank w3
  some (v1 ∷ v2 ∷ v3 ∷ v4 ∷ v5 ∷ [], ret)

answers-ok :
    answers
    ≡ some (
      some (number (pos 9090))
          ∷ some (number (pos 9090))
          ∷ some (number (pos 1900))
          ∷ some (number (pos 1))
          ∷ some (number (pos 0))
          ∷ [],
      pos 0,
    )
unfolding answers set_info dthost_set_info get_info dthost_get_info dthost_set_drop_done
    dthost_update_systime dthost_clear_discontinue_flag dthost_get_systime dthost_get_current_time
    dthost_get_avdiff dthost_get_drop_done dthost_get_render_closed dthost_get_state host_get_state
    host_get_out_closed host_get_aout_closed host_get_vout_closed audio_part video_part sub_part
    clock_part with_port data_len host_clear_discontinue_flag host_get_current_time host_get_systime
    host_get_avdiff avdiff_of host_update_systime is_invalid port_get_state slot_of queue_of sub_64
    add_64 mul_64 quot int64 int32 wrap ◌-ℤ◌ ◌+ℤ◌
answers-ok = refl
