-- ===== src/Player/Control.antt =====
-- What the events of the player do, of dtplayer/dtplayer.c.
use dtplayer_c.Base.{
  ℕ, Bool, true, false, Option, some, List, [], ◌∷◌, if◌then◌else◌, ◌>>=◌, ◌&&◌, ℤ, pos, negsuc,
  eqb_ℤ, mul_64,
}
use dtplayer_c.Player.{
  PlayerStatus, init_exit, start, running, buffering, paused, resume, seek_enter, seek_exit, error,
  stop, below, same, State, Ctrl, PlayerEvent, start_event, pause_event, resume_event, stop_event,
  other_event, seek_event, buffering_end, Parts, Context, get_player_status, set_player_status,
  player_handle_cb, notify, call, with_io,
}
use dtplayer_c.Player.Io.{io_thread_running, pause_io_thread, start_io_thread, stop_io_thread}
use dtplayer_c.Player.Update.{resume_io, wait_key_frame, player_update_state}

-- Whether another seek stands first in the queue.
unfoldable pub seek_follows : List PlayerEvent → Bool
seek_follows [] = false
seek_follows (seek_event t ∷ es) = true
seek_follows (start_event ∷ es) = false
seek_follows (pause_event ∷ es) = false
seek_follows (resume_event ∷ es) = false
seek_follows (stop_event ∷ es) = false
seek_follows (other_event ∷ es) = false

module _ {W : Type 0} where
  unfoldable pub set_size : ℤ → ℤ → Context W → Context W
  set_size width height x =
      let c : Ctrl = x.ctrl in record x { ctrl = record c { width = width; height = height } }

  -- `player_handle_cb` after a new status.
  unfoldable pub announce : PlayerStatus → Context W → Context W
  announce status x = player_handle_cb (set_player_status x status)

  unfoldable pub set_seek_time : ℤ → Context W → Context W
  set_seek_time seek_time x =
      let s : State = x.state in
      record x { state = record s { cur_time = seek_time; cur_time_ms = mul_64 seek_time 1000 } }

  -- The case of a seek while buffering, by the test of the code.
  unfoldable pub leave_buffering : Context W → Context W
  leave_buffering x =
      if below (get_player_status x) buffering
      then notify buffering_end (set_player_status x running)
      else x

  unfoldable pub player_stop : Context W → ℤ × Context W
  player_stop x =
      let y : Context W = set_player_status x stop in (pos 0, record y { abort_request = true })

module _ {W : Type 0} (parts : Parts W) where
  unfoldable pub player_set_video_size : ℤ → ℤ → Context W → Option (ℤ × Context W)
  player_set_video_size width height x =
      let y = (if eqb_ℤ x.ctrl.width (negsuc 0) then set_size width height x else x) in
      if eqb_ℤ y.ctrl.width width && eqb_ℤ y.ctrl.height height
      then some (negsuc 0, y)
      else (call (parts.host_resize width height) y >>= λ r.
          some (pos 0, (if eqb_ℤ r.0 (pos 0) then set_size width height r.1 else r.1)))

  -- The label ERR1 of `player_start`, without its `pthread_join`: the thread that would wait is the one
  -- waited for, and the call returns at once with an error.
  unfoldable pub start_failed : ℕ → ℤ → Context W → Option (ℤ × Context W)
  start_failed fuel ret x = do
    let y : Context W = set_player_status x error
    y1 ← with_io (stop_io_thread parts.ends fuel) (record y { abort_request = true })
    y2 ← call parts.host_stop y1
    some (ret, announce error y2.1)

  unfoldable pub player_start : ℕ → Context W → Option (ℤ × Context W)
  player_start fuel x = call parts.host_start (set_player_status x start) >>= λ r.
      if eqb_ℤ r.0 (pos 0)
      then some (pos 0, (if r.1.abort_request then r.1 else announce running r.1))
      else start_failed fuel r.0 r.1

  unfoldable pub player_resume : Context W → Option (ℤ × Context W)
  player_resume x =
      if same (get_player_status x) paused
      then (call parts.host_resume x >>= λ r.
          if eqb_ℤ r.0 (negsuc 0)
          then some (negsuc 0, r.1)
          else some (pos 0, set_player_status (announce resume r.1) running))
      else some (negsuc 0, x)

  unfoldable pub player_pause : Context W → Option (ℤ × Context W)
  player_pause x =
      if same (get_player_status x) paused
      then player_resume x
      else (call parts.host_pause x >>= λ r.
          if eqb_ℤ r.0 (negsuc 0) then some (negsuc 0, r.1) else some (pos 0, announce paused r.1))

  unfoldable pub seek_pause : ℕ → Context W → Option (Context W)
  seek_pause fuel x =
      if io_thread_running x.io_loop then with_io (pause_io_thread parts.ends fuel) x else some x

  -- Up to the call of the demuxer.
  unfoldable pub seek_begin : ℕ → ℤ → Context W → Option (Context W)
  seek_begin fuel seek_time x = do
    y ← seek_pause fuel (set_player_status (set_seek_time seek_time (leave_buffering x)) seek_enter)
    z ← call parts.host_stop y
    some z.1

  -- The io thread goes on, or is started again.
  unfoldable pub restart_io : Context W → Context W
  restart_io x =
      if io_thread_running x.io_loop
      then resume_io x
      else record x { io_loop = (start_io_thread (parts.created x.world) x.io_loop).1 }

  unfoldable pub seek_end : ℕ → Context W → Option (ℤ × Context W)
  seek_end fuel x = do
    y1 ← call parts.host_init x
    y2 ← player_update_state parts fuel (restart_io (wait_key_frame y1.1))
    let y3 = announce seek_exit y2
    if seek_follows y3.events then some (pos 0, y3) else do
      y4 ← call parts.host_start y3
      y5 ← player_update_state parts fuel (set_player_status y4.1 running)
      some (pos 0, player_handle_cb y5)

  -- The label FAIL.
  unfoldable pub seek_fail : Context W → Option (ℤ × Context W)
  seek_fail x = do
    let y = resume_io x
    y1 ←
        (if io_thread_running y.io_loop
          then (call parts.host_resume y >>= λ r. some r.1)
          else some y)
    some (pos 0, announce running (announce seek_exit y1))

  -- From the call of the demuxer on.
  unfoldable pub seek_go : ℕ → ℤ → Context W → Option (ℤ × Context W)
  seek_go fuel seek_time x =
      let r = parts.demuxer_seekto seek_time x.world in
      let y = record x { world = r.1 } in
      if eqb_ℤ r.0 (negsuc 0) then seek_fail y else seek_end fuel y

  unfoldable pub player_seekto : ℕ → ℤ → Context W → Option (ℤ × Context W)
  player_seekto fuel seek_time x =
      if below (get_player_status x) init_exit
      then some (negsuc 0, x)
      else (seek_begin fuel seek_time x >>= seek_go fuel seek_time)
