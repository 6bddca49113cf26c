-- ===== src/Player/Loop.antt =====
-- The thread of events, of dtplayer/dtplayer.c: `player_handle_event`, `player_buffering_check` and
-- `event_handle_loop`.
use dtplayer_c.Base.{
  ℕ, Bool, true, false, Option, some, List, [], ◌∷◌, if◌then◌else◌, ◌>>=◌, ◌&&◌, ◌||◌, not, ℤ, pos,
  negsuc, ltb_ℤ, eqb_ℤ, sub_64, ◌==◌,
}
use dtplayer_c.Player.{
  running, buffering, stop, exit, below, same, PlayerEvent, start_event, pause_event, resume_event,
  stop_event, other_event, seek_event, buffering_start, buffering_end, Parts, Context,
  get_player_status, set_player_status, player_handle_cb, notify, call, with_io,
}
use dtplayer_c.Player.Io.{stop_io_thread}
use dtplayer_c.Player.Update.{player_update_state}
use dtplayer_c.Player.Control.{
  player_start, player_pause, player_resume, player_stop, player_seekto, announce,
}
use dtplayer_c.Player.Network.{network_playback}

-- What the sizes of the caches ask for. The end of the file ends the buffering.
unfoldable pub need_enter : Bool → ℤ → ℤ → Bool
need_enter eof a v = if eof then false else not (ltb_ℤ (pos 102400) a) && not (ltb_ℤ (pos 524288) v)

unfoldable pub need_exit : Bool → ℤ → ℤ → Bool
need_exit eof a v = if eof then true else not (ltb_ℤ a (pos 307200)) && not (ltb_ℤ v (pos 1048576))

module _ {W : Type 0} where
  unfoldable pub eof_is : ℕ → Context W → Bool
  eof_is n x = x.io_loop.eof_flag == n

  unfoldable pub unqueue : List PlayerEvent → Context W → Context W
  unqueue es x = record x { events = es }

module _ {W : Type 0} (parts : Parts W) where
  -- The switch of `player_handle_event`.
  unfoldable pub do_event : ℕ → PlayerEvent → Context W → Option (Context W)
  do_event fuel start_event x = player_start parts fuel x >>= λ r. some r.1
  do_event fuel pause_event x = player_pause parts x >>= λ r. some r.1
  do_event fuel resume_event x = player_resume parts x >>= λ r. some r.1
  do_event fuel stop_event x = some (player_stop x).1
  do_event fuel (seek_event t) x = player_seekto parts fuel t x >>= λ r. some r.1
  do_event fuel other_event x = some x

  -- `player_handle_event` handles the events that are queued, the oldest first.
  unfoldable pub handle_all : ℕ → List PlayerEvent → Context W → Option (Context W)
  handle_all fuel [] x = some (unqueue [] x)
  handle_all fuel (e ∷ es) x = do_event fuel e (unqueue es x) >>= handle_all fuel es

  unfoldable pub player_handle_event : ℕ → Context W → Option (Context W)
  player_handle_event fuel x = handle_all fuel x.events x

  unfoldable pub enter_buffering : Context W → Option (ℤ × Context W)
  enter_buffering x = call parts.host_pause x >>= λ r.
      if eqb_ℤ r.0 (negsuc 0)
      then some (negsuc 0, r.1)
      else some (pos 0, notify buffering_start (set_player_status r.1 buffering))

  unfoldable pub leave_buffering : Context W → Option (ℤ × Context W)
  leave_buffering x = call parts.host_resume x >>= λ r.
      if eqb_ℤ r.0 (negsuc 0)
      then some (negsuc 0, r.1)
      else some (pos 0, notify buffering_end (set_player_status r.1 running))

  -- The second half of `player_buffering_check`, which follows a first half that returned `ret`.
  unfoldable pub exit_check : Bool → ℤ × Context W → Option (ℤ × Context W)
  exit_check wanted (ret, x) =
      if eqb_ℤ ret (negsuc 0)
      then some (ret, x)
      else if wanted && same (get_player_status x) buffering
      then leave_buffering x
      else some (pos 0, x)

  unfoldable pub player_buffering_check : Context W → Option (ℤ × Context W)
  player_buffering_check x =
      if network_playback x.file_name && (x.ctrl.has_audio || x.ctrl.has_video)
      then (let s = x.state in
          let eof = eof_is 1 x in
          (if need_enter eof s.acache_size s.vcache_size && same (get_player_status x) running
            then enter_buffering x
            else some (pos 0, x))
          >>= exit_check (need_exit eof s.acache_size s.vcache_size))
      else some (pos 0, x)

  -- After the state has been updated: whether the loop goes on, and with what.
  unfoldable pub end_check : ℤ → Context W → Option (Bool × Context W)
  end_check loop x =
      if eof_is 0 x
      then some (true, x)
      else (parts.host_get_render_closed x.world >>= λ closed.
          if closed
            && (ltb_ℤ (pos 0) x.state.full_time
                && not (ltb_ℤ x.state.cur_time (sub_64 x.state.full_time (pos 10))))
          then (if ltb_ℤ (pos 0) loop
              then some (true, record x { events = seek_event (pos 0) ∷ [] })
              else some (false, x))
          else some (true, x))

  -- A round of the loop of `event_handle_loop`.
  unfoldable pub event_round : ℕ → ℤ → Context W → Option (Bool × Context W)
  event_round fuel loop x = player_handle_event fuel x >>= λ y.
      if same (get_player_status y) stop
      then some (false, y)
      else if below (get_player_status y) running
      then some (true, y)
      else (player_update_state parts fuel y >>= λ z.
          player_buffering_check (player_handle_cb z) >>= λ r. end_check loop r.1)

  -- The label QUIT, up to the end of the context.
  unfoldable pub loop_quit : ℕ → Context W → Option (Context W)
  loop_quit fuel x = do
    y ← with_io (stop_io_thread parts.ends fuel) x
    y1 ← call parts.host_stop y
    some (announce exit y1.1)
