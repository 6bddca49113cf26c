-- ===== src/Player/Stop.antt =====
-- How the thread of events ends, and what keeps it from ending.
use dtplayer_c.Base.{
  ℕ, suc, pos, true, false, ◌≡◌, refl, ◌∙◌, ap, none, some, List, [], ◌∷◌, ◌++◌, arith, bind-some,
  ℤ,
}
use dtplayer_c.Player.{
  paused, running, init_exit, stop, rank, below, same, State, PlayerEvent, pause_event, stop_event,
  Parts, Context, get_player_status, set_player_status, with_io,
}
use dtplayer_c.Host.State.{HostState}
use dtplayer_c.Player.Io.{quit}
use dtplayer_c.Player.Io.Handshake.{pause_io_thread-waits_forever}
use dtplayer_c.Player.Control.{announce, player_stop}
use dtplayer_c.Player.Update.{need_reset_decoder, player_dec_reset, player_update_state}
use dtplayer_c.Player.Loop.{do_event, handle_all, unqueue, player_handle_event, event_round}
use dtplayer_c.Player.Land.{Tells}
use dtplayer_c.Player.Events.{IsReady, AllTaken, handle_all-returns}
use dtplayer_c.Player.Pause.{Works, player_pause-first, announce-state, announce-abort_request}

module _ {W : Type 0} (parts : Parts W) (fuel : ℕ) where
  handle_all-stop :
      (es : List PlayerEvent) (x y : Context W)
      → handle_all parts fuel (es ++ (stop_event ∷ [])) x ≡ some y
      → (y.state.cur_status ≡ stop) × (y.abort_request ≡ true)
  unfolding handle_all do_event player_stop set_player_status unqueue
  handle_all-stop [] x y e = (cc e, cc e)
  handle_all-stop (a ∷ es) x y e =
      let (z, r, f) =
        bind-some (do_event parts fuel a (unqueue (es ++ (stop_event ∷ [])) x))
          (handle_all parts fuel (es ++ (stop_event ∷ []))) e in
      handle_all-stop es z y f

  stop_returns :
      (x : Context W) → (y : Context W) × (handle_all parts fuel (stop_event ∷ []) x ≡ some y)
  unfolding handle_all do_event
  stop_returns x = (_, refl)

  -- Where a stop and a pause are handled in one round, by a player that is not paused and whose host
  -- accepts the pause, the stop is lost: the request to abort is set, but the player is PAUSED.
  pub player_handle_event-stop_lost :
      Works parts
      → (x : Context W) → x.events ≡ stop_event ∷ pause_event ∷ []
      → (y : Context W) × (player_handle_event parts fuel x ≡ some y)
        × (y.abort_request ≡ true)
        × (y.state.cur_status ≡ paused)
  unfolding player_handle_event
  player_handle_event-stop_lost works x q =
      let y : Context W = unqueue [] (player_stop (unqueue (pause_event ∷ []) x)).1 in
      let abort_is : y.abort_request ≡ true = unfold unqueue player_stop in refl in
      let (w, r) =
        player_pause-first works y
          (unfold unqueue player_stop set_player_status get_player_status rank in refl) in
      (
        unqueue [] (announce paused (record y { world = w })),
        unfold handle_all do_event in (simp (q, r)),
        unfold unqueue in (announce-abort_request paused (record y { world = w }) ∙ abort_is),
        unfold unqueue set_player_status in
            (ap (λ (t : State). t.cur_status) (announce-state paused (record y { world = w }))),
      )

  -- Where the io thread has ended with the file, a reset of the decoders of a live stream waits for
  -- ever: a reset is due where the host reports a last decoded frame that is too old.
  pub player_update_state-hangs :
      (x : Context W) (h : HostState)
      → below x.state.cur_status running ≡ false
      → parts.host_get_state x.world ≡ some h
      → need_reset_decoder (parts.now_ms x.world) x.livemode x.live_timeout h ≡ true
      → x.io_loop.has_left ≡ true
      → x.io_loop.status ≡ quit
      → player_update_state parts fuel x ≡ none
  unfolding player_update_state player_dec_reset get_player_status with_io
  player_update_state-hangs x h run s due left e =
      let f : below x.state.cur_status init_exit ≡ false = unfold rank in (ground arith) in
      simp (run, s, due, f, pause_io_thread-waits_forever parts.ends fuel x.io_loop x.world left e)
        refl

module _ {W : Type 0} {parts : Parts W} (works : Works parts) (tells : Tells parts)
    (seeks : (t : ℤ) (w : W) → (parts.demuxer_seekto t w).0 ≡ pos 0) (fuel : ℕ) where
  -- Where the last event that is queued is a stop, and those before it are pauses, resumes, stops, events
  -- that the player ignores and seeks of which no two stand together, a round of the thread of events
  -- returns and ends its loop, with the status STOP and the request to abort set. The player is to
  -- have been set up, with an io thread at work and a file that is not live, and the host's calls and the
  -- demuxer's seeks to succeed.
  pub event_round-stop :
      (loop : ℤ) (es : List PlayerEvent) (x : Context W)
      → IsReady x
      → AllTaken es (stop_event ∷ [])
      → x.events ≡ es ++ (stop_event ∷ [])
      → (y : Context W) × (event_round parts (suc (suc fuel)) loop x ≡ some (false, y))
        × (y.state.cur_status ≡ stop)
        × (y.abort_request ≡ true)
  unfolding player_handle_event event_round
  event_round-stop loop es x ready all q =
      let (z, r, _) = handle_all-returns works tells seeks fuel es (stop_event ∷ []) x all ready in
      let (y, e) = stop_returns parts (suc (suc fuel)) z in
      let (s, a) = handle_all-stop parts (suc (suc fuel)) es x y (r ∙ e) in
      let t : same (get_player_status y) stop ≡ true =
        unfold get_player_status rank in (rw s refl) in
      let handled : handle_all parts (suc (suc fuel)) x.events x ≡ some y =
        ap (λ (l : List PlayerEvent). handle_all parts (suc (suc fuel)) l x) q ∙ r ∙ e in
      (y, simp (handled, t) refl, s, a)
