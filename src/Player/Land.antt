-- ===== src/Player/Land.antt =====
-- A seek that succeeds: where it leaves the player and the io thread.
use dtplayer_c.Base.{
  ℕ, suc, false, ◌≡◌, refl, ◌∙◌, ap, inl, inr, Option, none, some, arith, Bool-cases, ℤ, pos, ltb_ℤ,
}
use dtplayer_c.Host.State.{HostState}
use dtplayer_c.Player.{
  PlayerStatus, running, init_exit, buffering, seek_exit, below, State, Ctrl, Parts, Context,
  get_player_status, set_player_status, player_handle_cb, call, with_io, notify,
}
use dtplayer_c.Player.Io.{LoopStatus, null, IoLoop, io_thread_running, resume_io_thread, is_quit}
use dtplayer_c.Player.Io.Handshake.{pause_io_thread-takes_effect}
use dtplayer_c.Player.Time.{set_start, set_full, set_point, set_time, calc_cur_time}
use dtplayer_c.Player.Update.{
  resume_io, wait_key_frame, need_reset_decoder, refresh, player_update_state,
}
use dtplayer_c.Player.Control.{
  announce, leave_buffering, set_seek_time, seek_pause, seek_begin, seek_go, seek_end, seek_follows,
  restart_io, player_seekto,
}
use dtplayer_c.Player.Pause.{Works, announce-state, announce-io_loop}

-- The status is that of `x`, and the io thread, the queue and the kind of stream are the same.
record Same {W : Type 0} (x y : Context W) : Type 0 where
  cur_same : y.state.cur_status ≡ x.state.cur_status
  last_same : y.state.last_status ≡ x.state.last_status
  io_same : y.io_loop ≡ x.io_loop
  events_same : y.events ≡ x.events
  live_same : y.livemode ≡ x.livemode

calc_cur_time-status :
    (s : State) (c : Ctrl) (d : ℤ) (h : HostState)
    → ((calc_cur_time s c d h).0.cur_status ≡ s.cur_status)
      × ((calc_cur_time s c d h).0.last_status ≡ s.last_status)
unfolding calc_cur_time set_time set_point set_full set_start
calc_cur_time-status s c d h = ground arith

module _ {W : Type 0} where
  handle_cb-Same : (x : Context W) → Same x (player_handle_cb x)
  unfolding player_handle_cb
  handle_cb-Same x = elim (Bool-cases x.has_update_cb) [
    | inl e ↦ simp e (record {
      cur_same = refl;
      last_same = refl;
      io_same = refl;
      events_same = refl;
      live_same = refl;
    })
    | inr e ↦ simp e (record {
      cur_same = refl;
      last_same = refl;
      io_same = refl;
      events_same = refl;
      live_same = refl;
    })
  ]

-- The host tells its state and forgets jumps without a fault.
pub record Tells {W : Type 0} (parts : Parts W) : Type 0 where
  pub tells : (w : W) → (h : HostState) × (parts.host_get_state w ≡ some h)
  pub clears : (w : W) → (w' : W) × (parts.host_clear_discontinue_flag w ≡ some w')

module _ {W : Type 0} {parts : Parts W} (works : Works parts) (tells : Tells parts) (fuel : ℕ) where
  refresh-Same :
      (x : Context W) (h : HostState) → (y : Context W) × (refresh parts x h ≡ some y) × Same x y
  unfolding refresh
  refresh-Same x h =
      let (a, b) = calc_cur_time-status x.state x.ctrl x.duration h in
      elim (Bool-cases (calc_cur_time x.state x.ctrl x.duration h).2) [
        | inl e ↦
            let (w, r) = tells.clears x.world in
            simp (e, r)
              (
                _,
                refl,
                record {
                  cur_same = a;
                  last_same = b;
                  io_same = refl;
                  events_same = refl;
                  live_same = refl;
                },
              )
        | inr e ↦ simp e (
          _,
          refl,
          record {
            cur_same = a;
            last_same = b;
            io_same = refl;
            events_same = refl;
            live_same = refl;
          },
        )
      ]

  update-Same :
      (x : Context W)
      → x.livemode ≡ pos 0
      → (y : Context W) × (player_update_state parts fuel x ≡ some y) × Same x y
  unfolding player_update_state need_reset_decoder
  update-Same x live = elim (Bool-cases (below (get_player_status x) running)) [
    | inl e ↦ simp e (
      x,
      refl,
      record {
        cur_same = refl;
        last_same = refl;
        io_same = refl;
        events_same = refl;
        live_same = refl;
      },
    )
    | inr e ↦
        let (h, r) = tells.tells x.world in
        simp (e, r, live)
          (elim (Bool-cases (ltb_ℤ (pos 0) h.vdec_last_ms)) [
            | inl f ↦ simp f (refresh-Same x h)
            | inr f ↦ simp f (refresh-Same x h)
          ])
  ]

module _ {W : Type 0} where
  leave_buffering-io_loop : (x : Context W) → (leave_buffering x).io_loop ≡ x.io_loop
  unfolding leave_buffering notify set_player_status
  leave_buffering-io_loop x = elim (Bool-cases (below (get_player_status x) buffering)) [
    | inl e ↦ simp e
    | inr e ↦ simp e
  ]

  leave_buffering-events : (x : Context W) → (leave_buffering x).events ≡ x.events
  unfolding leave_buffering notify set_player_status
  leave_buffering-events x = elim (Bool-cases (below (get_player_status x) buffering)) [
    | inl e ↦ simp e
    | inr e ↦ simp e
  ]

  leave_buffering-livemode : (x : Context W) → (leave_buffering x).livemode ≡ x.livemode
  unfolding leave_buffering notify set_player_status
  leave_buffering-livemode x = elim (Bool-cases (below (get_player_status x) buffering)) [
    | inl e ↦ simp e
    | inr e ↦ simp e
  ]

  pub announce-livemode :
      (status : PlayerStatus) (x : Context W) → (announce status x).livemode ≡ x.livemode
  unfolding announce set_player_status
  announce-livemode status x = (handle_cb-Same (set_player_status x status)).live_same

  announce-events : (status : PlayerStatus) (x : Context W) → (announce status x).events ≡ x.events
  unfolding announce set_player_status
  announce-events status x = (handle_cb-Same (set_player_status x status)).events_same

-- The io thread after a pause with nothing in hand, and after a seek.
unfoldable pub io_at_rest : IoLoop → IoLoop
io_at_rest l = record l { status = LoopStatus.paused; flag = null; pkt = none }

unfoldable pub io_after_seek : IoLoop → IoLoop
io_after_seek l = record l {
  status = LoopStatus.running;
  flag = null;
  pkt = none;
  ctrl_wait_key_frame = 1;
}

module _ {W : Type 0} {parts : Parts W} (works : Works parts) (fuel : ℕ) (t : ℤ) where
  -- The state before the demuxer's seek.
  abbrev Begun : Context W → Option (Context W) → Type 0
  Begun x r =
      (y : Context W) × (r ≡ some y)
      × (y.io_loop ≡ io_at_rest x.io_loop)
      × (seek_follows y.events ≡ seek_follows x.events)
      × (y.livemode ≡ x.livemode)

  seek_begin-Begun :
      (x : Context W)
      → x.io_loop.status ≡ LoopStatus.running
      → x.io_loop.has_left ≡ false
      → Begun x (seek_begin parts (suc (suc fuel)) t x)
  unfolding seek_begin seek_pause call with_io set_player_status set_seek_time io_at_rest
      io_thread_running is_quit
  seek_begin-Begun x s h =
      let z : Context W = leave_buffering x in
      let io : z.io_loop ≡ x.io_loop = leave_buffering-io_loop x in
      let s' : z.io_loop.status ≡ LoopStatus.running = ap (λ (l : IoLoop). l.status) io ∙ s in
      let h' : z.io_loop.has_left ≡ false = ap (λ (l : IoLoop). l.has_left) io ∙ h in
      let p = pause_io_thread-takes_effect parts.ends fuel z.io_loop z.world h' (λ e. cc (s', e)) in
      let (w, r) = works.stop_works z.world in
      simp (s', p, r)
        (
          _,
          refl,
          ap (λ (l : IoLoop). record l { status = LoopStatus.paused; flag = null; pkt = none }) io,
          ap seek_follows (leave_buffering-events x),
          leave_buffering-livemode x,
        )

-- The state at the end.
abbrev pub Landed : {W : Type 0} → Context W → Option (ℤ × Context W) → Type 0
Landed {W} x r =
    (y : Context W) × (r ≡ some (pos 0, y))
    × (y.state.cur_status ≡ running)
    × (y.state.last_status ≡ seek_exit)
    × (y.io_loop ≡ io_after_seek x.io_loop)
    × (y.livemode ≡ pos 0)

module _ {W : Type 0} {parts : Parts W} (works : Works parts) (tells : Tells parts) where
  seek_end-Landed :
      (fuel : ℕ) (x z : Context W)
      → z.io_loop ≡ io_at_rest x.io_loop
      → seek_follows z.events ≡ false
      → z.livemode ≡ pos 0
      → Landed x (seek_end parts fuel z)
  unfolding seek_end call restart_io wait_key_frame resume_io resume_io_thread io_thread_running
      is_quit set_player_status io_at_rest io_after_seek
  seek_end-Landed fuel x z io no_seek live =
      let (w, r) = works.init_works z.world in
      let q : Context W = restart_io parts (wait_key_frame (record z { world = w })) in
      let q_io : q.io_loop ≡ io_after_seek x.io_loop = simp io in
      let q_live : q.livemode ≡ pos 0 = simp io live in
      let q_events : q.events ≡ z.events = simp io in
      let (y2, u, k) = update-Same works tells fuel q q_live in
      let y3 : Context W = announce seek_exit y2 in
      let follows : seek_follows y3.events ≡ false =
        ap seek_follows (announce-events seek_exit y2 ∙ k.events_same ∙ q_events) ∙ no_seek in
      let (w4, r4) = works.start_works y3.world in
      let y4 : Context W = set_player_status (record y3 { world = w4 }) running in
      let live4 : y4.livemode ≡ pos 0 = announce-livemode seek_exit y2 ∙ k.live_same ∙ q_live in
      let (y5, u5, k5) = update-Same works tells fuel y4 live4 in
      let k6 : Same y5 (player_handle_cb y5) = handle_cb-Same y5 in
      simp (r, u, follows, r4, u5)
        (
          player_handle_cb y5,
          refl,
          k6.cur_same ∙ k5.cur_same,
          k6.last_same
              ∙ k5.last_same
              ∙ ap (λ (v : State). v.cur_status) (announce-state seek_exit y2),
          k6.io_same ∙ k5.io_same ∙ announce-io_loop seek_exit y2 ∙ k.io_same ∙ q_io,
          k6.live_same ∙ k5.live_same ∙ live4,
        )

  -- A seek by a player that has been set up, with an io thread at work, no other seek first in the
  -- queue and a file that is not live, where the host's calls and the demuxer's seek succeed: it returns
  -- 0, the player is RUNNING, by way of SEEK_EXIT, and the io thread runs with nothing in hand and waits
  -- for a key frame. Its note of the end of the file is as it was, and the file is not live.
  pub player_seekto-Landed :
      (fuel : ℕ) (t : ℤ) (x : Context W)
      → below x.state.cur_status init_exit ≡ false
      → x.io_loop.status ≡ LoopStatus.running
      → x.io_loop.has_left ≡ false
      → seek_follows x.events ≡ false
      → x.livemode ≡ pos 0
      → ((w : W) → (parts.demuxer_seekto t w).0 ≡ pos 0)
      → Landed x (player_seekto parts (suc (suc fuel)) t x)
  unfolding player_seekto get_player_status seek_go
  player_seekto-Landed fuel t x set s left no_seek live seeks =
      let (y, r, io, follows, lives) = seek_begin-Begun works fuel t x s left in
      let v : W = (parts.demuxer_seekto t y.world).1 in
      simp (set, r, seeks y.world)
        (seek_end-Landed (suc (suc fuel)) x (record y { world = v }) io (follows ∙ no_seek)
          (lives ∙ live))
