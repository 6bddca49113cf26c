-- ===== src/Player/Io/Handshake.antt =====
-- The calls that wait for the thread.
use dtplayer_c.Base.{ℕ, zero, suc, ◌≡◌, ◌≢◌, refl, ◌∙◌, ap, true, false, Option, none, some, []}
use dtplayer_c.Media.{Packet}
use dtplayer_c.Player.Io.{
  LoopStatus, paused, running, quit, null, pause, Ends, IoLoop, is_pause, is_paused, see_flag,
  drop_pkt, Round, by_status, player_io_thread, go_on, wait_paused, pause_io_thread, wait_left,
  stop_io_thread,
}

module _ {W : Type 0} (ends : Ends W) where
  -- What a round does that finds `IO_FLAG_PAUSE` set.
  player_io_thread-pause :
      (l : IoLoop) (w : W)
      → l.has_left ≡ false
      → player_io_thread ends (record l { flag = pause }) w ≡ (
        (drop_pkt l.pkt (record l { flag = pause; status = paused })).0,
        (drop_pkt l.pkt (record l { flag = pause; status = paused })).1,
        w,
      )
  unfolding player_io_thread see_flag is_pause by_status
  player_io_thread-pause l w h = simp h

  wait_paused-busy :
      (fuel : ℕ) (l : IoLoop) (w : W) {r : Round W}
      → is_paused l.status ≡ false
      → player_io_thread ends l w ≡ r
      → wait_paused ends (suc fuel) l w ≡ go_on r (wait_paused ends fuel r.1 r.2)
  unfolding wait_paused
  wait_paused-busy fuel l w e f = rw (e, wait_paused) (rw f refl)

  not-is_paused : (s : LoopStatus) → s ≢ paused → is_paused s ≡ false
  unfolding is_paused
  not-is_paused paused e = absurd (e refl)
  not-is_paused running e = refl
  not-is_paused quit e = refl

  -- What is left of the wait once the packet in hand is dropped.
  wait_paused-dropped :
      (fuel : ℕ) (hand : Option Packet) (l : IoLoop) (w : W)
      → l.pkt ≡ hand
      → let d = drop_pkt hand (record l { flag = pause; status = paused }) in
        go_on (d.0, d.1, w) (wait_paused ends (suc fuel) d.1 w)
        ≡ some ((drop_pkt hand l).0, record l { status = paused; flag = pause; pkt = none }, w)
  unfolding drop_pkt wait_paused go_on is_paused
  wait_paused-dropped fuel none l w e = simp e
  wait_paused-dropped fuel (some p) l w e = refl

  -- A pause of a thread that is in its loop and not paused takes effect after one round: the packet in
  -- hand, if there is one, is freed, the status is IO_LOOP_PAUSED and the flag is clear. The demuxer and
  -- the host are left alone.
  pub pause_io_thread-takes_effect :
      (fuel : ℕ) (l : IoLoop) (w : W)
      → l.has_left ≡ false
      → l.status ≢ paused
      → pause_io_thread ends (suc (suc fuel)) l w
        ≡ some ((drop_pkt l.pkt l).0, record l { status = paused; flag = null; pkt = none }, w)
  unfolding pause_io_thread
  pause_io_thread-takes_effect fuel l w h e =
      let m : IoLoop = record l { flag = pause } in
      rw
        (
          wait_paused-busy (suc fuel) m w (not-is_paused l.status e) (player_io_thread-pause l w h),
          wait_paused-dropped fuel l.pkt l w refl,
        )
        refl

  wait_paused-stuck :
      (fuel : ℕ) (l : IoLoop) (w : W)
      → l.has_left ≡ true
      → is_paused l.status ≡ false
      → wait_paused ends fuel l w ≡ none
  unfolding go_on
  wait_paused-stuck zero l w h e = unfold wait_paused in refl
  wait_paused-stuck (suc fuel) l w h e =
      let f : player_io_thread ends l w ≡ ([], l, w) = unfold player_io_thread in (simp h) in
      wait_paused-busy fuel l w e f ∙ ap (go_on ([], l, w)) (wait_paused-stuck fuel l w h e)

  -- A pause of a thread that has left its loop, at the end of the file, waits for ever: whatever the
  -- number of looks at the status, it stays IO_LOOP_QUIT.
  pub pause_io_thread-waits_forever :
      (fuel : ℕ) (l : IoLoop) (w : W)
      → l.has_left ≡ true
      → l.status ≡ quit
      → pause_io_thread ends fuel l w ≡ none
  unfolding pause_io_thread is_paused
  pause_io_thread-waits_forever fuel l w h e =
      let f : is_paused l.status ≡ false = rw e refl in
      rw (wait_paused-stuck fuel (record l { flag = pause }) w h f) refl

  -- Stopping ends a thread that is in its loop after one round. The packet in hand stays there: it is
  -- neither written nor freed.
  pub stop_io_thread-leaves :
      (fuel : ℕ) (l : IoLoop) (w : W)
      → l.has_left ≡ false
      → stop_io_thread ends (suc (suc fuel)) l w
        ≡ some ([], record l { flag = null; status = quit; has_left = true }, w)
  unfolding stop_io_thread wait_left player_io_thread see_flag is_pause by_status go_on
  stop_io_thread-leaves fuel l w h = simp h
