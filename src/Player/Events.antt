-- ===== src/Player/Events.antt =====
-- The handling of the events that are queued returns.
use dtplayer_c.Base.{
  ℕ, suc, Bool-cases, inl, inr, false, ◌≡◌, refl, ◌∙◌, ap, some, List, [], ◌∷◌, ◌++◌, Option, ℤ,
  pos, negsuc,
}
use dtplayer_c.Player.{
  PlayerStatus, paused, resume, init_exit, rank, below, same, State, PlayerEvent, start_event,
  pause_event, resume_event, stop_event, other_event, seek_event, Parts, Context, get_player_status,
  set_player_status,
}
use dtplayer_c.Player.Io.{LoopStatus, IoLoop}
use dtplayer_c.Player.Control.{
  announce, seek_follows, player_pause, player_resume, player_stop, player_seekto,
}
use dtplayer_c.Player.Loop.{do_event, handle_all, unqueue}
use dtplayer_c.Player.Pause.{
  Works, player_pause-first, player_resume-paused, announce-state, announce-io_loop,
}
use dtplayer_c.Player.Land.{Tells, io_after_seek, announce-livemode, player_seekto-Landed}

-- The player has been set up, its io thread is at work, and the file is not live.
pub record IsReady {W : Type 0} (x : Context W) : Type 0 where
  pub set_up : below x.state.cur_status init_exit ≡ false
  pub at_work : x.io_loop.status ≡ LoopStatus.running
  pub in_loop : x.io_loop.has_left ≡ false
  pub not_live : x.livemode ≡ pos 0

-- An event other than a start, with no seek right behind a seek; `rest` are the events behind it.
abbrev pub Taken : PlayerEvent → List PlayerEvent → Type 0
Taken start_event rest = ⊥
Taken (seek_event t) rest = seek_follows rest ≡ false
Taken pause_event rest = Unit {0}
Taken resume_event rest = Unit {0}
Taken stop_event rest = Unit {0}
Taken other_event rest = Unit {0}

abbrev pub AllTaken : List PlayerEvent → List PlayerEvent → Type 0
AllTaken [] last = Unit {0}
AllTaken (e ∷ es) last = Taken e (es ++ last) × AllTaken es last

module _ {W : Type 0} {parts : Parts W} (works : Works parts) (tells : Tells parts)
    (seeks : (t : ℤ) (w : W) → (parts.demuxer_seekto t w).0 ≡ pos 0) (fuel : ℕ) where
  -- A new status, of a player that has been set up, and the world changed.
  announce-IsReady :
      (status : PlayerStatus) (x : Context W) (w : W)
      → below status init_exit ≡ false
      → IsReady x
      → IsReady (announce status (record x { world = w }))
  announce-IsReady status x w set r =
      let y : Context W = record x { world = w } in
      let set' : below (set_player_status y status).state.cur_status init_exit ≡ false =
        unfold set_player_status in set in
      let io : (announce status y).io_loop ≡ x.io_loop = announce-io_loop status y in
      record {
        set_up = ap (λ (s : State). below s.cur_status init_exit) (announce-state status y) ∙ set';
        at_work = ap (λ (l : IoLoop). l.status) io ∙ r.at_work;
        in_loop = ap (λ (l : IoLoop). l.has_left) io ∙ r.in_loop;
        not_live = announce-livemode status y ∙ r.not_live;
      }

  -- The call returns, and leaves a player that is ready.
  abbrev Stays : Option (ℤ × Context W) → Type 0
  Stays o = (c : ℤ) × (y : Context W) × (o ≡ some (c, y)) × IsReady y

  player_resume-Stays : (x : Context W) → IsReady x → Stays (player_resume parts x)
  player_resume-Stays x r = elim (Bool-cases (same (get_player_status x) paused)) [
    | inl e ↦
        let (w, s) = player_resume-paused works x e in
        let z = announce-IsReady resume x w (unfold rank in refl) r in
        (
          _,
          _,
          s,
          record {
            set_up = unfold set_player_status rank in refl;
            at_work = unfold set_player_status in z.at_work;
            in_loop = unfold set_player_status in z.in_loop;
            not_live = unfold set_player_status in z.not_live;
          },
        )
    | inr e ↦ (negsuc 0, x, unfold player_resume in (simp e refl), r)
  ]

  player_pause-Stays : (x : Context W) → IsReady x → Stays (player_pause parts x)
  player_pause-Stays x r = elim (Bool-cases (same (get_player_status x) paused)) [
    | inl e ↦
        let (c, y, s, z) = player_resume-Stays x r in
        (c, y, unfold player_pause in (simp (e, s) refl), z)
    | inr e ↦
        let (w, s) = player_pause-first works x e in
        (_, _, s, announce-IsReady paused x w (unfold rank in refl) r)
  ]

  player_seekto-Stays :
      (t : ℤ) (x : Context W)
      → seek_follows x.events ≡ false
      → IsReady x
      → Stays (player_seekto parts (suc (suc fuel)) t x)
  player_seekto-Stays t x last r =
      let (y, s, cur, _, io, live) =
        player_seekto-Landed works tells fuel t x r.set_up r.at_work r.in_loop last r.not_live
          (seeks t) in
      (
        _,
        y,
        s,
        record {
          set_up = ap (λ (c : PlayerStatus). below c init_exit) cur ∙ (unfold rank in refl);
          at_work = ap (λ (l : IoLoop). l.status) io ∙ (unfold io_after_seek in refl);
          in_loop = ap (λ (l : IoLoop). l.has_left) io ∙ (unfold io_after_seek in r.in_loop);
          not_live = live;
        },
      )

  stopped-IsReady : (x : Context W) → IsReady x → IsReady (player_stop x).1
  unfolding player_stop set_player_status rank
  stopped-IsReady x r = record {
    set_up = refl;
    at_work = r.at_work;
    in_loop = r.in_loop;
    not_live = r.not_live;
  }

  unqueue-IsReady : (es : List PlayerEvent) (x : Context W) → IsReady x → IsReady (unqueue es x)
  unfolding unqueue
  unqueue-IsReady es x r = record {
    set_up = r.set_up;
    at_work = r.at_work;
    in_loop = r.in_loop;
    not_live = r.not_live;
  }

  do_event-returns :
      (e : PlayerEvent) (rest : List PlayerEvent) (x : Context W)
      → Taken e rest
      → IsReady x
      → (y : Context W) × (do_event parts (suc (suc fuel)) e (unqueue rest x) ≡ some y) × IsReady y
  unfolding do_event
  do_event-returns start_event rest x taken r = absurd taken
  do_event-returns pause_event rest x taken r =
      let (c, y, s, z) = player_pause-Stays (unqueue rest x) (unqueue-IsReady rest x r) in
      (y, rw s refl, z)
  do_event-returns resume_event rest x taken r =
      let (c, y, s, z) = player_resume-Stays (unqueue rest x) (unqueue-IsReady rest x r) in
      (y, rw s refl, z)
  do_event-returns stop_event rest x taken r =
      (_, refl, stopped-IsReady (unqueue rest x) (unqueue-IsReady rest x r))
  do_event-returns other_event rest x taken r = (_, refl, unqueue-IsReady rest x r)
  do_event-returns (seek_event t) rest x taken r =
      let last : seek_follows (unqueue rest x).events ≡ false = unfold unqueue in taken in
      let (c, y, s, z) = player_seekto-Stays t (unqueue rest x) last (unqueue-IsReady rest x r) in
      (y, rw s refl, z)

  -- The events are handled one after the other, and those of `last` are left.
  pub handle_all-returns :
      (es last : List PlayerEvent) (x : Context W)
      → AllTaken es last
      → IsReady x
      → (y : Context W) × (handle_all parts (suc (suc fuel)) (es ++ last) x
          ≡ handle_all parts (suc (suc fuel)) last y)
        × IsReady y
  unfolding handle_all
  handle_all-returns [] last x all r = (x, refl, r)
  handle_all-returns (e ∷ es) last x (taken, all) r =
      let (y, s, ready) = do_event-returns e (es ++ last) x taken r in
      let (z, s', ready') = handle_all-returns es last y all ready in (z, rw s s', ready')
