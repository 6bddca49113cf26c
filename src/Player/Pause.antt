-- ===== src/Player/Pause.antt =====
-- Pauses asked for by the user, and pauses for buffering.
use dtplayer_c.Base.{
  Bool, true, false, ◌≡◌, ◌≢◌, refl, ap, ◌∙◌, inl, inr, Option, some, arith, Bool-cases,
  if◌then◌else◌, ◌&&◌, ◌||◌, not, sym, ◌==◌, ltb_ℤ, ℤ, pos,
}
use dtplayer_c.Player.{
  PlayerStatus, running, buffering, paused, resume, rank, rank_one, same, State, Parts, Context,
  get_player_status, set_player_status, player_handle_cb, notify, call,
}
use dtplayer_c.Player.Control.{announce, player_pause, player_resume}
use dtplayer_c.Player.Loop.{
  need_enter, need_exit, eof_is, enter_buffering, leave_buffering, exit_check,
  player_buffering_check,
}
use dtplayer_c.Player.Network.{network_playback}

-- The host's calls return 0.
pub record Works {W : Type 0} (parts : Parts W) : Type 0 where
  pub init_works : (w : W) → (w' : W) × (parts.host_init w ≡ some (pos 0, w'))
  pub start_works : (w : W) → (w' : W) × (parts.host_start w ≡ some (pos 0, w'))
  pub pause_works : (w : W) → (w' : W) × (parts.host_pause w ≡ some (pos 0, w'))
  pub resume_works : (w : W) → (w' : W) × (parts.host_resume w ≡ some (pos 0, w'))
  pub stop_works : (w : W) → (w' : W) × (parts.host_stop w ≡ some (pos 0, w'))

module _ {W : Type 0} where
  pub announce-abort_request :
      (status : PlayerStatus) (x : Context W) → (announce status x).abort_request ≡ x.abort_request
  unfolding announce player_handle_cb set_player_status
  announce-abort_request status x = elim (Bool-cases x.has_update_cb) [
    | inl e ↦ simp e
    | inr e ↦ simp e
  ]

  -- Telling the user changes nothing else.
  pub announce-state :
      (status : PlayerStatus) (x : Context W)
      → (announce status x).state ≡ (set_player_status x status).state
  unfolding announce player_handle_cb set_player_status
  announce-state status x = elim (Bool-cases x.has_update_cb) [ inl e ↦ simp e | inr e ↦ simp e ]

  pub announce-io_loop :
      (status : PlayerStatus) (x : Context W) → (announce status x).io_loop ≡ x.io_loop
  unfolding announce player_handle_cb set_player_status
  announce-io_loop status x = elim (Bool-cases x.has_update_cb) [ inl e ↦ simp e | inr e ↦ simp e ]

not-same_paused : (s : PlayerStatus) → s ≢ paused → same s paused ≡ false
unfolding rank
not-same_paused s ne = elim (Bool-cases (same s paused)) [
  | inl e ↦ absurd (ne (rank_one s paused (ground arith)))
  | inr e ↦ e
]

module _ {W : Type 0} {parts : Parts W} (works : Works parts) where
  pub player_pause-first :
      (x : Context W)
      → same (get_player_status x) paused ≡ false
      → (w : W) × (player_pause parts x ≡ some (pos 0, announce paused (record x { world = w })))
  unfolding player_pause call
  player_pause-first x e = let (w, r) = works.pause_works x.world in (w, simp (e, r))

  pub player_resume-paused :
      (x : Context W)
      → same (get_player_status x) paused ≡ true
      → (w : W) × (player_resume parts x
          ≡ some (pos 0, set_player_status (announce resume (record x { world = w })) running))
  unfolding player_resume call
  player_resume-paused x e = let (w, r) = works.resume_works x.world in (w, simp (e, r))

  -- Where the host's calls succeed, a pause of a player that is not paused makes it PAUSED, and a
  -- second pause makes it RUNNING, by way of RESUME. The io thread is left alone.
  pub player_pause-twice :
      (x : Context W)
      → x.state.cur_status ≢ paused
      → (y : Context W) × (z : Context W) × (player_pause parts x ≡ some (pos 0, y))
        × (y.state.cur_status ≡ paused)
        × (y.state.last_status ≡ x.state.cur_status)
        × (player_pause parts y ≡ some (pos 0, z))
        × (z.state.cur_status ≡ running)
        × (z.state.last_status ≡ resume)
        × (z.io_loop ≡ x.io_loop)
  player_pause-twice x ne =
      let e : same (get_player_status x) paused ≡ false =
        unfold get_player_status in (not-same_paused x.state.cur_status ne) in
      let (w, r) = player_pause-first x e in
      let y : Context W = announce paused (record x { world = w }) in
      let s : y.state ≡ (set_player_status x paused).state =
        unfold set_player_status in (announce-state paused (record x { world = w })) in
      let f : same (get_player_status y) paused ≡ true =
        unfold get_player_status set_player_status rank in (rw s refl) in
      let (w', r') = player_resume-paused y f in
      let t : (announce resume (record y { world = w' })).state
          ≡ (set_player_status y resume).state =
        unfold set_player_status in (announce-state resume (record y { world = w' })) in
      (
        y,
        set_player_status (announce resume (record y { world = w' })) running,
        r,
        unfold set_player_status in (ap (λ (q : State). q.cur_status) s),
        unfold set_player_status in (ap (λ (q : State). q.last_status) s),
        unfold player_pause in (simp (f, r')),
        unfold set_player_status in refl,
        unfold set_player_status in (ap (λ (q : State). q.cur_status) t),
        unfold set_player_status in
            (announce-io_loop resume (record y { world = w' })
              ∙ announce-io_loop paused (record x { world = w })),
      )

-- No more than 100 KB of audio and 512 KB of video are cached, and no less than 300 KB and 1 MB.
abbrev pub both_low : ℤ → ℤ → Bool
both_low a v = not (ltb_ℤ (pos 102400) a || ltb_ℤ (pos 524288) v)

abbrev pub both_full : ℤ → ℤ → Bool
both_full a v = not (ltb_ℤ a (pos 307200) || ltb_ℤ v (pos 1048576))

-- The file has ended, as the io thread notes it.
abbrev pub has_ended : {W : Type 0} → Context W → Bool
has_ended x = x.io_loop.eof_flag == 1

-- What a check for buffering is to choose for a network stream with audio or video: the first where it
-- begins to buffer, the second where it ends to, and the third where nothing is to be done.
abbrev pub chosen : {W A : Type 0} → Context W → A → A → A → A
chosen x begun ended kept =
    if same x.state.cur_status running
      && (not (has_ended x) && both_low x.state.acache_size x.state.vcache_size)
    then begun
    else if same x.state.cur_status buffering
        && (has_ended x || both_full x.state.acache_size x.state.vcache_size)
    then ended
    else kept

need_enter_lem :
    (ended : Bool) (a v : ℤ) (is_running : Bool)
    → (need_enter ended a v && is_running) ≡ (is_running && (not ended && both_low a v))
unfolding need_enter
need_enter_lem true a v is_running = ground arith
need_enter_lem false a v is_running = ground arith

need_exit_lem :
    (ended : Bool) (a v : ℤ) (is_buffering : Bool)
    → (need_exit ended a v && is_buffering) ≡ (is_buffering && (ended || both_full a v))
unfolding need_exit
need_exit_lem true a v is_buffering = ground arith
need_exit_lem false a v is_buffering = ground arith

-- The limits to begin and to end leave room between them.
need_enter-need_exit :
    (eof : Bool) (a v : ℤ) → need_enter eof a v ≡ true → need_exit eof a v ≡ false
unfolding need_enter need_exit
need_enter-need_exit true a v e = absurd (cc e)
need_enter-need_exit false a v e = ground arith

-- The call has returned 0, with the status `status`, and the world as the host's call `called`, which
-- returned 0, left it.
abbrev pub EndsIn : {W : Type 0} → PlayerStatus → Option (ℤ × W) → Option (ℤ × Context W) → Type 0
EndsIn {W} status called r =
    (y : Context W) × (r ≡ some (pos 0, y))
    × (y.state.cur_status ≡ status)
    × (called ≡ some (pos 0, y.world))

module _ {W : Type 0} {parts : Parts W} (works : Works parts) where
  enter_buffering-EndsIn :
      (x : Context W) → EndsIn buffering (parts.host_pause x.world) (enter_buffering parts x)
  unfolding enter_buffering call notify set_player_status
  enter_buffering-EndsIn x = let (w, r) = works.pause_works x.world in simp r (_, refl, refl, refl)

  leave_buffering-EndsIn :
      (x : Context W) → EndsIn running (parts.host_resume x.world) (leave_buffering parts x)
  unfolding leave_buffering call notify set_player_status
  leave_buffering-EndsIn x = let (w, r) = works.resume_works x.world in simp r (_, refl, refl, refl)

  exit_check-EndsIn :
      (wanted : Bool) (x : Context W)
      → EndsIn
          (if wanted && same x.state.cur_status buffering then running else x.state.cur_status)
          (if wanted && same x.state.cur_status buffering
            then parts.host_resume x.world
            else some (pos 0, x.world))
          (exit_check parts wanted (pos 0, x))
  unfolding exit_check get_player_status
  exit_check-EndsIn wanted x = elim (Bool-cases (wanted && same x.state.cur_status buffering)) [
    | inl e ↦ simp e (leave_buffering-EndsIn x)
    | inr e ↦ simp e (x, refl, refl, refl)
  ]

  -- The choice, by the conditions of the code.
  abbrev tested : {A : Type 0} → Context W → A → A → A → A
  tested x begun ended kept =
      if need_enter (has_ended x) x.state.acache_size x.state.vcache_size
        && same x.state.cur_status running
      then begun
      else if need_exit (has_ended x) x.state.acache_size x.state.vcache_size
          && same x.state.cur_status buffering
      then ended
      else kept

  tested-chosen :
      {A : Type 0} (x : Context W) (begun ended kept : A)
      → tested x begun ended kept ≡ chosen x begun ended kept
  tested-chosen x begun ended kept =
      rw
        (
          need_enter_lem (has_ended x) x.state.acache_size x.state.vcache_size
              (same x.state.cur_status running),
          need_exit_lem (has_ended x) x.state.acache_size x.state.vcache_size
              (same x.state.cur_status buffering),
        )
        refl

  check-EndsIn :
      (x : Context W)
      → network_playback x.file_name ≡ true
      → (x.ctrl.has_audio || x.ctrl.has_video) ≡ true
      → EndsIn
          (tested x buffering running x.state.cur_status)
          (tested x (parts.host_pause x.world) (parts.host_resume x.world) (some (pos 0, x.world)))
          (player_buffering_check parts x)
  unfolding player_buffering_check get_player_status eof_is
  check-EndsIn x n h =
      let a : ℤ = x.state.acache_size in
      let v : ℤ = x.state.vcache_size in
      elim (Bool-cases (need_enter (has_ended x) a v && same x.state.cur_status running)) [
        | inl e ↦
            let (y, r, s, c) = enter_buffering-EndsIn x in
            let f : need_exit (has_ended x) a v ≡ false =
              need_enter-need_exit (has_ended x) a v (ground arith) in
            simp (n, h, e, r, f) (unfold exit_check in (y, refl, s, c))
        | inr e ↦ simp (n, h, e) (exit_check-EndsIn (need_exit (has_ended x) a v) x)
      ]

  -- Where the host's calls succeed, a check of a network stream with audio or video returns 0. A
  -- RUNNING player begins to buffer where at most 100 KB of audio and at most 512 KB of video are cached
  -- and the file has not ended: it pauses the host and is BUFFERING. A BUFFERING one resumes the host
  -- and is RUNNING again where at least 300 KB of audio and at least 1 MB of video are cached, or the
  -- file has ended. Otherwise the host is left alone and the status stays.
  pub player_buffering_check-EndsIn :
      (x : Context W)
      → network_playback x.file_name ≡ true
      → (x.ctrl.has_audio || x.ctrl.has_video) ≡ true
      → EndsIn
          (chosen x buffering running x.state.cur_status)
          (chosen x (parts.host_pause x.world) (parts.host_resume x.world) (some (pos 0, x.world)))
          (player_buffering_check parts x)
  player_buffering_check-EndsIn x n h =
      rw
        (
          sym (tested-chosen x buffering running x.state.cur_status),
          sym (
              tested-chosen x (parts.host_pause x.world) (parts.host_resume x.world)
                (some (pos 0, x.world))),
        )
        (check-EndsIn x n h)
