-- ===== src/Player.antt =====
-- The player of dtplayer/: what its parts share. The host, the demuxer, the clock of the system and
-- the callers of the callbacks are an interface, on a state `W` that the model does not look into.
pub mod Io
pub mod Update
pub mod Control
pub mod Loop
pub mod Time
pub mod Network
pub mod Pause
pub mod Seek
pub mod Land
pub mod Position
pub mod Init
pub mod Events
pub mod Stop
mod Tests
use dtplayer_c.Base.{
  ℕ, Bool, true, false, ◌≡◌, refl, sym, ap, ◌∙◌, Option, none, some, List, [], ◌∷◌, ltb,
  if◌then◌else◌, ◌>>=◌, ℤ, pos, negsuc, ◌==◌,
}
use dtplayer_c.Host.State.{HostState}
use dtplayer_c.Player.Io.{Ends, IoLoop, Round}

-- `player_status_t`
pub data PlayerStatus : Type 0 where
  invalid idle init_enter init_exit prepare_start prepared start running buffering paused resume
        seek_enter seek_exit error stop playend exit :
      PlayerStatus

-- The order of the enum, from -1 on.
unfoldable pub rank : PlayerStatus → ℕ
rank invalid = 0
rank idle = 1
rank init_enter = 2
rank init_exit = 3
rank prepare_start = 4
rank prepared = 5
rank start = 6
rank running = 7
rank buffering = 8
rank paused = 9
rank resume = 10
rank seek_enter = 11
rank seek_exit = 12
rank error = 13
rank stop = 14
rank playend = 15
rank exit = 16

-- The status of a rank.
unfoldable pub of_rank : ℕ → PlayerStatus
of_rank n =
    if n == 0
    then invalid
    else if n == 1
    then idle
    else if n == 2
    then init_enter
    else if n == 3
    then init_exit
    else if n == 4
    then prepare_start
    else if n == 5
    then prepared
    else if n == 6
    then start
    else if n == 7
    then running
    else if n == 8
    then buffering
    else if n == 9
    then paused
    else if n == 10
    then resume
    else if n == 11
    then seek_enter
    else if n == 12
    then seek_exit
    else if n == 13
    then error
    else if n == 14
    then stop
    else if n == 15
    then playend
    else exit

of_rank-rank : (s : PlayerStatus) → of_rank (rank s) ≡ s
unfolding of_rank rank
of_rank-rank invalid = refl
of_rank-rank idle = refl
of_rank-rank init_enter = refl
of_rank-rank init_exit = refl
of_rank-rank prepare_start = refl
of_rank-rank prepared = refl
of_rank-rank start = refl
of_rank-rank running = refl
of_rank-rank buffering = refl
of_rank-rank paused = refl
of_rank-rank resume = refl
of_rank-rank seek_enter = refl
of_rank-rank seek_exit = refl
of_rank-rank error = refl
of_rank-rank stop = refl
of_rank-rank playend = refl
of_rank-rank exit = refl

-- No two statuses have one rank.
pub rank_one : (s t : PlayerStatus) → rank s ≡ rank t → s ≡ t
rank_one s t e = sym (of_rank-rank s) ∙ ap of_rank e ∙ of_rank-rank t

abbrev pub below : PlayerStatus → PlayerStatus → Bool
below a b = ltb (rank a) (rank b)

abbrev pub same : PlayerStatus → PlayerStatus → Bool
same a b = rank a == rank b

-- `dtp_state_t`, without the cache times, which nothing sets.
pub record State : Type 0 where
  pub cur_status : PlayerStatus
  pub last_status : PlayerStatus
  pub cur_time_ms : ℤ
  pub cur_time : ℤ
  pub full_time : ℤ
  pub start_time : ℤ
  pub discontinue_point_ms : ℤ
  pub acache_size : ℤ
  pub vcache_size : ℤ
  pub scache_size : ℤ
  pub vdec_type : ℤ

-- `player_ctrl_t`, less the fields that stand with the io thread and those that only pass on to the
-- host.
pub record Ctrl : Type 0 where
  pub has_audio : Bool
  pub has_video : Bool
  pub start_time : ℤ
  pub first_time : ℤ
  pub width : ℤ
  pub height : ℤ

-- The events of the player, the position of a seek with it.
pub data PlayerEvent : Type 0 where
  start_event pause_event resume_event stop_event other_event : PlayerEvent
  seek_event : ℤ → PlayerEvent

-- What the player tells its user: `update_cb` with the state, and `notify_cb` with
-- DTP_EVENTS_BUFFERING_START or DTP_EVENTS_BUFFERING_END.
pub data Notice : Type 0 where
  update : State → Notice
  buffering_start buffering_end : Notice

-- The calls of the host and the demuxer. A call that faults returns `none`. `created` says whether
-- `pthread_create` succeeds, and `now_ms` is `dt_gettime() / 1000`.
pub record Parts (W : Type 0) : Type 0 where
  pub ends : Ends W
  pub host_init : W → Option (ℤ × W)
  pub host_start : W → Option (ℤ × W)
  pub host_pause : W → Option (ℤ × W)
  pub host_resume : W → Option (ℤ × W)
  pub host_stop : W → Option (ℤ × W)
  pub host_resize : ℤ → ℤ → W → Option (ℤ × W)
  pub host_get_state : W → Option HostState
  pub host_get_render_closed : W → Option Bool
  pub host_clear_discontinue_flag : W → Option W
  pub demuxer_seekto : ℤ → W → ℤ × W
  pub created : W → Bool
  pub now_ms : W → ℤ

-- `dtplayer_context_t` with what it points to. `events` is the queue of the player's service.
pub record Context (W : Type 0) : Type 0 where
  pub file_name : List ℕ
  pub duration : ℤ
  pub livemode : ℤ
  pub live_timeout : ℤ
  pub loop_mode : ℤ
  pub state : State
  pub ctrl : Ctrl
  pub io_loop : IoLoop
  pub abort_request : Bool
  pub has_update_cb : Bool
  pub events : List PlayerEvent
  pub told : List Notice
  pub world : W

module _ {W : Type 0} where
  unfoldable pub get_player_status : Context W → PlayerStatus
  get_player_status x = x.state.cur_status

  unfoldable pub set_player_status : Context W → PlayerStatus → Context W
  set_player_status x status =
      let s : State = x.state in
      record x { state = record s { last_status = s.cur_status; cur_status = status } }

  unfoldable pub player_handle_cb : Context W → Context W
  player_handle_cb x = if x.has_update_cb then record x { told = update x.state ∷ x.told } else x

  unfoldable pub notify : Notice → Context W → Context W
  notify n x = record x { told = n ∷ x.told }

  -- A call of the host.
  unfoldable pub call : (W → Option (ℤ × W)) → Context W → Option (ℤ × Context W)
  call f x = f x.world >>= λ r. some (r.0, record x { world = r.1 })

  -- A call of the io thread.
  unfoldable pub with_io : (IoLoop → W → Option (Round W)) → Context W → Option (Context W)
  with_io f x = f x.io_loop x.world >>= λ r. some (record x { io_loop = r.1; world = r.2 })
