-- ===== src/Player/Tests.antt =====
-- The player's theorems at a small player, with a host whose calls succeed and with one that faults
-- once it is freed.
use dtplayer_c.Base.{
  ◌≡◌, refl, Bool, true, false, none, some, [], ◌∷◌, ◌++◌, pos, negsuc, if◌then◌else◌, sub_64,
  int64, wrap, ◌-ℤ◌,
}
use dtplayer_c.Host.Clock.{is_invalid}
use dtplayer_c.Host.State.{HostState}
use dtplayer_c.Player.{
  idle, running, buffering, paused, rank, State, Ctrl, stop_event, pause_event, seek_event, Parts,
  Context, stop, update, set_player_status, get_player_status, player_handle_cb, call,
}
use dtplayer_c.Player.Io.{LoopStatus, null, IoLoop, not_now, Ends}
use dtplayer_c.Player.Control.{player_pause, player_seekto, announce, player_stop, seek_follows}
use dtplayer_c.Player.Update.{player_update_state, need_reset_decoder}
use dtplayer_c.Player.Network.{http, network_playback, starts_with_any, or_else, dt_strstart}
use dtplayer_c.Player.Loop.{
  need_enter, eof_is, player_buffering_check, player_handle_event, event_round, handle_all,
  do_event, unqueue,
}
use dtplayer_c.Player.Pause.{Works, EndsIn, player_buffering_check-EndsIn}
use dtplayer_c.Player.Events.{IsReady}
use dtplayer_c.Player.Stop.{
  event_round-stop, player_handle_event-stop_lost, player_update_state-hangs,
}
use dtplayer_c.Player.Land.{Tells, Landed, player_seekto-Landed}
use dtplayer_c.Player.Position.{Plain}

abbrev host_state : HostState
host_state = record {
  abuf_level = pos 0;
  vbuf_level = pos 0;
  sbuf_level = pos 0;
  adec_err_cnt = pos 0;
  vdec_err_cnt = pos 0;
  sdec_err_cnt = pos 0;
  sys_time_start = pos 900;
  sys_time_current = pos 180900;
  pts_audio_first = pos 900;
  pts_audio_current = pos 180900;
  audio_discontinue_flag = false;
  audio_discontinue_point = pos 0;
  adec_last_ms = pos 0;
  pts_video_first = pos 900;
  pts_video_current = pos 180900;
  video_discontinue_flag = false;
  video_discontinue_point = pos 0;
  vdec_last_ms = pos 1;
  vdec_type = pos 0;
}

-- The state says whether the host has been freed.
abbrev still_ends : Ends Bool
still_ends = record { read_frame = λ w. (not_now, w); write_frame = λ w p. (false, w) }

abbrev calm : Parts Bool
calm = record {
  ends = still_ends;
  host_init = λ w. some (pos 0, false);
  host_start = λ w. some (pos 0, w);
  host_pause = λ w. some (pos 0, w);
  host_resume = λ w. some (pos 0, w);
  host_stop = λ w. some (pos 0, true);
  host_resize = λ width height w. some (pos 0, w);
  host_get_state = λ w. some host_state;
  host_get_render_closed = λ w. some false;
  host_clear_discontinue_flag = λ w. some w;
  demuxer_seekto = λ t w. (pos 0, w);
  created = λ w. true;
  now_ms = λ w. pos 5001;
}

-- Here the demuxer refuses to seek, and a host that is freed cannot resume.
abbrev strict : Parts Bool
strict = record calm {
  host_resume = λ w. if w then none else some (pos 0, w);
  demuxer_seekto = λ t w. (negsuc 0, w);
}

calm-Works : Works calm
calm-Works = record {
  init_works = λ w. (false, refl);
  start_works = λ w. (w, refl);
  pause_works = λ w. (w, refl);
  resume_works = λ w. (w, refl);
  stop_works = λ w. (true, refl);
}

calm-Tells : Tells calm
calm-Tells = record { tells = λ w. (host_state, refl); clears = λ w. (w, refl) }

abbrev state : State
state = record {
  cur_status = running;
  last_status = idle;
  cur_time_ms = pos 0;
  cur_time = pos 0;
  full_time = pos 0;
  start_time = pos 0;
  discontinue_point_ms = pos 0;
  acache_size = pos 1000;
  vcache_size = pos 1000;
  scache_size = pos 0;
  vdec_type = pos 0;
}

abbrev ctrl : Ctrl
ctrl = record {
  has_audio = true;
  has_video = true;
  start_time = pos 900;
  first_time = negsuc 0;
  width = negsuc 0;
  height = negsuc 0;
}

abbrev io : IoLoop
io = record {
  status = LoopStatus.running;
  flag = null;
  ctrl_wait_key_frame = 0;
  eof_flag = 0;
  pkt = none;
  has_left = false;
}

abbrev player : Context Bool
player = record {
  file_name = http ++ (b'a' ∷ []);
  duration = pos 60;
  livemode = pos 0;
  live_timeout = pos 5000;
  loop_mode = pos 0;
  state = state;
  ctrl = ctrl;
  io_loop = io;
  abort_request = false;
  has_update_cb = true;
  events = [];
  told = [];
  world = false;
}

player_buffering_check-EndsIn_example :
    EndsIn buffering (some (pos 0, false)) (player_buffering_check calm player)
unfolding network_playback starts_with_any or_else dt_strstart need_enter eof_is rank
player_buffering_check-EndsIn_example = player_buffering_check-EndsIn calm-Works player refl refl

-- A pause and a stop, and a stop and a pause.
abbrev stopping : Context Bool
stopping = record player { events = pause_event ∷ stop_event ∷ [] }

abbrev stop_first : Context Bool
stop_first = record player { events = stop_event ∷ pause_event ∷ [] }

abbrev stopped : Context Bool
stopped =
    let s : State = state in
    record player {
      state = record s { cur_status = stop; last_status = paused };
      abort_request = true;
      told = update (record s { cur_status = paused; last_status = running }) ∷ [];
    }

stopping-stopped : player_handle_event calm 2 stopping ≡ some stopped
unfolding player_handle_event handle_all do_event player_pause player_stop announce
    set_player_status get_player_status player_handle_cb call unqueue rank
stopping-stopped = refl

-- A pause, a seek and a stop.
abbrev leaving : Context Bool
leaving = record player { events = pause_event ∷ seek_event (pos 30) ∷ stop_event ∷ [] }

leaving-IsReady : IsReady leaving
unfolding rank
leaving-IsReady = record { set_up = refl; at_work = refl; in_loop = refl; not_live = refl }

event_round-stop_example :
    (y : Context Bool) × (event_round calm 2 (pos 0) leaving ≡ some (false, y))
    × (y.state.cur_status ≡ stop)
    × (y.abort_request ≡ true)
unfolding seek_follows
event_round-stop_example =
    event_round-stop calm-Works calm-Tells (λ t w. refl) 0 (pos 0)
      (pause_event ∷ seek_event (pos 30) ∷ []) leaving leaving-IsReady (tt, (refl, tt)) refl

player_handle_event-stop_lost_example :
    (y : Context Bool) × (player_handle_event calm 2 stop_first ≡ some y)
    × (y.abort_request ≡ true)
    × (y.state.cur_status ≡ paused)
player_handle_event-stop_lost_example =
    player_handle_event-stop_lost calm 2 calm-Works stop_first refl

-- A live stream whose io thread has ended.
abbrev ended : Context Bool
ended = record player {
  livemode = pos 1;
  io_loop = record io { status = LoopStatus.quit; has_left = true };
}

player_update_state-hangs_example : player_update_state calm 9 ended ≡ none
unfolding rank need_reset_decoder sub_64 int64 wrap ◌-ℤ◌
player_update_state-hangs_example =
    player_update_state-hangs calm 9 ended host_state refl refl refl refl refl

player_seekto-Landed_example : Landed player (player_seekto calm 2 (pos 30) player)
unfolding rank seek_follows
player_seekto-Landed_example =
    player_seekto-Landed calm-Works calm-Tells 0 (pos 30) player refl refl refl refl refl
      (λ w. refl)

player-Plain : Plain 900 180000 state ctrl host_state
unfolding is_invalid
player-Plain = record {
  both = (refl, refl);
  no_jump = (refl, refl);
  no_point = refl;
  no_offset = refl;
  starts = refl;
  known = refl;
  video_at = refl;
}
