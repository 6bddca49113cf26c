-- ===== src/Video/Tests.antt =====
-- The thread at three pictures and a clock that stands still.
use dtplayer_c.Base.{
  ℕ, ◌≡◌, refl, true, false, some, [], ◌∷◌, pos, negsuc, llabs, sub_64, int64, wrap, ◌-ℤ◌, List,
}
use dtplayer_c.Host.Clock.{is_invalid}
use dtplayer_c.Video.{Picture, running, Screen, Out, jumps, video_output_thread}
use dtplayer_c.Video.Run.{Action, out_round, decoded, paused, resumed, run, Shown, run-Shown}
use dtplayer_c.Video.Due.{AtWork, fate_at, queue_at, video_output_thread-fate_at}

abbrev picture : ℕ → Picture
picture n = record { pts = pos n; image = n }

-- The state is the clock.
abbrev screen : Screen ℕ
screen = record {
  get_systime = λ w. pos w;
  update_systime = λ t w. w;
  update_pts = λ t w. w;
  render = λ p w. (pos 0, w);
  estimate = λ t. t;
  default_is_null = λ w. false;
  alloc_vo_context = λ w. true;
  init = λ w. w;
  now = λ w. pos 0;
}

abbrev out : Out
out = record {
  status = running;
  last_valid_pts = pos 100;
  current_pts = pos 100;
  video_discontinue = false;
  vo_queue = picture 200 ∷ picture 300 ∷ [];
  by_duration = false;
  render_ms = pos 0;
  render_clock_start = negsuc 0;
  device_is_null = false;
  voc_is_live = true;
  has_left = false;
}

abbrev actions : List Action
actions = out_round ∷ decoded (picture 400) ∷ paused ∷ out_round ∷ resumed ∷ out_round ∷ []

run-Shown_example : Shown actions out (run screen actions out 250)
run-Shown_example = run-Shown screen actions out 250 refl refl

out-AtWork : AtWork out
out-AtWork = record {
  is_running = refl;
  in_loop = refl;
  by_clock = refl;
  live = refl;
  has_device = refl;
  no_jump = refl;
}

video_output_thread-fate_at_example :
    (o' : Out) × (w' : ℕ) × (video_output_thread screen out 250
      ≡ some (fate_at (pos 250) (picture 200) (pos 300), o', w'))
    × (o'.vo_queue ≡ queue_at (pos 250) (picture 200) (picture 300) [])
unfolding jumps is_invalid llabs sub_64 int64 wrap ◌-ℤ◌
video_output_thread-fate_at_example =
    video_output_thread-fate_at screen out (picture 200) (picture 300) [] 250 out-AtWork refl refl
      refl refl

-- The null device, with one picture.
abbrev null_out : Out
null_out = record out { device_is_null = true; vo_queue = picture 200 ∷ [] }
