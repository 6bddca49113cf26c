-- ===== src/Audio/Tests.antt =====
-- An output with a buffer of eight bytes, and a device that takes three at a time.
use dtplayer_c.Base.{
  ℕ, ◌+◌, ◌≡◌, refl, inl, true, false, none, some, List, [], ◌∷◌, arith, min, length, pos, negsuc,
  replicate,
}
use dtplayer_c.Buffer.{live}
use dtplayer_c.Audio.{running, Device, AudioOut, audio_output_get_latency}
use dtplayer_c.Audio.Run.{
  Pipe, Action, play_round, refill, decoded, started, paused, stopped, run, IsPipe, Flows,
  run-Flows,
}
use dtplayer_c.Audio.Control.{
  before_inited, AudioCtx, active, audio_get_current_pts, audio_update_pts,
  audio_update_pts-current,
}

-- The state counts the calls of pause and resume.
abbrev device : Device ℕ
device = record {
  update_pts = λ w. w;
  has_device = λ w. true;
  alloc_ao_context = λ w. true;
  init = λ w. (pos 0, w);
  write = λ bytes w. (pos (min 3 (length bytes)), w);
  pause_device = λ w. w + 1;
  resume_device = λ w. w + 10;
  stop_device = λ w. w;
  latency = λ w. pos 40;
  too_late = λ level w. false;
}

abbrev out : AudioOut
out = record {
  status = running;
  in_hand = 9 ∷ [];
  unit_size = 4;
  render_inited = false;
  aoc = false;
  first_frame_rendered = false;
  last_valid_latency = pos 0;
  has_left = false;
}

abbrev pipe : Pipe ℕ
pipe = record {
  out = out;
  buffer = record { block = live (replicate 8 0); size = 8; level = 0; rd_ptr = 0; wr_ptr = 0 };
  block = record { outptr = 1 ∷ 2 ∷ 3 ∷ []; fill_size = 1; outlen = 2 };
  world = 0;
}

pipe-IsPipe : IsPipe device pipe
pipe-IsPipe = (
  (
    replicate 8 0,
    record {
      is_live = refl;
      fits = refl;
      rd_in = omega arith;
      wr_in = omega arith;
      level_in = omega arith;
      ends = inl refl;
    },
  ),
  omega arith,
)

abbrev actions : List Action
actions =
    play_round
    ∷ refill true
    ∷ decoded (4 ∷ 5 ∷ 6 ∷ 7 ∷ [])
    ∷ play_round
    ∷ paused
    ∷ refill true
    ∷ started
    ∷ play_round
    ∷ stopped
    ∷ play_round
    ∷ []

run-Flows_example : Flows device pipe (run device actions pipe)
run-Flows_example = run-Flows device actions pipe pipe-IsPipe

abbrev playing : AudioCtx
playing = record {
  audio_state = active;
  audio_out = record out { aoc = true; first_frame_rendered = true };
}

abbrev unopened : AudioCtx
unopened = record { audio_state = active; audio_out = out }

audio_update_pts-current_example :
    ((audio_update_pts device (pos 900) playing 0).0 ≡ some (pos 860))
    × ((audio_get_current_pts device (pos 900) playing 0).0 ≡ pos 860)
    × ((audio_update_pts device (negsuc 0) playing 0).0 ≡ none)
    × ((audio_get_current_pts device (negsuc 0) playing 0).0 ≡ negsuc 0)
unfolding audio_output_get_latency before_inited
audio_update_pts-current_example =
    audio_update_pts-current device 900 40 playing 0 (omega arith) refl
