-- ===== src/Player/Io/Tests.antt =====
-- Runs of the thread on a list of packets, with a host that takes all of them.
use dtplayer_c.Base.{◌≡◌, ◌≢◌, refl, true, false, none, some, List, [], ◌∷◌, ◌++◌, pos, ℕ}
use dtplayer_c.Media.{MediaType, video, audio, Packet}
use dtplayer_c.Player.Io.{
  paused, running, quit, null, pause, got, at_end, Frame, Ends, IoLoop, freed, drop_pkt,
  player_io_thread, pause_io_thread,
}
use dtplayer_c.Player.Io.Order.{
  Carries, Accounted, Action, io_round, set_flag, wait_key, run, run-Accounted,
}
use dtplayer_c.Player.Io.Keys.{KeyFirst, player_io_thread-KeyFirst}
use dtplayer_c.Player.Io.Handshake.{pause_io_thread-takes_effect}

-- The packets to read, and those that the host has.
abbrev World : Type 0
World = List Packet × List Packet

abbrev take_first : List Packet → List Packet → Frame × World
take_first [] there = (at_end, ([], there))
take_first (p ∷ ps) there = (got p, (ps, there))

abbrev world_ends : Ends World
world_ends = record {
  read_frame = λ w. take_first w.0 w.1;
  write_frame = λ w p. (true, (w.0, w.1 ++ (p ∷ [])));
}

take_first-reads :
    (a b : List Packet) (p : Packet) (w' : World)
    → take_first a b ≡ (got p, w')
    → (a ≡ p ∷ w'.0) × (w'.1 ≡ b)
take_first-reads [] b p w' e = absurd (cc e)
take_first-reads (q ∷ a) b p w' e = (cc e, cc e)

take_first-reads_no :
    (a b : List Packet) (f : Frame) (w' : World)
    → take_first a b ≡ (f, w')
    → ((p : Packet) → f ≢ got p)
    → (w'.0 ≡ a) × (w'.1 ≡ b)
take_first-reads_no [] b f w' e no_packet = (cc e, cc e)
take_first-reads_no (q ∷ a) b f w' e no_packet = absurd (no_packet q (cc e))

world-Carries : Carries world_ends (λ w. w.0) (λ w. w.1)
world-Carries = record {
  reads = λ w p w' e. take_first-reads w.0 w.1 p w' e;
  reads_no = λ w f w' e h. take_first-reads_no w.0 w.1 f w' e h;
  accepts = λ w p w' e. (cc e, cc e);
  refuses = λ w p w' e. absurd (cc e);
}

abbrev packet : MediaType → ℕ → Packet
packet t key = record {
  payload = 1;
  size = 4;
  pts = pos 0;
  dts = pos 0;
  duration = pos 0;
  key_frame = key;
  type = t;
  flags = 0;
  opaque = 0;
}

abbrev busy : IoLoop
busy = record {
  status = running;
  flag = null;
  ctrl_wait_key_frame = 0;
  eof_flag = 0;
  pkt = some (packet audio 1);
  has_left = false;
}

abbrev waiting : IoLoop
waiting = record busy { ctrl_wait_key_frame = 1; pkt = none }

abbrev finished : IoLoop
finished = record busy { status = quit; pkt = none; has_left = true }

abbrev world : World
world = (packet audio 1 ∷ packet video 0 ∷ packet video 1 ∷ [], [])

abbrev actions : List Action
actions = io_round ∷ wait_key ∷ io_round ∷ io_round ∷ set_flag pause ∷ io_round ∷ []

run-Accounted_example :
    Accounted
      (λ w. w.0)
      (λ w. w.1)
      (packet audio 1 ∷ world.0)
      []
      (run world_ends actions busy world)
run-Accounted_example = run-Accounted world-Carries actions busy world

player_io_thread-KeyFirst_example : KeyFirst (player_io_thread world_ends waiting world)
player_io_thread-KeyFirst_example = player_io_thread-KeyFirst world_ends waiting world refl refl

pause_io_thread-takes_effect_example :
    pause_io_thread world_ends 2 busy world
    ≡ some (
      freed (packet audio 1) ∷ [],
      record busy { status = paused; flag = null; pkt = none },
      world,
    )
unfolding drop_pkt
pause_io_thread-takes_effect_example =
    pause_io_thread-takes_effect world_ends 0 busy world refl (λ e. cc e)
