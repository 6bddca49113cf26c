-- ===== src/Player/Io.antt =====
-- The thread of dtplayer/dtplayer_io.c, which moves packets from the demuxer to the host. Both are an
-- interface, on a state `W` that the model does not look into. A round of the thread's loop is one
-- step.
mod Tests
pub mod Order
pub mod Keys
pub mod Handshake
use dtplayer_c.Base.{
  ℕ, zero, suc, Bool, true, false, ◌&&◌, Option, none, some, List, [], ◌∷◌, ◌++◌, ◌==◌,
  if◌then◌else◌, ◌>>=◌, ℤ, pos, negsuc,
}
use dtplayer_c.Media.{Packet, is_video}

-- `IO_LOOP_PAUSED`, `IO_LOOP_RUNNING` and `IO_LOOP_QUIT`.
pub data LoopStatus : Type 0 where
  paused running quit : LoopStatus

-- `IO_FLAG_NULL` and `IO_FLAG_PAUSE`.
pub data LoopFlag : Type 0 where
  null pause : LoopFlag

-- What `dtdemuxer_read_frame` returns: DTERROR_NONE with a packet, DTERROR_READ_EOF, or another code.
pub data Frame : Type 0 where
  got : Packet → Frame
  at_end : Frame
  not_now : Frame

-- `dtdemuxer_read_frame`, and whether `dthost_write_frame` returns DTERROR_NONE.
pub record Ends (W : Type 0) : Type 0 where
  pub read_frame : W → Frame × W
  pub write_frame : W → Packet → Bool × W

-- `io_loop_t`, the two fields of `player_ctrl_t` that the thread shares with the player, and the
-- thread's own: `pkt` where `pkt_valid` is 1, and whether it has left its loop.
pub record IoLoop : Type 0 where
  pub status : LoopStatus
  pub flag : LoopFlag
  pub ctrl_wait_key_frame : ℕ
  pub eof_flag : ℕ
  pub pkt : Option Packet
  pub has_left : Bool

-- What becomes of a packet that has been read.
pub data Fate : Type 0 where
  written freed : Packet → Fate

unfoldable pub is_pause : LoopFlag → Bool
is_pause pause = true
is_pause null = false

unfoldable pub is_paused : LoopStatus → Bool
is_paused paused = true
is_paused running = false
is_paused quit = false

unfoldable pub is_quit : LoopStatus → Bool
is_quit quit = true
is_quit paused = false
is_quit running = false

-- `created` says whether `pthread_create` succeeds.
unfoldable pub start_io_thread : Bool → IoLoop → ℤ × IoLoop
start_io_thread false l = (negsuc 0, record l { status = paused; flag = null })
start_io_thread true l =
    (pos 0, record l { status = running; flag = null; pkt = none; has_left = false })

unfoldable pub resume_io_thread : IoLoop → IoLoop
resume_io_thread l = record l { flag = null; status = running }

unfoldable pub io_thread_running : IoLoop → Bool
io_thread_running l = if is_quit l.status then false else true

-- The first test of a round.
unfoldable pub see_flag : IoLoop → IoLoop
see_flag l = if is_pause l.flag then record l { status = paused } else l

-- The packet in hand is freed.
unfoldable pub drop_pkt : Option Packet → IoLoop → List Fate × IoLoop
drop_pkt none l = ([], l)
drop_pkt (some p) l = (freed p ∷ [], record l { pkt = none })

-- `pkt->type == DTP_MEDIA_TYPE_VIDEO && pkt->key_frame == 1`.
unfoldable pub is_key : Packet → Bool
is_key p = is_video p.type && (p.key_frame == 1)

-- A round's result: what became of packets, the loop, and the demuxer and the host.
abbrev pub Round : Type 0 → Type 0
Round W = List Fate × IoLoop × W

module _ {W : Type 0} where
  -- What rounds that follow `r` have to add.
  unfoldable pub go_on : Round W → Option (Round W) → Option (Round W)
  go_on r none = none
  go_on r (some q) = some (r.0 ++ q.0, q.1, q.2)

  -- After `player_write_frame`.
  unfoldable pub after_write : IoLoop → Packet → Bool × W → Round W
  after_write l p (true, w) = (written p ∷ [], record l { pkt = none }, w)
  after_write l p (false, w) = ([], record l { pkt = some p }, w)

module _ {W : Type 0} (ends : Ends W) where
  unfoldable pub write_packet : IoLoop → Packet → W → Round W
  write_packet l p w = after_write l p (ends.write_frame w p)

  -- The check for a key frame, once a packet has been read.
  unfoldable pub check_key : IoLoop → Packet → W → Round W
  check_key l p w =
      if l.ctrl_wait_key_frame == 1
      then (if is_key p
          then write_packet (record l { ctrl_wait_key_frame = 0 }) p w
          else (freed p ∷ [], record l { pkt = none }, w))
      else write_packet l p w

  -- After `player_read_frame`.
  unfoldable pub after_read : IoLoop → Frame × W → Round W
  after_read l (got p, w) = check_key l p w
  after_read l (at_end, w) = ([], record l { status = quit; eof_flag = 1 }, w)
  after_read l (not_now, w) = ([], l, w)

  -- A packet in hand is written, and else one is read.
  unfoldable pub move_packet : Option Packet → IoLoop → W → Round W
  move_packet none l w = after_read l (ends.read_frame w)
  move_packet (some p) l w = write_packet l p w

  unfoldable pub by_status : LoopStatus → IoLoop → W → Round W
  by_status quit l w = ([], record l { has_left = true }, w)
  by_status paused l w = let d = drop_pkt l.pkt l in (d.0, d.1, w)
  by_status running l w = move_packet l.pkt l w

  -- A round of `player_io_thread`. A thread that has left its loop does nothing.
  unfoldable pub player_io_thread : IoLoop → W → Round W
  player_io_thread l w =
      if l.has_left then ([], l, w) else (let m = see_flag l in by_status m.status m w)

  -- The loop of `pause_io_thread`: the thread goes round between two looks at the status.
  unfoldable pub wait_paused : ℕ → IoLoop → W → Option (Round W)
  wait_paused zero l w = none
  wait_paused (suc fuel) l w = elim (is_paused l.status) [
    | true ↦ some ([], l, w)
    | false ↦ (let r = player_io_thread l w in go_on r (wait_paused fuel r.1 r.2))
  ]

  unfoldable pub pause_io_thread : ℕ → IoLoop → W → Option (Round W)
  pause_io_thread fuel l w = wait_paused fuel (record l { flag = pause }) w >>= λ r.
      some (r.0, record r.1 { flag = null }, r.2)

  -- `pthread_join`
  unfoldable pub wait_left : ℕ → IoLoop → W → Option (Round W)
  wait_left zero l w = none
  wait_left (suc fuel) l w = elim l.has_left [
    | true ↦ some ([], l, w)
    | false ↦ (let r = player_io_thread l w in go_on r (wait_left fuel r.1 r.2))
  ]

  unfoldable pub stop_io_thread : ℕ → IoLoop → W → Option (Round W)
  stop_io_thread fuel l w = wait_left fuel (record l { flag = null; status = quit }) w
