-- ===== src/Player/Io/Order.antt =====
-- What becomes of the packets that the thread reads.
use dtplayer_c.Base.{
  ◌≡◌, ◌≢◌, refl, sym, ◌∙◌, ap, inl, inr, Bool, true, false, Option, none, some, List, [], ◌∷◌,
  ◌++◌, Bool-cases, append_assoc, append-nil, ◌==◌,
}
use dtplayer_c.Media.{Packet}
use dtplayer_c.Player.Io.{
  LoopStatus, paused, running, quit, LoopFlag, Frame, got, at_end, not_now, Ends, IoLoop, Fate,
  written, freed, is_pause, see_flag, drop_pkt, is_key, Round, after_write, write_packet, check_key,
  after_read, move_packet, by_status, player_io_thread,
}

-- The packet of a fate, and the packets handed to the host.
unfoldable pub packet_of : Fate → Packet
packet_of (written p) = p
packet_of (freed p) = p

abbrev pub packets : List Fate → List Packet
packets [] = []
packets (f ∷ fs) = packet_of f ∷ packets fs

abbrev pub handed : List Fate → List Packet
handed [] = []
handed (written p ∷ fs) = p ∷ handed fs
handed (freed p ∷ fs) = handed fs

packets-append : (fs gs : List Fate) → packets (fs ++ gs) ≡ packets fs ++ packets gs
packets-append [] gs = refl
packets-append (f ∷ fs) gs = ap (◌∷◌ (packet_of f)) (packets-append fs gs)

handed-append : (fs gs : List Fate) → handed (fs ++ gs) ≡ handed fs ++ handed gs
handed-append [] gs = refl
handed-append (written p ∷ fs) gs = ap (◌∷◌ p) (handed-append fs gs)
handed-append (freed p ∷ fs) gs = handed-append fs gs

-- The packet in hand, as a list.
abbrev pub in_hand : Option Packet → List Packet
in_hand none = []
in_hand (some p) = p ∷ []

-- The demuxer hands out the packets of `source` in order, and the host puts what it accepts behind
-- the packets of `sink`.
pub record Carries {W : Type 0} (ends : Ends W) (source sink : W → List Packet) : Type 0 where
  pub reads :
      (w : W) (p : Packet) (w' : W)
      → ends.read_frame w ≡ (got p, w')
      → (source w ≡ p ∷ source w') × (sink w' ≡ sink w)
  pub reads_no :
      (w : W) (f : Frame) (w' : W)
      → ends.read_frame w ≡ (f, w')
      → ((p : Packet) → f ≢ got p)
      → (source w' ≡ source w) × (sink w' ≡ sink w)
  pub accepts :
      (w : W) (p : Packet) (w' : W)
      → ends.write_frame w p ≡ (true, w')
      → (source w' ≡ source w) × (sink w' ≡ sink w ++ (p ∷ []))
  pub refuses :
      (w : W) (p : Packet) (w' : W)
      → ends.write_frame w p ≡ (false, w')
      → (source w' ≡ source w) × (sink w' ≡ sink w)

-- Of the packets `ahead`, those that have met their fate come first, then the one in hand; the host
-- has those written behind the packets that were `there`.
abbrev pub Accounted :
    {W : Type 0}
    → (W → List Packet)
    → (W → List Packet)
    → List Packet
    → List Packet
    → Round W
    → Type 0
Accounted source sink ahead there r =
    (packets r.0 ++ (in_hand r.1.pkt ++ source r.2) ≡ ahead) × (sink r.2 ≡ there ++ handed r.0)

module _ {W : Type 0} {ends : Ends W} {source sink : W → List Packet}
    (carries : Carries ends source sink) where
  after_write-Accounted :
      (l : IoLoop) (p : Packet) (w : W) (r : Bool × W)
      → ends.write_frame w p ≡ r
      → Accounted source sink (p ∷ source w) (sink w) (after_write l p r)
  unfolding after_write packet_of
  after_write-Accounted l p w (true, w') e =
      let (a, b) = carries.accepts w p w' e in (ap (◌∷◌ p) a, b)
  after_write-Accounted l p w (false, w') e =
      let (a, b) = carries.refuses w p w' e in (ap (◌∷◌ p) a, b ∙ sym (append-nil (sink w)))

  write_packet-Accounted :
      (l : IoLoop) (p : Packet) (w : W)
      → Accounted source sink (p ∷ source w) (sink w) (write_packet ends l p w)
  unfolding write_packet
  write_packet-Accounted l p w = after_write-Accounted l p w (ends.write_frame w p) refl

  check_key-Accounted :
      (l : IoLoop) (p : Packet) (w : W)
      → Accounted source sink (p ∷ source w) (sink w) (check_key ends l p w)
  unfolding check_key packet_of
  check_key-Accounted l p w = elim (Bool-cases (l.ctrl_wait_key_frame == 1)) [
    | inl e ↦ elim (Bool-cases (is_key p)) [
      | inl f ↦ simp (e, f) (write_packet-Accounted (record l { ctrl_wait_key_frame = 0 }) p w)
      | inr f ↦ simp (e, f) (refl, sym (append-nil (sink w)))
    ]
    | inr e ↦ simp e (write_packet-Accounted l p w)
  ]

  after_read-Accounted :
      (l : IoLoop) (w : W) (r : Frame × W)
      → l.pkt ≡ none
      → ends.read_frame w ≡ r
      → Accounted source sink (source w) (sink w) (after_read ends l r)
  unfolding after_read
  after_read-Accounted l w (got p, w') n e =
      let (a, b) = carries.reads w p w' e in
      let (x, y) = check_key-Accounted l p w' in
      (x ∙ sym a, y ∙ ap (λ (t : List Packet). t ++ handed (check_key ends l p w').0) b)
  after_read-Accounted l w (at_end, w') n e =
      let (a, b) = carries.reads_no w at_end w' e (λ p q. cc q) in
      simp n (a, b ∙ sym (append-nil (sink w)))
  after_read-Accounted l w (not_now, w') n e =
      let (a, b) = carries.reads_no w not_now w' e (λ p q. cc q) in
      simp n (a, b ∙ sym (append-nil (sink w)))

  move_packet-Accounted :
      (l : IoLoop) (w : W) (hand : Option Packet)
      → l.pkt ≡ hand
      → Accounted source sink (in_hand hand ++ source w) (sink w) (move_packet ends hand l w)
  unfolding move_packet
  move_packet-Accounted l w none e = after_read-Accounted l w (ends.read_frame w) e refl
  move_packet-Accounted l w (some p) e = write_packet-Accounted l p w

  drop_pkt-Accounted :
      (l : IoLoop) (w : W) (hand : Option Packet)
      → l.pkt ≡ hand
      → Accounted source sink
          (in_hand hand ++ source w)
          (sink w)
          ((drop_pkt hand l).0, (drop_pkt hand l).1, w)
  unfolding drop_pkt packet_of
  drop_pkt-Accounted l w none e = simp e (refl, sym (append-nil (sink w)))
  drop_pkt-Accounted l w (some p) e = (refl, sym (append-nil (sink w)))

  by_status-Accounted :
      (s : LoopStatus) (l : IoLoop) (w : W)
      → Accounted source sink (in_hand l.pkt ++ source w) (sink w) (by_status ends s l w)
  unfolding by_status
  by_status-Accounted quit l w = (refl, sym (append-nil (sink w)))
  by_status-Accounted paused l w = drop_pkt-Accounted l w l.pkt refl
  by_status-Accounted running l w = move_packet-Accounted l w l.pkt refl

  player_io_thread-Accounted :
      (l : IoLoop) (w : W)
      → Accounted source sink (in_hand l.pkt ++ source w) (sink w) (player_io_thread ends l w)
  unfolding player_io_thread see_flag
  player_io_thread-Accounted l w = elim (Bool-cases l.has_left) [
    | inl e ↦ simp e (refl, sym (append-nil (sink w)))
    | inr e ↦ elim (Bool-cases (is_pause l.flag)) [
      | inl f ↦
          simp (e, f)
            (by_status-Accounted paused (record l { status = paused; has_left = false }) w)
      | inr f ↦ simp (e, f) (by_status-Accounted l.status l w)
    ]
  ]

-- What happens to the loop: a round of the thread, or one of the calls that control it.
pub data Action : Type 0 where
  io_round : Action
  set_flag : LoopFlag → Action
  set_status : LoopStatus → Action
  wait_key : Action

unfoldable pub act : {W : Type 0} → Ends W → Action → IoLoop → W → Round W
act ends io_round l w = player_io_thread ends l w
act ends (set_flag f) l w = ([], record l { flag = f }, w)
act ends (set_status s) l w = ([], record l { status = s }, w)
act ends wait_key l w = ([], record l { ctrl_wait_key_frame = 1 }, w)

unfoldable pub run : {W : Type 0} → Ends W → List Action → IoLoop → W → Round W
run ends [] l w = ([], l, w)
run ends (a ∷ actions) l w =
    let r = act ends a l w in let q = run ends actions r.1 r.2 in (r.0 ++ q.0, q.1, q.2)

module _ {W : Type 0} {ends : Ends W} {source sink : W → List Packet}
    (carries : Carries ends source sink) where
  act-Accounted :
      (a : Action) (l : IoLoop) (w : W)
      → Accounted source sink (in_hand l.pkt ++ source w) (sink w) (act ends a l w)
  unfolding act
  act-Accounted io_round l w = player_io_thread-Accounted carries l w
  act-Accounted (set_flag f) l w = (refl, sym (append-nil (sink w)))
  act-Accounted (set_status s) l w = (refl, sym (append-nil (sink w)))
  act-Accounted wait_key l w = (refl, sym (append-nil (sink w)))

  -- Whatever rounds the thread makes, and whenever the player sets its flag, its status or the wait
  -- for a key frame between them, every packet that the thread had in hand or has read since is
  -- written to the host once, freed once, or still in hand, in the order of the demuxer, and the
  -- host has received those written, in order. The demuxer and the host are to keep the order of
  -- packets.
  pub run-Accounted :
      (actions : List Action) (l : IoLoop) (w : W)
      → Accounted source sink (in_hand l.pkt ++ source w) (sink w) (run ends actions l w)
  unfolding run
  run-Accounted [] l w = (refl, sym (append-nil (sink w)))
  run-Accounted (a ∷ actions) l w =
      let r = act ends a l w in
      let q = run ends actions r.1 r.2 in
      let (x, y) = act-Accounted a l w in
      let (x', y') = run-Accounted actions r.1 r.2 in
      (
        ap (λ (t : List Packet). t ++ (in_hand q.1.pkt ++ source q.2)) (packets-append r.0 q.0)
            ∙ append_assoc (packets r.0) (packets q.0) (in_hand q.1.pkt ++ source q.2)
            ∙ ap (λ (t : List Packet). packets r.0 ++ t) x'
            ∙ x,
        y'
            ∙ ap (λ (t : List Packet). t ++ handed q.0) y
            ∙ append_assoc (sink w) (handed r.0) (handed q.0)
            ∙ ap (λ (t : List Packet). sink w ++ t) (sym (handed-append r.0 q.0)),
      )
