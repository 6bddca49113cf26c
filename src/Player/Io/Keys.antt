-- ===== src/Player/Io/Keys.antt =====
-- The wait for a key frame, after a seek or a reset of the decoders.
use dtplayer_c.Base.{
  ◌≡◌, ◌⊎◌, refl, inl, inr, Bool, true, false, none, some, [], ◌∷◌, arith, Bool-cases, ◌==◌,
}
use dtplayer_c.Media.{
  MediaType, unknown, video, audio, raw_data, subtitle, attachment, Packet, is_video,
}
use dtplayer_c.Player.Io.{
  LoopStatus, paused, running, quit, Frame, got, at_end, not_now, Ends, IoLoop, is_pause, see_flag,
  drop_pkt, is_key, Round, after_write, write_packet, check_key, after_read, move_packet, by_status,
  player_io_thread,
}
use dtplayer_c.Player.Io.Order.{handed}

-- After a step that began with the wait for a key frame: nothing is written and the wait goes on, or
-- one packet is tried, a key frame of the video, and the wait is over.
abbrev pub KeyFirst : {W : Type 0} → Round W → Type 0
KeyFirst r =
    ((r.1.ctrl_wait_key_frame ≡ 1) × (r.1.pkt ≡ none) × (handed r.0 ≡ []))
    ⊎ ((p : Packet) × (r.1.ctrl_wait_key_frame ≡ 0)
        × (p.type ≡ video)
        × (p.key_frame ≡ 1)
        × ((handed r.0 ≡ p ∷ []) ⊎ ((handed r.0 ≡ []) × (r.1.pkt ≡ some p))))

is_video-video : (t : MediaType) → is_video t ≡ true → t ≡ video
is_video-video video e = refl
is_video-video unknown e = absurd (cc e)
is_video-video audio e = absurd (cc e)
is_video-video raw_data e = absurd (cc e)
is_video-video subtitle e = absurd (cc e)
is_video-video attachment e = absurd (cc e)

is_key_lem : (p : Packet) → is_key p ≡ true → (p.type ≡ video) × (p.key_frame ≡ 1)
unfolding is_key
is_key_lem p e = ground (arith, is_video-video p.type)

module _ {W : Type 0} (ends : Ends W) where
  after_write-KeyFirst :
      (l : IoLoop) (p : Packet) (r : Bool × W)
      → is_key p ≡ true
      → KeyFirst (after_write (record l { ctrl_wait_key_frame = 0 }) p r)
  unfolding after_write
  after_write-KeyFirst l p (true, w) e =
      let (a, b) = is_key_lem p e in inr (p, refl, a, b, inl refl)
  after_write-KeyFirst l p (false, w) e =
      let (a, b) = is_key_lem p e in inr (p, refl, a, b, inr (refl, refl))

  after_read-KeyFirst :
      (l : IoLoop) (r : Frame × W)
      → l.ctrl_wait_key_frame ≡ 1
      → l.pkt ≡ none
      → KeyFirst (after_read ends l r)
  unfolding after_read check_key write_packet
  after_read-KeyFirst l (at_end, w) k n = inl (k, n, refl)
  after_read-KeyFirst l (not_now, w) k n = inl (k, n, refl)
  after_read-KeyFirst l (got p, w) k n =
      let f : (l.ctrl_wait_key_frame == 1) ≡ true = ground arith in
      elim (Bool-cases (is_key p)) [
        | inl e ↦ simp (f, e) (after_write-KeyFirst l p (ends.write_frame w p) e)
        | inr e ↦ simp (f, e) (inl (k, refl, refl))
      ]

  by_status-KeyFirst :
      (s : LoopStatus) (l : IoLoop) (w : W)
      → l.ctrl_wait_key_frame ≡ 1
      → l.pkt ≡ none
      → KeyFirst (by_status ends s l w)
  unfolding by_status move_packet drop_pkt
  by_status-KeyFirst quit l w k n = inl (k, n, refl)
  by_status-KeyFirst paused l w k n = simp n (inl (k, refl, refl))
  by_status-KeyFirst running l w k n = simp n (after_read-KeyFirst l (ends.read_frame w) k n)

  -- While the thread waits for a key frame and has no packet in hand, a round writes nothing and the
  -- wait goes on, or the packet that it tries to write, and writes or keeps in hand, is a key frame of
  -- the video, and the wait is over.
  pub player_io_thread-KeyFirst :
      (l : IoLoop) (w : W)
      → l.ctrl_wait_key_frame ≡ 1
      → l.pkt ≡ none
      → KeyFirst (player_io_thread ends l w)
  unfolding player_io_thread see_flag
  player_io_thread-KeyFirst l w k n = elim (Bool-cases l.has_left) [
    | inl e ↦ simp e (inl (k, n, refl))
    | inr e ↦ elim (Bool-cases (is_pause l.flag)) [
      | inl f ↦
          simp (e, f)
            (by_status-KeyFirst paused (record l { status = paused; has_left = false }) w k n)
      | inr f ↦ simp (e, f) (by_status-KeyFirst l.status l w k n)
    ]
  ]
