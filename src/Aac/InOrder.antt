-- ===== src/Aac/InOrder.antt =====
-- Reading a file frame by frame.
use dtplayer_c.Base.{
  ℕ, zero, suc, ◌+◌, ◌*◌, ◌/◌, ◌≤◌, ◌<◌, ◌≡◌, refl, ap, ◌∙◌, false, Option, some, none, List, [],
  ◌∷◌, ◌++◌, ◌>>=◌, arith, length, drop, drop-append,
}
use dtplayer_c.Aac.{Input, Float, Aac, srates}
use dtplayer_c.Aac.Header.{Adts, header_on}
use dtplayer_c.Aac.Probe.{at_byte}
use dtplayer_c.Aac.Frames.{AdtsFrame, IsFrame, frame_on, drop-frame}
use dtplayer_c.Aac.Reader.{
  AacPacket, Outcome, packet, finish, packet_of, context_after, block_of, demuxer_aac_read_frame,
}
use dtplayer_c.Aac.Sync.{IsFile, NoSync, drop-more}
use dtplayer_c.Aac.Deliver.{read_round-whole}

-- A frame behind some bytes that are no part of one.
abbrev pub Item : Type 0
Item = List ℕ × AdtsFrame

abbrev pub items_on : List Item → List ℕ → List ℕ
items_on [] rest = rest
items_on ((junk, f) ∷ items) rest = junk ++ frame_on f (items_on items rest)

-- The bytes between the frames have no 0xFF, at most `most` of them stand together, and the rates are
-- among the twelve of the table.
abbrev pub AllItems : ℕ → List Item → Type 0
AllItems most [] = Unit {0}
AllItems most ((junk, f) ∷ items) =
    NoSync junk
    × (length junk ≤ most)
    × IsFrame f
    × (f.header.sampling_frequency_index < 12)
    × AllItems most items

-- The bytes of the frames, and of the packets.
abbrev pub frame_bytes : List Item → List (List ℕ × ℕ)
frame_bytes [] = []
frame_bytes ((_, f) ∷ items) =
    (header_on f.header f.payload, f.header.frame_length) ∷ frame_bytes items

abbrev pub packet_bytes : List AacPacket → List (List ℕ × ℕ)
packet_bytes [] = []
packet_bytes (p ∷ packets) = (p.bytes, p.size) ∷ packet_bytes packets

-- A number of calls, each of which is to give a packet.
unfoldable pub read_packets :
    {T W : Type 0} → Input W → Float T → ℕ → ℕ → Aac T → W → Option (List AacPacket × Aac T × W)
read_packets input float fuel zero a w = some ([], a, w)
read_packets input float fuel (suc n) a w = demuxer_aac_read_frame input float fuel a w >>= λ r.
    elim r.0 [
      | packet p ↦ read_packets input float fuel n r.1 r.2 >>= λ q. some (p ∷ q.0, q.1, q.2)
      | _ ↦ none
    ]

module _ {T W : Type 0} {input : Input W} (float : Float T) {file : List ℕ} {at : W → ℕ}
    (v : IsFile input file at) where
  -- What a call that delivers a frame returns and leaves.
  abbrev Delivers : Adts → List ℕ → List ℕ → Option (Outcome × Aac T × W) → Type 0
  Delivers h payload rest r =
      (p : AacPacket) × (a' : Aac T) × (w' : W) × (r ≡ some (packet p, a', w'))
      × (p.bytes ≡ header_on h payload)
      × (p.size ≡ h.frame_length)
      × (length a'.buf ≡ 8)
      × (drop (at w') file ≡ rest)
      × (input.eof w' ≡ false)

  -- A call delivers the next frame, whatever stands before it.
  demuxer_aac_read_frame-next :
      (junk : List ℕ) (h : Adts) (payload rest : List ℕ) (fuel : ℕ) (a : Aac T) (w : W)
      → NoSync junk
      → IsFrame (record { header = h; payload = payload })
      → h.sampling_frequency_index < 12
      → length a.buf ≡ 8
      → drop (at w) file ≡ junk ++ header_on h (payload ++ rest)
      → input.eof w ≡ false
      → length junk ≤ fuel
      → Delivers h payload rest (demuxer_aac_read_frame input float (suc (suc fuel)) a w)
  unfolding demuxer_aac_read_frame finish packet_of context_after
  demuxer_aac_read_frame-next junk h [] rest fuel a w clean is known eight e unread enough =
      absurd (omega (arith, is.room))
  demuxer_aac_read_frame-next junk h (p ∷ ps) rest fuel a w clean is known eight e unread enough =
      let (rate, looked_up) = at_byte srates h.sampling_frequency_index (omega arith) in
      let (w', r, q, f) =
        read_round-whole float v h p ps rest is.fields (omega (arith, is.whole))
          (omega (arith, is.room)) known looked_up junk (suc (suc fuel)) a w eight clean e
          (omega arith) in
      let after : drop (at w') file ≡ rest =
        ap (λ (k : ℕ). drop k file) q
        ∙ drop-frame (record { header = h; payload = p ∷ ps }) rest file (at w + length junk) is
            (drop-more file (at w) (length junk) e
              ∙ drop-append junk (header_on h (p ∷ (ps ++ rest)))) in
      let a' : Aac T = record a { buf = header_on h (p ∷ []) } in
      let tm : T = block_of float (some (rate, h.blocks / 2 * 2 + 1)) in
      (
        packet_of float a' h.frame_length tm ps,
        context_after float a' h.frame_length tm,
        w',
        rw (unread, demuxer_aac_read_frame) (rw r refl),
        refl,
        refl,
        refl,
        after,
        f ∙ unread,
      )

  -- Calls, one for each frame, on a stretch of a file that holds frames with other bytes between them:
  -- each gives a packet, and the packets are the frames, whole and in order. The calls leave the stream
  -- behind the last frame. The frames are to have one of the first twelve rates and two bytes of payload
  -- or more, and the bytes between them no 0xFF; the fuel is two more than stand together of these.
  pub read_packets-InOrder :
      (items : List Item) (most : ℕ) (rest : List ℕ) (a : Aac T) (w : W)
      → AllItems most items
      → length a.buf ≡ 8
      → drop (at w) file ≡ items_on items rest
      → input.eof w ≡ false
      → (packets : List AacPacket) × (a' : Aac T) × (w' : W) × (read_packets input float
            (suc (suc most))
            (length items)
            a
            w
          ≡ some (packets, a', w'))
        × (packet_bytes packets ≡ frame_bytes items)
        × (drop (at w') file ≡ rest)
  unfolding read_packets
  read_packets-InOrder [] most rest a w all eight e unread = ([], a, w, refl, refl, e)
  read_packets-InOrder ((junk, f) ∷ items) most rest a w (clean, short, is, known, all) eight e
        unread =
      let (p, a1, w1, r, b, s, eight', e', unread') =
        demuxer_aac_read_frame-next junk f.header f.payload (items_on items rest) most a w clean is
          known eight e unread short in
      let (packets, a', w', r', b', e'') =
        read_packets-InOrder items most rest a1 w1 all eight' e' unread' in
      (p ∷ packets, a', w', rw r (rw r' refl), rw (b, s, b') refl, e'')
