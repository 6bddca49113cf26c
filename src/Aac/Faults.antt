-- ===== src/Aac/Faults.antt =====
-- Streams on which `demuxer_aac_read_frame` goes wrong.
use dtplayer_c.Base.{
  ℕ, zero, suc, ◌+◌, ◌*◌, ◌/◌, ◌<◌, ◌≡◌, refl, ap, ◌∙◌, true, false, Option, some, none, List, [],
  ◌∷◌, ◌++◌, ◌==◌, ltb, arith, length, drop, pos,
}
use dtplayer_c.Aac.{Input, Float, Aac, srates, aac_parse_frame, demuxer_aac_probe}
use dtplayer_c.Aac.Header.{Adts, IsAdts, header_on, aac_parse_frame-reserved}
use dtplayer_c.Aac.Frames.{AdtsFrame, AllFrames, frames_on}
use dtplayer_c.Aac.Accept.{demuxer_aac_probe-accepts}
use dtplayer_c.Aac.Probe.{at_byte}
use dtplayer_c.Aac.Sync.{IsFile}
use dtplayer_c.Aac.Deliver.{read_round-parsed}
use dtplayer_c.Aac.Reader.{take_frame, stored, find_ff, read_round, demuxer_aac_read_frame}

-- A file that begins with three frames or more, the first of them at 7350 Hz, whose index is 12, passes
-- the probe, but `aac_parse_frame` refuses the header of that first frame.
pub demuxer_aac_probe-refused :
    (bs : List ℕ) (f g h : AdtsFrame) (fs : List AdtsFrame) (rest : List ℕ)
    → AllFrames (f ∷ g ∷ h ∷ fs)
    → bs ≡ frames_on (f ∷ g ∷ h ∷ fs) rest
    → f.header.sampling_frequency_index ≡ 12
    → (demuxer_aac_probe bs ≡ some 1) × (aac_parse_frame bs ≡ some (0, none))
demuxer_aac_probe-refused bs f g h fs rest v e rate = (
  demuxer_aac_probe-accepts bs f g h fs rest v e,
  ap aac_parse_frame e
      ∙ aac_parse_frame-reserved f.header (f.payload ++ frames_on (g ∷ h ∷ fs) rest) v.0.fields
          (omega arith),
)

-- A stream that has ended, has set no mark of the end, and answers each read with 0 bytes.
pub record IsDry {W : Type 0} (input : Input W) (Dry : W → Type 0) : Type 0 where
  pub dry_ret : (w : W) → Dry w → (input.read 1 w).0 ≡ pos 0
  pub dry_bytes : (w : W) → Dry w → (input.read 1 w).1 ≡ []
  pub dry_stays : (w : W) → Dry w → Dry (input.read 1 w).2
  pub no_mark : (w : W) → Dry w → input.eof w ≡ false

module _ {T W : Type 0} {input : Input W} (float : Float T) {Dry : W → Type 0}
    (v : IsDry input Dry) where
  find_ff-endless :
      (fuel c : ℕ) (w : W) → (c == 0xFF) ≡ false → Dry w → find_ff input fuel c w ≡ none
  unfolding find_ff stored
  find_ff-endless zero c w n d = refl
  find_ff-endless (suc fuel) c w n d =
      rw (n, find_ff)
        (rw (v.dry_ret w d)
          (rw (v.dry_bytes w d) (find_ff-endless fuel c (input.read 1 w).2 n (v.dry_stays w d))))

  -- On such a stream the call never returns, whatever its fuel.
  pub demuxer_aac_read_frame-hangs :
      (fuel : ℕ) (a : Aac T) (w : W) → Dry w → demuxer_aac_read_frame input float fuel a w ≡ none
  unfolding demuxer_aac_read_frame read_round
  demuxer_aac_read_frame-hangs zero a w d = refl
  demuxer_aac_read_frame-hangs (suc fuel) a w d =
      rw (v.no_mark w d, demuxer_aac_read_frame) (rw (find_ff-endless (suc fuel) 0 w refl d) refl)

-- A header that gives a length below 8, but not 0.
pub record IsShort (a : Adts) : Type 0 where
  pub fields : IsAdts a
  pub known : a.sampling_frequency_index < 12
  pub short : a.frame_length < 8
  pub some_length : 0 < a.frame_length

module _ {T W : Type 0} {input : Input W} (float : Float T) {file : List ℕ} {at : W → ℕ}
    (v : IsFile input file at) where
  take_frame-overflow :
      (n : ℕ) (info : Option (ℕ × ℕ)) (a : Aac T) (w : W)
      → 0 < n
      → n < 8
      → take_frame input float a (n, info) w ≡ none
  unfolding take_frame
  take_frame-overflow zero info a w more lt = absurd (omega arith)
  take_frame-overflow (suc n) info a w more lt =
      let short : ltb (suc n) 8 ≡ true = ground arith in rw (v.has_memory (suc n) w, short) refl

  -- Where the next header gives a length from 1 to 7 and one of the first twelve rates, and the memory
  -- for a packet is there, the first round of the call comes to the frame that it has parsed, with this
  -- length, and there, where the code runs no loop, the copy of eight bytes of header into a block of
  -- that length is a fault, and so is the call. The stream has not ended, and one byte at least is behind
  -- the header.
  pub demuxer_aac_read_frame-overflow :
      (h : Adts) (p : ℕ) (rest : List ℕ) (fuel : ℕ) (a : Aac T) (w : W)
      → IsShort h
      → length a.buf ≡ 8
      → drop (at w) file ≡ header_on h (p ∷ rest)
      → input.eof w ≡ false
      → (a' : Aac T) × (w' : W) × (info : Option (ℕ × ℕ)) × (a'.buf ≡ header_on h (p ∷ []))
        × (read_round input float (suc (suc fuel)) a w
            ≡ take_frame input float a' (h.frame_length, info) w')
        × (take_frame input float a' (h.frame_length, info) w' ≡ none)
        × (demuxer_aac_read_frame input float (suc (suc fuel)) a w ≡ none)
  unfolding demuxer_aac_read_frame
  demuxer_aac_read_frame-overflow h p rest fuel a w is eight e unread =
      let (rate, looked_up) = at_byte srates h.sampling_frequency_index (omega (arith, is.known)) in
      let (w', r, _, _) =
        read_round-parsed float v h p rest is.fields is.known looked_up [] (suc (suc fuel)) a w
          eight tt e (omega arith) in
      let fault =
        take_frame-overflow h.frame_length (some (rate, h.blocks / 2 * 2 + 1))
          (record a { buf = header_on h (p ∷ []) }) w' is.some_length is.short in
      (
        record a { buf = header_on h (p ∷ []) },
        w',
        some (rate, h.blocks / 2 * 2 + 1),
        refl,
        r,
        fault,
        rw (unread, demuxer_aac_read_frame) (rw (r, fault) refl),
      )
