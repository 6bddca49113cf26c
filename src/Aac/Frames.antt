-- ===== src/Aac/Frames.antt =====
-- A stream of ADTS frames.
use dtplayer_c.Base.{
  ℕ, ◌+◌, ◌≤◌, ◌≡◌, sym, ap, ◌∙◌, List, [], ◌∷◌, ◌++◌, arith, length, drop, drop-drop, drop-append,
  length-drop, length-append,
}
use dtplayer_c.Aac.Header.{Adts, IsAdts, header_on}

pub record AdtsFrame : Type 0 where
  pub header : Adts
  pub payload : List ℕ

-- The header is well formed, and gives the length of the frame, which has two bytes of payload or more.
pub record IsFrame (f : AdtsFrame) : Type 0 where
  pub fields : IsAdts f.header
  pub whole : f.header.frame_length ≡ 7 + length f.payload
  pub room : 2 ≤ length f.payload

-- The bytes of a frame, and what follows them.
abbrev pub frame_on : AdtsFrame → List ℕ → List ℕ
frame_on f rest = header_on f.header (f.payload ++ rest)

abbrev pub frames_on : List AdtsFrame → List ℕ → List ℕ
frames_on [] rest = rest
frames_on (f ∷ fs) rest = frame_on f (frames_on fs rest)

abbrev pub AllFrames : List AdtsFrame → Type 0
AllFrames [] = Unit {0}
AllFrames (f ∷ fs) = IsFrame f × AllFrames fs

-- Past a frame are the bytes that follow it.
pub drop-frame :
    (f : AdtsFrame) (rest bs : List ℕ) (i : ℕ)
    → IsFrame f
    → drop i bs ≡ frame_on f rest
    → drop (i + f.header.frame_length) bs ≡ rest
drop-frame f rest bs i v e =
    let past : drop (7 + length f.payload) (frame_on f rest) ≡ rest =
      sym (drop-drop (length f.payload) 7 (frame_on f rest)) ∙ drop-append f.payload rest in
    sym (drop-drop f.header.frame_length i bs)
    ∙ ap (drop f.header.frame_length) e
    ∙ ap (λ (n : ℕ). drop n (frame_on f rest)) v.whole
    ∙ past

-- A frame that begins at `i` ends within the buffer.
pub frame-length :
    (f : AdtsFrame) (rest bs : List ℕ) (i : ℕ)
    → IsFrame f
    → drop i bs ≡ frame_on f rest
    → i + f.header.frame_length + length rest ≡ length bs
frame-length f rest bs i v e =
    let n : length (drop i bs) ≡ 7 + length f.payload + length rest =
      ap length e ∙ omega (arith, length-append f.payload rest) in
    omega (arith, v.whole, length-drop i bs)
