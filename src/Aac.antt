-- ===== src/Aac.antt =====
-- dtdemux/demuxer/demuxer_aac.c: frames of AAC audio behind ADTS headers. The stream is an interface on
-- a state `W`, the float times are a type `T` with the operations that the code applies to them.
pub mod Header
pub mod Probe
pub mod Frames
pub mod Accept
pub mod Reader
pub mod Sync
pub mod Deliver
pub mod InOrder
pub mod Seek
pub mod Faults
pub mod File
pub mod Tests
use Prim.Native.Nat.{bit_and, bit_or}
use dtplayer_c.Base.{
  ℕ, zero, suc, ◌+◌, ◌-◌, ◌*◌, ◌/◌, ◌%◌, ◌^◌, Bool, true, false, not, ◌||◌, Option, none, some,
  List, [], ◌∷◌, ◌++◌, min, ltb, leb, ◌==◌, if◌then◌else◌, ◌>>=◌, ◌>>◌, guard, length, take, drop,
  get_elem?, ℤ, pos, negsuc, ltb_ℤ,
}

-- The calls of dtstream_api.h, and `malloc`, which may refuse. `rewind` is `dtstream_seek` to 0. A read
-- returns its result and the bytes that it has stored.
pub record Input (W : Type 0) : Type 0 where
  pub eof : W → Bool
  pub read : ℕ → W → ℤ × List ℕ × W
  pub skip : ℤ → W → W
  pub rewind : W → W
  pub malloc : ℕ → W → Bool

-- What the code does with `float`: `block_time num srate` is `num * 1024.0 / srate`, `to_pts` counts 90
-- kHz, and `rate_of size time` is the division for the bit rate, and
-- the last four are the conversions and the operations by which the seek counts its frames.
pub record Float (T : Type 0) : Type 0 where
  pub zero_time : T
  pub block_time : ℕ → ℕ → T
  pub plus : T → T → T
  pub to_pts : T → ℤ
  pub rate_of : ℕ → T → ℤ
  pub of_int : ℤ → T
  pub divide : T → T → T
  pub times : T → T → T
  pub to_int : T → ℤ

-- `aac_ctx_t`
pub record Aac (T : Type 0) : Type 0 where
  pub buf : List ℕ
  pub size : ℕ
  pub time : T
  pub last_pts : T
  pub bitrate : ℤ
  pub samplerate : ℕ

-- The table of `aac_parse_frame`.
abbrev pub srates : List ℕ
srates =
    96000 ∷ 88200 ∷ 64000 ∷ 48000 ∷ 44100 ∷ 32000 ∷ 24000 ∷ 22050 ∷ 16000 ∷ 12000 ∷ 11025 ∷ 8000 ∷ 0
    ∷ 0 ∷ 0 ∷ []

-- The test of the second byte, behind one that is 0xFF.
unfoldable pub is_sync : ℕ → Bool
is_sync c = bit_and c 0xF6 == 0xF0

-- The length of the frame, and what is stored at `srate` and `num`, where something is.
abbrev pub Parsed : Type 0
Parsed = ℕ × Option (ℕ × ℕ)

unfoldable pub frame_length : ℕ → ℕ → ℕ → ℕ
frame_length b3 b4 b5 =
    bit_or (bit_or (bit_and b3 0x03 * 2 ^ 11) (b4 * 2 ^ 3)) (bit_and (b5 / 2 ^ 5) 0x07)

unfoldable pub parse_length : List ℕ → ℕ → Option Parsed
parse_length buf sr = do
  srate ← get_elem? srates sr
  b3 ← get_elem? buf 3
  b4 ← get_elem? buf 4
  b5 ← get_elem? buf 5
  b6 ← get_elem? buf 6
  some (frame_length b3 b4 b5, some (srate, bit_and b6 0x02 + 1))

unfoldable pub parse_rate : List ℕ → Option Parsed
parse_rate buf = do
  b2 ← get_elem? buf 2
  let sr = bit_and (b2 / 2 ^ 2) 0x0F
  if ltb 11 sr then some (0, none) else parse_length buf sr

unfoldable pub aac_parse_frame : List ℕ → Option Parsed
aac_parse_frame buf = do
  b0 ← get_elem? buf 0
  b1 ← get_elem? buf 1
  if not (b0 == 0xFF) || not (is_sync b1) then some (0, none) else parse_rate buf

-- `DT_RB16` and `DT_RB32` at an offset of the buffer.
unfoldable pub rb16 : List ℕ → ℕ → Option ℕ
rb16 buf i = do x ← get_elem? buf i; y ← get_elem? buf (i + 1); some (bit_or (x * 2 ^ 8) y)

unfoldable pub rb32 : List ℕ → ℕ → Option ℕ
rb32 buf i = do
  x ← get_elem? buf i
  y ← get_elem? buf (i + 1)
  z ← get_elem? buf (i + 2)
  t ← get_elem? buf (i + 3)
  some (bit_or (bit_or (bit_or (x * 2 ^ 24) (y * 2 ^ 16)) (z * 2 ^ 8)) t)

unfoldable pub is_header : ℕ → Bool
is_header header = bit_and header 0xFFF6 == 0xFFF0

-- One step of the inner loop of `demuxer_aac_probe`: how far to the next frame, or `none` for a break.
unfoldable pub size_at : List ℕ → ℕ → ℕ → Option (Option ℕ)
size_at bs end i = do
  header ← rb16 bs i
  if not (is_header header) then some none else do
    word ← rb32 bs (i + 3)
    let fsize = bit_and (word / 2 ^ 13) 0x1FFF
    some (if ltb fsize 7 then none else some (min fsize (end - i)))

-- The inner loop: the offset where it stops, and the frames that it has passed.
unfoldable pub count_frames : ℕ → List ℕ → ℕ → ℕ → ℕ → Option (ℕ × ℕ)
count_frames zero bs end i frames = none
count_frames (suc fuel) bs end i frames = elim (ltb i end) [
  | false ↦ some (i, frames)
  | true ↦ size_at bs end i >>= λ step. elim step [
    | none ↦ some (i, frames)
    | some n ↦ count_frames fuel bs end (i + n) (frames + 1)
  ]
]

-- The outer loop: `max_frames` and `first_frames`.
unfoldable pub scan : ℕ → List ℕ → ℕ → ℕ → ℕ → ℕ → Option (ℕ × ℕ)
scan zero bs end i max_frames first_frames = none
scan (suc fuel) bs end i max_frames first_frames = elim (ltb i end) [
  | false ↦ some (max_frames, first_frames)
  | true ↦ count_frames (suc fuel) bs end i 0 >>= λ r.
      scan fuel bs end (r.0 + 1) (if ltb r.1 max_frames then max_frames else r.1)
        (if i == 0 then r.1 else first_frames)
]

unfoldable pub score : ℕ → ℕ → ℕ
score max_frames first_frames =
    if leb 3 first_frames
    then 51
    else if ltb 500 max_frames
    then 50
    else if leb 3 max_frames
    then 25
    else if leb 1 max_frames
    then 1
    else 0

-- The buffer of the probe holds `bs`, and its level is their number.
unfoldable pub demuxer_aac_probe : List ℕ → Option ℕ
demuxer_aac_probe bs = if ltb (length bs) 10 then some 0 else do
  r ← scan (length bs + 1) bs (length bs - 7) 0 0 0
  some (if leb 50 (score r.0 r.1) then 1 else 0)
