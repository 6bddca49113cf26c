-- ===== src/Aac/Header.antt =====
-- ADTS headers, written from their fields, and what `aac_parse_frame` reads off them.
use Prim.Native.Nat.{bit_and, bit_or}
use dtplayer_c.Base.{
  ℕ, zero, suc, ◌+◌, ◌-◌, ◌*◌, ◌/◌, ◌%◌, ◌^◌, ◌≤◌, ◌<◌, ◌≡◌, refl, ap, ◌∙◌, true, false, none, some,
  List, ◌∷◌, ltb, min, arith, get_elem?, get_elem?-drop, drop,
}
use dtplayer_c.Base.Bits.{or-field, and-mask, and-last}
use dtplayer_c.Aac.{
  is_sync, frame_length, parse_length, parse_rate, aac_parse_frame, srates, is_header, rb16, rb32,
  size_at,
}

-- The fields of the fixed and the variable header, `marks` the four bits from original_copy on, and
-- `blocks` the number of blocks less one.
pub record Adts : Type 0 where
  pub id : ℕ
  pub protection_absent : ℕ
  pub profile : ℕ
  pub sampling_frequency_index : ℕ
  pub private_bit : ℕ
  pub channel_configuration : ℕ
  pub marks : ℕ
  pub frame_length : ℕ
  pub fullness : ℕ
  pub blocks : ℕ

-- Each field fits its bits.
pub record IsAdts (a : Adts) : Type 0 where
  pub id_bits : a.id < 2
  pub protection_bits : a.protection_absent < 2
  pub profile_bits : a.profile < 4
  pub rate_bits : a.sampling_frequency_index < 16
  pub private_bits : a.private_bit < 2
  pub channel_bits : a.channel_configuration < 8
  pub mark_bits : a.marks < 16
  pub length_bits : a.frame_length < 8192
  pub fullness_bits : a.fullness < 2048
  pub block_bits : a.blocks < 4

abbrev pub third : Adts → ℕ
third a =
    a.profile * 64
    + a.sampling_frequency_index * 4
    + a.private_bit * 2
    + a.channel_configuration / 4

abbrev pub fourth : Adts → ℕ
fourth a = a.channel_configuration % 4 * 64 + a.marks * 4 + a.frame_length / 2048

abbrev pub seventh : Adts → ℕ
seventh a = a.fullness % 64 * 4 + a.blocks

-- The seven bytes, and what follows them.
abbrev pub header_on : Adts → List ℕ → List ℕ
header_on a rest =
    0xFF
    ∷ (0xF0 + a.id * 8 + a.protection_absent)
    ∷ third a
    ∷ fourth a
    ∷ (a.frame_length / 8 % 256)
    ∷ (a.frame_length % 8 * 32 + a.fullness / 64)
    ∷ seventh a
    ∷ rest

and-two : (b : ℕ) → bit_and b 2 ≡ b / 2 % 2 * 2
and-two b = omega (arith, and-last b 2, and-mask 1 (b / 2))

abbrev pub Syncs : ℕ → Type 0
Syncs c = (is_sync c ≡ true) × (is_header (bit_or (0xFF * 2 ^ 8) c) ≡ true)

pub second-Syncs :
    (id protection : ℕ) → id < 2 → protection < 2 → Syncs (0xF0 + id * 8 + protection)
unfolding is_sync is_header
second-Syncs zero zero i p = (refl, refl)
second-Syncs zero (suc zero) i p = (refl, refl)
second-Syncs (suc zero) zero i p = (refl, refl)
second-Syncs (suc zero) (suc zero) i p = (refl, refl)
second-Syncs (suc (suc id)) protection i p = absurd (omega arith)
second-Syncs zero (suc (suc protection)) i p = absurd (omega arith)
second-Syncs (suc zero) (suc (suc protection)) i p = absurd (omega arith)

-- The bits of the length, as a sum.
frame_length_lem :
    (b3 b4 b5 : ℕ) → b4 < 256 → frame_length b3 b4 b5 ≡ b3 % 4 * 2048 + b4 * 8 + b5 / 32 % 8
unfolding frame_length
frame_length_lem b3 b4 b5 lt =
    let high : bit_or (bit_and b3 3 * 2 ^ 11) (b4 * 2 ^ 3) ≡ (bit_and b3 3 * 256 + b4) * 2 ^ 3 =
      omega (arith, or-field 11 (bit_and b3 3) (b4 * 2 ^ 3) (omega arith)) in
    let low : bit_and (b5 / 2 ^ 5) 7 ≡ b5 / 32 % 8 = and-mask 3 (b5 / 32) in
    rw (high, low)
      (omega
        (arith, or-field 3 (bit_and b3 3 * 256 + b4) (b5 / 32 % 8) (omega arith), and-mask 2 b3))

-- `aac_parse_frame` reads the length off any header whose rate is one of the twelve that its table has,
-- and the rate. Of the number of blocks it reads the higher bit only.
pub aac_parse_frame-header :
    (a : Adts) (rest : List ℕ) {rate : ℕ}
    → IsAdts a
    → a.sampling_frequency_index < 12
    → get_elem? srates a.sampling_frequency_index ≡ some rate
    → aac_parse_frame (header_on a rest) ≡ some (a.frame_length, some (rate, a.blocks / 2 * 2 + 1))
unfolding aac_parse_frame parse_rate parse_length
aac_parse_frame-header a rest v lt at =
    let sync = (second-Syncs a.id a.protection_absent v.id_bits v.protection_bits).0 in
    let sr : bit_and (third a / 2 ^ 2) 0x0F ≡ a.sampling_frequency_index =
      and-mask 4 (third a / 4) ∙ omega arith in
    let small : ltb 11 a.sampling_frequency_index ≡ false = ground arith in
    let len : frame_length (fourth a) (a.frame_length / 8 % 256)
          (a.frame_length % 8 * 32 + a.fullness / 64)
        ≡ a.frame_length =
      omega (
        arith,
        v.length_bits,
        v.mark_bits,
        v.fullness_bits,
        frame_length_lem (fourth a) (a.frame_length / 8 % 256)
            (a.frame_length % 8 * 32 + a.fullness / 64) (omega arith),
      ) in
    let num : bit_and (seventh a) 2 ≡ a.blocks / 2 * 2 =
      omega (arith, and-two (seventh a), v.block_bits) in
    rw (sync, sr, small, at, len, num)

-- It refuses every other header.
pub aac_parse_frame-reserved :
    (a : Adts) (rest : List ℕ)
    → IsAdts a
    → 12 ≤ a.sampling_frequency_index
    → aac_parse_frame (header_on a rest) ≡ some (0, none)
unfolding aac_parse_frame parse_rate
aac_parse_frame-reserved a rest v le =
    let sync = (second-Syncs a.id a.protection_absent v.id_bits v.protection_bits).0 in
    let sr : bit_and (third a / 2 ^ 2) 0x0F ≡ a.sampling_frequency_index =
      and-mask 4 (third a / 4) ∙ omega (arith, v.rate_bits, v.channel_bits, v.private_bits) in
    let large : ltb 11 a.sampling_frequency_index ≡ true = ground arith in rw (sync, sr, large) refl

-- The sum that `DT_RB32` reads.
word_sum :
    (x y z t : ℕ)
    → y < 256
    → z < 256
    → t < 256
    → bit_or (bit_or (bit_or (x * 2 ^ 24) (y * 2 ^ 16)) (z * 2 ^ 8)) t
      ≡ ((x * 256 + y) * 256 + z) * 256 + t
word_sum x y z t ly lz lt =
    let first : bit_or (x * 2 ^ 24) (y * 2 ^ 16) ≡ (x * 256 + y) * 2 ^ 16 =
      omega (arith, or-field 24 x (y * 2 ^ 16) (omega arith)) in
    let second : bit_or ((x * 256 + y) * 2 ^ 16) (z * 2 ^ 8) ≡ ((x * 256 + y) * 256 + z) * 2 ^ 8 =
      omega (arith, or-field 16 (x * 256 + y) (z * 2 ^ 8) (omega arith)) in
    rw (first, second) (or-field 8 ((x * 256 + y) * 256 + z) t lt)

module _ (a : Adts) (rest : List ℕ) (v : IsAdts a) (bs : List ℕ) (i : ℕ)
    (here : drop i bs ≡ header_on a rest) where
  byte_at : (j k : ℕ) → k ≡ i + j → get_elem? bs k ≡ get_elem? (header_on a rest) j
  byte_at j k e =
      ap (get_elem? bs) e ∙ get_elem?-drop bs i j ∙ ap (λ (l : List ℕ). get_elem? l j) here

  rb16-header : rb16 bs i ≡ some (bit_or (0xFF * 2 ^ 8) (0xF0 + a.id * 8 + a.protection_absent))
  unfolding rb16
  rb16-header = rw (byte_at 0 i (omega arith), byte_at 1 (i + 1) refl)

  rb32-header :
      (word : ℕ) × (rb32 bs (i + 3) ≡ some word) × (bit_and (word / 2 ^ 13) 0x1FFF ≡ a.frame_length)
  unfolding rb32
  rb32-header =
      let y : ℕ = a.frame_length / 8 % 256 in
      let z : ℕ = a.frame_length % 8 * 32 + a.fullness / 64 in
      let sum =
        word_sum (fourth a) y z (seventh a) (omega arith) (omega (arith, v.fullness_bits))
          (omega (arith, v.block_bits)) in
      (
        ((fourth a * 256 + y) * 256 + z) * 256 + seventh a,
        rw (
          byte_at 3 (i + 3) refl,
          byte_at 4 (i + 3 + 1) (omega arith),
          byte_at 5 (i + 3 + 2) (omega arith),
          byte_at 6 (i + 3 + 3) (omega arith),
          sum,
        ),
        and-mask 13 ((((fourth a * 256 + y) * 256 + z) * 256 + seventh a) / 2 ^ 13)
            ∙ omega (arith, v.length_bits, v.mark_bits, v.fullness_bits, v.block_bits),
      )

  -- The probe reads the same length off a header at `i`.
  pub size_at-header :
      (end : ℕ) → 7 ≤ a.frame_length → size_at bs end i ≡ some (some (min a.frame_length (end - i)))
  unfolding size_at
  size_at-header end seven =
      let (word, e, len) = rb32-header in
      let sync = (second-Syncs a.id a.protection_absent v.id_bits v.protection_bits).1 in
      let long : ltb a.frame_length 7 ≡ false = ground arith in rw (rb16-header, sync, e, len, long)
