-- ===== src/Aac/Reader.antt =====
-- `demuxer_aac_read_frame` and `demuxer_aac_seek_frame` of dtdemux/demuxer/demuxer_aac.c.
use dtplayer_c.Base.{
  ℕ, zero, suc, ◌+◌, ◌-◌, ◌%◌, ◌^◌, Bool, true, false, not, Option, none, some, List, [], ◌∷◌, ◌++◌,
  ltb, ◌==◌, if◌then◌else◌, ◌>>=◌, ◌>>◌, guard, length, take, drop, ℤ, pos, negsuc, pos_part, ltb_ℤ,
  ◌-ℤ◌,
}
use dtplayer_c.Aac.{Input, Float, Aac, Parsed, is_sync, aac_parse_frame}

-- The packet that is filled in: its bytes, its size and its time.
pub record AacPacket : Type 0 where
  pub bytes : List ℕ
  pub size : ℕ
  pub pts : ℤ

-- What a call returns: DTERROR_NONE with a packet, or one of the errors.
pub data Outcome : Type 0 where
  packet : AacPacket → Outcome
  read_eof read_failed read_again : Outcome

-- A round of the loop goes on, or returns.
pub data Next (T W : Type 0) : Type 0 where
  onward : Aac T → W → Next T W
  returns : Outcome → Aac T → W → Next T W

-- A byte that a read may have stored.
unfoldable pub stored : ℕ → List ℕ → ℕ
stored c [] = c
stored c (b ∷ _) = b

-- Bytes stored over those of `buf` from `i` on.
unfoldable pub store_at : ℕ → List ℕ → List ℕ → List ℕ
store_at i bytes buf = take i buf ++ bytes ++ drop (i + length bytes) buf

module _ {W : Type 0} (input : Input W) where
  -- `while (c1 != 0xFF)`: whether the byte was found, rather than a read failed.
  unfoldable pub find_ff : ℕ → ℕ → W → Option (Bool × W)
  find_ff zero c1 w = none
  find_ff (suc fuel) c1 w = elim (c1 == 0xFF) [
    | true ↦ some (true, w)
    | false ↦ elim (ltb_ℤ (input.read 1 w).0 (pos 0)) [
      | true ↦ some (false, (input.read 1 w).2)
      | false ↦ find_ff fuel (stored c1 (input.read 1 w).1) (input.read 1 w).2
    ]
  ]

module _ {T : Type 0} (float : Float T) where
  unfoldable pub block_of : Option (ℕ × ℕ) → T
  block_of none = float.zero_time
  block_of (some (srate, num)) = if srate == 0 then float.zero_time else float.block_time num srate

  unfoldable pub packet_of : Aac T → ℕ → T → List ℕ → AacPacket
  packet_of a len tm got = record {
    bytes = a.buf ++ got;
    size = len;
    pts = float.to_pts (float.plus a.last_pts tm);
  }

  unfoldable pub context_after : Aac T → ℕ → T → Aac T
  context_after a len tm =
      let size = (a.size + len) % 2 ^ 64 in
      let time = float.plus a.time tm in
      record a {
        last_pts = float.plus a.last_pts tm;
        size = size;
        time = time;
        bitrate = float.rate_of size time;
      }

  -- `time / 1000000 * aac_ctx->samplerate / 1024`, cut to an `int`.
  unfoldable pub frames_before : ℤ → ℕ → ℤ
  frames_before timestamp samplerate =
      let seconds = float.divide (float.of_int timestamp) (float.of_int (pos 1000000)) in
      let sample = float.times seconds (float.of_int (pos samplerate)) in
      float.to_int (float.divide sample (float.of_int (pos 1024)))

module _ {T W : Type 0} (input : Input W) (float : Float T) where
  -- The rest of the frame has been read: `got` are its bytes.
  unfoldable pub finish : Aac T → ℕ → T → List ℕ → W → Next T W
  finish a len tm got w =
      returns (packet (packet_of float a len tm got)) (context_after float a len tm) w

  -- The header has been parsed. The copy of eight bytes into a block of `len` faults where that is
  -- smaller.
  unfoldable pub take_frame : Aac T → Parsed → W → Option (Next T W)
  take_frame a (zero, _) w = some (onward a (input.skip (negsuc 5) w))
  take_frame a (suc n, info) w =
      if not (input.malloc (suc n) w)
      then some (returns read_again a (input.skip (negsuc 7) w))
      else do
        guard (not (ltb (suc n) 8))
        let (_, got, w') = input.read (suc n - 8) w
        some (finish a (suc n) (block_of float info) got w')

  -- The other six bytes of the header.
  unfoldable pub rest_of_header : Aac T → W → Option (Next T W)
  rest_of_header a w =
      let (ret, bytes, w') = input.read 6 w in
      let a' = record a { buf = store_at 2 bytes a.buf } in
      if ltb_ℤ ret (pos 6)
      then some (returns read_failed a' w')
      else do parsed ← aac_parse_frame a'.buf; take_frame a' parsed w'

  -- The byte behind 0xFF.
  unfoldable pub second_byte : Aac T → Bool × W → Option (Next T W)
  second_byte a (false, w) = some (returns read_failed a w)
  second_byte a (true, w) =
      let (ret, bytes, w') = input.read 1 w in
      if ltb_ℤ ret (pos 0)
      then some (returns read_failed a w')
      else if not (is_sync (stored 0 bytes))
      then some (onward a w')
      else rest_of_header (record a { buf = store_at 0 (0xFF ∷ stored 0 bytes ∷ []) a.buf }) w'

  unfoldable pub read_round : ℕ → Aac T → W → Option (Next T W)
  read_round fuel a w = find_ff input fuel 0 w >>= second_byte a

  -- The loop that looks for a sync word, with fuel for its rounds and for each search of a byte.
  unfoldable pub demuxer_aac_read_frame : ℕ → Aac T → W → Option (Outcome × Aac T × W)
  demuxer_aac_read_frame zero a w = none
  demuxer_aac_read_frame (suc fuel) a w = elim (input.eof w) [
    | true ↦ some (read_eof, a, w)
    | false ↦ read_round (suc fuel) a w >>= λ next. elim next [
      | onward a' w' ↦ demuxer_aac_read_frame fuel a' w'
      | returns r a' w' ↦ some (r, a', w')
    ]
  ]

  -- One round of the loop of the seek: the frames that are still to be passed are `nf`. A frame of
  -- several blocks may pass more than are left.
  unfoldable pub skip_frame : Aac T → Parsed → ℕ → W → ℕ × Aac T × W
  skip_frame a (zero, _) nf w = (nf, a, input.skip (negsuc 6) w)
  skip_frame a (suc n, none) nf w = (nf, a, w)
  skip_frame a (suc n, some (srate, num)) nf w = (
    nf - num,
    record a { last_pts = float.plus a.last_pts (float.block_time num srate) },
    input.skip (pos (suc n) -ℤ pos 8) w,
  )

  unfoldable pub seek_loop : ℕ → Aac T → ℕ → W → Option (Aac T × W)
  seek_loop zero a nf w = none
  seek_loop (suc fuel) a zero w = some (a, w)
  seek_loop (suc fuel) a (suc nf) w =
      let (ret, bytes, w') = input.read 8 w in
      let a' = record a { buf = store_at 0 bytes a.buf } in
      elim (ltb_ℤ ret (pos 8)) [
        | true ↦ some (a', w')
        | false ↦ aac_parse_frame a'.buf >>= λ parsed.
            let r = skip_frame a' parsed (suc nf) w' in seek_loop fuel r.1 r.0 r.2
      ]

  -- The loop runs while the number is positive.
  unfoldable pub demuxer_aac_seek_frame : ℕ → Aac T → ℤ → W → Option (ℤ × Aac T × W)
  demuxer_aac_seek_frame fuel a timestamp w =
      let frames = pos_part (frames_before float timestamp a.samplerate) in
      if ltb_ℤ timestamp (pos 0) then some (negsuc 0, a, w) else do
        r ← seek_loop fuel (record a { last_pts = float.zero_time }) frames (input.rewind w)
        some (pos 0, r.0, r.1)
