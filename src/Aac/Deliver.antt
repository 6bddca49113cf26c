-- ===== src/Aac/Deliver.antt =====
-- `demuxer_aac_read_frame` delivers the frames of a file, whole and in order.
use dtplayer_c.Base.{
  ℕ, zero, suc, ◌+◌, ◌-◌, ◌*◌, ◌/◌, ◌%◌, ◌<◌, ◌≡◌, refl, ap, ◌∙◌, true, false, Option, some, List,
  [], ◌∷◌, ◌++◌, ltb, arith, length, take, drop, drop_all, drop-drop, take-append, drop-append_add,
  get_elem?,
}
use dtplayer_c.Aac.{Input, Float, Aac, srates}
use dtplayer_c.Aac.Header.{
  Adts, IsAdts, header_on, third, fourth, seventh, second-Syncs, aac_parse_frame-header,
}
use dtplayer_c.Aac.Reader.{
  Next, stored, store_at, block_of, finish, take_frame, rest_of_header, second_byte, read_round,
}
use dtplayer_c.Aac.Sync.{IsFile, NoSync, drop-more, within, find_ff-found}

-- The header that is stored piece by piece, with the first byte of the payload.
abbrev second : Adts → ℕ
second h = 0xF0 + h.id * 8 + h.protection_absent

abbrev six : Adts → ℕ → List ℕ → List ℕ
six h p rest =
    third h
    ∷ fourth h
    ∷ (h.frame_length / 8 % 256)
    ∷ (h.frame_length % 8 * 32 + h.fullness / 64)
    ∷ seventh h
    ∷ p
    ∷ rest

stored-header :
    (h : Adts) (p : ℕ) (buf : List ℕ)
    → length buf ≡ 8
    → store_at 2 (six h p []) (store_at 0 (0xFF ∷ second h ∷ []) buf) ≡ header_on h (p ∷ [])
unfolding store_at
stored-header h p buf e =
    let end : drop 6 (drop 2 buf) ≡ [] = drop-drop 6 2 buf ∙ drop_all 8 buf (omega arith) in
    ap (λ (t : List ℕ). header_on h (p ∷ t)) end

module _ {T W : Type 0} {input : Input W} (float : Float T) {file : List ℕ} {at : W → ℕ}
    (v : IsFile input file at) where
  -- The frame is complete.
  take_frame-whole :
      (n : ℕ) (info : Option (ℕ × ℕ)) (ps rest : List ℕ) (a : Aac T) (w : W)
      → n ≡ 8 + length ps
      → 0 < length ps
      → drop (at w) file ≡ ps ++ rest
      → (w' : W) × (take_frame input float a (n, info) w
          ≡ some (finish input float a n (block_of float info) ps w'))
        × (at w' ≡ at w + length ps)
        × (input.eof w' ≡ input.eof w)
  unfolding take_frame
  take_frame-whole zero info ps rest a w len room e = absurd (omega arith)
  take_frame-whole (suc n) info ps rest a w len room e =
      let l = within file (at w) ps rest e room in
      let k : suc n - 8 ≡ length ps = omega arith in
      let long : ltb (suc n) 8 ≡ false = ground arith in
      let b =
        v.read_bytes (length ps) w room (omega arith)
        ∙ ap (take (length ps)) e
        ∙ take-append ps rest in
      (
        (input.read (length ps) w).2,
        rw (v.has_memory (suc n) w, long, k, b) refl,
        v.read_at (length ps) w room (omega arith),
        v.read_eof (length ps) w room (omega arith),
      )

  module _ (h : Adts) (p : ℕ) (more : List ℕ) {rate : ℕ} (fields : IsAdts h)
      (known : h.sampling_frequency_index < 12)
      (looked_up : get_elem? srates h.sampling_frequency_index ≡ some rate) where
    -- The header has been read, and parsed: the stream stands eight bytes behind its start.
    abbrev pub AtFrame : Aac T → W → ℕ → Option (Next T W) → Type 0
    AtFrame a w n r =
        (w' : W) × (r
          ≡ take_frame input float (record a { buf = header_on h (p ∷ []) })
              (h.frame_length, some (rate, h.blocks / 2 * 2 + 1)) w')
        × (at w' ≡ at w + n)
        × (input.eof w' ≡ input.eof w)

    rest_of_header-parsed :
        (a : Aac T) (w : W)
        → length a.buf ≡ 8
        → drop (at w) file ≡ six h p more
        → AtFrame a w 6 (
            rest_of_header input float
              (record a { buf = store_at 0 (0xFF ∷ second h ∷ []) a.buf })
              w)
    unfolding rest_of_header
    rest_of_header-parsed a w eight e =
        let l = within file (at w) (six h p []) more e (omega arith) in
        let r = v.read_ret 6 w (omega arith) (omega arith) in
        let b = v.read_bytes 6 w (omega arith) (omega arith) ∙ ap (take 6) e in
        let parsed = aac_parse_frame-header h (p ∷ []) fields known looked_up in
        (
          (input.read 6 w).2,
          rw (r, b, stored-header h p a.buf eight, parsed) refl,
          v.read_at 6 w (omega arith) (omega arith),
          v.read_eof 6 w (omega arith) (omega arith),
        )

    second_byte-parsed :
        (a : Aac T) (w : W)
        → length a.buf ≡ 8
        → drop (at w) file ≡ second h ∷ six h p more
        → AtFrame a w 7 (second_byte input float a (true, w))
    unfolding second_byte stored
    second_byte-parsed a w eight e =
        let l = within file (at w) (second h ∷ []) (six h p more) e (omega arith) in
        let r = v.read_ret 1 w (omega arith) (omega arith) in
        let b = v.read_bytes 1 w (omega arith) (omega arith) ∙ ap (take 1) e in
        let q = v.read_at 1 w (omega arith) (omega arith) in
        let sync =
          (second-Syncs h.id h.protection_absent fields.id_bits fields.protection_bits).0 in
        let (w', t, q', f) =
          rest_of_header-parsed a (input.read 1 w).2 eight
            (ap (λ (k : ℕ). drop k file) q ∙ drop-more file (at w) 1 e) in
        (w', rw (r, b, sync) t, omega arith, f ∙ v.read_eof 1 w (omega arith) (omega arith))

    -- A header behind bytes that are no 0xFF.
    pub read_round-parsed :
        (junk : List ℕ) (fuel : ℕ) (a : Aac T) (w : W)
        → length a.buf ≡ 8
        → NoSync junk
        → drop (at w) file ≡ junk ++ header_on h (p ∷ more)
        → length junk + 1 < fuel
        → AtFrame a w (length junk + 8) (read_round input float fuel a w)
    unfolding read_round
    read_round-parsed junk fuel a w eight clean e enough =
        let bytes = second h ∷ six h p more in
        let (w1, g, q, f) = find_ff-found v junk bytes fuel 0 w clean refl e enough in
        let ahead : drop (at w1) file ≡ bytes =
          ap (λ (k : ℕ). drop k file) (q ∙ omega arith)
          ∙ drop-more file (at w) (length junk + 1) e
          ∙ drop-append_add 1 junk (0xFF ∷ bytes) in
        let (w', t, q', f') = second_byte-parsed a w1 eight ahead in
        (w', rw g t, omega arith, f' ∙ f)

  module _ (h : Adts) (p : ℕ) (ps rest : List ℕ) {rate : ℕ} (fields : IsAdts h)
      (len : h.frame_length ≡ 8 + length ps) (room : 0 < length ps)
      (known : h.sampling_frequency_index < 12)
      (looked_up : get_elem? srates h.sampling_frequency_index ≡ some rate) where
    -- A frame behind bytes that are no 0xFF.
    pub read_round-whole :
        (junk : List ℕ) (fuel : ℕ) (a : Aac T) (w : W)
        → length a.buf ≡ 8
        → NoSync junk
        → drop (at w) file ≡ junk ++ header_on h (p ∷ (ps ++ rest))
        → length junk + 1 < fuel
        → (w' : W) × (read_round input float fuel a w
            ≡ some (
                finish input float
                  (record a { buf = header_on h (p ∷ []) })
                  h.frame_length
                  (block_of float (some (rate, h.blocks / 2 * 2 + 1)))
                  ps
                  w'))
          × (at w' ≡ at w + length junk + h.frame_length)
          × (input.eof w' ≡ input.eof w)
    read_round-whole junk fuel a w eight clean e enough =
        let (w1, r, q, f) =
          read_round-parsed h p (ps ++ rest) fields known looked_up junk fuel a w eight clean e
            enough in
        let ahead : drop (at w1) file ≡ ps ++ rest =
          ap (λ (k : ℕ). drop k file) q
          ∙ drop-more file (at w) (length junk + 8) e
          ∙ drop-append_add 8 junk (header_on h (p ∷ (ps ++ rest))) in
        let (w', t, q', f') =
          take_frame-whole h.frame_length (some (rate, h.blocks / 2 * 2 + 1)) ps rest
            (record a { buf = header_on h (p ∷ []) }) w1 len room ahead in
        (w', r ∙ t, omega arith, f' ∙ f)
