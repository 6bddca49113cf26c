-- ===== src/Aac/Accept.antt =====
-- A buffer that begins with three whole frames passes the probe.
use dtplayer_c.Base.{
  ℕ, zero, suc, ◌+◌, ◌-◌, ◌≤◌, ◌<◌, ◌≡◌, refl, true, false, some, List, [], ◌∷◌, ◌++◌,
  length-append, Bool-cases, inl, inr, ◌*◌, min, ltb, leb, le→leb, arith, length, drop,
  if◌then◌else◌,
}
use dtplayer_c.Aac.{count_frames, scan, score, demuxer_aac_probe}
use dtplayer_c.Aac.Header.{size_at-header}
use dtplayer_c.Aac.Frames.{AdtsFrame, AllFrames, frames_on, drop-frame, frame-length}
use dtplayer_c.Aac.Probe.{count_frames-Safe, scan-Safe}

frames_on-length :
    (fs : List AdtsFrame) (rest : List ℕ) → length fs * 7 ≤ length (frames_on fs rest)
frames_on-length [] rest = omega arith
frames_on-length (f ∷ fs) rest =
    omega (arith, frames_on-length fs rest, length-append f.payload (frames_on fs rest))

module _ (bs : List ℕ) (end : ℕ) (fits : end + 7 ≡ length bs) where
  -- The inner loop passes every whole frame.
  count_frames-whole :
      (fs : List AdtsFrame) (rest : List ℕ) (fuel i n : ℕ)
      → AllFrames fs
      → drop i bs ≡ frames_on fs rest
      → i ≤ end
      → end - i < fuel
      → (r : ℕ × ℕ) × (count_frames fuel bs end i n ≡ some r)
        × (r.0 ≤ end)
        × (i ≤ r.0)
        × (length fs + n ≤ r.1)
  unfolding count_frames
  count_frames-whole [] rest fuel i n v e le f =
      let (r, c, lo, hi, more) = count_frames-Safe bs end (omega arith) fuel i n le f in
      (r, c, hi, lo, omega arith)
  count_frames-whole (f ∷ fs) rest zero i n v e le h = absurd (omega arith)
  count_frames-whole (f ∷ fs) rest (suc fuel) i n v e le h =
      let l : ℕ = f.header.frame_length in
      let len = frame-length f (frames_on fs rest) bs i v.0 e in
      let inside : ltb i end ≡ true = ground (arith, v.0.whole, v.0.room) in
      let step =
        size_at-header f.header (f.payload ++ frames_on fs rest) v.0.fields bs i e end
          (omega (arith, v.0.whole)) in
      elim (Bool-cases (leb (i + l) end)) [
        | inl within ↦
            let m : min l (end - i) ≡ l = ground arith in
            let (r, c, hi, lo, more) =
              count_frames-whole fs rest fuel (i + l) (n + 1) v.1
                (drop-frame f (frames_on fs rest) bs i v.0 e) (ground arith)
                (omega (arith, v.0.whole)) in
            rw (inside, count_frames) (rw (step, m) (r, c, hi, omega arith, omega arith))
        | inr past ↦
            let last : length fs ≡ 0 = ground (arith, frames_on-length fs rest) in
            let m : min l (end - i) ≡ end - i = ground arith in
            let (r, c, lo, hi, more) =
              count_frames-Safe bs end (omega arith) fuel (i + (end - i)) (n + 1) (omega arith)
                (ground arith) in
            rw (inside, count_frames) (rw (step, m) (r, c, hi, omega arith, omega arith))
      ]

-- The probe accepts any buffer that begins with three whole frames.
pub demuxer_aac_probe-accepts :
    (bs : List ℕ) (f g h : AdtsFrame) (fs : List AdtsFrame) (rest : List ℕ)
    → AllFrames (f ∷ g ∷ h ∷ fs)
    → bs ≡ frames_on (f ∷ g ∷ h ∷ fs) rest
    → demuxer_aac_probe bs ≡ some 1
unfolding demuxer_aac_probe scan score
demuxer_aac_probe-accepts bs f g h fs rest v e =
    let end : ℕ = length bs - 7 in
    let len = frame-length f (frames_on (g ∷ h ∷ fs) rest) bs 0 v.0 e in
    let len' = frames_on-length (g ∷ h ∷ fs) rest in
    let long : ltb (length bs) 10 ≡ false = ground arith in
    let inside : ltb 0 end ≡ true = ground arith in
    let (r, c, hi, lo, more) =
      count_frames-whole bs end (ground arith) (f ∷ g ∷ h ∷ fs) rest (suc (length bs)) 0 0 v e
        (omega arith) (omega arith) in
    let (q, s, same) =
      scan-Safe bs end (ground arith) (length bs) (r.0 + 1) (if ltb r.1 0 then 0 else r.1) r.1
        (omega arith) (ground arith) in
    let three : leb 3 q.1 ≡ true = le→leb 3 q.1 (omega (arith, same (omega arith))) in
    let fuel : length bs + 1 ≡ suc (length bs) = omega arith in
    rw (long, fuel) (rw (inside, scan) (rw (c, s, three) refl))
