-- ===== src/Player/Init/Choice.antt =====
-- What `player_init` chooses, and where `dtplayer_seekto` goes.
use dtplayer_c.Base.{
  ℕ, ◌≤◌, ◌<◌, ◌≡◌, ◌⊎◌, refl, inl, inr, Bool, true, false, ◌&&◌, ◌||◌, not, some, arith,
  Bool-cases, if◌then◌else◌, ℤ, pos, negsuc, ltb_ℤ, int32, int32_pos, ◌≤ℤ◌, ltb,
}
use dtplayer_c.Player.{PlayerStatus, init_enter, init_exit, below, seek_event}
use dtplayer_c.Player.Init.{
  TrackPara, TrackSetting, TrackInfo, InitPara, InitSetting, InitMedia, InitCtrl, has_of,
  chosen_index, index_of, sync_of, ctrl_of, set_index, set_disabled, media_indexed, media_marked,
  player_init, dtplayer_seekto,
}

-- The index of a track is in range of its list or 0, where the index asked for is not below -1 in
-- the parameters nor in the settings.
abbrev pub InRange : ℤ → ℤ → Type 0
InRange index num = (index ≡ pos 0) ⊎ ((pos 0 ≤ℤ index) × (ltb_ℤ index num ≡ true))

chosen-at_least :
    (s : TrackSetting) (p : TrackPara)
    → negsuc 0 ≤ℤ s.setting_index
    → negsuc 0 ≤ℤ p.index
    → pos 0 ≤ℤ chosen_index s p
unfolding chosen_index
chosen-at_least s p h g = ground arith

inr_or_zero : (n num : ℤ) → pos 0 ≤ℤ n → ltb_ℤ n num ≡ true → InRange n num
inr_or_zero n num h e = inr (h, e)

index_of-InRange :
    (i : TrackInfo) (s : TrackSetting) (p : TrackPara)
    → negsuc 0 ≤ℤ s.setting_index
    → negsuc 0 ≤ℤ p.index
    → InRange (index_of i s p) i.track_num
unfolding index_of
index_of-InRange i s p h g = elim (Bool-cases (ltb_ℤ (chosen_index s p) i.track_num)) [
  | inl e ↦ rw e (inr_or_zero (chosen_index s p) i.track_num (chosen-at_least s p h g) e)
  | inr e ↦ rw e (inl refl)
]

nor_false : (a b : Bool) → (not a && not b) ≡ true → (a || b) ≡ false
nor_false a b e = ground arith

nor_true : (a b : Bool) → (not a && not b) ≡ false → (a || b) ≡ true
nor_true a b e = ground arith

-- Neither index is below -1.
abbrev pub AtLeast : TrackSetting → TrackPara → Type 0
AtLeast s p = (negsuc 0 ≤ℤ s.setting_index) × (negsuc 0 ≤ℤ p.index)

-- The three indices are in range.
pub record Indexed (m : InitMedia) : Type 0 where
  pub audio_in : InRange m.audio_info.cur_index m.audio_info.track_num
  pub video_in : InRange m.video_info.cur_index m.video_info.track_num
  pub sub_in : InRange m.sub_info.cur_index m.sub_info.track_num

module _ (m : InitMedia) (s : InitSetting) (p : InitPara) where
  media_indexed-Indexed :
      AtLeast s.audio_setting p.audio
      → AtLeast s.video_setting p.video
      → AtLeast s.sub_setting p.sub
      → Indexed (media_indexed s p m)
  unfolding media_indexed set_index
  media_indexed-Indexed (a, a') (v, v') (b, b') = record {
    audio_in = index_of-InRange m.audio_info s.audio_setting p.audio a a';
    video_in = index_of-InRange m.video_info s.video_setting p.video v v';
    sub_in = index_of-InRange m.sub_info s.sub_setting p.sub b b';
  }

  -- Where the demuxer opens the file of a player that is not set up yet, and the parameters and the
  -- settings ask for no index below -1, `player_init` leaves each track's index in range of the
  -- file's tracks, or 0. It returns 0, with the status INIT_EXIT, where audio or video is used, and else
  -- -1 with INIT_ENTER.
  pub player_init-Indexed :
      (status : PlayerStatus) (opened : ℤ)
      → below status init_enter ≡ true
      → ltb_ℤ opened (pos 0) ≡ false
      → AtLeast s.audio_setting p.audio
      → AtLeast s.video_setting p.video
      → AtLeast s.sub_setting p.sub
      → let r = player_init status opened m s p in
        let used = (ctrl_of m s p).has_audio || (ctrl_of m s p).has_video in
        (m' : InitMedia) × (r.media ≡ some m')
        × Indexed m'
        × (r.ret ≡ (if used then pos 0 else negsuc 0))
        × (r.status ≡ (if used then init_exit else init_enter))
  unfolding player_init media_marked set_disabled
  player_init-Indexed status opened b o a v t =
      let x : Indexed (media_indexed s p m) = media_indexed-Indexed a v t in
      let c : InitCtrl = ctrl_of m s p in
      elim (Bool-cases (not c.has_audio && not c.has_video)) [
        | inl e ↦
            let f : (c.has_audio || c.has_video) ≡ false = nor_false c.has_audio c.has_video e in
            simp (b, o, e, f) (_, refl, x, refl, refl)
        | inr e ↦
            let f : (c.has_audio || c.has_video) ≡ true = nor_true c.has_audio c.has_video e in
            simp (b, o, e, f)
              (
                media_marked c (media_indexed s p m),
                refl,
                record { audio_in = x.audio_in; video_in = x.video_in; sub_in = x.sub_in },
                refl,
                refl,
              )
      ]

  -- Where the file has audio and video and the settings ask for synchronisation, it stays on for a
  -- player that is told to leave out the audio: the tracks are struck off after the test.
  pub player_init-sync_alone :
      (status : PlayerStatus) (opened : ℤ)
      → below status init_enter ≡ true
      → ltb_ℤ opened (pos 0) ≡ false
      → m.audio_info.has_track ≡ true
      → m.video_info.has_track ≡ true
      → s.sync_setting ≡ true
      → p.disable_avsync ≡ false
      → p.audio.disable ≡ true
      → (c : InitCtrl) × ((player_init status opened m s p).ctrl ≡ some c)
        × (c.sync_enable ≡ true)
        × (c.has_audio ≡ false)
  unfolding player_init
  player_init-sync_alone status opened b o ha hv hs ds da =
      let c : InitCtrl = ctrl_of m s p in
      let on : c.sync_enable ≡ true = unfold ctrl_of sync_of in (simp (ds, ha, hv, hs)) in
      let off : c.has_audio ≡ false = unfold ctrl_of has_of in (simp da) in
      elim (Bool-cases (not c.has_audio && not c.has_video)) [
        | inl e ↦ simp (b, o, e) (c, refl, on, off)
        | inr e ↦ simp (b, o, e) (c, refl, on, off)
      ]

pos_one : (n k : ℕ) → pos n ≡ pos k → n ≡ k
pos_one n k q = cc q

past_end : (d n k : ℕ) → ltb d n ≡ true → pos n ≡ pos k → k ≤ d → ⊥
past_end d n k f q le = let e : n ≡ k = cc q in ground arith

-- A position asked for is cut to the file, where it lasts less than 2 ^ 31 seconds.
pub dtplayer_seekto-within :
    (duration : ℕ) (s_time : ℤ)
    → duration < 2147483648
    → (t : ℕ) × (dtplayer_seekto (pos duration) s_time ≡ seek_event (pos t))
      × (t ≤ duration)
      × ((n : ℕ) → s_time ≡ pos n → n ≤ duration → t ≡ n)
unfolding dtplayer_seekto
dtplayer_seekto-within duration (pos n) h =
    let e : int32 (pos duration) ≡ pos duration = int32_pos duration h in
    let g : ltb_ℤ (pos n) (pos 0) ≡ false = ground arith in
    elim (Bool-cases (ltb_ℤ (pos duration) (pos n))) [
      | inl f ↦
          simp (e, g, f)
            (
              duration,
              refl,
              omega arith,
              λ k q le. absurd (past_end duration n k (ground arith) q le),
            )
      | inr f ↦ simp (e, g, f) (n, refl, ground arith, λ k q le. pos_one n k q)
    ]
dtplayer_seekto-within duration (negsuc n) h =
    let e : int32 (pos duration) ≡ pos duration = int32_pos duration h in
    rw e (0, ground arith, omega arith, λ k q le. absurd (cc q))
