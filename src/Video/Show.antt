-- ===== src/Video/Show.antt =====
-- What a round makes of the pictures that are queued.
use dtplayer_c.Base.{
  ℕ, ◌≡◌, refl, ◌∙◌, ap, inl, inr, Bool, true, false, ◌&&◌, ◌||◌, not, Option, some, List, [], ◌∷◌,
  ◌++◌, arith, Bool-cases, ℤ, negsuc, ltb_ℤ, eqb_ℤ, llabs, sub_64, quot,
}
use dtplayer_c.Video.{
  Picture, VoStatus, idle, pause, running, exit, Screen, Out, Fate, shown, dropped, Round, jumps,
  set_pts, timed, take_out, switch_vo, render_picture, drop_or_show, finish, show_taken, clock_of,
  show_by_clock, show_by_duration, show_first, show_queue, by_status, video_output_thread,
}

abbrev pub image_of : Fate → ℕ
image_of (shown p) = p.image
image_of (dropped p) = p.image

abbrev pub fate_images : List Fate → List ℕ
fate_images [] = []
fate_images (f ∷ fs) = image_of f ∷ fate_images fs

abbrev pub images : List Picture → List ℕ
images [] = []
images (p ∷ ps) = p.image ∷ images ps

pub fate_images-append :
    (fs gs : List Fate) → fate_images (fs ++ gs) ≡ fate_images fs ++ fate_images gs
fate_images-append [] gs = refl
fate_images-append (f ∷ fs) gs = ap (◌∷◌ (image_of f)) (fate_images-append fs gs)

pub images-append : (ps qs : List Picture) → images (ps ++ qs) ≡ images ps ++ images qs
images-append [] qs = refl
images-append (p ∷ ps) qs = ap (◌∷◌ p.image) (images-append ps qs)

-- The thread renders to a live context, of a device that is not the null device.
abbrev pub Steady : Out → Type 0
Steady o = (o.voc_is_live ≡ true) × (o.device_is_null ≡ false)

-- The round does not fault, and of the pictures `queue` those that have met their fate come first,
-- then those still queued.
abbrev pub Kept : {W : Type 0} → List Picture → Option (Round W) → Type 0
Kept {W} queue r =
    (fs : List Fate) × (o : Out) × (w : W) × (r ≡ some (fs, o, w))
    × Steady o
    × (fate_images fs ++ images o.vo_queue ≡ images queue)

timed-image :
    (estimate : ℤ → ℤ) (current : ℤ) (p : Picture) → (timed estimate current p).image ≡ p.image
unfolding timed
timed-image estimate current p = ground arith

pub set_pts-same :
    (o : Out) (pts : ℤ)
    → ((set_pts o pts).vo_queue ≡ o.vo_queue)
      × ((set_pts o pts).voc_is_live ≡ o.voc_is_live)
      × ((set_pts o pts).device_is_null ≡ o.device_is_null)
unfolding set_pts
set_pts-same o pts = ground arith

module _ {W : Type 0} (screen : Screen W) where
  pub switch_vo-steady :
      (o : Out) (w : W) → o.device_is_null ≡ false → switch_vo screen o w ≡ some (o, w)
  unfolding switch_vo
  switch_vo-steady o w dev = simp dev

  -- A thread with a device goes on to its queue.
  pub by_status-steady :
      (o : Out) (w : W)
      → o.device_is_null ≡ false
      → by_status screen running o w ≡ show_first screen o.vo_queue o w
  unfolding by_status show_queue
  by_status-steady o w dev = rw (switch_vo-steady o w dev) refl

  render_picture-Kept :
      (o : Out) (p : Picture) (w : W) (queue : List Picture)
      → Steady o
      → images (p ∷ o.vo_queue) ≡ images queue
      → Kept queue (render_picture screen o p w)
  unfolding render_picture
  render_picture-Kept o p w queue (live, dev) e = simp live (_, _, _, refl, (refl, dev), e)

  drop_or_show-Kept :
      (sys_clock : ℤ) (o : Out) (p : Picture) (rest : List Picture) (w : W)
      → Steady o
      → o.vo_queue ≡ rest
      → Kept (p ∷ rest) (drop_or_show screen sys_clock o p rest w)
  unfolding drop_or_show take_out
  drop_or_show-Kept sys_clock o p [] w s e =
      render_picture-Kept o p w (p ∷ []) s (ap (λ (l : List Picture). images (p ∷ l)) e)
  drop_or_show-Kept sys_clock o p (q ∷ rest) w s e =
      let q' : Picture = timed screen.estimate o.current_pts q in
      let i : p.image ∷ q'.image ∷ images rest ≡ p.image ∷ q.image ∷ images rest =
        ap (λ (n : ℕ). p.image ∷ n ∷ images rest) (timed-image screen.estimate o.current_pts q) in
      elim (Bool-cases (ltb_ℤ sys_clock q'.pts)) [
        | inl f ↦
            simp f (render_picture-Kept (record o { vo_queue = q' ∷ rest }) p w (p ∷ q ∷ rest) s i)
        | inr f ↦ simp f (_, _, _, refl, s, i)
      ]

  finish-Kept :
      (jumped : Bool) (sys_clock : ℤ) (o : Out) (p : Picture) (rest : List Picture) (w : W)
      → Steady o
      → o.vo_queue ≡ rest
      → Kept (p ∷ rest) (finish screen jumped sys_clock o p rest w)
  unfolding finish
  finish-Kept true sys_clock o p rest w s e =
      render_picture-Kept o p w (p ∷ rest) s (ap (λ (l : List Picture). images (p ∷ l)) e)
  finish-Kept false sys_clock o p rest w s e = drop_or_show-Kept sys_clock o p rest w s e

  show_taken-Kept :
      (sys_clock : ℤ) (o : Out) (p : Picture) (rest : List Picture) (w : W)
      → Steady o
      → Kept (p ∷ rest) (show_taken screen sys_clock o p rest w)
  unfolding show_taken take_out
  show_taken-Kept sys_clock o p rest w (live, dev) =
      let o' : Out = record o { vo_queue = rest } in
      let (q, l, d) = set_pts-same o' p.pts in
      finish-Kept o.video_discontinue sys_clock (set_pts o' p.pts) p rest w (l ∙ live, d ∙ dev) q

  show_by_clock-Kept :
      (o : Out) (p : Picture) (rest : List Picture) (w : W)
      → Steady o
      → o.vo_queue ≡ p ∷ rest
      → Kept (p ∷ rest) (show_by_clock screen o p rest w)
  unfolding show_by_clock
  show_by_clock-Kept o p rest w s e =
      let c = clock_of screen p w in
      let o' : Out = record o {
        video_discontinue = o.video_discontinue || jumps o.last_valid_pts p.pts;
      } in
      elim (Bool-cases (not o'.video_discontinue && ltb_ℤ c.0 p.pts)) [
        | inl f ↦ simp f ([], o', c.1, refl, s, ap images e)
        | inr f ↦ simp f (show_taken-Kept c.0 o' p rest c.1 s)
      ]

  show_by_duration-Kept :
      (o : Out) (p : Picture) (rest : List Picture) (w : W)
      → Steady o
      → o.vo_queue ≡ p ∷ rest
      → Kept (p ∷ rest) (show_by_duration screen o p rest w)
  unfolding show_by_duration take_out
  show_by_duration-Kept o p rest w s e =
      elim (Bool-cases (
        eqb_ℤ o.render_clock_start (negsuc 0)
        || ltb_ℤ o.render_ms (quot (llabs (sub_64 (screen.now w) o.render_clock_start)) 1000))) [
          | inl f ↦ simp f (
              render_picture-Kept (record o { render_clock_start = screen.now w; vo_queue = rest })
                p w (p ∷ rest) s refl)
          | inr f ↦ simp f ([], o, w, refl, s, ap images e)
        ]

  show_first-Kept :
      (queue : List Picture) (o : Out) (w : W)
      → Steady o
      → o.vo_queue ≡ queue
      → Kept queue (show_first screen queue o w)
  unfolding show_first
  show_first-Kept [] o w s e = ([], o, w, refl, s, ap images e)
  show_first-Kept (p ∷ rest) o w s e = elim (Bool-cases o.by_duration) [
    | inl f ↦ simp f (show_by_duration-Kept o p rest w s e)
    | inr f ↦ simp f (show_by_clock-Kept o p rest w s e)
  ]

  by_status-Kept :
      (status : VoStatus) (o : Out) (w : W)
      → Steady o
      → Kept o.vo_queue (by_status screen status o w)
  unfolding by_status show_queue
  by_status-Kept exit o w s = ([], record o { has_left = true }, w, refl, s, refl)
  by_status-Kept idle o w s = ([], o, w, refl, s, refl)
  by_status-Kept pause o w s = ([], o, w, refl, s, refl)
  by_status-Kept running o w s =
      rw (switch_vo-steady o w s.1) (show_first-Kept o.vo_queue o w s refl)

  pub video_output_thread-Kept :
      (o : Out) (w : W) → Steady o → Kept o.vo_queue (video_output_thread screen o w)
  unfolding video_output_thread
  video_output_thread-Kept o w s = elim (Bool-cases o.has_left) [
    | inl e ↦ simp e ([], o, w, refl, s, refl)
    | inr e ↦ simp e (by_status-Kept o.status o w s)
  ]
