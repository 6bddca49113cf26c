-- ===== src/Video/Due.antt =====
-- When a picture is shown.
use dtplayer_c.Base.{
  ◌≡◌, refl, ◌∙◌, ap, inl, inr, Bool, true, false, ◌&&◌, ◌||◌, not, some, List, [], ◌∷◌, Bool-cases,
  if◌then◌else◌, ℤ, negsuc, ltb_ℤ, eqb_ℤ,
}
use dtplayer_c.Host.Clock.{is_invalid}
use dtplayer_c.Video.Show.{set_pts-same, by_status-steady}
use dtplayer_c.Video.{
  Picture, running, Screen, Out, Fate, shown, dropped, jumps, set_pts, timed, take_out,
  render_picture, drop_or_show, finish, show_taken, clock_of, show_by_clock, show_first, by_status,
  video_output_thread,
}

-- The thread works by the clock, on a live context, with no jump noted.
pub record AtWork (o : Out) : Type 0 where
  pub is_running : o.status ≡ running
  pub in_loop : o.has_left ≡ false
  pub by_clock : o.by_duration ≡ false
  pub live : o.voc_is_live ≡ true
  pub has_device : o.device_is_null ≡ false
  pub no_jump : o.video_discontinue ≡ false

-- The fate of a picture due at `pts` when the next is due at `next`, by the clock.
unfoldable pub fate_at : ℤ → Picture → ℤ → List Fate
fate_at clock p next =
    if ltb_ℤ clock p.pts then [] else if ltb_ℤ clock next then shown p ∷ [] else dropped p ∷ []

-- The queue after it.
unfoldable pub queue_at : ℤ → Picture → Picture → List Picture → List Picture
queue_at clock p q rest = if ltb_ℤ clock p.pts then p ∷ q ∷ rest else q ∷ rest

module _ {W : Type 0} (screen : Screen W) where
  drop_or_show-clock :
      (clock : ℤ) (o : Out) (p q : Picture) (rest : List Picture) (w : W)
      → o.voc_is_live ≡ true
      → eqb_ℤ q.pts (negsuc 0) ≡ false
      → (o' : Out) × (w' : W) × (drop_or_show screen clock o p (q ∷ rest) w
          ≡ some ((if ltb_ℤ clock q.pts then shown p ∷ [] else dropped p ∷ []), o', w'))
        × (o'.vo_queue ≡ q ∷ rest)
  unfolding drop_or_show timed render_picture take_out
  drop_or_show-clock clock o p q rest w live t = elim (Bool-cases (ltb_ℤ clock q.pts)) [
    | inl e ↦ simp (t, e, live) (_, _, refl, refl)
    | inr e ↦ simp (t, e) (_, _, refl, refl)
  ]

  finish-clock :
      (jumped : Bool) (clock : ℤ) (o : Out) (p q : Picture) (rest : List Picture) (w : W)
      → jumped ≡ false
      → o.voc_is_live ≡ true
      → eqb_ℤ q.pts (negsuc 0) ≡ false
      → (o' : Out) × (w' : W) × (finish screen jumped clock o p (q ∷ rest) w
          ≡ some ((if ltb_ℤ clock q.pts then shown p ∷ [] else dropped p ∷ []), o', w'))
        × (o'.vo_queue ≡ q ∷ rest)
  unfolding finish
  finish-clock true clock o p q rest w j live t = absurd (cc j)
  finish-clock false clock o p q rest w j live t = drop_or_show-clock clock o p q rest w live t

  show_taken-clock :
      (clock : ℤ) (o : Out) (p q : Picture) (rest : List Picture) (w : W)
      → o.video_discontinue ≡ false
      → o.voc_is_live ≡ true
      → eqb_ℤ q.pts (negsuc 0) ≡ false
      → (o' : Out) × (w' : W) × (show_taken screen clock o p (q ∷ rest) w
          ≡ some ((if ltb_ℤ clock q.pts then shown p ∷ [] else dropped p ∷ []), o', w'))
        × (o'.vo_queue ≡ q ∷ rest)
  unfolding show_taken
  show_taken-clock clock o p q rest w j live t =
      let o' : Out = take_out (q ∷ rest) o in
      let l : o'.voc_is_live ≡ true = unfold take_out in live in
      finish-clock o.video_discontinue clock (set_pts o' p.pts) p q rest w j
        ((set_pts-same o' p.pts).1 ∙ l) t

  show_by_clock-clock :
      (o : Out) (p q : Picture) (rest : List Picture) (w : W)
      → AtWork o
      → o.vo_queue ≡ p ∷ q ∷ rest
      → jumps o.last_valid_pts p.pts ≡ false
      → is_invalid (screen.get_systime w) ≡ false
      → eqb_ℤ q.pts (negsuc 0) ≡ false
      → (o' : Out) × (w' : W) × (show_by_clock screen o p (q ∷ rest) w
          ≡ some (fate_at (screen.get_systime w) p q.pts, o', w'))
        × (o'.vo_queue ≡ queue_at (screen.get_systime w) p q rest)
  unfolding show_by_clock
  show_by_clock-clock o p q rest w a queued j v t =
      let clock : ℤ = screen.get_systime w in
      let w1 : W = screen.update_systime clock w in
      let o' : Out = record o {
        video_discontinue = o.video_discontinue || jumps o.last_valid_pts p.pts;
      } in
      let d : o'.video_discontinue ≡ false = simp (a.no_jump, j) in
      let cl : clock_of screen p w ≡ (clock, w1) = unfold clock_of in (simp v) in
      elim (Bool-cases (ltb_ℤ clock p.pts)) [
        | inl e ↦
            let wait : (not o'.video_discontinue && ltb_ℤ clock p.pts) ≡ true =
              simp (a.no_jump, j, e) in
            let fate : fate_at clock p q.pts ≡ [] = unfold fate_at in (simp e) in
            let stays : queue_at clock p q rest ≡ p ∷ q ∷ rest = unfold queue_at in (simp e) in
            rw (fate, stays) (simp (cl, wait) (o', w1, refl, queued))
        | inr e ↦
            let go : (not o'.video_discontinue && ltb_ℤ clock p.pts) ≡ false =
              simp (a.no_jump, j, e) in
            let fate : fate_at clock p q.pts
                ≡ (if ltb_ℤ clock q.pts then shown p ∷ [] else dropped p ∷ []) =
              unfold fate_at in (simp e) in
            let gone : queue_at clock p q rest ≡ q ∷ rest = unfold queue_at in (simp e) in
            let (o2, w2, r, left) = show_taken-clock clock o' p q rest w1 d a.live t in
            rw (fate, gone) (simp (cl, go) (o2, w2, r, left))
      ]

  show_first-clock :
      (o : Out) (p q : Picture) (rest : List Picture) (w : W)
      → AtWork o
      → o.vo_queue ≡ p ∷ q ∷ rest
      → jumps o.last_valid_pts p.pts ≡ false
      → is_invalid (screen.get_systime w) ≡ false
      → eqb_ℤ q.pts (negsuc 0) ≡ false
      → (o' : Out) × (w' : W) × (show_first screen (p ∷ q ∷ rest) o w
          ≡ some (fate_at (screen.get_systime w) p q.pts, o', w'))
        × (o'.vo_queue ≡ queue_at (screen.get_systime w) p q rest)
  unfolding show_first
  show_first-clock o p q rest w a queued j v t =
      let (o', w', r, left) = show_by_clock-clock o p q rest w a queued j v t in
      (o', w', simp a.by_clock r, left)

  -- In a round of a thread that works by the host's clock, where the first picture is no jump and the
  -- second has a time: the first picture stays at the head of the queue where it is not due yet, is shown
  -- where it is due and the second is not, and is dropped where the second is due too. In the last two
  -- cases the second picture is at the head after the round. The others stay behind these.
  pub video_output_thread-fate_at :
      (o : Out) (p q : Picture) (rest : List Picture) (w : W)
      → AtWork o
      → o.vo_queue ≡ p ∷ q ∷ rest
      → jumps o.last_valid_pts p.pts ≡ false
      → is_invalid (screen.get_systime w) ≡ false
      → eqb_ℤ q.pts (negsuc 0) ≡ false
      → (o' : Out) × (w' : W) × (video_output_thread screen o w
          ≡ some (fate_at (screen.get_systime w) p q.pts, o', w'))
        × (o'.vo_queue ≡ queue_at (screen.get_systime w) p q rest)
  unfolding video_output_thread
  video_output_thread-fate_at o p q rest w a e j v t =
      let (o', w', r, left) = show_first-clock o p q rest w a e j v t in
      let b : by_status screen running o w ≡ some (fate_at (screen.get_systime w) p q.pts, o', w') =
        by_status-steady screen o w a.has_device
        ∙ ap (λ (l : List Picture). show_first screen l o w) e
        ∙ r in
      (o', w', simp (a.in_loop, a.is_running) b, left)
