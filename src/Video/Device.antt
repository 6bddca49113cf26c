-- ===== src/Video/Device.antt =====
-- The switch to another device.
use dtplayer_c.Base.{
  ◌≡◌, refl, ◌∙◌, ap, Bool, true, false, ◌&&◌, ◌||◌, not, none, some, List, [], ◌∷◌, arith, ℤ,
  ltb_ℤ,
}
use dtplayer_c.Video.{
  Picture, running, Screen, Out, jumps, set_pts, take_out, switch_vo, render_picture, drop_or_show,
  finish, show_taken, clock_of, show_by_clock, show_first, show_queue, by_status,
  video_output_thread,
}
use dtplayer_c.Video.Show.{set_pts-same}

and_false : (a : Bool) {b : Bool} → b ≡ false → (a && b) ≡ false
and_false a e = ground arith

module _ {W : Type 0} (screen : Screen W) where
  render_picture-freed :
      (o : Out) (p : Picture) (w : W) → o.voc_is_live ≡ false → render_picture screen o p w ≡ none
  unfolding render_picture
  render_picture-freed o p w e = simp e

  finish-freed :
      (jumped : Bool) (clock : ℤ) (o : Out) (p : Picture) (w : W)
      → o.voc_is_live ≡ false
      → finish screen jumped clock o p [] w ≡ none
  unfolding finish drop_or_show
  finish-freed true clock o p w e = render_picture-freed o p w e
  finish-freed false clock o p w e = render_picture-freed o p w e

  show_by_clock-freed :
      (o : Out) (p : Picture) (w : W)
      → o.voc_is_live ≡ false
      → ltb_ℤ (clock_of screen p w).0 p.pts ≡ false
      → show_by_clock screen o p [] w ≡ none
  unfolding show_by_clock show_taken take_out
  show_by_clock-freed o p w e due =
      let d : Bool = o.video_discontinue || jumps o.last_valid_pts p.pts in
      let o' : Out = record o { video_discontinue = d; vo_queue = [] } in
      let go : (not d && ltb_ℤ (clock_of screen p w).0 p.pts) ≡ false = and_false (not d) due in
      simp go (
        finish-freed d (clock_of screen p w).0 (set_pts o' p.pts) p (clock_of screen p w).1
          ((set_pts-same o' p.pts).1 ∙ e))

  show_first-freed :
      (o : Out) (p : Picture) (w : W)
      → o.by_duration ≡ false
      → o.voc_is_live ≡ false
      → ltb_ℤ (clock_of screen p w).0 p.pts ≡ false
      → show_first screen (p ∷ []) o w ≡ none
  unfolding show_first
  show_first-freed o p w clock e due = simp clock (show_by_clock-freed o p w e due)

  -- Where the thread switches from the null device to another and malloc gives a context for it, by the
  -- clock and with one picture that is due, the round faults: it renders to the context of the null
  -- device, which the switch has freed.
  pub video_output_thread-freed :
      (o : Out) (p : Picture) (w : W)
      → o.status ≡ running
      → o.has_left ≡ false
      → o.by_duration ≡ false
      → o.vo_queue ≡ p ∷ []
      → o.device_is_null ≡ true
      → screen.default_is_null w ≡ false
      → screen.alloc_vo_context w ≡ true
      → ltb_ℤ (clock_of screen p (screen.init w)).0 p.pts ≡ false
      → video_output_thread screen o w ≡ none
  unfolding video_output_thread
  video_output_thread-freed o p w run left clock queue dev other made due =
      let o' : Out = record o { device_is_null = false; voc_is_live = false } in
      let w' : W = screen.init w in
      let s : switch_vo screen o w ≡ some (o', w') =
        unfold switch_vo in (simp (other, dev, made)) in
      let f : show_first screen (p ∷ []) o' w' ≡ none = show_first-freed o' p w' clock refl due in
      let b : by_status screen running o w ≡ none =
        unfold by_status in
        unfold show_queue in
        (rw s (ap (λ (l : List Picture). show_first screen l o' w') queue ∙ f)) in
      simp (left, run) b
