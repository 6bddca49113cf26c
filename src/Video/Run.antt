-- ===== src/Video/Run.antt =====
-- What becomes of the pictures that are queued, in the long run.
use dtplayer_c.Base.{
  ℕ, ◌≡◌, refl, sym, ◌∙◌, ap, true, false, Option, some, List, [], ◌∷◌, ◌++◌, append_assoc,
  append-nil, ◌>>=◌,
}
use dtplayer_c.Video.{
  Picture, running, pause, exit, Screen, Out, Fate, Round, video_output_start, video_output_pause,
  video_output_resume, ask_exit, video_output_thread,
}
use dtplayer_c.Video.Show.{
  fate_images, images, fate_images-append, images-append, video_output_thread-Kept,
}

-- What happens to the output: a round of its thread, a picture from the decoder, or a call from outside.
pub data Action : Type 0 where
  out_round : Action
  decoded : Picture → Action
  started paused resumed stopped : Action

abbrev pub decoded_images : List Action → List ℕ
decoded_images [] = []
decoded_images (out_round ∷ actions) = decoded_images actions
decoded_images (decoded p ∷ actions) = p.image ∷ decoded_images actions
decoded_images (started ∷ actions) = decoded_images actions
decoded_images (paused ∷ actions) = decoded_images actions
decoded_images (resumed ∷ actions) = decoded_images actions
decoded_images (stopped ∷ actions) = decoded_images actions

unfoldable pub run : {W : Type 0} → Screen W → List Action → Out → W → Option (Round W)
run screen [] o w = some ([], o, w)
run screen (out_round ∷ actions) o w = video_output_thread screen o w >>= λ r.
    run screen actions r.1 r.2 >>= λ q. some (r.0 ++ q.0, q.1, q.2)
run screen (decoded p ∷ actions) o w =
    run screen actions (record o { vo_queue = o.vo_queue ++ (p ∷ []) }) w
run screen (started ∷ actions) o w = run screen actions (video_output_start o) w
run screen (paused ∷ actions) o w = run screen actions (video_output_pause o) w
run screen (resumed ∷ actions) o w = run screen actions (video_output_resume o) w
run screen (stopped ∷ actions) o w = run screen actions (ask_exit o) w

-- The pictures that were queued and that have been decoded since have met their fate once, shown or
-- dropped, or are still queued, in order.
abbrev pub Shown : {W : Type 0} → List Action → Out → Option (Round W) → Type 0
Shown {W} actions o r =
    (fs : List Fate) × (o' : Out) × (w : W) × (r ≡ some (fs, o', w))
    × (fate_images fs ++ images o'.vo_queue ≡ images o.vo_queue ++ decoded_images actions)

module _ {W : Type 0} (screen : Screen W) where
  -- Whatever rounds the thread makes, while the decoder queues pictures and the output is started,
  -- paused, resumed and stopped between them, none faults, and every picture that was queued or has
  -- been queued since is shown once, dropped once, or still queued, in order. The thread is to
  -- render to a live context of a device that is not the null device.
  pub run-Shown :
      (actions : List Action) (o : Out) (w : W)
      → o.voc_is_live ≡ true
      → o.device_is_null ≡ false
      → Shown actions o (run screen actions o w)
  unfolding run video_output_start video_output_pause video_output_resume ask_exit
  run-Shown [] o w live dev = ([], o, w, refl, sym (append-nil (images o.vo_queue)))
  run-Shown (out_round ∷ actions) o w live dev =
      let (fs, o1, w1, r, (live1, dev1), e) = video_output_thread-Kept screen o w (live, dev) in
      let (gs, o2, w2, q, f) = run-Shown actions o1 w1 live1 dev1 in
      rw (r, q)
        (
          fs ++ gs,
          o2,
          w2,
          refl,
          ap (λ (l : List ℕ). l ++ images o2.vo_queue) (fate_images-append fs gs)
              ∙ append_assoc (fate_images fs) (fate_images gs) (images o2.vo_queue)
              ∙ ap (λ (l : List ℕ). fate_images fs ++ l) f
              ∙ sym (append_assoc (fate_images fs) (images o1.vo_queue) (decoded_images actions))
              ∙ ap (λ (l : List ℕ). l ++ decoded_images actions) e,
        )
  run-Shown (decoded p ∷ actions) o w live dev =
      let (gs, o2, w2, q, f) =
        run-Shown actions (record o { vo_queue = o.vo_queue ++ (p ∷ []) }) w live dev in
      (
        gs,
        o2,
        w2,
        q,
        f
            ∙ ap (λ (l : List ℕ). l ++ decoded_images actions) (images-append o.vo_queue (p ∷ []))
            ∙ append_assoc (images o.vo_queue) (p.image ∷ []) (decoded_images actions),
      )
  run-Shown (started ∷ actions) o w live dev =
      run-Shown actions (record o { status = running }) w live dev
  run-Shown (paused ∷ actions) o w live dev =
      run-Shown actions (record o { status = pause }) w live dev
  run-Shown (resumed ∷ actions) o w live dev =
      run-Shown actions (record o { status = running }) w live dev
  run-Shown (stopped ∷ actions) o w live dev =
      run-Shown actions (record o { status = exit }) w live dev
