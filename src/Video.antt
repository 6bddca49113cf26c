-- ===== src/Video.antt =====
-- The thread of dtvideo/dtvideo_output.c, which shows the pictures that the decoder has queued; its
-- child Control is dtvideo/dtvideo.c. The host's clock, the device that renders and the system's clock
-- are an interface, on a state `W` that the model does not look into. A round of the thread's loop is one
-- step. The dump of frames to files is left out.
pub mod Show
pub mod Run
pub mod Due
pub mod Device
pub mod Control
mod Tests
use dtplayer_c.Base.{
  ℕ, ◌+◌, Bool, true, false, ◌&&◌, ◌||◌, not, Option, none, some, List, [], ◌∷◌, ◌++◌,
  if◌then◌else◌, ◌>>=◌, ℤ, pos, negsuc, ltb_ℤ, eqb_ℤ, sub_64, llabs, quot,
}
use dtplayer_c.Host.Clock.{is_invalid, sync_discontinue_threshold}

-- A `dt_av_frame_t` as the thread sees it.
pub record Picture : Type 0 where
  pub pts : ℤ
  pub image : ℕ

-- `vo_status_t`
pub data VoStatus : Type 0 where
  idle pause running exit : VoStatus

-- `get_systime`, `update_systime` and `update_pts` are the calls of dtvideo.c to the host, `render` is
-- the device's, `estimate` adds the duration of a frame to a time, `default_is_null` says whether the
-- first device that is registered is the null device, `alloc_vo_context` whether malloc gives a context,
-- `init` is the device's, and `now` is `dt_gettime()`.
pub record Screen (W : Type 0) : Type 0 where
  pub get_systime : W → ℤ
  pub update_systime : ℤ → W → W
  pub update_pts : ℤ → W → W
  pub render : Picture → W → ℤ × W
  pub estimate : ℤ → ℤ
  pub default_is_null : W → Bool
  pub alloc_vo_context : W → Bool
  pub init : W → W
  pub now : W → ℤ

-- `dtvideo_output_t` with the thread's own variables, the times of `dtvideo_context_t` and its queue of
-- pictures. `device_is_null` is the test of `wrapper->id`, `voc_is_live` says whether the local `voc`
-- points to a context that is not freed, and `by_duration` is the render mode.
pub record Out : Type 0 where
  pub status : VoStatus
  pub last_valid_pts : ℤ
  pub current_pts : ℤ
  pub video_discontinue : Bool
  pub vo_queue : List Picture
  pub by_duration : Bool
  pub render_ms : ℤ
  pub render_clock_start : ℤ
  pub device_is_null : Bool
  pub voc_is_live : Bool
  pub has_left : Bool

-- What becomes of a picture.
pub data Fate : Type 0 where
  shown dropped : Picture → Fate

abbrev pub Round : Type 0 → Type 0
Round W = List Fate × Out × W

unfoldable pub video_output_start : Out → Out
video_output_start o = record o { status = running }

unfoldable pub video_output_pause : Out → Out
video_output_pause o = record o { status = pause }

unfoldable pub video_output_resume : Out → Out
video_output_resume o = record o { status = running }

-- `video_output_stop` up to its join with the thread.
unfoldable pub ask_exit : Out → Out
ask_exit o = record o { status = exit }

-- The check for a jump of the times of the pictures.
unfoldable pub jumps : ℤ → ℤ → Bool
jumps last pts =
    (not (eqb_ℤ last (negsuc 0)) && not (eqb_ℤ pts (negsuc 0)))
    && not (ltb_ℤ (llabs (sub_64 pts last)) (pos sync_discontinue_threshold))

-- `last_valid_pts` and `current_pts` once a picture has been taken.
unfoldable pub set_pts : Out → ℤ → Out
set_pts o pts =
    if eqb_ℤ o.last_valid_pts (negsuc 0)
    then record o { last_valid_pts = pts; current_pts = pts }
    else record o {
      last_valid_pts = (if o.video_discontinue then pts else o.current_pts);
      current_pts = pts;
    }

-- The time of the next picture, where it has one that is not -1 or must be estimated.
unfoldable pub timed : (ℤ → ℤ) → ℤ → Picture → Picture
timed estimate current p = if eqb_ℤ p.pts (negsuc 0) then record p { pts = estimate current } else p

unfoldable pub take_out : List Picture → Out → Out
take_out rest o = record o { vo_queue = rest }

module _ {W : Type 0} (screen : Screen W) where
  -- The dynamic switch to another device: the context is freed and a new one made, which is copied to
  -- unchecked, and the local `voc` stays. It counts as freed, also where malloc gives the same address
  -- again.
  unfoldable pub switch_vo : Out → W → Option (Out × W)
  switch_vo o w =
      if o.device_is_null && not (screen.default_is_null w)
      then if screen.alloc_vo_context w
        then some (record o { device_is_null = false; voc_is_live = false }, screen.init w)
        else none
      else some (o, w)

  -- The label RENDER.
  unfoldable pub render_picture : Out → Picture → W → Option (Round W)
  render_picture o p w =
      if o.voc_is_live
      then some (
        shown p ∷ [],
        record o { video_discontinue = false },
        screen.update_pts o.current_pts (screen.render p w).1,
      )
      else none

  -- The next picture decides whether this one is dropped.
  unfoldable pub drop_or_show : ℤ → Out → Picture → List Picture → W → Option (Round W)
  drop_or_show sys_clock o p [] w = render_picture o p w
  drop_or_show sys_clock o p (q ∷ rest) w =
      let q' = timed screen.estimate o.current_pts q in
      let o' = take_out (q' ∷ rest) o in
      if ltb_ℤ sys_clock q'.pts
      then render_picture o' p w
      else some (dropped p ∷ [], o', screen.update_pts o.current_pts w)

  -- Once the first picture, `p`, has been taken off the queue: after a jump it is shown.
  unfoldable pub finish : Bool → ℤ → Out → Picture → List Picture → W → Option (Round W)
  finish true sys_clock o p rest w = render_picture o p w
  finish false sys_clock o p rest w = drop_or_show sys_clock o p rest w

  unfoldable pub show_taken : ℤ → Out → Picture → List Picture → W → Option (Round W)
  show_taken sys_clock o p rest w =
      finish o.video_discontinue sys_clock (set_pts (take_out rest o) p.pts) p rest w

  -- The clock that counts, where the host has none yet, and the host with it.
  unfoldable pub clock_of : Picture → W → ℤ × W
  clock_of p w =
      let sys_clock = screen.get_systime w in
      if is_invalid sys_clock
      then (p.pts, screen.update_systime p.pts (screen.update_systime p.pts w))
      else (sys_clock, screen.update_systime sys_clock w)

  unfoldable pub show_by_clock : Out → Picture → List Picture → W → Option (Round W)
  show_by_clock o p rest w =
      let c = clock_of p w in
      let o' = record o {
        video_discontinue = o.video_discontinue || jumps o.last_valid_pts p.pts;
      } in
      if not o'.video_discontinue && ltb_ℤ c.0 p.pts
      then some ([], o', c.1)
      else show_taken c.0 o' p rest c.1

  unfoldable pub show_by_duration : Out → Picture → List Picture → W → Option (Round W)
  show_by_duration o p rest w =
      if eqb_ℤ o.render_clock_start (negsuc 0)
        || ltb_ℤ o.render_ms (quot (llabs (sub_64 (screen.now w) o.render_clock_start)) 1000)
      then render_picture (take_out rest (record o { render_clock_start = screen.now w })) p w
      else some ([], o, w)

  unfoldable pub show_first : List Picture → Out → W → Option (Round W)
  show_first [] o w = some ([], o, w)
  show_first (p ∷ rest) o w =
      if o.by_duration then show_by_duration o p rest w else show_by_clock o p rest w

  unfoldable pub show_queue : Out × W → Option (Round W)
  show_queue (o, w) = show_first o.vo_queue o w

  unfoldable pub by_status : VoStatus → Out → W → Option (Round W)
  by_status exit o w = some ([], record o { has_left = true }, w)
  by_status idle o w = some ([], o, w)
  by_status pause o w = some ([], o, w)
  by_status running o w = switch_vo o w >>= show_queue

  -- A round of `video_output_thread`.
  unfoldable pub video_output_thread : Out → W → Option (Round W)
  video_output_thread o w = if o.has_left then some ([], o, w) else by_status o.status o w
