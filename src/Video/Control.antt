-- ===== src/Video/Control.antt =====
-- dtvideo/dtvideo.c: the state of the video part, the times that it reports, and its queue of pictures.
use dtplayer_c.Base.{
  ◌≡◌, ◌≢◌, refl, sym, ap, Bool, true, false, Option, none, some, [], ◌∷◌, ◌==◌, if◌then◌else◌,
  arith, ℤ, pos, negsuc,
}
use dtplayer_c.Heap.{Ptr, null}
use dtplayer_c.Heap.Chain.{Cells}
use dtplayer_c.Host.{no_pts}
use dtplayer_c.DataQueue.{DataQueue, Memory, queue_pop_head, queue_pre_pop_head}
use dtplayer_c.DataQueue.Ends.{IsDataQueue}
use dtplayer_c.DataQueue.Run.{empty_head, empty_pre}
use dtplayer_c.Video.{running, Out, video_output_start, video_output_pause, video_output_resume}

-- `dtvideo_status_t`
pub data VideoState : Type 0 where
  idle initing inited running_state active paused stop terminated : VideoState

-- `video_status < VIDEO_STATUS_INITED`
unfoldable pub before_inited : VideoState → Bool
before_inited idle = true
before_inited initing = true
before_inited _ = false

-- `video_status <= VIDEO_STATUS_INITED`
unfoldable pub up_to_inited : VideoState → Bool
up_to_inited inited = true
up_to_inited s = before_inited s

-- `dtvideo_context_t`, as far as these calls use it; `pts_first` is the decoder's.
pub record VideoCtx : Type 0 where
  pub video_status : VideoState
  pub video_out : Out
  pub current_pts : ℤ
  pub pts_first : ℤ

unfoldable pub dtvideo_get_current_pts : VideoCtx → ℤ
dtvideo_get_current_pts c = if up_to_inited c.video_status then negsuc 0 else c.current_pts

unfoldable pub first_pts_from : VideoState → VideoCtx → ℤ
first_pts_from inited c = c.pts_first
first_pts_from _ c = no_pts

unfoldable pub video_get_first_pts : VideoCtx → ℤ
video_get_first_pts c = first_pts_from c.video_status c

-- The time that is sent to the host, where one is.
unfoldable pub dtvideo_update_pts : VideoCtx → Option ℤ
dtvideo_update_pts c = if before_inited c.video_status then none else some c.current_pts

unfoldable pub video_start_from : VideoState → VideoCtx → VideoCtx
video_start_from inited c = record c {
  video_out = video_output_start c.video_out;
  video_status = active;
}
video_start_from _ c = c

-- The result is 0 on each branch.
unfoldable pub video_start : VideoCtx → ℤ × VideoCtx
video_start c = (pos 0, video_start_from c.video_status c)

unfoldable pub video_pause_from : VideoState → VideoCtx → VideoCtx
video_pause_from active c = record c {
  video_out = video_output_pause c.video_out;
  video_status = paused;
}
video_pause_from _ c = c

unfoldable pub video_pause : VideoCtx → ℤ × VideoCtx
video_pause c = (pos 0, video_pause_from c.video_status c)

unfoldable pub video_resume_from : VideoState → VideoCtx → ℤ × VideoCtx
video_resume_from paused c =
    (pos 0, record c { video_out = video_output_resume c.video_out; video_status = active })
video_resume_from _ c = (negsuc 0, c)

unfoldable pub video_resume : VideoCtx → ℤ × VideoCtx
video_resume c = video_resume_from c.video_status c

-- `dtvideo_output_read`
unfoldable pub dtvideo_output_read : DataQueue → Memory → Option (Ptr × DataQueue × Memory)
dtvideo_output_read q h = if q.length == 0 then some (null, q, h) else queue_pop_head q h

unfoldable pub dtvideo_output_pre_read : DataQueue → Memory → Option Ptr
dtvideo_output_pre_read q h = if q.length == 0 then some null else queue_pre_pop_head q h

-- On a well-formed queue the test of the length makes no difference.
pub dtvideo_output_read_lem :
    (xs : Cells Ptr) {q : DataQueue} {h : Memory}
    → IsDataQueue h xs q
    → (dtvideo_output_read q h ≡ queue_pop_head q h)
      × (dtvideo_output_pre_read q h ≡ queue_pre_pop_head q h)
unfolding dtvideo_output_read dtvideo_output_pre_read
dtvideo_output_read_lem [] {q} v =
    let empty : (q.length == 0) ≡ true = ground (arith, v.count) in
    (rw empty (sym (empty_head v)), rw empty (sym (empty_pre v)))
dtvideo_output_read_lem (_ ∷ xs) {q} v =
    let full : (q.length == 0) ≡ false = ground (arith, v.count) in (rw full refl, rw full refl)

video_pause-active :
    (c : VideoCtx) → c.video_status ≡ active → video_pause c ≡ (pos 0, video_pause_from active c)
unfolding video_pause
video_pause-active c e = ap (λ (s : VideoState). (pos 0, video_pause_from s c)) e

-- A video part that plays is as before after a pause and a resume, and the resume answers 0.
pub video_resume-pause :
    (c : VideoCtx)
    → c.video_status ≡ active
    → c.video_out.status ≡ running
    → video_resume (video_pause c).1 ≡ (pos 0, c)
unfolding video_resume video_resume_from video_output_pause video_output_resume video_pause_from
video_resume-pause c e s = rw (video_pause-active c e) (ground arith)

video_pause_from-other : (s : VideoState) (c : VideoCtx) → s ≢ active → video_pause_from s c ≡ c
unfolding video_pause_from
video_pause_from-other idle c ne = refl
video_pause_from-other initing c ne = refl
video_pause_from-other inited c ne = refl
video_pause_from-other running_state c ne = refl
video_pause_from-other active c ne = absurd (ne refl)
video_pause_from-other paused c ne = refl
video_pause_from-other stop c ne = refl
video_pause_from-other terminated c ne = refl

-- Where the video part is not playing, a pause changes nothing.
pub video_pause-other : (c : VideoCtx) → c.video_status ≢ active → (video_pause c).1 ≡ c
unfolding video_pause
video_pause-other c ne = video_pause_from-other c.video_status c ne
