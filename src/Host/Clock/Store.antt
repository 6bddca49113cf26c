-- ===== src/Host/Clock/Store.antt =====
-- The times that dthost/dthost.c stores stay as they are while the clock follows them.
use dtplayer_c.Base.{◌≡◌, Bool, arith, ℤ}
use dtplayer_c.Host.{Host}
use dtplayer_c.Host.Clock.{
  follow_audio, set_mode, correct_audio, sync_audio, after_audio, correct_video, sync_video,
  host_get_avdiff, host_reset_systime, mark_audio_jump, mark_video_jump, store_apts, store_vpts,
  host_update_apts, host_update_vpts,
}

after_audio-apts :
    (closed : Bool) (now : ℤ) (c : Host) (apts : ℤ)
    → (after_audio closed now c apts).1.pts_audio_current ≡ c.pts_audio_current
unfolding after_audio follow_audio sync_audio correct_audio set_mode host_get_avdiff
    host_reset_systime
after_audio-apts closed now c apts = ground arith

pub host_update_apts-apts :
    (closed : Bool) (now : ℤ) (c : Host) (apts : ℤ)
    → (host_update_apts closed now c apts).1.pts_audio_current ≡ apts
unfolding host_update_apts store_apts
host_update_apts-apts closed now c apts =
    after_audio-apts closed now (store_apts (mark_audio_jump c apts) apts) apts

sync_video-vpts :
    (now : ℤ) (c : Host) (vpts : ℤ)
    → (sync_video now c vpts).pts_video_current ≡ c.pts_video_current
unfolding sync_video correct_video set_mode host_get_avdiff host_reset_systime
sync_video-vpts now c vpts = ground arith

pub host_update_vpts-vpts :
    (now : ℤ) (c : Host) (vpts : ℤ) → (host_update_vpts now c vpts).1.pts_video_current ≡ vpts
unfolding host_update_vpts store_vpts
host_update_vpts-vpts now c vpts =
    sync_video-vpts now (store_vpts (mark_video_jump c vpts) vpts) vpts
