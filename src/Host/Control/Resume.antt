-- ===== src/Host/Control/Resume.antt =====
-- The clock after `host_resume`.
use dtplayer_c.Base.{ℕ, ◌+◌, ◌*◌, ◌/◌, ◌<◌, ◌≡◌, refl, ap, ◌∙◌, true, ℤ, pos, two_63}
use dtplayer_c.Host.{Host, Outputs}
use dtplayer_c.Host.Clock.{is_invalid, host_update_systime, host_reset_systime, host_get_vpts}
use dtplayer_c.Host.Clock.Time.{host_update_systime_lem, is_invalid_pos}
use dtplayer_c.Host.Control.{restart_clock, host_resume}

-- After `host_resume` of a host with video, the clock runs on from the current video time, however
-- long the pause was: `d` microseconds later, with every value in the range of `int64_t`, it is
-- that time and nine ticks for each 100 microseconds.
pub host_resume-systime :
    {W : Type 0} (m : Outputs W) (c : Host) (w : W) (s t d : ℕ) (x : ℤ)
    → c.para.has_video ≡ true
    → c.pts_video_current ≡ pos s
    → d * 9 < two_63
    → s + d * 9 / 100 < two_63
    → (host_update_systime (pos (t + d)) (host_resume m (pos t) c w).1 x).1.sys_time_current
      ≡ pos (s + d * 9 / 100)
unfolding host_resume restart_clock host_reset_systime host_get_vpts
host_resume-systime m c w s t d x video at_s h g =
    let c' : Host = host_reset_systime (pos t) c c.pts_video_current in
    let resumed : (host_resume m (pos t) c w).1 ≡ c' = simp video in
    ap (λ y. (host_update_systime (pos (t + d)) y x).1.sys_time_current) resumed
    ∙ (host_update_systime_lem c' s t d x at_s refl (ap is_invalid at_s ∙ is_invalid_pos s) h g).0
