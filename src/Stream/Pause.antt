-- ===== src/Stream/Pause.antt =====
-- The handshakes with the thread: every request is answered within a few rounds.
use dtplayer_c.Base.{ℕ, suc, ◌≡◌, refl, inl, inr, true, false, some, [], Bool-cases}
use dtplayer_c.Stream.{
  null, pause, Status, idle, paused, running, quit, Source, Ctx, see_flag, clean, by_status,
  cache_thread, is_pause, is_idle, wait_idle, pause_cache_thread, wait_quit, stop_cache_thread,
}

-- The context after a pause: nothing is in the hands of the thread.
unfoldable pub at_rest : {W : Type 0} → Ctx W → Ctx W
at_rest {W} x = record x { tmp_buf = []; cache_flag = null; cache_status = idle }

is_idle-idle : (s : Status) → is_idle s ≡ true → s ≡ idle
unfolding is_idle
is_idle-idle idle e = refl
is_idle-idle paused e = absurd (cc e)
is_idle-idle running e = absurd (cc e)
is_idle-idle quit e = absurd (cc e)

module _ {W : Type 0} (source : Source W) where
  -- A round after `cache_flag` has been set to `ST_FLAG_PAUSE`.
  cache_thread-pause :
      (x : Ctx W)
      → x.has_quit ≡ false
      → cache_thread source (record x { cache_flag = pause }) ≡ some (at_rest x)
  unfolding cache_thread see_flag by_status clean is_pause at_rest
  cache_thread-pause x h = simp h

  wait_idle-busy :
      (fuel : ℕ) (x : Ctx W) {y : Ctx W}
      → is_idle x.cache_status ≡ false
      → cache_thread source x ≡ some y
      → wait_idle source (suc fuel) x ≡ wait_idle source fuel y
  unfolding wait_idle
  wait_idle-busy fuel x e r = rw (e, is_idle, wait_idle) (rw r refl)

  -- Where the thread has not left its loop and holds bytes only while it works, a pause takes effect
  -- after one round at most: the thread is idle with no bytes in hand, and the flag is clear. The
  -- cache and the real stream stay as they were.
  pub pause_cache_thread-at_rest :
      (fuel : ℕ) (x : Ctx W)
      → x.has_quit ≡ false
      → (x.cache_status ≡ idle → x.tmp_buf ≡ [])
      → pause_cache_thread source (suc (suc fuel)) x ≡ some (at_rest x)
  unfolding pause_cache_thread wait_idle is_idle at_rest
  pause_cache_thread-at_rest fuel x h clear = elim (Bool-cases (is_idle x.cache_status)) [
    | inl e ↦
        let i : x.cache_status ≡ idle = is_idle-idle x.cache_status e in
        let t : x.tmp_buf ≡ [] = clear i in simp (i, t)
    | inr e ↦
        rw (wait_idle-busy (suc fuel) (record x { cache_flag = pause }) e (cache_thread-pause x h))
          refl
  ]

  -- Stopping takes one round at most: the thread leaves its loop.
  pub stop_cache_thread-has_quit :
      (fuel : ℕ) (x : Ctx W)
      → x.has_quit ≡ false
      → stop_cache_thread source (suc (suc fuel)) x
        ≡ some (record x { cache_flag = null; cache_status = quit; has_quit = true })
  unfolding stop_cache_thread wait_quit cache_thread see_flag by_status is_pause
  stop_cache_thread-has_quit fuel x h = simp h
