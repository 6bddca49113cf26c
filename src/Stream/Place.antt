-- ===== src/Stream/Place.antt =====
-- `stream_cache_seek` on a file: wherever the client goes, it reads the file from there.
use dtplayer_c.Base.{
  ℕ, suc, ◌+◌, ◌-◌, ◌≤◌, ◌<◌, ◌≡◌, refl, sym, ◌∙◌, ap, ◌⊎◌, inl, inr, false, Option, some, List, [],
  ◌++◌, arith, ltb, Bool-cases, drop, drop-drop, drop-append_le, ◌>>=◌, pos, negsuc, ℤ,
}
use dtplayer_c.Ring.{region}
use dtplayer_c.Cache.{Cache, cache_seek, cache_reset}
use dtplayer_c.Cache.Inv.{IsValid, Keeps, contents, window, contents-window}
use dtplayer_c.Cache.Seek.{cache_seek-on, cache_seek-back}
use dtplayer_c.Stream.{
  Status, idle, running, Source, is_pause, resume_cache_thread, pause_cache_thread,
}
use dtplayer_c.Stream.Wrapper.{
  Stream, with_cache, seek_set, seek_done, seek_real, seek_after, stream_cache_seek,
}
use dtplayer_c.Stream.Order.{InOrder, Flows, ahead}
use dtplayer_c.Stream.Pause.{at_rest, pause_cache_thread-at_rest}
use dtplayer_c.Stream.Seek.{
  Lands, seek_on-Lands, seek_back-Lands, step_of-on, step_of-back, seek_back-past, length-window,
}

-- A file whose bytes are `file`: a seek with SEEK_SET to a position succeeds, and reads go on there.
pub record IsFile {W : Type 0} (source : Source W) (rest : W → List ℕ) (file : List ℕ)
    : Type 0 where
  pub order : InOrder source rest
  pub succeeds : (w : W) (m : ℕ) → (source.seek_source w (pos m) seek_set).0 ≡ pos 0
  pub goes_to : (w : W) (m : ℕ) → rest (source.seek_source w (pos m) seek_set).1 ≡ drop m file

-- The client stands at position `n` of the file, and the cache keeps the `k` bytes before it.
pub record Placed {W : Type 0} (rest : W → List ℕ) (file : List ℕ) (k n : ℕ) (s : Stream W)
    : Type 0 where
  pub flows : Flows s.ctx
  pub at_work : s.ctx.has_quit ≡ false
  pub idle_clear : s.ctx.cache_status ≡ idle → s.ctx.tmp_buf ≡ []
  pub keeps : Keeps k s.ctx.cache
  pub written : 0 < k → 0 < s.ctx.cache.wp
  pub kept_in : k ≤ n
  pub cur_is : s.info.cur_pos ≡ pos n
  pub window_is : window k s.ctx.cache ++ (s.ctx.tmp_buf ++ rest s.ctx.real_st) ≡ drop (n - k) file

-- The seek has succeeded, the client reads the file from position `m` on, and the thread has not quit: it is
-- RUNNING or as it was.
abbrev pub Sought :
    {W : Type 0} → (W → List ℕ) → List ℕ → ℕ → Status → Option (ℤ × Stream W) → Type 0
Sought {W} rest file m before r =
    (t : Stream W) × (r ≡ some (pos 0, t))
    × Flows t.ctx
    × (t.info.cur_pos ≡ pos m)
    × (t.info.eof_flag ≡ 0)
    × (ahead rest t.ctx ≡ drop m file)
    × (t.ctx.has_quit ≡ false)
    × ((t.ctx.cache_status ≡ running) ⊎ (t.ctx.cache_status ≡ before))

module _ {W : Type 0} {source : Source W} {rest : W → List ℕ} {file : List ℕ}
    (is_file : IsFile source rest file) (fuel : ℕ) {k n : ℕ} {s : Stream W}
    (placed : Placed rest file k n s) (m : ℕ) where
  seek_real-Sought :
      Sought rest file m s.ctx.cache_status (seek_real source (suc (suc fuel)) s (pos m) seek_set)
  unfolding seek_real at_rest resume_cache_thread cache_reset seek_done is_pause ahead contents
      region
  seek_real-Sought =
      let p : pause_cache_thread source (suc (suc fuel)) s.ctx ≡ some (at_rest s.ctx) =
        pause_cache_thread-at_rest source fuel s.ctx placed.at_work placed.idle_clear in
      let v : IsValid s.ctx.cache = placed.flows.valid in
      rw (p, is_file.succeeds s.ctx.real_st m)
        (
          _,
          refl,
          record { valid = ground arith; no_pause = refl; not_paused = λ e. cc e },
          refl,
          refl,
          is_file.goes_to s.ctx.real_st m,
          placed.at_work,
          inl refl,
        )

  refused-Sought :
      (r : Option (ℤ × Cache))
      → r ≡ some (negsuc 0, s.ctx.cache)
      → Sought rest file m s.ctx.cache_status
          (r >>= seek_after source (suc (suc fuel)) s (pos m) seek_set)
  unfolding seek_after with_cache
  refused-Sought r e = simp e seek_real-Sought

  -- What follows a `cache_seek` that has landed.
  landed-Sought :
      (l base : ℕ) (bytes : List ℕ) (r : Option (ℤ × Cache))
      → Lands s.ctx.cache l bytes r
      → bytes ++ (s.ctx.tmp_buf ++ rest s.ctx.real_st) ≡ drop base file
      → base + l ≡ m
      → Sought rest file m s.ctx.cache_status
          (r >>= seek_after source (suc (suc fuel)) s (pos m) seek_set)
  unfolding seek_after with_cache seek_done ahead
  landed-Sought l base bytes r (inl e) h f = refused-Sought r e
  landed-Sought l base bytes r (inr (c', e, v, le, d)) h f =
      let behind : List ℕ = s.ctx.tmp_buf ++ rest s.ctx.real_st in
      simp e (
        _,
        refl,
        record {
          valid = v;
          no_pause = placed.flows.no_pause;
          not_paused = placed.flows.not_paused;
        },
        refl,
        refl,
        ap (λ (t : List ℕ). t ++ behind) d
            ∙ sym (drop-append_le l bytes behind le)
            ∙ ap (drop l) h
            ∙ drop-drop l base file
            ∙ ap (λ (x : ℕ). drop x file) f,
        placed.at_work,
        inr refl,
      )

  -- What is ahead of the client is the file from its position on.
  ahead-Placed : ahead rest s.ctx ≡ drop n file
  unfolding ahead
  ahead-Placed =
      let behind : List ℕ = s.ctx.tmp_buf ++ rest s.ctx.real_st in
      let keep : Keeps k s.ctx.cache = placed.keeps in
      let e : n - k + k ≡ n = omega (arith, placed.kept_in) in
      ap (λ (t : List ℕ). t ++ behind) (contents-window placed.flows.valid keep)
      ∙ sym (
          drop-append_le k (window k s.ctx.cache) behind
            (omega (arith, length-window placed.flows.valid keep)))
      ∙ ap (drop k) placed.window_is
      ∙ drop-drop k (n - k) file
      ∙ ap (λ (x : ℕ). drop x file) e

  seek-on_Sought :
      n < m
      → m - n < 2147483648
      → Sought rest file m s.ctx.cache_status
          (stream_cache_seek source (suc (suc fuel)) s (pos m) seek_set)
  unfolding stream_cache_seek ahead
  seek-on_Sought lt h =
      rw
        (
          step_of-on s.info n m placed.cur_is (omega arith) h,
          cache_seek-on s.ctx.cache (m - n) (omega arith),
        )
        (landed-Sought (m - n) n (contents s.ctx.cache) _
          (seek_on-Lands placed.flows.valid (m - n) (omega arith)) ahead-Placed (omega arith))

  seek-back_Sought :
      m < n
      → n - m < 2147483648
      → Sought rest file m s.ctx.cache_status
          (stream_cache_seek source (suc (suc fuel)) s (pos m) seek_set)
  unfolding stream_cache_seek
  seek-back_Sought lt h =
      rw
        (
          step_of-back s.info n m placed.cur_is lt h,
          cache_seek-back s.ctx.cache (n - m) (omega arith),
        )
        (elim (Bool-cases (ltb k (n - m))) [
          | inl past ↦
              refused-Sought _ (seek_back-past placed.flows.valid (n - m) k placed.keeps past)
          | inr inside ↦
              landed-Sought (k - (n - m)) (n - k) (window k s.ctx.cache) _
                (seek_back-Lands placed.flows.valid (n - m) k placed.keeps (omega arith)
                  (ground arith) placed.written)
                placed.window_is (ground (arith, placed.kept_in))
        ])

  seek-here_Sought :
      m ≡ n
      → Sought rest file m s.ctx.cache_status
          (stream_cache_seek source (suc (suc fuel)) s (pos m) seek_set)
  unfolding stream_cache_seek cache_seek seek_after with_cache seek_done ahead
  seek-here_Sought e =
      let z : m - n ≡ 0 = omega arith in
      rw (step_of-on s.info n m placed.cur_is (omega arith) (omega arith), z)
        (
          record s { info = seek_done s.info (pos m) seek_set },
          refl,
          placed.flows,
          refl,
          refl,
          ahead-Placed ∙ ap (λ (x : ℕ). drop x file) (sym e),
          placed.at_work,
          inr refl,
        )

  -- A seek with SEEK_SET to any position less than 2 ^ 31 bytes away succeeds, within the cache or
  -- through the real stream, which the thread's pause then allows: the new position is the one
  -- asked for, the end is no longer noted, the thread has not left its loop, and is RUNNING or has the
  -- status it had, and the bytes ahead of the client are those of the file from there. The client is to stand at its position in a file whose seeks
  -- succeed, with the bytes kept by the cache those before it.
  pub stream_cache_seek-Sought :
      m - n < 2147483648
      → n - m < 2147483648
      → Sought rest file m s.ctx.cache_status
          (stream_cache_seek source (suc (suc fuel)) s (pos m) seek_set)
  stream_cache_seek-Sought h g = elim (Bool-cases (ltb n m)) [
    | inl e ↦ seek-on_Sought (ground arith) h
    | inr e ↦ elim (Bool-cases (ltb m n)) [
      | inl f ↦ seek-back_Sought (ground arith) g
      | inr f ↦ seek-here_Sought (ground arith)
    ]
  ]
