-- ===== src/Stream/Order.antt =====
-- What passes through the cache: the thread's rounds and the reads of a client, in any order.
use dtplayer_c.Base.{
  ℕ, ◌+◌, ◌-◌, ◌≤◌, ◌≡◌, ◌≢◌, refl, sym, ◌∙◌, ap, inl, inr, true, false, Option, none, some, List,
  [], ◌∷◌, ◌++◌, arith, min, ◌==◌, Bool-cases, length, take, drop, take_all, drop_all, eq-nil,
  length-take, append_assoc, take-append-drop, ◌>>=◌, ltb_ℤ, pos, ◌-ℤ◌,
}
use dtplayer_c.Cache.{Cache, cache_write, cache_level, cache_space}
use dtplayer_c.Cache.Inv.{IsValid, contents, length-contents}
use dtplayer_c.Cache.Fifo.{cache_read-Fifo}
use dtplayer_c.Cache.Write.{Stored, cache_write_lem}
use dtplayer_c.Stream.{
  Status, idle, paused, running, quit, Source, Ctx, see_flag, left_over, store, received, fill,
  by_status, cache_thread, is_pause, read_per_time,
}
use dtplayer_c.Stream.Wrapper.{Stream, with_cache, after_read, stream_cache_read}

-- The real stream hands out the bytes that `rest` has left, in order and at most as many as asked.
pub record InOrder {W : Type 0} (source : Source W) (rest : W → List ℕ) : Type 0 where
  pub gives :
      (w : W) (n : ℕ) (bytes : List ℕ) (w' : W)
      → source.read_source w n ≡ (some bytes, w')
      → bytes ++ rest w' ≡ rest w
  pub ends : (w : W) (n : ℕ) (w' : W) → source.read_source w n ≡ (none, w') → rest w' ≡ rest w

-- The thread works or has met the end, and nobody has asked it to pause.
pub record Flows {W : Type 0} (x : Ctx W) : Type 0 where
  pub valid : IsValid x.cache
  pub no_pause : is_pause x.cache_flag ≡ false
  pub not_paused : x.cache_status ≢ paused

-- The bytes that the client has still to read: in the cache, in the thread, in the real stream.
unfoldable pub ahead : {W : Type 0} → (W → List ℕ) → Ctx W → List ℕ
ahead rest x = contents x.cache ++ (x.tmp_buf ++ rest x.real_st)

left_over_lem : (bytes : List ℕ) → left_over bytes (length bytes) ≡ []
unfolding left_over
left_over_lem [] = refl
left_over_lem (b ∷ bytes) =
    rw (drop_all (length (b ∷ bytes)) (b ∷ bytes) (omega arith)) (ground arith)

space-room :
    (c : Cache) (n : ℕ)
    → ltb_ℤ (cache_space c) (pos n) ≡ false
    → c.level + c.fix_pre_size + n ≤ c.total_size
unfolding cache_space ◌-ℤ◌
space-room c n h = ground arith

-- A write of all the bytes, where the cache has the space.
cache_write-all :
    {c : Cache} (bytes : List ℕ)
    → IsValid c
    → ltb_ℤ (cache_space c) (pos (length bytes)) ≡ false
    → Stored c bytes (cache_write c bytes)
cache_write-all {c} bytes v h =
    let room : c.level + c.fix_pre_size + length bytes ≤ c.total_size =
      space-room c (length bytes) h in
    let e : take (c.total_size - (c.level + c.fix_pre_size)) bytes ≡ bytes =
      take_all _ bytes (omega arith) in
    rw e at (cache_write_lem bytes v (omega arith))

module _ {W : Type 0} where
  -- The step has brought nothing out of order.
  abbrev pub Kept : (W → List ℕ) → Ctx W → Option (Ctx W) → Type 0
  Kept rest x r = (y : Ctx W) × (r ≡ some y) × Flows y × (ahead rest y ≡ ahead rest x)

  store-Kept : (rest : W → List ℕ) (x : Ctx W) → Flows x → Kept rest x (store x)
  unfolding store ahead
  store-Kept rest x f = elim (Bool-cases (ltb_ℤ (cache_space x.cache) (pos (length x.tmp_buf)))) [
    | inl e ↦ rw e (x, refl, f, refl)
    | inr e ↦
        let (c', r, v, s, p) = cache_write-all x.tmp_buf f.valid e in
        rw (e, r, left_over_lem x.tmp_buf)
          (
            record x { cache = c'; tmp_buf = [] },
            refl,
            record { valid = v; no_pause = f.no_pause; not_paused = f.not_paused },
            rw s (append_assoc (contents x.cache) x.tmp_buf (rest x.real_st)),
          )
  ]

module _ {W : Type 0} {source : Source W} {rest : W → List ℕ} (order : InOrder source rest) where
  received-Kept :
      (x : Ctx W) (n : ℕ) (r : Option (List ℕ) × W)
      → Flows x
      → x.tmp_buf ≡ []
      → source.read_source x.real_st n ≡ r
      → Kept rest x (received source x r)
  unfolding received ahead is_pause
  received-Kept x n (none, w) f e h = (
    _,
    refl,
    record { valid = f.valid; no_pause = refl; not_paused = λ p. cc p },
    rw (e, order.ends x.real_st n w h),
  )
  received-Kept x n (some bytes, w) f e h =
      let y : Ctx W = record x { real_st = w; tmp_buf = bytes } in
      let g : Flows y = record {
        valid = f.valid;
        no_pause = f.no_pause;
        not_paused = f.not_paused;
      } in
      let (z, r, fz, a) = store-Kept rest y g in
      (z, r, fz, a ∙ rw (e, order.gives x.real_st n bytes w h))

  fill-Kept : (x : Ctx W) → Flows x → Kept rest x (fill source x)
  unfolding fill
  fill-Kept x f = elim (Bool-cases (length x.tmp_buf == 0)) [
    | inl e ↦ rw e (
        received-Kept x read_per_time (source.read_source x.real_st read_per_time) f
          (eq-nil x.tmp_buf (ground arith)) refl)
    | inr e ↦ rw e (store-Kept rest x f)
  ]

  by_status-Kept :
      (s : Status) (x : Ctx W) → x.cache_status ≡ s → Flows x → Kept rest x (by_status source s x)
  unfolding by_status ahead
  by_status-Kept idle x e f = (x, refl, f, refl)
  by_status-Kept paused x e f = absurd (f.not_paused e)
  by_status-Kept running x e f = fill-Kept x f
  by_status-Kept quit x e f = (
    record x { has_quit = true },
    refl,
    record { valid = f.valid; no_pause = f.no_pause; not_paused = f.not_paused },
    refl,
  )

  -- A round of the thread faults in no state, and brings nothing out of order.
  pub cache_thread-Kept : (x : Ctx W) → Flows x → Kept rest x (cache_thread source x)
  unfolding cache_thread see_flag
  cache_thread-Kept x f = elim (Bool-cases x.has_quit) [
    | inl e ↦ simp e (x, refl, f, refl)
    | inr e ↦ simp (e, f.no_pause) (by_status-Kept x.cache_status x refl f)
  ]

-- The client has read some of the bytes ahead of it, in order: as many as it asked for, or all that
-- the cache has.
abbrev pub ClientRead :
    {W : Type 0} → (W → List ℕ) → ℕ → Stream W → Option (ℕ × List ℕ × Stream W) → Type 0
ClientRead {W} rest len s r =
    (out : List ℕ) × (t : Stream W) × (r ≡ some (length out, out, t))
    × (length out ≡ min len (length (contents s.ctx.cache)))
    × (out ++ ahead rest t.ctx ≡ ahead rest s.ctx)
    × Flows t.ctx

module _ {W : Type 0} (rest : W → List ℕ) where
  pub stream_cache_read-ClientRead :
      (len : ℕ) (s : Stream W) → Flows s.ctx → ClientRead rest len s (stream_cache_read s len)
  unfolding stream_cache_read with_cache ahead cache_level
  stream_cache_read-ClientRead len s f =
      let c : Cache = s.ctx.cache in
      let l : length (contents c) ≡ c.level = length-contents f.valid in
      elim (Bool-cases (c.level == 0)) [
        | inl e ↦ rw e ([], s, refl, ground arith, refl, f)
        | inr e ↦
            let (c', r, v, d) = cache_read-Fifo len f.valid in
            let n : length (take (min c.level len) (contents c)) ≡ min c.level len =
              omega (arith, length-take (min c.level len) (contents c)) in
            let y : Stream W = with_cache s c' in
            rw (e, r)
              (
                take (min c.level len) (contents c),
                record y { info = after_read s.ctx.cache_flag s.info (min c.level len) },
                rw n,
                omega arith,
                rw d (
                    sym (
                      append_assoc (take (min c.level len) (contents c))
                        (drop (min c.level len) (contents c)) (s.ctx.tmp_buf ++ rest s.ctx.real_st))
                    ∙ ap (λ (t : List ℕ). t ++ (s.ctx.tmp_buf ++ rest s.ctx.real_st))
                        (take-append-drop (min c.level len) (contents c))),
                record { valid = v; no_pause = f.no_pause; not_paused = f.not_paused },
              )
      ]

-- One thing that happens: a round of the thread, or a read of the client.
pub data Action : Type 0 where
  thread_round : Action
  client_read : ℕ → Action

-- The bytes that the client reads meanwhile, and the stream then.
unfoldable pub act : {W : Type 0} → Source W → Action → Stream W → Option (List ℕ × Stream W)
act source thread_round s = cache_thread source s.ctx >>= λ x. some ([], record s { ctx = x })
act source (client_read len) s = stream_cache_read s len >>= λ r. some (r.1, r.2)

unfoldable pub run : {W : Type 0} → Source W → List Action → Stream W → Option (List ℕ × Stream W)
run source [] s = some ([], s)
run source (a ∷ actions) s = do
  r ← act source a s
  q ← run source actions r.1
  some (r.0 ++ q.0, q.1)

-- `out` has been read, the rest is still ahead.
abbrev pub Flown : {W : Type 0} → (W → List ℕ) → Stream W → Option (List ℕ × Stream W) → Type 0
Flown {W} rest s r =
    (out : List ℕ) × (t : Stream W) × (r ≡ some (out, t))
    × Flows t.ctx
    × (out ++ ahead rest t.ctx ≡ ahead rest s.ctx)

module _ {W : Type 0} {source : Source W} {rest : W → List ℕ} (order : InOrder source rest) where
  act-Flown : (a : Action) (s : Stream W) → Flows s.ctx → Flown rest s (act source a s)
  unfolding act
  act-Flown thread_round s f =
      let (y, r, g, e) = cache_thread-Kept order s.ctx f in
      rw r ([], record s { ctx = y }, refl, g, e)
  act-Flown (client_read len) s f =
      let (out, t, r, n, e, g) = stream_cache_read-ClientRead rest len s f in
      rw r (out, t, refl, g, e)

  -- However the rounds of the thread and the reads of the client are interleaved, none faults, and
  -- what the client has read, followed by what is ahead of it, is what was ahead of it at first:
  -- no byte is lost, doubled or out of order. The real stream is to deliver its bytes in order, the
  -- cache is to be valid, and nobody asks the thread to pause.
  pub run-Flown :
      (actions : List Action) (s : Stream W) → Flows s.ctx → Flown rest s (run source actions s)
  unfolding run
  run-Flown [] s f = ([], s, refl, f, refl)
  run-Flown (a ∷ actions) s f =
      let (out, t, r, g, e) = act-Flown a s f in
      let (more, u, q, h, d) = run-Flown actions t g in
      rw (r, q)
        (
          out ++ more,
          u,
          refl,
          h,
          append_assoc out more (ahead rest u.ctx) ∙ ap (λ (z : List ℕ). out ++ z) d ∙ e,
        )
