-- ===== src/PacketQueue/Trace.antt =====
-- What a client of the packet queue sees of a sequence of calls.
use mathlib.Core.Option
use mathlib.Core.Option.{Option}
use dtplayer_c.Base.{
  ℕ, ◌+◌, ◌≤◌, ◌<◌, ◌≡◌, refl, ◌∙◌, ap, sym, ◌≢◌, inl, inr, true, ◌&&◌, none, some, List, [], ◌∷◌,
  ◌++◌, arith, ◌==◌, leb, Bool-cases, ◌>>=◌, ℤ, pos, negsuc,
}
use dtplayer_c.Heap.{Ptr, null, Heap}
use dtplayer_c.Heap.Chain.{Cells}
use dtplayer_c.Media.{Packet, is_video, is_audio}
use dtplayer_c.PacketQueue.{
  Queue, Limits, packet_queue_put, packet_queue_put_frame, packet_queue_get, packet_queue_get_frame,
}
use dtplayer_c.PacketQueue.Inv.{IsQueue, total_size}
use dtplayer_c.PacketQueue.Refine.{Allocates, items, packet_queue_put_lem, packet_queue_get_lem}

pub data Op : Type 0 where
  put : Packet → Op
  get : Op

-- The status, and the packet that `packet_queue_get` hands out.
abbrev pub Reply : Type 0
Reply = ℤ × Option Packet

-- The sum of the sizes of the packets.
abbrev pub bytes : List Packet → ℕ
bytes [] = 0
bytes (f ∷ q) = f.size + bytes q

-- What may happen to the list of queued packets in a call, with what it returns; `p` is what `malloc`
-- answers on the heap of the call.
pub data Allowed (s : Limits) (p : Ptr) : List Packet → Op → Reply → List Packet → Type 0 where
  stored :
      {q : List Packet} {f : Packet}
      → (is_video f.type ≡ true → bytes q < s.video_max_size)
      → (is_audio f.type ≡ true → bytes q < s.audio_max_size)
      → p ≢ null
      → Allowed s p q (put f) (pos 0, none) (q ++ (f ∷ []))
  no_memory :
      {q : List Packet} {f : Packet}
      → (is_video f.type ≡ true → bytes q < s.video_max_size)
      → (is_audio f.type ≡ true → bytes q < s.audio_max_size)
      → p ≡ null
      → Allowed s p q (put f) (negsuc 0, none) q
  video_full :
      {q : List Packet} {f : Packet}
      → is_video f.type ≡ true
      → s.video_max_size ≤ bytes q
      → Allowed s p q (put f) (negsuc 0, none) q
  audio_full :
      {q : List Packet} {f : Packet}
      → is_audio f.type ≡ true
      → s.audio_max_size ≤ bytes q
      → Allowed s p q (put f) (negsuc 1, none) q
  taken : {q : List Packet} {f : Packet} → Allowed s p (f ∷ q) get (pos 0, some f) q
  empty : Allowed s p [] get (negsuc 0, none) []

items-bytes : (xs : Cells Packet) → bytes (items xs) ≡ total_size xs
items-bytes [] = refl
items-bytes ((p, f) ∷ xs) = omega (arith, items-bytes xs)

items-snoc :
    (xs : Cells Packet) (p : Ptr) (f : Packet) → items (xs ++ ((p, f) ∷ [])) ≡ items xs ++ (f ∷ [])
items-snoc [] p f = refl
items-snoc ((r, b) ∷ xs) p f = ap (◌∷◌ b) (items-snoc xs p f)

module _ (malloc : Heap Packet → Ptr) (s : Limits) where
  unfoldable pub step : Queue → Heap Packet → Op → Option (Reply × Queue × Heap Packet)
  step q h (put f) =
      Option.map (λ (code, q', h'). ((code, none), q', h')) (packet_queue_put malloc s q f h)
  step q h get = Option.map (λ (code, f, q', h'). ((code, f), q', h')) (packet_queue_get q h)

  unfoldable pub run : Queue → Heap Packet → List Op → Option (List Reply × Queue × Heap Packet)
  run q h [] = some ([], q, h)
  run q h (op ∷ ops) = do
    (r, q', h') ← step q h op
    (rs, q'', h'') ← run q' h' ops
    some (r ∷ rs, q'', h'')

-- A run of calls from a queue and a heap on, call by call: each does what is allowed on the list.
pub data Trace (malloc : Heap Packet → Ptr) (s : Limits)
    : Queue → Heap Packet → List Packet → List Op → List Reply → List Packet → Type 0 where
  done : {q : Queue} {h : Heap Packet} {l : List Packet} → Trace malloc s q h l [] [] l
  call :
      {ops : List Op} {rs : List Reply} {q q' : Queue} {h h' : Heap Packet} {l l' l'' : List Packet}
      {op : Op} {r : Reply}
      → step malloc s q h op ≡ some (r, q', h')
      → Allowed s (malloc h) l op r l'
      → Trace malloc s q' h' l' ops rs l''
      → Trace malloc s q h l (op ∷ ops) (r ∷ rs) l''

module _ (malloc : Heap Packet → Ptr) (s : Limits) where
  -- The outcome of one call on the queue of the cells `xs`.
  abbrev Stepped : Ptr → Cells Packet → Op → Option (Reply × Queue × Heap Packet) → Type 0
  Stepped p xs op o =
      (r : Reply) × (xs' : Cells Packet) × (q' : Queue) × (h' : Heap Packet) × (o
        ≡ some (r, q', h'))
      × IsQueue h' xs' q'
      × Allowed s p (items xs) op r (items xs')

  module _ (fresh : Allocates malloc) where
    put-Stepped :
        {h : Heap Packet} {xs : Cells Packet} {q : Queue} (f : Packet)
        → IsQueue h xs q
        → Stepped (malloc h) xs (put f) (step malloc s q h (put f))
    unfolding step packet_queue_put packet_queue_put_frame
    put-Stepped {h} {xs} {q} f v =
        let size_is : q.size ≡ bytes (items xs) = v.bytes ∙ sym (items-bytes xs) in
        elim (Bool-cases (is_video f.type && leb s.video_max_size q.size)) [
          | inl e ↦ ((negsuc 0, none), xs, q, h, rw e, v, video_full (ground arith) (ground arith))
          | inr e ↦ elim (Bool-cases (is_audio f.type && leb s.audio_max_size q.size)) [
            | inl e' ↦ (
              (negsuc 1, none),
              xs,
              q,
              h,
              rw (e, e'),
              v,
              audio_full (ground arith) (ground arith),
            )
            | inr e' ↦ elim (Bool-cases (malloc h == null)) [
              | inl e'' ↦ (
                (negsuc 0, none),
                xs,
                q,
                h,
                rw (e, e', e''),
                v,
                no_memory (ground arith) (ground arith) (ground arith),
              )
              | inr e'' ↦
                  let ne : malloc h ≢ null = ground arith in
                  let (q', h', eq, v', same) =
                    packet_queue_put_lem malloc s f fresh v ne (ground arith) in
                  (
                    (pos 0, none),
                    xs ++ ((malloc h, f) ∷ []),
                    q',
                    h',
                    rw eq,
                    v',
                    rw (items-snoc xs (malloc h) f) (stored (ground arith) (ground arith) ne),
                  )
            ]
          ]
        ]

    get-Stepped :
        {h : Heap Packet} (xs : Cells Packet) {q : Queue}
        → IsQueue h xs q
        → Stepped (malloc h) xs get (step malloc s q h get)
    unfolding step packet_queue_get packet_queue_get_frame
    get-Stepped {h} [] {q} v =
        let none_left : (q.nb_packets == 0) ≡ true = ground arith in
        ((negsuc 0, none), [], q, h, rw none_left, v, empty)
    get-Stepped {h} ((p, f) ∷ xs) {q} v =
        let (q', e, v') = packet_queue_get_lem p f v in
        ((pos 0, some f), xs, q', _, rw e, v', taken)

    step-Stepped :
        (op : Op) {h : Heap Packet} {xs : Cells Packet} {q : Queue}
        → IsQueue h xs q
        → Stepped (malloc h) xs op (step malloc s q h op)
    step-Stepped (put f) v = put-Stepped f v
    step-Stepped get {xs} v = get-Stepped xs v

    -- Any sequence of `packet_queue_put` and `packet_queue_get` on a well-formed queue runs without
    -- a fault. What the calls return, and the packets left, are those of a list of packets in first
    -- in, first out order: a put below the limit for its type is stored where `malloc` gives memory, and
    -- refused where it answers NULL.
    pub run-Trace :
        (ops : List Op) {h : Heap Packet} {xs : Cells Packet} {q : Queue}
        → IsQueue h xs q
        → (rs : List Reply) × (xs' : Cells Packet) × (q' : Queue) × (h' : Heap Packet) × (run malloc
              s q h ops
            ≡ some (rs, q', h'))
          × IsQueue h' xs' q'
          × Trace malloc s q h (items xs) ops rs (items xs')
    unfolding run
    run-Trace [] {h} {xs} {q} v = ([], xs, q, h, refl, v, done)
    run-Trace (op ∷ ops) v =
        let (r, xs', q', h', e, v', a) = step-Stepped op v in
        let (rs, xs'', q'', h'', e', v'', t) = run-Trace ops v' in
        (r ∷ rs, xs'', q'', h'', rw (e, e'), v'', call e a t)
