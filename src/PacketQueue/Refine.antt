-- ===== src/PacketQueue/Refine.antt =====
-- A well-formed packet queue behaves as the list of its packets.
use dtplayer_c.Base.{
  ℕ, zero, suc, ◌+◌, ◌-◌, ◌<◌, ◌≡◌, refl, ◌∙◌, sym, ◌≢◌, Bool, true, false, ◌&&◌, ◌||◌, Option,
  none, some, List, [], ◌∷◌, ◌++◌, arith, ◌==◌, leb, length, length-append, ℤ, pos, le→leb,
}
use mathlib.Core.List.{map}
use dtplayer_c.Heap.{Ptr, write_self, write_ne, free-ok, null, node, Heap, write}
use dtplayer_c.Heap.Chain.{
  Cells, Chain, Apart, head_of, last_of, Chain-snoc, Chain-write, set_next-last, snoc_heap,
  snoc_heap-frame, last_of-snoc, last-node,
}
use dtplayer_c.Media.{Packet, is_video, is_audio}
use dtplayer_c.PacketQueue.{
  Queue, Limits, packet_queue_put, packet_queue_put_frame, packet_queue_get, packet_queue_get_frame,
  link_frame, unlink_first, flush_loop, packet_queue_flush,
}
use dtplayer_c.PacketQueue.Inv.{IsQueue, total_size-append}

abbrev pub items : Cells Packet → List Packet
items xs = map (λ c. c.1) xs

-- None of the nodes is allocated any more.
abbrev pub Freed : Heap Packet → Cells Packet → Type 0
Freed h [] = Unit {0}
Freed h ((p, _) ∷ xs) = (h p ≡ none) × Freed h xs

-- `packet_queue_put` has appended the packet, and written to no node of another list.
abbrev pub Appended :
    Heap Packet → Cells Packet → Ptr → Packet → Option (ℤ × Queue × Heap Packet) → Type 0
Appended h xs p f r =
    (q' : Queue) × (h' : Heap Packet) × (r ≡ some (pos 0, q', h'))
    × IsQueue h' (xs ++ ((p, f) ∷ [])) q'
    × ((r : Ptr) → Apart r xs → r ≢ p → h' r ≡ h r)

link_frame-Appended :
    {h : Heap Packet} (xs : Cells Packet) {q : Queue} (p : Ptr) (f : Packet)
    → IsQueue h xs q
    → p ≢ null
    → h p ≡ none
    → Appended h xs p f (link_frame p q f h)
unfolding link_frame
link_frame-Appended {h} [] {q} p f v ne e =
    let empty : (q.last == null) ≡ true = ground arith in
    rw empty (
      record { nb_packets = q.nb_packets + 1; size = q.size + f.size; first = p; last = p },
      write h p (some (node f null)),
      refl,
      record {
        chain = (ne, write_self h p _, tt, tt);
        first_is = refl;
        last_is = refl;
        count = omega arith;
        bytes = omega arith;
      },
      (λ r o d. write_ne h p _ r d),
    )
link_frame-Appended {h} ((p', f') ∷ xs) {q} p f v ne e =
    let (nn, held) = last-node h p' f' xs v.chain in
    let filled : (q.last == null) ≡ false = ground arith in
    rw (filled, v.last_is, set_next-last h p' f' xs p f v.chain e)
      (
        record q { nb_packets = q.nb_packets + 1; size = q.size + f.size; last = p },
        snoc_heap h p' f' xs p f,
        refl,
        record {
          chain = Chain-snoc h p' f' xs p f v.chain e ne;
          first_is = v.first_is;
          last_is = sym (last_of-snoc p p' f xs);
          count = omega (arith, length-append xs ((p, f) ∷ []));
          bytes = omega (arith, total_size-append xs ((p, f) ∷ []));
        },
        (λ r o d. snoc_heap-frame h p' f' xs p f r o d),
      )

-- What `malloc` promises: an address that is not in use, or NULL.
abbrev pub Allocates : (Heap Packet → Ptr) → Type 0
Allocates malloc = (h : Heap Packet) → malloc h ≢ null → h (malloc h) ≡ none

-- `packet_queue_put` refuses the packet for its type and the bytes queued so far.
abbrev pub refuses : Limits → Queue → Packet → Bool
refuses s q f =
    (is_video f.type && leb s.video_max_size q.size)
    || (is_audio f.type && leb s.audio_max_size q.size)

module _ (malloc : Heap Packet → Ptr) {h : Heap Packet} {xs : Cells Packet} {q : Queue} (s : Limits)
    (f : Packet) where
  -- On a well-formed queue below the limit for the packet's type, and where memory is left,
  -- `packet_queue_put` appends the packet and changes no other node that is in use.
  pub packet_queue_put_lem :
      Allocates malloc
      → IsQueue h xs q
      → malloc h ≢ null
      → refuses s q f ≡ false
      → Appended h xs (malloc h) f (packet_queue_put malloc s q f h)
  unfolding packet_queue_put packet_queue_put_frame
  packet_queue_put_lem fresh v ne below =
      let got : (malloc h == null) ≡ false = ground arith in
      let no_video : (is_video f.type && leb s.video_max_size q.size) ≡ false = ground arith in
      let no_audio : (is_audio f.type && leb s.audio_max_size q.size) ≡ false = ground arith in
      rw (no_video, no_audio, got) (link_frame-Appended xs (malloc h) f v ne (fresh h ne))

unlink_first-last :
    {h : Heap Packet} {xs : Cells Packet} {q : Queue} (p : Ptr) (f : Packet)
    → IsQueue h ((p, f) ∷ xs) q
    → unlink_first q (node f (head_of xs)) ≡ last_of null xs
unfolding unlink_first
unlink_first-last {xs = []} p f v = refl
unlink_first-last {xs = (r, b) ∷ ys} p f v =
    let e : (r == null) ≡ false = ground arith in rw e v.last_is

-- `packet_queue_get` on a well-formed queue that is not empty returns the oldest packet, frees its
-- node and leaves the others.
pub packet_queue_get_lem :
    {h : Heap Packet} {xs : Cells Packet} {q : Queue} (p : Ptr) (f : Packet)
    → IsQueue h ((p, f) ∷ xs) q
    → (q' : Queue) × (packet_queue_get q h ≡ some (pos 0, some f, q', write h p none))
      × IsQueue (write h p none) xs q'
unfolding packet_queue_get packet_queue_get_frame
packet_queue_get_lem {h} {xs} {q} p f v =
    let (ok, gone) = free-ok h p v.chain.0 v.chain.1 in
    let some_left : (q.nb_packets == 0) ≡ false = ground arith in
    let valid : (q.first == null) ≡ false = ground arith in
    (
      record {
        nb_packets = q.nb_packets - 1;
        size = q.size - f.size;
        first = head_of xs;
        last = unlink_first q (node f (head_of xs));
      },
      rw (some_left, valid, v.first_is, ok, gone, le→leb f.size q.size (omega arith)),
      record {
        chain = Chain-write h p none xs v.chain.2 v.chain.3;
        first_is = refl;
        last_is = unlink_first-last p f v;
        count = omega arith;
        bytes = omega arith;
      },
    )

-- Every packet of the list, and nothing else, is handed to `dtp_packet_free`, in order.
flush_loop_lem :
    (k : ℕ) {h : Heap Packet} (xs : Cells Packet)
    → Chain h xs
    → length xs < k
    → (h' : Heap Packet) × (flush_loop k (head_of xs) h ≡ some (items xs, h'))
      × ((r : Ptr) → Apart r xs → h' r ≡ h r)
      × Freed h' xs
unfolding flush_loop
flush_loop_lem zero xs c l = absurd (omega arith)
flush_loop_lem (suc k) {h} [] c l = (h, refl, (λ r o. refl), tt)
flush_loop_lem (suc k) {h} ((p, f) ∷ xs) c l =
    let (ok, gone) = free-ok h p c.0 c.1 in
    let valid : (p == null) ≡ false = ground arith in
    let (h', e, same, none_left) =
      flush_loop_lem k xs (Chain-write h p none xs c.2 c.3) (omega arith) in
    (
      h',
      rw (valid, flush_loop) (rw (ok, gone, e)),
      (λ r o. same r o.1 ∙ write_ne h p none r o.0),
      (same p c.2 ∙ write_self h p none, none_left),
    )

-- `packet_queue_flush` of a well-formed queue returns, within `nb_packets + 1` rounds, with every
-- packet freed in order and every node of the list freed, and leaves the empty queue. Other nodes
-- stay as they are.
pub flush_lem :
    {h : Heap Packet} {xs : Cells Packet} {q : Queue}
    → IsQueue h xs q
    → (q' : Queue) × (h' : Heap Packet) × (packet_queue_flush q h ≡ some (pos 0, items xs, q', h'))
      × IsQueue h' [] q'
      × Freed h' xs
      × ((r : Ptr) → Apart r xs → h' r ≡ h r)
unfolding packet_queue_flush
flush_lem {h} {xs} {q} v =
    let (h', e, same, gone) = flush_loop_lem (q.nb_packets + 1) xs v.chain (omega arith) in
    (
      record { nb_packets = 0; size = 0; first = null; last = null },
      h',
      rw (v.first_is, e),
      record { chain = tt; first_is = refl; last_is = refl; count = refl; bytes = refl },
      gone,
      same,
    )
