-- ===== src/Stream/Tests.antt =====
-- Runs of the cached stream on a file of nine bytes, with a cache of eight, and its theorems there.
use dtplayer_c.Base.{
  ◌⊎◌, ℕ, ◌+◌, ◌<◌, min, ◌≡◌, refl, sym, ◌∙◌, ap, inl, Option, none, some, List, [], ◌∷◌, ◌++◌,
  arith, pos, take, drop, drop-drop, take-append-drop, pos_part, false,
}
use dtplayer_c.Cache.{Cache}
use dtplayer_c.Cache.Inv.{IsValid, contents, window}
use dtplayer_c.Cache.Life.{Blank}
use dtplayer_c.Ring.{region}
use dtplayer_c.Stream.{null, running, Info, Source, pause_cache_thread, is_pause}
use dtplayer_c.Stream.Wrapper.{Stream, seek_set, stream_cache_read, stream_cache_seek}
use dtplayer_c.Stream.Order.{InOrder, Flows, Flown, thread_round, client_read, run, run-Flown}
use dtplayer_c.Stream.Pause.{at_rest, pause_cache_thread-at_rest}
use dtplayer_c.Stream.Place.{IsFile, Placed, Sought, stream_cache_seek-Sought}
use dtplayer_c.Stream.Life.{stream_cache_read-no_eof}

abbrev file : List ℕ
file = 1 ∷ 2 ∷ 3 ∷ 4 ∷ 5 ∷ 6 ∷ 7 ∷ 8 ∷ 9 ∷ []

-- The real stream is a position in the file. At the end a read returns no bytes.
abbrev hand_out : List ℕ → ℕ → ℕ → Option (List ℕ) × ℕ
hand_out [] at n = (none, at)
hand_out (b ∷ bytes) at n = (some (take n (b ∷ bytes)), at + n)

abbrev file_info : Info
file_info = record {
  is_stream = 0;
  seek_support = 1;
  cur_pos = pos 0;
  stream_size = pos 9;
  eof_flag = 0;
}

abbrev file_source : Source ℕ
file_source = record {
  open_source = λ at. (pos 0, 0);
  read_source = λ at n. hand_out (drop at file) at n;
  seek_source = λ at p whence. (pos 0, pos_part p);
  close_source = λ at. at;
  info_source = λ at. file_info;
}

abbrev file_rest : ℕ → List ℕ
file_rest at = drop at file

hand_out-gives :
    (l : List ℕ) (at n : ℕ) (bytes : List ℕ) (at' : ℕ)
    → hand_out l at n ≡ (some bytes, at')
    → (bytes ≡ take n l) × (at' ≡ at + n)
hand_out-gives [] at n bytes at' e = absurd (cc e)
hand_out-gives (b ∷ l) at n bytes at' e = (cc e, cc e)

hand_out-ends : (l : List ℕ) (at n at' : ℕ) → hand_out l at n ≡ (none, at') → at' ≡ at
hand_out-ends [] at n at' e = cc e
hand_out-ends (b ∷ l) at n at' e = absurd (cc e)

file_source-InOrder : InOrder file_source file_rest
file_source-InOrder = record {
  gives = λ at n bytes at' e.
      let (f, g) = hand_out-gives (drop at file) at n bytes at' e in
      rw (f, g)
        (ap (λ (t : List ℕ). take n (drop at file) ++ t) (sym (drop-drop n at file))
          ∙ take-append-drop n (drop at file));
  ends = λ at n at' e. ap file_rest (hand_out-ends (drop at file) at n at' e);
}

file_source-IsFile : IsFile file_source file_rest file
file_source-IsFile = record {
  order = file_source-InOrder;
  succeeds = λ at m. refl;
  goes_to = λ at m. refl;
}

-- Bytes 1 to 6 have been fetched; 1 and 2 are read and kept.
abbrev part_read : Cache
part_read = record {
  mem = 1 ∷ 2 ∷ 3 ∷ 4 ∷ 5 ∷ 6 ∷ 0 ∷ 0 ∷ [];
  level = 4;
  total_size = 8;
  pre_size = pos 2;
  fix_pre_size = 1;
  pre_rp = 0;
  rp = 2;
  wp = 6;
}

abbrev part_stream : Stream ℕ
part_stream = record {
  info = record {
    is_stream = 0;
    seek_support = 1;
    cur_pos = pos 2;
    stream_size = pos 9;
    eof_flag = 0;
  };
  ctx = record {
    cache = part_read;
    cache_flag = null;
    cache_status = running;
    real_st = 6;
    tmp_buf = [];
    has_quit = false;
  };
}

part_read-IsValid : IsValid part_read
part_read-IsValid = record {
  fits = refl;
  rp_in = omega arith;
  wp_in = omega arith;
  level_in = omega arith;
  ends = inl refl;
}

part_stream-Flows : Flows part_stream.ctx
part_stream-Flows = record {
  valid = part_read-IsValid;
  no_pause = unfold is_pause in refl;
  not_paused = λ e. cc e;
}

part_stream-Placed : Placed file_rest file 2 2 part_stream
part_stream-Placed = record {
  flows = part_stream-Flows;
  at_work = refl;
  idle_clear = λ e. refl;
  keeps = record { size_is = refl; pre_in = omega arith; room = omega arith; pre_ends = inl refl };
  written = λ e. omega arith;
  kept_in = omega arith;
  cur_is = refl;
  window_is = unfold window region in refl;
}

run-Flown_example :
    Flown file_rest part_stream (
      run file_source
        (thread_round ∷ client_read 3 ∷ thread_round ∷ client_read 9 ∷ [])
        part_stream)
run-Flown_example =
    run-Flown file_source-InOrder (thread_round ∷ client_read 3 ∷ thread_round ∷ client_read 9 ∷ [])
      part_stream part_stream-Flows

pause_cache_thread-at_rest_example :
    pause_cache_thread file_source 2 part_stream.ctx ≡ some (at_rest part_stream.ctx)
pause_cache_thread-at_rest_example =
    pause_cache_thread-at_rest file_source 0 part_stream.ctx refl (λ e. refl)

stream_cache_seek-Sought_example :
    Sought file_rest file 1 part_stream.ctx.cache_status
      (stream_cache_seek file_source 2 part_stream (pos 1) seek_set)
stream_cache_seek-Sought_example =
    stream_cache_seek-Sought file_source-IsFile 0 part_stream-Placed 1 (omega arith) (omega arith)

stream_cache_read-no_eof_example :
    (out : List ℕ) × (t : Stream ℕ) × (n : ℕ) × (stream_cache_read part_stream 3 ≡ some (n, out, t))
    × (t.info.eof_flag ≡ 0)
    × (t.ctx.cache_flag ≡ null)
    × (((part_read.level ≡ 0) × (n ≡ 0) × (out ≡ []) × (t ≡ part_stream))
        ⊎ ((0 < part_read.level)
            × (0 < n)
            × (n ≡ min part_read.level 3)
            × (out ≡ take n (contents part_read))))
stream_cache_read-no_eof_example =
    stream_cache_read-no_eof part_stream 3 part_read-IsValid (omega arith)

-- A cache of three bytes that has just been made.
abbrev new_cache : Cache
new_cache = record {
  mem = 0 ∷ 0 ∷ 0 ∷ [];
  level = 0;
  total_size = 3;
  pre_size = pos 0;
  fix_pre_size = 0;
  pre_rp = 0;
  rp = 0;
  wp = 0;
}

new_cache-Blank : Blank new_cache
unfolding contents region
new_cache-Blank = (
  record {
    fits = refl;
    rp_in = omega arith;
    wp_in = omega arith;
    level_in = omega arith;
    ends = inl refl;
  },
  record { size_is = refl; pre_in = omega arith; room = omega arith; pre_ends = inl refl },
  refl,
)
