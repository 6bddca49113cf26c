-- ===== src/Aac/File.antt =====
-- The demuxer on a local file: stream_file.c, called through dtstream.c and dtstream_api.c.
use dtplayer_c.Base.{
  ℕ, ◌+◌, ◌-◌, ◌≤◌, ◌<◌, ◌≡◌, refl, ◌∙◌, ap, Bool, true, false, not, List, arith, length, drop,
  length-take, length-drop, ◌==◌, pos, ltb_ℤ,
}
use dtplayer_c.Aac.{Input}
use dtplayer_c.Aac.Sync.{IsFile}
use dtplayer_c.Stream.Wrapper.{seek_set, seek_cur}
use dtplayer_c.Stream.File.{
  Os, FileStream, IsRegular, info_read, info_seek, stream_file_read, stream_file_seek,
}

-- `dtstream_eof`, `dtstream_read`, `dtstream_skip` and `dtstream_seek` to the start.
unfoldable pub file_input : {F : Type 0} → Os F → (ℕ → Bool) → Input (FileStream F)
file_input os malloc = record {
  eof = λ s. not (s.info.eof_flag == 0);
  read = stream_file_read os;
  skip = λ p s. (stream_file_seek os p seek_cur s).1;
  rewind = λ s. (stream_file_seek os (pos 0) seek_set s).1;
  malloc = λ n s. malloc n;
}

module _ {F : Type 0} {os : Os F} {file : List ℕ} {offset : F → ℕ} {malloc : ℕ → Bool}
    (v : IsRegular os file offset) (memory : (n : ℕ) → malloc n ≡ true) where
  count : (n : ℕ) (f : F) → offset f + n ≤ length file → length (os.read_fd n f).1 ≡ n
  count n f le =
      ap length (v.gives n f)
      ∙ omega (arith, length-take n (drop (offset f) file), length-drop (offset f) file)

  ret : (n : ℕ) (f : F) → offset f + n ≤ length file → (os.read_fd n f).0 ≡ pos n
  ret n f le = v.counts n f ∙ ap pos (count n f le)

  not_negative : (k : ℕ) → ltb_ℤ (pos k) (pos 0) ≡ false
  not_negative k = ground arith

  positive : (n : ℕ) → 0 < n → ltb_ℤ (pos 0) (pos n) ≡ true
  positive n p = ground arith

  -- A regular file is a stream as the demuxer wants it.
  pub file_input-IsFile : IsFile (file_input os malloc) file (λ s. offset s.fd)
  unfolding file_input stream_file_read stream_file_seek info_read info_seek
  file_input-IsFile = record {
    read_ret = λ n w p le. rw (ret n w.fd le, positive n p) refl;
    read_bytes = λ n w p le. v.gives n w.fd;
    read_at = λ n w p le. v.goes_on n w.fd ∙ ap (λ (k : ℕ). offset w.fd + k) (count n w.fd le);
    read_eof = λ n w p le. rw (ret n w.fd le, positive n p) refl;
    back_at = λ n w lt.
        rw (v.seeks_back n w.fd lt, not_negative (offset w.fd - (n + 1)))
          (v.back_at n w.fd lt ∙ omega arith);
    back_eof = λ n w lt. rw (v.seeks_back n w.fd lt, not_negative (offset w.fd - (n + 1))) refl;
    on_at = λ n w le. rw (v.seeks_on n w.fd, not_negative (offset w.fd + n)) (v.on_at n w.fd);
    rewind_at = λ w. rw (v.seeks_set 0 w.fd) (v.set_at 0 w.fd);
    has_memory = λ n w. memory n;
  }
