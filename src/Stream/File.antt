-- ===== src/Stream/File.antt =====
-- dtstream/stream/stream_file.c: a local file as a stream. The system calls on the descriptor are an
-- interface on its state `F`.
use dtplayer_c.Base.{
  ℕ, ◌+◌, ◌-◌, ◌<◌, ◌≡◌, Option, none, some, List, length, take, drop, if◌then◌else◌, ℤ, pos,
  negsuc, ltb_ℤ, eqb_ℤ, add_64,
}
use dtplayer_c.Stream.{Info}
use dtplayer_c.Stream.Wrapper.{avseek_size, seek_set, seek_cur}

-- `read` and `lseek`. A read returns its result and the bytes that it has stored.
pub record Os (F : Type 0) : Type 0 where
  pub read_fd : ℕ → F → ℤ × List ℕ × F
  pub lseek : ℤ → ℤ → F → ℤ × F

-- `file_ctx_t`, with the `info` of its wrapper.
pub record FileStream (F : Type 0) : Type 0 where
  pub fd : F
  pub file_size : ℤ
  pub info : Info

-- `opened` is the descriptor that `open` gives, where it does, and `stated` the size by `stat`.
unfoldable pub stream_file_open : {F : Type 0} → Option F → Option ℤ → ℤ × Option (FileStream F)
stream_file_open none stated = (negsuc 0, none)
stream_file_open (some fd) stated =
    let size : ℤ = elim stated [ none ↦ negsuc 0 | some n ↦ n ] in
    (
      pos 0,
      some (record {
        fd = fd;
        file_size = size;
        info = record {
          is_stream = 0;
          seek_support = 1;
          cur_pos = pos 0;
          stream_size = size;
          eof_flag = 0;
        };
      }),
    )

module _ {F : Type 0} (os : Os F) where
  -- `info` once a read has returned `r`.
  unfoldable pub info_read : ℤ → Info → Info
  info_read r i =
      if ltb_ℤ (pos 0) r
      then record i { cur_pos = add_64 i.cur_pos r }
      else record i { eof_flag = 1 }

  unfoldable pub stream_file_read : ℕ → FileStream F → ℤ × List ℕ × FileStream F
  stream_file_read len s =
      let (r, bytes, fd) = os.read_fd len s.fd in
      (
        (if ltb_ℤ (pos 0) r then r else negsuc 0),
        bytes,
        record s { fd = fd; info = info_read r s.info },
      )

  unfoldable pub info_seek : ℤ → ℤ → Info → Info
  info_seek p whence i =
      if eqb_ℤ whence seek_set
      then record i { cur_pos = p }
      else if eqb_ℤ whence seek_cur
      then record i { cur_pos = add_64 i.cur_pos p }
      else i

  unfoldable pub stream_file_seek : ℤ → ℤ → FileStream F → ℤ × FileStream F
  stream_file_seek p whence s =
      let i = record s.info { eof_flag = 0 } in
      if eqb_ℤ whence avseek_size
      then (i.stream_size, record s { info = i })
      else let (r, fd) = os.lseek p whence s.fd in
        if ltb_ℤ r (pos 0)
        then (negsuc 0, record s { fd = fd; info = i })
        else (pos 0, record s { fd = fd; info = info_seek p whence i })

-- What POSIX says of a regular file whose bytes are `file`, with `offset` that of the descriptor: a read
-- gives the bytes from there, as many as are asked for and as there are, and a seek that does not go
-- before the start succeeds.
pub record IsRegular {F : Type 0} (os : Os F) (file : List ℕ) (offset : F → ℕ) : Type 0 where
  pub gives : (n : ℕ) (f : F) → (os.read_fd n f).1 ≡ take n (drop (offset f) file)
  pub counts : (n : ℕ) (f : F) → (os.read_fd n f).0 ≡ pos (length (os.read_fd n f).1)
  pub goes_on : (n : ℕ) (f : F) → offset (os.read_fd n f).2 ≡ offset f + length (os.read_fd n f).1
  pub seeks_set : (m : ℕ) (f : F) → (os.lseek (pos m) seek_set f).0 ≡ pos m
  pub set_at : (m : ℕ) (f : F) → offset (os.lseek (pos m) seek_set f).1 ≡ m
  pub seeks_on : (n : ℕ) (f : F) → (os.lseek (pos n) seek_cur f).0 ≡ pos (offset f + n)
  pub on_at : (n : ℕ) (f : F) → offset (os.lseek (pos n) seek_cur f).1 ≡ offset f + n
  pub seeks_back :
      (n : ℕ) (f : F) → n < offset f → (os.lseek (negsuc n) seek_cur f).0 ≡ pos (offset f - (n + 1))
  pub back_at :
      (n : ℕ) (f : F)
      → n < offset f
      → offset (os.lseek (negsuc n) seek_cur f).1 ≡ offset f - (n + 1)
