-- ===== src/Aac/Tests.antt =====
-- A file of three frames, with two bytes before the second.
use dtplayer_c.Base.{
  pos_part, Option, ℕ, ◌+◌, ◌-◌, ◌≤◌, ◌≡◌, refl, Bool, true, false, ◌*◌, ◌/◌, none, some, List, [],
  ◌∷◌, arith, length, take, drop, ltb, if◌then◌else◌, ℤ, pos, negsuc, eqb_ℤ,
}
use dtplayer_c.Stream.Wrapper.{seek_cur}
use dtplayer_c.Stream.File.{Os, FileStream, IsRegular}
use dtplayer_c.Aac.{Input, Float, Aac, aac_parse_frame, demuxer_aac_probe}
use dtplayer_c.Aac.Header.{Adts, header_on, aac_parse_frame-header}
use dtplayer_c.Aac.Frames.{AdtsFrame, frames_on}
use dtplayer_c.Aac.Probe.{demuxer_aac_probe-Safe}
use dtplayer_c.Aac.Accept.{demuxer_aac_probe-accepts}
use dtplayer_c.Aac.Reader.{read_round, take_frame, AacPacket, demuxer_aac_read_frame}
use dtplayer_c.Aac.Sync.{IsFile}
use dtplayer_c.Aac.InOrder.{
  Item, items_on, frame_bytes, packet_bytes, read_packets, read_packets-InOrder,
}
use dtplayer_c.Aac.Faults.{
  IsDry, demuxer_aac_probe-refused, demuxer_aac_read_frame-hangs, demuxer_aac_read_frame-overflow,
}
use dtplayer_c.Aac.File.{file_input, file_input-IsFile}

-- A descriptor is its offset.
abbrev seek_disk : ℤ → ℤ → ℕ → ℤ × ℕ
seek_disk (pos n) whence f = if eqb_ℤ whence seek_cur then (pos (f + n), f + n) else (pos n, n)
seek_disk (negsuc n) whence f = if ltb n f then (pos (f - (n + 1)), f - (n + 1)) else (negsuc 0, f)

abbrev disk : List ℕ → Os ℕ
disk file = record {
  read_fd = λ n f. (
    pos (length (take n (drop f file))),
    take n (drop f file),
    f + length (take n (drop f file)),
  );
  lseek = seek_disk;
}

disk-IsRegular : (file : List ℕ) → IsRegular (disk file) file (λ f. f)
disk-IsRegular file = record {
  gives = λ n f. refl;
  counts = λ n f. refl;
  goes_on = λ n f. refl;
  seeks_set = λ m f. refl;
  set_at = λ m f. refl;
  seeks_on = λ n f. refl;
  on_at = λ n f. refl;
  seeks_back = λ n f lt. ground arith;
  back_at = λ n f lt. ground arith;
}

abbrev plenty : ℕ → Bool
plenty n = true

-- Times are counted in samples.
abbrev samples : Float ℕ
samples = record {
  zero_time = 0;
  block_time = λ num srate. num * 1024;
  plus = λ s t. s + t;
  to_pts = λ t. pos t;
  rate_of = λ size time. pos size;
  of_int = λ n. pos_part n * 1000000;
  divide = λ s t. s * 1000000 / t;
  times = λ s t. s * t / 1000000;
  to_int = λ t. pos (t / 1000000);
}

abbrev header : ℕ → ℕ → Adts
header rate n = record {
  id = 0;
  protection_absent = 1;
  profile = 1;
  sampling_frequency_index = rate;
  private_bit = 0;
  channel_configuration = 2;
  marks = 0;
  frame_length = 7 + n;
  fullness = 2047;
  blocks = 0;
}

abbrev frame : ℕ → List ℕ → AdtsFrame
frame rate payload = record { header = header rate (length payload); payload = payload }

abbrev pub one : AdtsFrame
one = frame 4 (33 ∷ 16 ∷ [])

abbrev pub two : AdtsFrame
two = frame 4 (33 ∷ 255 ∷ 1 ∷ [])

abbrev context : Aac ℕ
context = record {
  buf = 0 ∷ 0 ∷ 0 ∷ 0 ∷ 0 ∷ 0 ∷ 0 ∷ 0 ∷ [];
  size = 0;
  time = 0;
  last_pts = 0;
  bitrate = pos 0;
  samplerate = 44100;
}

abbrev opened : FileStream ℕ
opened = record {
  fd = 0;
  file_size = pos 100;
  info = record {
    is_stream = 0;
    seek_support = 1;
    cur_pos = pos 0;
    stream_size = pos 100;
    eof_flag = 0;
  };
}

aac_parse_frame-header_example :
    aac_parse_frame (header_on (header 4 2) (33 ∷ [])) ≡ some (9, some (44100, 1))
aac_parse_frame-header_example =
    aac_parse_frame-header (header 4 2) (33 ∷ []) (omega arith) (omega arith) refl

abbrev three : List AdtsFrame
three = one ∷ two ∷ one ∷ []

demuxer_aac_probe-Safe_example :
    (n : ℕ) × (demuxer_aac_probe (frames_on three []) ≡ some n) × (n ≤ 1)
demuxer_aac_probe-Safe_example = demuxer_aac_probe-Safe (frames_on three [])

demuxer_aac_probe-accepts_example : demuxer_aac_probe (frames_on three []) ≡ some 1
demuxer_aac_probe-accepts_example =
    demuxer_aac_probe-accepts (frames_on three []) one two one [] [] (omega arith) refl

abbrev items : List Item
items = ([], one) ∷ (0 ∷ 17 ∷ [], two) ∷ ([], one) ∷ []

abbrev stream : List ℕ → Input (FileStream ℕ)
stream file = file_input (disk file) plenty

stream-IsFile : (file : List ℕ) → IsFile (stream file) file (λ s. s.fd)
stream-IsFile file = file_input-IsFile (disk-IsRegular file) (λ n. refl)

file_input-IsFile_example : IsFile (file_input (disk (1 ∷ [])) plenty) (1 ∷ []) (λ s. s.fd)
file_input-IsFile_example = file_input-IsFile (disk-IsRegular (1 ∷ [])) (λ n. refl)

read_packets-InOrder_example :
    (packets : List AacPacket) × (a' : Aac ℕ) × (w' : FileStream ℕ) × (read_packets
        (stream (items_on items []))
        samples
        4
        3
        context
        opened
      ≡ some (packets, a', w'))
    × (packet_bytes packets ≡ frame_bytes items)
    × (drop w'.fd (items_on items []) ≡ [])
unfolding file_input
read_packets-InOrder_example =
    read_packets-InOrder samples (stream-IsFile (items_on items [])) items 2 [] context opened
      (omega arith) refl refl refl

abbrev slow : AdtsFrame
slow = frame 12 (33 ∷ 16 ∷ [])

demuxer_aac_probe-refused_example :
    (demuxer_aac_probe (frames_on (slow ∷ slow ∷ slow ∷ []) []) ≡ some 1)
    × (aac_parse_frame (frames_on (slow ∷ slow ∷ slow ∷ []) []) ≡ some (0, none))
demuxer_aac_probe-refused_example =
    demuxer_aac_probe-refused (frames_on (slow ∷ slow ∷ slow ∷ []) []) slow slow slow [] []
      (omega arith) refl refl

-- A stream that never has a byte.
abbrev silent : Input ℕ
silent = record {
  eof = λ w. false;
  read = λ n w. (pos 0, [], w);
  skip = λ p w. w;
  rewind = λ w. w;
  malloc = λ n w. true;
}

silent-IsDry : IsDry silent (λ w. w ≡ 0)
silent-IsDry = record {
  dry_ret = λ w d. refl;
  dry_bytes = λ w d. refl;
  dry_stays = λ w d. d;
  no_mark = λ w d. refl;
}

demuxer_aac_read_frame-hangs_example : demuxer_aac_read_frame silent samples 9 context 0 ≡ none
demuxer_aac_read_frame-hangs_example =
    demuxer_aac_read_frame-hangs samples silent-IsDry 9 context 0 refl

abbrev short_header : Adts
short_header = record (header 4 0) { frame_length = 3 }

demuxer_aac_read_frame-overflow_example :
    (a' : Aac ℕ) × (w' : FileStream ℕ) × (info : Option (ℕ × ℕ)) × (a'.buf
      ≡ header_on short_header (1 ∷ []))
    × (read_round (stream (header_on short_header (1 ∷ []))) samples 2 context opened
        ≡ take_frame (stream (header_on short_header (1 ∷ []))) samples a' (3, info) w')
    × (take_frame (stream (header_on short_header (1 ∷ []))) samples a' (3, info) w' ≡ none)
    × (demuxer_aac_read_frame (stream (header_on short_header (1 ∷ []))) samples 2 context opened
        ≡ none)
unfolding file_input
demuxer_aac_read_frame-overflow_example =
    demuxer_aac_read_frame-overflow samples (stream-IsFile (header_on short_header (1 ∷ [])))
      short_header 1 [] 0 context opened (omega arith) refl refl refl
