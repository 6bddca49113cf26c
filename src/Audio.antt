-- ===== src/Audio.antt =====
-- dtaudio/dtaudio_output.c: the thread that plays the decoded samples, and its calls; and of
-- dtaudio/dtaudio_decoder.c the part of the decoder's thread that fills the buffer between the two.
-- The device and the host are an interface on a state `W`.
pub mod Pipe
pub mod Run
pub mod Units
pub mod Control
mod Tests
use dtplayer_c.Base.{
  ℕ, ◌+◌, ◌-◌, ◌*◌, ◌/◌, ◌%◌, Bool, true, false, not, ◌&&◌, ◌||◌, Option, none, some, List, [],
  ◌++◌, ltb, leb, ◌==◌, if◌then◌else◌, ◌>>=◌, ◌>>◌, take, drop, length, ℤ, pos, negsuc, ltb_ℤ,
  pos_part,
}
use dtplayer_c.Buffer.{Buffer, buf_get, buf_put, buf_space, buf_level}

-- `ao_status_t`
pub data AoStatus : Type 0 where
  idle pause running exit : AoStatus

-- `update_pts` is `audio_update_pts`, `has_device` whether a device is registered,
-- `alloc_ao_context` whether malloc gives a context, `too_late` whether the samples of a level would be
-- half a second late, and the others are the calls of the device.
pub record Device (W : Type 0) : Type 0 where
  pub update_pts : W → W
  pub has_device : W → Bool
  pub alloc_ao_context : W → Bool
  pub init : W → ℤ × W
  pub write : List ℕ → W → ℤ × W
  pub pause_device : W → W
  pub resume_device : W → W
  pub stop_device : W → W
  pub latency : W → ℤ
  pub too_late : ℕ → W → Bool

-- `dtaudio_output_t` with the thread's own variables: `in_hand` are the first `rlen` bytes of `buffer`,
-- and `aoc` says whether the pointer to the device's context is set.
pub record AudioOut : Type 0 where
  pub status : AoStatus
  pub in_hand : List ℕ
  pub unit_size : ℕ
  pub render_inited : Bool
  pub aoc : Bool
  pub first_frame_rendered : Bool
  pub last_valid_latency : ℤ
  pub has_left : Bool

-- `unit_size`, where the sizes are not negative. A remainder by 0 is a fault.
unfoldable pub unit_size_of : ℕ → ℕ → ℕ → Option ℕ
unit_size_of data_width channels samplerate =
    let width = if leb data_width 2 then 2 else data_width in
    let count = if leb channels 2 then 2 else channels in
    let rate = if samplerate == 0 then 48000 else samplerate in
    let bytes_per_sample = width * count / 8 in
    let unit = 10 * rate * bytes_per_sample / 1000 in
    if 4 * bytes_per_sample == 0 then none else some (unit - unit % (4 * bytes_per_sample))

unfoldable pub audio_output_start : AudioOut → AudioOut
audio_output_start o = record o { status = running }

-- `audio_output_stop` up to its join with the thread.
unfoldable pub ask_exit : AudioOut → AudioOut
ask_exit o = record o { status = exit }

-- The bytes that the device has taken in a round, and what is left.
abbrev pub Round : Type 0 → Type 0
Round W = List ℕ × AudioOut × Buffer × W

module _ {W : Type 0} (device : Device W) where
  unfoldable pub audio_output_pause : AudioOut → W → AudioOut × W
  audio_output_pause o w =
      (record o { status = pause }, (if o.aoc then device.pause_device w else w))

  -- The context is used unchecked.
  unfoldable pub audio_output_resume : AudioOut → W → Option (AudioOut × W)
  audio_output_resume o w =
      if o.aoc then some (record o { status = running }, device.resume_device w) else none

  unfoldable pub audio_output_get_latency : AudioOut → W → ℤ × AudioOut
  audio_output_get_latency o w = elim o.status [
    | idle ↦ (pos 0, o)
    | exit ↦ (pos 0, o)
    | pause ↦ (o.last_valid_latency, o)
    | running ↦
        if o.aoc && o.first_frame_rendered
        then (device.latency w, record o { last_valid_latency = device.latency w })
        else (o.last_valid_latency, o)
  ]

  -- What the device answers to a write decides what stays in hand.
  unfoldable pub written : ℤ × W → AudioOut → Buffer → Round W
  written (wlen, w) o b =
      if ltb_ℤ (pos 0) wlen
      then (
        take (pos_part wlen) o.in_hand,
        record o { first_frame_rendered = true; in_hand = drop (pos_part wlen) o.in_hand },
        b,
        w,
      )
      else ([], o, b, w)

  unfoldable pub write_round : AudioOut → Buffer → W → Round W
  write_round o b w = written (device.write o.in_hand w) o b

  -- The thread ends where it finds no device, no memory, or a device that does not open.
  unfoldable pub opened : ℤ × W → AudioOut → Buffer → Round W
  opened (ret, w) o b =
      if ltb_ℤ ret (pos 0) then ([], record o { has_left = true }, b, w) else write_round o b w

  unfoldable pub open_round : AudioOut → Buffer → W → Round W
  open_round o b w =
      if o.render_inited
      then write_round o b w
      else if device.has_device w && device.alloc_ao_context w
      then opened (device.init w) (record o { render_inited = true; aoc = true }) b
      else ([], record o { render_inited = true; has_left = true }, b, w)

  unfoldable pub fetched : AudioOut → W → ℕ × List ℕ × Buffer → Round W
  fetched o w (rlen, bytes, b) =
      if rlen == 0 then ([], o, b, w) else open_round (record o { in_hand = bytes }) b w

  unfoldable pub play_round : AudioOut → Buffer → W → Option (Round W)
  play_round o b w =
      if length o.in_hand == 0
      then (do r ← buf_get b o.unit_size; some (fetched o (device.update_pts w) r))
      else some (open_round o b (device.update_pts w))

  unfoldable pub by_status : AoStatus → AudioOut → Buffer → W → Option (Round W)
  by_status exit o b w = some ([], record o { has_left = true }, b, w)
  by_status idle o b w = some ([], o, b, w)
  by_status pause o b w = some ([], o, b, w)
  by_status running o b w = play_round o b w

  -- A round of `audio_output_thread`.
  unfoldable pub audio_output_thread : AudioOut → Buffer → W → Option (Round W)
  audio_output_thread o b w = if o.has_left then some ([], o, b, w) else by_status o.status o b w

-- `pinfo` and `fill_size` of `audio_decode_loop`: `outlen` bytes of `outptr` from `fill_size` on are
-- still to be written.
pub record Refill : Type 0 where
  pub outptr : List ℕ
  pub fill_size : ℕ
  pub outlen : ℕ

unfoldable pub filled : Refill → ℕ × Buffer → Refill × Buffer
filled d (ret, b) = (record d { fill_size = d.fill_size + ret; outlen = d.outlen - ret }, b)

-- A round at the label REFILL_BUFFER; `is_known` says whether channels and rate are positive.
unfoldable pub refill_round :
    {W : Type 0} → Device W → Bool → Refill → Buffer → W → Option (Refill × Buffer)
refill_round device is_known d b w = do
  space ← buf_space b
  if is_known && (device.too_late (buf_level b) w || ltb space d.outlen)
      then some (d, b)
      else do r ← buf_put b (take d.outlen (drop d.fill_size d.outptr)); some (filled d r)
