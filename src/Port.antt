-- ===== src/Port.antt =====
-- dtport/dtport.c: the three packet queues between the demuxer and the decoders. Their nodes are on
-- one heap. `has_audio` and the like are flags that the code only tests against 0.
pub mod Inv
pub mod Write
pub mod Stop
pub mod Start
pub mod Tests
use dtplayer_c.Base.{
  ℕ, zero, suc, ◌*◌, Bool, true, false, not, ◌&&◌, ◌||◌, Option, none, some, List, [], ltb,
  if◌then◌else◌, ◌>>=◌, ◌>>◌, ℤ, pos, negsuc, ◌++◌,
}
use dtplayer_c.Heap.{Heap, Ptr}
use dtplayer_c.Media.{MediaType, unknown, video, audio, raw_data, subtitle, attachment, Packet}
use dtplayer_c.PacketQueue.{
  Queue, Limits, packet_queue_init, packet_queue_put, packet_queue_get, packet_queue_release,
}

-- `dtport_para_t`
pub record Para : Type 0 where
  pub has_video : Bool
  pub has_audio : Bool
  pub has_subtitle : Bool

-- `dtport_context_t`. The fields `dps_*`, `status` and `parent` are never read.
pub record Port : Type 0 where
  pub queue_audio : Queue
  pub queue_video : Queue
  pub queue_subtitle : Queue
  pub param : Para

-- The fields of `dtp_setting` that the port reads and completes.
pub record Setting : Type 0 where
  pub audio_max_num : ℤ
  pub audio_max_size : ℤ
  pub video_max_num : ℤ
  pub video_max_size : ℤ

-- Which queue: what the code keeps in the pointer `queue`.
pub data Slot : Type 0 where
  audio_slot video_slot subtitle_slot : Slot

unfoldable pub queue_of : Port → Slot → Queue
queue_of c audio_slot = c.queue_audio
queue_of c video_slot = c.queue_video
queue_of c subtitle_slot = c.queue_subtitle

unfoldable pub set_queue : Port → Slot → Queue → Port
set_queue c audio_slot q = record c { queue_audio = q }
set_queue c video_slot q = record c { queue_video = q }
set_queue c subtitle_slot q = record c { queue_subtitle = q }

-- The `switch` on the type that `port_write_frame`, `port_read_frame` and `port_get_state` share.
unfoldable pub slot_of : MediaType → Option Slot
slot_of audio = some audio_slot
slot_of video = some video_slot
slot_of subtitle = some subtitle_slot
slot_of _ = none

-- A limit, where a count or a size at least 0 is compared with it.
unfoldable pub limit : ℤ → ℕ
limit (pos n) = n
limit (negsuc n) = 0

unfoldable pub limits : Setting → Limits
limits s = record {
  video_max_size = limit s.video_max_size;
  audio_max_size = limit s.audio_max_size;
}

-- `if (setting <= 0) setting = fallback;`
unfoldable pub default_to : ℤ → ℕ → ℤ
default_to (pos (suc n)) fallback = pos (suc n)
default_to _ fallback = pos fallback

abbrev pub queue_max_pack_num : ℕ
queue_max_pack_num = 8

abbrev pub queue_max_abuf_size : ℕ
queue_max_abuf_size = 20 * 1024 * 1024

abbrev pub queue_max_vbuf_size : ℕ
queue_max_vbuf_size = 50 * 1024 * 1024

unfoldable pub complete_setting : Setting → Setting
complete_setting s = record {
  audio_max_num = default_to s.audio_max_num queue_max_pack_num;
  audio_max_size = default_to s.audio_max_size queue_max_abuf_size;
  video_max_num = default_to s.video_max_num queue_max_pack_num;
  video_max_size = default_to s.video_max_size queue_max_vbuf_size;
}

unfoldable pub init_if : Bool → Queue → Queue
init_if b q = if b then (packet_queue_init q).1 else q

-- `packet_queue_init` fails only for a NULL queue, so the path ERR0 is never taken.
unfoldable pub port_init : Port → Para → Setting → ℤ × Port × Setting
port_init c para s =
    if not para.has_audio && not para.has_video then (negsuc 0, record c { param = para }, s) else (
      pos 0,
      record {
        queue_audio = init_if para.has_audio c.queue_audio;
        queue_video = init_if para.has_video c.queue_video;
        queue_subtitle = init_if para.has_subtitle c.queue_subtitle;
        param = para;
      },
      complete_setting s,
    )

unfoldable pub release_if : Bool → Queue → Heap Packet → Option (List Packet × Queue × Heap Packet)
release_if false q h = some ([], q, h)
release_if true q h = do (_, freed, q', h') ← packet_queue_release q h; some (freed, q', h')

-- The list holds the packets that were freed, in order.
unfoldable pub port_stop : Port → Heap Packet → Option (ℤ × List Packet × Port × Heap Packet)
port_stop c h = do
  (audios, qa, h1) ← release_if c.param.has_audio c.queue_audio h
  (videos, qv, h2) ← release_if c.param.has_video c.queue_video h1
  (subtitles, qs, h3) ← release_if c.param.has_subtitle c.queue_subtitle h2
  some (
    pos 0,
    audios ++ (videos ++ subtitles),
    record c { queue_audio = qa; queue_video = qv; queue_subtitle = qs },
    h3,
  )

unfoldable pub audio_write_enable : Setting → Port → Bool
audio_write_enable s c = c.param.has_audio && ltb c.queue_audio.nb_packets (limit s.audio_max_num)

-- The source compares the number of packets with the limit for bytes.
unfoldable pub video_write_enable : Setting → Port → Bool
video_write_enable s c = c.param.has_video && ltb c.queue_video.nb_packets (limit s.video_max_size)

module _ (malloc : Heap Packet → Ptr) where
  unfoldable pub write_slot :
      Setting → Port → Slot → Packet → Heap Packet → Option (ℤ × Port × Heap Packet)
  write_slot s c t frame h = do
    (ret, q, h') ← packet_queue_put malloc (limits s) (queue_of c t) frame h
    some (ret, set_queue c t q, h')

  -- `type` is the caller's, beside the type that the packet carries.
  unfoldable pub port_write_frame :
      Setting → Port → Packet → MediaType → Heap Packet → Option (ℤ × Port × Heap Packet)
  port_write_frame s c frame type h =
      if not (audio_write_enable s c) && not (video_write_enable s c)
      then some (negsuc 0, c, h)
      else elim (slot_of type) [ none ↦ some (negsuc 0, c, h) | some t ↦ write_slot s c t frame h ]

unfoldable pub port_read_frame :
    Port → MediaType → Heap Packet → Option (ℤ × Option Packet × Port × Heap Packet)
port_read_frame c type h = elim (slot_of type) [
  | none ↦ some (negsuc 0, none, c, h)
  | some t ↦ do
    (ret, frame, q, h') ← packet_queue_get (queue_of c t) h
    some (ret, frame, set_queue c t q, h')
]

-- `buf_state_t`: bytes, then packets; `none` where it is left unset.
unfoldable pub port_get_state : Port → MediaType → ℤ × Option (ℕ × ℕ)
port_get_state c type = elim (slot_of type) [
  | none ↦ (negsuc 0, none)
  | some t ↦ (pos 0, some ((queue_of c t).size, (queue_of c t).nb_packets))
]
