-- ===== src/Media.antt =====
-- The packets that pass from the demuxer through the port to the decoders: `dt_av_pkt_t` of
-- include/dtp_av.h, and its media types. The payload and the decoder's private data are addresses,
-- which the modelled code passes on unread.
use dtplayer_c.Base.{ℕ, ℤ, Bool, true, false}

-- `dtp_media_type_t`, in the enum's order from -1 on.
pub data MediaType : Type 0 where
  unknown video audio raw_data subtitle attachment : MediaType

-- `type == DTP_MEDIA_TYPE_VIDEO` and `type == DTP_MEDIA_TYPE_AUDIO`.
abbrev pub is_video : MediaType → Bool
is_video video = true
is_video _ = false

abbrev pub is_audio : MediaType → Bool
is_audio audio = true
is_audio _ = false

pub record Packet : Type 0 where
  pub payload : ℕ
  pub size : ℕ
  pub pts : ℤ
  pub dts : ℤ
  pub duration : ℤ
  pub key_frame : ℕ
  pub type : MediaType
  pub flags : ℕ
  pub opaque : ℕ
