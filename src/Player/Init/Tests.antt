-- ===== src/Player/Init/Tests.antt =====
-- The choices at a file with two audio tracks and a video track.
use dtplayer_c.Base.{true, false, pos, negsuc}
use dtplayer_c.Player.Init.{TrackPara, TrackSetting, TrackInfo, InitPara, InitSetting, InitMedia}

abbrev track : TrackInfo
track = record { has_track = true; track_num = pos 2; cur_index = pos 0; disabled = false }

abbrev no_setting : TrackSetting
no_setting = record { no_track = false; setting_index = negsuc 0 }

abbrev second : TrackPara
second = record { disable = true; disable_hw_codec = pos 0; index = pos 1 }

abbrev default_track : TrackPara
default_track = record { disable = false; disable_hw_codec = pos 0; index = negsuc 0 }

abbrev media_info : InitMedia
media_info = record {
  audio_info = track;
  video_info = track;
  sub_info = record track { has_track = false; track_num = pos 0 };
  info_start_time = pos 0;
}

abbrev setting : InitSetting
setting = record {
  audio_setting = no_setting;
  video_setting = no_setting;
  sub_setting = no_setting;
  sync_setting = true;
  pixel_format_setting = pos 0;
}

abbrev para : InitPara
para = record {
  audio = second;
  video = default_track;
  sub = default_track;
  disable_avsync = false;
  video_pixel_format = negsuc 0;
  width = negsuc 0;
  height = negsuc 0;
}
