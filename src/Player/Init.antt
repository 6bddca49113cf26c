-- ===== src/Player/Init.antt =====
-- `player_init` of dtplayer/dtplayer.c, from the media information on, and `dtplayer_seekto` of
-- dtplayer/dtplayer_api.c.
pub mod Choice
mod Tests
use dtplayer_c.Base.{
  ℕ, ◌≤◌, ◌<◌, ◌≡◌, ◌≢◌, ◌⊎◌, refl, sym, ◌∙◌, ap, inl, inr, Bool, true, false, ◌&&◌, ◌||◌, not,
  Option, none, some, arith, Bool-cases, if◌then◌else◌, ℤ, pos, negsuc, ltb_ℤ, eqb_ℤ, int32,
  int32_pos, ◌≤ℤ◌, ltb,
}
use dtplayer_c.Player.{
  PlayerStatus, init_enter, init_exit, rank, below, State, PlayerEvent, seek_event,
}

-- One track of `dtplayer_para_t`: whether it is switched off, and the index asked for, -1 for none.
pub record TrackPara : Type 0 where
  pub disable : Bool
  pub disable_hw_codec : ℤ
  pub index : ℤ

-- One track of the settings file, with `player_noaudio` and its like as `no_track`.
pub record TrackSetting : Type 0 where
  pub no_track : Bool
  pub setting_index : ℤ

-- One track of `dtp_media_info_t`: `has_audio`, `ast_num`, `cur_ast_index`, `disable_audio`.
pub record TrackInfo : Type 0 where
  pub has_track : Bool
  pub track_num : ℤ
  pub cur_index : ℤ
  pub disabled : Bool

pub record InitPara : Type 0 where
  pub audio : TrackPara
  pub video : TrackPara
  pub sub : TrackPara
  pub disable_avsync : Bool
  pub video_pixel_format : ℤ
  pub width : ℤ
  pub height : ℤ

pub record InitSetting : Type 0 where
  pub audio_setting : TrackSetting
  pub video_setting : TrackSetting
  pub sub_setting : TrackSetting
  pub sync_setting : Bool
  pub pixel_format_setting : ℤ

pub record InitMedia : Type 0 where
  pub audio_info : TrackInfo
  pub video_info : TrackInfo
  pub sub_info : TrackInfo
  pub info_start_time : ℤ

-- `player_ctrl_t` as `player_init` sets it.
pub record InitCtrl : Type 0 where
  pub has_audio : Bool
  pub has_video : Bool
  pub has_sub : Bool
  pub sync_enable : Bool
  pub disable_hw_acodec : ℤ
  pub disable_hw_vcodec : ℤ
  pub disable_hw_scodec : ℤ
  pub pixel_format : ℤ
  pub start_time : ℤ
  pub first_time : ℤ
  pub ctrl_width : ℤ
  pub ctrl_height : ℤ

-- Whether a track is used: the file has it, and neither the settings nor the parameters forbid it.
unfoldable pub has_of : TrackInfo → TrackSetting → TrackPara → Bool
has_of i s p = if p.disable then false else if s.no_track then false else i.has_track

-- The index of a track: the parameter's, else the setting's, else 0; 0 if it is past the last one.
unfoldable pub chosen_index : TrackSetting → TrackPara → ℤ
chosen_index s p =
    if eqb_ℤ p.index (negsuc 0)
    then (if eqb_ℤ s.setting_index (negsuc 0) then pos 0 else s.setting_index)
    else p.index

unfoldable pub index_of : TrackInfo → TrackSetting → TrackPara → ℤ
index_of i s p = if ltb_ℤ (chosen_index s p) i.track_num then chosen_index s p else pos 0

-- `sync_enable`, from what the file has.
unfoldable pub sync_of : InitMedia → InitSetting → InitPara → Bool
sync_of m s p =
    if p.disable_avsync
    then false
    else if m.audio_info.has_track && m.video_info.has_track
    then s.sync_setting
    else false

unfoldable pub ctrl_of : InitMedia → InitSetting → InitPara → InitCtrl
ctrl_of m s p = record {
  has_audio = has_of m.audio_info s.audio_setting p.audio;
  has_video = has_of m.video_info s.video_setting p.video;
  has_sub = has_of m.sub_info s.sub_setting p.sub;
  sync_enable = sync_of m s p;
  disable_hw_acodec = p.audio.disable_hw_codec;
  disable_hw_vcodec = p.video.disable_hw_codec;
  disable_hw_scodec = p.sub.disable_hw_codec;
  pixel_format =
      if eqb_ℤ p.video_pixel_format (negsuc 0)
      then s.pixel_format_setting
      else p.video_pixel_format;
  start_time = m.info_start_time;
  first_time = negsuc 0;
  ctrl_width = p.width;
  ctrl_height = p.height;
}

-- The track's index, and at the end its `disable` mark.
unfoldable pub set_index : TrackSetting → TrackPara → TrackInfo → TrackInfo
set_index s p i = record i { cur_index = index_of i s p }

unfoldable pub set_disabled : Bool → TrackInfo → TrackInfo
set_disabled has i = record i { disabled = not has }

unfoldable pub media_indexed : InitSetting → InitPara → InitMedia → InitMedia
media_indexed s p m = record m {
  audio_info = set_index s.audio_setting p.audio m.audio_info;
  video_info = set_index s.video_setting p.video m.video_info;
  sub_info = set_index s.sub_setting p.sub m.sub_info;
}

unfoldable pub media_marked : InitCtrl → InitMedia → InitMedia
media_marked c m = record m {
  audio_info = set_disabled c.has_audio m.audio_info;
  video_info = set_disabled c.has_video m.video_info;
  sub_info = set_disabled c.has_sub m.sub_info;
}

-- The return code, the two statuses set (the last one last), and the control and media information.
pub record Inited : Type 0 where
  pub ret : ℤ
  pub status : PlayerStatus
  pub ctrl : Option InitCtrl
  pub media : Option InitMedia

-- `opened` is what `dtdemuxer_open` returns, with the media information of the file.
unfoldable pub player_init : PlayerStatus → ℤ → InitMedia → InitSetting → InitPara → Inited
player_init status opened m s p =
    if below status init_enter
    then (if ltb_ℤ opened (pos 0)
        then record { ret = negsuc 0; status = init_enter; ctrl = none; media = none }
        else (let c = ctrl_of m s p in
            if not c.has_audio && not c.has_video
            then record {
              ret = negsuc 0;
              status = init_enter;
              ctrl = some c;
              media = some (media_indexed s p m);
            }
            else record {
              ret = pos 0;
              status = init_exit;
              ctrl = some c;
              media = some (media_marked c (media_indexed s p m));
            }))
    else record { ret = negsuc 0; status = status; ctrl = none; media = none }

-- The event of `dtplayer_seekto`, for a file of `duration` seconds.
unfoldable pub dtplayer_seekto : ℤ → ℤ → PlayerEvent
dtplayer_seekto duration s_time =
    let t = (if ltb_ℤ s_time (pos 0) then pos 0 else s_time) in
    seek_event (if ltb_ℤ (int32 duration) t then int32 duration else t)
