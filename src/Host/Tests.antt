-- ===== src/Host/Tests.antt =====
-- Runs of dthost/dthost.c and dthost/dthost_api.c with outputs that log the calls they get, and
-- their theorems at them.
use dtplayer_c.Base.{
  ◌≡◌, refl, true, false, none, some, List, [], ◌∷◌, ℤ, pos, ◌-ℤ◌, sub_64, int64, wrap, llabs, quot,
  Option, ◌⊎◌,
}
use dtplayer_c.PacketQueue.Tests.{one_packet}
use dtplayer_c.Port.Tests.{one_video, setting}
use dtplayer_c.Host.{Host, Para, Outputs, Env, DecState, Event}
use dtplayer_c.Host.Clock.{is_invalid, avdiff_of, store_apts, host_update_apts, host_update_vpts}
use dtplayer_c.Host.Clock.Sync.{
  FollowsAudio, host_update_apts-FollowsAudio, host_update-modes_agree,
}
use dtplayer_c.Host.Control.{is_negative}
use dtplayer_c.Host.State.{HostState}
use dtplayer_c.Host.Api.{
  fresh_host, dthost_set_info, dthost_get_info, set_apts, get_apts, number, dthost_init,
  dthost_stop,
}
use dtplayer_c.Host.Api.Life.{dthost_init-stop}
use dtplayer_c.Host.Api.Info.{audio_now, dthost_set_info-get_info}

pub data Call : Type 0 where
  init_a start_a pause_a resume_a stop_a : Call
  init_v start_v pause_v resume_v stop_v resize_v : Call
  init_s start_s stop_s : Call
  notified : Event → Call

abbrev pub log : Call → List Call → ℤ × List Call
log call w = (pos 0, call ∷ w)

abbrev pub idle : DecState
idle = record { error_count = pos 0; last_ms = pos 0; dec_type = pos 0 }

-- Every call succeeds but the init of the audio output, which returns `ret`.
abbrev pub outputs : ℤ → Outputs (List Call)
outputs ret = record {
  audio_init = λ p w. (ret, true, init_a ∷ w);
  audio_start = log start_a;
  audio_pause = log pause_a;
  audio_resume = log resume_a;
  audio_stop = log stop_a;
  audio_out_closed = λ w. false;
  audio_state = λ w. idle;
  video_init = λ p w. (pos 0, true, init_v ∷ w);
  video_start = log start_v;
  video_pause = log pause_v;
  video_resume = log resume_v;
  video_stop = log stop_v;
  video_resize = λ x y w. log resize_v w;
  video_out_closed = λ w. false;
  video_state = λ w. idle;
  sub_init = λ p w. log init_s w;
  sub_start = log start_s;
  sub_stop = log stop_s;
  notify = λ e w. notified e ∷ w;
}

abbrev pub both : Para
both = record {
  has_audio = true;
  has_video = true;
  has_sub = false;
  sync_enable = true;
  video_dest_width = pos 640;
  video_dest_height = pos 480;
}

-- A clock set to 9000 at microsecond 500, with audio 2 seconds ahead of it.
abbrev pub playing : Host
playing = record (fresh_host both) {
  sync_enable = true;
  sys_time_start = pos 9000;
  sys_time_start_time = pos 500;
  sys_time_current = pos 9000;
  pts_audio_current = pos 180000;
  pts_video_current = pos 9000;
  port_priv = some one_video;
}

host_update_apts-FollowsAudio_example :
    FollowsAudio
      (host_update_apts false (pos 600) playing (pos 189000)).1.sys_time_current
      (pos 189000)
unfolding is_invalid avdiff_of store_apts sub_64 int64 wrap llabs quot ◌-ℤ◌
host_update_apts-FollowsAudio_example =
    host_update_apts-FollowsAudio (pos 600) playing (pos 189000) refl refl refl refl

host_update-modes_agree_example :
    (host_update_apts false
      (pos 600)
      (record playing { pts_video_current = pos 900 })
      (pos 999000)).1.sync_mode
    ≡ (host_update_vpts
        (pos 600)
        (record playing { pts_audio_current = pos 999000 })
        (pos 900)).1.sync_mode
unfolding is_invalid
host_update-modes_agree_example =
    host_update-modes_agree (pos 600) playing (pos 999000) (pos 900) refl refl refl

abbrev pub env : Env (List Call)
env = record { outputs = []; heap = one_packet; setting = setting }

abbrev pub blank : HostState
blank = record {
  abuf_level = pos 0;
  vbuf_level = pos 0;
  sbuf_level = pos 0;
  adec_err_cnt = pos 0;
  vdec_err_cnt = pos 0;
  sdec_err_cnt = pos 0;
  sys_time_start = pos 0;
  sys_time_current = pos 0;
  pts_audio_first = pos 0;
  pts_audio_current = pos 0;
  audio_discontinue_flag = false;
  audio_discontinue_point = pos 0;
  adec_last_ms = pos 0;
  pts_video_first = pos 0;
  pts_video_current = pos 0;
  video_discontinue_flag = false;
  video_discontinue_point = pos 0;
  vdec_last_ms = pos 0;
  vdec_type = pos 0;
}

dthost_set_info-get_info_example :
    (c' : Host) × (w' : List Call) × (dthost_set_info
        (outputs (pos 0))
        (pos 600)
        (some playing)
        set_apts
        (pos 189000)
        []
      ≡ some (pos 0, some c', w'))
    × (dthost_get_info (outputs (pos 0)) (some c') get_apts blank w'
        ≡ some (pos 0, some (number (pos 189000)), some c'))
dthost_set_info-get_info_example =
    dthost_set_info-get_info (outputs (pos 0)) (pos 600) playing one_video (pos 189000) blank []
      audio_now refl

dthost_init-stop_example :
    (ret : ℤ) × (host : Option Host) × (e' : Env (List Call)) × (dthost_init
        (outputs (pos 0))
        true
        true
        none
        both
        env
      ≡ some (ret, host, e'))
    × (((is_negative ret ≡ true) × (host ≡ none))
        ⊎ ((ret ≡ pos 0)
            × ((e'' : Env (List Call)) × (dthost_stop (outputs (pos 0)) host e'
                  ≡ some (pos 0, [], e'')))))
dthost_init-stop_example = dthost_init-stop (outputs (pos 0)) true true both env
