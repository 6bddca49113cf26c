-- ===== src/Player/Update.antt =====
-- `player_update_state` of dtplayer/dtplayer_update.c, and `player_dec_reset` of dtplayer/dtplayer.c,
-- which it calls.
use dtplayer_c.Base.{
  ℕ, Bool, true, false, Option, some, if◌then◌else◌, ◌>>=◌, ℤ, pos, negsuc, ltb_ℤ, sub_64,
}
use dtplayer_c.Host.State.{HostState}
use dtplayer_c.Player.{
  init_exit, running, below, State, Parts, Context, get_player_status, call, with_io,
}
use dtplayer_c.Player.Io.{IoLoop, pause_io_thread, resume_io_thread}
use dtplayer_c.Player.Time.{calc_cur_time}

-- `now` is in ms.
unfoldable pub need_reset_decoder : ℤ → ℤ → ℤ → HostState → Bool
need_reset_decoder now livemode live_timeout h =
    if ltb_ℤ (pos 0) h.vdec_last_ms
    then (if ltb_ℤ (pos 0) livemode
        then (if ltb_ℤ (sub_64 now h.vdec_last_ms) live_timeout then false else true)
        else false)
    else false

module _ {W : Type 0} where
  unfoldable pub resume_io : Context W → Context W
  resume_io x = record x { io_loop = resume_io_thread x.io_loop }

  -- `ctrl_wait_key_frame = 1`
  unfoldable pub wait_key_frame : Context W → Context W
  wait_key_frame x =
      let l : IoLoop = x.io_loop in record x { io_loop = record l { ctrl_wait_key_frame = 1 } }

module _ {W : Type 0} (parts : Parts W) where
  unfoldable pub player_dec_reset : ℕ → Context W → Option (ℤ × Context W)
  player_dec_reset fuel x =
      if below (get_player_status x) init_exit then some (negsuc 0, x) else (do
        x1 ← with_io (pause_io_thread parts.ends fuel) x
        x2 ← call parts.host_stop x1
        x3 ← call parts.host_init x2.1
        x4 ← call parts.host_start (resume_io (wait_key_frame x3.1))
        some (pos 0, x4.1))

  -- `calc_cur_time`, with what it sends to the host, and the sizes of what the host has cached.
  unfoldable pub refresh : Context W → HostState → Option (Context W)
  refresh x h = do
    let r = calc_cur_time x.state x.ctrl x.duration h
    w ← (if r.2 then parts.host_clear_discontinue_flag x.world else some x.world)
    let s : State = r.0
    some (record x {
      state = record s {
        acache_size = h.abuf_level;
        vcache_size = h.vbuf_level;
        scache_size = h.sbuf_level;
      };
      ctrl = r.1;
      world = w;
    })

  unfoldable pub player_update_state : ℕ → Context W → Option (Context W)
  player_update_state fuel x =
      if below (get_player_status x) running
      then some x
      else (parts.host_get_state x.world >>= λ h.
          if need_reset_decoder (parts.now_ms x.world) x.livemode x.live_timeout h
          then (player_dec_reset fuel x >>= λ r. some r.1)
          else refresh x h)
