-- ===== src/Player/Seek.antt =====
-- `player_seekto`: where a seek takes the player, and what a seek that the demuxer refuses does.
use dtplayer_c.Base.{◌≡◌, none, some, ℤ}
use dtplayer_c.Player.{Parts}

-- A host that has been stopped is freed: it stays so through a seek of the demuxer, and to resume it
-- faults.
pub record FreesHost {W : Type 0} (parts : Parts W) (Freed : W → Type 0) : Type 0 where
  pub stop_frees : (w : W) (ret : ℤ) (w' : W) → parts.host_stop w ≡ some (ret, w') → Freed w'
  pub seek_keeps : (t : ℤ) (w : W) → Freed w → Freed (parts.demuxer_seekto t w).1
  pub resume_faults : (w : W) → Freed w → parts.host_resume w ≡ none
