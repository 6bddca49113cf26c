-- ===== src/Demuxer/Tests.antt =====
-- The choice of a demuxer for a file of three frames.
use dtplayer_c.Base.{◌≡◌, refl, none, some, [], ◌∷◌, arith}
use dtplayer_c.Aac.{demuxer_aac_probe}
use dtplayer_c.Aac.Frames.{frames_on}
use dtplayer_c.Aac.Tests.{one, two}
use dtplayer_c.Demuxer.{Wrapper, demuxer_register_all, demuxer_select}
use dtplayer_c.Demuxer.Choice.{demuxer_select-aac}

abbrev aac : Wrapper
aac = record { id = 0; probe = demuxer_aac_probe }

-- One that takes every file.
abbrev takes_all : Wrapper
takes_all = record { id = 2; probe = λ bs. some 1 }

demuxer_select-aac_example :
    demuxer_select
      (frames_on (one ∷ two ∷ one ∷ []) [])
      (demuxer_register_all (some aac) none (some takes_all))
    ≡ some (some aac)
demuxer_select-aac_example =
    demuxer_select-aac aac none (some takes_all) (frames_on (one ∷ two ∷ one ∷ []) []) one two one
      [] [] refl (omega arith) refl
