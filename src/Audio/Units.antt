-- ===== src/Audio/Units.antt =====
-- How much is read at a time.
use dtplayer_c.Base.{ℕ, ◌≤◌, ◌≡◌, refl, true, none, leb, arith}
use dtplayer_c.Audio.{unit_size_of}

-- The sizes that are taken where none are set, 2 for the width in bits and 2 channels, give samples of 0
-- bytes, and the remainder by 0 faults.
pub unit_size_of-faults :
    (data_width channels rate : ℕ)
    → data_width ≤ 2
    → channels ≤ 2
    → unit_size_of data_width channels rate ≡ none
unfolding unit_size_of
unit_size_of-faults data_width channels rate d c =
    let two : leb data_width 2 ≡ true = ground arith in
    let pair : leb channels 2 ≡ true = ground arith in rw (two, pair) refl
