-- ===== src/Aac/Seek.antt =====
-- `demuxer_aac_seek_frame` goes to a frame by its number.
use dtplayer_c.Base.{ℕ, ◌*◌, ◌/◌, ◌<◌, ◌≡◌, List, [], ◌∷◌, pos}
use dtplayer_c.Aac.{Input, Float, Aac}
use dtplayer_c.Aac.Frames.{AdtsFrame}
use dtplayer_c.Aac.Sync.{IsFile}

-- The rates are in the table, and each frame has one block as the code counts them.
abbrev pub AllSingle : List AdtsFrame → Type 0
AllSingle [] = Unit {0}
AllSingle (f ∷ fs) = (f.header.sampling_frequency_index < 12) × (f.header.blocks < 2) × AllSingle fs

module _ {T W : Type 0} {input : Input W} (float : Float T) {file : List ℕ} {at : W → ℕ}
    (v : IsFile input file at) where
  -- The number that `float` gives for time / 1000000 * samplerate / 1024, cut to an integer, is the whole
  -- number of frames before the time, in microseconds, which it is where the arithmetic does not round.
  abbrev pub IsExact : ℕ → ℕ → Type 0
  IsExact time samplerate =
      float.to_int (
        float.divide
          (float.times (float.divide (float.of_int (pos time)) (float.of_int (pos 1000000)))
            (float.of_int (pos samplerate)))
          (float.of_int (pos 1024)))
      ≡ pos (time * samplerate / 1024000000)
