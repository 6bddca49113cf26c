-- ===== src/Demuxer.antt =====
-- dtdemux/dtdemuxer.c: the list of the demuxers and the choice of one for a file.
pub mod Choice
mod Tests
use dtplayer_c.Base.{
  ℕ, Bool, true, false, Option, none, some, List, [], ◌∷◌, ◌++◌, ◌==◌, if◌then◌else◌, ◌>>=◌,
}

-- `demuxer_wrapper_t`, as far as the choice uses it: `probe` gets the bytes of the probe buffer, and may
-- fault.
pub record Wrapper : Type 0 where
  pub id : ℕ
  pub probe : List ℕ → Option ℕ

-- `g_demuxer`, in the order of the links.
abbrev pub Registered : Type 0
Registered = List Wrapper

-- A wrapper goes behind the last one.
unfoldable pub register_demuxer : Wrapper → Registered → Registered
register_demuxer w [] = w ∷ []
register_demuxer w (p ∷ rest) = p ∷ register_demuxer w rest

-- `demuxer_register_all`, where the wrappers that are built in are the arguments.
unfoldable pub demuxer_register_all : Option Wrapper → Option Wrapper → Option Wrapper → Registered
demuxer_register_all aac ts ffmpeg =
    let add : Option Wrapper → Registered → Registered =
      λ w ws. elim w [ none ↦ ws | some p ↦ register_demuxer p ws ] in
    add ffmpeg (add ts (add aac []))

-- The loop of `demuxer_select`; the inner `none` is -1, where no demuxer takes the file.
unfoldable pub demuxer_select : List ℕ → Registered → Option (Option Wrapper)
demuxer_select bs [] = some none
demuxer_select bs (entry ∷ rest) = entry.probe bs >>= λ score.
    let next = demuxer_select bs rest in if score == 1 then some (some entry) else next
