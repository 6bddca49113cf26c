-- ===== src/Demuxer/Choice.antt =====
-- Which demuxer is chosen.
use dtplayer_c.Base.{
  ℕ, ◌≡◌, ◌≢◌, refl, ap, ◌∙◌, false, Option, none, some, List, [], ◌∷◌, ◌++◌, ◌==◌, arith,
}
use dtplayer_c.Aac.{demuxer_aac_probe}
use dtplayer_c.Aac.Frames.{AdtsFrame, AllFrames, frames_on}
use dtplayer_c.Aac.Accept.{demuxer_aac_probe-accepts}
use dtplayer_c.Demuxer.{Wrapper, Registered, register_demuxer, demuxer_register_all, demuxer_select}

-- Each of the demuxers answers something other than 1.
abbrev pub AllRefuse : List ℕ → Registered → Type 0
AllRefuse bs [] = Unit {0}
AllRefuse bs (w ∷ ws) = ((score : ℕ) × (w.probe bs ≡ some score) × (score ≢ 1)) × AllRefuse bs ws

select_past :
    (bs : List ℕ) (w : Wrapper) (ws : Registered) (score : ℕ)
    → w.probe bs ≡ some score
    → score ≢ 1
    → demuxer_select bs (w ∷ ws) ≡ demuxer_select bs ws
unfolding demuxer_select
select_past bs w ws score e ne =
    let other : (score == 1) ≡ false = ground arith in rw (e, other) refl

select_here :
    (bs : List ℕ) (w : Wrapper) (ws : Registered)
    → w.probe bs ≡ some 1
    → demuxer_select bs (w ∷ ws) ≡ some (some w)
unfolding demuxer_select
select_here bs w ws e = rw e refl

-- A demuxer that is registered behind others is chosen where it takes the file and they do not.
pub demuxer_select-register :
    (bs : List ℕ) (w : Wrapper) (ws : Registered)
    → AllRefuse bs ws
    → w.probe bs ≡ some 1
    → demuxer_select bs (register_demuxer w ws) ≡ some (some w)
unfolding register_demuxer
demuxer_select-register bs w [] none_takes e = select_here bs w [] e
demuxer_select-register bs w (p ∷ ws) ((score, answer, ne), refuse) e =
    select_past bs p (register_demuxer w ws) score answer ne
    ∙ demuxer_select-register bs w ws refuse e

-- One that is registered later does not change a choice that is made already.
pub demuxer_select-earlier :
    (bs : List ℕ) (w p : Wrapper) (front back : Registered)
    → AllRefuse bs front
    → p.probe bs ≡ some 1
    → demuxer_select bs (register_demuxer w (front ++ (p ∷ back))) ≡ some (some p)
unfolding register_demuxer
demuxer_select-earlier bs w p [] back tt e = select_here bs p (register_demuxer w back) e
demuxer_select-earlier bs w p (f ∷ front) back ((score, answer, ne), refuse) e =
    select_past bs f (register_demuxer w (front ++ (p ∷ back))) score answer ne
    ∙ demuxer_select-earlier bs w p front back refuse e

first_choice :
    (w : Wrapper) (ts ffmpeg : Option Wrapper) (bs : List ℕ)
    → w.probe bs ≡ some 1
    → demuxer_select bs (demuxer_register_all (some w) ts ffmpeg) ≡ some (some w)
unfolding demuxer_register_all register_demuxer
first_choice w none none bs e = select_here bs w [] e
first_choice w (some ts) none bs e = select_here bs w (ts ∷ []) e
first_choice w none (some ffmpeg) bs e = select_here bs w (ffmpeg ∷ []) e
first_choice w (some ts) (some ffmpeg) bs e = select_here bs w (ts ∷ ffmpeg ∷ []) e

-- A file that begins with three frames of AAC goes to the AAC demuxer, whatever the demuxers behind it
-- would answer.
pub demuxer_select-aac :
    (aac : Wrapper) (ts ffmpeg : Option Wrapper) (bs : List ℕ) (f g h : AdtsFrame)
    (fs : List AdtsFrame) (rest : List ℕ)
    → aac.probe ≡ demuxer_aac_probe
    → AllFrames (f ∷ g ∷ h ∷ fs)
    → bs ≡ frames_on (f ∷ g ∷ h ∷ fs) rest
    → demuxer_select bs (demuxer_register_all (some aac) ts ffmpeg) ≡ some (some aac)
demuxer_select-aac aac ts ffmpeg bs f g h fs rest is_aac v e =
    let takes : aac.probe bs ≡ some 1 =
      ap (λ (p : List ℕ → Option ℕ). p bs) is_aac
      ∙ demuxer_aac_probe-accepts bs f g h fs rest v e in
    first_choice aac ts ffmpeg bs takes
