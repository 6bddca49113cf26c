-- ===== src/Player/Network.antt =====
-- Which files `player_buffering_check` of dtplayer/dtplayer.c takes for network streams. A text is the
-- list of its characters, without the NUL.
use dtplayer_c.Base.{
  ℕ, Bool, true, false, ◌≡◌, refl, sym, ◌∙◌, ap, inl, inr, Bool-cases, Option, none, some, List, [],
  ◌∷◌, ◌++◌, arith, ◌==◌, if◌then◌else◌, ==_refl,
}

-- `dt_strstart`: what follows the prefix, where the text begins with it.
unfoldable pub dt_strstart : List ℕ → List ℕ → Option (List ℕ)
dt_strstart str [] = some str
dt_strstart [] (p ∷ pfx) = none
dt_strstart (c ∷ str) (p ∷ pfx) = let rest = dt_strstart str pfx in if p == c then rest else none

unfoldable pub or_else : Option (List ℕ) → Bool × List ℕ → Bool × List ℕ
or_else (some rest) later = (true, rest)
or_else none later = later

-- `dt_strstart(url, p, &url) != 0 || …` for one prefix after the other: whether one fits, and what
-- `url` is then.
unfoldable pub starts_with_any : List ℕ → List (List ℕ) → Bool × List ℕ
starts_with_any url [] = (false, url)
starts_with_any url (p ∷ ps) = or_else (dt_strstart url p) (starts_with_any url ps)

abbrev pub udp : List ℕ
udp = b'u' ∷ b'd' ∷ b'p' ∷ b':' ∷ b'/' ∷ b'/' ∷ []

abbrev pub rtp : List ℕ
rtp = b'r' ∷ b't' ∷ b'p' ∷ b':' ∷ b'/' ∷ b'/' ∷ []

abbrev pub rtmp : List ℕ
rtmp = b'r' ∷ b't' ∷ b'm' ∷ b'p' ∷ b':' ∷ b'/' ∷ b'/' ∷ []

abbrev pub rtsp : List ℕ
rtsp = b'r' ∷ b't' ∷ b's' ∷ b'p' ∷ b':' ∷ b'/' ∷ b'/' ∷ []

abbrev pub http : List ℕ
http = b'h' ∷ b't' ∷ b't' ∷ b'p' ∷ b':' ∷ b'/' ∷ b'/' ∷ []

abbrev pub https : List ℕ
https = b'h' ∷ b't' ∷ b't' ∷ b'p' ∷ b's' ∷ b':' ∷ b'/' ∷ b'/' ∷ []

-- `live_playback`, which moves `url`, and then `network_playback`.
unfoldable pub network_playback : List ℕ → Bool
network_playback url =
    let live = starts_with_any url (udp ∷ rtp ∷ rtmp ∷ []) in
    (starts_with_any live.1 (udp ∷ rtp ∷ http ∷ https ∷ rtsp ∷ rtmp ∷ [])).0

pub dt_strstart-append : (pfx rest : List ℕ) → dt_strstart (pfx ++ rest) pfx ≡ some rest
unfolding dt_strstart
dt_strstart-append [] [] = refl
dt_strstart-append [] (c ∷ rest) = refl
dt_strstart-append (p ∷ pfx) rest = rw (==_refl p) (dt_strstart-append pfx rest)

same_first :
    (p c : ℕ) (r : Option (List ℕ)) (rest : List ℕ)
    → (if p == c then r else none) ≡ some rest
    → (p ≡ c) × (r ≡ some rest)
same_first p c r rest e = elim (Bool-cases (p == c)) [
  | inl f ↦ (ground arith, rw f at e)
  | inr f ↦ absurd (cc (rw f at e))
]

-- Where `dt_strstart` succeeds, the text is the prefix with what it returns behind it.
pub dt_strstart-some : (str pfx rest : List ℕ) → dt_strstart str pfx ≡ some rest → str ≡ pfx ++ rest
unfolding dt_strstart
dt_strstart-some [] [] rest e = cc e
dt_strstart-some (c ∷ str) [] rest e = cc e
dt_strstart-some [] (p ∷ pfx) rest e = absurd (cc e)
dt_strstart-some (c ∷ str) (p ∷ pfx) rest e =
    let (same, more) = same_first p c (dt_strstart str pfx) rest e in
    ap (λ (x : ℕ). x ∷ str) (sym same) ∙ ap (◌∷◌ p) (dt_strstart-some str pfx rest more)

-- A name that begins with a character that no prefix begins with.
module _ (c : ℕ) (host : List ℕ) (u : (b'u' == c) ≡ false) (r : (b'r' == c) ≡ false)
    (h : (b'h' == c) ≡ false) where
  no_prefix : (starts_with_any (c ∷ host) (udp ∷ rtp ∷ http ∷ https ∷ rtsp ∷ rtmp ∷ [])).0 ≡ false
  unfolding starts_with_any or_else dt_strstart
  no_prefix = rw (u, r, h) refl

  -- A host whose name begins with a character other than u, r and h is not taken for a network
  -- stream behind udp://, rtp:// or rtmp://, since the test for a live stream has moved past the prefix
  -- by then. Behind http:// it is.
  pub network_playback-live :
      (network_playback (udp ++ (c ∷ host)) ≡ false)
      × (network_playback (rtp ++ (c ∷ host)) ≡ false)
      × (network_playback (rtmp ++ (c ∷ host)) ≡ false)
      × (network_playback (http ++ (c ∷ host)) ≡ true)
  unfolding network_playback starts_with_any or_else dt_strstart
  network_playback-live = (no_prefix, no_prefix, no_prefix, refl)
