-- ===== src/Regexp.antt =====
-- What the hub uses of Go's package regexp: patterns without captures, with both anchors or none.
pub mod Deciding
use fab_dns.Base.{
  ℕ, String, Bool, true, false, ◌&&◌, ◌||◌, List, [], ◌∷◌, ◌++◌, ◌≡◌, ◌⊎◌, leb, if◌then◌else◌,
}
use Prim.Native.Char.{code}
use Prim.Native.String

-- The code points of a text.
abbrev pub codes : String → List ℕ
codes String.[] = []
codes (String.◌∷◌ c s) = code c ∷ codes s

-- A class is a list of ranges.
abbrev pub Ranges : Type 0
Ranges = List (ℕ × ℕ)

abbrev pub in_ranges : Ranges → ℕ → Bool
in_ranges [] c = false
in_ranges ((lo, hi) ∷ ranges) c = (leb lo c && leb c hi) || in_ranges ranges c

pub data Regex : Type 0 where
  fail : Regex
  eps : Regex
  class : Ranges → Regex
  seq : Regex → Regex → Regex
  alt : Regex → Regex → Regex
  star : Regex → Regex

-- `r?` and `r+`
abbrev pub opt : Regex → Regex
opt r = alt r eps

abbrev pub plus : Regex → Regex
plus r = seq r (star r)

-- The texts that a pattern describes.
pub data Matches : Regex → List ℕ → Type 0 where
  m_eps : Matches eps []
  m_class : {ranges : Ranges} {c : ℕ} → in_ranges ranges c ≡ true → Matches (class ranges) (c ∷ [])
  m_seq :
      {r q : Regex} {u : List ℕ} (s t : List ℕ)
      → Matches r s
      → Matches q t
      → u ≡ s ++ t
      → Matches (seq r q) u
  m_left : {r q : Regex} {s : List ℕ} → Matches r s → Matches (alt r q) s
  m_right : {r q : Regex} {s : List ℕ} → Matches q s → Matches (alt r q) s
  m_none : {r : Regex} → Matches (star r) []
  m_more :
      {r : Regex} {u : List ℕ} (c : ℕ) (s t : List ℕ)
      → Matches r (c ∷ s)
      → Matches (star r) t
      → u ≡ c ∷ (s ++ t)
      → Matches (star r) u

pub nullable : Regex → Bool
nullable fail = false
nullable eps = true
nullable (class ranges) = false
nullable (seq r q) = nullable r && nullable q
nullable (alt r q) = nullable r || nullable q
nullable (star r) = true

-- What is left of a pattern after a character.
pub deriv : ℕ → Regex → Regex
unfolding nullable
deriv c fail = fail
deriv c eps = fail
deriv c (class ranges) = if in_ranges ranges c then eps else fail
deriv c (seq r q) =
    let d = deriv c r in let e = deriv c q in alt (seq d q) (if nullable r then e else fail)
deriv c (alt r q) = alt (deriv c r) (deriv c q)
deriv c (star r) = seq (deriv c r) (star r)

-- Whether a whole text is described, as under `^` and `$`.
unfoldable pub accepts : Regex → List ℕ → Bool
unfolding nullable deriv
accepts r [] = nullable r
accepts r (c ∷ s) = accepts (deriv c r) s

-- Whether some prefix of a text is described, and whether some part of it is.
pub accepts_prefix : Regex → List ℕ → Bool
unfolding nullable deriv
accepts_prefix r [] = nullable r
accepts_prefix r (c ∷ s) = nullable r || accepts_prefix (deriv c r) s

unfoldable pub accepts_part : Regex → List ℕ → Bool
unfolding accepts_prefix
accepts_part r [] = accepts_prefix r []
accepts_part r (c ∷ s) = accepts_prefix r (c ∷ s) || accepts_part r s

-- `MatchString` of a pattern with both anchors, and of one with none.
unfoldable pub match_whole : Regex → String → Bool
unfolding accepts
match_whole r s = accepts r (codes s)

unfoldable pub match_part : Regex → String → Bool
unfolding accepts_part
match_part r s = accepts_part r (codes s)
