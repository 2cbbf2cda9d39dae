-- ===== src/Hub/Options/Names.antt =====
-- The two patterns of pkg/service-hub/options.go, and the names that they describe.
use fab_dns.Base.{
  ℕ, String, Bool, true, false, ◌&&◌, or_true, List, [], ◌∷◌, ◌++◌, ◌≡◌, refl, sym, ap, ◌∙◌, subst,
  arith, ◌↔◌, inl, inr, leb, any, All, Bool-cases,
}
use fab_dns.Regexp.{
  Ranges, in_ranges, class, star, Matches, m_eps, m_class, m_seq, m_left, m_right, m_none, m_more,
  codes, match_whole, match_part,
}
use fab_dns.Regexp.Deciding.{accepts_iff, accepts_part_iff, eps_inv, Occurs}
use fab_dns.Hub.Options.{
  lower_alnum, lower_alnum_dash, alnum, label_reg, dotted_reg, dns1123_reg, zone_name_reg,
}

abbrev pub AllIn : Ranges → List ℕ → Type 0
AllIn ranges s = All (λ c. in_ranges ranges c ≡ true) s

abbrev pub starts_in : Ranges → List ℕ → Bool
starts_in ranges [] = false
starts_in ranges (c ∷ s) = in_ranges ranges c

abbrev pub ends_in : Ranges → List ℕ → Bool
ends_in ranges [] = false
ends_in ranges (c ∷ []) = in_ranges ranges c
ends_in ranges (c ∷ d ∷ s) = ends_in ranges (d ∷ s)

-- A label in the form of RFC 1123, of any length: letters, digits and dashes, with a letter or digit
-- at both ends.
abbrev pub IsLabel : List ℕ → Type 0
IsLabel s =
    (starts_in lower_alnum s ≡ true) × (ends_in lower_alnum s ≡ true) × AllIn lower_alnum_dash s

-- Labels, each after a dot.
abbrev pub dotted : List (List ℕ) → List ℕ
dotted [] = []
dotted (label ∷ labels) = b'.' ∷ (label ++ dotted labels)

-- A text of one or more labels between dots.
abbrev pub IsDnsName : List ℕ → Type 0
IsDnsName s =
    (first : List ℕ) × (rest : List (List ℕ)) × (s ≡ first ++ dotted rest)
    × IsLabel first
    × All IsLabel rest

star_class-AllIn : (ranges : Ranges) {s : List ℕ} → Matches (star (class ranges)) s → AllIn ranges s
star_class-AllIn ranges m_none = tt
star_class-AllIn ranges (m_more c s t (m_class h) n split) =
    let k : AllIn ranges (c ∷ t) = (h, star_class-AllIn ranges n) in
    subst (λ (u : List ℕ). AllIn ranges u) (sym split) k

AllIn-star_class : (ranges : Ranges) (s : List ℕ) → AllIn ranges s → Matches (star (class ranges)) s
AllIn-star_class ranges [] h = m_none
AllIn-star_class ranges (c ∷ s) (h, hs) =
    m_more c [] s (m_class h) (AllIn-star_class ranges s hs) refl

dash_of : (c : ℕ) → in_ranges lower_alnum c ≡ true → in_ranges lower_alnum_dash c ≡ true
dash_of c h = rw h (or_true (leb b'-' c && leb c b'-'))

-- A text that ends with a character of the class, and what is before it.
ends_in-append :
    (x : List ℕ) (d : ℕ) → in_ranges lower_alnum d ≡ true → ends_in lower_alnum (x ++ d ∷ []) ≡ true
ends_in-append [] d h = h
ends_in-append (c ∷ []) d h = h
ends_in-append (c ∷ e ∷ x) d h = ends_in-append (e ∷ x) d h

AllIn-append :
    (x : List ℕ) (d : ℕ)
    → AllIn lower_alnum_dash x
    → in_ranges lower_alnum d ≡ true
    → AllIn lower_alnum_dash (x ++ d ∷ [])
AllIn-append [] d h k = (dash_of d k, tt)
AllIn-append (c ∷ x) d (h, hs) k = (h, AllIn-append x d hs k)

before_last :
    (c : ℕ) (s : List ℕ)
    → ends_in lower_alnum (c ∷ s) ≡ true
    → AllIn lower_alnum_dash (c ∷ s)
    → (x : List ℕ) × (d : ℕ) × (c ∷ s ≡ x ++ d ∷ [])
      × (in_ranges lower_alnum d ≡ true)
      × AllIn lower_alnum_dash x
before_last c [] h k = ([], c, refl, h, tt)
before_last c (d ∷ s) h (k, ks) =
    let (x, e, split, last, inner) = before_last d s h ks in
    (c ∷ x, e, ap (λ (l : List ℕ). c ∷ l) split, last, (k, inner))

IsLabel-cons :
    (c d : ℕ) (x : List ℕ)
    → in_ranges lower_alnum c ≡ true
    → in_ranges lower_alnum d ≡ true
    → AllIn lower_alnum_dash x
    → IsLabel (c ∷ (x ++ d ∷ []))
IsLabel-cons c d x h k inner =
    (h, ends_in-append (c ∷ x) d k, (dash_of c h, AllIn-append x d inner k))

Matches-IsLabel : {s : List ℕ} → Matches label_reg s → IsLabel s
Matches-IsLabel (m_seq _ t (m_class {c} h) (m_right m) split) =
    let alone : IsLabel (c ∷ []) = (h, h, (dash_of c h, tt)) in rw (split, eps_inv m) alone
Matches-IsLabel
      (m_seq _ t (m_class {c} h) (m_left (m_seq x _ inner (m_class {c = d} k) tail)) split) =
    rw (split, tail) (IsLabel-cons c d x h k (star_class-AllIn lower_alnum_dash inner))

IsLabel-Matches : (s : List ℕ) → IsLabel s → Matches label_reg s
IsLabel-Matches [] (h, _, _) = cc
IsLabel-Matches (c ∷ []) (h, _, _) = m_seq (c ∷ []) [] (m_class h) (m_right m_eps) refl
IsLabel-Matches (c ∷ d ∷ s) (h, e, (_, inner)) =
    let (x, l, split, last, before) = before_last d s e inner in
    m_seq (c ∷ []) (d ∷ s) (m_class h)
      (m_left (m_seq x (l ∷ []) (AllIn-star_class lower_alnum_dash x before) (m_class last) split))
      refl

is_dot : (c : ℕ) → in_ranges ((b'.', b'.') ∷ []) c ≡ true → c ≡ b'.'
is_dot c h = ground arith

cons_parts : (c d : ℕ) (x y : List ℕ) → c ∷ x ≡ d ∷ y → (c ≡ d) × (x ≡ y)
cons_parts c d x y h = (cc, cc)

-- The text of a repetition of dotted labels.
abbrev IsDotted : List ℕ → Type 0
IsDotted s = (rest : List (List ℕ)) × (s ≡ dotted rest) × All IsLabel rest

IsDotted-cons :
    (c d : ℕ) (x y t s : List ℕ)
    → in_ranges ((b'.', b'.') ∷ []) d ≡ true
    → IsLabel y
    → c ∷ x ≡ d ∷ y
    → IsDotted t
    → s ≡ c ∷ (x ++ t)
    → IsDotted s
IsDotted-cons c d x y t s h label same (rest, is, labels) split =
    let (head, tail) = cons_parts c d x y same in
    (y ∷ rest, split ∙ rw (head, is_dot d h, tail, is) refl, (label, labels))

Matches-IsDotted : {s : List ℕ} → Matches (star dotted_reg) s → IsDotted s
Matches-IsDotted m_none = ([], refl, tt)
Matches-IsDotted {s} (m_more c x t (m_seq _ y (m_class {c = d} h) label same) n split) =
    IsDotted-cons c d x y t s h (Matches-IsLabel label) same (Matches-IsDotted n) split

dotted-Matches : (rest : List (List ℕ)) → All IsLabel rest → Matches (star dotted_reg) (dotted rest)
dotted-Matches [] h = m_none
dotted-Matches (label ∷ rest) (h, hs) =
    m_more b'.' label (dotted rest)
      (m_seq (b'.' ∷ []) label (m_class refl) (IsLabel-Matches label h) refl)
      (dotted-Matches rest hs) refl

Matches-IsDnsName : {s : List ℕ} → Matches dns1123_reg s → IsDnsName s
Matches-IsDnsName (m_seq first t label others split) =
    let (rest, is, labels) = Matches-IsDotted others in
    (first, rest, split ∙ ap (λ (l : List ℕ). first ++ l) is, Matches-IsLabel label, labels)

IsDnsName-Matches : (s : List ℕ) → IsDnsName s → Matches dns1123_reg s
IsDnsName-Matches s (first, rest, split, label, labels) =
    m_seq first (dotted rest) (IsLabel-Matches first label) (dotted-Matches rest labels) split

-- `dns1123Reg` accepts exactly the texts of one or more labels between dots, each of lower case
-- letters, digits and dashes, with a letter or a digit at both ends.
pub dns1123_reg_iff : (s : String) → (match_whole dns1123_reg s ≡ true) ↔ IsDnsName (codes s)
unfolding match_whole
dns1123_reg_iff s = (
  λ h. Matches-IsDnsName ((accepts_iff dns1123_reg (codes s)).0 h),
  λ h. (accepts_iff dns1123_reg (codes s)).1 (IsDnsName-Matches (codes s) h),
)

-- Some character of the text is in the class.
abbrev pub AnyIn : Ranges → List ℕ → Type 0
AnyIn ranges s = any (in_ranges ranges) s ≡ true

AnyIn-append :
    (ranges : Ranges) (x : List ℕ) (c : ℕ) (t : List ℕ)
    → in_ranges ranges c ≡ true
    → AnyIn ranges (x ++ c ∷ t)
AnyIn-append ranges [] c t h = rw h refl
AnyIn-append ranges (d ∷ x) c t h = rw (AnyIn-append ranges x c t h) (or_true (in_ranges ranges d))

AnyIn-Occurs : (s : List ℕ) → AnyIn alnum s → Occurs zone_name_reg s
AnyIn-Occurs [] h = cc
AnyIn-Occurs (c ∷ s) h = elim (Bool-cases (in_ranges alnum c)) [
  | inl t ↦ ([], c ∷ s, refl, (c ∷ [], s, refl, m_seq (c ∷ []) [] (m_class t) m_none refl))
  | inr t ↦
      let (x, rest, split, starts) = AnyIn-Occurs s (rw t at h) in
      (c ∷ x, rest, ap (λ (l : List ℕ). c ∷ l) split, starts)
]

Occurs-AnyIn : (s : List ℕ) → Occurs zone_name_reg s → AnyIn alnum s
Occurs-AnyIn s (x, t, split, (y, z, part, m_seq _ more (m_class {c} h) _ whole)) =
    rw (split, part, whole) (AnyIn-append alnum x c (more ++ z) h)

-- `zoneNameReg` has no anchors: it accepts exactly the texts with some letter or digit in them,
-- whatever else they hold.
pub zone_name_reg_iff : (s : String) → (match_part zone_name_reg s ≡ true) ↔ AnyIn alnum (codes s)
unfolding match_part
zone_name_reg_iff s = (
  λ h. Occurs-AnyIn (codes s) ((accepts_part_iff zone_name_reg (codes s)).0 h),
  λ h. (accepts_part_iff zone_name_reg (codes s)).1 (AnyIn-Occurs (codes s) h),
)
