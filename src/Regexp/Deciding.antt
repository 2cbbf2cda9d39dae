-- ===== src/Regexp/Deciding.antt =====
-- The matcher answers true exactly on the texts that a pattern describes.
use fab_dns.Base.{
  ℕ, Bool, true, false, ◌||◌, List, [], ◌∷◌, ◌++◌, ◌≡◌, refl, sym, ap, ◌∙◌, arith, ◌↔◌, inl, inr,
  Bool-cases,
}
use fab_dns.Regexp.{
  in_ranges, Regex, fail, eps, class, seq, alt, star, Matches, m_eps, m_class, m_seq, m_left,
  m_right, m_none, m_more, nullable, deriv, accepts, accepts_prefix, accepts_part,
}

append_nil : (s t : List ℕ) → [] ≡ s ++ t → (s ≡ []) × (t ≡ [])
append_nil [] t h = (refl, sym h)
append_nil (c ∷ s) t h = absurd (cons_nil h)
  where
    cons_nil : {u : List ℕ} → [] ≡ c ∷ u → ⊥
    cons_nil e = cc

nullable-Matches : (r : Regex) → nullable r ≡ true → Matches r []
unfolding nullable
nullable-Matches fail h = cc
nullable-Matches eps h = m_eps
nullable-Matches (class ranges) h = cc
nullable-Matches (seq r q) h =
    m_seq [] [] (nullable-Matches r (ground arith)) (nullable-Matches q (ground arith)) refl
nullable-Matches (alt r q) h = elim (Bool-cases (nullable r)) [
  | inl t ↦ m_left (nullable-Matches r t)
  | inr t ↦ m_right (nullable-Matches q (rw t at h))
]
nullable-Matches (star r) h = m_none

Matches-nullable : {r : Regex} {s : List ℕ} → Matches r s → s ≡ [] → nullable r ≡ true
unfolding nullable
Matches-nullable m_eps e = refl
Matches-nullable (m_class h) e = cc
Matches-nullable (m_seq s t m n split) e =
    let (s_nil, t_nil) = append_nil s t (sym e ∙ split) in
    rw (Matches-nullable m s_nil) (Matches-nullable n t_nil)
Matches-nullable (m_left m) e = rw (Matches-nullable m e) refl
Matches-nullable (m_right {r} m) e = elim (Bool-cases (nullable r)) [
  | inl t ↦ rw t refl
  | inr t ↦ rw t (Matches-nullable m e)
]
Matches-nullable m_none e = refl
Matches-nullable (m_more c s t m n split) e = refl

pub eps_inv : {s : List ℕ} → Matches eps s → s ≡ []
eps_inv m_eps = refl

fail_inv : {s : List ℕ} → Matches fail s → ⊥
fail_inv m = elim m [ ]

deriv-Matches : (r : Regex) (c : ℕ) (s : List ℕ) → Matches (deriv c r) s → Matches r (c ∷ s)
unfolding deriv
deriv-Matches fail c s m = absurd (fail_inv m)
deriv-Matches eps c s m = absurd (fail_inv m)
deriv-Matches (class ranges) c s m = elim (Bool-cases (in_ranges ranges c)) [
  | inl t ↦ rw (eps_inv (rw (t, deriv) at m)) (m_class t)
  | inr t ↦ absurd (fail_inv (rw (t, deriv) at m))
]
deriv-Matches (seq r q) c s (m_left (m_seq x t m n split)) =
    m_seq (c ∷ x) t (deriv-Matches r c x m) n (ap (λ (l : List ℕ). c ∷ l) split)
deriv-Matches (seq r q) c s (m_right m) = elim (Bool-cases (nullable r)) [
  | inl t ↦ m_seq [] (c ∷ s) (nullable-Matches r t) (deriv-Matches q c s (rw t at m)) refl
  | inr t ↦ let k : Matches fail s = rw t at m in absurd (fail_inv k)
]
deriv-Matches (alt r q) c s (m_left m) = m_left (deriv-Matches r c s m)
deriv-Matches (alt r q) c s (m_right m) = m_right (deriv-Matches q c s m)
deriv-Matches (star r) c s (m_seq x t m n split) =
    m_more c x t (deriv-Matches r c x m) n (ap (λ (l : List ℕ). c ∷ l) split)

Matches-deriv :
    {r : Regex} {u : List ℕ} (c : ℕ) (s : List ℕ) → Matches r u → u ≡ c ∷ s → Matches (deriv c r) s
unfolding deriv
Matches-deriv c s m_eps e = cc
Matches-deriv c s (m_class {ranges} {c = d} h) e =
    let same : d ≡ c = cc in let ends : [] ≡ s = cc in rw (← ends, ← same, h) m_eps
Matches-deriv c s (m_seq {r} [] t m n split) e =
    m_right (rw (Matches-nullable m refl) (Matches-deriv c s n (sym split ∙ e)))
Matches-deriv c s (m_seq (d ∷ x) t m n split) e =
    let both : d ∷ (x ++ t) ≡ c ∷ s = sym split ∙ e in
    let same : d ≡ c = cc in
    let rest : x ++ t ≡ s = cc in
    m_left (m_seq x t (Matches-deriv c x m (ap (λ (h : ℕ). h ∷ x) same)) n (sym rest))
Matches-deriv c s (m_left m) e = m_left (Matches-deriv c s m e)
Matches-deriv c s (m_right m) e = m_right (Matches-deriv c s m e)
Matches-deriv c s m_none e = cc
Matches-deriv c s (m_more d x t m n split) e =
    let both : d ∷ (x ++ t) ≡ c ∷ s = sym split ∙ e in
    let same : d ≡ c = cc in
    let rest : x ++ t ≡ s = cc in
    m_seq x t (Matches-deriv c x m (ap (λ (h : ℕ). h ∷ x) same)) n (sym rest)

-- The matcher by derivatives stops, and answers true exactly on the texts that the pattern describes.
pub accepts_iff : (r : Regex) (s : List ℕ) → (accepts r s ≡ true) ↔ Matches r s
unfolding accepts
accepts_iff r [] = (nullable-Matches r, λ m. Matches-nullable m refl)
accepts_iff r (c ∷ s) = (
  λ h. deriv-Matches r c s ((accepts_iff (deriv c r) s).0 h),
  λ m. (accepts_iff (deriv c r) s).1 (Matches-deriv c s m refl),
)

-- A part of a text that a pattern describes, at the start of the text, or anywhere.
abbrev pub Starts : Regex → List ℕ → Type 0
Starts r s = (y : List ℕ) × (z : List ℕ) × (s ≡ y ++ z) × Matches r y

abbrev pub Occurs : Regex → List ℕ → Type 0
Occurs r s = (x : List ℕ) × (t : List ℕ) × (s ≡ x ++ t) × Starts r t

prefix-Starts : (r : Regex) (s : List ℕ) → accepts_prefix r s ≡ true → Starts r s
unfolding accepts_prefix
prefix-Starts r [] h = ([], [], refl, nullable-Matches r h)
prefix-Starts r (c ∷ s) h = elim (Bool-cases (nullable r)) [
  | inl t ↦ ([], c ∷ s, refl, nullable-Matches r t)
  | inr t ↦
      let (y, z, split, m) = prefix-Starts (deriv c r) s (rw t at h) in
      (c ∷ y, z, ap (λ (l : List ℕ). c ∷ l) split, deriv-Matches r c y m)
]

or_right : (a b : Bool) → b ≡ true → (a || b) ≡ true
or_right true b h = refl
or_right false b h = h

Starts-prefix : (r : Regex) (s : List ℕ) → Starts r s → accepts_prefix r s ≡ true
unfolding accepts_prefix
Starts-prefix r [] ([], z, split, m) = Matches-nullable m refl
Starts-prefix r [] (c ∷ y, z, split, m) = cc
Starts-prefix r (c ∷ s) ([], z, split, m) = rw (Matches-nullable m refl) refl
Starts-prefix r (c ∷ s) (d ∷ y, z, split, m) =
    let same : d ≡ c = cc in
    let rest : s ≡ y ++ z = cc in
    or_right (nullable r) (accepts_prefix (deriv c r) s)
      (Starts-prefix (deriv c r) s (y, z, rest, Matches-deriv c y m (ap (λ (h : ℕ). h ∷ y) same)))

part-Occurs : (r : Regex) (s : List ℕ) → accepts_part r s ≡ true → Occurs r s
unfolding accepts_part
part-Occurs r [] h = ([], [], refl, prefix-Starts r [] h)
part-Occurs r (c ∷ s) h = elim (Bool-cases (accepts_prefix r (c ∷ s))) [
  | inl t ↦ ([], c ∷ s, refl, prefix-Starts r (c ∷ s) t)
  | inr t ↦
      let (x, t', split, starts) = part-Occurs r s (rw t at h) in
      (c ∷ x, t', ap (λ (l : List ℕ). c ∷ l) split, starts)
]

Occurs-part : (r : Regex) (s : List ℕ) → Occurs r s → accepts_part r s ≡ true
unfolding accepts_part
Occurs-part r [] ([], t, split, starts) = Starts-prefix r [] (rw (← split) at starts)
Occurs-part r [] (c ∷ x, t, split, starts) = cc
Occurs-part r (c ∷ s) ([], t, split, starts) =
    rw (Starts-prefix r (c ∷ s) (rw (← split) at starts)) refl
Occurs-part r (c ∷ s) (d ∷ x, t, split, starts) =
    let rest : s ≡ x ++ t = cc in
    or_right (accepts_prefix r (c ∷ s)) (accepts_part r s) (Occurs-part r s (x, t, rest, starts))

-- The search without anchors stops, and answers true exactly if the pattern describes some part.
pub accepts_part_iff : (r : Regex) (s : List ℕ) → (accepts_part r s ≡ true) ↔ Occurs r s
accepts_part_iff r s = (part-Occurs r s, Occurs-part r s)
