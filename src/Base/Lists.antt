-- ===== src/Base/Lists.antt =====
-- Lists over the native numbers, with Boolean tests: filtering, membership and concatenation.
use Prim.Native.Nat.{ℕ, zero, suc, ◌+◌}
use mathlib.Core.Path.{◌≡◌, refl, sym, subst}
use mathlib.Core.Logic.{◌⊎◌, inl, inr}
use mathlib.Core.Bool.{Bool, true, false, ◌||◌}
use mathlib.Core.Option.{Option, none, some}
use mathlib.Core.List.{List, [], ◌∷◌, ◌++◌, append_assoc}
use native.Mathlib.Omega.{arith}
use fab_dns.Base.Tests.{if◌then◌else◌, Bool-cases, ltb}

module _ {ℓ} {A : Type ℓ} where
  abbrev pub length : List A → ℕ
  length [] = 0
  length (x ∷ xs) = suc (length xs)

  abbrev pub get_elem? : List A → ℕ → Option A
  get_elem? [] i = none
  get_elem? (x ∷ xs) zero = some x
  get_elem? (x ∷ xs) (suc i) = get_elem? xs i

  -- A write out of bounds changes nothing.
  abbrev pub set : List A → ℕ → A → List A
  set [] i v = []
  set (x ∷ xs) zero v = v ∷ xs
  set (x ∷ xs) (suc i) v = x ∷ set xs i v

  pub length-append : (xs ys : List A) → length (xs ++ ys) ≡ length xs + length ys
  length-append [] ys = omega arith
  length-append (x ∷ xs) ys = omega (arith, length-append xs ys)

  -- The elements that pass a test, in order.
  abbrev pub filter : (A → Bool) → List A → List A
  filter p [] = []
  filter p (x ∷ xs) = if p x then x ∷ filter p xs else filter p xs

  abbrev pub any : (A → Bool) → List A → Bool
  any p [] = false
  any p (x ∷ xs) = p x || any p xs

  pub filter-append :
      (p : A → Bool) (xs ys : List A) → filter p (xs ++ ys) ≡ filter p xs ++ filter p ys
  filter-append p [] ys = refl
  filter-append p (x ∷ xs) ys = ground (arith, filter-append p xs ys)

  pub filter-filter : (p : A → Bool) (xs : List A) → filter p (filter p xs) ≡ filter p xs
  filter-filter p [] = refl
  filter-filter p (x ∷ xs) = ground (arith, filter-filter p xs)

module _ {ℓ κ} {A : Type ℓ} (P : A → Type κ) where
  abbrev pub All : List A → Type κ
  All [] = Unit
  All (x ∷ xs) = P x × All xs

  pub All-append : (xs ys : List A) → All xs → All ys → All (xs ++ ys)
  All-append [] ys h k = k
  All-append (x ∷ xs) ys (p, h) k = (p, All-append xs ys h k)

module _ {A : Type 0} where
  -- An occurrence of a value in a list.
  abbrev pub In : A → List A → Type 0
  In a [] = ⊥
  In a (x ∷ xs) = (a ≡ x) ⊎ In a xs

  pub In-append : (a : A) (xs ys : List A) → In a (xs ++ ys) → In a xs ⊎ In a ys
  In-append a [] ys h = inr h
  In-append a (x ∷ xs) ys (inl e) = inl (inl e)
  In-append a (x ∷ xs) ys (inr h) = elim (In-append a xs ys h) [
    | inl l ↦ inl (inr l)
    | inr r ↦ inr r
  ]

  pub In-filter : (p : A → Bool) (a : A) (xs : List A) → In a (filter p xs) → In a xs × (p a ≡ true)
  In-filter p a [] h = absurd h
  In-filter p a (x ∷ xs) h = elim (Bool-cases (p x)) [
    | inl e ↦ elim (let k : (a ≡ x) ⊎ In a (filter p xs) = rw e at h in k) [
      | inl same ↦ (inl same, rw same e)
      | inr k ↦ let (i, q) = In-filter p a xs k in (inr i, q)
    ]
    | inr e ↦
        let k : In a (filter p xs) = rw e at h in let (i, q) = In-filter p a xs k in (inr i, q)
  ]

  pub filter-In : (p : A → Bool) (a : A) (xs : List A) → In a xs → p a ≡ true → In a (filter p xs)
  filter-In p a (x ∷ xs) (inl e) h = let q : p x ≡ true = rw (← e) h in rw q (inl e)
  filter-In p a (x ∷ xs) (inr i) h = elim (Bool-cases (p x)) [
    | inl e ↦ rw e (inr (filter-In p a xs i h))
    | inr e ↦ rw e (filter-In p a xs i h)
  ]
  filter-In p a [] i h = absurd i

  pub append_left-In : (a : A) (xs ys : List A) → In a xs → In a (xs ++ ys)
  append_left-In a (x ∷ xs) ys (inl e) = inl e
  append_left-In a (x ∷ xs) ys (inr i) = inr (append_left-In a xs ys i)
  append_left-In a [] ys i = absurd i

  pub append_right-In : (a : A) (xs ys : List A) → In a ys → In a (xs ++ ys)
  append_right-In a [] ys i = i
  append_right-In a (x ∷ xs) ys i = inr (append_right-In a xs ys i)

  -- A list is empty or passes the test `len(xs) > 0`.
  pub List-cases : (xs : List A) → (xs ≡ []) ⊎ (ltb 0 (length xs) ≡ true)
  List-cases [] = inl refl
  List-cases (x ∷ xs) = inr (ground arith)

  pub In-length : (a : A) (xs : List A) → In a xs → ltb 0 (length xs) ≡ true
  In-length a [] i = absurd i
  In-length a (x ∷ xs) i = ground arith

module _ {A B : Type 0} (f : A → List B) where
  -- What a loop that appends `f x` for each `x` collects.
  abbrev pub flat_map : List A → List B
  flat_map [] = []
  flat_map (x ∷ xs) = f x ++ flat_map xs

  pub In-flat_map : (b : B) (xs : List A) → In b (flat_map xs) → (a : A) × In a xs × In b (f a)
  In-flat_map b [] h = absurd h
  In-flat_map b (x ∷ xs) h = elim (In-append b (f x) (flat_map xs) h) [
    | inl l ↦ (x, inl refl, l)
    | inr r ↦ let (a, i, j) = In-flat_map b xs r in (a, inr i, j)
  ]

module _ {A B : Type 0} (f : A → List B) where
  pub flat_map-In : (a : A) (b : B) (xs : List A) → In a xs → In b (f a) → In b (flat_map f xs)
  flat_map-In a b (x ∷ xs) (inl e) h =
      append_left-In b (f x) (flat_map f xs) (subst (λ y. In b (f y)) e h)
  flat_map-In a b (x ∷ xs) (inr i) h =
      append_right-In b (f x) (flat_map f xs) (flat_map-In a b xs i h)
  flat_map-In a b [] i h = absurd i

append-eq-nil {ℓ} : {A : Type ℓ} (xs ys : List A) → xs ++ ys ≡ [] → (xs ≡ []) × (ys ≡ [])
append-eq-nil [] ys h = (refl, h)
append-eq-nil (x ∷ xs) ys h = cc

module _ {A B : Type 0} (f : A → List B) where
  -- The elements of a list that yields nothing yield nothing.
  pub flat_map-eq-nil : (xs : List A) → flat_map f xs ≡ [] → (a : A) → In a xs → f a ≡ []
  flat_map-eq-nil [] h a i = absurd i
  flat_map-eq-nil (x ∷ xs) h a (inl e) = rw e (append-eq-nil (f x) _ h).0
  flat_map-eq-nil (x ∷ xs) h a (inr i) = flat_map-eq-nil xs (append-eq-nil (f x) _ h).1 a i

  pub flat_map-append : (xs ys : List A) → flat_map f (xs ++ ys) ≡ flat_map f xs ++ flat_map f ys
  flat_map-append [] ys = refl
  flat_map-append (x ∷ xs) ys = rw (flat_map-append xs ys) (sym (append_assoc (f x) _ _))

  -- A list of which no element yields anything yields nothing.
  pub flat_map-nil : (xs : List A) → ((a : A) → In a xs → f a ≡ []) → flat_map f xs ≡ []
  flat_map-nil [] h = refl
  flat_map-nil (x ∷ xs) h = rw (h x (inl refl)) (flat_map-nil xs (λ a i. h a (inr i)))
