-- ===== src/Base/Sorting.antt =====
-- What sorting promises, and what the ascending order of a list leaves open: nothing, where no two
-- elements have the same name.
pub mod Insertion
use Prim.Native.String.{String, compare}
use mathlib.Core.Path.{◌≡◌, refl, sym, ap, ap₂, ◌∙◌}
use mathlib.Core.Logic.{◌≢◌, inl, inr}
use mathlib.Core.Bool.{Bool, false}
use mathlib.Core.List.{List, [], ◌∷◌, ◌++◌, Permᴰ}
use mathlib.Core.List.Permᴰ
use mathlib.Core.List.{append_assoc}
use text.Mathlib.Text.{is_lt}
use text.Mathlib.TextPositions.{compare_refl}
use fab_dns.Base.Tests.{Bool-cases}
use fab_dns.Base.Lists.{In, In-append, In-filter, filter, flat_map}
use fab_dns.Base.Texts.{compare_total}

-- `s < t` on texts
abbrev pub less_text : String → String → Bool
less_text s t = is_lt (compare s t)

module _ {A : Type 0} (less : A → A → Bool) where
  -- No element is less than one that stands in front of it.
  abbrev pub IsAscending : List A → Type 0
  IsAscending [] = Unit
  IsAscending (x ∷ xs) = ((y : A) → In y xs → less y x ≡ false) × IsAscending xs

  -- What the documentation of `sort.Sort` promises: the same elements, in ascending order.
  pub record SortLaws (sort : List A → List A) : Type 0 where
    pub perm : (xs : List A) → Permᴰ (sort xs) xs
    pub ascending : (xs : List A) → IsAscending (sort xs)

  pub IsAscending-append :
      (xs ys : List A)
      → IsAscending xs
      → IsAscending ys
      → ((x y : A) → In x xs → In y ys → less y x ≡ false)
      → IsAscending (xs ++ ys)
  IsAscending-append [] ys h k across = k
  IsAscending-append (x ∷ xs) ys h k across = (
    λ y i. elim (In-append y xs ys i) [ inl j ↦ h.0 y j | inr j ↦ across x y (inl refl) j ],
    IsAscending-append xs ys h.1 k (λ a b i j. across a b (inr i) j),
  )

  pub IsAscending-filter : (p : A → Bool) (xs : List A) → IsAscending xs → IsAscending (filter p xs)
  IsAscending-filter p [] h = tt
  IsAscending-filter p (x ∷ xs) h =
      let rest = IsAscending-filter p xs h.1 in
      elim (Bool-cases (p x)) [
        | inl t ↦ rw t ((λ y i. h.0 y (In-filter p y xs i).0, rest))
        | inr t ↦ rw t rest
      ]

module _ {A : Type 0} where
  pub Permᴰ-In : (a : A) {xs ys : List A} → Permᴰ xs ys → In a xs → In a ys
  Permᴰ-In a Permᴰ.nil i = i
  Permᴰ-In a (Permᴰ.cons e p) (inl h) = inl (h ∙ e)
  Permᴰ-In a (Permᴰ.cons e p) (inr i) = inr (Permᴰ-In a p i)
  Permᴰ-In a (Permᴰ.swap e f) (inl h) = inr (inl (h ∙ e))
  Permᴰ-In a (Permᴰ.swap e f) (inr (inl h)) = inl (h ∙ f)
  Permᴰ-In a (Permᴰ.swap e f) (inr (inr i)) = inr (inr i)
  Permᴰ-In a (Permᴰ.trans p q) i = Permᴰ-In a q (Permᴰ-In a p i)

  pub filter-Permᴰ :
      (p : A → Bool) {xs ys : List A} → Permᴰ xs ys → Permᴰ (filter p xs) (filter p ys)
  filter-Permᴰ p Permᴰ.nil = Permᴰ.nil
  filter-Permᴰ p (Permᴰ.cons {a} {b} e h) =
      let rest = filter-Permᴰ p h in
      elim (Bool-cases (p b)) [ inl t ↦ rw (e, t) (Permᴰ.cons refl rest) | inr t ↦ rw (e, t) rest ]
  filter-Permᴰ p (Permᴰ.swap {a} {b} {a'} {b'} {l} e f) = elim (Bool-cases (p a')) [
    | inl t ↦ elim (Bool-cases (p b')) [
      | inl u ↦ rw (e, f, t, u) (Permᴰ.swap refl refl)
      | inr u ↦ rw (e, f, t, u) (Permᴰ.refl (a' ∷ filter p l))
    ]
    | inr t ↦ elim (Bool-cases (p b')) [
      | inl u ↦ rw (e, f, t, u) (Permᴰ.refl (b' ∷ filter p l))
      | inr u ↦ rw (e, f, t, u) (Permᴰ.refl (filter p l))
    ]
  ]
  filter-Permᴰ p (Permᴰ.trans h k) = Permᴰ.trans (filter-Permᴰ p h) (filter-Permᴰ p k)

module _ {A B : Type 0} (f : A → List B) where
  pub flat_map-Permᴰ : {xs ys : List A} → Permᴰ xs ys → Permᴰ (flat_map f xs) (flat_map f ys)
  flat_map-Permᴰ Permᴰ.nil = Permᴰ.nil
  flat_map-Permᴰ (Permᴰ.cons {a} {b} e p) = rw e (Permᴰ.append_left (f b) (flat_map-Permᴰ p))
  flat_map-Permᴰ (Permᴰ.swap {a} {b} {a'} {b'} {l} e k) =
      rw
        (
          e,
          k,
          ← append_assoc (f b') (f a') (flat_map f l),
          ← append_assoc (f a') (f b') (flat_map f l),
        )
        (Permᴰ.append_right (flat_map f l) (Permᴰ.append_comm (f b') (f a')))
  flat_map-Permᴰ (Permᴰ.trans p q) = Permᴰ.trans (flat_map-Permᴰ p) (flat_map-Permᴰ q)

module _ {A : Type 0} (name : A → String) where
  abbrev pub less_name : A → A → Bool
  less_name x y = less_text (name x) (name y)

  -- No two elements have the same name.
  abbrev pub IsDistinct : List A → Type 0
  IsDistinct [] = Unit
  IsDistinct (x ∷ xs) = ((y : A) → In y xs → name y ≢ name x) × IsDistinct xs

  pub IsDistinct-Permᴰ : {xs ys : List A} → Permᴰ xs ys → IsDistinct xs → IsDistinct ys
  IsDistinct-Permᴰ Permᴰ.nil d = d
  IsDistinct-Permᴰ (Permᴰ.cons e p) d =
      (λ y i h. d.0 y (Permᴰ-In y (Permᴰ.symm p) i) (h ∙ ap name (sym e)), IsDistinct-Permᴰ p d.1)
  IsDistinct-Permᴰ (Permᴰ.swap {a} {b} {a'} {b'} {l} e f) d = (
    λ y i h. elim i [
      | inl same ↦ d.0 b (inl refl) (ap name f ∙ sym h ∙ ap name (same ∙ sym e))
      | inr j ↦ d.1.0 y j (h ∙ ap name (sym f))
    ],
    (λ y i h. d.0 y (inr i) (h ∙ ap name (sym e)), d.1.1),
  )
  IsDistinct-Permᴰ (Permᴰ.trans p q) d = IsDistinct-Permᴰ q (IsDistinct-Permᴰ p d)

  -- In such a list, a name tells the element.
  IsDistinct-tells :
      (a b : A) (xs : List A) → IsDistinct xs → In a xs → In b xs → name a ≡ name b → a ≡ b
  IsDistinct-tells a b (x ∷ xs) d (inl h) (inl k) e = h ∙ sym k
  IsDistinct-tells a b (x ∷ xs) d (inl h) (inr k) e = absurd (d.0 b k (sym e ∙ ap name h))
  IsDistinct-tells a b (x ∷ xs) d (inr h) (inl k) e = absurd (d.0 a h (e ∙ ap name k))
  IsDistinct-tells a b (x ∷ xs) d (inr h) (inr k) e = IsDistinct-tells a b xs d.1 h k e
  IsDistinct-tells a b [] d h k e = absurd h

  not_after :
      (x y : A) (xs : List A)
      → IsAscending less_name (x ∷ xs)
      → In y (x ∷ xs)
      → less_name y x ≡ false
  not_after x y xs h (inl e) = rw (e, compare_refl (name x)) refl
  not_after x y xs h (inr i) = h.0 y i

  tail_within :
      (x : A) (xs ys : List A)
      → IsDistinct (x ∷ xs)
      → ((a : A) → In a (x ∷ xs) → In a (x ∷ ys))
      → (a : A) → In a xs
      → In a ys
  tail_within x xs ys d within a i = elim (within a (inr i)) [
    | inl e ↦ absurd (d.0 a i (ap name e))
    | inr m ↦ m
  ]

  -- Two ascending lists of the same elements are equal, if no name stands twice in them.
  pub IsAscending-eq :
      (xs ys : List A)
      → IsAscending less_name xs
      → IsAscending less_name ys
      → IsDistinct xs
      → IsDistinct ys
      → ((a : A) → In a xs → In a ys)
      → ((a : A) → In a ys → In a xs)
      → xs ≡ ys
  IsAscending-eq [] [] p q d e to from = refl
  IsAscending-eq [] (y ∷ ys) p q d e to from = absurd (from y (inl refl))
  IsAscending-eq (x ∷ xs) [] p q d e to from = absurd (to x (inl refl))
  IsAscending-eq (x ∷ xs) (y ∷ ys) p q d e to from =
      let here : x ≡ y = IsDistinct-tells x y (x ∷ xs) d (inl refl) (from y (inl refl)) (
        compare_total (name x) (name y) (not_after y x ys q (to x (inl refl)))
          (not_after x y xs p (from y (inl refl)))) in
      let to' : (a : A) → In a xs → In a ys =
        tail_within x xs ys d (λ a i. rw (← here) at (to a i)) in
      let from' : (a : A) → In a ys → In a xs =
        tail_within y ys xs e (λ a i. rw here at (from a i)) in
      ap₂ (λ (a : A) (l : List A). a ∷ l) here (IsAscending-eq xs ys p.1 q.1 d.1 e.1 to' from')

  -- What a sort makes of a list depends on its elements only, if no name stands twice.
  pub sorted_unique :
      (sort sort' : List A → List A) (xs ys : List A)
      → SortLaws less_name sort
      → SortLaws less_name sort'
      → IsDistinct xs
      → Permᴰ xs ys
      → sort xs ≡ sort' ys
  sorted_unique sort sort' xs ys laws laws' d p =
      let across = Permᴰ.trans (laws.perm xs) (Permᴰ.trans p (Permᴰ.symm (laws'.perm ys))) in
      let distinct = IsDistinct-Permᴰ (Permᴰ.symm (laws.perm xs)) d in
      IsAscending-eq (sort xs) (sort' ys) (laws.ascending xs) (laws'.ascending ys) distinct
        (IsDistinct-Permᴰ across distinct) (λ a. Permᴰ-In a across)
        (λ a. Permᴰ-In a (Permᴰ.symm across))
