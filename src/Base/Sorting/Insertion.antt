-- ===== src/Base/Sorting/Insertion.antt =====
-- Insertion sort, as one sort that keeps the promises.
use mathlib.Core.Path.{◌≡◌}
use mathlib.Core.Logic.{inl, inr}
use mathlib.Core.Bool.{Bool, true, false}
use mathlib.Core.List.{List, [], ◌∷◌, Permᴰ}
use mathlib.Core.List.Permᴰ
use fab_dns.Base.Tests.{if◌then◌else◌, Bool-cases}
use mathlib.Core.Path.{refl}
use fab_dns.Base.Sorting.{IsAscending, SortLaws, Permᴰ-In}

module _ {A : Type 0} (less : A → A → Bool) where
  insert : A → List A → List A
  insert x [] = x ∷ []
  insert x (y ∷ ys) = let rest = insert x ys in if less y x then y ∷ rest else x ∷ y ∷ ys

  unfoldable pub sort_by : List A → List A
  unfolding insert
  sort_by [] = []
  sort_by (x ∷ xs) = insert x (sort_by xs)

  insert-Permᴰ : (x : A) (ys : List A) → Permᴰ (insert x ys) (x ∷ ys)
  unfolding insert
  insert-Permᴰ x [] = Permᴰ.refl (x ∷ [])
  insert-Permᴰ x (y ∷ ys) = elim (Bool-cases (less y x)) [
    | inl t ↦ rw t (Permᴰ.trans (Permᴰ.cons refl (insert-Permᴰ x ys)) (Permᴰ.swap refl refl))
    | inr t ↦ rw t (Permᴰ.refl (x ∷ y ∷ ys))
  ]

  pub sort_by-Permᴰ : (xs : List A) → Permᴰ (sort_by xs) xs
  unfolding sort_by
  sort_by-Permᴰ [] = Permᴰ.nil
  sort_by-Permᴰ (x ∷ xs) =
      Permᴰ.trans (insert-Permᴰ x (sort_by xs)) (Permᴰ.cons refl (sort_by-Permᴰ xs))

  module _ (asym : (x y : A) → less x y ≡ true → less y x ≡ false)
      (trans : (x y z : A) → less y x ≡ false → less z y ≡ false → less z x ≡ false) where
    insert-IsAscending :
        (x : A) (ys : List A) → IsAscending less ys → IsAscending less (insert x ys)
    unfolding insert
    insert-IsAscending x [] h = ((λ y i. absurd i), tt)
    insert-IsAscending x (y ∷ ys) h = elim (Bool-cases (less y x)) [
      | inl t ↦ rw t (
          (
            λ z i. elim (Permᴰ-In z (insert-Permᴰ x ys) i) [
              | inl e ↦ rw e (asym y x t)
              | inr j ↦ h.0 z j
            ],
            insert-IsAscending x ys h.1,
          ))
      | inr t ↦ rw t ((λ z i. elim i [ inl e ↦ rw e t | inr j ↦ trans x y z t (h.0 z j) ], h))
    ]

    sort_by-IsAscending : (xs : List A) → IsAscending less (sort_by xs)
    unfolding sort_by
    sort_by-IsAscending [] = tt
    sort_by-IsAscending (x ∷ xs) = insert-IsAscending x (sort_by xs) (sort_by-IsAscending xs)

    pub sort_by-SortLaws : SortLaws less sort_by
    sort_by-SortLaws = record { perm = sort_by-Permᴰ; ascending = sort_by-IsAscending }
