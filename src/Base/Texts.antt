-- ===== src/Base/Texts.antt =====
-- The order of texts that `<` of Go stands for.
use Prim.Native.Nat.{ℕ, Ordering, compare as compare_ℕ}
use Prim.Native.Char.{code}
use Prim.Native.String.compare
use Prim.Native.String.{String, compare, then}
use mathlib.Core.Path.{◌≡◌, refl, sym, ap, ◌∙◌}
use mathlib.Core.Bool.{true, false}
use native.Mathlib.Omega.{arith}
use text.Mathlib.Text.{is_lt}
use text.Mathlib.TextEquality.{path_by_compare}

abbrev turned : Ordering → Ordering
turned Ordering.lt = Ordering.gt
turned Ordering.eq = Ordering.eq
turned Ordering.gt = Ordering.lt

turned-compare_ℕ : (m n : ℕ) → compare_ℕ m n ≡ turned (compare_ℕ n m)
turned-compare_ℕ m n = ground arith

turned-then : (o p : Ordering) → turned (then o p) ≡ then (turned o) (turned p)
turned-then Ordering.lt p = refl
turned-then Ordering.eq p = refl
turned-then Ordering.gt p = refl

turned-compare : (s t : String) → compare s t ≡ turned (compare t s)
turned-compare String.[] String.[] = refl
turned-compare String.[] (String.◌∷◌ d t) =
    compare.nil-cons d t ∙ ap turned (sym (compare.cons-nil d t))
turned-compare (String.◌∷◌ c s) String.[] =
    compare.cons-nil c s ∙ ap turned (sym (compare.nil-cons c s))
turned-compare (String.◌∷◌ c s) (String.◌∷◌ d t) =
    compare.cons-cons c d s t
    ∙ rw (turned-compare_ℕ (code c) (code d), turned-compare s t)
        (sym (turned-then (compare_ℕ (code d) (code c)) (compare t s)))
    ∙ ap turned (sym (compare.cons-cons d c t s))

-- Texts of which neither is before the other are equal.
pub compare_total :
    (s t : String) → is_lt (compare s t) ≡ false → is_lt (compare t s) ≡ false → s ≡ t
compare_total s t h k =
    path_by_compare s t (neither (compare s t) (compare t s) (turned-compare s t) h k)
  where
    neither : (o p : Ordering) → o ≡ turned p → is_lt o ≡ false → is_lt p ≡ false → o ≡ Ordering.eq
    neither o p e h k = ground arith

heads_trans :
    (m n k : ℕ) (o p q : Ordering)
    → (is_lt o ≡ false → is_lt p ≡ false → is_lt q ≡ false)
    → is_lt (then (compare_ℕ n m) o) ≡ false
    → is_lt (then (compare_ℕ k n) p) ≡ false
    → is_lt (then (compare_ℕ k m) q) ≡ false
heads_trans m n k o p q tails h l = ground arith

-- A text that is not before one, which is not before another, is not before that other.
pub compare_trans :
    (s t u : String)
    → is_lt (compare t s) ≡ false
    → is_lt (compare u t) ≡ false
    → is_lt (compare u s) ≡ false
compare_trans String.[] t String.[] h k = refl
compare_trans String.[] t (String.◌∷◌ e u) h k = rw (compare.cons-nil e u) refl
compare_trans (String.◌∷◌ c s) String.[] u h k =
    let no : true ≡ false = rw (compare.nil-cons c s) at h in cc
compare_trans (String.◌∷◌ c s) (String.◌∷◌ d t) String.[] h k =
    let no : true ≡ false = rw (compare.nil-cons d t) at k in cc
compare_trans (String.◌∷◌ c s) (String.◌∷◌ d t) (String.◌∷◌ e u) h k =
    rw (compare.cons-cons e c u s) (
      heads_trans (code c) (code d) (code e) (compare t s) (compare u t) (compare u s)
        (compare_trans s t u) (rw (compare.cons-cons d c t s) at h)
        (rw (compare.cons-cons e d u t) at k))

before_not_after : (o p : Ordering) → o ≡ turned p → is_lt o ≡ true → is_lt p ≡ false
before_not_after o p e h = ground arith

-- A text that is before one is not after it.
pub compare_asym : (s t : String) → is_lt (compare s t) ≡ true → is_lt (compare t s) ≡ false
compare_asym s t = before_not_after (compare s t) (compare t s) (turned-compare s t)
