-- ===== src/Base/Entries.antt =====
-- The entries of a map, as occurrences in its list.
use mathlib.Core.Path.{◌≡◌, sym, ap}
use mathlib.Core.Logic.{◌⊎◌, inl, inr}
use mathlib.Core.Option.{some}
use mathlib.Core.List.{List, [], ◌∷◌}
use fab_dns.Base.Tests.{Bool-cases}
use fab_dns.Base.Lists.{In}
use fab_dns.Base.Equality.{Eq}
use fab_dns.Base.Map.{lookup, insert, delete}

module _ {K V : Type 0} ⦃e : Eq K⦄ where
  pub lookup-In : (k : K) (v : V) (m : List (K × V)) → lookup k m ≡ some v → In (k, v) m
  unfolding lookup
  lookup-In k v [] h = cc
  lookup-In k v ((j, w) ∷ m) h = elim (Bool-cases (e.beq j k)) [
    | inl t ↦
        let same : j ≡ k = (e.beq_iff j k).0 t in
        let found : some w ≡ some v = rw t at h in inl (cc)
    | inr t ↦ inr (lookup-In k v m (rw t at h))
  ]

  -- The first entry of an insertion, and the others.
  inserted_here :
      (k j : K) (v w : V) (x : K × V) (m : List (K × V))
      → (◌≡◌ {A = K × V} (j, w) (k, v)) ⊎ In (j, w) m
      → (k ≡ j) × (v ≡ w) ⊎ In (j, w) (x ∷ m)
  inserted_here k j v w x m (inl p) =
      inl (sym (ap (λ (y : K × V). y.0) p), sym (ap (λ (y : K × V). y.1) p))
  inserted_here k j v w x m (inr p) = inr (inr p)

  inserted_later :
      (k j : K) (v w : V) (x : K × V) (m l : List (K × V))
      → (In (j, w) l → (k ≡ j) × (v ≡ w) ⊎ In (j, w) m)
      → (◌≡◌ {A = K × V} (j, w) x) ⊎ In (j, w) l
      → (k ≡ j) × (v ≡ w) ⊎ In (j, w) (x ∷ m)
  inserted_later k j v w x m l ih (inl p) = inr (inl p)
  inserted_later k j v w x m l ih (inr p) = elim (ih p) [ inl s ↦ inl s | inr s ↦ inr (inr s) ]

  pub In-insert :
      (k j : K) (v w : V) (m : List (K × V))
      → In (j, w) (insert k v m)
      → (k ≡ j) × (v ≡ w) ⊎ In (j, w) m
  unfolding insert
  In-insert k j v w [] (inl p) =
      inl (sym (ap (λ (y : K × V). y.0) p), sym (ap (λ (y : K × V). y.1) p))
  In-insert k j v w [] (inr p) = absurd p
  In-insert k j v w ((i, u) ∷ m) h = elim (Bool-cases (e.beq i k)) [
    | inl t ↦ inserted_here k j v w (i, u) m (rw t at h)
    | inr t ↦ inserted_later k j v w (i, u) m (insert k v m) (In-insert k j v w m) (rw t at h)
  ]

  deleted_later :
      (j : K) (w : V) (x : K × V) (m l : List (K × V))
      → (In (j, w) l → In (j, w) m)
      → (◌≡◌ {A = K × V} (j, w) x) ⊎ In (j, w) l
      → In (j, w) (x ∷ m)
  deleted_later j w x m l ih (inl p) = inl p
  deleted_later j w x m l ih (inr p) = inr (ih p)

  pub In-delete : (k j : K) (w : V) (m : List (K × V)) → In (j, w) (delete k m) → In (j, w) m
  unfolding delete
  In-delete k j w [] h = h
  In-delete k j w ((i, u) ∷ m) h = elim (Bool-cases (e.beq i k)) [
    | inl t ↦ inr (In-delete k j w m (rw t at h))
    | inr t ↦ deleted_later j w (i, u) m (delete k m) (In-delete k j w m) (rw t at h)
  ]
