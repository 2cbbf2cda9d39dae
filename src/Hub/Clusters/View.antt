-- ===== src/Hub/Clusters/View.antt =====
-- The store as a map from names to clusters: each operation through a pointer that `New` or `Get`
-- returned is an operation on one entry.
use fab_dns.Base.{
  ℕ, String, false, [], ◌∷◌, ◌++◌, Option, none, some, ◌≡◌, refl, sym, ap, ◌∙◌, arith, length,
  nat_beq, if◌then◌else◌, ◌==◌, eq_iff, eq_refl, inl, inr, Bool-cases, Option-cases, In,
}
use fab_dns.Base.Map
use fab_dns.Base.Map.{lookup-insert, lookup-delete}
use fab_dns.Base.Entries.{lookup-In, In-insert, In-delete}
use fab_dns.Base.Equality.{string_eq}
use fab_dns.Hub.Clusters.{Cluster, ClusterStore, deref, modify, new, get, remove, fresh_cluster}
use fab_dns.Hub.Clusters.Heap.{map_cluster, get_elem?-write_heap, get_elem?-alloc, get_elem?-old}

-- Every pointer in the store leads to a cluster of the name under which it is stored.
pub record IsWf (store : ClusterStore) : Type 0 where
  pub named :
      (j : String) (p : ℕ)
      → In (j, p) store.clusters
      → (c : Cluster) × (deref store p ≡ some c) × (c.name ≡ j)

abbrev deref_at : ClusterStore → Option ℕ → Option Cluster
deref_at store none = none
deref_at store (some p) = deref store p

abbrev pub cluster_or : Cluster → Option Cluster → Cluster
cluster_or c none = c
cluster_or c (some d) = d

-- The cluster of a name.
unfoldable pub view : String → ClusterStore → Option Cluster
view name store = deref_at store (Map.lookup name store.clusters)

module _ (store : ClusterStore) (wf : IsWf store) where
  -- A write that leaves the name alone.
  pub modify-IsWf :
      (p : ℕ) (f : Cluster → Cluster)
      → ((c : Cluster) → (f c).name ≡ c.name)
      → IsWf (modify p f store)
  unfolding modify
  modify-IsWf p f keeps = record {
    named = λ j q i.
        let (c, found, same) = wf.named j q i in
        elim (Bool-cases (nat_beq p q)) [
          | inl t ↦ (f c, get_elem?-write_heap p q f store.heap ∙ (rw (t, found)), keeps c ∙ same)
          | inr t ↦ (c, get_elem?-write_heap p q f store.heap ∙ (rw (t, found)), same)
        ];
  }

  -- In a store whose pointers lead to clusters of their names, a write through the pointer that `Get`
  -- returns for a name changes the cluster of that name, and no other.
  pub view-modify :
      (p : ℕ) (f : Cluster → Cluster) (name j : String)
      → get name store ≡ some p
      → view j (modify p f store)
        ≡ (if name == j then map_cluster f (view j store) else view j store)
  unfolding modify view get
  view-modify p f name j got = elim (Option-cases (Map.lookup j store.clusters)) [
    | inl absent ↦ rw absent (ground arith)
    | inr (q, found) ↦
        let (c, at_p, is_name) = wf.named name p (lookup-In name p store.clusters got) in
        let (d, at_q, is_j) = wf.named j q (lookup-In j q store.clusters found) in
        rw found (
          get_elem?-write_heap p q f store.heap ∙ (elim (Bool-cases (nat_beq p q)) [
            | inl t ↦
                let one : p ≡ q = ground arith in
                let same : name ≡ j = cc in rw (t, same, eq_refl j) refl
            | inr t ↦
                let differ : (name == j) ≡ false = ground (
                  arith,
                  eq_iff name j,
                  found,
                  got,
                  λ (s : name ≡ j). ap (λ (n : String). Map.lookup n store.clusters) s,
                ) in
                rw (t, differ) refl
          ]))
  ]

  pub new-IsWf : (name : String) → IsWf (new name store).1
  unfolding new
  new-IsWf name = elim (Option-cases (Map.lookup name store.clusters)) [
    | inr (p, found) ↦ rw (found, new) wf
    | inl absent ↦
        rw (absent, new)
          (record {
            named = λ j p i. elim (In-insert name j (length store.heap) p store.clusters i) [
              | inl (same, at) ↦ (
                fresh_cluster name,
                rw (← at) (get_elem?-alloc store.heap (fresh_cluster name)),
                same,
              )
              | inr old ↦
                  let (c, found, is) = wf.named j p old in
                  (c, get_elem?-old store.heap (fresh_cluster name) c p found, is)
            ];
          })
  ]

  -- The pointer that `New` returns is the one that `Get` returns from then on.
  pub get-new : (name : String) → get name (new name store).1 ≡ some (new name store).0
  unfolding new get
  get-new name = elim (Option-cases (Map.lookup name store.clusters)) [
    | inr (p, found) ↦ rw (found, new) found
    | inl absent ↦
        rw (absent, new)
          (lookup-insert name name (length store.heap) store.clusters ∙ (rw (eq_refl name) refl))
  ]

  pub new_present :
      (name : String) (s : ClusterStore) (p : ℕ) → get name s ≡ some p → new name s ≡ (p, s)
  unfolding new get
  new_present name s p h = rw (h, new) refl

  -- A second `New` of a name returns the same pointer and changes nothing.
  pub new-new :
      (name : String) → new name (new name store).1 ≡ ((new name store).0, (new name store).1)
  new-new name = new_present name (new name store).1 (new name store).0 (get-new name)

  view-new_absent :
      (name j : String)
      → Map.lookup name store.clusters ≡ none
      → view j (record {
        clusters = Map.insert name (length store.heap) store.clusters;
        heap = store.heap ++ fresh_cluster name ∷ [];
      })
        ≡ (if name == j then some (fresh_cluster name) else view j store)
  unfolding view
  view-new_absent name j absent =
      rw (lookup-insert name j (length store.heap) store.clusters) (elim (Bool-cases (name == j)) [
        | inl t ↦ rw t (get_elem?-alloc store.heap (fresh_cluster name))
        | inr t ↦ rw t (elim (Option-cases (Map.lookup j store.clusters)) [
          | inl none_j ↦ rw none_j refl
          | inr (q, found) ↦
              let (d, at_q, is_j) = wf.named j q (lookup-In j q store.clusters found) in
              rw found (get_elem?-old store.heap (fresh_cluster name) d q at_q ∙ sym at_q)
        ])
      ])

  -- In a store whose pointers lead to clusters of their names, after `New` the cluster of the name is
  -- the one that was there, or one with no keys and the zero expire time if there was none, and every
  -- other name has what it had.
  pub view-new :
      (name j : String)
      → view j (new name store).1 ≡ (
          if name == j
          then some (cluster_or (fresh_cluster name) (view name store))
          else view j store)
  unfolding new
  view-new name j = elim (Option-cases (Map.lookup name store.clusters)) [
    | inr (p, found) ↦
        let (c, at_p, is_name) = wf.named name p (lookup-In name p store.clusters found) in
        let seen : view name store ≡ some c = unfold view in rw found at_p in
        rw (found, new, seen)
          (elim (Bool-cases (name == j)) [
            | inl t ↦ let same : name ≡ j = (eq_iff name j).0 t in rw (t, ← same) seen
            | inr t ↦ rw t refl
          ])
    | inl absent ↦
        let unseen : view name store ≡ none = unfold view in rw absent refl in
        rw (absent, new, unseen) (view-new_absent name j absent)
  ]

  pub remove-IsWf : (name : String) → IsWf (remove name store)
  unfolding remove
  remove-IsWf name = record { named = λ j p i. wf.named j p (In-delete name j p store.clusters i) }

  pub view-remove :
      (name j : String) → view j (remove name store) ≡ (if name == j then none else view j store)
  unfolding remove view
  view-remove name j =
      rw (lookup-delete name j store.clusters)
        (elim (Bool-cases (name == j)) [ inl t ↦ rw t refl | inr t ↦ rw t refl ])
