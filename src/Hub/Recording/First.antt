-- ===== src/Hub/Recording/First.antt =====
-- Which keys are recorded.
use fab_dns.Base.{
  ℕ, ℤ, String, Bool, true, false, List, [], ◌∷◌, Option, none, some, ◌≡◌, refl, sym, ◌∙◌, ap,
  arith, any, ◌||◌, if◌then◌else◌, ◌==◌, eq_iff, ok, Bool-cases, Option-cases, inl, inr,
}
use fab_dns.Base.Equality.{string_eq}
use fab_dns.Api.{Endpoint, GlobalService, ObjectKey, key_of}
use fab_dns.Hub.KeySet
use fab_dns.Hub.KeySet.{ObjectKeySet}
use fab_dns.Hub.Clusters.{
  add_duration, Cluster, ClusterStore, Time, get, new, set_expire_time, add_service_key,
}
use fab_dns.Base.Entries.{lookup-In}
use fab_dns.Hub.Clusters.View.{IsWf, view, modify-IsWf}
use fab_dns.Hub.Clusters.Upserts.{upsert-IsWf, view-modify-upsert, get-upsert}
use fab_dns.Hub.Manager.Removal.{is_from}
use fab_dns.Hub.Recording.{
  State, create, record_endpoint, record_endpoints, record_services,
  record_global_services_by_cluster,
}

-- The keys recorded for a cluster, if it is in the store.
abbrev keys_in : Option Cluster → Option ObjectKeySet
keys_in none = none
keys_in (some c) = some c.service_key_set

abbrev pub keys_of : String → ClusterStore → Option ObjectKeySet
keys_of name store = keys_in (view name store)

-- The first service with an endpoint of the cluster, as the set of its key.
abbrev pub first_key : String → List GlobalService → Option ObjectKeySet
first_key name [] = none
first_key name (gs ∷ items) =
    if any (is_from name) gs.spec.endpoints
    then some (KeySet.add (key_of gs) KeySet.new_object_key_set)
    else first_key name items

-- What was there, or else the second.
abbrev pub or_else : Option ObjectKeySet → Option ObjectKeySet → Option ObjectKeySet
or_else none o = o
or_else (some keys) o = some keys

or_else_nothing : (o : Option ObjectKeySet) → or_else o none ≡ o
or_else_nothing none = refl
or_else_nothing (some keys) = refl

or_else_if :
    (a o : Option ObjectKeySet) (p : Bool) (keys : ObjectKeySet)
    → or_else (or_else a (if p then some keys else none)) o ≡ or_else a (if p then some keys else o)
or_else_if none o true keys = refl
or_else_if none o false keys = refl
or_else_if (some k) o p keys = refl

or_if :
    (p q : Bool) (keys : ObjectKeySet)
    → ◌≡◌ {A = Option ObjectKeySet}
        (if p then some keys else if q then some keys else none)
        (if p || q then some keys else none)
or_if true q keys = refl
or_if false q keys = refl

-- The set of one key.
abbrev only : ObjectKey → ObjectKeySet
only key = KeySet.add key KeySet.new_object_key_set

view-absent :
    (name : String) (store : ClusterStore) → get name store ≡ none → view name store ≡ none
unfolding view get
view-absent name store h = rw h refl

view-present :
    (name : String) (store : ClusterStore) (p : ℕ)
    → IsWf store
    → get name store ≡ some p
    → (c : Cluster) × (view name store ≡ some c)
unfolding view get
view-present name store p wf h =
    let (c, found, is) = wf.named name p (lookup-In name p store.clusters h) in (c, rw h found)

module _ (here : String) (cluster_expire_time : ℤ) (clock : ℕ → Time) where
  create-IsWf :
      (name : String) (key : ObjectKey) (s : State)
      → IsWf s.cluster_store
      → IsWf (create here cluster_expire_time clock name key s).cluster_store
  unfolding set_expire_time add_service_key
  create-IsWf name key s wf =
      modify-IsWf _ (upsert-IsWf s.cluster_store wf name _ (λ c. refl)) (new name s.cluster_store).0
        _ (λ c. refl)

  create-keys :
      (name j : String) (key : ObjectKey) (s : State)
      → IsWf s.cluster_store
      → get name s.cluster_store ≡ none
      → keys_of j (create here cluster_expire_time clock name key s).cluster_store
        ≡ (if name == j then some (only key) else keys_of j s.cluster_store)
  unfolding set_expire_time add_service_key
  create-keys name j key s wf absent =
      ap keys_in (
        view-modify-upsert s.cluster_store wf name j
          (λ c. record c { expire_time = add_duration (clock s.readings) cluster_expire_time })
          (λ c. record c { service_key_set = KeySet.add key c.service_key_set }) (λ c. refl)
          (new name s.cluster_store).0 (get-upsert s.cluster_store wf name _))
      ∙ rw (view-absent name s.cluster_store absent)
          (elim (Bool-cases (name == j)) [ inl t ↦ rw t refl | inr t ↦ rw t refl ])

  record_endpoint-IsWf :
      (key : ObjectKey) (e : Endpoint) (s : State)
      → IsWf s.cluster_store
      → IsWf (record_endpoint here cluster_expire_time clock key e s).cluster_store
  unfolding record_endpoint
  record_endpoint-IsWf key e s wf = elim (Bool-cases (e.cluster == here)) [
    | inl t ↦ rw t wf
    | inr t ↦ rw t (elim (Option-cases (get e.cluster s.cluster_store)) [
      | inl absent ↦ rw absent (create-IsWf e.cluster key s wf)
      | inr (p, found) ↦ rw found wf
    ])
  ]

  record_endpoints-IsWf :
      (key : ObjectKey) (es : List Endpoint) (s : State)
      → IsWf s.cluster_store
      → IsWf (record_endpoints here cluster_expire_time clock key es s).cluster_store
  unfolding record_endpoints
  record_endpoints-IsWf key [] s wf = wf
  record_endpoints-IsWf key (e ∷ es) s wf =
      record_endpoints-IsWf key es _ (record_endpoint-IsWf key e s wf)

  module _ (name : String) (elsewhere : (name == here) ≡ false) where
    record_endpoint-keys :
        (key : ObjectKey) (e : Endpoint) (s : State)
        → IsWf s.cluster_store
        → keys_of name (record_endpoint here cluster_expire_time clock key e s).cluster_store
          ≡ or_else
              (keys_of name s.cluster_store)
              (if is_from name e then some (only key) else none)
    unfolding record_endpoint
    record_endpoint-keys key e s wf = elim (Bool-cases (e.cluster == here)) [
      | inl t ↦
          let other : (e.cluster == name) ≡ false =
            ground
              (arith, eq_iff e.cluster here, eq_iff e.cluster name, eq_iff name here, elsewhere) in
          rw (t, other) (sym (or_else_nothing (keys_of name s.cluster_store)))
      | inr t ↦ rw t (elim (Option-cases (get e.cluster s.cluster_store)) [
        | inl absent ↦
            rw (absent, create-keys e.cluster name key s wf absent)
              (elim (Bool-cases (e.cluster == name)) [
                | inl u ↦
                    let same : e.cluster ≡ name = (eq_iff e.cluster name).0 u in
                    rw (u, view-absent name s.cluster_store (rw same at absent)) refl
                | inr u ↦ rw u (sym (or_else_nothing (keys_of name s.cluster_store)))
              ])
        | inr (p, found) ↦ rw found (elim (Bool-cases (e.cluster == name)) [
          | inl u ↦
              let same : e.cluster ≡ name = (eq_iff e.cluster name).0 u in
              let (c, seen) = view-present name s.cluster_store p wf (rw same at found) in
              rw (u, seen) refl
          | inr u ↦ rw u (sym (or_else_nothing (keys_of name s.cluster_store)))
        ])
      ])
    ]

    record_endpoints-keys :
        (key : ObjectKey) (es : List Endpoint) (s : State)
        → IsWf s.cluster_store
        → keys_of name (record_endpoints here cluster_expire_time clock key es s).cluster_store
          ≡ or_else
              (keys_of name s.cluster_store)
              (if any (is_from name) es then some (only key) else none)
    unfolding record_endpoints
    record_endpoints-keys key [] s wf = sym (or_else_nothing (keys_of name s.cluster_store))
    record_endpoints-keys key (e ∷ es) s wf =
        record_endpoints-keys key es _ (record_endpoint-IsWf key e s wf)
        ∙ rw
            (
              record_endpoint-keys key e s wf,
              or_else_if (keys_of name s.cluster_store)
                  (if any (is_from name) es then some (only key) else none) (is_from name e)
                  (only key),
              or_if (is_from name e) (any (is_from name) es) (only key),
            )
            refl

    record_services-keys :
        (items : List GlobalService) (s : State)
        → IsWf s.cluster_store
        → keys_of name (record_services here cluster_expire_time clock items s).cluster_store
          ≡ or_else (keys_of name s.cluster_store) (first_key name items)
    unfolding record_services
    record_services-keys [] s wf = sym (or_else_nothing (keys_of name s.cluster_store))
    record_services-keys (gs ∷ items) s wf =
        record_services-keys items _ (record_endpoints-IsWf (key_of gs) gs.spec.endpoints s wf)
        ∙ rw (record_endpoints-keys (key_of gs) gs.spec.endpoints s wf) (
            or_else_if (keys_of name s.cluster_store) (first_key name items)
              (any (is_from name) gs.spec.endpoints) (only (key_of gs)))

    -- From a store whose pointers lead to clusters of their names, and for any cluster but that of the
    -- hub: if the cluster was in the store, it keeps the keys that it had; if not, and some listed
    -- service has an endpoint of it, its keys are that of the first such service alone; and otherwise it
    -- is not in the store.
    pub record_global_services_by_cluster-first_key :
        (items : List GlobalService) (s : State)
        → IsWf s.cluster_store
        → keys_of name
            (record_global_services_by_cluster here cluster_expire_time clock
              (ok items)
              s).cluster_store
          ≡ or_else (keys_of name s.cluster_store) (first_key name items)
    unfolding record_global_services_by_cluster
    record_global_services_by_cluster-first_key = record_services-keys
