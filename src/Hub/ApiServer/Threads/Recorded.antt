-- ===== src/Hub/ApiServer/Threads/Recorded.antt =====
-- The keys of a cluster, which change only when a thread adds or removes one.
use fab_dns.Base.{
  ℕ, String, Option, none, some, ◌≡◌, refl, sym, ap, ◌∙◌, if◌then◌else◌, ◌==◌, Bool-cases,
  Option-cases, inl, inr, eq_iff, [], ◌∷◌,
}
use fab_dns.Base.Entries.{lookup-In}
use fab_dns.Base.Equality.{string_eq}
use fab_dns.Api.{key_of}
use fab_dns.Kube.{ApiError}
use fab_dns.Hub.KeySet
use fab_dns.Hub.KeySet.{ObjectKeySet}
use fab_dns.Hub.Clusters.{
  Cluster, ClusterStore, new, get, modify, set_expire_time, add_service_key, remove_service_key,
  fresh_cluster,
}
use fab_dns.Hub.Clusters.Heap.{map_cluster}
use fab_dns.Hub.Clusters.View.{
  IsWf, view, cluster_or, modify-IsWf, new-IsWf, get-new, view-new, view-modify,
}
use fab_dns.Hub.ApiServer.{
  Env, Request, Route, State, heartbeat, get_all_global_services, upload_global_service,
  delete_endpoints,
}
use fab_dns.Hub.ApiServer.Keys.{accepted}
use fab_dns.Hub.ApiServer.Covered.{keys_of}
use fab_dns.Hub.ApiServer.Threads.{
  collecting, examining, sweeping, testing, revoking, swept, Phase, arriving, renewing, handling,
  merged, noting, revoked, forgetting, answered, start_deletion, start_handler, forget, advance,
}
use fab_dns.Hub.ApiServer.Threads.Sweeping.{next_cluster_cases, next_key_cases}
use fab_dns.Hub.ApiServer.Threads.Effects.{
  HoldsPointer, start_handler-store, start_upload_refused, start_upload_taken,
}

view_present :
    (name : String) (store : ClusterStore) (p : ℕ)
    → IsWf store
    → get name store ≡ some p
    → (c : Cluster) × (view name store ≡ some c)
unfolding get view
view_present name store p wf h =
    let (c, at_p, is) = wf.named name p (lookup-In name p store.clusters h) in (c, rw h at_p)

abbrev keys_in : String → Option Cluster → ObjectKeySet
keys_in name o = (cluster_or (fresh_cluster name) o).service_key_set

keys_of-new :
    (name n : String) (store : ClusterStore)
    → IsWf store
    → keys_of name (new n store).1 ≡ keys_of name store
keys_of-new name n store wf =
    ap (keys_in name) (view-new store wf n name) ∙ (elim (Bool-cases (n == name)) [
      | inl t ↦ rw t (
          ap (λ (m : String). (cluster_or (fresh_cluster m) (view m store)).service_key_set)
            ((eq_iff n name).0 t))
      | inr t ↦ rw t refl
    ])

-- A write through the pointer of a cluster.
keys_of-modify :
    (name n : String) (store : ClusterStore) (p : ℕ) (f : Cluster → Cluster)
    (g : ObjectKeySet → ObjectKeySet)
    → IsWf store
    → get n store ≡ some p
    → ((c : Cluster) → (f c).service_key_set ≡ g c.service_key_set)
    → keys_of name (modify p f store)
      ≡ (if n == name then g (keys_of name store) else keys_of name store)
keys_of-modify name n store p f g wf h writes =
    ap (keys_in name) (view-modify store wf p f n name h) ∙ (elim (Bool-cases (n == name)) [
      | inl t ↦
          let (c, seen) = view_present n store p wf h in
          let here : view name store ≡ some c =
            ap (λ (m : String). view m store) (sym ((eq_iff n name).0 t)) ∙ seen in
          rw t (
            ap (λ (o : Option Cluster). keys_in name (map_cluster f o)) here
            ∙ writes c
            ∙ ap (λ (o : Option Cluster). g (keys_in name o)) (sym here))
      | inr t ↦ rw t refl
    ])

-- What the step of a thread does to the keys of a cluster.
abbrev pub note : String → Phase → ObjectKeySet → ObjectKeySet
note name (noting n p gs response) keys = if n == name then KeySet.add (key_of gs) keys else keys
note name (forgetting n p key) keys = if n == name then KeySet.delete key keys else keys
note name _ keys = keys

module _ {W : Type 0} (env : Env W) where
  pub advance-IsWf :
      (ph : Phase) (s : State W) → IsWf s.cluster_store → IsWf (advance env ph s).1.cluster_store
  unfolding advance set_expire_time add_service_key remove_service_key
  advance-IsWf (arriving now route request) s wf = elim (Bool-cases (request.cluster_name == "")) [
    | inl t ↦ rw t wf
    | inr t ↦ rw t (new-IsWf s.cluster_store wf request.cluster_name)
  ]
  advance-IsWf (renewing p now route request) s wf = modify-IsWf s.cluster_store wf p _ (λ c. refl)
  advance-IsWf (handling route request) s wf = rw (start_handler-store env route request s) wf
  advance-IsWf (merged name gs response) s wf = new-IsWf s.cluster_store wf name
  advance-IsWf (noting name p gs response) s wf = modify-IsWf s.cluster_store wf p _ (λ c. refl)
  advance-IsWf (revoked name key) s wf = wf
  advance-IsWf (forgetting name p key) s wf = modify-IsWf s.cluster_store wf p _ (λ c. refl)
  advance-IsWf (answered response) s wf = wf
  advance-IsWf (collecting order collecting_clock clock) s wf = wf
  advance-IsWf (examining collecting_clock clock found []) s wf = wf
  advance-IsWf (examining collecting_clock clock found (x ∷ m)) s wf = wf
  advance-IsWf (sweeping clock ps) s wf = wf
  advance-IsWf (testing clock p c keys ps) s wf = wf
  advance-IsWf (revoking clock p c key keys ps) s wf = wf
  advance-IsWf swept s wf = wf

  started-HoldsPointer :
      (route : Route) (request : Request) (s : State W)
      → HoldsPointer s.cluster_store (start_handler env route request s).0
  unfolding start_handler start_deletion
  started-HoldsPointer heartbeat request s = tt
  started-HoldsPointer get_all_global_services request s = tt
  started-HoldsPointer upload_global_service request s =
      elim (Option-cases (accepted env request.body)) [
        | inl refused ↦
            rw (start_upload_refused env request.cluster_name request.body s refused).1 tt
        | inr (gs, taken) ↦
            rw (start_upload_taken env request.cluster_name request.body s gs taken) tt
      ]
  started-HoldsPointer (delete_endpoints namespace name) request s =
      go (env.revoke_global_service request.cluster_name namespace name s.world)
    where
      go :
          (r : Option ApiError × W)
          → HoldsPointer s.cluster_store
              (start_deletion env request.cluster_name
                (record { namespace = namespace; name = name })
                r
                s).0
      go (some e, w) = tt
      go (none, w) = tt

  -- The step of a thread leaves it with the pointer of its cluster.
  pub advanced-HoldsPointer :
      (ph : Phase) (s : State W)
      → IsWf s.cluster_store
      → HoldsPointer (advance env ph s).1.cluster_store (advance env ph s).0
  unfolding advance
  advanced-HoldsPointer (arriving now route request) s wf =
      elim (Bool-cases (request.cluster_name == "")) [
        | inl t ↦ rw t tt
        | inr t ↦ rw t (get-new s.cluster_store wf request.cluster_name)
      ]
  advanced-HoldsPointer (renewing p now route request) s wf = tt
  advanced-HoldsPointer (handling route request) s wf =
      rw (start_handler-store env route request s) (started-HoldsPointer route request s)
  advanced-HoldsPointer (merged name gs response) s wf = get-new s.cluster_store wf name
  advanced-HoldsPointer (noting name p gs response) s wf = tt
  advanced-HoldsPointer (revoked name key) s wf = go (get name s.cluster_store) refl
    where
      go :
          (o : Option ℕ)
          → get name s.cluster_store ≡ o
          → HoldsPointer s.cluster_store (forget env name o key)
      go none e = tt
      go (some p) e = e
  advanced-HoldsPointer (forgetting name p key) s wf = tt
  advanced-HoldsPointer (answered response) s wf = tt
  advanced-HoldsPointer (collecting order collecting_clock clock) s wf = tt
  advanced-HoldsPointer (examining collecting_clock clock found []) s wf = tt
  advanced-HoldsPointer (examining collecting_clock clock found (x ∷ m)) s wf = tt
  advanced-HoldsPointer (sweeping clock ps) s wf =
      next_cluster_cases (HoldsPointer s.cluster_store) (λ _ _. tt) (λ _ _ _ _ _. tt) tt clock ps
        s.cluster_store
  advanced-HoldsPointer (testing clock p c keys ps) s wf =
      next_key_cases (HoldsPointer s.cluster_store) (λ _ _. tt) (λ _ _ _ _ _ _. tt) clock p c keys
        ps s.cluster_store
  advanced-HoldsPointer (revoking clock p c key keys ps) s wf = tt
  advanced-HoldsPointer swept s wf = tt

  pub advance-keys_of :
      (name : String) (ph : Phase) (s : State W)
      → IsWf s.cluster_store
      → HoldsPointer s.cluster_store ph
      → keys_of name (advance env ph s).1.cluster_store
        ≡ note name ph (keys_of name s.cluster_store)
  unfolding advance set_expire_time add_service_key remove_service_key
  advance-keys_of name (arriving now route request) s wf h =
      elim (Bool-cases (request.cluster_name == "")) [
        | inl t ↦ rw t refl
        | inr t ↦ rw t (keys_of-new name request.cluster_name s.cluster_store wf)
      ]
  advance-keys_of name (renewing p now route request) s wf h =
      keys_of-modify name request.cluster_name s.cluster_store p _ (λ keys. keys) wf h (λ c. refl)
      ∙ (elim (Bool-cases (request.cluster_name == name)) [ inl t ↦ rw t refl | inr t ↦ rw t refl ])
  advance-keys_of name (handling route request) s wf h =
      ap (keys_of name) (start_handler-store env route request s)
  advance-keys_of name (merged n gs response) s wf h = keys_of-new name n s.cluster_store wf
  advance-keys_of name (noting n p gs response) s wf h =
      keys_of-modify name n s.cluster_store p _ (KeySet.add (key_of gs)) wf h (λ c. refl)
  advance-keys_of name (revoked n key) s wf h = refl
  advance-keys_of name (forgetting n p key) s wf h =
      keys_of-modify name n s.cluster_store p _ (KeySet.delete key) wf h (λ c. refl)
  advance-keys_of name (answered response) s wf h = refl
  advance-keys_of name (collecting order collecting_clock clock) s wf h = refl
  advance-keys_of name (examining collecting_clock clock found []) s wf h = refl
  advance-keys_of name (examining collecting_clock clock found (x ∷ m)) s wf h = refl
  advance-keys_of name (sweeping clock ps) s wf h = refl
  advance-keys_of name (testing clock p c keys ps) s wf h = refl
  advance-keys_of name (revoking clock p c key keys ps) s wf h = refl
  advance-keys_of name swept s wf h = refl
