-- ===== src/Hub/ApiServer/Threads/Effects.antt =====
-- The pointers of threads, which no step of another thread moves.
use fab_dns.Base.{
  ℕ, String, Option, none, some, ◌≡◌, refl, ap, ◌∙◌, ◌==◌, Result, ok, err, Bool-cases,
  Option-cases, inl, inr, eq_iff, [], ◌∷◌,
}
use fab_dns.Base.Map
use fab_dns.Base.Map.{lookup-insert}
use fab_dns.Base.Equality.{string_eq}
use fab_dns.Api.{GlobalService}
use fab_dns.Kube.{ApiError}
use fab_dns.Hub.Clusters.{
  ClusterStore, new, get, modify, set_expire_time, add_service_key, remove_service_key,
}
use fab_dns.Hub.ApiServer.{
  Env, Request, Response, Route, State, heartbeat, get_all_global_services, upload_global_service,
  delete_endpoints, is_complete, upload_response,
}
use fab_dns.Hub.ApiServer.Keys.{accepted, if_complete}
use fab_dns.Hub.ApiServer.Threads.{
  collecting, examining, sweeping, testing, revoking, swept, Phase, arriving, renewing, handling,
  merged, noting, revoked, forgetting, answered, start_decoded, start_upload, start_deletion,
  start_handler, advance,
}

-- The pointer that a thread holds is the one of its cluster.
abbrev pub HoldsPointer : ClusterStore → Phase → Type 0
HoldsPointer store (renewing p now route request) = get request.cluster_name store ≡ some p
HoldsPointer store (noting name p gs response) = get name store ≡ some p
HoldsPointer store (forgetting name p key) = get name store ≡ some p
HoldsPointer store _ = Unit

get-new_old :
    (n name : String) (store : ClusterStore) (q : ℕ)
    → get n store ≡ some q
    → get n (new name store).1 ≡ some q
unfolding new get
get-new_old n name store q h = elim (Option-cases (Map.lookup name store.clusters)) [
  | inr (p, found) ↦ rw (found, new) h
  | inl absent ↦ elim (Bool-cases (name == n)) [
    | inl t ↦
        let same : name ≡ n = (eq_iff name n).0 t in
        let no : ◌≡◌ {A = Option ℕ} none (some q) = rw (← same, absent) at h in cc
    | inr t ↦ rw (absent, new, lookup-insert name n _ store.clusters, t) h
  ]
]

module _ {W : Type 0} (env : Env W) where
  -- An upload that is not accepted is answered at once.
  pub start_upload_refused :
      (name : String) (body : Result String String) (s : State W)
      → accepted env body ≡ none
      → (r : Response) × (start_upload env name body s ≡ (answered r, s))
  unfolding start_upload start_decoded
  start_upload_refused name (err e) s h = (_, refl)
  start_upload_refused name (ok body) s h = go (env.unmarshal body) h
    where
      go :
          (r : Result String GlobalService)
          → if_complete r ≡ none
          → (a : Response) × (start_decoded env name r s ≡ (answered a, s))
      go (err e) k = (_, refl)
      go (ok gs) k = elim (Bool-cases (is_complete gs)) [
        | inl t ↦ let no : ◌≡◌ {A = Option GlobalService} (some gs) none = rw t at k in cc
        | inr t ↦ rw t (_, refl)
      ]

  pub start_upload_taken :
      (name : String) (body : Result String String) (s : State W) (gs : GlobalService)
      → accepted env body ≡ some gs
      → start_upload env name body s ≡ (
        merged name gs (upload_response env (env.create_or_merge_global_service gs s.world).0),
        record s { world = (env.create_or_merge_global_service gs s.world).1 },
      )
  unfolding start_upload start_decoded
  start_upload_taken name (err e) s gs h = cc
  start_upload_taken name (ok body) s gs h = go (env.unmarshal body) h
    where
      go :
          (r : Result String GlobalService)
          → if_complete r ≡ some gs
          → start_decoded env name r s ≡ (
            merged name gs (upload_response env (env.create_or_merge_global_service gs s.world).0),
            record s { world = (env.create_or_merge_global_service gs s.world).1 },
          )
      go (err e) k = cc
      go (ok g) k = elim (Bool-cases (is_complete g)) [
        | inl t ↦
            let same : some g ≡ some gs = rw t at k in let eq : g ≡ gs = cc in rw (eq, ← eq, t) refl
        | inr t ↦ let no : ◌≡◌ {A = Option GlobalService} none (some gs) = rw t at k in cc
      ]

  pub start_handler-store :
      (route : Route) (request : Request) (s : State W)
      → (start_handler env route request s).1.cluster_store ≡ s.cluster_store
  unfolding start_handler start_deletion
  start_handler-store heartbeat request s = refl
  start_handler-store get_all_global_services request s = refl
  start_handler-store upload_global_service request s =
      elim (Option-cases (accepted env request.body)) [
        | inl refused ↦
            ap (λ (r : Phase × State W). r.1.cluster_store)
              (start_upload_refused request.cluster_name request.body s refused).1
        | inr (gs, taken) ↦
            ap (λ (r : Phase × State W). r.1.cluster_store)
              (start_upload_taken request.cluster_name request.body s gs taken)
      ]
  start_handler-store (delete_endpoints namespace name) request s =
      go (env.revoke_global_service request.cluster_name namespace name s.world)
    where
      go :
          (r : Option ApiError × W)
          → (start_deletion env request.cluster_name
              (record { namespace = namespace; name = name })
              r
              s).1.cluster_store
            ≡ s.cluster_store
      go (some e, w) = refl
      go (none, w) = refl

  -- A step moves no pointer.
  pub advance-get :
      (ph : Phase) (s : State W) (n : String) (q : ℕ)
      → get n s.cluster_store ≡ some q
      → get n (advance env ph s).1.cluster_store ≡ some q
  unfolding advance get set_expire_time add_service_key remove_service_key modify
  advance-get (arriving now route request) s n q h =
      elim (Bool-cases (request.cluster_name == "")) [
        | inl t ↦ rw t h
        | inr t ↦ rw t (get-new_old n request.cluster_name s.cluster_store q h)
      ]
  advance-get (renewing p now route request) s n q h = h
  advance-get (handling route request) s n q h =
      ap (λ (store : ClusterStore). get n store) (start_handler-store route request s) ∙ h
  advance-get (merged name gs response) s n q h = get-new_old n name s.cluster_store q h
  advance-get (noting name p gs response) s n q h = h
  advance-get (revoked name key) s n q h = h
  advance-get (forgetting name p key) s n q h = h
  advance-get (answered response) s n q h = h
  advance-get (collecting order collecting_clock clock) s n q h = h
  advance-get (examining collecting_clock clock found []) s n q h = h
  advance-get (examining collecting_clock clock found (x ∷ m)) s n q h = h
  advance-get (sweeping clock ps) s n q h = h
  advance-get (testing clock r c keys ps) s n q h = h
  advance-get (revoking clock r c key keys ps) s n q h = h
  advance-get swept s n q h = h

  pub advance-HoldsPointer :
      (ph other : Phase) (s : State W)
      → HoldsPointer s.cluster_store other
      → HoldsPointer (advance env ph s).1.cluster_store other
  advance-HoldsPointer ph (renewing p now route request) s h =
      advance-get ph s request.cluster_name p h
  advance-HoldsPointer ph (noting name p gs response) s h = advance-get ph s name p h
  advance-HoldsPointer ph (forgetting name p key) s h = advance-get ph s name p h
  advance-HoldsPointer ph (arriving now route request) s h = tt
  advance-HoldsPointer ph (handling route request) s h = tt
  advance-HoldsPointer ph (merged name gs response) s h = tt
  advance-HoldsPointer ph (revoked name key) s h = tt
  advance-HoldsPointer ph (answered response) s h = tt
  advance-HoldsPointer ph (collecting order collecting_clock clock) s h = tt
  advance-HoldsPointer ph (examining collecting_clock clock found m) s h = tt
  advance-HoldsPointer ph (sweeping clock ps) s h = tt
  advance-HoldsPointer ph (testing clock p c keys ps) s h = tt
  advance-HoldsPointer ph (revoking clock p c key keys ps) s h = tt
  advance-HoldsPointer ph swept s h = tt
