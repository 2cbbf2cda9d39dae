-- ===== src/Hub/ApiServer/Threads/Phases.antt =====
-- What a thread brings from one step to the next, for a cell of the table.
use fab_dns.Base.{
  if◌then◌else◌, ℕ, String, Bool, true, false, List, [], Option, none, some, ◌≡◌, refl, sym, ◌∙◌,
  ◌==◌, Bool-cases, inl, inr, ◌∷◌,
}
use fab_dns.Base.Equality.{string_eq}
use fab_dns.Api.{Endpoint, ObjectKey}
use fab_dns.Kube.{Client, ClientLaws}
use fab_dns.Hub.Manager.{revoke_global_service}
use fab_dns.Hub.Manager.Revoking.{IsRead, revoke-exported_by}
use fab_dns.Hub.Clusters.{Time, get}
use fab_dns.Hub.Clusters.View.{IsWf}
use fab_dns.Hub.ApiServer.{
  Env, Request, Route, State, heartbeat, get_all_global_services, upload_global_service,
  delete_endpoints,
}
use fab_dns.Hub.ApiServer.Traces.{trace_server}
use fab_dns.Hub.ApiServer.Threads.{
  collecting, examining, sweeping, testing, revoking, swept, Phase, arriving, renewing, handling,
  merged, noting, revoked, forgetting, answered, start_handler, forget, advance,
}
use fab_dns.Hub.ApiServer.Threads.Sweeping.{next_cluster_cases, next_key_cases}
use fab_dns.Hub.ApiServer.Threads.Effects.{HoldsPointer}
use fab_dns.Hub.ApiServer.Threads.Recorded.{advanced-HoldsPointer}
use fab_dns.Hub.ApiServer.Threads.Cells.{
  IsFine, IsOwnPhase, is_cell, is_forgetting, is_uploading, uploads_at, is_deleting, deletes_at,
  cell, IsStarted, start_handler-IsStarted,
}

module _ {W : Type 0} (cli : Client W) (laws : ClientLaws cli) (allow : Bool) (plain : Env W)
    (readable : (k : ObjectKey) (w : W) → IsRead (cli.get k w).0)
    (revokes : (by : String) (k : ObjectKey) (w : W)
      → (revoke_global_service cli by k.namespace k.name w).0 ≡ none)
    (j : ObjectKey) (name : String) where
  abbrev pub server : Env W
  server = trace_server cli laws allow plain

  abbrev pub cell_in : State W → List Endpoint
  cell_in = cell cli laws allow plain readable j name

  -- What holds of each thread: it has the pointer of its cluster, brings what is its cluster's, and
  -- removes the key of the cell only when that is empty.
  abbrev pub IsGood : State W → Phase → Type 0
  IsGood s ph =
      HoldsPointer s.cluster_store ph
      × IsOwnPhase server ph
      × (is_forgetting j name ph ≡ true → cell_in s ≡ [])

  module _ (s : State W) where
    pub started :
        (route : Route) (request : Request)
        → IsOwnPhase server (handling route request)
        → IsFine (start_handler server route request s).0
        → IsStarted cli laws allow plain readable j name route request s
            (start_handler server route request s)
    started route request =
        start_handler-IsStarted cli laws allow plain readable j name route request s

    pub advance-is_uploading :
        (ph : Phase)
        → IsOwnPhase server ph
        → IsFine (advance server ph s).0
        → is_uploading j name server ph ≡ false
        → is_uploading j name server (advance server ph s).0 ≡ false
    unfolding advance
    advance-is_uploading (arriving now route request) own fine h =
        elim (Bool-cases (request.cluster_name == "")) [ inl t ↦ rw t h | inr t ↦ rw t h ]
    advance-is_uploading (renewing p now route request) own fine h = h
    advance-is_uploading (handling route request) own fine h =
        let r = started route request own fine in r.uploading ∙ r.to_record ∙ h
    advance-is_uploading (merged n gs response) own fine h = h
    advance-is_uploading (noting n p gs response) own fine h = refl
    advance-is_uploading (revoked n key) own fine h = go (get n s.cluster_store)
      where
        go : (o : Option ℕ) → is_uploading j name server (forget server n o key) ≡ false
        go none = refl
        go (some p) = refl
    advance-is_uploading (forgetting n p key) own fine h = refl
    advance-is_uploading (answered response) own fine h = refl
    advance-is_uploading (collecting order collecting_clock clock) own fine h = refl
    advance-is_uploading (examining collecting_clock clock found []) own fine h = refl
    advance-is_uploading (examining collecting_clock clock found (x ∷ m)) own fine h = refl
    advance-is_uploading (sweeping clock ps) own fine h =
        next_cluster_cases (λ ph. is_uploading j name server ph ≡ false) (λ _ _. refl)
          (λ _ _ _ _ _. refl) refl clock ps s.cluster_store
    advance-is_uploading (testing clock p c keys ps) own fine h =
        next_key_cases (λ ph. is_uploading j name server ph ≡ false) (λ _ _. refl)
          (λ _ _ _ _ _ _. refl) clock p c keys ps s.cluster_store
    advance-is_uploading (revoking clock p c key keys ps) own fine h = refl
    advance-is_uploading swept own fine h = refl

    pub advance-is_deleting :
        (ph : Phase)
        → IsOwnPhase server ph
        → IsFine (advance server ph s).0
        → is_deleting j name ph ≡ false
        → is_deleting j name (advance server ph s).0 ≡ false
    unfolding advance
    advance-is_deleting (arriving now route request) own fine h =
        elim (Bool-cases (request.cluster_name == "")) [ inl t ↦ rw t h | inr t ↦ rw t h ]
    advance-is_deleting (renewing p now route request) own fine h = h
    advance-is_deleting (handling route request) own fine h =
        let r = started route request own fine in r.deleting ∙ r.to_forget ∙ h
    advance-is_deleting (merged n gs response) own fine h = refl
    advance-is_deleting (noting n p gs response) own fine h = refl
    advance-is_deleting (revoked n key) own fine h = go (get n s.cluster_store)
      where
        go : (o : Option ℕ) → is_deleting j name (forget server n o key) ≡ false
        go none = refl
        go (some p) = h
    advance-is_deleting (forgetting n p key) own fine h = refl
    advance-is_deleting (answered response) own fine h = refl
    advance-is_deleting (collecting order collecting_clock clock) own fine h = refl
    advance-is_deleting (examining collecting_clock clock found []) own fine h = refl
    advance-is_deleting (examining collecting_clock clock found (x ∷ m)) own fine h = refl
    advance-is_deleting (sweeping clock ps) own fine h =
        next_cluster_cases (λ ph. is_deleting j name ph ≡ false) (λ _ _. refl) (λ _ _ _ _ _. refl)
          refl clock ps s.cluster_store
    advance-is_deleting (testing clock p c keys ps) own fine h =
        next_key_cases (λ ph. is_deleting j name ph ≡ false) (λ _ _. refl) (λ _ _ _ _ _ _. refl)
          clock p c keys ps s.cluster_store
    advance-is_deleting (revoking clock p c key keys ps) own fine h = refl
    advance-is_deleting swept own fine h = refl

    pub advance-IsOwnPhase :
        (ph : Phase)
        → IsOwnPhase server ph
        → IsFine (advance server ph s).0
        → IsOwnPhase server (advance server ph s).0
    unfolding advance
    advance-IsOwnPhase (arriving now route request) own fine =
        elim (Bool-cases (request.cluster_name == "")) [ inl t ↦ rw t own | inr t ↦ rw t own ]
    advance-IsOwnPhase (renewing p now route request) own fine = own
    advance-IsOwnPhase (handling route request) own fine = (started route request own fine).own
    advance-IsOwnPhase (merged n gs response) own fine = tt
    advance-IsOwnPhase (noting n p gs response) own fine = tt
    advance-IsOwnPhase (revoked n key) own fine = go (get n s.cluster_store)
      where
        go : (o : Option ℕ) → IsOwnPhase server (forget server n o key)
        go none = tt
        go (some p) = tt
    advance-IsOwnPhase (forgetting n p key) own fine = tt
    advance-IsOwnPhase (answered response) own fine = tt
    advance-IsOwnPhase (collecting order collecting_clock clock) own fine = tt
    advance-IsOwnPhase (examining collecting_clock clock found []) own fine = tt
    advance-IsOwnPhase (examining collecting_clock clock found (x ∷ m)) own fine = tt
    advance-IsOwnPhase (sweeping clock ps) own fine =
        next_cluster_cases (λ ph. IsOwnPhase server ph) (λ _ _. tt) (λ _ _ _ _ _. tt) tt clock ps
          s.cluster_store
    advance-IsOwnPhase (testing clock p c keys ps) own fine =
        next_key_cases (λ ph. IsOwnPhase server ph) (λ _ _. tt) (λ _ _ _ _ _ _. tt) clock p c keys
          ps s.cluster_store
    advance-IsOwnPhase (revoking clock p c key keys ps) own fine = tt
    advance-IsOwnPhase swept own fine = tt

    -- A revocation of the cleaner empties a cell.
    pub swept_cell :
        (clock : ℕ → Time) (p : ℕ) (c : String) (key : ObjectKey) (keys : List ObjectKey)
        (ps : List ℕ)
        → cell_in (advance server (revoking clock p c key keys ps) s).1
          ≡ (if is_cell j name key c then [] else cell_in s)
    unfolding advance
    swept_cell clock p c key keys ps =
        revoke-exported_by cli laws c key.namespace key.name s.world (readable key s.world)
          (revokes c key s.world) j name

    -- An empty cell stays empty unless it is uploaded.
    pub advance-empty :
        (ph : Phase)
        → IsOwnPhase server ph
        → IsFine (advance server ph s).0
        → is_uploading j name server ph ≡ false
        → cell_in s ≡ []
        → cell_in (advance server ph s).1 ≡ []
    unfolding advance
    advance-empty (arriving now route request) own fine h e =
        elim (Bool-cases (request.cluster_name == "")) [ inl t ↦ rw t e | inr t ↦ rw t e ]
    advance-empty (renewing p now route request) own fine h e = e
    advance-empty (handling route request) own fine h e =
        (started route request own fine).left h
        ∙ (elim (Bool-cases (deletes_at j name route request)) [
          | inl t ↦ rw t refl
          | inr t ↦ rw t e
        ])
    advance-empty (merged n gs response) own fine h e = e
    advance-empty (noting n p gs response) own fine h e = e
    advance-empty (revoked n key) own fine h e = e
    advance-empty (forgetting n p key) own fine h e = e
    advance-empty (answered response) own fine h e = e
    advance-empty (collecting order collecting_clock clock) own fine h e = e
    advance-empty (examining collecting_clock clock found []) own fine h e = e
    advance-empty (examining collecting_clock clock found (x ∷ m)) own fine h e = e
    advance-empty (sweeping clock ps) own fine h e = e
    advance-empty (testing clock p c keys ps) own fine h e = e
    advance-empty (revoking clock p c key keys ps) own fine h e =
        swept_cell clock p c key keys ps
        ∙ (elim (Bool-cases (is_cell j name key c)) [ inl t ↦ rw t refl | inr t ↦ rw t e ])
    advance-empty swept own fine h e = e

    deletes_at-uploads_at :
        (route : Route) (request : Request)
        → deletes_at j name route request ≡ true
        → uploads_at j name server route request ≡ false
    deletes_at-uploads_at heartbeat request h = refl
    deletes_at-uploads_at get_all_global_services request h = refl
    deletes_at-uploads_at upload_global_service request h = cc
    deletes_at-uploads_at (delete_endpoints namespace service) request h = refl

    -- A thread that is about to remove the key has emptied the cell.
    advance-is_forgetting :
        (ph : Phase)
        → IsOwnPhase server ph
        → IsFine (advance server ph s).0
        → (is_forgetting j name ph ≡ true → cell_in s ≡ [])
        → is_forgetting j name (advance server ph s).0 ≡ true
        → cell_in (advance server ph s).1 ≡ []
    unfolding advance
    advance-is_forgetting (arriving now route request) own fine empty h =
        elim (Bool-cases (request.cluster_name == "")) [
          | inl t ↦ let no : false ≡ true = rw t at h in cc
          | inr t ↦ let no : false ≡ true = rw t at h in cc
        ]
    advance-is_forgetting (renewing p now route request) own fine empty h = cc
    advance-is_forgetting (handling route request) own fine empty h =
        let r = started route request own fine in
        let d : deletes_at j name route request ≡ true = sym r.to_forget ∙ h in
        r.left (deletes_at-uploads_at route request d) ∙ rw d refl
    advance-is_forgetting (merged n gs response) own fine empty h = cc
    advance-is_forgetting (noting n p gs response) own fine empty h = cc
    advance-is_forgetting (revoked n key) own fine empty h = empty (go (get n s.cluster_store) h)
      where
        go :
            (o : Option ℕ)
            → is_forgetting j name (forget server n o key) ≡ true
            → is_cell j name key n ≡ true
        go none k = cc
        go (some p) k = k
    advance-is_forgetting (forgetting n p key) own fine empty h = cc
    advance-is_forgetting (answered response) own fine empty h = cc
    advance-is_forgetting (collecting order collecting_clock clock) own fine empty h = cc
    advance-is_forgetting (examining collecting_clock clock found []) own fine empty h = cc
    advance-is_forgetting (examining collecting_clock clock found (x ∷ m)) own fine empty h = cc
    advance-is_forgetting (sweeping clock ps) own fine empty h =
        next_cluster_cases (λ ph. is_forgetting j name ph ≡ true → cell_in s ≡ []) (λ _ _ k. cc)
          (λ _ _ _ _ _ k. cc) (λ k. cc) clock ps s.cluster_store h
    advance-is_forgetting (testing clock p c keys ps) own fine empty h =
        next_key_cases (λ ph. is_forgetting j name ph ≡ true → cell_in s ≡ []) (λ _ _ k. cc)
          (λ _ _ _ _ _ _ k. cc) clock p c keys ps s.cluster_store h
    advance-is_forgetting (revoking clock p c key keys ps) own fine empty h = cc
    advance-is_forgetting swept own fine empty h = cc

    -- The stepping thread stays good.
    pub advance-IsGood :
        (ph : Phase)
        → IsWf s.cluster_store
        → IsGood s ph
        → IsFine (advance server ph s).0
        → IsGood (advance server ph s).1 (advance server ph s).0
    advance-IsGood ph wf (held, own, empty) fine = (
      advanced-HoldsPointer server ph s wf,
      advance-IsOwnPhase ph own fine,
      advance-is_forgetting ph own fine empty,
    )
