-- ===== src/Hub/ApiServer/Threads/Cells.antt =====
-- One cell of the table of endpoints by service and cluster, and the keys of that cluster, in one step
-- of a thread.
use fab_dns.Base.{
  String, Bool, true, false, ◌&&◌, List, [], Option, none, some, ◌≡◌, ◌≢◌, refl, sym, ap, ◌∙◌, leb,
  if◌then◌else◌, ◌==◌, Option-cases, inl, inr, ◌∷◌,
}
use fab_dns.Base.Equality.{string_eq}
use fab_dns.Api.{Endpoint, GlobalService, ObjectKey, key_of, key_beq}
use fab_dns.Kube.{ApiError, Client, ClientLaws}
use fab_dns.Hub.Manager.{create_or_merge_global_service, revoke_global_service}
use fab_dns.Hub.Manager.Merging.{exported_by, create_or_merge-exported_by}
use fab_dns.Hub.Manager.Revoking.{IsRead, service_key, revoke-exported_by}
use fab_dns.Hub.ApiServer.{
  Env, Request, Route, State, heartbeat, get_all_global_services, upload_global_service,
  delete_endpoints, upload_response,
}
use fab_dns.Hub.ApiServer.Keys.{accepted}
use fab_dns.Hub.ApiServer.Traces.{IsOwnService, trace_server, table_of}
use fab_dns.Hub.ApiServer.Covered.{IsOwnBody}
use fab_dns.Hub.ApiServer.Threads.{
  collecting, examining, sweeping, testing, revoking, swept, Phase, arriving, renewing, handling,
  merged, noting, revoked, forgetting, answered, start_upload, start_deletion, start_handler,
  advance,
}
use fab_dns.Hub.ApiServer.Threads.Effects.{start_upload_refused, start_upload_taken}

-- A response below 400, as far as there is one.
abbrev pub IsFine : Phase → Type 0
IsFine (merged n gs response) = leb 400 response.status ≡ false
IsFine (noting n p gs response) = leb 400 response.status ≡ false
IsFine (answered response) = leb 400 response.status ≡ false
IsFine _ = Unit

bool_apart : true ≢ false
bool_apart e = cc

module _ (j : ObjectKey) (name : String) where
  -- The cell of a service and a cluster.
  abbrev pub is_cell : ObjectKey → String → Bool
  is_cell key by = key_beq key j && name == by

  -- An upload that has been merged and is not recorded.
  abbrev pub is_pending : Phase → Bool
  is_pending (merged n gs response) = is_cell (key_of gs) n
  is_pending (noting n p gs response) = is_cell (key_of gs) n
  is_pending _ = false

  -- A deletion that has been carried out and is about to remove the key.
  abbrev pub is_forgetting : Phase → Bool
  is_forgetting (revoked n key) = is_cell key n
  is_forgetting (forgetting n p key) = is_cell key n
  is_forgetting _ = false

  abbrev pub deletes_at : Route → Request → Bool
  deletes_at (delete_endpoints namespace service) request =
      is_cell (service_key namespace service) request.cluster_name
  deletes_at _ request = false

  -- A request that deletes the cell, or has still to remove its key.
  abbrev pub is_deleting : Phase → Bool
  is_deleting (arriving now route request) = deletes_at route request
  is_deleting (renewing p now route request) = deletes_at route request
  is_deleting (handling route request) = deletes_at route request
  is_deleting ph = is_forgetting ph

  abbrev cell_of_upload : String → Option GlobalService → Bool
  cell_of_upload by none = false
  cell_of_upload by (some gs) = is_cell (key_of gs) by

  module _ {W : Type 0} (env : Env W) where
    abbrev pub uploads_at : Route → Request → Bool
    uploads_at upload_global_service request =
        cell_of_upload request.cluster_name (accepted env request.body)
    uploads_at _ request = false

    -- A request that uploads the cell, or has still to record its key.
    abbrev pub is_uploading : Phase → Bool
    is_uploading (arriving now route request) = uploads_at route request
    is_uploading (renewing p now route request) = uploads_at route request
    is_uploading (handling route request) = uploads_at route request
    is_uploading ph = is_pending ph

module _ {W : Type 0} (env : Env W) where
  -- An upload is of a service of the cluster that sends it, with endpoints of that cluster.
  abbrev pub IsOwnRequest : Route → Request → Type 0
  IsOwnRequest upload_global_service request =
      IsOwnBody request.cluster_name (accepted env request.body)
      × IsOwnService (accepted env request.body)
  IsOwnRequest _ request = Unit

  abbrev pub IsOwnPhase : Phase → Type 0
  IsOwnPhase (arriving now route request) = IsOwnRequest route request
  IsOwnPhase (renewing p now route request) = IsOwnRequest route request
  IsOwnPhase (handling route request) = IsOwnRequest route request
  IsOwnPhase _ = Unit

  -- A step does not turn a response of 400 or more into another.
  pub advance-IsFine : (ph : Phase) (s : State W) → IsFine (advance env ph s).0 → IsFine ph
  unfolding advance
  advance-IsFine (arriving now route request) s h = tt
  advance-IsFine (renewing p now route request) s h = tt
  advance-IsFine (handling route request) s h = tt
  advance-IsFine (merged n gs response) s h = h
  advance-IsFine (noting n p gs response) s h = h
  advance-IsFine (revoked n key) s h = tt
  advance-IsFine (forgetting n p key) s h = tt
  advance-IsFine (answered response) s h = h
  advance-IsFine (collecting order collecting_clock clock) s h = tt
  advance-IsFine (examining collecting_clock clock found []) s h = tt
  advance-IsFine (examining collecting_clock clock found (x ∷ m)) s h = tt
  advance-IsFine (sweeping clock ps) s h = tt
  advance-IsFine (testing clock p c keys ps) s h = tt
  advance-IsFine (revoking clock p c key keys ps) s h = tt
  advance-IsFine swept s h = tt

module _ {W : Type 0} (cli : Client W) (laws : ClientLaws cli) (allow : Bool) (plain : Env W)
    (readable : (k : ObjectKey) (w : W) → IsRead (cli.get k w).0) (j : ObjectKey)
    (name : String) where
  abbrev server : Env W
  server = trace_server cli laws allow plain

  abbrev pub cell : State W → List Endpoint
  cell s = table_of cli laws allow plain s.world j name

  -- What the start of a handler leads to: an upload that is to be recorded, or a deletion whose key is
  -- to be removed; and the cell, unless it has been uploaded.
  pub record IsStarted (route : Route) (request : Request) (s : State W) (r : Phase × State W)
      : Type 0 where
    pub to_record : is_pending j name r.0 ≡ uploads_at j name server route request
    pub to_forget : is_forgetting j name r.0 ≡ deletes_at j name route request
    pub uploading : is_uploading j name server r.0 ≡ is_pending j name r.0
    pub deleting : is_deleting j name r.0 ≡ is_forgetting j name r.0
    pub own : IsOwnPhase server r.0
    pub left :
        uploads_at j name server route request ≡ false
        → cell r.1 ≡ (if deletes_at j name route request then [] else cell s)

  merge_ok : (o : Option ApiError) → leb 400 (upload_response server o).status ≡ false → o ≡ none
  unfolding upload_response
  merge_ok none h = refl
  merge_ok (some e) h = let no : true ≡ false = h in cc

  start_upload-IsStarted :
      (request : Request) (s : State W)
      → IsOwnRequest server upload_global_service request
      → IsFine (start_upload server request.cluster_name request.body s).0
      → IsStarted upload_global_service request s
          (start_upload server request.cluster_name request.body s)
  start_upload-IsStarted request s own fine = elim (Option-cases (accepted server request.body)) [
    | inl refused ↦
        let (r, same) = start_upload_refused server request.cluster_name request.body s refused in
        rw same (record {
          to_record = rw refused refl;
          to_forget = refl;
          uploading = refl;
          deleting = refl;
          own = tt;
          left = λ other. refl;
        })
    | inr (gs, taken) ↦
        let same = start_upload_taken server request.cluster_name request.body s gs taken in
        let ok_merge : (create_or_merge_global_service cli allow gs s.world).0 ≡ none =
          merge_ok _ (rw same at fine) in
        let of_own : IsOwnBody request.cluster_name (some gs) = rw taken at own.0 in
        let all_own : IsOwnService (some gs) = rw taken at own.1 in
        rw same (record {
          to_record = rw taken refl;
          to_forget = refl;
          uploading = refl;
          deleting = refl;
          own = tt;
          left = λ other.
              create_or_merge-exported_by cli laws gs allow s.world all_own ok_merge j name
              ∙ (let off : (key_beq (key_of gs) j && name == gs.metadata.cluster_name) ≡ false =
                    rw of_own (rw taken at other) in
                  rw off refl);
        })
  ]

  start_deletion-IsStarted :
      (namespace service : String) (request : Request) (s : State W) (r : Option ApiError × W)
      → revoke_global_service cli request.cluster_name namespace service s.world ≡ r
      → IsFine (start_deletion server request.cluster_name (service_key namespace service) r s).0
      → IsStarted
          (delete_endpoints namespace service)
          request
          s
          (start_deletion server request.cluster_name (service_key namespace service) r s)
  unfolding start_deletion
  start_deletion-IsStarted namespace service request s (some e, w) done fine =
      let no : true ≡ false = fine in absurd (bool_apart no)
  start_deletion-IsStarted namespace service request s (none, w) done fine = (record {
    to_record = refl;
    to_forget = refl;
    uploading = refl;
    deleting = refl;
    own = tt;
    left = λ other.
        ap (λ (r : Option ApiError × W). table_of cli laws allow plain r.1 j name) (sym done)
        ∙ revoke-exported_by cli laws request.cluster_name namespace service s.world
            (readable (service_key namespace service) s.world)
            (ap (λ (r : Option ApiError × W). r.0) done) j name;
  })

  pub start_handler-IsStarted :
      (route : Route) (request : Request) (s : State W)
      → IsOwnRequest server route request
      → IsFine (start_handler server route request s).0
      → IsStarted route request s (start_handler server route request s)
  unfolding start_handler
  start_handler-IsStarted heartbeat request s own fine = record {
    to_record = refl;
    to_forget = refl;
    uploading = refl;
    deleting = refl;
    own = tt;
    left = λ other. refl;
  }
  start_handler-IsStarted get_all_global_services request s own fine = record {
    to_record = refl;
    to_forget = refl;
    uploading = refl;
    deleting = refl;
    own = tt;
    left = λ other. ap (exported_by name) (laws.list_quiet j s.world);
  }
  start_handler-IsStarted upload_global_service request s own fine =
      start_upload-IsStarted request s own fine
  start_handler-IsStarted (delete_endpoints namespace service) request s own fine =
      start_deletion-IsStarted namespace service request s
        (revoke_global_service cli request.cluster_name namespace service s.world) refl fine
