-- ===== src/Hub/ApiServer/Threads.antt =====
-- The server of pkg/service-hub/apiserver with several requests in flight, and the cleaner of
-- pkg/service-hub/cleaner next to it. Package http runs each handler in a goroutine of its own, and
-- the cleaner has one. What they share is the cluster store and the cluster behind the client, and
-- each access to those holds a lock: one step of a thread is one such access.
pub mod Sweeping
pub mod Effects
pub mod Recorded
pub mod Cells
pub mod Phases
pub mod Settled
pub mod Schedules
pub mod Interleaved
use Prim.Native.String.{◌++◌}
use fab_dns.Base.{
  ℕ, zero, suc, String, Bool, false, not, List, [], ◌∷◌, Option, none, some, if◌then◌else◌, ◌==◌,
  Result, ok, err,
}
use fab_dns.Api.{GlobalService, ObjectKey, key_of}
use fab_dns.Kube.{ApiError}
use fab_dns.Hub.Clusters
use fab_dns.Hub.Clusters.{Cluster, ClusterStore, Time, deref, is_expired}
use fab_dns.Hub.ApiServer.{
  Env, Request, Response, Route, State, heartbeat, get_all_global_services, upload_global_service,
  delete_endpoints, no_content, status_bad_request, status_internal_server_error, is_complete,
  all_services, upload_response,
}

-- Where a request is: before `New` and before `SetExpireTime` of the middleware, at the start of its
-- handler, before `New` and before `AddServiceKey` of an upload, before `Get` and before
-- `RemoveServiceKey` of a deletion, or answered. A number is the pointer that the thread holds. A tick
-- of the cleaner tests each cluster that the map had when it took the lock of the store, in the order
-- of `range`, and collects those that are expired; it takes the keys of the next of them, tests it before
-- each key, and revokes; the functions are what its calls of `time.Now` return, and the lists are the
-- clusters found, and the keys and the clusters that are left. While it tests, the lock of the store
-- keeps `New` waiting; schedules in which `New` comes between are more than can occur.
pub data Phase : Type 0 where
  arriving : Time → Route → Request → Phase
  renewing : ℕ → Time → Route → Request → Phase
  handling : Route → Request → Phase
  merged : String → GlobalService → Response → Phase
  noting : String → ℕ → GlobalService → Response → Phase
  revoked : String → ObjectKey → Phase
  forgetting : String → ℕ → ObjectKey → Phase
  answered : Response → Phase
  collecting : (List (String × ℕ) → List (String × ℕ)) → (ℕ → Time) → (ℕ → Time) → Phase
  examining : (ℕ → Time) → (ℕ → Time) → List ℕ → List (String × ℕ) → Phase
  sweeping : (ℕ → Time) → List ℕ → Phase
  testing : (ℕ → Time) → ℕ → String → List ObjectKey → List ℕ → Phase
  revoking : (ℕ → Time) → ℕ → String → ObjectKey → List ObjectKey → List ℕ → Phase
  swept : Phase

-- The first call of `time.Now` is made.
abbrev pub later : (ℕ → Time) → ℕ → Time
later clock i = clock (suc i)

-- The outer loop of `cleanExpiredClusterEndpoints`, up to the keys of the next cluster. A pointer to no
-- cluster does not occur.
abbrev pub take_keys : (ℕ → Time) → ℕ → List ℕ → Option Cluster → Phase
take_keys clock p ps none = sweeping clock ps
take_keys clock p ps (some c) = testing clock p c.name (Clusters.get_all_service_keys c) ps

pub next_cluster : (ℕ → Time) → List ℕ → ClusterStore → Phase
next_cluster clock [] store = swept
next_cluster clock (p ∷ ps) store = take_keys clock p ps (deref store p)

abbrev pub is_due : Time → Option Cluster → Bool
is_due now none = false
is_due now (some c) = is_expired now c

-- The inner loop, up to the revocation.
pub next_key : (ℕ → Time) → ℕ → String → List ObjectKey → List ℕ → ClusterStore → Phase
next_key clock p name [] ps store = sweeping clock ps
next_key clock p name (key ∷ keys) ps store =
    if not (is_due (clock 0) (deref store p))
    then sweeping (later clock) ps
    else revoking (later clock) p name key keys ps

module _ {W : Type 0} (env : Env W) where
  -- `UploadGlobalService` up to its deferred function.
  unfoldable pub start_decoded : String → Result String GlobalService → State W → Phase × State W
  unfolding upload_response
  start_decoded cluster_name (err e) s = (
    answered
        (record { status = status_bad_request; body = "unabled to unmarshal request body: " ++ e }),
    s,
  )
  start_decoded cluster_name (ok gs) s =
      if not (is_complete gs)
      then (answered (record { status = status_bad_request; body = "data is not valid" }), s)
      else let (e, w) = env.create_or_merge_global_service gs s.world in
        (merged cluster_name gs (upload_response env e), record s { world = w })

  unfoldable pub start_upload : String → Result String String → State W → Phase × State W
  unfolding start_decoded
  start_upload cluster_name (err e) s = (
    answered (record {
      status = status_internal_server_error;
      body = "failed to read request body: " ++ e;
    }),
    s,
  )
  start_upload cluster_name (ok body) s = start_decoded cluster_name (env.unmarshal body) s

  -- `deleteEndpoints` up to `Get`.
  unfoldable pub start_deletion :
      String → ObjectKey → Option ApiError × W → State W → Phase × State W
  start_deletion cluster_name key (some e, w) s = (
    answered (record {
      status = status_internal_server_error;
      body = "failed to find global service: " ++ env.error_text e;
    }),
    record s { world = w },
  )
  start_deletion cluster_name key (none, w) s = (revoked cluster_name key, record s { world = w })

  unfoldable pub start_handler : Route → Request → State W → Phase × State W
  unfolding start_upload start_deletion
  start_handler heartbeat request s = (answered no_content, s)
  start_handler get_all_global_services request s =
      let (items, w) = env.list s.world in
      (answered (all_services env items), record s { world = w })
  start_handler upload_global_service request s = start_upload request.cluster_name request.body s
  start_handler (delete_endpoints namespace name) request s =
      start_deletion request.cluster_name (record { namespace = namespace; name = name })
        (env.revoke_global_service request.cluster_name namespace name s.world) s

  -- `RemoveServiceKey`, unless `Get` has returned nil.
  abbrev pub forget : String → Option ℕ → ObjectKey → Phase
  forget cluster_name none key = answered no_content
  forget cluster_name (some p) key = forgetting cluster_name p key

  -- The next step of a thread.
  unfoldable pub advance : Phase → State W → Phase × State W
  unfolding start_handler next_cluster next_key
  advance (arriving now route request) s =
      if request.cluster_name == ""
      then (handling route request, s)
      else let (p, store) = Clusters.new request.cluster_name s.cluster_store in
        (renewing p now route request, record s { cluster_store = store })
  advance (renewing p now route request) s = (
    handling route request,
    record s {
      cluster_store =
          Clusters.set_expire_time p (Clusters.add_duration now env.cluster_expire_duration)
            s.cluster_store;
    },
  )
  advance (handling route request) s = start_handler route request s
  advance (merged cluster_name gs response) s =
      let (p, store) = Clusters.new cluster_name s.cluster_store in
      (noting cluster_name p gs response, record s { cluster_store = store })
  advance (noting cluster_name p gs response) s = (
    answered response,
    record s { cluster_store = Clusters.add_service_key p (key_of gs) s.cluster_store },
  )
  advance (revoked cluster_name key) s =
      (forget cluster_name (Clusters.get cluster_name s.cluster_store) key, s)
  advance (forgetting cluster_name p key) s = (
    answered no_content,
    record s { cluster_store = Clusters.remove_service_key p key s.cluster_store },
  )
  advance (answered response) s = (answered response, s)
  advance (collecting order collecting_clock clock) s =
      (examining collecting_clock clock [] (order s.cluster_store.clusters), s)
  advance (examining collecting_clock clock found []) s = (sweeping clock found, s)
  advance (examining collecting_clock clock found ((name, p) ∷ m)) s = (
    examining (later collecting_clock) clock
        (Clusters.append_if (is_due (collecting_clock 0) (deref s.cluster_store p)) p found) m,
    s,
  )
  advance (sweeping clock ps) s = (next_cluster clock ps s.cluster_store, s)
  advance (testing clock p name keys ps) s = (next_key clock p name keys ps s.cluster_store, s)
  advance (revoking clock p name key keys ps) s = (
    testing clock p name keys ps,
    record s { world = (env.revoke_global_service name key.namespace key.name s.world).1 },
  )
  advance swept s = (swept, s)

  -- A step of the thread of a number.
  unfoldable pub step_at : ℕ → List Phase → State W → List Phase × State W
  step_at i [] s = ([], s)
  step_at zero (ph ∷ phs) s = let (ph', s') = advance ph s in (ph' ∷ phs, s')
  step_at (suc i) (ph ∷ phs) s = let (phs', s') = step_at i phs s in (ph ∷ phs', s')

  -- The threads after the steps of a schedule, which names the thread of each step.
  unfoldable pub interleave : List ℕ → List Phase → State W → List Phase × State W
  interleave [] phs s = (phs, s)
  interleave (i ∷ schedule) phs s = let (phs', s') = step_at i phs s in interleave schedule phs' s'
