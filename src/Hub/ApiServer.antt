-- ===== src/Hub/ApiServer.antt =====
-- pkg/service-hub/apiserver/apiserver.go. The router of chi is outside: a route is the handler that it
-- has chosen, with the parameters of the path. A handler runs as one step, on the cluster behind the
-- client and on the cluster store.
pub mod Keys
pub mod Uploads
pub mod Statuses
pub mod Traces
pub mod Pointers
pub mod Covered
pub mod Threads
use Prim.Native.String.{◌++◌}
use fab_dns.Base.{
  ℕ, ℤ, String, Bool, true, false, not, ◌||◌, List, [], ◌∷◌, Option, none, some, nat_beq, length,
  if◌then◌else◌, ◌==◌, Result, ok, err,
}
use fab_dns.Base.Equality.{string_eq}
use fab_dns.Api.{GlobalService, ObjectKey, empty_meta, key_of}
use fab_dns.Kube.{ApiError}
use fab_dns.Hub.Clusters
use fab_dns.Hub.Clusters.{ClusterStore, Time}

-- The codes of net/http that the server answers with.
abbrev pub status_ok : ℕ
status_ok = 200

abbrev pub status_no_content : ℕ
status_no_content = 204

abbrev pub status_bad_request : ℕ
status_bad_request = 400

abbrev pub status_internal_server_error : ℕ
status_internal_server_error = 500

-- The client's `List` and the manager, the JSON of the library, the texts of errors, and the
-- duration of the configuration.
pub record Env (W : Type 0) : Type 0 where
  pub list : W → Result ApiError (List GlobalService) × W
  pub create_or_merge_global_service : GlobalService → W → Option ApiError × W
  pub revoke_global_service : String → String → String → W → Option ApiError × W
  pub marshal : List GlobalService → Result String String
  pub unmarshal : String → Result String GlobalService
  pub error_text : ApiError → String
  pub cluster_expire_duration : ℤ

-- The header with the name of the cluster, and the body or the error of reading it.
pub record Request : Type 0 where
  pub cluster_name : String
  pub body : Result String String

-- The handlers to which the router leads.
pub data Route : Type 0 where
  heartbeat get_all_global_services upload_global_service : Route
  delete_endpoints : (namespace_default name : String) → Route

pub record Response : Type 0 where
  pub status : ℕ
  pub body : String

pub record State (W : Type 0) : Type 0 where
  pub cluster_store : ClusterStore
  pub world : W

abbrev pub no_content : Response
no_content = record { status = status_no_content; body = "" }

-- `len(s) == 0`
abbrev is_blank : String → Bool
is_blank s = s == ""

-- The fields that `UploadGlobalService` asks for.
abbrev pub is_complete : GlobalService → Bool
is_complete gs = not (
    is_blank gs.metadata.name
    || is_blank gs.metadata.namespace
    || nat_beq (length gs.spec.ports) 0
    || nat_beq (length gs.spec.endpoints) 0)

-- The fields that are sent to importers.
abbrev pub clean : GlobalService → GlobalService
clean svc = record svc {
  metadata = record empty_meta {
    name = svc.metadata.name;
    namespace = svc.metadata.namespace;
    resource_version = svc.metadata.resource_version;
  };
}

unfoldable pub clean_items : List GlobalService → List GlobalService
clean_items [] = []
clean_items (svc ∷ items) = clean svc ∷ clean_items items

module _ {W : Type 0} (env : Env W) where
  abbrev marshalled : Result String String → Response
  marshalled (err e) = record {
    status = status_internal_server_error;
    body = "unable to marshal global services: " ++ e;
  }
  marshalled (ok items) = record { status = status_ok; body = items }

  unfoldable pub all_services : Result ApiError (List GlobalService) → Response
  unfolding clean_items
  all_services (err e) = record { status = status_internal_server_error; body = env.error_text e }
  all_services (ok items) = marshalled (env.marshal (clean_items items))

  -- What the deferred function of `UploadGlobalService` does.
  abbrev pub record_key : String → GlobalService → ClusterStore → ClusterStore
  record_key cluster_name gs store =
      let (cluster, store') = Clusters.new cluster_name store in
      Clusters.add_service_key cluster (key_of gs) store'

  pub upload_response : Option ApiError → Response
  upload_response none = no_content
  upload_response (some e) = record {
    status = status_internal_server_error;
    body = env.error_text e;
  }

  pub upload_decoded : String → Result String GlobalService → State W → Response × State W
  unfolding upload_response
  upload_decoded cluster_name (err e) s =
      (record { status = status_bad_request; body = "unabled to unmarshal request body: " ++ e }, s)
  upload_decoded cluster_name (ok gs) s =
      if not (is_complete gs)
      then (record { status = status_bad_request; body = "data is not valid" }, s)
      else let (e, w) = env.create_or_merge_global_service gs s.world in
        (
          upload_response e,
          record { cluster_store = record_key cluster_name gs s.cluster_store; world = w },
        )

  pub upload : String → Result String String → State W → Response × State W
  unfolding upload_decoded
  upload cluster_name (err e) s = (
    record { status = status_internal_server_error; body = "failed to read request body: " ++ e },
    s,
  )
  upload cluster_name (ok body) s = upload_decoded cluster_name (env.unmarshal body) s

  abbrev pub forget_key : Option ℕ → ObjectKey → ClusterStore → ClusterStore
  forget_key none key store = store
  forget_key (some cluster) key store = Clusters.remove_service_key cluster key store

  pub deleted : String → ObjectKey → ClusterStore → Option ApiError × W → Response × State W
  deleted cluster_name key store (some e, w) = (
    record {
      status = status_internal_server_error;
      body = "failed to find global service: " ++ env.error_text e;
    },
    record { cluster_store = store; world = w },
  )
  deleted cluster_name key store (none, w) = (
    no_content,
    record { cluster_store = forget_key (Clusters.get cluster_name store) key store; world = w },
  )

  unfoldable pub handle : Route → Request → State W → Response × State W
  unfolding upload deleted all_services
  handle heartbeat request s = (no_content, s)
  handle get_all_global_services request s =
      let (items, w) = env.list s.world in (all_services items, record s { world = w })
  handle upload_global_service request s = upload request.cluster_name request.body s
  handle (delete_endpoints namespace name) request s =
      deleted request.cluster_name (record { namespace = namespace; name = name }) s.cluster_store
        (env.revoke_global_service request.cluster_name namespace name s.world)

  -- `updateClusterExpireTime` when `time.Now()` is `now`.
  pub renew : Time → String → ClusterStore → ClusterStore
  renew now cluster_name store =
      if cluster_name == ""
      then store
      else let (cluster, store') = Clusters.new cluster_name store in
        Clusters.set_expire_time cluster (Clusters.add_duration now env.cluster_expire_duration)
          store'

  -- A request through the middleware.
  unfoldable pub serve : Time → Route → Request → State W → Response × State W
  unfolding handle renew
  serve now route request s =
      handle route request
        (record s { cluster_store = renew now request.cluster_name s.cluster_store })
