-- ===== src/Hub/Manager.antt =====
-- pkg/service-hub/types/global_service_manager.go. The manager's lock makes each call one step.
pub mod Removal
pub mod Merging
pub mod Revoking
use fab_dns.Base.{
  ℕ, zero, suc, String, Bool, true, false, List, [], ◌∷◌, ◌++◌, Option, none, some, length,
  get_elem?, if◌then◌else◌, ◌==◌, nat_beq, Result, ok, err,
}
use fab_dns.Api.{
  Endpoint, GlobalService, GlobalServiceSpec, ObjectKey, empty_meta, empty_spec, empty_service,
}
use fab_dns.Kube.{ApiError, not_found, Client}
use fab_dns.Hub.Namespace.{ensure, key_created_by, app_service_hub}

-- `append(endpoints[:i], endpoints[i+1:]...)`
remove_at : ℕ → List Endpoint → List Endpoint
remove_at i [] = []
remove_at zero (e ∷ es) = es
remove_at (suc i) (e ∷ es) = e ∷ remove_at i es

-- The body of the loop at an endpoint that matches, or not.
next_index : Bool → ℕ → ℕ
next_index true i = i
next_index false i = suc i

next_endpoints : Bool → ℕ → List Endpoint → List Endpoint
unfolding remove_at
next_endpoints true i es = remove_at i es
next_endpoints false i es = es

-- The loop of `removeEndpoints` on fuel, from index `i`. It ends when `i` has reached the length.
pub remove_from : ℕ → String → ℕ → List Endpoint → List Endpoint
unfolding next_index next_endpoints
remove_from zero cluster i endpoints = endpoints
remove_from (suc fuel) cluster i endpoints = elim (get_elem? endpoints i) [
  | none ↦ endpoints
  | some e ↦
      remove_from fuel cluster (next_index (e.cluster == cluster) i)
        (next_endpoints (e.cluster == cluster) i endpoints)
]

-- One round for each endpoint is enough: each round drops one or passes one.
unfoldable pub remove_endpoints : List Endpoint → String → List Endpoint
unfolding remove_from
remove_endpoints endpoints cluster = remove_from (length endpoints) cluster 0 endpoints

-- The function that `CreateOrMergeGlobalService` hands to `CreateOrUpdate`.
unfoldable pub merge_into : GlobalService → GlobalService → GlobalService
merge_into external_service local_service = record local_service {
  spec = record {
    type = external_service.spec.type;
    ports = external_service.spec.ports;
    endpoints =
        remove_endpoints local_service.spec.endpoints external_service.metadata.cluster_name
        ++ external_service.spec.endpoints;
  };
}

-- The object that `CreateOrUpdate` is to create or update.
abbrev pub local_service_of : GlobalService → GlobalService
local_service_of external_service = record {
  metadata = record empty_meta {
    name = external_service.metadata.name;
    namespace = external_service.metadata.namespace;
    labels = (key_created_by, app_service_hub) ∷ [];
  };
  spec = empty_spec;
}

module _ {W : Type 0} (cli : Client W) (allow_create_namespace : Bool) where
  -- `CreateOrMergeGlobalService` once the namespace is there, or is not looked after.
  merge : GlobalService → Option ApiError × W → Option ApiError × W
  merge external_service (some e, w) = (some e, w)
  merge external_service (none, w) =
      cli.create_or_update (local_service_of external_service) (merge_into external_service) w

  unfoldable pub create_or_merge_global_service : GlobalService → W → Option ApiError × W
  unfolding merge
  create_or_merge_global_service external_service w = merge external_service (
      if allow_create_namespace
      then ensure cli external_service.metadata.namespace w
      else (none, w))

-- The service with the endpoints of the cluster removed.
abbrev pub without_cluster : String → GlobalService → GlobalService
without_cluster cluster svc = record svc {
  spec = record svc.spec { endpoints = remove_endpoints svc.spec.endpoints cluster };
}

module _ {W : Type 0} (cli : Client W) where
  -- `RevokeGlobalService` from the removal on.
  store_rest : GlobalService → W → Option ApiError × W
  store_rest svc w =
      if nat_beq (length svc.spec.endpoints) 0 then cli.delete svc w else cli.update svc w

  -- Any error but "not found" is passed over: the service is then the empty one.
  revoke_found : String → Result ApiError GlobalService × W → Option ApiError × W
  unfolding store_rest
  revoke_found cluster (err not_found, w) = (none, w)
  revoke_found cluster (err e, w) = store_rest (without_cluster cluster empty_service) w
  revoke_found cluster (ok svc, w) = store_rest (without_cluster cluster svc) w

  unfoldable pub revoke_global_service : String → String → String → W → Option ApiError × W
  unfolding revoke_found
  revoke_global_service cluster namespace service_name w =
      revoke_found cluster (cli.get (record { namespace = namespace; name = service_name }) w)
