-- ===== src/Hub/Exporter.antt =====
-- pkg/service-hub/exporter: `Reconcile` of the exporter, and what the lost service revoker shares. The
-- state is the cluster behind the client and the functions that export and revoke, and the set of
-- exported keys, which all copies of the exporter share.
pub mod Headless
pub mod Tracking
pub mod Lost
pub mod Deliveries
pub mod Ordered
use fab_dns.Base.{
  ℕ, String, Bool, true, false, not, ◌&&◌, ◌||◌, List, [], ◌∷◌, ◌++◌, Option, none, some,
  if◌then◌else◌, ◌==◌, Result, ok, err, map,
}
use fab_dns.Base.Map
use fab_dns.Base.Equality.{string_eq}
use fab_dns.Base.Sorting.{less_text}
use fab_dns.Api
use fab_dns.Api.{
  Endpoint, GlobalService, ObjectKey, ObjectMeta, ObjectReference, ServicePort, Labels, empty_meta,
}
use fab_dns.Kube.{ApiError, not_found}
use fab_dns.Hub.Slices.{
  SliceEndpoint, EndpointSlice, ClusterInfo, less_by_name, less_by_address_type, add_slices,
}
use fab_dns.Hub.KeySet
use fab_dns.Hub.KeySet.{ObjectKeySet}

abbrev pub label_global_service : String
label_global_service = "fabedge.io/global-service"

-- The constants of corev1 and discoveryv1 that the exporter compares with.
abbrev pub service_type_cluster_ip : String
service_type_cluster_ip = "ClusterIP"

abbrev pub cluster_ip_none : String
cluster_ip_none = "None"

-- corev1.Service, with a port as far as it is copied.
pub record Service : Type 0 where
  pub metadata : ObjectMeta
  pub type : String
  pub cluster_ip : String
  pub cluster_ips : List String
  pub ports : List ServicePort

-- An error of the client or of an export, or a nil pointer that is followed.
pub data Failure : Type 0 where
  failed : ApiError → Failure
  panic : Failure

-- The client, the two functions of the configuration, `sort.Sort` of the two kinds of slices, by
-- their `Less`, and the order in which `range` meets the entries of the map of endpoints.
pub record Env (W : Type 0) : Type 0 where
  pub get_global_service : ObjectKey → W → Result ApiError GlobalService × W
  pub get_service : ObjectKey → W → Result ApiError Service × W
  pub list_slices : String → String → W → Result ApiError (List EndpointSlice) × W
  pub export_global_service : GlobalService → W → Option ApiError × W
  pub revoke_global_service : String → String → String → W → Option ApiError × W
  pub sort_slices : (EndpointSlice → EndpointSlice → Bool) → List EndpointSlice → List EndpointSlice
  pub sort_endpoints : (Endpoint → Endpoint → Bool) → List Endpoint → List Endpoint
  pub range : List (String × Endpoint) → List Endpoint

-- `labels[key]`, with "" for a missing key.
abbrev string_or : Option String → String
string_or none = ""
string_or (some v) = v

unfoldable pub is_global_service : Labels → Bool
unfolding Map.lookup
is_global_service labels = string_or (Map.lookup label_global_service labels) == "true"

unfoldable pub should_skip_service : Service → Bool
unfolding is_global_service
should_skip_service svc =
    not (is_global_service svc.metadata.labels) || not (svc.type == service_type_cluster_ip)

module _ {W : Type 0} (env : Env W) where
  -- `sort.Sort(ByName(endpoints))` and `sort.Sort(ByAddressType(slices))`
  abbrev pub by_name : List Endpoint → List Endpoint
  by_name = env.sort_endpoints less_by_name

  abbrev pub by_address_type : List EndpointSlice → List EndpointSlice
  by_address_type = env.sort_slices less_by_address_type

  unfoldable pub listed :
      ClusterInfo → Result ApiError (List EndpointSlice) → Result Failure (List Endpoint)
  unfolding add_slices
  listed cluster (err e) = err (failed e)
  listed cluster (ok slices) = elim (add_slices cluster (by_address_type slices) []) [
    | none ↦ err panic
    | some m ↦ ok (by_name (env.range m))
  ]

  unfoldable pub get_endpoints_of_headless_service :
      String → String → ClusterInfo → W → Result Failure (List Endpoint) × W
  unfolding listed
  get_endpoints_of_headless_service namespace service_name cluster w =
      let (slices, w') = env.list_slices namespace service_name w in (listed cluster slices, w')

-- What a reconciler of the exporter changes.
pub record State (W : Type 0) : Type 0 where
  pub service_key_set : ObjectKeySet
  pub world : W

module _ {W : Type 0} (env : Env W) (cluster : ClusterInfo) where
  -- `revokeGlobalService`
  revoked : ObjectKey → ObjectKeySet → Option ApiError × W → Option Failure × State W
  revoked key keys (some e, w) = (some (failed e), record { service_key_set = keys; world = w })
  revoked key keys (none, w) =
      (none, record { service_key_set = KeySet.delete key keys; world = w })

  revoke_service : ObjectKey → ObjectKeySet → W → Option Failure × State W
  unfolding revoked
  revoke_service key keys w =
      if not (KeySet.has key keys)
      then (none, record { service_key_set = keys; world = w })
      else revoked key keys (env.revoke_global_service cluster.name key.namespace key.name w)

  -- The endpoint of a service that has an address.
  abbrev pub address_of : Service → Endpoint
  address_of svc = record {
    addresses = svc.cluster_ips;
    hostname = none;
    target_ref = none;
    cluster = cluster.name;
    zone = cluster.zone;
    region = cluster.region;
  }

  -- The endpoints that are exported for a service.
  unfoldable pub endpoints_for : Service → W → Result Failure (List Endpoint) × W
  endpoints_for svc w =
      if svc.cluster_ip == cluster_ip_none
      then get_endpoints_of_headless_service env svc.metadata.namespace svc.metadata.name cluster w
      else (ok (address_of svc ∷ []), w)

  unfoldable pub global_service_for : Service → List Endpoint → GlobalService
  global_service_for svc endpoints = record {
    metadata = record empty_meta {
      name = svc.metadata.name;
      namespace = svc.metadata.namespace;
      cluster_name = cluster.name;
    };
    spec = record {
      type = if svc.cluster_ip == cluster_ip_none then Api.headless else Api.cluster_ip;
      ports = svc.ports;
      endpoints = endpoints;
    };
  }

  recorded : ObjectKey → ObjectKeySet → Option ApiError × W → Option Failure × State W
  recorded key keys (some e, w) = (some (failed e), record { service_key_set = keys; world = w })
  recorded key keys (none, w) = (none, record { service_key_set = KeySet.add key keys; world = w })

  -- `Reconcile` once the endpoints are there.
  export :
      ObjectKey
      → ObjectKeySet
      → Service
      → Result Failure (List Endpoint) × W
      → Option Failure × State W
  unfolding recorded
  export key keys svc (err e, w) = (some e, record { service_key_set = keys; world = w })
  export key keys svc (ok endpoints, w) =
      recorded key keys (env.export_global_service (global_service_for svc endpoints) w)

  -- `Reconcile` once the client has answered.
  reconcile_found :
      ObjectKey → ObjectKeySet → Result ApiError Service × W → Option Failure × State W
  unfolding revoke_service export
  reconcile_found key keys (err not_found, w) = revoke_service key keys w
  reconcile_found key keys (err e, w) =
      (some (failed e), record { service_key_set = keys; world = w })
  reconcile_found key keys (ok svc, w) =
      if should_skip_service svc
      then revoke_service key keys w
      else export key keys svc (endpoints_for svc w)

  unfoldable pub reconcile : ObjectKey → State W → Option Failure × State W
  unfolding reconcile_found global_service_for endpoints_for
  reconcile key state = reconcile_found key state.service_key_set (env.get_service key state.world)
