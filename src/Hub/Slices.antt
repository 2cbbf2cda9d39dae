-- ===== src/Hub/Slices.antt =====
-- pkg/service-hub/exporter: what `GetEndpointsOfHeadlessService` makes of endpoint slices, and the
-- orders in which it sorts.
use fab_dns.Base.{String, Bool, List, [], ◌∷◌, ◌++◌, Option, none, some, if◌then◌else◌, ◌==◌}
use fab_dns.Base.Map
use fab_dns.Base.Equality.{string_eq}
use fab_dns.Base.Sorting.{less_text}
use fab_dns.Api.{Endpoint, ObjectReference}

abbrev pub address_type_fqdn : String
address_type_fqdn = "FQDN"

-- discoveryv1.Endpoint and discoveryv1.EndpointSlice
pub record SliceEndpoint : Type 0 where
  pub addresses : List String
  pub hostname : Option String
  pub target_ref : Option ObjectReference

pub record EndpointSlice : Type 0 where
  pub address_type : String
  pub endpoints : List SliceEndpoint

pub record ClusterInfo : Type 0 where
  pub name : String
  pub region : String
  pub zone : String

-- `TargetRef.Name`. Every endpoint that is sorted has a target, since the loop below stops at one that
-- has none.
abbrev pub target_name : Endpoint → String
target_name e = elim e.target_ref [ none ↦ "" | some ref ↦ ref.name ]

-- `Less` of `ByName` and of `ByAddressType`
abbrev pub less_by_name : Endpoint → Endpoint → Bool
less_by_name a b = less_text (target_name a) (target_name b)

abbrev pub less_by_address_type : EndpointSlice → EndpointSlice → Bool
less_by_address_type a b = less_text a.address_type b.address_type

-- What the loop over the endpoints of a slice does with one of a target of this name.
module _ (cluster : ClusterInfo) where
  abbrev pub new_endpoint : SliceEndpoint → Endpoint
  new_endpoint ep = record {
    addresses = ep.addresses;
    hostname = ep.hostname;
    target_ref = ep.target_ref;
    cluster = cluster.name;
    zone = cluster.zone;
    region = cluster.region;
  }

  abbrev pub with_addresses : Option Endpoint → SliceEndpoint → Endpoint
  with_addresses none ep = new_endpoint ep
  with_addresses (some e) ep = record e { addresses = e.addresses ++ ep.addresses }

  abbrev pub add_named :
      SliceEndpoint → String → List (String × Endpoint) → List (String × Endpoint)
  add_named ep name m = Map.insert name (with_addresses (Map.lookup name m) ep) m

  -- The body of the inner loop; `none` is the panic at an endpoint without a target.
  unfoldable pub add_endpoint :
      SliceEndpoint
      → Option ObjectReference
      → List (String × Endpoint)
      → Option (List (String × Endpoint))
  add_endpoint ep none m = none
  add_endpoint ep (some ref) m = some (add_named ep ref.name m)

  unfoldable pub add_endpoints :
      List SliceEndpoint → List (String × Endpoint) → Option (List (String × Endpoint))
  unfolding add_endpoint
  add_endpoints [] m = some m
  add_endpoints (ep ∷ eps) m = elim (add_endpoint ep ep.target_ref m) [
    | none ↦ none
    | some m' ↦ add_endpoints eps m'
  ]

  -- The outer loop, which passes over slices of domain names.
  unfoldable pub add_slices :
      List EndpointSlice → List (String × Endpoint) → Option (List (String × Endpoint))
  unfolding add_endpoints
  add_slices [] m = some m
  add_slices (es ∷ slices) m =
      elim (if es.address_type == address_type_fqdn then some m else add_endpoints es.endpoints m) [
        | none ↦ none
        | some m' ↦ add_slices slices m'
      ]
