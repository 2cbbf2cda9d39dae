-- ===== src/Fabdns/Global.antt =====
-- `getGlobalRecords` and `getAdHocRecords` of pkg/fabdns/fabdns.go, from the service that the client
-- found on.
pub mod Tiers
pub mod Locality
pub mod Headless
use fab_dns.Base.{
  ℕ, zero, suc, ◌+◌, String, Bool, true, false, not, List, [], ◌∷◌, ◌++◌, Option, none, some, ltb,
  length, if◌then◌else◌, ◌==◌, ◌&&◌, Result, ok, err,
}
use fab_dns.Api
use fab_dns.Api.{Endpoint, GlobalService}
use fab_dns.Fabdns.Errors.{Error, no_items, invalid_request}
use fab_dns.Fabdns.Records.{Rr}

pub record ClusterInfo : Type 0 where
  pub name : String
  pub zone : String
  pub region : String

-- The variables of the loop in `getGlobalRecords`.
pub record Buckets : Type 0 where
  pub exist_headless_qname : Bool
  pub cluster_matched : List Rr
  pub in_zone : List Rr
  pub in_region : List Rr

abbrev pub no_buckets : Buckets
no_buckets = record {
  exist_headless_qname = false;
  cluster_matched = [];
  in_zone = [];
  in_region = [];
}

-- `endpoint.Hostname != nil && *endpoint.Hostname == hostname`
abbrev pub hostname_is : Option String → String → Bool
hostname_is none hostname = false
hostname_is (some h) hostname = h == hostname

-- `generate` is `generateRecords` at the state of the request, `here` the cluster of the plugin.
module _ (generate : Endpoint → List Rr) (here : ClusterInfo) where
  -- The body of the loop.
  pub place : Bool → String → String → Buckets → Endpoint → Buckets
  place headless cluster_name hostname b endpoint =
      if endpoint.cluster == cluster_name
      then (if headless
          then (if hostname_is endpoint.hostname hostname
              then record b {
                exist_headless_qname = true;
                cluster_matched = b.cluster_matched ++ generate endpoint;
              }
              else b)
          else record b { cluster_matched = b.cluster_matched ++ generate endpoint })
      else if endpoint.zone == here.zone
      then record b { in_zone = b.in_zone ++ generate endpoint }
      else if endpoint.region == here.region
      then record b { in_region = b.in_region ++ generate endpoint }
      else b

  pub collect : Bool → String → String → Buckets → List Endpoint → Buckets
  unfolding place
  collect headless cluster_name hostname b [] = b
  collect headless cluster_name hostname b (endpoint ∷ endpoints) =
      collect headless cluster_name hostname (place headless cluster_name hostname b endpoint)
        endpoints

  -- The loop of the last case.
  pub all_records : List Endpoint → List Rr
  all_records [] = []
  all_records (endpoint ∷ endpoints) = generate endpoint ++ all_records endpoints

  -- What follows the loop.
  pub choose : Bool → List Endpoint → Buckets → Result Error (List Rr)
  unfolding all_records
  choose headless endpoints b =
      if headless
      then (if not b.exist_headless_qname then err no_items else ok b.cluster_matched)
      else if ltb 0 (length b.cluster_matched)
      then ok b.cluster_matched
      else if ltb 0 (length b.in_zone)
      then ok b.in_zone
      else if ltb 0 (length b.in_region)
      then ok b.in_region
      else ok (all_records endpoints)

  -- `getGlobalRecords` from line 154 on; `cluster_name` and `hostname` are those of the request.
  unfoldable pub global_records_of : String → String → GlobalService → Result Error (List Rr)
  unfolding collect choose
  global_records_of cluster_name hostname service =
      let headless = not (cluster_name == "") in
      let endpoints = service.spec.endpoints in
      if headless && not (service.spec.type == Api.headless)
      then err invalid_request
      else let name = if headless then cluster_name else here.name in
        choose headless endpoints (collect headless name hostname no_buckets endpoints)

  -- The loop of `getAdHocRecords`.
  unfoldable pub ad_hoc_records_of : String → List Endpoint → List Rr
  ad_hoc_records_of cluster [] = []
  ad_hoc_records_of cluster (endpoint ∷ endpoints) =
      if endpoint.cluster == cluster
      then generate endpoint ++ ad_hoc_records_of cluster endpoints
      else ad_hoc_records_of cluster endpoints
