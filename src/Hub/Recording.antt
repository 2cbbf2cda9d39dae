-- ===== src/Hub/Recording.antt =====
-- `recordGlobalServicesByCluster` of pkg/service-hub/options.go, from the services that the client has
-- listed on. It runs as one step.
pub mod First
use fab_dns.Base.{
  ℕ, ℤ, suc, String, Bool, true, false, List, [], ◌∷◌, Option, none, some, if◌then◌else◌, ◌==◌,
  Result, ok, err,
}
use fab_dns.Base.Equality.{string_eq}
use fab_dns.Api.{Endpoint, GlobalService, ObjectKey, key_of}
use fab_dns.Kube.{ApiError}
use fab_dns.Hub.Clusters
use fab_dns.Hub.Clusters.{ClusterStore, Time}

-- The number of readings of the clock, and the store.
pub record State : Type 0 where
  pub readings : ℕ
  pub cluster_store : ClusterStore

-- `here` is the cluster of the hub, `clock i` the i-th time that is read.
module _ (here : String) (cluster_expire_time : ℤ) (clock : ℕ → Time) where
  -- A cluster that is not in the store.
  abbrev pub create : String → ObjectKey → State → State
  create name key s =
      let (cluster, store) = Clusters.new name s.cluster_store in
      record {
        readings = suc s.readings;
        cluster_store = Clusters.add_service_key cluster key (
            Clusters.set_expire_time cluster
              (Clusters.add_duration (clock s.readings) cluster_expire_time) store);
      }

  abbrev create_unless : Option ℕ → String → ObjectKey → State → State
  create_unless (some cluster) name key s = s
  create_unless none name key s = create name key s

  -- The body of the inner loop.
  pub record_endpoint : ObjectKey → Endpoint → State → State
  record_endpoint key endpoint s =
      if endpoint.cluster == here
      then s
      else create_unless (Clusters.get endpoint.cluster s.cluster_store) endpoint.cluster key s

  pub record_endpoints : ObjectKey → List Endpoint → State → State
  unfolding record_endpoint
  record_endpoints key [] s = s
  record_endpoints key (endpoint ∷ endpoints) s =
      record_endpoints key endpoints (record_endpoint key endpoint s)

  pub record_services : List GlobalService → State → State
  unfolding record_endpoints
  record_services [] s = s
  record_services (gs ∷ items) s =
      record_services items (record_endpoints (key_of gs) gs.spec.endpoints s)

  -- If the services cannot be listed, nothing is recorded.
  unfoldable pub record_global_services_by_cluster :
      Result ApiError (List GlobalService) → State → State
  unfolding record_services
  record_global_services_by_cluster (err e) s = s
  record_global_services_by_cluster (ok items) s = record_services items s
