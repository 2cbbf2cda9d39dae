-- ===== src/Hub/Cleaner.antt =====
-- pkg/service-hub/cleaner/cluster_cleaner.go: one tick of the cleaner. Other goroutines change the
-- clusters meanwhile: `clock i` and `store i` are the time and the store when a cluster is tested for
-- the i-th time after the expired clusters were collected.
pub mod Expired
pub mod Complete
pub mod Departed
use fab_dns.Base.{
  ℕ, suc, String, Bool, true, false, not, List, [], ◌∷◌, ◌++◌, Option, none, some, if◌then◌else◌,
}
use fab_dns.Api.{ObjectKey}
use fab_dns.Kube.{ApiError}
use fab_dns.Hub.Clusters.{
  Cluster, ClusterStore, Time, deref, is_expired, get_all_service_keys, get_expired_clusters,
}

-- What the cleaner changes: the number of tests made, and the cluster behind the client.
pub record State (W : Type 0) : Type 0 where
  pub tests : ℕ
  pub world : W

module _ {W : Type 0} (revoke_global_service : String → String → String → W → Option ApiError × W)
    (clock : ℕ → Time) (store : ℕ → ClusterStore) where
  -- `revokeGlobalService`: an error is only logged.
  abbrev pub revoke : String → ObjectKey → W → W
  revoke cluster_name key w = (revoke_global_service cluster_name key.namespace key.name w).1

  -- `cluster.IsExpired()` at the i-th test; a pointer to no cluster does not occur.
  abbrev pub expired_now : ℕ → Option Cluster → Bool
  expired_now i none = false
  expired_now i (some c) = is_expired (clock i) c

  -- The inner loop over the keys of a cluster.
  unfoldable pub clean_keys : ℕ → String → List ObjectKey → State W → State W
  clean_keys p name [] s = s
  clean_keys p name (key ∷ keys) s =
      let stopped = record s { tests = suc s.tests } in
      let rest =
        clean_keys p name keys (record { tests = suc s.tests; world = revoke name key s.world }) in
      if not (expired_now s.tests (deref (store s.tests) p)) then stopped else rest

  -- The outer loop, over the pointers that were collected; the keys are those of the cluster when its
  -- turn comes.
  unfoldable pub clean_clusters : List ℕ → State W → State W
  unfolding clean_keys get_all_service_keys
  clean_clusters [] s = s
  clean_clusters (p ∷ ps) s = clean_clusters ps (elim (deref (store s.tests) p) [
    | none ↦ s
    | some c ↦ clean_keys p c.name (get_all_service_keys c) s
  ])

-- `cleanExpiredClusterEndpoints`, with the order in which `range` meets the clusters, and the clock
-- and the store at each test while the expired clusters are collected.
unfoldable pub clean_expired_cluster_endpoints :
    {W : Type 0}
    → (String → String → String → W → Option ApiError × W)
    → (order : List (String × ℕ) → List (String × ℕ)) → (collecting : ℕ → Time) → (clock : ℕ → Time)
    → (collected : ℕ → ClusterStore) → (store : ℕ → ClusterStore) → W
    → W
unfolding clean_clusters
clean_expired_cluster_endpoints revoke_global_service order collecting clock collected store w =
    (clean_clusters revoke_global_service clock store
      (get_expired_clusters order collecting collected) (record { tests = 0; world = w })).world
