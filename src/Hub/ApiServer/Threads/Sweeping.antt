-- ===== src/Hub/ApiServer/Threads/Sweeping.antt =====
-- Where the loops of the cleaner go on.
use fab_dns.Base.{ℕ, String, List, [], ◌∷◌, Option, none, some, Bool-cases, inl, inr, not}
use fab_dns.Api.{ObjectKey}
use fab_dns.Hub.Clusters.{Cluster, ClusterStore, Time, deref}
use fab_dns.Hub.ApiServer.Threads.{
  Phase, sweeping, testing, revoking, swept, later, take_keys, next_cluster, is_due, next_key,
}

module _ (P : Phase → Type 0)
    (at_sweeping : (clock : ℕ → Time) (ps : List ℕ) → P (sweeping clock ps)) where
  pub next_cluster_cases :
      ((clock : ℕ → Time) (p : ℕ) (name : String) (keys : List ObjectKey) (ps : List ℕ)
        → P (testing clock p name keys ps))
      → P swept
      → (clock : ℕ → Time) (ps : List ℕ) (store : ClusterStore) → P (next_cluster clock ps store)
  unfolding next_cluster
  next_cluster_cases at_testing at_swept clock [] store = at_swept
  next_cluster_cases at_testing at_swept clock (p ∷ ps) store = go (deref store p)
    where
      go : (o : Option Cluster) → P (take_keys clock p ps o)
      go none = at_sweeping clock ps
      go (some c) = at_testing clock p c.name _ ps

  pub next_key_cases :
      ((clock : ℕ → Time) (p : ℕ) (name : String) (key : ObjectKey) (keys : List ObjectKey)
          (ps : List ℕ)
        → P (revoking clock p name key keys ps))
      → (clock : ℕ → Time) (p : ℕ) (name : String) (keys : List ObjectKey) (ps : List ℕ)
        (store : ClusterStore)
      → P (next_key clock p name keys ps store)
  unfolding next_key
  next_key_cases at_revoking clock p name [] ps store = at_sweeping clock ps
  next_key_cases at_revoking clock p name (key ∷ keys) ps store =
      elim (Bool-cases (not (is_due (clock 0) (deref store p)))) [
        | inl t ↦ rw t (at_sweeping (later clock) ps)
        | inr t ↦ rw t (at_revoking (later clock) p name key keys ps)
      ]
