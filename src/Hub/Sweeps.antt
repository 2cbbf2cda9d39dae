-- ===== src/Hub/Sweeps.antt =====
-- Requests of two clusters, and a tick of the cleaner, at the store of the tests.
use fab_dns.Base.{
  ℕ, String, List, true, [], ◌∷◌, none, some, ◌≡◌, refl, inl, inr, subst, Option-cases, Bool-cases,
  nat_beq, length,
}
use fab_dns.Base.Map
use fab_dns.Base.Map.{has_value}
use fab_dns.Api.{ObjectKey, key_eq}
use fab_dns.Kube.Memory.{Memory, memory, memory_laws}
use fab_dns.Hub.Manager.{
  create_or_merge_global_service, merge_into, revoke_global_service, remove_endpoints,
}
use fab_dns.Hub.Manager.Merging.{exported_by}
use fab_dns.Hub.Clusters.{
  remove_service_key, new, get, set_expire_time, add_service_key, new_cluster_store, modify,
  Cluster, ClusterStore, deref, is_expired, get_all_service_keys, get_expired_clusters,
}
use fab_dns.Hub.KeySet
use fab_dns.Hub.Namespace.{ensure}
use fab_dns.Hub.Clusters.View.{IsWf, view}
use fab_dns.Hub.Clusters.Steps.{start, Reach-IsWf}
use fab_dns.Hub.ApiServer
use fab_dns.Hub.ApiServer.{serve}
use fab_dns.Hub.ApiServer.Traces.{IsConfirmed, play}
use fab_dns.Hub.ApiServer.Covered.{IsCovered}
use fab_dns.Hub.Cleaner.Departed.{cleaned, clean_expired_cluster_endpoints-play}
use fab_dns.Hub.Sessions.{env, trace}
use fab_dns.Hub.Cleaner.{clean_expired_cluster_endpoints}
use fab_dns.Hub.Cleaner.Complete.{clean_expired_cluster_endpoints-IsCleared}
use fab_dns.Hub.Tests.{memory_readable, stored, nginx_key}

pub memory_revokes :
    (by : String) (k : ObjectKey) (w : Memory)
    → (revoke_global_service memory by k.namespace k.name w).0 ≡ none
unfolding memory revoke_global_service
memory_revokes by k w = elim (Option-cases (Map.lookup k w.services)) [
  | inl gone ↦ rw (gone, memory) refl
  | inr (c, found) ↦ elim (Bool-cases (nat_beq (length (remove_endpoints c.spec.endpoints by)) 0)) [
    | inl t ↦ rw (found, memory, t, found) refl
    | inr t ↦ rw (found, memory, t, found) refl
  ]
]

abbrev expired : Cluster
expired = record { name = "beijing"; service_key_set = (nginx_key, tt) ∷ []; expire_time = 10 }

abbrev pub store : ClusterStore
store = record { clusters = ("beijing", 0) ∷ []; heap = expired ∷ [] }

-- The map is met as it is.
abbrev pub order : List (String × ℕ) → List (String × ℕ)
order m = m

is_expired-expired : (c : Cluster) → deref store 0 ≡ some c → is_expired 11 c ≡ true
is_expired-expired c at =
    let same : expired ≡ c = cc in subst (λ (d : Cluster). is_expired 11 d ≡ true) same refl

clean_expired_cluster_endpoints-IsCleared_example :
    exported_by "beijing" (
      memory_laws.content_at
        (clean_expired_cluster_endpoints
          (revoke_global_service memory)
          order
          (λ i. 11)
          (λ i. 11)
          (λ i. store)
          (λ i. store)
          stored)
        nginx_key)
    ≡ []
clean_expired_cluster_endpoints-IsCleared_example =
    clean_expired_cluster_endpoints-IsCleared memory memory_laws memory_readable memory_revokes
      (λ i. 11) (λ i. store) order (λ i. 11) (λ i. store) stored "beijing" nginx_key 0
      (unfold get_expired_clusters in inl refl)
      (λ i. (expired, refl, refl, unfold get_all_service_keys in inl refl))
      (λ i c at. is_expired-expired c at)

-- A hub that has just started.
abbrev pub started : ApiServer.State Memory
started = record {
  cluster_store = new_cluster_store;
  world = record { services = []; namespaces = "default" ∷ [] };
}

pub started-IsWf : IsWf started.cluster_store
started-IsWf = Reach-IsWf new_cluster_store start

started-IsCovered : IsCovered memory memory_laws true env started
unfolding memory_laws Map.lookup
started-IsCovered j name = inl refl

confirmed : IsConfirmed memory memory_laws true env trace started
unfolding serve create_or_merge_global_service ensure memory revoke_global_service Map.lookup
    Map.insert remove_endpoints merge_into
confirmed = ((refl, tt), refl, (tt, refl, tt))

-- The cluster after its upload at 5, with the duration of 60.
abbrev departed : Cluster
departed = record { name = "beijing"; service_key_set = (nginx_key, tt) ∷ []; expire_time = 65 }

departed_seen : view "beijing" (play env trace started).cluster_store ≡ some departed
unfolding play serve view new get set_expire_time add_service_key new_cluster_store modify
    Map.lookup Map.insert create_or_merge_global_service ensure memory revoke_global_service
    remove_endpoints merge_into remove_service_key KeySet.add KeySet.new_object_key_set
departed_seen = refl

clean_expired_cluster_endpoints-play_example :
    exported_by "beijing" (
      memory_laws.content_at
        (cleaned memory memory_laws true env memory_readable memory_revokes order
          (λ m x i. i)
          (λ i. 100)
          (λ i. 100)
          (play env trace started))
        nginx_key)
    ≡ []
clean_expired_cluster_endpoints-play_example =
    clean_expired_cluster_endpoints-play memory memory_laws true env memory_readable memory_revokes
      order (λ m x i. i) trace started (refl, refl, (refl, tt, tt)) started-IsWf started-IsCovered
      confirmed (λ i. 100) (λ i. 100) "beijing" departed departed_seen (λ i. refl) (λ i. refl)
      nginx_key
