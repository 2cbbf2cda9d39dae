-- ===== src/Hub/Cleaner/Departed.antt =====
-- A cluster that has stopped: what the server has recorded for it, and the tick that cleans it.
use fab_dns.Base.{
  ℕ, String, Bool, true, List, [], ◌∷◌, Option, none, some, ◌≡◌, sym, ap, subst, ◌∙◌, In, inl, inr,
  Option-cases, Bool-cases,
}
use fab_dns.Base.Equality.{string_eq}
use fab_dns.Base.Map
use fab_dns.Base.Entries.{lookup-In}
use fab_dns.Api.{ObjectKey, key_beq, key_beq_iff, key_eq}
use fab_dns.Kube.{Client, ClientLaws}
use fab_dns.Hub.KeySet.{ObjectKeySet, has}
use fab_dns.Hub.Manager.{revoke_global_service}
use fab_dns.Hub.Manager.Merging.{exported_by}
use fab_dns.Hub.Manager.Revoking.{IsRead}
use fab_dns.Hub.Clusters.{Cluster, ClusterStore, Time, deref, is_expired, get_all_service_keys}
use fab_dns.Hub.Clusters.View.{IsWf, view}
use fab_dns.Hub.Clusters.Steps.{get_expired_clusters_lem}
use fab_dns.Hub.ApiServer.{Env, State}
use fab_dns.Hub.ApiServer.Traces.{Entry, IsConfirmed, play, trace_server}
use fab_dns.Hub.ApiServer.Covered.{IsCovered, AreOwn, keys_of-view, play-IsCovered}
use fab_dns.Hub.Cleaner.{clean_expired_cluster_endpoints}
use fab_dns.Hub.Cleaner.Complete.{
  clean_expired_cluster_endpoints-IsCleared, clean_expired_cluster_endpoints_keeps,
}

has-get_all_service_keys :
    (j : ObjectKey) (c : Cluster) → has j c.service_key_set ≡ true → In j (get_all_service_keys c)
unfolding has get_all_service_keys Map.lookup
has-get_all_service_keys j c h = go c.service_key_set h
  where
    go : (keys : ObjectKeySet) → has j keys ≡ true → In j (Map.keys keys)
    go [] h = cc
    go ((k, u) ∷ keys) h = elim (Bool-cases (key_beq k j)) [
      | inl t ↦ inl (sym ((key_beq_iff k j).0 t))
      | inr t ↦ inr (go keys (rw t at h))
    ]

-- The cluster of a name stands behind a pointer of the store.
view-deref :
    (name : String) (store : ClusterStore) (c : Cluster)
    → view name store ≡ some c
    → (p : ℕ) × In (name, p) store.clusters × (deref store p ≡ some c)
unfolding view
view-deref name store c seen = elim (Option-cases (Map.lookup name store.clusters)) [
  | inl gone ↦ let no : ◌≡◌ {A = Option Cluster} none (some c) = rw gone at seen in cc
  | inr (p, found) ↦ (p, lookup-In name p store.clusters found, rw found at seen)
]

module _ {W : Type 0} (cli : Client W) (laws : ClientLaws cli) (allow : Bool) (plain : Env W)
    (readable : (k : ObjectKey) (w : W) → IsRead (cli.get k w).0)
    (revokes : (by : String) (k : ObjectKey) (w : W)
      → (revoke_global_service cli by k.namespace k.name w).0 ≡ none)
    -- `range` meets every cluster of the store.
    (order : List (String × ℕ) → List (String × ℕ))
    (meets : (m : List (String × ℕ)) (x : String × ℕ) → In x m → In x (order m)) where
  -- The tick of the cleaner, on the store that the requests have left.
  abbrev pub cleaned : (ℕ → Time) → (ℕ → Time) → State W → W
  cleaned collecting clock s =
      clean_expired_cluster_endpoints (revoke_global_service cli) order collecting clock
        (λ i. s.cluster_store) (λ i. s.cluster_store) s.world

  cleaned-IsCovered :
      (collecting clock : ℕ → Time) (s : State W) (name : String) (c : Cluster)
      → IsWf s.cluster_store
      → IsCovered cli laws allow plain s
      → view name s.cluster_store ≡ some c
      → ((i : ℕ) → is_expired (collecting i) c ≡ true)
      → ((i : ℕ) → is_expired (clock i) c ≡ true)
      → (j : ObjectKey) → exported_by name (laws.content_at (cleaned collecting clock s) j) ≡ []
  cleaned-IsCovered collecting clock s name c wf covered seen collected late j =
      let store = s.cluster_store in
      let (p, i, at) = view-deref name store c seen in
      let (d, at', named) = wf.named name p i in
      let same : d ≡ c = cc in
      let name_of : c.name ≡ name = ap (λ (x : Cluster). x.name) (sym same) ∙ named in
      elim (covered j name) [
        | inl none_left ↦
            clean_expired_cluster_endpoints_keeps cli laws readable revokes clock (λ n. store) order
              collecting (λ n. store) s.world name j none_left
        | inr recorded ↦
            let own : has j c.service_key_set ≡ true =
              ap (λ (ks : ObjectKeySet). has j ks) (sym (keys_of-view name store c seen))
              ∙ recorded in
            clean_expired_cluster_endpoints-IsCleared cli laws readable revokes clock (λ n. store)
              order collecting (λ n. store) s.world name j p
              ((get_expired_clusters_lem collecting (λ n. store) order p).1 meets name i
                (λ n. (c, at, collected n)))
              (λ n. (c, at, name_of, has-get_all_service_keys j c own))
              (λ n e found.
                let eq : c ≡ e = cc in
                subst (λ (x : Cluster). is_expired (clock n) x ≡ true) eq (late n))
      ]

  -- Let every service of which the hub has endpoints of a cluster be recorded for that cluster, and let
  -- the hub confirm any sequence of fair requests, each of a cluster that gives its name and uploads
  -- only services of its own. If `range` meets every cluster of the store, services can be read and every revocation succeeds, a tick of the
  -- cleaner on the store as it then is, during which a cluster of that store is expired throughout,
  -- leaves no endpoint of that cluster in any service.
  pub clean_expired_cluster_endpoints-play :
      (es : List Entry) (s : State W)
      → AreOwn cli laws allow plain es
      → IsWf s.cluster_store
      → IsCovered cli laws allow plain s
      → IsConfirmed cli laws allow plain es s
      → (collecting clock : ℕ → Time) (name : String) (c : Cluster)
      → view name (play (trace_server cli laws allow plain) es s).cluster_store ≡ some c
      → ((i : ℕ) → is_expired (collecting i) c ≡ true)
      → ((i : ℕ) → is_expired (clock i) c ≡ true)
      → (j : ObjectKey)
      → exported_by name (
          laws.content_at
            (cleaned collecting clock (play (trace_server cli laws allow plain) es s))
            j)
        ≡ []
  clean_expired_cluster_endpoints-play es s own wf covered confirmed collecting clock name c seen
        collected late j =
      let (wf', covered') = play-IsCovered cli laws allow plain es s own wf confirmed covered in
      cleaned-IsCovered collecting clock (play (trace_server cli laws allow plain) es s) name c wf'
        covered' seen collected late j
