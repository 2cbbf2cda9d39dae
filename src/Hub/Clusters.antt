-- ===== src/Hub/Clusters.antt =====
-- pkg/service-hub/types/cluster.go. The store holds pointers to clusters: a pointer is the index of a
-- cluster in the heap, to which every holder of the pointer writes. Nothing is freed. The locks make
-- each operation one step.
pub mod Heap
pub mod View
pub mod Steps
pub mod Upserts
use fab_dns.Base.{
  ℤ, pos, negsuc, ◌+◌, ◌-◌, ℕ, zero, suc, String, Bool, true, false, not, ◌&&◌, List, [], ◌∷◌, ◌++◌,
  Option, none, some, length, get_elem?, ltb, nat_beq, if◌then◌else◌,
}
use fab_dns.Base.Map
use fab_dns.Base.Map.{keys}
use fab_dns.Base.Equality.{string_eq}
use fab_dns.Api.{ObjectKey}
use fab_dns.Hub.KeySet
use fab_dns.Hub.KeySet.{ObjectKeySet}

-- `time.Time` in nanoseconds; 0 is the zero time.
abbrev pub Time : Type 0
Time = ℕ

-- `Time.Add` of a `time.Duration`, which is signed. A duration spans less than three centuries, so that
-- no time of a clock is brought to the zero time.
abbrev pub add_duration : Time → ℤ → Time
add_duration now (pos d) = now + d
add_duration now (negsuc d) = now - suc d

pub record Cluster : Type 0 where
  pub name : String
  pub service_key_set : ObjectKeySet
  pub expire_time : Time

pub record ClusterStore : Type 0 where
  pub clusters : List (String × ℕ)
  pub heap : List Cluster

unfoldable pub new_cluster_store : ClusterStore
new_cluster_store = record { clusters = []; heap = [] }

-- The cluster behind a pointer.
abbrev pub deref : ClusterStore → ℕ → Option Cluster
deref store p = get_elem? store.heap p

pub write_heap : ℕ → (Cluster → Cluster) → List Cluster → List Cluster
write_heap p f [] = []
write_heap zero f (c ∷ cs) = f c ∷ cs
write_heap (suc p) f (c ∷ cs) = c ∷ write_heap p f cs

-- A method that writes to the cluster behind a pointer.
unfoldable pub modify : ℕ → (Cluster → Cluster) → ClusterStore → ClusterStore
unfolding write_heap
modify p f store = record store { heap = write_heap p f store.heap }

unfoldable pub set_expire_time : ℕ → Time → ClusterStore → ClusterStore
unfolding modify
set_expire_time p expire_time store = modify p (λ c. record c { expire_time = expire_time }) store

unfoldable pub add_service_key : ℕ → ObjectKey → ClusterStore → ClusterStore
unfolding modify
add_service_key p key store =
    modify p (λ c. record c { service_key_set = KeySet.add key c.service_key_set }) store

unfoldable pub remove_service_key : ℕ → ObjectKey → ClusterStore → ClusterStore
unfolding modify
remove_service_key p key store =
    modify p (λ c. record c { service_key_set = KeySet.delete key c.service_key_set }) store

-- `IsExpired` when `time.Now()` is `now`.
abbrev pub is_expired : Time → Cluster → Bool
is_expired now c = not (nat_beq c.expire_time 0) && ltb c.expire_time now

-- `GetAllServiceKeys`, in the order in which the map is met.
unfoldable pub get_all_service_keys : Cluster → List ObjectKey
get_all_service_keys c = keys c.service_key_set

abbrev pub fresh_cluster : String → Cluster
fresh_cluster name = record {
  name = name;
  service_key_set = KeySet.new_object_key_set;
  expire_time = 0;
}

-- `ClusterStore.New`: the pointer, and the store.
unfoldable pub new : String → ClusterStore → ℕ × ClusterStore
new name store = elim (Map.lookup name store.clusters) [
  | some p ↦ (p, store)
  | none ↦ (
    length store.heap,
    record {
      clusters = Map.insert name (length store.heap) store.clusters;
      heap = store.heap ++ fresh_cluster name ∷ [];
    },
  )
]

-- `ClusterStore.Get`; `none` is nil.
unfoldable pub get : String → ClusterStore → Option ℕ
get name store = Map.lookup name store.clusters

unfoldable pub remove : String → ClusterStore → ClusterStore
remove name store = record store { clusters = Map.delete name store.clusters }

unfoldable pub remove_clusters : List String → ClusterStore → ClusterStore
unfolding remove
remove_clusters [] store = store
remove_clusters (name ∷ names) store = remove_clusters names (remove name store)

expired_at : Time → Option Cluster → Bool
expired_at now none = false
expired_at now (some c) = is_expired now c

-- `append`, if a test succeeds.
abbrev pub append_if : Bool → ℕ → List ℕ → List ℕ
append_if b p found = if b then found ++ p ∷ [] else found

expired_from : (clock : ℕ → Time) → (stores : ℕ → ClusterStore) → ℕ → List (String × ℕ) → List ℕ
unfolding expired_at
expired_from clock stores i [] = []
expired_from clock stores i ((name, p) ∷ m) =
    let rest = expired_from clock stores (suc i) m in
    if expired_at (clock i) (deref (stores i) p) then p ∷ rest else rest

-- `GetExpiredClusters`. `order` is the order in which `range` meets the map. Each cluster is tested
-- under a lock of its own: `stores i` is the store at the i-th test, and `clock i` is what `time.Now`
-- returns there. The lock of the store keeps the map as it is until the end.
unfoldable pub get_expired_clusters :
    (order : List (String × ℕ) → List (String × ℕ))
    → (clock : ℕ → Time) → (stores : ℕ → ClusterStore) → List ℕ
unfolding expired_from
get_expired_clusters order clock stores = expired_from clock stores 0 (order (stores 0).clusters)
