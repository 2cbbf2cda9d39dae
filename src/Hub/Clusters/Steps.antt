-- ===== src/Hub/Clusters/Steps.antt =====
-- The stores that the operations reach, and the clusters that are found expired.
use fab_dns.Base.{
  ℕ, suc, String, true, List, [], ◌∷◌, Option, none, some, ◌≡◌, refl, sym, inl, inr, In, ◌⊎◌, ap,
  Bool-cases,
}
use fab_dns.Api.{ObjectKey}
use fab_dns.Hub.Clusters.{
  Cluster, ClusterStore, Time, deref, new, set_expire_time, add_service_key, remove_service_key,
  remove, new_cluster_store, is_expired, expired_at, expired_from, get_expired_clusters,
}
use fab_dns.Hub.Clusters.View.{IsWf, modify-IsWf, new-IsWf, remove-IsWf}

-- One operation of the store, or of a cluster through any pointer.
pub data Step (s : ClusterStore) (t : ClusterStore) : Type 0 where
  created : (name : String) → t ≡ (new name s).1 → Step s t
  timed : (p : ℕ) (at : Time) → t ≡ set_expire_time p at s → Step s t
  key_added : (p : ℕ) (key : ObjectKey) → t ≡ add_service_key p key s → Step s t
  key_removed : (p : ℕ) (key : ObjectKey) → t ≡ remove_service_key p key s → Step s t
  removed : (name : String) → t ≡ remove name s → Step s t

pub data Reach : ClusterStore → Type 0 where
  start : Reach new_cluster_store
  next : {s t : ClusterStore} → Reach s → Step s t → Reach t

new_cluster_store-IsWf : IsWf new_cluster_store
unfolding new_cluster_store
new_cluster_store-IsWf = record { named = λ j p i. absurd i }

Step-IsWf : {s t : ClusterStore} → IsWf s → Step s t → IsWf t
unfolding set_expire_time add_service_key remove_service_key
Step-IsWf {s} wf (created name e) = rw e (new-IsWf s wf name)
Step-IsWf {s} wf (timed p at e) = rw e (modify-IsWf s wf p _ (λ c. refl))
Step-IsWf {s} wf (key_added p key e) = rw e (modify-IsWf s wf p _ (λ c. refl))
Step-IsWf {s} wf (key_removed p key e) = rw e (modify-IsWf s wf p _ (λ c. refl))
Step-IsWf {s} wf (removed name e) = rw e (remove-IsWf s wf name)

-- Whatever operations are made, in whatever order and through whatever pointers, every pointer in the
-- store leads to a cluster that bears the name under which it is stored.
pub Reach-IsWf : (s : ClusterStore) → Reach s → IsWf s
Reach-IsWf _ start = new_cluster_store-IsWf
Reach-IsWf _ (next {s} r step) = Step-IsWf (Reach-IsWf s r) step

module _ (clock : ℕ → Time) (stores : ℕ → ClusterStore) where
  -- The pointer leads to a cluster that is expired at some reading of the clock.
  abbrev pub IsExpiredAt : ℕ → Type 0
  IsExpiredAt p =
      (i : ℕ) × (c : Cluster) × (deref (stores i) p ≡ some c) × (is_expired (clock i) c ≡ true)

  expired_at-some :
      (now : Time) (o : Option Cluster)
      → expired_at now o ≡ true
      → (c : Cluster) × (o ≡ some c) × (is_expired now c ≡ true)
  unfolding expired_at
  expired_at-some now none h = cc
  expired_at-some now (some c) h = (c, refl, h)

  expired_from_sound :
      (i p : ℕ) (m : List (String × ℕ)) → In p (expired_from clock stores i m) → IsExpiredAt p
  unfolding expired_from
  expired_from_sound i p [] h = absurd h
  expired_from_sound i p ((name, q) ∷ m) h =
      elim (Bool-cases (expired_at (clock i) (deref (stores i) q))) [
        | inl t ↦
            here_or_later i p q m (expired_at-some (clock i) (deref (stores i) q) t)
              (expired_from_sound (suc i) p m) (rw t at h)
        | inr t ↦ expired_from_sound (suc i) p m (rw t at h)
      ]
    where
      here_or_later :
          (i p q : ℕ) (m : List (String × ℕ))
          → ((c : Cluster) × (deref (stores i) q ≡ some c) × (is_expired (clock i) c ≡ true))
          → (In p (expired_from clock stores (suc i) m) → IsExpiredAt p)
          → (p ≡ q) ⊎ In p (expired_from clock stores (suc i) m)
          → IsExpiredAt p
      here_or_later i p q m (c, at, late) ih (inl same) = (i, c, rw same at, late)
      here_or_later i p q m late ih (inr later) = ih later

  expired_from_complete :
      (i p : ℕ) (name : String) (m : List (String × ℕ))
      → ((n : ℕ) → (c : Cluster) × (deref (stores n) p ≡ some c) × (is_expired (clock n) c ≡ true))
      → In (name, p) m
      → In p (expired_from clock stores i m)
  unfolding expired_from expired_at
  expired_from_complete i p name [] late h = absurd h
  expired_from_complete i p name ((j, q) ∷ m) late (inl e) =
      let same : q ≡ p = sym (ap (λ (x : String × ℕ). x.1) e) in
      let (c, at, is) = late i in rw (same, at, is) (inl refl)
  expired_from_complete i p name ((j, q) ∷ m) late (inr h) =
      let ih = expired_from_complete (suc i) p name m late h in
      elim (Bool-cases (expired_at (clock i) (deref (stores i) q))) [
        | inl t ↦ rw t (inr ih)
        | inr t ↦ rw t ih
      ]

  -- `GetExpiredClusters` returns only clusters that were expired when they were tested, and if `range`
  -- meets every cluster of the store, it misses none that is expired at every test.
  pub get_expired_clusters_lem :
      (order : List (String × ℕ) → List (String × ℕ)) (p : ℕ)
      → (In p (get_expired_clusters order clock stores) → IsExpiredAt p)
        × (((m : List (String × ℕ)) (x : String × ℕ) → In x m → In x (order m))
            → (name : String) → In (name, p) (stores 0).clusters
            → ((n : ℕ)
                → (c : Cluster) × (deref (stores n) p ≡ some c) × (is_expired (clock n) c ≡ true))
            → In p (get_expired_clusters order clock stores))
  unfolding get_expired_clusters
  get_expired_clusters_lem order p = (
    expired_from_sound 0 p (order (stores 0).clusters),
    λ meets name i late.
        expired_from_complete 0 p name (order (stores 0).clusters) late
          (meets (stores 0).clusters (name, p) i),
  )
