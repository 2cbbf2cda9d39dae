-- ===== src/Hub/Cleaner/Complete.antt =====
-- What a tick of the cleaner achieves when the cluster answers.
use fab_dns.Base.{
  ℕ, String, true, ◌&&◌, List, [], ◌∷◌, Option, none, some, ◌≡◌, refl, ◌∙◌, subst, if◌then◌else◌,
  ◌==◌, eq_refl, Bool-cases, Option-cases, inl, inr, In,
}
use fab_dns.Base.Equality.{string_eq}
use fab_dns.Api.{ObjectKey, key_beq, key_beq_iff}
use fab_dns.Kube.{ApiError, Client, ClientLaws}
use fab_dns.Hub.Manager.{revoke_global_service}
use fab_dns.Hub.Manager.Merging.{exported_by}
use fab_dns.Hub.Manager.Revoking.{IsRead, revoke-exported_by}
use fab_dns.Hub.Clusters.{
  Cluster, ClusterStore, Time, deref, is_expired, get_all_service_keys, get_expired_clusters,
}
use fab_dns.Hub.Cleaner.{
  State, revoke, expired_now, clean_keys, clean_clusters, clean_expired_cluster_endpoints,
}

-- `P` is kept by every revocation, and made by that of `key` for `name`.
module _ {W : Type 0} (revoking : String → String → String → W → Option ApiError × W)
    (clock : ℕ → Time) (store : ℕ → ClusterStore) (P : W → Type 0) (name : String) (key : ObjectKey)
    (keeps : (by : String) (k : ObjectKey) (w : W) → P w → P (revoke revoking clock store by k w))
    (makes : (w : W) → P (revoke revoking clock store name key w)) where
  clean_keys_keeps :
      (p : ℕ) (by : String) (ks : List ObjectKey) (s : State W)
      → P s.world
      → P (clean_keys revoking clock store p by ks s).world
  unfolding clean_keys
  clean_keys_keeps p by [] s h = h
  clean_keys_keeps p by (k ∷ ks) s h =
      elim (Bool-cases (expired_now revoking clock store s.tests (deref (store s.tests) p))) [
        | inr f ↦ rw f h
        | inl t ↦ rw t (clean_keys_keeps p by ks _ (keeps by k s.world h))
      ]

  -- The cluster behind a pointer is expired at every test.
  abbrev StaysExpired : ℕ → Type 0
  StaysExpired p = (i : ℕ) → expired_now revoking clock store i (deref (store i) p) ≡ true

  clean_keys_makes :
      (p : ℕ) (ks : List ObjectKey) (s : State W)
      → StaysExpired p
      → In key ks
      → P (clean_keys revoking clock store p name ks s).world
  unfolding clean_keys
  clean_keys_makes p [] s stays i = absurd i
  clean_keys_makes p (k ∷ ks) s stays (inl same) =
      rw (stays s.tests, ← same) (clean_keys_keeps p name ks _ (makes s.world))
  clean_keys_makes p (k ∷ ks) s stays (inr i) = rw (stays s.tests) (clean_keys_makes p ks _ stays i)

  clean_clusters_keeps :
      (qs : List ℕ) (s : State W) → P s.world → P (clean_clusters revoking clock store qs s).world
  unfolding clean_clusters
  clean_clusters_keeps [] s h = h
  clean_clusters_keeps (q ∷ qs) s h = elim (Option-cases (deref (store s.tests) q)) [
    | inl gone ↦ rw (gone, clean_clusters) (clean_clusters_keeps qs s h)
    | inr (c, found) ↦
        rw (found, clean_clusters)
          (clean_clusters_keeps qs _ (clean_keys_keeps q c.name (get_all_service_keys c) s h))
  ]

  -- The cluster behind a pointer has the name and the key all the time.
  abbrev Keeps : ℕ → Type 0
  Keeps p =
      (i : ℕ)
      → (c : Cluster) × (deref (store i) p ≡ some c)
        × (c.name ≡ name)
        × In key (get_all_service_keys c)

  clean_clusters_makes :
      (p : ℕ) (qs : List ℕ) (s : State W)
      → StaysExpired p
      → Keeps p
      → In p qs
      → P (clean_clusters revoking clock store qs s).world
  unfolding clean_clusters
  clean_clusters_makes p [] s stays has i = absurd i
  clean_clusters_makes p (q ∷ qs) s stays has (inl same) =
      let (c, found, named, k) = subst Keeps same has s.tests in
      rw (found, clean_clusters, named)
        (clean_clusters_keeps qs _
          (clean_keys_makes q (get_all_service_keys c) s (subst StaysExpired same stays) k))
  clean_clusters_makes p (q ∷ qs) s stays has (inr i) =
      elim (Option-cases (deref (store s.tests) q)) [
        | inl gone ↦ rw (gone, clean_clusters) (clean_clusters_makes p qs s stays has i)
        | inr (c, found) ↦ rw (found, clean_clusters) (clean_clusters_makes p qs _ stays has i)
      ]

module _ {W : Type 0} (cli : Client W) (laws : ClientLaws cli)
    (readable : (k : ObjectKey) (w : W) → IsRead (cli.get k w).0)
    (revokes : (by : String) (k : ObjectKey) (w : W)
      → (revoke_global_service cli by k.namespace k.name w).0 ≡ none)
    (clock : ℕ → Time) (store : ℕ → ClusterStore) where
  -- The cluster holds no endpoint of the service that the cluster of the name exports.
  abbrev IsCleared : String → ObjectKey → W → Type 0
  IsCleared name key w = exported_by name (laws.content_at w key) ≡ []

  revoked_cell :
      (by : String) (k : ObjectKey) (w : W) (name : String) (key : ObjectKey)
      → exported_by name
          (laws.content_at (revoke (revoke_global_service cli) clock store by k w) key)
        ≡ (if key_beq k key && name == by then [] else exported_by name (laws.content_at w key))
  revoked_cell by k w name key =
      revoke-exported_by cli laws by k.namespace k.name w (readable k w) (revokes by k w) key name

  revoke_keeps :
      (name : String) (key : ObjectKey) (by : String) (k : ObjectKey) (w : W)
      → IsCleared name key w
      → IsCleared name key (revoke (revoke_global_service cli) clock store by k w)
  revoke_keeps name key by k w h =
      revoked_cell by k w name key
      ∙ elim (Bool-cases (key_beq k key && name == by)) [ inl t ↦ rw t refl | inr t ↦ rw t h ]

  revoke-IsCleared :
      (name : String) (key : ObjectKey) (w : W)
      → IsCleared name key (revoke (revoke_global_service cli) clock store name key w)
  revoke-IsCleared name key w =
      revoked_cell name key w name key ∙ rw ((key_beq_iff key key).1 refl, eq_refl name) refl

  -- If services can be read and every revocation succeeds, and if throughout a tick a cluster that was
  -- collected as expired has a name and a key of a service and is expired at every test, then after
  -- the tick no endpoint of that service is left that the cluster has exported; whatever else is in the
  -- store and whatever happens to it meanwhile.
  pub clean_expired_cluster_endpoints-IsCleared :
      (order : List (String × ℕ) → List (String × ℕ)) (collecting : ℕ → Time)
      (collected : ℕ → ClusterStore) (w : W) (name : String) (key : ObjectKey) (p : ℕ)
      → In p (get_expired_clusters order collecting collected)
      → ((i : ℕ)
          → (c : Cluster) × (deref (store i) p ≡ some c)
            × (c.name ≡ name)
            × In key (get_all_service_keys c))
      → ((i : ℕ) (c : Cluster) → deref (store i) p ≡ some c → is_expired (clock i) c ≡ true)
      → exported_by name (
          laws.content_at
            (clean_expired_cluster_endpoints
              (revoke_global_service cli)
              order
              collecting
              clock
              collected
              store
              w)
            key)
        ≡ []
  unfolding clean_expired_cluster_endpoints
  clean_expired_cluster_endpoints-IsCleared order collecting collected w name key p found has
        expired =
      clean_clusters_makes (revoke_global_service cli) clock store (IsCleared name key) name key
        (revoke_keeps name key) (revoke-IsCleared name key) p
        (get_expired_clusters order collecting collected) (record { tests = 0; world = w })
        (λ i. let (c, at, _, _) = has i in rw at (expired i c at)) has found

  -- A tick leaves alone what is cleared.
  pub clean_expired_cluster_endpoints_keeps :
      (order : List (String × ℕ) → List (String × ℕ)) (collecting : ℕ → Time)
      (collected : ℕ → ClusterStore) (w : W) (name : String) (key : ObjectKey)
      → exported_by name (laws.content_at w key) ≡ []
      → exported_by name (
          laws.content_at
            (clean_expired_cluster_endpoints
              (revoke_global_service cli)
              order
              collecting
              clock
              collected
              store
              w)
            key)
        ≡ []
  unfolding clean_expired_cluster_endpoints
  clean_expired_cluster_endpoints_keeps order collecting collected w name key h =
      clean_clusters_keeps (revoke_global_service cli) clock store (IsCleared name key) name key
        (revoke_keeps name key) (revoke-IsCleared name key)
        (get_expired_clusters order collecting collected) (record { tests = 0; world = w }) h
