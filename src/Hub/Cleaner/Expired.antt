-- ===== src/Hub/Cleaner/Expired.antt =====
-- Which revocations a tick of the cleaner makes.
use fab_dns.Base.{
  ℕ, suc, ◌≤◌, arith, String, true, List, [], ◌∷◌, Option, none, some, ◌≡◌, refl, Bool-cases,
  Option-cases, inl, inr, In,
}
use fab_dns.Api.{ObjectKey}
use fab_dns.Kube.{ApiError}
use fab_dns.Hub.Clusters.{
  Cluster, ClusterStore, Time, deref, is_expired, get_all_service_keys, get_expired_clusters,
}
use fab_dns.Hub.Cleaner.{
  State, revoke, expired_now, clean_keys, clean_clusters, clean_expired_cluster_endpoints,
}

module _ {W : Type 0} (revoke_global_service : String → String → String → W → Option ApiError × W)
    (clock : ℕ → Time) (store : ℕ → ClusterStore) (ps : List ℕ) where
  -- A revocation that is due at a test: of a key that the cluster behind a collected pointer had when
  -- its turn came, under its name, and at that test the cluster behind the pointer was expired.
  pub record Due (name : String) (key : ObjectKey) (test : ℕ) : Type 0 where
    pub pointer : ℕ
    pub collected : In pointer ps
    pub turn : ℕ
    pub turn_before : turn ≤ test
    pub cluster : Cluster
    pub at_turn : deref (store turn) pointer ≡ some cluster
    pub named : cluster.name ≡ name
    pub had_key : In key (get_all_service_keys cluster)
    pub seen : Cluster
    pub at_test : deref (store test) pointer ≡ some seen
    pub expired : is_expired (clock test) seen ≡ true

  -- The worlds after a number of tests. A test is followed by nothing, or by one revocation that is
  -- due at that very test.
  pub data Revoked (w : W) : ℕ → W → Type 0 where
    unchanged : Revoked w 0 w
    passed : {v : W} (test : ℕ) → Revoked w test v → Revoked w (suc test) v
    then_revoked :
        {v : W} (name : String) (key : ObjectKey) (test : ℕ)
        → Revoked w test v
        → Due name key test
        → Revoked w (suc test) (revoke revoke_global_service clock store name key v)

  expired_now-true :
      (i : ℕ) (o : Option Cluster)
      → expired_now revoke_global_service clock store i o ≡ true
      → (c : Cluster) × (o ≡ some c) × (is_expired (clock i) c ≡ true)
  expired_now-true i none h = cc
  expired_now-true i (some c) h = (c, refl, h)

  -- The tests go on, and the world is one of those after the tests made.
  abbrev IsAfter : W → ℕ → State W → Type 0
  IsAfter w turn s = (turn ≤ s.tests) × Revoked w s.tests s.world

  clean_keys-Revoked :
      (w : W) (p turn : ℕ) (c : Cluster)
      → In p ps
      → deref (store turn) p ≡ some c
      → (ks : List ObjectKey) → ((k : ObjectKey) → In k ks → In k (get_all_service_keys c))
      → (s : State W) → IsAfter w turn s
      → IsAfter w turn (clean_keys revoke_global_service clock store p c.name ks s)
  unfolding clean_keys
  clean_keys-Revoked w p turn c i at [] own s r = r
  clean_keys-Revoked w p turn c i at (k ∷ ks) own s (later, r) =
      elim (Bool-cases
        (expired_now revoke_global_service clock store s.tests (deref (store s.tests) p))) [
          | inr f ↦ rw f (omega arith, passed s.tests r)
          | inl t ↦
              let (seen, at_test, expired) = expired_now-true s.tests (deref (store s.tests) p) t in
              rw t (
                clean_keys-Revoked w p turn c i at ks (λ j h. own j (inr h)) _
                  (
                    omega arith,
                    then_revoked c.name k s.tests r (record {
                      pointer = p;
                      collected = i;
                      turn = turn;
                      turn_before = later;
                      cluster = c;
                      at_turn = at;
                      named = refl;
                      had_key = own k (inl refl);
                      seen = seen;
                      at_test = at_test;
                      expired = expired;
                    }),
                  ))
        ]

  clean_clusters-Revoked :
      (w : W) (qs : List ℕ)
      → ((q : ℕ) → In q qs → In q ps)
      → (s : State W) → Revoked w s.tests s.world
      → Revoked w
          (clean_clusters revoke_global_service clock store qs s).tests
          (clean_clusters revoke_global_service clock store qs s).world
  unfolding clean_clusters
  clean_clusters-Revoked w [] own s r = r
  clean_clusters-Revoked w (q ∷ qs) own s r = elim (Option-cases (deref (store s.tests) q)) [
    | inl gone ↦ rw (gone, clean_clusters) (clean_clusters-Revoked w qs (λ p h. own p (inr h)) s r)
    | inr (c, found) ↦
        rw (found, clean_clusters)
          (clean_clusters-Revoked w qs (λ p h. own p (inr h)) _
            (clean_keys-Revoked w q s.tests c (own q (inl refl)) found (get_all_service_keys c)
              (λ k h. h) s (omega arith, r)).1)
  ]

-- Whatever others do to the clusters meanwhile, a tick of the cleaner makes a number of tests of
-- collected clusters, and changes the cluster behind the client only by revocations: each test is
-- followed by at most one, before the next test; that is of a key that the tested cluster had when its
-- turn came, no later than that test, under the name that it then had, and it is made only if the
-- cluster was expired at that very test.
pub clean_expired_cluster_endpoints-Revoked :
    {W : Type 0} (revoke_global_service : String → String → String → W → Option ApiError × W)
    (order : List (String × ℕ) → List (String × ℕ)) (collecting clock : ℕ → Time)
    (collected store : ℕ → ClusterStore) (w : W)
    → (tests : ℕ) × Revoked revoke_global_service clock store
        (get_expired_clusters order collecting collected)
        w
        tests
        (clean_expired_cluster_endpoints revoke_global_service order collecting clock collected
          store w)
unfolding clean_expired_cluster_endpoints
clean_expired_cluster_endpoints-Revoked revoke_global_service order collecting clock collected store
      w =
    let ps = get_expired_clusters order collecting collected in
    (
      (clean_clusters revoke_global_service clock store ps (record { tests = 0; world = w })).tests,
      clean_clusters-Revoked revoke_global_service clock store ps w ps (λ q h. h)
          (record { tests = 0; world = w }) unchanged,
    )
