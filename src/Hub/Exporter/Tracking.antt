-- ===== src/Hub/Exporter/Tracking.antt =====
-- What the exporter remembers of the services that it has exported.
use fab_dns.Base.{
  Bool, true, false, not, List, Option, none, some, ◌≡◌, refl, if◌then◌else◌, Result, ok, err,
  Bool-cases, inl, inr, ap, sym, ◌∙◌,
}
use fab_dns.Api.{Endpoint, ObjectKey, key_beq}
use fab_dns.Api.{key_eq, key_beq_iff}
use fab_dns.Kube.{ApiError, not_found, already_exists, other}
use fab_dns.Hub.KeySet.{ObjectKeySet, has, has-add, has-delete}
use fab_dns.Hub.Exporter.{
  Env, State, Service, Failure, should_skip_service, revoke_service, revoked, recorded, export,
  reconcile_found, reconcile, endpoints_for,
}
use fab_dns.Hub.Slices.{ClusterInfo}

-- The service is there and is to be exported.
abbrev pub is_wanted : Result ApiError Service → Bool
is_wanted (ok svc) = not (should_skip_service svc)
is_wanted (err e) = false

module _ {W : Type 0} (env : Env W) (cluster : ClusterInfo) (key : ObjectKey)
    (keys : ObjectKeySet) where
  -- The outcome of a reconciliation for the key set: unchanged after a failure; after a success the
  -- key is there if the service is wanted, and is not there otherwise.
  abbrev pub IsTracked : Bool → Option Failure × State W → Type 0
  IsTracked wanted (some e, state) = state.service_key_set ≡ keys
  IsTracked wanted (none, state) =
      (j : ObjectKey) → has j state.service_key_set ≡ (if key_beq key j then wanted else has j keys)

  -- A key that is not in the set stays out.
  absent_lem :
      has key keys ≡ false
      → (j : ObjectKey) → has j keys ≡ (if key_beq key j then false else has j keys)
  absent_lem h j = elim (Bool-cases (key_beq key j)) [
    | inl t ↦ rw t (ap (λ (k : ObjectKey). has k keys) (sym ((key_beq_iff key j).0 t)) ∙ h)
    | inr t ↦ rw t refl
  ]

  revoked-IsTracked : (r : Option ApiError × W) → IsTracked false (revoked env cluster key keys r)
  unfolding revoked
  revoked-IsTracked (some e, w) = refl
  revoked-IsTracked (none, w) = λ j. has-delete key j keys

  revoke_service-IsTracked : (w : W) → IsTracked false (revoke_service env cluster key keys w)
  unfolding revoke_service
  revoke_service-IsTracked w = elim (Bool-cases (has key keys)) [
    | inl t ↦
        rw t (revoked-IsTracked (env.revoke_global_service cluster.name key.namespace key.name w))
    | inr t ↦ rw t (absent_lem t)
  ]

  recorded-IsTracked : (r : Option ApiError × W) → IsTracked true (recorded env cluster key keys r)
  unfolding recorded
  recorded-IsTracked (some e, w) = refl
  recorded-IsTracked (none, w) = λ j. has-add key j keys

  export-IsTracked :
      (svc : Service) (r : Result Failure (List Endpoint) × W)
      → IsTracked true (export env cluster key keys svc r)
  unfolding export
  export-IsTracked svc (err e, w) = refl
  export-IsTracked svc (ok endpoints, w) = recorded-IsTracked (env.export_global_service _ w)

  reconcile_found-IsTracked :
      (r : Result ApiError Service × W)
      → IsTracked (is_wanted r.0) (reconcile_found env cluster key keys r)
  unfolding reconcile_found
  reconcile_found-IsTracked (err not_found, w) = revoke_service-IsTracked w
  reconcile_found-IsTracked (err already_exists, w) = refl
  reconcile_found-IsTracked (err (other m), w) = refl
  reconcile_found-IsTracked (ok svc, w) = elim (Bool-cases (should_skip_service svc)) [
    | inl t ↦ rw t (revoke_service-IsTracked w)
    | inr t ↦ rw t (export-IsTracked svc (endpoints_for env cluster svc w))
  ]

  -- Whatever the client and the functions of the hub return: if `Reconcile` returns an error, the set
  -- of exported keys is as it was; if it returns none,
  -- the key is in the set exactly if the service is there and is to be exported, and every other
  -- key is as it was.
  pub reconcile-IsTracked :
      (w : W)
      → IsTracked
          (is_wanted (env.get_service key w).0)
          (reconcile env cluster key (record { service_key_set = keys; world = w }))
  unfolding reconcile
  reconcile-IsTracked w = reconcile_found-IsTracked (env.get_service key w)
