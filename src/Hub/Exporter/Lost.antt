-- ===== src/Hub/Exporter/Lost.antt =====
-- pkg/service-hub/exporter/lost_service_revoker.go, and how often it revokes.
use fab_dns.Base.{
  not, ℕ, zero, suc, List, [], ◌∷◌, Option, none, some, ◌≡◌, refl, if◌then◌else◌, ◌==◌, Result, ok,
  err, Bool-cases, inl, inr,
}
use fab_dns.Base.Equality.{string_eq}
use fab_dns.Api.{Endpoint, GlobalService, ObjectKey}
use fab_dns.Kube.{ApiError, not_found, already_exists, other}
use fab_dns.Hub.Exporter.{Env, Service, is_global_service}
use fab_dns.Hub.Slices.{ClusterInfo}

module _ {W : Type 0} (env : Env W) (cluster : ClusterInfo) where
  -- `revokeGlobalServiceIfNecessary` of the lost service revoker: a call for each endpoint of the
  -- cluster, errors only logged.
  revoke_if_necessary : GlobalService → List Endpoint → W → W
  revoke_if_necessary svc [] w = w
  revoke_if_necessary svc (endpoint ∷ endpoints) w = revoke_if_necessary svc endpoints (
      if endpoint.cluster == cluster.name
      then (env.revoke_global_service cluster.name svc.metadata.namespace svc.metadata.name w).1
      else w)

  lost_found : GlobalService → Result ApiError Service × W → Option ApiError × W
  unfolding revoke_if_necessary
  lost_found svc (err not_found, w) = (none, revoke_if_necessary svc svc.spec.endpoints w)
  lost_found svc (err e, w) = (some e, w)
  lost_found svc (ok service, w) = (
    none,
    if not (is_global_service service.metadata.labels)
        then revoke_if_necessary svc svc.spec.endpoints w
        else w,
  )

  lost_looked_up : ObjectKey → Result ApiError GlobalService × W → Option ApiError × W
  unfolding lost_found
  lost_looked_up key (err not_found, w) = (none, w)
  lost_looked_up key (err e, w) = (some e, w)
  lost_looked_up key (ok svc, w) = lost_found svc (env.get_service key w)

  -- `lostServiceRevoker.Reconcile`
  unfoldable pub reconcile_lost : ObjectKey → W → Option ApiError × W
  unfolding lost_looked_up
  reconcile_lost key w = lost_looked_up key (env.get_global_service key w)

-- `n` calls of `f` in a row
abbrev pub repeated : {A : Type 0} → ℕ → (A → A) → A → A
repeated zero f w = w
repeated (suc n) f w = repeated n f (f w)

module _ {W : Type 0} (env : Env W) (cluster : ClusterInfo) where
  abbrev pub own_endpoints : List Endpoint → ℕ
  own_endpoints [] = 0
  own_endpoints (e ∷ es) =
      if e.cluster == cluster.name then suc (own_endpoints es) else own_endpoints es

  -- One call, of which only the effect is kept.
  abbrev pub call : GlobalService → W → W
  call svc w = (env.revoke_global_service cluster.name svc.metadata.namespace svc.metadata.name w).1

  -- The error that is returned and the number of calls.
  abbrev pub outcome : GlobalService → Result ApiError Service → Option ApiError × ℕ
  outcome svc (err not_found) = (none, own_endpoints svc.spec.endpoints)
  outcome svc (err e) = (some e, 0)
  outcome svc (ok service) = (
    none,
    if is_global_service service.metadata.labels then 0 else own_endpoints svc.spec.endpoints,
  )

  revoke_if_necessary_lem :
      (svc : GlobalService) (es : List Endpoint) (w : W)
      → revoke_if_necessary env cluster svc es w ≡ repeated (own_endpoints es) (call svc) w
  unfolding revoke_if_necessary
  revoke_if_necessary_lem svc [] w = refl
  revoke_if_necessary_lem svc (e ∷ es) w = elim (Bool-cases (e.cluster == cluster.name)) [
    | inl t ↦ rw t (revoke_if_necessary_lem svc es (call svc w))
    | inr t ↦ rw t (revoke_if_necessary_lem svc es w)
  ]

  lost_found_lem :
      (svc : GlobalService) (r : Result ApiError Service) (w : W)
      → lost_found env cluster svc (r, w)
        ≡ ((outcome svc r).0, repeated (outcome svc r).1 (call svc) w)
  unfolding lost_found
  lost_found_lem svc (err not_found) w = rw (revoke_if_necessary_lem svc svc.spec.endpoints w) refl
  lost_found_lem svc (err already_exists) w = refl
  lost_found_lem svc (err (other m)) w = refl
  lost_found_lem svc (ok service) w =
      elim (Bool-cases (is_global_service service.metadata.labels)) [
        | inl t ↦ rw t refl
        | inr t ↦ rw (t, revoke_if_necessary_lem svc svc.spec.endpoints w) refl
      ]

  -- If the global service can be read, the revoker calls `RevokeGlobalService` once for each endpoint
  -- of its cluster when the service is not found, or is found without the label of a global service;
  -- it does not call it when the service bears that label, whatever its type, nor when reading it fails
  -- with another error. Its own error is that of reading the service unless that is "not found",
  -- whatever the calls return.
  pub reconcile_lost-repeated :
      (key : ObjectKey) (w w' : W) (svc : GlobalService)
      → env.get_global_service key w ≡ (ok svc, w')
      → reconcile_lost env cluster key w ≡ (
        (outcome svc (env.get_service key w').0).0,
        repeated (outcome svc (env.get_service key w').0).1 (call svc) (env.get_service key w').1,
      )
  unfolding reconcile_lost lost_looked_up
  reconcile_lost-repeated key w w' svc got =
      rw got (lost_found_lem svc (env.get_service key w').0 (env.get_service key w').1)
