-- ===== src/Hub/Manager/Revoking.antt =====
-- `RevokeGlobalService` against the view of the store by cluster.
use fab_dns.Base.{
  String, true, ◌&&◌, List, [], ◌∷◌, Option, none, some, ◌≡◌, ◌≢◌, refl, subst, ap, ◌∙◌, arith,
  filter, if◌then◌else◌, ◌==◌, eq_iff, inl, inr, Bool-cases, nat_beq, length, Result, ok, err,
}
use fab_dns.Api.{GlobalService, ObjectKey, key_of, key_beq, key_beq_iff}
use fab_dns.Kube.{
  ApiError, not_found, already_exists, other, Client, ClientLaws, Content, content_of,
}
use fab_dns.Hub.Manager.{store_rest, revoke_found, revoke_global_service, without_cluster}
use fab_dns.Hub.Manager.Removal.{is_from, is_elsewhere, remove_endpoints_lem}
use fab_dns.Hub.Manager.Merging.{exported_by, exported-elsewhere, exported-elsewhere_ne}

-- A service from which the endpoints of a cluster are removed; none if no endpoint is left.
abbrev pub revoked : String → Option Content → Option Content
revoked cluster none = none
revoked cluster (some c) =
    let rest = filter (is_elsewhere cluster) c.spec.endpoints in
    if nat_beq (length rest) 0
    then none
    else some (record c { spec = record c.spec { endpoints = rest } })

length-zero {ℓ} : {A : Type ℓ} (xs : List A) → nat_beq (length xs) 0 ≡ true → xs ≡ []
length-zero [] h = refl
length-zero (x ∷ xs) h = absurd (ground arith)

-- What a removal leaves, by cluster.
exported_by-revoked :
    (cluster name : String) (o : Option Content)
    → exported_by name (revoked cluster o) ≡ (if name == cluster then [] else exported_by name o)
exported_by-revoked cluster name none = ground arith
exported_by-revoked cluster name (some c) =
    let es = c.spec.endpoints in
    let rest = filter (is_elsewhere cluster) es in
    let left : exported_by name (revoked cluster (some c)) ≡ filter (is_from name) rest =
      elim (Bool-cases (nat_beq (length rest) 0)) [
        | inl t ↦ rw (t, length-zero rest t)
        | inr t ↦ rw t
      ] in
    left ∙ (elim (Bool-cases (name == cluster)) [
      | inl t ↦
          let same : name ≡ cluster = (eq_iff name cluster).0 t in
          rw (t, same) (exported-elsewhere cluster es)
      | inr t ↦
          let ne : name ≢ cluster = ground (arith, eq_iff name cluster) in
          rw t (exported-elsewhere_ne cluster name es ne)
    ])

-- The read succeeded, or found that there is no such service.
abbrev pub IsRead : Result ApiError GlobalService → Type 0
IsRead (ok svc) = Unit
IsRead (err not_found) = Unit
IsRead (err _) = ⊥

-- The key of the service that is revoked.
abbrev pub service_key : String → String → ObjectKey
service_key namespace name = record { namespace = namespace; name = name }

module _ {W : Type 0} (cli : Client W) (laws : ClientLaws cli) where
  open laws use {content_at}

  store_rest_ok :
      (svc : GlobalService) (w : W) (j : ObjectKey)
      → (store_rest cli svc w).0 ≡ none
      → content_at (store_rest cli svc w).1 j ≡ (
          if key_beq (key_of svc) j
          then (if nat_beq (length svc.spec.endpoints) 0 then none else some (content_of svc))
          else content_at w j)
  unfolding store_rest
  store_rest_ok svc w j h = elim (Bool-cases (nat_beq (length svc.spec.endpoints) 0)) [
    | inl t ↦ rw t (laws.delete_ok svc j w (rw t at h))
    | inr t ↦ rw t (laws.update_ok svc j w (rw t at h))
  ]

  -- What is left of a service that was found.
  revoke_ok :
      (cluster : String) (svc : GlobalService) (w : W) (j : ObjectKey)
      → (store_rest cli (without_cluster cluster svc) w).0 ≡ none
      → content_at (store_rest cli (without_cluster cluster svc) w).1 j ≡ (
          if key_beq (key_of svc) j
          then revoked cluster (some (content_of svc))
          else content_at w j)
  revoke_ok cluster svc w j h =
      store_rest_ok (without_cluster cluster svc) w j h
      ∙ (rw (remove_endpoints_lem svc.spec.endpoints cluster) refl)

  revoke_found_ok :
      (cluster : String) (k : ObjectKey) (w v : W) (found : Result ApiError GlobalService)
      → (cli.get k w) ≡ (found, v)
      → IsRead found
      → (revoke_found cli cluster (found, v)).0 ≡ none
      → (j : ObjectKey)
      → content_at (revoke_found cli cluster (found, v)).1 j
        ≡ (if key_beq k j then revoked cluster (content_at w k) else content_at w j)
  unfolding revoke_found
  revoke_found_ok cluster k w v (ok svc) got r h j =
      let (same, was) =
        laws.get_ok k w svc (ap (λ (p : Result ApiError GlobalService × W). p.0) got) in
      let quiet : content_at v j ≡ content_at w j =
        subst (λ (p : Result ApiError GlobalService × W). content_at p.1 j ≡ content_at w j) got
          (laws.get_quiet k j w) in
      revoke_ok cluster svc v j h
      ∙ (subst
          (λ (i : ObjectKey).
            (if key_beq (key_of svc) j
              then revoked cluster (some (content_of svc))
              else content_at v j)
            ≡ (if key_beq i j then revoked cluster (content_at w k) else content_at w j))
          same (rw (was, quiet) refl))
  revoke_found_ok cluster k w v (err not_found) got r h j =
      let absent : content_at w k ≡ none =
        laws.get_not_found k w (ap (λ (p : Result ApiError GlobalService × W). p.0) got) in
      let quiet : content_at v j ≡ content_at w j =
        subst (λ (p : Result ApiError GlobalService × W). content_at p.1 j ≡ content_at w j) got
          (laws.get_quiet k j w) in
      quiet ∙ (elim (Bool-cases (key_beq k j)) [
        | inl t ↦
            let same : k ≡ j = (key_beq_iff k j).0 t in
            rw (t, absent) (subst (λ (i : ObjectKey). content_at w i ≡ none) same absent)
        | inr t ↦ rw t refl
      ])
  revoke_found_ok cluster k w v (err already_exists) got r h j = absurd r
  revoke_found_ok cluster k w v (err (other m)) got r h j = absurd r

module _ {W : Type 0} (cli : Client W) (laws : ClientLaws cli) (cluster namespace name : String)
    (w : W) where
  open laws use {content_at}

  -- If the service could be read, or is not there, and `RevokeGlobalService` returns no error, then
  -- the service keeps exactly the endpoints of the other clusters, in order, with its type, ports
  -- and labels; it is gone if that leaves no endpoint; and every other service is as it was.
  pub revoke-revoked :
      IsRead (cli.get (service_key namespace name) w).0
      → (revoke_global_service cli cluster namespace name w).0 ≡ none
      → (j : ObjectKey)
      → content_at (revoke_global_service cli cluster namespace name w).1 j ≡ (
          if key_beq (service_key namespace name) j
          then revoked cluster (content_at w (service_key namespace name))
          else content_at w j)
  unfolding revoke_global_service
  revoke-revoked r h j =
      let (found, v) = cli.get (service_key namespace name) w in
      revoke_found_ok cli laws cluster (service_key namespace name) w v found refl r h j

  -- A revocation clears one cell of the table of endpoints by service and cluster: if the service
  -- could be read, or is not there, and `RevokeGlobalService` returns no error, then the cluster has
  -- no endpoint of that service, and every other cluster's endpoints of it, and every other service,
  -- are as before.
  pub revoke-exported_by :
      IsRead (cli.get (service_key namespace name) w).0
      → (revoke_global_service cli cluster namespace name w).0 ≡ none
      → (j : ObjectKey) (by : String)
      → exported_by by (content_at (revoke_global_service cli cluster namespace name w).1 j) ≡ (
          if key_beq (service_key namespace name) j && by == cluster
          then []
          else exported_by by (content_at w j))
  revoke-exported_by r h j by =
      rw (revoke-revoked r h j) (elim (Bool-cases (key_beq (service_key namespace name) j)) [
        | inl k ↦
            let same : (service_key namespace name) ≡ j =
              (key_beq_iff (service_key namespace name) j).0 k in
            rw k (
              subst
                (λ (i : ObjectKey).
                  exported_by by (revoked cluster (content_at w (service_key namespace name)))
                  ≡ (if by == cluster then [] else exported_by by (content_at w i)))
                same (exported_by-revoked cluster by (content_at w (service_key namespace name))))
        | inr k ↦ rw k refl
      ])
