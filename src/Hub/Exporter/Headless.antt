-- ===== src/Hub/Exporter/Headless.antt =====
-- The endpoints of a headless service, by the name of the target.
use fab_dns.Base.{
  String, Bool, false, List, [], ◌∷◌, ◌++◌, Option, none, some, ◌≡◌, refl, if◌then◌else◌, ◌==◌,
  Result, ok, err, Bool-cases, Option-cases, inl, inr, ap, sym, ◌∙◌, eq_iff, In, flat_map, filter,
  ◌↔◌,
}
use mathlib.Core.List.{append_assoc, append-nil}
use fab_dns.Base.Map
use fab_dns.Base.Map.{lookup-insert}
use fab_dns.Base.Equality.{string_eq}
use fab_dns.Api.{Endpoint, ObjectReference}
use fab_dns.Hub.Exporter.{
  Env, Failure, panic, listed, by_name, by_address_type, get_endpoints_of_headless_service,
}
use fab_dns.Hub.Slices.{
  ClusterInfo, SliceEndpoint, EndpointSlice, address_type_fqdn, new_endpoint, with_addresses,
  add_named, add_endpoint, add_endpoints, add_slices,
}

-- The endpoints of all slices that are not slices of domain names, in order.
abbrev pub addressed : List EndpointSlice → List SliceEndpoint
addressed [] = []
addressed (es ∷ slices) =
    if es.address_type == address_type_fqdn
    then addressed slices
    else es.endpoints ++ addressed slices

abbrev pub is_named : String → Option ObjectReference → Bool
is_named name none = false
is_named name (some ref) = ref.name == name

-- Those of a target; an endpoint without a target has none.
abbrev pub targets : String → SliceEndpoint → Bool
targets name ep = is_named name ep.target_ref

module _ (cluster : ClusterInfo) where
  -- The endpoint of a target after more endpoints of it.
  abbrev pub gather : Option Endpoint → List SliceEndpoint → Option Endpoint
  gather o [] = o
  gather o (ep ∷ eps) = gather (some (with_addresses cluster o ep)) eps

  -- The loop goes on after a first part.
  abbrev then_add :
      List SliceEndpoint → Option (List (String × Endpoint)) → Option (List (String × Endpoint))
  then_add ys none = none
  then_add ys (some m) = add_endpoints cluster ys m

  add_endpoints-append :
      (xs ys : List SliceEndpoint) (m : List (String × Endpoint))
      → add_endpoints cluster (xs ++ ys) m ≡ then_add ys (add_endpoints cluster xs m)
  unfolding add_endpoints add_endpoint
  add_endpoints-append [] ys m = refl
  add_endpoints-append (ep ∷ xs) ys m =
      go (add_endpoint cluster ep ep.target_ref m) (add_endpoints-append xs ys)
    where
      go :
          (o : Option (List (String × Endpoint)))
          → ((m' : List (String × Endpoint))
              → add_endpoints cluster (xs ++ ys) m' ≡ then_add ys (add_endpoints cluster xs m'))
          → then_add (xs ++ ys) o ≡ then_add ys (then_add xs o)
      go none ih = refl
      go (some m') ih = ih m'

  -- The two loops are one loop over the endpoints of all slices.
  pub add_slices_lem :
      (slices : List EndpointSlice) (m : List (String × Endpoint))
      → add_slices cluster slices m ≡ add_endpoints cluster (addressed slices) m
  unfolding add_slices
  add_slices_lem [] m = unfold add_endpoints in refl
  add_slices_lem (es ∷ slices) m = elim (Bool-cases (es.address_type == address_type_fqdn)) [
    | inl t ↦ rw (t, add_slices) (add_slices_lem slices m)
    | inr t ↦
        rw (t, add_slices, add_endpoints-append es.endpoints (addressed slices) m)
          (go (add_endpoints cluster es.endpoints m) (add_slices_lem slices))
  ]
    where
      go :
          (o : Option (List (String × Endpoint)))
          → ((m' : List (String × Endpoint))
              → add_slices cluster slices m' ≡ add_endpoints cluster (addressed slices) m')
          → elim o [ none ↦ none | some m' ↦ add_slices cluster slices m' ]
            ≡ then_add (addressed slices) o
      go none ih = refl
      go (some m') ih = ih m'

  add_endpoint_lem :
      (ep : SliceEndpoint) (ref : Option ObjectReference) (m m' : List (String × Endpoint))
      (name : String)
      → add_endpoint cluster ep ref m ≡ some m'
      → Map.lookup name m' ≡ (
          if is_named name ref
          then some (with_addresses cluster (Map.lookup name m) ep)
          else Map.lookup name m)
  unfolding add_endpoint
  add_endpoint_lem ep none m m' name h = cc
  add_endpoint_lem ep (some ref) m m' name h =
      let same : add_named cluster ep ref.name m ≡ m' = cc in
      rw (← same) (
        lookup-insert ref.name name (with_addresses cluster (Map.lookup ref.name m) ep) m
        ∙ (elim (Bool-cases (ref.name == name)) [
          | inl t ↦ rw t (
              ap (λ (n : String). some (with_addresses cluster (Map.lookup n m) ep))
                ((eq_iff ref.name name).0 t))
          | inr t ↦ rw t refl
        ]))

  -- Without a panic, each target has gathered its endpoints.
  add_endpoints_lem :
      (eps : List SliceEndpoint) (m m' : List (String × Endpoint)) (name : String)
      → add_endpoints cluster eps m ≡ some m'
      → Map.lookup name m' ≡ gather (Map.lookup name m) (filter (targets name) eps)
  unfolding add_endpoints add_endpoint
  add_endpoints_lem [] m m' name h = let same : m ≡ m' = cc in rw same refl
  add_endpoints_lem (ep ∷ eps) m m' name h =
      elim (Option-cases (add_endpoint cluster ep ep.target_ref m)) [
        | inl stuck ↦
            let k : ◌≡◌ {A = Option (List (String × Endpoint))} none (some m') =
              rw (stuck, add_endpoints) at h in
            cc
        | inr (m1, added) ↦
            let ih = add_endpoints_lem eps m1 m' name (rw (added, add_endpoints) at h) in
            ih
            ∙ (rw (add_endpoint_lem ep ep.target_ref m m1 name added)
                (elim (Bool-cases (targets name ep)) [ inl t ↦ rw t refl | inr t ↦ rw t refl ]))
      ]

  -- What a target has gathered: the first endpoint, with the addresses of all.
  gather_lem :
      (e : Endpoint) (eps : List SliceEndpoint)
      → gather (some e) eps
        ≡ some (record e {
          addresses = e.addresses ++ flat_map (λ (ep : SliceEndpoint). ep.addresses) eps;
        })
  gather_lem e [] = rw (append-nil e.addresses) refl
  gather_lem e (ep ∷ eps) =
      gather_lem (record e { addresses = e.addresses ++ ep.addresses }) eps
      ∙ (rw
          (append_assoc e.addresses ep.addresses
            (flat_map (λ (x : SliceEndpoint). x.addresses) eps))
          refl)

-- The endpoint that is exported for a target: hostname and target of the first of its endpoints, the
-- addresses of all, and the cluster, zone and region of the exporter.
abbrev pub pod_of : ClusterInfo → List SliceEndpoint → Option Endpoint
pod_of cluster [] = none
pod_of cluster (ep ∷ eps) = some (record (new_endpoint cluster ep) {
  addresses = flat_map (λ (x : SliceEndpoint). x.addresses) (ep ∷ eps);
})

gather_first :
    (cluster : ClusterInfo) (eps : List SliceEndpoint)
    → gather cluster none eps ≡ pod_of cluster eps
gather_first cluster [] = refl
gather_first cluster (ep ∷ eps) = gather_lem cluster (new_endpoint cluster ep) eps

pub gathered :
    (cluster : ClusterInfo) (slices : List EndpointSlice) (m : List (String × Endpoint))
    (name : String)
    → add_slices cluster slices [] ≡ some m
    → Map.lookup name m ≡ pod_of cluster (filter (targets name) (addressed slices))
unfolding Map.lookup
gathered cluster slices m name h =
    add_endpoints_lem cluster (addressed slices) [] m name
      (sym (add_slices_lem cluster slices []) ∙ h)
    ∙ gather_first cluster (filter (targets name) (addressed slices))

listed_ok :
    {W : Type 0} (env : Env W) (cluster : ClusterInfo) (slices : List EndpointSlice)
    (endpoints : List Endpoint)
    → listed env cluster (ok slices) ≡ ok endpoints
    → (m : List (String × Endpoint)) × (add_slices cluster (by_address_type env slices) [] ≡ some m)
      × (by_name env (env.range m) ≡ endpoints)
unfolding listed
listed_ok env cluster slices endpoints h =
    go (add_slices cluster (by_address_type env slices) []) refl h
  where
    go :
        (o : Option (List (String × Endpoint)))
        → add_slices cluster (by_address_type env slices) [] ≡ o
        → ◌≡◌ {A = Result Failure (List Endpoint)}
            (elim o [ none ↦ err panic | some m ↦ ok (by_name env (env.range m)) ])
            (ok endpoints)
        → (m : List (String × Endpoint)) × (add_slices cluster (by_address_type env slices) []
            ≡ some m)
          × (by_name env (env.range m) ≡ endpoints)
    go none e k = cc
    go (some m) e k = (m, e, cc)

module _ {W : Type 0} (env : Env W) (cluster : ClusterInfo)
    (sorts : (e : Endpoint) (es : List Endpoint) → In e (by_name env es) ↔ In e es)
    (ranges : (e : Endpoint) (m : List (String × Endpoint))
      → In e (env.range m) ↔ ((name : String) × (Map.lookup name m ≡ some e))) where
  -- If sorting keeps the elements and `range` meets the value of each key: whenever the endpoints of a
  -- headless service are collected without a failure, they are exactly one endpoint for each target
  -- name that occurs in the slices of addresses, with the addresses of all endpoints of that target,
  -- in the order in which the slices were sorted.
  pub headless-pods :
      (namespace service_name : String) (w : W) (slices : List EndpointSlice)
      (endpoints : List Endpoint)
      → (env.list_slices namespace service_name w).0 ≡ ok slices
      → (get_endpoints_of_headless_service env namespace service_name cluster w).0 ≡ ok endpoints
      → (e : Endpoint)
      → In e endpoints ↔ (
          (name : String) × (pod_of cluster
              (filter (targets name) (addressed (by_address_type env slices)))
            ≡ some e))
  unfolding get_endpoints_of_headless_service
  headless-pods namespace service_name w slices endpoints got collected e =
      let done : listed env cluster (ok slices) ≡ ok endpoints = rw got at collected in
      let (m, added, same) = listed_ok env cluster slices endpoints done in
      let sorted = by_address_type env slices in
      (
        λ i.
            let (name, found) = (ranges e m).0 ((sorts e (env.range m)).0 (rw (← same) at i)) in
            (name, sym (gathered cluster sorted m name added) ∙ found),
        λ p.
            let (name, pod) = p in
            rw (← same) (
              (sorts e (env.range m)).1
                ((ranges e m).1 (name, gathered cluster sorted m name added ∙ pod))),
      )
