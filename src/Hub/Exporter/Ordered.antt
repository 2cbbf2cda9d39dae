-- ===== src/Hub/Exporter/Ordered.antt =====
-- What the endpoints of a headless service do not depend on: the order in which the client lists the
-- slices, in which `range` meets the map of endpoints, and in which a sort leaves equals.
pub mod Entries
pub mod Slices
use fab_dns.Base.{
  String, List, [], Option, none, some, ◌≡◌, refl, sym, ap, ◌∙◌, In, inl, inr, Result, ok, err,
  Option-cases,
}
use fab_dns.Base.Map
use fab_dns.Base.Entries.{lookup-In}
use fab_dns.Base.Map.{has_value}
use fab_dns.Base.Sorting.{SortLaws, IsDistinct, IsAscending-eq, IsDistinct-Permᴰ, Permᴰ-In}
use fab_dns.Base.Equality.{string_eq}
use mathlib.Core.List.{Permᴰ, map}
use mathlib.Core.List.Permᴰ
use fab_dns.Api.{Endpoint}
use fab_dns.Hub.Exporter.{
  Env, Failure, panic, listed, by_name, by_address_type, get_endpoints_of_headless_service,
}
use fab_dns.Hub.Slices.{
  ClusterInfo, EndpointSlice, add_slices, less_by_name, less_by_address_type, target_name,
}
use fab_dns.Hub.Exporter.Ordered.Entries.{
  key, values, IsNamed, IsNamed-values, In-values, values-In, In-lookup, add_slices-IsNamed,
}
use fab_dns.Hub.Exporter.Ordered.Slices.{IsSingle, sorted_same, targets-eq, add_slices-has_value}
use fab_dns.Hub.Exporter.Headless.{pod_of, gathered}

-- What the documentation of Go promises of `sort.Sort`, and of `range` on a map: each entry once.
pub record OrderLaws {W : Type 0} (env : Env W) : Type 0 where
  pub slices : SortLaws less_by_address_type (by_address_type env)
  pub endpoints : SortLaws less_by_name (by_name env)
  pub entries : (m : List (String × Endpoint)) → IsDistinct key m → Permᴰ (env.range m) (values m)

-- What `range` meets has no target name twice.
ranged-IsDistinct :
    {W : Type 0} (env : Env W)
    → OrderLaws env
    → (m : List (String × Endpoint)) → IsNamed m
    → IsDistinct target_name (env.range m)
ranged-IsDistinct env laws m named =
    IsDistinct-Permᴰ target_name (Permᴰ.symm (laws.entries m named.0)) (IsNamed-values m named)

-- What one collects, the other collects.
within :
    {W : Type 0} (env env' : Env W) (laws : OrderLaws env) (laws' : OrderLaws env')
    (m m' : List (String × Endpoint))
    → IsNamed m
    → IsNamed m'
    → ((name : String) → Map.lookup name m ≡ Map.lookup name m')
    → (e : Endpoint) → In e (by_name env (env.range m))
    → In e (by_name env' (env'.range m'))
within env env' laws laws' m m' named named' same e i =
    let stored =
      Permᴰ-In e (laws.entries m named.0) (Permᴰ-In e (laws.endpoints.perm (env.range m)) i) in
    let (name, here) = In-values e m stored in
    let found = sym (same name) ∙ In-lookup name e m named.0 here in
    Permᴰ-In e (Permᴰ.symm (laws'.endpoints.perm (env'.range m'))) (
      Permᴰ-In e (Permᴰ.symm (laws'.entries m' named'.0))
        (values-In name e m' (lookup-In name e m' found)))

module _ {W : Type 0} (env env' : Env W) (laws : OrderLaws env) (laws' : OrderLaws env') where
  ranged_same :
      (m m' : List (String × Endpoint))
      → IsNamed m
      → IsNamed m'
      → ((name : String) → Map.lookup name m ≡ Map.lookup name m')
      → by_name env (env.range m) ≡ by_name env' (env'.range m')
  ranged_same m m' named named' same =
      let distinct = λ (e : Env W) (l : OrderLaws e) (n : List (String × Endpoint)) (h : IsNamed n).
        IsDistinct-Permᴰ target_name (Permᴰ.symm (l.endpoints.perm (e.range n)))
          (ranged-IsDistinct e l n h) in
      IsAscending-eq target_name (by_name env (env.range m)) (by_name env' (env'.range m'))
        (laws.endpoints.ascending (env.range m)) (laws'.endpoints.ascending (env'.range m'))
        (distinct env laws m named) (distinct env' laws' m' named')
        (within env env' laws laws' m m' named named' same)
        (within env' env laws' laws m' m named' named (λ name. sym (same name)))

  module _ (cluster : ClusterInfo) (slices slices' : List EndpointSlice)
      (same : Permᴰ slices slices') (single : IsSingle slices) where
    looked_up_same :
        (m m' : List (String × Endpoint))
        → add_slices cluster (by_address_type env slices) [] ≡ some m
        → add_slices cluster (by_address_type env' slices') [] ≡ some m'
        → (name : String) → Map.lookup name m ≡ Map.lookup name m'
    looked_up_same m m' h h' name =
        gathered cluster (by_address_type env slices) m name h
        ∙ ap (pod_of cluster) (
            targets-eq (by_address_type env) (by_address_type env') laws.slices laws'.slices slices
              slices' same single name)
        ∙ sym (gathered cluster (by_address_type env' slices') m' name h')

    listed_same : listed env cluster (ok slices) ≡ listed env' cluster (ok slices')
    unfolding listed
    listed_same =
        go (add_slices cluster (by_address_type env slices) [])
          (add_slices cluster (by_address_type env' slices') []) refl refl
          (add_slices-has_value cluster (
            sorted_same (by_address_type env) (by_address_type env') laws.slices laws'.slices slices
              slices' same))
      where
        go :
            (o o' : Option (List (String × Endpoint)))
            → add_slices cluster (by_address_type env slices) [] ≡ o
            → add_slices cluster (by_address_type env' slices') [] ≡ o'
            → has_value o ≡ has_value o'
            → ◌≡◌ {A = Result Failure (List Endpoint)}
                (elim o [ none ↦ err panic | some m ↦ ok (by_name env (env.range m)) ])
                (elim o' [ none ↦ err panic | some m ↦ ok (by_name env' (env'.range m)) ])
        go none none h h' both = refl
        go none (some m') h h' both = cc
        go (some m) none h h' both = cc
        go (some m) (some m') h h' both =
            ap (λ (es : List Endpoint). ok es)
              (ranged_same m m' (add_slices-IsNamed cluster (by_address_type env slices) m h)
                (add_slices-IsNamed cluster (by_address_type env' slices') m' h')
                (looked_up_same m m' h h'))

    -- Take two exporters whose sorts and `range` keep the promises of Go, and lists of the same
    -- slices, in which no target has two endpoints of one address type. Whatever the order of the
    -- slices, of the entries of the map and of equals in the sorts, both collect the same endpoints in
    -- the same order, or both panic.
    pub get_endpoints_of_headless_service-ordered :
        (namespace service_name : String) (w w' : W)
        → (env.list_slices namespace service_name w).0 ≡ ok slices
        → (env'.list_slices namespace service_name w').0 ≡ ok slices'
        → (get_endpoints_of_headless_service env namespace service_name cluster w).0
          ≡ (get_endpoints_of_headless_service env' namespace service_name cluster w').0
    unfolding get_endpoints_of_headless_service
    get_endpoints_of_headless_service-ordered namespace service_name w w' h h' =
        rw (h, h') listed_same
