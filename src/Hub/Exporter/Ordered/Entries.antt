-- ===== src/Hub/Exporter/Ordered/Entries.antt =====
-- The map of endpoints: each is stored under the name of its target, and no name twice.
use fab_dns.Base.{
  String, true, List, [], ◌∷◌, Option, none, some, ◌≡◌, refl, sym, ap, ◌∙◌, In, inl, inr, ◌==◌,
  Bool-cases, eq_iff, filter,
}
use fab_dns.Base.Map
use fab_dns.Base.Entries.{In-insert}
use fab_dns.Base.Equality.{string_eq}
use fab_dns.Base.Sorting.{IsDistinct}
use fab_dns.Api.{Endpoint, ObjectReference}
use fab_dns.Hub.Slices.{
  ClusterInfo, SliceEndpoint, EndpointSlice, target_name, add_named, add_endpoint, add_endpoints,
  add_slices,
}
use fab_dns.Hub.Exporter.Headless.{pod_of, is_named, targets, addressed, gathered, add_slices_lem}

abbrev pub key : String × Endpoint → String
key entry = entry.0

-- The endpoints of a map, in the order of its entries.
abbrev pub values : List (String × Endpoint) → List Endpoint
values [] = []
values ((k, e) ∷ m) = e ∷ values m

pub In-values :
    (e : Endpoint) (m : List (String × Endpoint)) → In e (values m) → (k : String) × In (k, e) m
In-values e [] i = absurd i
In-values e ((k, v) ∷ m) (inl same) = (k, inl (ap (λ (x : Endpoint). (k, x)) same))
In-values e ((k, v) ∷ m) (inr i) = let (j, h) = In-values e m i in (j, inr h)

pub values-In :
    (k : String) (e : Endpoint) (m : List (String × Endpoint)) → In (k, e) m → In e (values m)
values-In k e [] i = absurd i
values-In k e ((j, v) ∷ m) (inl same) = inl (ap (λ (x : String × Endpoint). x.1) same)
values-In k e ((j, v) ∷ m) (inr i) = inr (values-In k e m i)

-- A key stands once, so its entry is what a lookup finds.
pub In-lookup :
    (k : String) (e : Endpoint) (m : List (String × Endpoint))
    → IsDistinct key m
    → In (k, e) m
    → Map.lookup k m ≡ some e
unfolding Map.lookup
In-lookup k e [] d i = absurd i
In-lookup k e ((j, v) ∷ m) d (inl same) =
    let k_same : k ≡ j = ap key same in
    let e_same : e ≡ v = ap (λ (x : String × Endpoint). x.1) same in
    rw ((eq_iff j k).1 (sym k_same)) (ap (λ (x : Endpoint). some x) (sym e_same))
In-lookup k e ((j, v) ∷ m) d (inr i) = elim (Bool-cases (j == k)) [
  | inl t ↦ absurd (d.0 (k, e) i (sym ((eq_iff j k).0 t)))
  | inr t ↦ rw t (In-lookup k e m d.1 i)
]

insert-IsDistinct :
    (k : String) (v : Endpoint) (m : List (String × Endpoint))
    → IsDistinct key m
    → IsDistinct key (Map.insert k v m)
unfolding Map.insert
insert-IsDistinct k v [] d = ((λ x i. absurd i), tt)
insert-IsDistinct k v ((j, w) ∷ m) d = elim (Bool-cases (j == k)) [
  | inl t ↦ rw (t, ← (eq_iff j k).0 t) d
  | inr t ↦ rw t (
      (
        λ x i same. elim (In-insert k x.0 v x.1 m i) [
          | inl here ↦ let no : (j == k) ≡ true = (eq_iff j k).1 (sym same ∙ sym here.0) in cc
          | inr later ↦ d.0 x later same
        ],
        insert-IsDistinct k v m d.1,
      ))
]

add_endpoints-IsDistinct :
    (cluster : ClusterInfo) (eps : List SliceEndpoint) (m m' : List (String × Endpoint))
    → IsDistinct key m
    → add_endpoints cluster eps m ≡ some m'
    → IsDistinct key m'
unfolding add_endpoints add_endpoint
add_endpoints-IsDistinct cluster [] m m' d h = let same : m ≡ m' = cc in rw (← same) d
add_endpoints-IsDistinct cluster (ep ∷ eps) m m' d h =
    go ep.target_ref (add_endpoints-IsDistinct cluster eps) h
  where
    go :
        (o : Option ObjectReference)
        → ((m1 m2 : List (String × Endpoint))
            → IsDistinct key m1
            → add_endpoints cluster eps m1 ≡ some m2
            → IsDistinct key m2)
        → elim (add_endpoint cluster ep o m) [
          | none ↦ none
          | some m1 ↦ add_endpoints cluster eps m1
        ]
          ≡ some m'
        → IsDistinct key m'
    go none ih k = cc
    go (some ref) ih k =
        ih (add_named cluster ep ref.name m) m' (insert-IsDistinct ref.name _ m d) k

pod_of-target_name :
    (cluster : ClusterInfo) (name : String) (eps : List SliceEndpoint) (e : Endpoint)
    → pod_of cluster (filter (targets name) eps) ≡ some e
    → target_name e ≡ name
pod_of-target_name cluster name [] e h = cc
pod_of-target_name cluster name (ep ∷ eps) e h = elim (Bool-cases (targets name ep)) [
  | inl t ↦
      ap (λ (o : Option Endpoint). elim o [ none ↦ name | some x ↦ target_name x ])
        (sym (rw t at h))
      ∙ named ep.target_ref t
  | inr t ↦ pod_of-target_name cluster name eps e (rw t at h)
]
  where
    named :
        (o : Option ObjectReference)
        → is_named name o ≡ true
        → elim o [ none ↦ "" | some ref ↦ ref.name ] ≡ name
    named none t = cc
    named (some ref) t = (eq_iff ref.name name).0 t

-- Every key is the name of the endpoint's target, and stands once.
abbrev pub IsNamed : List (String × Endpoint) → Type 0
IsNamed m = IsDistinct key m × ((k : String) (e : Endpoint) → In (k, e) m → target_name e ≡ k)

pub add_slices-IsNamed :
    (cluster : ClusterInfo) (slices : List EndpointSlice) (m : List (String × Endpoint))
    → add_slices cluster slices [] ≡ some m
    → IsNamed m
add_slices-IsNamed cluster slices m h =
    let d : IsDistinct key m =
      add_endpoints-IsDistinct cluster (addressed slices) [] m tt
        (sym (add_slices_lem cluster slices []) ∙ h) in
    (
      d,
      λ k e i.
          pod_of-target_name cluster k (addressed slices) e
            (sym (gathered cluster slices m k h) ∙ In-lookup k e m d i),
    )

pub IsNamed-values : (m : List (String × Endpoint)) → IsNamed m → IsDistinct target_name (values m)
IsNamed-values [] h = tt
IsNamed-values ((k, v) ∷ m) (d, named) = (
  λ e i same.
      let (j, here) = In-values e m i in
      d.0 (j, e) here (sym (named j e (inr here)) ∙ same ∙ named k v (inl refl)),
  IsNamed-values m (d.1, λ j e i. named j e (inr i)),
)
