-- ===== src/Hub/Exporter/Ordered/Slices.antt =====
-- The endpoints of a target in the sorted slices.
use fab_dns.Base.{
  String, Bool, false, not, ◌||◌, List, [], ◌∷◌, ◌++◌, Option, none, some, ◌≡◌, refl, sym, ap, ◌∙◌,
  In, inl, inr, if◌then◌else◌, ◌==◌, Bool-cases, filter, flat_map, any, map, In-flat_map, arith,
}
use fab_dns.Base.Map.{has_value}
use fab_dns.Base.Sorting.{
  SortLaws, IsAscending, IsAscending-append, IsAscending-filter, IsDistinct, IsAscending-eq,
  IsDistinct-Permᴰ, Permᴰ-In, filter-Permᴰ, flat_map-Permᴰ, less_name, less_text,
}
use text.Mathlib.TextPositions.{compare_refl}
use mathlib.Core.List.{Permᴰ}
use mathlib.Core.List.Permᴰ
use fab_dns.Api.{Endpoint, ObjectReference}
use fab_dns.Hub.Slices.{
  ClusterInfo, SliceEndpoint, EndpointSlice, address_type_fqdn, add_endpoint, add_endpoints,
  add_slices, add_named, less_by_address_type,
}
use fab_dns.Hub.Exporter.Headless.{addressed, targets, add_slices_lem}

abbrev second : String × SliceEndpoint → SliceEndpoint
second p = p.1

abbrev first : String × SliceEndpoint → String
first p = p.0

abbrev pair_with : String → SliceEndpoint → String × SliceEndpoint
pair_with t ep = (t, ep)

-- The endpoints of a slice, with its address type, unless it is one of domain names.
abbrev typed_slice : EndpointSlice → List (String × SliceEndpoint)
typed_slice es =
    if es.address_type == address_type_fqdn
    then []
    else map (pair_with es.address_type) es.endpoints

abbrev pub typed : List EndpointSlice → List (String × SliceEndpoint)
typed slices = flat_map typed_slice slices

abbrev pub typed_targets : String → List EndpointSlice → List (String × SliceEndpoint)
typed_targets name slices = filter (λ (p : String × SliceEndpoint). targets name p.1) (typed slices)

-- No target has two endpoints of one address type.
abbrev pub IsSingle : List EndpointSlice → Type 0
IsSingle slices = (name : String) → IsDistinct first (typed_targets name slices)

map-append :
    (xs ys : List (String × SliceEndpoint)) → map second (xs ++ ys) ≡ map second xs ++ map second ys
map-append [] ys = refl
map-append (x ∷ xs) ys = ap (λ (l : List SliceEndpoint). x.1 ∷ l) (map-append xs ys)

map-pair_with : (t : String) (eps : List SliceEndpoint) → map second (map (pair_with t) eps) ≡ eps
map-pair_with t [] = refl
map-pair_with t (ep ∷ eps) = ap (λ (l : List SliceEndpoint). ep ∷ l) (map-pair_with t eps)

addressed-typed : (slices : List EndpointSlice) → addressed slices ≡ map second (typed slices)
addressed-typed [] = refl
addressed-typed (es ∷ slices) = elim (Bool-cases (es.address_type == address_type_fqdn)) [
  | inl t ↦ rw t (addressed-typed slices)
  | inr t ↦
      rw
        (
          t,
          addressed-typed slices,
          map-append (map (pair_with es.address_type) es.endpoints) (typed slices),
          map-pair_with es.address_type es.endpoints,
        )
        refl
]

filter-second :
    (p : SliceEndpoint → Bool) (xs : List (String × SliceEndpoint))
    → filter p (map second xs) ≡ map second (filter (λ (x : String × SliceEndpoint). p x.1) xs)
filter-second p [] = refl
filter-second p (x ∷ xs) = elim (Bool-cases (p x.1)) [
  | inl t ↦ rw t (ap (λ (l : List SliceEndpoint). x.1 ∷ l) (filter-second p xs))
  | inr t ↦ rw t (filter-second p xs)
]

targets-typed :
    (name : String) (slices : List EndpointSlice)
    → filter (targets name) (addressed slices) ≡ map second (typed_targets name slices)
targets-typed name slices =
    rw (addressed-typed slices) (filter-second (targets name) (typed slices))

pair_with-In :
    (t : String) (eps : List SliceEndpoint) (x : String × SliceEndpoint)
    → In x (map (pair_with t) eps)
    → x.0 ≡ t
pair_with-In t [] x i = absurd i
pair_with-In t (ep ∷ eps) x (inl e) = ap first e
pair_with-In t (ep ∷ eps) x (inr i) = pair_with-In t eps x i

typed_slice-In :
    (es : EndpointSlice) (x : String × SliceEndpoint)
    → In x (typed_slice es)
    → x.0 ≡ es.address_type
typed_slice-In es x i = elim (Bool-cases (es.address_type == address_type_fqdn)) [
  | inl t ↦ absurd (rw t at i)
  | inr t ↦ pair_with-In es.address_type es.endpoints x (rw t at i)
]

same_text : (s t u : String) → s ≡ u → t ≡ u → less_text s t ≡ false
same_text s t u e k = rw (e, k, compare_refl u) refl

equal-IsAscending :
    (u : String) (xs : List (String × SliceEndpoint))
    → ((x : String × SliceEndpoint) → In x xs → x.0 ≡ u)
    → IsAscending (less_name first) xs
equal-IsAscending u [] h = tt
equal-IsAscending u (x ∷ xs) h = (
  λ y i. same_text y.0 x.0 u (h y (inr i)) (h x (inl refl)),
  equal-IsAscending u xs (λ y i. h y (inr i)),
)

typed-IsAscending :
    (slices : List EndpointSlice)
    → IsAscending less_by_address_type slices
    → IsAscending (less_name first) (typed slices)
typed-IsAscending [] h = tt
typed-IsAscending (es ∷ slices) h =
    IsAscending-append (less_name first) (typed_slice es) (typed slices)
      (equal-IsAscending es.address_type (typed_slice es) (typed_slice-In es))
      (typed-IsAscending slices h.1)
      (λ x y i j.
        let (fs, k, l) = In-flat_map typed_slice y slices j in
        let le = h.0 fs k in rw (typed_slice-In es x i, typed_slice-In fs y l) le)

module _ (sort sort' : List EndpointSlice → List EndpointSlice)
    (laws : SortLaws less_by_address_type sort) (laws' : SortLaws less_by_address_type sort')
    (slices slices' : List EndpointSlice) (same : Permᴰ slices slices') where
  pub sorted_same : Permᴰ (sort slices) (sort' slices')
  sorted_same = Permᴰ.trans (laws.perm slices) (Permᴰ.trans same (Permᴰ.symm (laws'.perm slices')))

  typed_targets-eq :
      IsSingle slices
      → (name : String) → typed_targets name (sort slices) ≡ typed_targets name (sort' slices')
  typed_targets-eq single name =
      let p = λ (x : String × SliceEndpoint). targets name x.1 in
      let across : Permᴰ (typed_targets name (sort slices)) (typed_targets name (sort' slices')) =
        filter-Permᴰ p (flat_map-Permᴰ typed_slice sorted_same) in
      let first_one : Permᴰ (typed_targets name slices) (typed_targets name (sort slices)) =
        filter-Permᴰ p (flat_map-Permᴰ typed_slice (Permᴰ.symm (laws.perm slices))) in
      let distinct = IsDistinct-Permᴰ first first_one (single name) in
      IsAscending-eq first (typed_targets name (sort slices)) (typed_targets name (sort' slices'))
        (IsAscending-filter (less_name first) p (typed (sort slices))
          (typed-IsAscending (sort slices) (laws.ascending slices)))
        (IsAscending-filter (less_name first) p (typed (sort' slices'))
          (typed-IsAscending (sort' slices') (laws'.ascending slices')))
        distinct (IsDistinct-Permᴰ first across distinct) (λ a. Permᴰ-In a across)
        (λ a. Permᴰ-In a (Permᴰ.symm across))

  -- Both have the endpoints of a target in the same order.
  pub targets-eq :
      IsSingle slices
      → (name : String)
      → filter (targets name) (addressed (sort slices))
        ≡ filter (targets name) (addressed (sort' slices'))
  targets-eq single name =
      targets-typed name (sort slices)
      ∙ ap (λ (l : List (String × SliceEndpoint)). map second l) (typed_targets-eq single name)
      ∙ sym (targets-typed name (sort' slices'))

-- The loops stop at an endpoint without a target.
abbrev untargeted : SliceEndpoint → Bool
untargeted ep = not (has_value ep.target_ref)

any-Permᴰ :
    (p : SliceEndpoint → Bool) {xs ys : List SliceEndpoint} → Permᴰ xs ys → any p xs ≡ any p ys
any-Permᴰ p Permᴰ.nil = refl
any-Permᴰ p (Permᴰ.cons {a} {b} e h) = rw (e, any-Permᴰ p h) refl
any-Permᴰ p (Permᴰ.swap {a} {b} {a'} {b'} {l} e f) = rw (e, f) (swapped (p b') (p a') (any p l))
  where
    swapped : (a b c : Bool) → a || (b || c) ≡ b || (a || c)
    swapped a b c = ground arith
any-Permᴰ p (Permᴰ.trans h k) = any-Permᴰ p h ∙ any-Permᴰ p k

add_endpoints-has_value :
    (cluster : ClusterInfo) (eps : List SliceEndpoint) (m : List (String × Endpoint))
    → has_value (add_endpoints cluster eps m) ≡ not (any untargeted eps)
unfolding add_endpoints add_endpoint
add_endpoints-has_value cluster [] m = refl
add_endpoints-has_value cluster (ep ∷ eps) m =
    go ep.target_ref (add_endpoints-has_value cluster eps)
  where
    go :
        (o : Option ObjectReference)
        → ((m' : List (String × Endpoint))
            → has_value (add_endpoints cluster eps m') ≡ not (any untargeted eps))
        → has_value (elim (add_endpoint cluster ep o m) [
          | none ↦ none
          | some m' ↦ add_endpoints cluster eps m'
        ])
          ≡ not (not (has_value o) || any untargeted eps)
    go none ih = refl
    go (some ref) ih = ih (add_named cluster ep ref.name m)

-- Whether the loops stop depends on the slices only, not on their order.
pub add_slices-has_value :
    (cluster : ClusterInfo) {slices slices' : List EndpointSlice}
    → Permᴰ slices slices'
    → has_value (add_slices cluster slices []) ≡ has_value (add_slices cluster slices' [])
add_slices-has_value cluster {slices} {slices'} same =
    let across : Permᴰ (addressed slices) (addressed slices') =
      rw (addressed-typed slices, addressed-typed slices')
        (Permᴰ.map second (flat_map-Permᴰ typed_slice same)) in
    rw
      (
        add_slices_lem cluster slices [],
        add_slices_lem cluster slices' [],
        add_endpoints-has_value cluster (addressed slices) [],
        add_endpoints-has_value cluster (addressed slices') [],
        any-Permᴰ untargeted across,
      )
      refl
