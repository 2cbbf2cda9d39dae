-- ===== src/Hub/Orders.antt =====
-- Two exporters at the same pods, whose client lists the slices in opposite orders and whose `range`
-- meets the entries of a map in opposite orders.
use fab_dns.Base.{
  ℕ, String, true, false, List, none, ◌≡◌, ◌≢◌, refl, sym, ap, ◌∙◌, inl, inr, ok, err, ◌==◌,
  Bool-cases, eq_iff,
}
use fab_dns.Base.Equality.{string_eq}
use fab_dns.Base.Sorting.{SortLaws, less_name}
use fab_dns.Base.Sorting.Insertion.{sort_by, sort_by-SortLaws}
use fab_dns.Base.Texts.{compare_asym, compare_trans}
use mathlib.Core.List.{Permᴰ, reverse}
use mathlib.Core.List.Permᴰ
use fab_dns.Api.{Endpoint}
use fab_dns.Kube.{other}
use fab_dns.Hub.Exporter.{Env, get_endpoints_of_headless_service}
use fab_dns.Hub.Slices.{SliceEndpoint, EndpointSlice, target_name}
use fab_dns.Hub.Exporter.Ordered.{OrderLaws, get_endpoints_of_headless_service-ordered}
use fab_dns.Hub.Exporter.Ordered.Entries.{values}
use fab_dns.Hub.Exporter.Ordered.Slices.{IsSingle}
use fab_dns.Hub.Runs.{beijing, slices}

abbrev listing : List EndpointSlice → (List (String × Endpoint) → List Endpoint) → Env ℕ
listing listed range = record {
  get_global_service = λ key n. (err (other "unused"), n);
  get_service = λ key n. (err (other "unused"), n);
  list_slices = λ namespace name n. (ok listed, n);
  export_global_service = λ svc n. (none, n);
  revoke_global_service = λ cluster namespace name n. (none, n);
  sort_slices = λ less l. sort_by less l;
  sort_endpoints = λ less l. sort_by less l;
  range = range;
}

sort_by_name-SortLaws :
    {A : Type 0} (name : A → String) → SortLaws (less_name name) (sort_by (less_name name))
sort_by_name-SortLaws name =
    sort_by-SortLaws (less_name name) (λ x y. compare_asym (name x) (name y))
      (λ x y z. compare_trans (name x) (name y) (name z))

listing-OrderLaws :
    (listed : List EndpointSlice) (range : List (String × Endpoint) → List Endpoint)
    → ((m : List (String × Endpoint)) → Permᴰ (range m) (values m))
    → OrderLaws (listing listed range)
listing-OrderLaws listed range perm = record {
  slices = sort_by_name-SortLaws (λ (es : EndpointSlice). es.address_type);
  endpoints = sort_by_name-SortLaws target_name;
  entries = λ m d. perm m;
}

apart : (s t : String) → (s == t) ≡ false → s ≢ t
apart s t h e = let k : (s == t) ≡ true = (eq_iff s t).1 e in cc

slices-IsSingle : IsSingle slices
slices-IsSingle name = elim (Bool-cases ("a" == name)) [
  | inl t ↦ elim (Bool-cases ("b" == name)) [
    | inl u ↦ absurd (apart "a" "b" refl ((eq_iff "a" name).0 t ∙ sym ((eq_iff "b" name).0 u)))
    | inr u ↦
        rw (t, u)
          ((
            λ y i e. elim i [
              | inl same ↦
                  apart "IPv6" "IPv4" refl (sym (ap (λ (x : String × SliceEndpoint). x.0) same) ∙ e)
              | inr i ↦ i
            ],
            ((λ y i e. i), tt),
          ))
  ]
  | inr t ↦ elim (Bool-cases ("b" == name)) [
    | inl u ↦ rw (t, u) ((λ y i e. i), tt)
    | inr u ↦ rw (t, u) tt
  ]
]

get_endpoints_of_headless_service-ordered_example :
    (get_endpoints_of_headless_service (listing slices values) "default" "web" beijing 0).0
    ≡ (get_endpoints_of_headless_service
        (listing (reverse slices) (λ m. reverse (values m)))
        "default"
        "web"
        beijing
        7).0
get_endpoints_of_headless_service-ordered_example =
    get_endpoints_of_headless_service-ordered (listing slices values)
      (listing (reverse slices) (λ m. reverse (values m)))
      (listing-OrderLaws slices values (λ m. Permᴰ.refl (values m)))
      (listing-OrderLaws (reverse slices) (λ m. reverse (values m)) (λ m. Permᴰ.reverse (values m)))
      beijing slices (reverse slices) (Permᴰ.symm (Permᴰ.reverse slices)) slices-IsSingle "default"
      "web" 0 7 refl refl
