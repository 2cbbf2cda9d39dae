-- ===== src/Hub/Manager/Removal.antt =====
-- The loop of `removeEndpoints` against a filter.
use fab_dns.Base.{
  ℕ, zero, suc, ◌≤◌, String, Bool, not, List, [], ◌∷◌, ◌++◌, none, some, ◌≡◌, refl, ap, arith,
  length, get_elem?, filter, ◌==◌, inl, inr, Bool-cases, length-append,
}
use mathlib.Core.List.{append_assoc, append-nil}
use fab_dns.Api.{Endpoint}
use fab_dns.Hub.Manager.{remove_at, next_index, next_endpoints, remove_from, remove_endpoints}

-- The endpoint is one of the cluster; the other endpoints.
abbrev pub is_from : String → Endpoint → Bool
is_from cluster e = e.cluster == cluster

abbrev pub is_elsewhere : String → Endpoint → Bool
is_elsewhere cluster e = not (e.cluster == cluster)

get_elem?-append :
    (kept : List Endpoint) (e : Endpoint) (rest : List Endpoint)
    → get_elem? (kept ++ e ∷ rest) (length kept) ≡ some e
get_elem?-append [] e rest = refl
get_elem?-append (x ∷ kept) e rest = get_elem?-append kept e rest

remove_at-append :
    (kept : List Endpoint) (e : Endpoint) (rest : List Endpoint)
    → remove_at (length kept) (kept ++ e ∷ rest) ≡ kept ++ rest
unfolding remove_at
remove_at-append [] e rest = refl
remove_at-append (x ∷ kept) e rest = ap (◌∷◌ x) (remove_at-append kept e rest)

get_elem?-length : (kept : List Endpoint) → get_elem? kept (length kept) ≡ none
get_elem?-length [] = refl
get_elem?-length (x ∷ kept) = get_elem?-length kept

length-concat : (kept : List Endpoint) (e : Endpoint) → suc (length kept) ≡ length (kept ++ e ∷ [])
length-concat kept e = omega (arith, length-append {0} kept (e ∷ []))

-- With the endpoints that were kept before the index, and fuel for those from the index on.
remove_from_lem :
    (fuel : ℕ) (cluster : String) (kept rest : List Endpoint)
    → length rest ≤ fuel
    → remove_from fuel cluster (length kept) (kept ++ rest)
      ≡ kept ++ filter (is_elsewhere cluster) rest
unfolding remove_from next_index next_endpoints
remove_from_lem zero cluster kept [] h = refl
remove_from_lem zero cluster kept (e ∷ rest) h = absurd (omega arith)
remove_from_lem (suc fuel) cluster kept [] h =
    rw append-nil (rw (get_elem?-length kept, remove_from))
remove_from_lem (suc fuel) cluster kept (e ∷ rest) h = elim (Bool-cases (e.cluster == cluster)) [
  | inl t ↦
      rw (get_elem?-append kept e rest, t, remove_at-append kept e rest, remove_from)
        (remove_from_lem fuel cluster kept rest (omega arith))
  | inr t ↦
      let ih = remove_from_lem fuel cluster (kept ++ e ∷ []) rest (omega arith) in
      rw (get_elem?-append kept e rest, t, remove_from)
        (rw (← length-concat kept e, append_assoc, append_assoc) at ih)
]

-- However many rounds beyond the number of endpoints the loop is given, it has ended with the
-- endpoints of the cluster dropped and all others kept, in their order.
pub remove_from-filter :
    (fuel : ℕ) (endpoints : List Endpoint) (cluster : String)
    → length endpoints ≤ fuel
    → remove_from fuel cluster 0 endpoints ≡ filter (is_elsewhere cluster) endpoints
remove_from-filter fuel endpoints cluster enough = remove_from_lem fuel cluster [] endpoints enough

pub remove_endpoints_lem :
    (endpoints : List Endpoint) (cluster : String)
    → remove_endpoints endpoints cluster ≡ filter (is_elsewhere cluster) endpoints
unfolding remove_endpoints
remove_endpoints_lem endpoints cluster =
    remove_from-filter (length endpoints) endpoints cluster (omega arith)
