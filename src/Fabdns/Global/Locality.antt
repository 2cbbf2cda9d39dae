-- ===== src/Fabdns/Global/Locality.antt =====
-- `getGlobalRecords` without a cluster in the request: the nearest endpoints are answered.
use native.Mathlib.Decide.{ℕ_discrete}
use fab_dns.Base.{
  ℕ, suc, ◌<◌, ◌≤◌, String, false, List, [], ◌≡◌, ◌↔◌, ◌⊎◌, inl, inr, sym, subst, arith, ltb,
  length, if◌then◌else◌, flat_map, In, List-cases, In-filter, filter-In, In-flat_map, flat_map-In,
  flat_map-eq-nil, flat_map-nil, In-length, ok,
}
use fab_dns.Api.{Endpoint, GlobalService}
use fab_dns.Fabdns.Records.{Rr}
use fab_dns.Fabdns.Global.{ClusterInfo, no_buckets, collect, choose, global_records_of}
use fab_dns.Fabdns.Global.Tiers.{tier, at_tier, records_at, collect_tiers, all_records_lem}

below-suc : (P : ℕ → Type 0) (n : ℕ) → ((k : ℕ) → k < n → P k) → P n → (k : ℕ) → k < suc n → P k
below-suc P n below here k h = elim (ℕ_discrete k n) [
  | yes e ↦ subst P (sym e) here
  | no ne ↦ below k (omega arith)
]

below-zero : (P : ℕ → Type 0) (k : ℕ) → k < 0 → P k
below-zero P k h = absurd (omega arith)

module _ (generate : Endpoint → List Rr) (here : ClusterInfo) (endpoints : List Endpoint) where
  -- Every endpoint nearer than this one yields no record.
  abbrev pub IsNearest : Endpoint → Type 0
  IsNearest endpoint =
      (other : Endpoint)
      → In other endpoints
      → tier here other < tier here endpoint
      → generate other ≡ []

  -- The record is one of a nearest endpoint.
  abbrev pub IsNearby : Rr → Type 0
  IsNearby r =
      (endpoint : Endpoint) × In endpoint endpoints × In r (generate endpoint) × IsNearest endpoint

  -- No endpoint at the distance yields a record.
  abbrev IsQuiet : ℕ → Type 0
  IsQuiet n = records_at generate here n endpoints ≡ []

  IsQuiet-tier :
      (n : ℕ)
      → ((k : ℕ) → k < n → IsQuiet k)
      → (endpoint : Endpoint) → tier here endpoint ≤ n
      → IsNearest endpoint
  IsQuiet-tier n quiet endpoint h other i lt =
      flat_map-eq-nil generate (at_tier generate here (tier here other) endpoints)
        (quiet (tier here other) (omega arith)) other (filter-In _ other endpoints i (ground arith))

  -- The converse, at every distance below that of a nearest endpoint.
  IsNearest-IsQuiet :
      (endpoint : Endpoint) → IsNearest endpoint → (k : ℕ) → k < tier here endpoint → IsQuiet k
  IsNearest-IsQuiet endpoint near k h =
      flat_map-nil generate (at_tier generate here k endpoints)
        λ other i. let (j, same) = In-filter _ other endpoints i in near other j (ground arith)

  tier-IsNearby :
      (n : ℕ) (r : Rr)
      → ((k : ℕ) → k < n → IsQuiet k)
      → In r (records_at generate here n endpoints)
      → IsNearby r
  tier-IsNearby n r quiet h =
      let (e, i, j) = In-flat_map generate r (at_tier generate here n endpoints) h in
      let (i', same) = In-filter _ e endpoints i in
      (e, i', j, IsQuiet-tier n quiet e (ground arith))

  all-IsNearby :
      (r : Rr) → ((k : ℕ) → k < 3 → IsQuiet k) → In r (flat_map generate endpoints) → IsNearby r
  all-IsNearby r quiet h =
      let (e, i, j) = In-flat_map generate r endpoints h in
      (e, i, j, IsQuiet-tier 3 quiet e (ground arith))

  -- The first of the four lists that has a record; the last one in any case.
  abbrev pub nearest : List Rr
  nearest =
      if ltb 0 (length (records_at generate here 0 endpoints))
      then records_at generate here 0 endpoints
      else if ltb 0 (length (records_at generate here 1 endpoints))
      then records_at generate here 1 endpoints
      else if ltb 0 (length (records_at generate here 2 endpoints))
      then records_at generate here 2 endpoints
      else flat_map generate endpoints

  choose-nearest :
      (hostname : String)
      → choose generate here false endpoints
          (collect generate here false here.name hostname no_buckets endpoints)
        ≡ ok nearest
  unfolding choose
  choose-nearest hostname =
      rw
        (
          collect_tiers generate here hostname no_buckets endpoints,
          all_records_lem generate here endpoints,
        )
        (ground arith)

  quiet0 : (k : ℕ) → k < 0 → IsQuiet k
  quiet0 = below-zero IsQuiet

  nearest_sound : (r : Rr) → In r nearest → IsNearby r
  nearest_sound r h = elim (List-cases (records_at generate here 0 endpoints)) [
    | inr t ↦ tier-IsNearby 0 r quiet0 (rw t at h)
    | inl q0 ↦
        let quiet1 = below-suc IsQuiet 0 quiet0 q0 in
        elim (List-cases (records_at generate here 1 endpoints)) [
          | inr t ↦ tier-IsNearby 1 r quiet1 (rw (q0, t) at h)
          | inl q1 ↦
              let quiet2 = below-suc IsQuiet 1 quiet1 q1 in
              elim (List-cases (records_at generate here 2 endpoints)) [
                | inr t ↦ tier-IsNearby 2 r quiet2 (rw (q0, q1, t) at h)
                | inl q2 ↦ all-IsNearby r (below-suc IsQuiet 2 quiet2 q2) (rw (q0, q1, q2) at h)
              ]
        ]
  ]

  -- A record of an endpoint is among those at its distance.
  In-records_at :
      (n : ℕ) (r : Rr) (e : Endpoint)
      → In e endpoints
      → In r (generate e)
      → tier here e ≡ n
      → In r (records_at generate here n endpoints)
  In-records_at n r e i j same =
      flat_map-In generate e r (at_tier generate here n endpoints)
        (filter-In _ e endpoints i (ground arith)) j

  tier_cases :
      (e : Endpoint) → (tier here e ≡ 0) ⊎ (tier here e ≡ 1) ⊎ (tier here e ≡ 2) ⊎ (tier here e ≡ 3)
  tier_cases e = ground arith

  nearest_complete : (r : Rr) → IsNearby r → In r nearest
  nearest_complete r (e, i, j, near) = elim (tier_cases e) [
    | inl t ↦ let m = In-records_at 0 r e i j t in rw (In-length r _ m) m
    | inr rest ↦
        let q0 = IsNearest-IsQuiet e near 0 (omega arith) in
        elim rest [
          | inl t ↦ let m = In-records_at 1 r e i j t in rw (q0, In-length r _ m) m
          | inr rest' ↦
              let q1 = IsNearest-IsQuiet e near 1 (omega arith) in
              elim rest' [
                | inl t ↦ let m = In-records_at 2 r e i j t in rw (q0, q1, In-length r _ m) m
                | inr t ↦
                    let q2 = IsNearest-IsQuiet e near 2 (omega arith) in
                    rw (q0, q1, q2) (flat_map-In generate e r endpoints i j)
              ]
        ]
  ]

module _ (generate : Endpoint → List Rr) (here : ClusterInfo) (hostname : String)
    (service : GlobalService) where
  -- A query without a cluster name never fails on a service that was found, and is answered with
  -- exactly the records of the nearest endpoints: those of an endpoint such that every endpoint
  -- nearer to the plugin's cluster (same cluster, then same zone, then same region, then the rest)
  -- yields no record of the queried type.
  pub global_records_nearest :
      (records : List Rr) × (global_records_of generate here "" hostname service ≡ ok records)
      × ((r : Rr) → In r records ↔ IsNearby generate here service.spec.endpoints r)
  unfolding global_records_of
  global_records_nearest = (
    nearest generate here service.spec.endpoints,
    choose-nearest generate here service.spec.endpoints hostname,
    λ r. (
      nearest_sound generate here service.spec.endpoints r,
      nearest_complete generate here service.spec.endpoints r,
    ),
  )
