-- ===== src/Fabdns/Global/Tiers.antt =====
-- What the loop of `getGlobalRecords` collects, against a grading of the endpoints by distance.
use fab_dns.Base.{
  ℕ, String, false, List, [], ◌∷◌, ◌++◌, ◌≡◌, refl, ◌∙◌, arith, nat_beq, if◌then◌else◌, ◌==◌,
  filter, flat_map,
}
use mathlib.Core.List.{append_assoc, append-nil}
use fab_dns.Api.{Endpoint}
use fab_dns.Fabdns.Records.{Rr}
use fab_dns.Fabdns.Global.{ClusterInfo, Buckets, place, collect, all_records}

-- How far an endpoint is from a cluster: 0 in the cluster, 1 in its zone, 2 in its region, 3 elsewhere.
abbrev pub tier : ClusterInfo → Endpoint → ℕ
tier here endpoint =
    if endpoint.cluster == here.name
    then 0
    else if endpoint.zone == here.zone
    then 1
    else if endpoint.region == here.region
    then 2
    else 3

module _ (generate : Endpoint → List Rr) (here : ClusterInfo) where
  abbrev pub at_tier : ℕ → List Endpoint → List Endpoint
  at_tier n = filter (λ (e : Endpoint). nat_beq (tier here e) n)

  -- The records of the endpoints at one distance.
  abbrev pub records_at : ℕ → List Endpoint → List Rr
  records_at n endpoints = flat_map generate (at_tier n endpoints)

  pub collect_tiers :
      (hostname : String) (b : Buckets) (endpoints : List Endpoint)
      → collect generate here false here.name hostname b endpoints ≡ record b {
        cluster_matched = b.cluster_matched ++ records_at 0 endpoints;
        in_zone = b.in_zone ++ records_at 1 endpoints;
        in_region = b.in_region ++ records_at 2 endpoints;
      }
  unfolding collect place
  collect_tiers hostname b [] = simp append-nil
  collect_tiers hostname b (e ∷ es) =
      collect_tiers hostname (place generate here false here.name hostname b e) es
      ∙ ground (
        arith,
        append_assoc b.cluster_matched (generate e) (records_at 0 es),
        append_assoc b.in_zone (generate e) (records_at 1 es),
        append_assoc b.in_region (generate e) (records_at 2 es),
      )

  pub all_records_lem :
      (endpoints : List Endpoint)
      → all_records generate here endpoints ≡ flat_map generate endpoints
  unfolding all_records
  all_records_lem [] = refl
  all_records_lem (e ∷ es) = rw (all_records_lem es)
