-- ===== src/Fabdns/Global/Headless.antt =====
-- `getGlobalRecords` with a cluster in the request, and `getAdHocRecords`.
use fab_dns.Base.{
  String, Bool, true, List, [], ◌∷◌, ◌++◌, ◌≡◌, ◌≢◌, refl, ◌∙◌, arith, if◌then◌else◌, ◌==◌, ◌&&◌,
  ◌||◌, filter, flat_map, any, ok, err, eq_iff,
}
use mathlib.Core.List.{append_assoc, append-nil}
use fab_dns.Api
use fab_dns.Api.{Endpoint, GlobalService}
use fab_dns.Fabdns.Errors.{no_items, invalid_request}
use fab_dns.Fabdns.Records.{Rr}
use fab_dns.Fabdns.Global.{
  ClusterInfo, Buckets, no_buckets, hostname_is, place, collect, choose, global_records_of,
  ad_hoc_records_of,
}

-- The endpoint is the pod of that hostname in that cluster.
abbrev pub is_pod : String → String → Endpoint → Bool
is_pod cluster hostname endpoint =
    endpoint.cluster == cluster && hostname_is endpoint.hostname hostname

-- The endpoint lies in the cluster.
abbrev pub in_cluster : String → Endpoint → Bool
in_cluster cluster endpoint = endpoint.cluster == cluster

module _ (generate : Endpoint → List Rr) (here : ClusterInfo) where
  collect_matched :
      (cluster hostname : String) (b : Buckets) (endpoints : List Endpoint)
      → (collect generate here true cluster hostname b endpoints).cluster_matched
        ≡ b.cluster_matched ++ flat_map generate (filter (is_pod cluster hostname) endpoints)
  unfolding collect
  collect_matched cluster hostname b [] = simp append-nil
  collect_matched cluster hostname b (e ∷ es) =
      collect_matched cluster hostname (place generate here true cluster hostname b e) es
      ∙ (unfold place in
          ground (
            arith,
            append_assoc b.cluster_matched (generate e)
                (flat_map generate (filter (is_pod cluster hostname) es)),
          ))

  collect_exist :
      (cluster hostname : String) (b : Buckets) (endpoints : List Endpoint)
      → (collect generate here true cluster hostname b endpoints).exist_headless_qname
        ≡ (b.exist_headless_qname || any (is_pod cluster hostname) endpoints)
  unfolding collect
  collect_exist cluster hostname b [] = ground arith
  collect_exist cluster hostname b (e ∷ es) =
      collect_exist cluster hostname (place generate here true cluster hostname b e) es
      ∙ (unfold place in ground arith)

  -- A query that names a cluster is refused unless the service is headless. Otherwise it is answered
  -- with the records of the endpoints in that cluster that bear the queried hostname, in order, and
  -- there are no items exactly when there is no such endpoint; zone and region play no part.
  pub global_records_headless :
      (cluster hostname : String) (service : GlobalService)
      → cluster ≢ ""
      → global_records_of generate here cluster hostname service ≡ (
          if service.spec.type == Api.headless
          then (if any (is_pod cluster hostname) service.spec.endpoints
              then ok (flat_map generate (filter (is_pod cluster hostname) service.spec.endpoints))
              else err no_items)
          else err invalid_request)
  unfolding global_records_of choose
  global_records_headless cluster hostname service h = ground (
    arith,
    eq_iff cluster "",
    collect_matched cluster hostname no_buckets service.spec.endpoints,
    collect_exist cluster hostname no_buckets service.spec.endpoints,
  )

  pub ad_hoc_records_lem :
      (cluster : String) (endpoints : List Endpoint)
      → ad_hoc_records_of generate here cluster endpoints
        ≡ flat_map generate (filter (in_cluster cluster) endpoints)
  unfolding ad_hoc_records_of
  ad_hoc_records_lem cluster [] = refl
  ad_hoc_records_lem cluster (e ∷ es) = ground (arith, ad_hoc_records_lem cluster es)
