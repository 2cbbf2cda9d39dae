-- ===== src/Fabdns/Serve/Clusters.antt =====
-- What `ServeDNS` answers to a query for a service in one cluster.
use fab_dns.Base.{String, true, [], ◌∷◌, ◌++◌, none, ◌≡◌, ◌≢◌, ◌⊎◌, refl, ◌∙◌, ok, filter, flat_map}
use fab_dns.Api.{GlobalService}
use fab_dns.Fabdns.Parse.{RecordRequest, parse_request}
use fab_dns.Fabdns.Parse.Formats.{in_cluster, parse_labels_iff}
use fab_dns.Fabdns.Records.{Request, type_a, type_aaaa, generate_records}
use fab_dns.Fabdns.Global.Headless
use fab_dns.Fabdns.Global.Headless.{ad_hoc_records_lem}
use fab_dns.Fabdns.Serve.{
  Env, FabDns, Io, serve_dns, serve_parsed, generate, ad_hoc_records_found, rcode_success,
}
use fab_dns.Fabdns.Serve.Answers.{zoned, serve_dns-zoned, generate-zoned, get_ad_hoc_records_lem}

module _ {W : Type 0} (env : Env W) (f : FabDns) (request : Request) (before : Io W)
    (in_zone : env.matches f.zones request.qname ≢ "")
    (supported : (request.qtype ≡ type_a) ⊎ (request.qtype ≡ type_aaaa)) where
  -- A query for a service in one cluster, whose name lies in a zone of the plugin and has five labels,
  -- `cluster.service.namespace.<any>.<last>`, is answered, if the client finds the service, with one
  -- authoritative success message that holds the records of the service's endpoints in that cluster, in
  -- order, also when there are none.
  pub serve_dns-in_cluster :
      (c s n x last : String) (service : GlobalService) (w : W)
      → env.split_domain_name request.qname ≡ c ∷ s ∷ n ∷ x ∷ last ∷ []
      → env.get (record { namespace = n; name = s }) before.world ≡ (ok service, w)
      → serve_dns env f request before ≡ (
        (rcode_success, none),
        record {
          world = w;
          written =
              before.written
              ++ record {
                authoritative = true;
                rcode = rcode_success;
                answer =
                    flat_map
                      (generate_records env.net f.ttl request)
                      (filter (Headless.in_cluster c) service.spec.endpoints);
              }
                ∷ [];
        },
      )
  serve_dns-in_cluster c s n x last service w labels found =
      let r : RecordRequest = record {
        hostname = "";
        cluster = c;
        service = s;
        namespace = n;
        is_ad_hoc = true;
      } in
      let parsed : parse_request env.split_domain_name request.qname ≡ ok r =
        unfold parse_request in
        (parse_labels_iff (env.split_domain_name request.qname) r).1
          (in_cluster c s n x last labels refl) in
      let state = zoned env f request before in_zone supported in
      let looked = get_ad_hoc_records_lem env f state r before (ok service) w found in
      let records = ad_hoc_records_lem (generate env f state) f.cluster c service.spec.endpoints in
      serve_dns-zoned env f request before in_zone supported
      ∙ rw parsed (
          unfold serve_parsed ad_hoc_records_found in
          rw (looked, records, generate-zoned env f request before in_zone supported) refl)
