-- ===== src/Fabdns/Serve/Answers.antt =====
-- What `ServeDNS` answers from the services that the client finds.
use Prim.Native.String.{slice, len}
use fab_dns.Base.{
  ◌-◌, not, String, true, false, List, [], ◌∷◌, ◌++◌, none, ◌≡◌, ◌≢◌, ◌⊎◌, ◌↔◌, inl, refl, arith,
  ◌==◌, ◌&&◌, ◌||◌, nat_beq, Result, ok, fun_ext, In, eq_iff, ◌∙◌,
}
use fab_dns.Api.{GlobalService}
use fab_dns.Kube.{ApiError}
use fab_dns.Fabdns.Parse.{RecordRequest, parse_request, label_svc}
use fab_dns.Fabdns.Parse.Formats.{global, parse_labels_iff}
use fab_dns.Fabdns.Records.{Request, Rr, type_a, type_aaaa, generate_records}
use fab_dns.Fabdns.Records.Zone.{generate_records-zone}
use fab_dns.Fabdns.Global.Locality.{IsNearby, global_records_nearest}
use fab_dns.Fabdns.Serve.{
  Env, FabDns, Io, serve_dns, serve_parsed, get_global_records, get_ad_hoc_records, found_or_error,
  global_records_found, ad_hoc_records_found, rcode_success, generate,
}

module _ {W : Type 0} (env : Env W) (f : FabDns) where
  -- The two lookups ask the client once, for the service of the request.
  pub get_global_records_lem :
      (state : Request) (r : RecordRequest) (io : Io W) (found : Result ApiError GlobalService)
      (w : W)
      → r.namespace ≢ ""
      → r.service ≢ ""
      → (r.hostname ≡ "") ⊎ (r.cluster ≢ "")
      → env.get (record { namespace = r.namespace; name = r.service }) io.world ≡ (found, w)
      → get_global_records env f state r io
        ≡ (global_records_found env f state r (found_or_error env f found), record io { world = w })
  unfolding get_global_records
  get_global_records_lem state r io found w n s h e =
      let named : (r.namespace == "" || r.service == "") ≡ false =
        ground (arith, eq_iff r.namespace "", eq_iff r.service "") in
      let valid : (not (r.hostname == "") && r.cluster == "") ≡ false =
        ground (arith, eq_iff r.hostname "", eq_iff r.cluster "") in
      rw (named, valid, e)

  pub get_ad_hoc_records_lem :
      (state : Request) (r : RecordRequest) (io : Io W) (found : Result ApiError GlobalService)
      (w : W)
      → env.get (record { namespace = r.namespace; name = r.service }) io.world ≡ (found, w)
      → get_ad_hoc_records env f state r io
        ≡ (ad_hoc_records_found env f state r (found_or_error env f found), record io { world = w })
  unfolding get_ad_hoc_records
  get_ad_hoc_records_lem state r io found w e = rw e

module _ {W : Type 0} (env : Env W) (f : FabDns) (request : Request) (before : Io W)
    (in_zone : env.matches f.zones request.qname ≢ "")
    (supported : (request.qtype ≡ type_a) ⊎ (request.qtype ≡ type_aaaa)) where
  -- The state with the zone that the name matched.
  abbrev pub zoned : Request
  zoned =
      let zone = env.matches f.zones request.qname in
      record request {
        zone = slice request.qname (len request.qname - len zone) (len request.qname);
      }

  pub serve_dns-zoned :
      serve_dns env f request before
      ≡ serve_parsed env f zoned (parse_request env.split_domain_name request.qname) before
  serve_dns-zoned =
      let matched : (env.matches f.zones request.qname == "") ≡ false =
        ground (arith, eq_iff (env.matches f.zones request.qname) "") in
      let known : (not (nat_beq request.qtype type_a) && not (nat_beq request.qtype type_aaaa))
          ≡ false =
        ground arith in
      unfold serve_dns in rw (matched, known)

  pub generate-zoned : generate env f zoned ≡ generate_records env.net f.ttl request
  unfolding generate
  generate-zoned = fun_ext (generate_records-zone env.net f.ttl request _)

  -- A query of type A or AAAA for a service in any cluster, whose name lies in a zone of the plugin and
  -- has the labels `service.namespace.svc.<last>`, the first two of them not empty, is answered, if the
  -- client finds the service, with one authoritative success message, and no other plugin is asked. The
  -- message holds exactly the records of the nearest endpoints: those of an endpoint such that every
  -- endpoint nearer to the plugin's cluster (same cluster, then same zone, then same region, then the
  -- rest) yields no record of the queried type.
  pub serve_dns-nearest :
      (s n last : String) (service : GlobalService) (w : W)
      → env.split_domain_name request.qname ≡ s ∷ n ∷ label_svc ∷ last ∷ []
      → s ≢ ""
      → n ≢ ""
      → env.get (record { namespace = n; name = s }) before.world ≡ (ok service, w)
      → (answer : List Rr) × (serve_dns env f request before ≡ (
        (rcode_success, none),
        record {
          world = w;
          written =
              before.written
              ++ record { authoritative = true; rcode = rcode_success; answer = answer } ∷ [];
        },
      ))
        × ((r : Rr)
            → In r answer
              ↔ IsNearby
                  (generate_records env.net f.ttl request)
                  f.cluster
                  service.spec.endpoints
                  r)
  serve_dns-nearest s n last service w labels s_given n_given found =
      let r : RecordRequest = record {
        hostname = "";
        cluster = "";
        service = s;
        namespace = n;
        is_ad_hoc = false;
      } in
      let parsed : parse_request env.split_domain_name request.qname ≡ ok r =
        unfold parse_request in
        (parse_labels_iff (env.split_domain_name request.qname) r).1
          (global s n last labels refl) in
      let (answer, same, near) =
        global_records_nearest (generate_records env.net f.ttl request) f.cluster "" service in
      let looked =
        get_global_records_lem env f zoned r before (ok service) w n_given s_given (inl refl)
          found in
      (
        answer,
        serve_dns-zoned
            ∙ (rw parsed (unfold serve_parsed in rw (looked, generate-zoned, same) refl)),
        near,
      )
