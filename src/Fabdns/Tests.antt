-- ===== src/Fabdns/Tests.antt =====
-- The plugin at concrete queries: a service with endpoints in three clusters.
use fab_dns.Base.{
  ℕ, String, Bool, true, false, List, [], ◌∷◌, ◌++◌, none, some, ◌≡◌, ◌≢◌, ◌↔◌, ◌+◌, inl, inr, refl,
  ok, err, if◌then◌else◌, ◌==◌, In, length, filter, flat_map, eq_iff,
}
use fab_dns.Api.{Endpoint, GlobalService, empty_meta, headless, cluster_ip}
use fab_dns.Kube.{not_found}
use fab_dns.Fabdns.Errors.{wrapped}
use fab_dns.Fabdns.Parse.{RecordRequest, parse_labels, parse_request}
use fab_dns.Fabdns.Parse.Formats.{Denotes, parse_labels_iff}
use fab_dns.Fabdns.Records.{Request, Net, Rr, a, type_a, type_aaaa, generate_records}
use fab_dns.Fabdns.Records.Families.{IsRecordOf, asking, parsed, generate_records_partition}
use fab_dns.Fabdns.Global.{ClusterInfo, global_records_of}
use fab_dns.Fabdns.Global.Locality.{IsNearby, global_records_nearest}
use fab_dns.Fabdns.Global.Headless.{is_pod, global_records_headless}
use fab_dns.Fabdns.Serve.{Env, FabDns, Io, serve_dns, rcode_success}
use fab_dns.Fabdns.Serve.Replies.{Answered, serve_dns-Answered}
use fab_dns.Fabdns.Serve.Answers.{serve_dns-nearest}
use fab_dns.Fabdns.Serve.Failures.{failed, serve_dns-get_error}

abbrev is_four : List ℕ → Bool
is_four (x ∷ y ∷ z ∷ t ∷ []) = true
is_four _ = false

-- Addresses of four bytes, and one of another family.
abbrev pub net : Net
net = record {
  parse_ip = λ s.
      if s == "10.0.0.1"
      then some (10 ∷ 0 ∷ 0 ∷ 1 ∷ [])
      else if s == "10.0.0.2"
      then some (10 ∷ 0 ∷ 0 ∷ 2 ∷ [])
      else if s == "::1"
      then some (1 ∷ [])
      else none;
  to4 = λ b. if is_four b then some b else none;
  to16 = λ b. some b;
}

abbrev endpoint : String → String → String → String → Endpoint
endpoint address cluster zone region = record {
  addresses = address ∷ "::1" ∷ "bad" ∷ [];
  hostname = some "mysql-0";
  target_ref = none;
  cluster = cluster;
  zone = zone;
  region = region;
}

abbrev nginx : GlobalService
nginx = record {
  metadata = record empty_meta { name = "nginx"; namespace = "default" };
  spec = record {
    type = cluster_ip;
    ports = [];
    endpoints =
        endpoint "10.0.0.1" "shanghai" "zone1" "south"
        ∷ endpoint "10.0.0.2" "beijing" "zone2" "north"
        ∷ [];
  };
}

abbrev mysql : GlobalService
mysql = record nginx { spec = record nginx.spec { type = headless } }

abbrev pub here : ClusterInfo
here = record { name = "tianjin"; zone = "zone3"; region = "north" }

abbrev env : Env (Unit {0})
env = record {
  matches = λ zones q. "global.";
  split_domain_name = λ q. "nginx" ∷ "default" ∷ "svc" ∷ "global" ∷ [];
  through = λ zones q. false;
  net = net;
  get = λ k w. (if k.name == "nginx" then ok nginx else err not_found, w);
  next_or_failure = λ name io. ((5, none), io);
  plugin_error = λ name e. wrapped name;
}

abbrev pub fab_dns_plugin : FabDns
fab_dns_plugin = record { zones = "global." ∷ []; fall = []; ttl = 5; cluster = here }

abbrev pub query : Request
query = record {
  qname = "nginx.default.svc.global.";
  name = "nginx.default.svc.global.";
  qtype = type_a;
  qclass = 1;
  zone = "";
}

abbrev idle : Io (Unit {0})
idle = record { world = tt; written = [] }

-- The endpoint in the plugin's region is preferred, and only its IPv4 address is answered.
answer_test :
    (serve_dns env fab_dns_plugin query idle).1.written
    ≡ record {
      authoritative = true;
      rcode = 0;
      answer =
          a
            (record { name = "nginx.default.svc.global."; rrtype = 1; class = 1; ttl = 5 })
            (some (10 ∷ 0 ∷ 0 ∷ 2 ∷ []))
          ∷ [];
    }
      ∷ []
unfolding serve_dns parse_request global_records_of generate_records
answer_test = refl

pub ne : (s : String) → ((s == "") ≡ false) → s ≢ ""
ne s h = λ e. cc (h, (eq_iff s "").1 e)

serve_dns-nearest_example :
    (answer : List Rr) × (serve_dns env fab_dns_plugin query idle ≡ (
      (rcode_success, none),
      record {
        world = tt;
        written =
            [] ++ record { authoritative = true; rcode = rcode_success; answer = answer } ∷ [];
      },
    ))
    × ((r : Rr) → In r answer ↔ IsNearby (generate_records net 5 query) here nginx.spec.endpoints r)
serve_dns-nearest_example =
    serve_dns-nearest env fab_dns_plugin query idle (ne "global." refl) (inl refl) "nginx" "default"
      "global" nginx tt refl (ne "nginx" refl) (ne "default" refl) refl

serve_dns-Answered_example :
    Answered env fab_dns_plugin query idle (serve_dns env fab_dns_plugin query idle)
serve_dns-Answered_example = serve_dns-Answered env fab_dns_plugin query idle

global_records_nearest_example :
    (records : List Rr) × (global_records_of (generate_records net 5 query) here "" "" nginx
      ≡ ok records)
    × ((r : Rr)
        → In r records ↔ IsNearby (generate_records net 5 query) here nginx.spec.endpoints r)
global_records_nearest_example = global_records_nearest (generate_records net 5 query) here "" nginx

global_records_headless_example :
    global_records_of (generate_records net 5 query) here "beijing" "mysql-0" mysql
    ≡ ok (
        flat_map
          (generate_records net 5 query)
          (filter (is_pod "beijing" "mysql-0") mysql.spec.endpoints))
global_records_headless_example =
    global_records_headless (generate_records net 5 query) here "beijing" "mysql-0" mysql
      (ne "beijing" refl)

-- The client has no service of this name.
abbrev lost : Env (Unit {0})
lost = record env { split_domain_name = λ q. "web" ∷ "default" ∷ "svc" ∷ "global" ∷ [] }

abbrev lost_request : RecordRequest
lost_request = record {
  hostname = "";
  cluster = "";
  service = "web";
  namespace = "default";
  is_ad_hoc = false;
}

lost_parsed : parse_request lost.split_domain_name query.qname ≡ ok lost_request
unfolding parse_request
lost_parsed = refl

serve_dns-get_error_example :
    serve_dns lost fab_dns_plugin query idle ≡ failed lost fab_dns_plugin query not_found idle
serve_dns-get_error_example =
    serve_dns-get_error lost fab_dns_plugin query idle lost_request not_found tt (ne "global." refl)
      (inl refl) lost_parsed (inr (refl, ne "default" refl, ne "web" refl, inl refl)) refl

abbrev web_labels : List String
web_labels = "web" ∷ "default" ∷ "root" ∷ "global" ∷ []

abbrev web_request : RecordRequest
web_request = record {
  hostname = "";
  cluster = "root";
  service = "web";
  namespace = "default";
  is_ad_hoc = true;
}

parse_labels_iff_example :
    (parse_labels web_labels ≡ ok web_request) ↔ Denotes web_labels web_request
parse_labels_iff_example = parse_labels_iff web_labels web_request

abbrev local_endpoint : Endpoint
local_endpoint = endpoint "10.0.0.1" "shanghai" "zone1" "south"

generate_records_partition_example :
    ((r : Rr)
      → In r (generate_records net 5 query local_endpoint)
        ↔ IsRecordOf net 5 query local_endpoint.addresses r)
    × (length (generate_records net 5 (asking net 5 query type_a) local_endpoint)
          + length (generate_records net 5 (asking net 5 query type_aaaa) local_endpoint)
        ≡ parsed net local_endpoint.addresses)
generate_records_partition_example = generate_records_partition net 5 query local_endpoint
