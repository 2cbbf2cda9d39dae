-- ===== src/Hub/Links.antt =====
-- The client and the exporter linked to a server over the store of the tests.
use fab_dns.Base.{
  pos, String, true, false, List, [], ◌∷◌, Option, none, some, ◌≡◌, refl, if◌then◌else◌, ◌==◌, ok,
  err,
}
use fab_dns.Base.Map
use fab_dns.Base.Equality.{string_eq}
use fab_dns.Api.{Endpoint, GlobalService, empty_meta, cluster_ip}
use fab_dns.Kube.{other}
use fab_dns.Kube.Memory.{Memory, memory, memory_laws}
use fab_dns.Hub.Namespace.{ensure}
use fab_dns.Hub.Manager.{create_or_merge_global_service, revoke_global_service, remove_endpoints}
use fab_dns.Hub.Manager.Merging.{exported_by}
use fab_dns.Hub.ApiServer
use fab_dns.Hub.ApiServer.{Route, serve, clean, clean_items}
use fab_dns.Hub.Client
use fab_dns.Hub.Client.{
  Method, method_get, method_post, method_delete, HttpRequest, HttpResponse, http_error,
  path_heartbeat, heartbeat, upload_global_service, delete_global_service,
  download_all_global_services, parsed,
}
use fab_dns.Hub.Client.Responses.{client-http_error}
use fab_dns.Hub.Client.Roundtrip.{
  linked_client, upload_global_service-exported_by, delete_global_service-exported_by,
}
use fab_dns.Hub.Client.Downloads.{AreCleaned, download-AreCleaned}
use fab_dns.Hub.Exporter
use fab_dns.Hub.Slices
use fab_dns.Hub.Exporter.{
  Service, should_skip_service, endpoints_for, global_service_for, reconcile,
}
use fab_dns.Hub.Exporter.Deliveries.{exporter, reconcile-exported_by}
use fab_dns.Hub.Tests.{memory_readable, endpoint, nginx, stored, nginx_key, two}
use fab_dns.Base.Sorting.Insertion.{sort_by}
use fab_dns.Hub.Runs.{beijing, range_of, ranges, sorts}

abbrev pub address : Endpoint
address = record (endpoint "10.0.0.9" "beijing") { zone = "z1"; region = "north" }

abbrev pub exported : GlobalService
exported = record {
  metadata = record empty_meta { name = "nginx"; namespace = "default"; cluster_name = "beijing" };
  spec = record {
    type = cluster_ip;
    ports = record { name = "http"; protocol = "TCP"; port = 80; app_protocol = none } ∷ [];
    endpoints = address ∷ [];
  };
}

-- A server to which every body is the same service.
abbrev pub plain : ApiServer.Env Memory
plain = record {
  list = memory.list;
  create_or_merge_global_service = create_or_merge_global_service memory true;
  revoke_global_service = revoke_global_service memory;
  marshal = λ items. ok "[]";
  unmarshal = λ text. ok exported;
  error_text = λ e. "error";
  cluster_expire_duration = pos 60;
}

abbrev route_for : Method → String → Option Route
route_for method_post url = some ApiServer.upload_global_service
route_for method_delete url = some (ApiServer.delete_endpoints "default" "nginx")
route_for method_get url =
    if url == path_heartbeat
    then some ApiServer.heartbeat
    else some ApiServer.get_all_global_services

abbrev pub router : HttpRequest → Option Route
router request = route_for request.method request.url

abbrev unavailable : HttpResponse
unavailable = record { status_code = 503; content = "down"; read_error = none }

abbrev pub unrouted : HttpRequest → ApiServer.State Memory → HttpResponse × ApiServer.State Memory
unrouted request s = (unavailable, s)

-- The client of a hub that is down.
abbrev pub env : Client.Env (ApiServer.State Memory)
env = record {
  cluster_name = "beijing";
  join = λ path. path;
  new_request = λ request. none;
  send = λ request s. (ok unavailable, s);
  marshal = λ gs. ok "{}";
  unmarshal = λ text. if text == "" then err "no JSON" else ok (clean_items (nginx ∷ []));
}

abbrev pub initial : ApiServer.State Memory
initial = record { cluster_store = two; world = stored }

client-http_error_example :
    ((heartbeat env initial).0 ≡ some (http_error 503 "down"))
    × ((upload_global_service env exported initial).0 ≡ some (http_error 503 "down"))
    × ((delete_global_service env "default" "nginx" initial).0 ≡ some (http_error 503 "down"))
    × ((download_all_global_services env initial).0 ≡ parsed env (env.unmarshal ""))
client-http_error_example =
    client-http_error unavailable refl refl env (λ request. refl) (λ request s. refl) exported "{}"
      "default" "nginx" initial refl

abbrev client : Client.Env (ApiServer.State Memory)
client = linked_client memory memory_laws true plain 5 router unrouted env two stored

uploads : (upload_global_service client exported initial).0 ≡ none
unfolding upload_global_service serve create_or_merge_global_service ensure memory
uploads = refl

upload_global_service-exported_by_example :
    exported_by "beijing"
      (memory_laws.content_at (upload_global_service client exported initial).1.world nginx_key)
    ≡ address ∷ []
upload_global_service-exported_by_example =
    upload_global_service-exported_by memory memory_laws true plain 5 router unrouted env two stored
      exported "{}" refl refl refl (refl, tt) uploads nginx_key "beijing"

deletes : (delete_global_service client "default" "nginx" initial).0 ≡ none
unfolding delete_global_service serve revoke_global_service memory Map.lookup Map.insert
    remove_endpoints
deletes = refl

delete_global_service-exported_by_example :
    exported_by "beijing" (
      memory_laws.content_at
        (delete_global_service client "default" "nginx" initial).1.world
        nginx_key)
    ≡ []
delete_global_service-exported_by_example =
    delete_global_service-exported_by memory memory_laws true plain 5 router unrouted env two stored
      "default" "nginx" refl (memory_readable nginx_key stored) deletes nginx_key "beijing"

abbrev listed : List GlobalService
listed = nginx ∷ []

abbrev sent : List GlobalService
sent = clean nginx ∷ []

listed_cleaned : AreCleaned listed sent
listed_cleaned = (
  record {
    same_key = refl;
    same_version = refl;
    same_spec = refl;
    no_cluster = refl;
    no_labels = refl;
  },
  tt,
)

download-AreCleaned_example :
    ((download_all_global_services client initial).0 ≡ ok sent)
    × ((download_all_global_services client initial).1.world ≡ (memory.list stored).1)
unfolding clean_items
download-AreCleaned_example =
    download-AreCleaned memory memory_laws true plain 5 router unrouted env two stored listed sent
      "[]" refl refl (unfold memory in refl) listed_cleaned refl refl

abbrev pub service : Service
service = record {
  metadata = record empty_meta {
    name = "nginx";
    namespace = "default";
    labels = ("fabedge.io/global-service", "true") ∷ [];
  };
  type = "ClusterIP";
  cluster_ip = "10.0.0.9";
  cluster_ips = "10.0.0.9" ∷ [];
  ports = exported.spec.ports;
}

-- A cluster with that service alone.
abbrev pub local : Exporter.Env (ApiServer.State Memory)
local = record {
  get_global_service = λ key s. (ok nginx, s);
  get_service = λ key s. (ok service, s);
  list_slices = λ namespace name s. (ok [], s);
  export_global_service = λ gs s. (none, s);
  revoke_global_service = λ cluster namespace name s. (none, s);
  sort_slices = λ less slices. sort_by less slices;
  sort_endpoints = λ less endpoints. sort_by less endpoints;
  range = range_of;
}

abbrev pub linked_exporter : Exporter.Env (ApiServer.State Memory)
linked_exporter =
    exporter memory memory_laws true plain 5 router unrouted env two stored local
      (λ e. other "failed") beijing

pub wanted : should_skip_service service ≡ false
unfolding should_skip_service
wanted = refl

pub exports :
    (reconcile linked_exporter beijing nginx_key
      (record { service_key_set = []; world = initial })).0
    ≡ none
unfolding reconcile should_skip_service upload_global_service serve create_or_merge_global_service
    ensure memory
exports = refl

reconcile-exported_by_example :
    exported_by "beijing" (
      memory_laws.content_at
        (reconcile linked_exporter beijing nginx_key
          (record { service_key_set = []; world = initial })).1.world.world
        nginx_key)
    ≡ address ∷ []
unfolding endpoints_for global_service_for
reconcile-exported_by_example =
    reconcile-exported_by memory memory_laws true plain 5 router unrouted env two stored local
      (λ e. other "failed") beijing (sorts Slices.less_by_name) ranges nginx_key [] service
      (address ∷ []) "{}" refl wanted refl refl refl refl exports nginx_key "beijing"
