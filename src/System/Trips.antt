-- ===== src/System/Trips.antt =====
-- A service that one cluster exports, another imports, and the plugin there answers.
use fab_dns.Base.{
  true, false, List, [], ◌∷◌, Option, none, some, ◌≡◌, ◌≢◌, refl, sym, ◌∙◌, In, ◌↔◌, inl, inr, ok,
  Bool-cases,
}
use fab_dns.Base.Map
use fab_dns.Api.{GlobalService, ObjectKey, empty_meta, key_of, key_beq}
use fab_dns.Kube.{Content, content_of, other}
use fab_dns.Kube.Memory.{Memory, memory, memory_laws}
use fab_dns.Fabdns.Serve.{Env, Io}
use fab_dns.Fabdns.Errors.{wrapped}
use fab_dns.Fabdns.Tests.{net, query, fab_dns_plugin, ne}
use fab_dns.Hub.Namespace.{ensure}
use fab_dns.Hub.KeySet
use fab_dns.Hub.Manager.{create_or_merge_global_service, merge_into, remove_endpoints}
use fab_dns.Hub.ApiServer.{State, clean, clean_items, serve}
use fab_dns.Hub.Client
use fab_dns.Hub.Client.{upload_global_service, download_all_global_services}
use fab_dns.Hub.Client.Roundtrip.{linked_client}
use fab_dns.Hub.Slices
use fab_dns.Hub.Exporter.{should_skip_service, endpoints_for, global_service_for, reconcile}
use fab_dns.Hub.Importer.{
  Task, create_or_update, run_task, run_tasks, origin, import_services,
  create_or_update_global_service,
}
use fab_dns.Hub.Importer.Tasks.{has_key}
use fab_dns.Hub.Importer.Running.{AreDone}
use fab_dns.Hub.Links.{
  address, exported, plain, router, unrouted, env, initial, service, local, linked_exporter, wanted,
  exports,
}
use fab_dns.Hub.Runs.{beijing, ranges, sorts}
use fab_dns.Hub.Tests.{endpoint, nginx, nginx_key, stored, two, memory_readable}
use fab_dns.System.Journeys.{IsAnsweredWith, serve_dns-reconcile}

-- The service in the hub after the export.
abbrev kept : GlobalService
kept = record nginx {
  metadata = record empty_meta { name = "nginx"; namespace = "default" };
  spec = record exported.spec { endpoints = endpoint "10.0.0.2" "shanghai" ∷ address ∷ [] };
}

abbrev served : List GlobalService
served = kept ∷ []

abbrev hub : State Memory
hub =
    (reconcile linked_exporter beijing nginx_key
      (record { service_key_set = []; world = initial })).1.world

exported_world :
    hub.world ≡ record { services = (nginx_key, content_of kept) ∷ []; namespaces = "default" ∷ [] }
unfolding reconcile should_skip_service upload_global_service serve create_or_merge_global_service
    ensure memory endpoints_for global_service_for Map.lookup Map.insert remove_endpoints merge_into
exported_world = refl

kept_stored :
    (item : GlobalService)
    → In item served
    → memory_laws.content_at hub.world (key_of item) ≡ some (content_of item)
unfolding memory_laws Map.lookup
kept_stored item (inl e) = rw (e, exported_world) refl
kept_stored item (inr i) = absurd i

kept_served :
    (j : ObjectKey) (c : Content)
    → memory_laws.content_at hub.world j ≡ some c
    → has_key j served ≡ true
unfolding memory_laws Map.lookup
kept_served j c at = elim (Bool-cases (key_beq nginx_key j)) [
  | inl t ↦ rw t refl
  | inr t ↦ let no : ◌≡◌ {A = Option Content} none (some c) = rw (exported_world, t) at at in cc
]

distinct_served : (a b : GlobalService) → In a served → In b served → key_of a ≡ key_of b → a ≡ b
distinct_served a b (inl p) (inl q) e = p ∙ sym q
distinct_served a b (inr i) (inl q) e = absurd i
distinct_served a b p (inr i) e = absurd i

listing : (memory.list hub.world).0 ≡ ok served
unfolding memory
listing = rw exported_world refl

-- A cluster without services.
abbrev bare : Memory
bare = record { services = []; namespaces = "default" ∷ [] }

bare_listed :
    (j : ObjectKey) (c : Content) → memory_laws.content_at bare j ≡ some c → has_key j [] ≡ true
unfolding memory_laws Map.lookup
bare_listed j c at = cc

bare_honest :
    (item : GlobalService) (c : Content)
    → In item (clean_items served)
    → memory_laws.content_at bare (key_of item) ≡ some c
    → origin c.labels ≡ item.metadata.resource_version
    → c.spec ≡ item.spec
unfolding memory_laws Map.lookup
bare_honest item c i at noted = cc

abbrev receiver : Client.Env (State Memory)
receiver = record env { unmarshal = λ text. ok (clean_items served) }

abbrev tasks : List Task
tasks = create_or_update (clean kept) ∷ []

abbrev importing : Client.Env (State Memory)
importing =
    linked_client memory memory_laws true plain 5 router unrouted receiver hub.cluster_store
      hub.world

started :
    (t : Task)
    → In t tasks ↔ In t (import_services (download_all_global_services importing hub).0 (ok []))
unfolding import_services KeySet.has KeySet.add KeySet.new_object_key_set Map.lookup Map.insert
    clean_items download_all_global_services
started t = ((λ i. i), (λ i. i))

tasks_end : AreDone memory memory_laws true tasks bare
unfolding run_task create_or_update_global_service ensure memory Map.lookup Map.delete
tasks_end = (refl, tt)

abbrev dns : Env Memory
dns = record {
  matches = λ zones q. "global.";
  split_domain_name = λ q. "beijing" ∷ "nginx" ∷ "default" ∷ "svc" ∷ "global" ∷ [];
  through = λ zones q. false;
  net = net;
  get = memory.get;
  next_or_failure = λ name io. ((5, none), io);
  plugin_error = λ name e. wrapped name;
}

abbrev io : Io Memory
io = record { world = run_tasks memory true tasks bare; written = [] }

some_address : address ∷ [] ≢ []
some_address e = cc

serve_dns-reconcile_example :
    IsAnsweredWith memory memory_laws dns fab_dns_plugin query io
      (ne "global." refl)
      (inl refl)
      nginx_key
      (address ∷ [])
unfolding endpoints_for global_service_for
serve_dns-reconcile_example =
    serve_dns-reconcile memory memory_laws true plain 5 router unrouted env two stored local
      (λ e. other "failed") beijing (sorts Slices.less_by_name) ranges nginx_key [] service
      (address ∷ []) "{}" refl wanted refl refl refl refl exports served kept_stored kept_served
      distinct_served memory memory_laws true [] tasks bare bare_listed bare_honest receiver "[]"
      refl refl listing refl refl started tasks_end dns fab_dns_plugin query io refl
      (ne "global." refl) (inl refl) "svc" "global" refl (memory_readable nginx_key io.world)
      some_address
