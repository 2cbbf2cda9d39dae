-- ===== src/System/Tests.antt =====
-- The plugin at a cluster that the importer has written.
use fab_dns.Base.{ℕ, true, false, List, [], ◌∷◌, none, some, ◌≡◌, refl, In, inl, inr, ◌↔◌, eq_iff}
use fab_dns.Base.Map
use fab_dns.Api.{GlobalService, key_of}
use fab_dns.Kube.{Content, content_of, not_found}
use fab_dns.Kube.Memory.{Memory, memory, memory_laws}
use fab_dns.Fabdns.Records.{Rr, generate_records}
use fab_dns.Fabdns.Global.Locality.{IsNearby}
use fab_dns.Fabdns.Serve.{Env, Io, serve_dns}
use fab_dns.Fabdns.Serve.Failures.{failed}
use fab_dns.Fabdns.Errors.{wrapped}
use fab_dns.Fabdns.Tests.{net, query, fab_dns_plugin, here, ne}
use fab_dns.Hub.Importer.{origin, run_tasks}
use fab_dns.Hub.Importer.Tasks.{has_key}
use fab_dns.Hub.Manager.Revoking.{IsRead}
use fab_dns.Hub.Tests.{nginx, nginx_key, memory_readable}
use fab_dns.Hub.Ticks.{
  before, downloads, items, tasks, distinct_downloads, listed_before, tasks_started, tasks_done,
}
use fab_dns.System.Answers.{over_client, IsAnswered, serve_dns-import_services}

abbrev plain : Env Memory
plain = record {
  matches = λ zones q. "global.";
  split_domain_name = λ q. "nginx" ∷ "default" ∷ "svc" ∷ "global" ∷ [];
  through = λ zones q. false;
  net = net;
  get = memory.get;
  next_or_failure = λ name io. ((5, none), io);
  plugin_error = λ name e. wrapped name;
}

abbrev io : Io Memory
io = record { world = run_tasks memory true tasks before; written = [] }

-- The service that is there has no version noted.
honest :
    (svc : GlobalService) (c : Content)
    → In svc downloads
    → memory_laws.content_at before (key_of svc) ≡ some c
    → origin c.labels ≡ svc.metadata.resource_version
    → c.spec ≡ svc.spec
unfolding Map.lookup memory_laws origin
honest svc c (inl e) at noted =
    let stored : some (content_of nginx) ≡ some c = rw e at at in
    let was : content_of nginx ≡ c = cc in
    let same : "" ≡ "7" = rw (← was, e) at noted in
    let no : false ≡ true = (eq_iff "" "7").1 same in cc
honest svc c (inr i) at noted = absurd i

readable : IsRead (memory.get nginx_key io.world).0
readable = memory_readable nginx_key io.world

serve_dns-import_services_example :
    ((svc : GlobalService)
      → In svc downloads
      → key_of svc ≡ nginx_key
      → (answer : List Rr) × IsAnswered memory memory_laws plain fab_dns_plugin query nginx_key io
          answer
        × ((r : Rr)
            → In r answer ↔ IsNearby (generate_records net 5 query) here svc.spec.endpoints r))
    × (has_key nginx_key downloads ≡ false
        → serve_dns
            (over_client memory memory_laws plain fab_dns_plugin query)
            fab_dns_plugin
            query
            io
          ≡ failed
              (over_client memory memory_laws plain fab_dns_plugin query)
              fab_dns_plugin
              query
              not_found
              (record io { world = (memory.get nginx_key io.world).1 }))
serve_dns-import_services_example =
    serve_dns-import_services memory memory_laws plain fab_dns_plugin query true ℕ downloads items
      tasks io before distinct_downloads listed_before tasks_started tasks_done honest refl
      (ne "global." refl) (inl refl) "nginx" "default" "global" refl (ne "nginx" refl)
      (ne "default" refl) readable
