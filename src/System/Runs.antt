-- ===== src/System/Runs.antt =====
-- A hub and a cluster that imports from it.
use fab_dns.Base.{
  true, List, [], ◌∷◌, Option, none, some, ◌≡◌, refl, sym, ◌∙◌, In, ◌↔◌, inl, inr, ok, Bool-cases,
}
use fab_dns.Base.Map
use fab_dns.Api.{GlobalService, ObjectKey, key_of, key_beq}
use fab_dns.Kube.{Content, content_of}
use fab_dns.Kube.Memory.{Memory, memory, memory_laws}
use fab_dns.Hub.Namespace.{ensure}
use fab_dns.Hub.KeySet
use fab_dns.Hub.Manager.{
  create_or_merge_global_service, revoke_global_service, merge_into, remove_endpoints,
}
use fab_dns.Hub.Manager.Merging.{exported_by}
use fab_dns.Hub.ApiServer.{Route, State, get_all_global_services, clean, clean_items, serve}
use fab_dns.Hub.ApiServer.Traces.{play}
use fab_dns.Hub.Client
use fab_dns.Hub.Client.{HttpRequest, HttpResponse, download_all_global_services}
use fab_dns.Hub.Importer.{
  Task, create_or_update, delete, run_task, run_tasks, origin, import_services,
  create_or_update_global_service,
}
use fab_dns.Hub.Importer.Tasks.{has_key}
use fab_dns.Hub.Importer.Running.{AreDone}
use fab_dns.Hub.Tests.{endpoint, nginx_of, nginx_key}
use fab_dns.Hub.Sessions.{env, trace, initial, confirmed}
use fab_dns.Hub.Ticks.{api}
use fab_dns.System.Replicas.{importing_client, run_tasks-play}

-- What the requests leave.
abbrev kept : GlobalService
kept = record (nginx_of "" []) {
  spec = record {
    type = (nginx_of "" []).spec.type;
    ports = record { name = "http"; protocol = "TCP"; port = 80; app_protocol = none } ∷ [];
    endpoints = endpoint "10.0.0.9" "beijing" ∷ [];
  };
}

abbrev served : List GlobalService
served = kept ∷ []

abbrev after : Memory
after = record { services = (nginx_key, content_of kept) ∷ []; namespaces = "default" ∷ [] }

played : (play env trace initial).world ≡ after
unfolding play serve create_or_merge_global_service ensure memory revoke_global_service Map.lookup
    Map.insert remove_endpoints merge_into
played = refl

kept_stored :
    (item : GlobalService)
    → In item served
    → memory_laws.content_at (play env trace initial).world (key_of item) ≡ some (content_of item)
unfolding memory_laws Map.lookup
kept_stored item (inl e) = rw (e, played) refl
kept_stored item (inr i) = absurd i

kept_served :
    (j : ObjectKey) (c : Content)
    → memory_laws.content_at (play env trace initial).world j ≡ some c
    → has_key j served ≡ true
unfolding memory_laws Map.lookup
kept_served j c at = elim (Bool-cases (key_beq nginx_key j)) [
  | inl t ↦ rw t refl
  | inr t ↦ let no : ◌≡◌ {A = Option Content} none (some c) = rw (played, t) at at in cc
]

distinct_served : (a b : GlobalService) → In a served → In b served → key_of a ≡ key_of b → a ≡ b
distinct_served a b (inl p) (inl q) e = p ∙ sym q
distinct_served a b (inr i) (inl q) e = absurd i
distinct_served a b p (inr i) e = absurd i

-- A cluster with a service that is exported no more.
abbrev importing : Memory
importing = record { services = (key_of api, content_of api) ∷ []; namespaces = "default" ∷ [] }

abbrev items : List GlobalService
items = api ∷ []

abbrev tasks : List Task
tasks = delete api ∷ create_or_update (clean kept) ∷ []

items_listed :
    (j : ObjectKey) (c : Content)
    → memory_laws.content_at importing j ≡ some c
    → has_key j items ≡ true
unfolding memory_laws Map.lookup
items_listed j c at = elim (Bool-cases (key_beq (key_of api) j)) [
  | inl t ↦ rw t refl
  | inr t ↦ let no : ◌≡◌ {A = Option Content} none (some c) = rw t at at in cc
]

honest :
    (svc : GlobalService) (c : Content)
    → In svc (clean_items served)
    → memory_laws.content_at importing (key_of svc) ≡ some c
    → origin c.labels ≡ svc.metadata.resource_version
    → c.spec ≡ svc.spec
unfolding memory_laws Map.lookup clean_items
honest svc c (inl e) at noted = let no : ◌≡◌ {A = Option Content} none (some c) = rw e at at in cc
honest svc c (inr i) at noted = absurd i

-- What the client gets is the text "[]", which it reads back as the list.
abbrev client_env : Client.Env (State Memory)
client_env = record {
  cluster_name = "tianjin";
  join = λ path. path;
  new_request = λ request. none;
  send = λ request s. (ok (record { status_code = 503; content = "down"; read_error = none }), s);
  marshal = λ gs. ok "{}";
  unmarshal = λ text. ok (clean_items served);
}

abbrev router : HttpRequest → Option Route
router request = some get_all_global_services

abbrev unrouted : HttpRequest → State Memory → HttpResponse × State Memory
unrouted request s = (record { status_code = 404; content = ""; read_error = none }, s)

abbrev the_client : Client.Env (State Memory)
the_client =
    importing_client memory memory_laws true env trace initial confirmed (refl, (refl, tt)) served
      kept_stored kept_served distinct_served memory memory_laws true items tasks importing
      items_listed honest 7 router unrouted client_env

listing : (memory.list (play env trace initial).world).0 ≡ ok served
unfolding memory
listing = rw played refl

started :
    (t : Task)
    → In t tasks
      ↔ In t (
          import_services
            (download_all_global_services the_client (play env trace initial)).0
            (ok items))
unfolding import_services KeySet.has KeySet.add KeySet.new_object_key_set Map.lookup Map.insert
    clean_items download_all_global_services
started t = (
  λ i. elim i [ inl e ↦ inr (inl e) | inr k ↦ elim k [ inl e ↦ inl e | inr n ↦ absurd n ] ],
  λ i. elim i [ inl e ↦ inr (inl e) | inr k ↦ elim k [ inl e ↦ inl e | inr n ↦ absurd n ] ],
)

all_done : AreDone memory memory_laws true tasks importing
unfolding run_task create_or_update_global_service ensure memory Map.lookup Map.delete
all_done = (refl, (refl, tt))

run_tasks-play_example :
    exported_by "beijing" (memory_laws.content_at (run_tasks memory true tasks importing) nginx_key)
    ≡ endpoint "10.0.0.9" "beijing" ∷ []
run_tasks-play_example =
    run_tasks-play memory memory_laws true env trace initial confirmed (refl, (refl, tt)) served
      kept_stored kept_served distinct_served memory memory_laws true items tasks importing
      items_listed honest 7 router unrouted client_env "[]" refl refl listing refl refl started
      all_done nginx_key "beijing"
