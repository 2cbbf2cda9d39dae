-- ===== src/System/Replicas.antt =====
-- The services of the hub in the clusters that import them.
use fab_dns.Base.{
  String, Bool, true, ◌||◌, List, [], ◌∷◌, Option, none, some, ◌≡◌, refl, sym, ap, ◌∙◌, In, ◌↔◌,
  inl, inr, ok, filter, Bool-cases, Option-cases,
}
use fab_dns.Api.{GlobalService, GlobalServiceSpec, ObjectKey, key_of, key_beq}
use fab_dns.Kube.{Client, ClientLaws, Content, content_of}
use fab_dns.Hub.Clusters.{Time}
use fab_dns.Hub.Manager.Removal.{is_from}
use fab_dns.Hub.Manager.Merging.{exported_by}
use fab_dns.Hub.ApiServer
use fab_dns.Hub.ApiServer.{Route, State, get_all_global_services, clean, clean_items}
use fab_dns.Hub.ApiServer.Traces.{
  AreSentByOwner, Entry, IsConfirmed, play, requests_of, table_of, written, play-requests_of,
  trace_server,
}
use fab_dns.Hub.Client
use fab_dns.Hub.Client.{
  HttpRequest, HttpResponse, ClientError, request_for, method_get, path_global_services,
  download_all_global_services,
}
use fab_dns.Hub.Client.Roundtrip.{linked_client, download-clean_items}
use fab_dns.Hub.Importer.{Task, run_tasks, origin, import_services}
use fab_dns.Hub.Importer.Tasks.{has_key, has_key-In}
use fab_dns.Hub.Importer.Running.{AreDone}
use fab_dns.Hub.Importer.Mirrors.{import_services-IsCopy, IsCopy-spec}

has_key-clean_items :
    (j : ObjectKey) (items : List GlobalService) → has_key j (clean_items items) ≡ has_key j items
unfolding clean_items
has_key-clean_items j [] = refl
has_key-clean_items j (s ∷ items) =
    ap (λ (b : Bool). key_beq (key_of s) j || b) (has_key-clean_items j items)

In-clean_items :
    (svc : GlobalService) (items : List GlobalService)
    → In svc (clean_items items)
    → (item : GlobalService) × In item items × (svc ≡ clean item)
unfolding clean_items
In-clean_items svc [] i = absurd i
In-clean_items svc (s ∷ items) (inl e) = (s, inl refl, e)
In-clean_items svc (s ∷ items) (inr i) =
    let (item, k, e) = In-clean_items svc items i in (item, inr k, e)

module _ {W V : Type 0} (hub : Client W) (hub_laws : ClientLaws hub) (hub_allow : Bool)
    (plain : ApiServer.Env W) (es : List Entry) (s : State W)
    (confirmed : IsConfirmed hub hub_laws hub_allow plain es s)
    (sent_by_owner : AreSentByOwner (trace_server hub hub_laws hub_allow plain) es)
    (served : List GlobalService)
    -- What the list of services is in the hub's cluster after the requests.
    (all_stored : (item : GlobalService)
      → In item served
      → hub_laws.content_at
          (play (trace_server hub hub_laws hub_allow plain) es s).world
          (key_of item)
        ≡ some (content_of item))
    (all_served : (j : ObjectKey) (c : Content)
      → hub_laws.content_at (play (trace_server hub hub_laws hub_allow plain) es s).world j ≡ some c
      → has_key j served ≡ true)
    (distinct : (a b : GlobalService) → In a served → In b served → key_of a ≡ key_of b → a ≡ b)
    (cli : Client V) (laws : ClientLaws cli) (allow : Bool) (items : List GlobalService)
    (tasks : List Task) (w : V)
    (all_listed : (j : ObjectKey) (c : Content)
      → laws.content_at w j ≡ some c
      → has_key j items ≡ true)
    (honest : (svc : GlobalService) (c : Content)
      → In svc (clean_items served)
      → laws.content_at w (key_of svc) ≡ some c
      → origin c.labels ≡ svc.metadata.resource_version
      → c.spec ≡ svc.spec) where
  abbrev server : ApiServer.Env W
  server = trace_server hub hub_laws hub_allow plain

  clean_distinct :
      (a b : GlobalService)
      → In a (clean_items served)
      → In b (clean_items served)
      → key_of a ≡ key_of b
      → a ≡ b
  clean_distinct a b i k e =
      let (x, m, p) = In-clean_items a served i in
      let (y, n, q) = In-clean_items b served k in
      let same : key_of x ≡ key_of y = rw (p, q) at e in
      p ∙ ap clean (distinct x y m n same) ∙ sym q

  -- A tick from the services of the hub.
  tick-exported_by :
      (E : Type 0)
      → ((t : Task)
          → In t tasks ↔ In t (import_services {E = E} (ok (clean_items served)) (ok items)))
      → AreDone cli laws allow tasks w
      → (j : ObjectKey) (cluster : String)
      → exported_by cluster (laws.content_at (run_tasks cli allow tasks w) j)
        ≡ exported_by cluster (hub_laws.content_at (play server es s).world j)
  tick-exported_by E started done j cluster =
      let (absent, present) =
        import_services-IsCopy cli laws allow E (clean_items served) items tasks w clean_distinct
          all_listed started done in
      elim (Bool-cases (has_key j (clean_items served))) [
        | inl there ↦
            let (svc, i, key) = has_key-In j (clean_items served) there in
            let (item, m, e) = In-clean_items svc served i in
            let (c, at, copy) = present svc i in
            let specs : c.spec ≡ item.spec =
              IsCopy-spec cli laws allow (clean_items served) svc c w honest i copy
              ∙ ap (λ (x : GlobalService). x.spec) e in
            let named : key_of item ≡ j = ap key_of (sym e) ∙ key in
            let here : laws.content_at (run_tasks cli allow tasks w) j ≡ some c = rw key at at in
            let stored : hub_laws.content_at (play server es s).world j ≡ some (content_of item) =
              rw named at (all_stored item m) in
            rw (here, stored)
              (ap (λ (x : GlobalServiceSpec). filter (is_from cluster) x.endpoints) specs)
        | inr out ↦ elim (Option-cases (hub_laws.content_at (play server es s).world j)) [
          | inl gone ↦ rw (absent j out, gone) refl
          | inr (c, at) ↦
              let no : has_key j (clean_items served) ≡ true =
                has_key-clean_items j served ∙ all_served j c at in
              cc
        ]
      ]

  module _ (now : Time) (router : HttpRequest → Option Route)
      (unrouted : HttpRequest → State W → HttpResponse × State W) (env : Client.Env (State W)) where
    -- The client of the importing cluster.
    abbrev pub importing_client : Client.Env (State W)
    importing_client =
        linked_client hub hub_laws hub_allow plain now router unrouted env
          (play server es s).cluster_store (play server es s).world

    -- A hub has confirmed any sequence of fair requests of any clusters, in which nobody uploads for
    -- another cluster, and the list of its services is then complete, with distinct keys. A cluster
    -- downloads that list without an error of its client or the router, JSON being read back as what it
    -- was written from; the tasks that its importer then starts all end without an error, in whatever
    -- order they run, its list of local services is complete, and none of these has the version of a
    -- downloaded one noted but another spec. What that cluster then holds of each exporting cluster for
    -- each service is what the requests that the exporting cluster has sent, alone and in their order,
    -- make of what the hub held before.
    pub run_tasks-play :
        (text : String)
        → env.new_request (request_for env method_get path_global_services) ≡ none
        → router (request_for env method_get path_global_services) ≡ some get_all_global_services
        → (hub.list (play server es s).world).0 ≡ ok served
        → plain.marshal (clean_items served) ≡ ok text
        → env.unmarshal text ≡ ok (clean_items served)
        → ((t : Task)
            → In t tasks
              ↔ In t (
                  import_services
                    (download_all_global_services importing_client (play server es s)).0
                    (ok items)))
        → AreDone cli laws allow tasks w
        → (j : ObjectKey) (cluster : String)
        → exported_by cluster (laws.content_at (run_tasks cli allow tasks w) j)
          ≡ written server
              (requests_of server cluster es)
              (table_of hub hub_laws hub_allow plain s.world)
              j
              cluster
    run_tasks-play text accepts routes lists marshals reads started done j cluster =
        let (got, _) =
          download-clean_items hub hub_laws hub_allow plain now router unrouted env
            (play server es s).cluster_store (play server es s).world served text accepts routes
            lists marshals reads in
        tick-exported_by ClientError (rw got at started) done j cluster
        ∙ play-requests_of hub hub_laws hub_allow plain es s confirmed sent_by_owner j cluster
