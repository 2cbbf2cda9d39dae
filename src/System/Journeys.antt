-- ===== src/System/Journeys.antt =====
-- A service on its way from the cluster that exports it, through the hub, into a cluster that imports
-- it, to the answer of the plugin there.
use fab_dns.Base.{
  String, Bool, true, false, List, [], ◌∷◌, ◌++◌, Option, none, some, ◌≡◌, ◌≢◌, refl, sym, ap, ◌∙◌,
  In, ◌↔◌, ◌⊎◌, inl, inr, ok, filter, flat_map, eq_refl, Option-cases,
}
use fab_dns.Base.Map
use fab_dns.Base.Equality.{string_eq}
use fab_dns.Api.{
  Endpoint, GlobalService, GlobalServiceSpec, ObjectKey, key_of, key_beq, key_beq_iff,
}
use fab_dns.Kube.{ApiError, Client, ClientLaws, Content, content_of}
use fab_dns.Fabdns.Records.{Request, type_a, type_aaaa, generate_records}
use fab_dns.Fabdns.Serve.{Env, FabDns, Io, serve_dns, rcode_success}
use fab_dns.Fabdns.Serve.Clusters.{serve_dns-in_cluster}
use fab_dns.Hub.Clusters.{ClusterStore, Time}
use fab_dns.Hub.KeySet.{ObjectKeySet}
use fab_dns.Hub.Manager.Removal.{is_from}
use fab_dns.Hub.Manager.Merging.{exported_by}
use fab_dns.Hub.Manager.Revoking.{IsRead, service_key}
use fab_dns.Hub.ApiServer
use fab_dns.Hub.ApiServer.{Route, State, clean_items}
use fab_dns.Hub.ApiServer.Traces.{play}
use fab_dns.Hub.Client
use fab_dns.Hub.Client.{
  HttpRequest, HttpResponse, ClientError, upload_request, request_for, method_get,
  path_global_services, download_all_global_services,
}
use fab_dns.Hub.Client.Roundtrip.{before, linked_client}
use fab_dns.Hub.Exporter
use fab_dns.Hub.Exporter.{
  Service, by_name, should_skip_service, endpoints_for, global_service_for, reconcile,
}
use fab_dns.Hub.Slices.{ClusterInfo}
use fab_dns.Hub.Exporter.Deliveries.{exporter, reconcile-exported_by}
use fab_dns.Hub.Importer.{Task, run_tasks, origin, import_services}
use fab_dns.Hub.Importer.Tasks.{has_key}
use fab_dns.Hub.Importer.Running.{AreDone}
use fab_dns.System.Answers.{get_stored, over_client}
use fab_dns.System.Replicas.{run_tasks-play}

module _ {V : Type 0} (cli : Client V) (laws : ClientLaws cli) (dns : Env V) (f : FabDns)
    (request : Request) (io : Io V) (in_zone : dns.matches f.zones request.qname ≢ "")
    (supported : (request.qtype ≡ type_a) ⊎ (request.qtype ≡ type_aaaa)) where
  -- The success message with the records of endpoints, after a read of a key.
  abbrev pub IsAnsweredWith : ObjectKey → List Endpoint → Type 0
  IsAnsweredWith k endpoints = serve_dns (over_client cli laws dns f request) f request io ≡ (
    (rcode_success, none),
    record {
      world = (cli.get k io.world).1;
      written =
          io.written
          ++ record {
            authoritative = true;
            rcode = rcode_success;
            answer = flat_map (generate_records dns.net f.ttl request) endpoints;
          }
            ∷ [];
    },
  )

  -- A query for a service in one cluster is answered from its cell of the table.
  pub serve_dns-exported_by :
      (c s n x last : String) (endpoints : List Endpoint)
      → dns.split_domain_name request.qname ≡ c ∷ s ∷ n ∷ x ∷ last ∷ []
      → IsRead (cli.get (service_key n s) io.world).0
      → exported_by c (laws.content_at io.world (service_key n s)) ≡ endpoints
      → endpoints ≢ []
      → IsAnsweredWith (service_key n s) endpoints
  serve_dns-exported_by c s n x last endpoints labels read cell some_left =
      elim (Option-cases (laws.content_at io.world (service_key n s))) [
        | inl gone ↦ absurd (some_left (sym cell ∙ ap (exported_by c) gone))
        | inr (content, at) ↦
            let (found, got, same) =
              get_stored cli laws (service_key n s) io.world content at read in
            let own : exported_by c (some (content_of found)) ≡ endpoints =
              ap (λ (x : GlobalServiceSpec). filter (is_from c) x.endpoints) same
              ∙ ap (exported_by c) (sym at)
              ∙ cell in
            rw (← own) (
              serve_dns-in_cluster (over_client cli laws dns f request) f request io in_zone
                supported c s n x last found (cli.get (service_key n s) io.world).1 labels got)
      ]

module _ {W : Type 0} (hub : Client W) (hub_laws : ClientLaws hub) (hub_allow : Bool)
    (plain : ApiServer.Env W) (now : Time) (router : HttpRequest → Option Route)
    (unrouted : HttpRequest → State W → HttpResponse × State W)
    -- The exporting cluster.
    (sender : Client.Env (State W)) (store : ClusterStore) (w : W) (local : Exporter.Env (State W))
    (as_error : ClientError → ApiError) (cluster : ClusterInfo)
    (sorts : (e : Endpoint) (es : List Endpoint) → In e (by_name local es) ↔ In e es)
    (ranges : (e : Endpoint) (m : List (String × Endpoint))
      → In e (local.range m) ↔ ((name : String) × (Map.lookup name m ≡ some e)))
    (key : ObjectKey) (keys : ObjectKeySet) (svc : Service) where
  -- The hub when the exporter turns to the service.
  abbrev hub_before : State W
  hub_before = before hub hub_laws hub_allow plain now router unrouted sender store w

  abbrev linked_exporter : Exporter.Env (State W)
  linked_exporter =
      exporter hub hub_laws hub_allow plain now router unrouted sender store w local as_error
        cluster

  abbrev reconciled : Option Exporter.Failure × Exporter.State (State W)
  reconciled =
      reconcile linked_exporter cluster key (record { service_key_set = keys; world = hub_before })

  -- The hub after that.
  abbrev hub_after : State W
  hub_after = reconciled.1.world

  abbrev name_of_service : ObjectKey
  name_of_service = service_key svc.metadata.namespace svc.metadata.name

  module _ (endpoints : List Endpoint) (text : String)
      (got : local.get_service key hub_before ≡ (ok svc, hub_before))
      (wanted : should_skip_service svc ≡ false)
      (collected : endpoints_for linked_exporter cluster svc hub_before
        ≡ (ok endpoints, hub_before))
      (marshals : sender.marshal (global_service_for linked_exporter cluster svc endpoints)
        ≡ ok text)
      (parses : plain.unmarshal text
        ≡ ok (global_service_for linked_exporter cluster svc endpoints))
      (leads : router (upload_request sender text) ≡ some ApiServer.upload_global_service)
      (confirmed : reconciled.0 ≡ none) where
    cell_written :
        exported_by cluster.name (hub_laws.content_at hub_after.world name_of_service) ≡ endpoints
    cell_written =
        reconcile-exported_by hub hub_laws hub_allow plain now router unrouted sender store w local
          as_error cluster sorts ranges key keys svc endpoints text got wanted collected marshals
          parses leads confirmed name_of_service cluster.name
        ∙ (let own : key_beq name_of_service name_of_service ≡ true =
              (key_beq_iff name_of_service name_of_service).1 refl in
            rw (own, eq_refl cluster.name) refl)

    module _ {V : Type 0} (served : List GlobalService)
        (all_stored : (item : GlobalService)
          → In item served
          → hub_laws.content_at hub_after.world (key_of item) ≡ some (content_of item))
        (all_served : (j : ObjectKey) (c : Content)
          → hub_laws.content_at hub_after.world j ≡ some c
          → has_key j served ≡ true)
        (distinct : (a b : GlobalService) → In a served → In b served → key_of a ≡ key_of b → a ≡ b)
        -- The importing cluster.
        (cli : Client V) (laws : ClientLaws cli) (allow : Bool) (items : List GlobalService)
        (tasks : List Task) (v : V)
        (all_listed : (j : ObjectKey) (c : Content)
          → laws.content_at v j ≡ some c
          → has_key j items ≡ true)
        (honest : (item : GlobalService) (c : Content)
          → In item (clean_items served)
          → laws.content_at v (key_of item) ≡ some c
          → origin c.labels ≡ item.metadata.resource_version
          → c.spec ≡ item.spec)
        (receiver : Client.Env (State W)) (listing : String)
        (accepts : receiver.new_request (request_for receiver method_get path_global_services)
          ≡ none)
        (routes : router (request_for receiver method_get path_global_services)
          ≡ some ApiServer.get_all_global_services)
        (lists : (hub.list hub_after.world).0 ≡ ok served)
        (written : plain.marshal (clean_items served) ≡ ok listing)
        (read_back : receiver.unmarshal listing ≡ ok (clean_items served)) where
      -- The client of the importing cluster.
      abbrev importing : Client.Env (State W)
      importing =
          linked_client hub hub_laws hub_allow plain now router unrouted receiver
            hub_after.cluster_store hub_after.world

      imported :
          ((t : Task)
            → In t tasks
              ↔ In t
                  (import_services (download_all_global_services importing hub_after).0 (ok items)))
          → AreDone cli laws allow tasks v
          → exported_by cluster.name (laws.content_at (run_tasks cli allow tasks v) name_of_service)
            ≡ endpoints
      unfolding play
      imported started done =
          run_tasks-play hub hub_laws hub_allow plain [] hub_after tt tt served all_stored
            all_served distinct cli laws allow items tasks v all_listed honest now router unrouted
            receiver listing accepts routes lists written read_back started done name_of_service
            cluster.name
          ∙ cell_written

      -- A cluster exports a service: the exporter finds the service and collects its endpoints, without a
      -- change to the hub, and its reconciliation, through the client and the hub's server, ends without
      -- an error. The hub's list of services is then complete, with distinct keys, and a second cluster
      -- downloads it and runs, in any order, the tasks that its importer starts, all without an error;
      -- its list of local services is complete, and none has the version of a downloaded service noted
      -- but another spec. JSON is read back as what it was written from, the router leads the requests
      -- to their handlers, sorting keeps the elements, and `range` meets the value of each key. If the
      -- service can then be read there, the plugin of that second cluster answers a query of a
      -- supported type for `cluster.service.namespace.<any>.<last>`, in its zones, with one authoritative
      -- success message that holds the records of the endpoints that the exporter has collected, in their order, provided
      -- there are any.
      pub serve_dns-reconcile :
          ((t : Task)
            → In t tasks
              ↔ In t
                  (import_services (download_all_global_services importing hub_after).0 (ok items)))
          → AreDone cli laws allow tasks v
          → (dns : Env V) (f : FabDns) (request : Request) (io : Io V)
          → io.world ≡ run_tasks cli allow tasks v
          → (in_zone : dns.matches f.zones request.qname ≢ "")
          → (supported : (request.qtype ≡ type_a) ⊎ (request.qtype ≡ type_aaaa)) → (x last : String)
          → dns.split_domain_name request.qname
            ≡ cluster.name ∷ svc.metadata.name ∷ svc.metadata.namespace ∷ x ∷ last ∷ []
          → IsRead (cli.get name_of_service io.world).0
          → endpoints ≢ []
          → IsAnsweredWith cli laws dns f request io in_zone supported name_of_service endpoints
      serve_dns-reconcile started done dns f request io after in_zone supported x last labels read
            some_left =
          serve_dns-exported_by cli laws dns f request io in_zone supported cluster.name
            svc.metadata.name svc.metadata.namespace x last endpoints labels read
            (rw after (imported started done)) some_left
