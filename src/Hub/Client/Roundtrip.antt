-- ===== src/Hub/Client/Roundtrip.antt =====
-- A call of the client, through the server, to the table of endpoints by service and cluster.
use fab_dns.Base.{
  String, Bool, false, ◌&&◌, List, [], Option, none, some, ◌≡◌, refl, All, leb, nat_beq,
  if◌then◌else◌, ◌==◌, ok, Bool-cases, inl, inr,
}
use fab_dns.Base.Equality.{string_eq}
use fab_dns.Api.{Endpoint, GlobalService, ObjectKey, key_of, key_beq}
use fab_dns.Kube.{Client, ClientLaws}
use fab_dns.Hub.Clusters.{ClusterStore, Time}
use fab_dns.Hub.Manager.Merging.{exported_by}
use fab_dns.Hub.Manager.Revoking.{IsRead, service_key}
use fab_dns.Hub.ApiServer
use fab_dns.Hub.ApiServer.{
  Route, State, get_all_global_services, delete_endpoints, is_complete, clean_items, handle, serve,
  all_services,
}
use fab_dns.Hub.ApiServer.Keys.{accepted}
use fab_dns.Hub.ApiServer.Statuses.{serve_upload-IsDefinite, serve_delete-IsDefinite}
use fab_dns.Hub.ApiServer.Uploads.{with_manager, upload-exported_by, delete_endpoints-exported_by}
use fab_dns.Hub.Client.{
  Env, HttpRequest, HttpResponse, upload_request, request_for, service_path, upload_marshalled,
  upload_global_service, delete_global_service, download_all_global_services, downloaded,
  handle_response, method_get, method_delete, path_global_services,
}
use fab_dns.Hub.Client.Linked.{client, received, confirmed}

-- A complete service is accepted as it is.
accepted_service :
    {W : Type 0} (server : ApiServer.Env W) (text : String) (service gs : GlobalService)
    → server.unmarshal text ≡ ok service
    → accepted server (ok text) ≡ some gs
    → gs ≡ service
accepted_service server text service gs parses h = elim (Bool-cases (is_complete service)) [
  | inl t ↦ let k : some service ≡ some gs = rw (parses, t) at h in cc
  | inr t ↦ let k : ◌≡◌ {A = Option GlobalService} none (some gs) = rw (parses, t) at h in cc
]

module _ {W : Type 0} (cli : Client W) (laws : ClientLaws cli) (allow : Bool)
    (plain : ApiServer.Env W) (now : Time) (router : HttpRequest → Option Route)
    (unrouted : HttpRequest → State W → HttpResponse × State W) (env : Env (State W))
    (store : ClusterStore) (w : W) where
  abbrev pub server : ApiServer.Env W
  server = with_manager cli allow plain

  abbrev pub linked_client : Env (State W)
  linked_client = client server now router unrouted env

  abbrev pub before : State W
  before = record { cluster_store = store; world = w }

  -- If the JSON that is made of a service is read back as that service, the router leads uploads to
  -- their handler, and the endpoints of the service are all of the cluster that it names: an upload of
  -- which the client reports no error has written the endpoints of the service into the cell of the
  -- service and that cluster in the server's table, and every other cell is as before.
  pub upload_global_service-exported_by :
      (service : GlobalService) (text : String)
      → env.marshal service ≡ ok text
      → plain.unmarshal text ≡ ok service
      → router (upload_request env text) ≡ some ApiServer.upload_global_service
      → All (λ (e : Endpoint). e.cluster ≡ service.metadata.cluster_name) service.spec.endpoints
      → (upload_global_service linked_client service before).0 ≡ none
      → (j : ObjectKey) (cluster : String)
      → exported_by cluster
          (laws.content_at (upload_global_service linked_client service before).1.world j)
        ≡ (if key_beq (key_of service) j && cluster == service.metadata.cluster_name
            then service.spec.endpoints
            else exported_by cluster (laws.content_at w j))
  unfolding upload_global_service upload_marshalled
  upload_global_service-exported_by service text marshals parses routes own h j cluster =
      let (definite, same) =
        confirmed server now router unrouted env (upload_request env text)
          ApiServer.upload_global_service before routes (rw marshals at h) in
      let request = received server now router unrouted (upload_request env text) in
      let (gs, read, written) =
        upload-exported_by cli laws allow plain now request store w
          (serve_upload-IsDefinite server now request before definite) in
      let is : gs ≡ service = accepted_service server text service gs parses read in
      rw (marshals, same) (rw is at (written (rw (← is) at own) j cluster))

  -- If the router leads deletions of the service to their handler, and the service could be read, or is
  -- not there: a deletion of which the client reports no error has cleared the cell of the service and
  -- the client's cluster, and every other cell is as before.
  pub delete_global_service-exported_by :
      (namespace name : String)
      → router (request_for env method_delete (service_path env namespace name))
        ≡ some (delete_endpoints namespace name)
      → IsRead (cli.get (service_key namespace name) w).0
      → (delete_global_service linked_client namespace name before).0 ≡ none
      → (j : ObjectKey) (cluster : String)
      → exported_by cluster
          (laws.content_at (delete_global_service linked_client namespace name before).1.world j)
        ≡ (if key_beq (service_key namespace name) j && cluster == env.cluster_name
            then []
            else exported_by cluster (laws.content_at w j))
  unfolding delete_global_service
  delete_global_service-exported_by namespace name routes read h j cluster =
      let sent = request_for env method_delete (service_path env namespace name) in
      let (definite, same) =
        confirmed server now router unrouted env sent (delete_endpoints namespace name) before
          routes h in
      let request = received server now router unrouted sent in
      rw same (
        delete_endpoints-exported_by cli laws allow plain now request store w namespace name read
          (serve_delete-IsDefinite server now request before namespace name definite) j cluster)

  downloaded_ok :
      (resp : HttpResponse) (services : List GlobalService)
      → leb 400 resp.status_code ≡ false
      → nat_beq resp.status_code 204 ≡ false
      → env.unmarshal resp.content ≡ ok services
      → downloaded linked_client (ok resp) ≡ ok services
  unfolding downloaded handle_response
  downloaded_ok resp services below some_content reads = rw (below, some_content, reads) refl

  -- If the request can be made, the router leads it to its handler, the server can list its services,
  -- and the JSON that is made of the cleaned services is read back as them: `DownloadAllGlobalServices`
  -- returns the services of the server, with all metadata but name, namespace and version blank, and
  -- leaves the server's cluster as listing leaves it.
  pub download-clean_items :
      (items : List GlobalService) (text : String)
      → env.new_request (request_for env method_get path_global_services) ≡ none
      → router (request_for env method_get path_global_services) ≡ some get_all_global_services
      → (cli.list w).0 ≡ ok items
      → plain.marshal (clean_items items) ≡ ok text
      → env.unmarshal text ≡ ok (clean_items items)
      → ((download_all_global_services linked_client before).0 ≡ ok (clean_items items))
        × ((download_all_global_services linked_client before).1.world ≡ (cli.list w).1)
  unfolding download_all_global_services serve handle all_services
  download-clean_items items text accepts routes lists marshals reads = (
    rw (accepts, routes, lists, marshals)
        (downloaded_ok (record { status_code = 200; content = text; read_error = none })
          (clean_items items) refl refl reads),
    rw (accepts, routes) refl,
  )
