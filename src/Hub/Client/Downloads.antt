-- ===== src/Hub/Client/Downloads.antt =====
-- `DownloadAllGlobalServices` of pkg/service-hub/client/client.go with the list of services of
-- pkg/service-hub/apiserver/apiserver.go.
use fab_dns.Base.{String, Bool, List, [], ◌∷◌, Option, none, some, ◌≡◌, refl, ap, ok}
use fab_dns.Api.{GlobalService, ObjectKey, key_of}
use fab_dns.Kube.{Client, ClientLaws}
use fab_dns.Hub.Clusters.{ClusterStore, Time}
use fab_dns.Hub.ApiServer
use fab_dns.Hub.ApiServer.{Route, State, get_all_global_services, clean, clean_items}
use fab_dns.Hub.Client.{
  Env, HttpRequest, HttpResponse, request_for, download_all_global_services, method_get,
  path_global_services,
}
use fab_dns.Hub.Client.Roundtrip.{linked_client, before, download-clean_items}

-- A service as importers may see it: its name, its namespace, its version and its spec, and nothing
-- else.
pub record IsCleaned (svc sent : GlobalService) : Type 0 where
  pub same_key : key_of sent ≡ key_of svc
  pub same_version : sent.metadata.resource_version ≡ svc.metadata.resource_version
  pub same_spec : sent.spec ≡ svc.spec
  pub no_cluster : sent.metadata.cluster_name ≡ ""
  pub no_labels : sent.metadata.labels ≡ []

-- One for each service, in order.
abbrev pub AreCleaned : List GlobalService → List GlobalService → Type 0
AreCleaned [] [] = Unit
AreCleaned (svc ∷ items) (s ∷ sent) = IsCleaned svc s × AreCleaned items sent
AreCleaned _ _ = ⊥

IsCleaned-clean : (svc sent : GlobalService) → IsCleaned svc sent → sent ≡ clean svc
IsCleaned-clean svc sent c =
    let key = c.same_key in
    let version = c.same_version in
    let spec = c.same_spec in
    let cluster = c.no_cluster in
    let labels = c.no_labels in
    let name = ap (λ (k : ObjectKey). k.name) key in
    let namespace = ap (λ (k : ObjectKey). k.namespace) key in cc

AreCleaned-clean_items :
    (items sent : List GlobalService) → AreCleaned items sent → sent ≡ clean_items items
unfolding clean_items
AreCleaned-clean_items [] [] h = refl
AreCleaned-clean_items [] (s ∷ sent) h = absurd h
AreCleaned-clean_items (svc ∷ items) [] h = absurd h
AreCleaned-clean_items (svc ∷ items) (s ∷ sent) (c, h) =
    let head = IsCleaned-clean svc s c in let tail = AreCleaned-clean_items items sent h in cc

module _ {W : Type 0} (cli : Client W) (laws : ClientLaws cli) (allow : Bool)
    (plain : ApiServer.Env W) (now : Time) (router : HttpRequest → Option Route)
    (unrouted : HttpRequest → State W → HttpResponse × State W) (env : Env (State W))
    (store : ClusterStore) (w : W) where
  -- Let the server's cluster list some services, and take the list that has for each of them, in order,
  -- its name, namespace, version and spec, with no cluster name and no labels. If the request can be
  -- made, the router leads it to its handler, and that list has a JSON form that is read back as that
  -- list, then it is what `DownloadAllGlobalServices` returns, without an error; and the server's
  -- cluster is as listing leaves it.
  pub download-AreCleaned :
      (items sent : List GlobalService) (text : String)
      → env.new_request (request_for env method_get path_global_services) ≡ none
      → router (request_for env method_get path_global_services) ≡ some get_all_global_services
      → (cli.list w).0 ≡ ok items
      → AreCleaned items sent
      → plain.marshal sent ≡ ok text
      → env.unmarshal text ≡ ok sent
      → ((download_all_global_services
            (linked_client cli laws allow plain now router unrouted env store w)
            (before cli laws allow plain now router unrouted env store w)).0
          ≡ ok sent)
        × ((download_all_global_services
              (linked_client cli laws allow plain now router unrouted env store w)
              (before cli laws allow plain now router unrouted env store w)).1.world
            ≡ (cli.list w).1)
  download-AreCleaned items sent text accepts routes lists cleaned marshals reads =
      let same : sent ≡ clean_items items = AreCleaned-clean_items items sent cleaned in
      rw same (
        download-clean_items cli laws allow plain now router unrouted env store w items text accepts
          routes lists (rw same at marshals) (rw same at reads))
