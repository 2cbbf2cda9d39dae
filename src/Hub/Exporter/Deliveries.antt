-- ===== src/Hub/Exporter/Deliveries.antt =====
-- The exporter of a cluster in client mode, linked to the hub: from a reconciled service to the
-- server's table of endpoints by service and cluster.
use fab_dns.Base.{
  String, Bool, false, ◌&&◌, List, [], ◌∷◌, Option, none, some, ◌≡◌, refl, sym, ap, All, In, ◌↔◌,
  inl, inr, if◌then◌else◌, ◌==◌, Result, ok, err, Bool-cases,
}
use fab_dns.Base.Map
use fab_dns.Base.Equality.{string_eq}
use fab_dns.Api.{Endpoint, ObjectKey, key_beq}
use fab_dns.Kube.{ApiError, Client, ClientLaws}
use fab_dns.Hub.KeySet.{ObjectKeySet}
use fab_dns.Hub.Clusters.{ClusterStore, Time}
use fab_dns.Hub.Manager.Merging.{exported_by}
use fab_dns.Hub.ApiServer
use fab_dns.Hub.ApiServer.{Route}
use fab_dns.Hub.Client
use fab_dns.Hub.Client.{HttpRequest, HttpResponse, ClientError, upload_request}
use fab_dns.Hub.Client.Roundtrip.{linked_client, before, upload_global_service-exported_by}
use fab_dns.Hub.Exporter.{
  Env, Service, Failure, cluster_ip_none, should_skip_service, listed, by_name, address_of,
  endpoints_for, get_endpoints_of_headless_service, global_service_for, recorded, export,
  reconcile_found, reconcile,
}
use fab_dns.Hub.Slices.{ClusterInfo, SliceEndpoint, EndpointSlice}
use fab_dns.Hub.Exporter.Headless.{pod_of, headless-pods}

In-All : {A : Type 0} (P : A → Type 0) (xs : List A) → ((x : A) → In x xs → P x) → All P xs
In-All P [] h = tt
In-All P (x ∷ xs) h = (h x (inl refl), In-All P xs (λ y i. h y (inr i)))

pod_of-cluster :
    (cluster : ClusterInfo) (eps : List SliceEndpoint) (e : Endpoint)
    → pod_of cluster eps ≡ some e
    → e.cluster ≡ cluster.name
pod_of-cluster cluster [] e h = cc
pod_of-cluster cluster (ep ∷ eps) e h =
    ap (λ (o : Option Endpoint). cluster_in cluster.name o) (sym h)
  where
    cluster_in : String → Option Endpoint → String
    cluster_in d none = d
    cluster_in d (some x) = x.cluster

listed_slices :
    {W : Type 0} (env : Env W) (cluster : ClusterInfo) (r : Result ApiError (List EndpointSlice))
    (endpoints : List Endpoint)
    → listed env cluster r ≡ ok endpoints
    → (slices : List EndpointSlice) × (r ≡ ok slices)
unfolding listed
listed_slices env cluster (err e) endpoints h = cc
listed_slices env cluster (ok slices) endpoints h = (slices, refl)

-- Every endpoint is of the cluster for which it is exported.
abbrev pub IsOwn : ClusterInfo → List Endpoint → Type 0
IsOwn cluster endpoints = All (λ (e : Endpoint). e.cluster ≡ cluster.name) endpoints

module _ {W : Type 0} (env : Env W) (cluster : ClusterInfo)
    (sorts : (e : Endpoint) (es : List Endpoint) → In e (by_name env es) ↔ In e es)
    (ranges : (e : Endpoint) (m : List (String × Endpoint))
      → In e (env.range m) ↔ ((name : String) × (Map.lookup name m ≡ some e))) where
  pub endpoints_for-IsOwn :
      (svc : Service) (w : W) (endpoints : List Endpoint)
      → (endpoints_for env cluster svc w).0 ≡ ok endpoints
      → IsOwn cluster endpoints
  unfolding endpoints_for get_endpoints_of_headless_service
  endpoints_for-IsOwn svc w endpoints h = elim (Bool-cases (svc.cluster_ip == cluster_ip_none)) [
    | inr t ↦
        let k : ok (address_of env cluster svc ∷ []) ≡ ok endpoints = rw t at h in
        let same : address_of env cluster svc ∷ [] ≡ endpoints = cc in rw (← same) (refl, tt)
    | inl t ↦
        let got : (get_endpoints_of_headless_service env svc.metadata.namespace svc.metadata.name
              cluster w).0
            ≡ ok endpoints =
          rw t at h in
        let (slices, lists) = listed_slices env cluster _ endpoints got in
        In-All (λ e. e.cluster ≡ cluster.name) endpoints
          (λ e i.
            let (name, pod) =
              (headless-pods env cluster sorts ranges svc.metadata.namespace svc.metadata.name w
                  slices endpoints lists got e).0
                i in
            pod_of-cluster cluster _ e pod)
  ]

module _ {W : Type 0} (cli : Client W) (laws : ClientLaws cli) (allow : Bool)
    (plain : ApiServer.Env W) (now : Time) (router : HttpRequest → Option Route)
    (unrouted : HttpRequest → ApiServer.State W → HttpResponse × ApiServer.State W)
    (sender : Client.Env (ApiServer.State W)) (store : ClusterStore) (w : W)
    (local : Env (ApiServer.State W)) (as_error : ClientError → ApiError)
    (cluster : ClusterInfo) where
  abbrev server_state : ApiServer.State W
  server_state = before cli laws allow plain now router unrouted sender store w

  abbrev sender_client : Client.Env (ApiServer.State W)
  sender_client = linked_client cli laws allow plain now router unrouted sender store w

  abbrev as_api_error : Option ClientError → Option ApiError
  as_api_error none = none
  as_api_error (some e) = some (as_error e)

  -- The exporter that exports through the client.
  abbrev pub exporter : Env (ApiServer.State W)
  exporter = record local {
    export_global_service = λ gs s.
        let (e, s') = Client.upload_global_service sender_client gs s in (as_api_error e, s');
  }

  recorded_ok :
      (key : ObjectKey) (keys : ObjectKeySet) (r : Option ClientError × ApiServer.State W)
      → (recorded exporter cluster key keys (as_api_error r.0, r.1)).0 ≡ none
      → (r.0 ≡ none) × ((recorded exporter cluster key keys (as_api_error r.0, r.1)).1.world ≡ r.1)
  unfolding recorded
  recorded_ok key keys (none, s) h = (refl, refl)
  recorded_ok key keys (some e, s) h = cc

  module _ (sorts : (e : Endpoint) (es : List Endpoint) → In e (by_name local es) ↔ In e es)
      (ranges : (e : Endpoint) (m : List (String × Endpoint))
        → In e (local.range m) ↔ ((name : String) × (Map.lookup name m ≡ some e))) where
    -- If a service of the cluster is to be exported and its endpoints are collected, both without a
    -- change to the server, if the JSON of the exported service is read back as that service, the
    -- router leads uploads to their handler, sorting keeps the elements and `range` meets the value of
    -- each key: a reconciliation that ends without an error has made these endpoints the content of
    -- the cell of the service and the cluster in the server's table, and left every other cell alone.
    pub reconcile-exported_by :
        (key : ObjectKey) (keys : ObjectKeySet) (svc : Service) (endpoints : List Endpoint)
        (text : String)
        → local.get_service key server_state ≡ (ok svc, server_state)
        → should_skip_service svc ≡ false
        → endpoints_for exporter cluster svc server_state ≡ (ok endpoints, server_state)
        → sender.marshal (global_service_for exporter cluster svc endpoints) ≡ ok text
        → plain.unmarshal text ≡ ok (global_service_for exporter cluster svc endpoints)
        → router (upload_request sender text) ≡ some ApiServer.upload_global_service
        → (reconcile exporter cluster key
            (record { service_key_set = keys; world = server_state })).0
          ≡ none
        → (j : ObjectKey) (by : String)
        → exported_by by (
            laws.content_at
              (reconcile exporter cluster key
                (record { service_key_set = keys; world = server_state })).1.world.world
              j)
          ≡ (if key_beq (record { namespace = svc.metadata.namespace; name = svc.metadata.name }) j
                && by == cluster.name
              then endpoints
              else exported_by by (laws.content_at w j))
    unfolding reconcile reconcile_found export global_service_for
    reconcile-exported_by key keys svc endpoints text got wanted collected marshals parses routes h
          j by =
        let gs = global_service_for exporter cluster svc endpoints in
        let sent = Client.upload_global_service sender_client gs server_state in
        let (confirmed, same) = recorded_ok key keys sent (rw (got, wanted, collected) at h) in
        let own =
          endpoints_for-IsOwn exporter cluster sorts ranges svc server_state endpoints
            (ap (λ (p : Result Failure (List Endpoint) × ApiServer.State W). p.0) collected) in
        rw (got, wanted, collected, same)
          (upload_global_service-exported_by cli laws allow plain now router unrouted sender store w
            gs text marshals parses routes own confirmed j by)
