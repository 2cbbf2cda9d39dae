-- ===== src/Hub/ApiServer/Traces.antt =====
-- Sequences of requests of many clusters, against a table of endpoints by service and cluster.
use fab_dns.Base.{
  String, Bool, false, ◌&&◌, List, [], ◌∷◌, Option, none, some, ◌≡◌, refl, ap, ◌∙◌, fun_ext, All,
  leb, filter, if◌then◌else◌, ◌==◌, eq_iff, arith, Bool-cases, inl, inr,
}
use fab_dns.Base.Equality.{string_eq}
use fab_dns.Api.{Endpoint, GlobalService, ObjectKey, key_of, key_beq}
use fab_dns.Kube.{Client, ClientLaws}
use fab_dns.Hub.Manager.Merging.{exported_by}
use fab_dns.Hub.Manager.Revoking.{IsRead, service_key}
use fab_dns.Hub.Clusters.{Time}
use fab_dns.Hub.ApiServer.{
  Env, Request, Route, State, heartbeat, get_all_global_services, upload_global_service,
  delete_endpoints, handle, serve,
}
use fab_dns.Hub.ApiServer.Keys.{accepted}
use fab_dns.Hub.ApiServer.Statuses.{serve_upload-IsDefinite, serve_delete-IsDefinite}
use fab_dns.Hub.ApiServer.Uploads.{with_manager, upload-exported_by, delete_endpoints-exported_by}

-- A request, when it comes, and where it is led.
pub record Entry : Type 0 where
  pub now : Time
  pub route : Route
  pub request : Request

-- What each cluster exports of each service.
abbrev pub Table : Type 0
Table = ObjectKey → String → List Endpoint

abbrev pub write : ObjectKey → String → List Endpoint → Table → Table
write k by endpoints t j cluster = if key_beq k j && cluster == by then endpoints else t j cluster

-- A cell that a request writes: the service, the cluster and its endpoints.
abbrev pub Cell : Type 0
Cell = ObjectKey × String × List Endpoint

abbrev pub write_cell : Option Cell → Table → Table
write_cell none t = t
write_cell (some (k, by, endpoints)) t = write k by endpoints t

abbrev pub cell_of_service : Option GlobalService → Option Cell
cell_of_service none = none
cell_of_service (some gs) = some (key_of gs, gs.metadata.cluster_name, gs.spec.endpoints)

abbrev pub IsOwnService : Option GlobalService → Type 0
IsOwnService none = Unit
IsOwnService (some gs) =
    All (λ (e : Endpoint). e.cluster ≡ gs.metadata.cluster_name) gs.spec.endpoints

-- The cell is one of the cluster that sends the request.
abbrev IsByOwner : String → Option Cell → Type 0
IsByOwner sender none = Unit
IsByOwner sender (some (k, by, endpoints)) = by ≡ sender

module _ {W : Type 0} (env : Env W) where
  -- An upload writes what it holds, a deletion clears the cell of the cluster that sends it.
  abbrev pub cell_at : Route → Request → Option Cell
  cell_at heartbeat request = none
  cell_at get_all_global_services request = none
  cell_at upload_global_service request = cell_of_service (accepted env request.body)
  cell_at (delete_endpoints namespace name) request =
      some (service_key namespace name, request.cluster_name, [])

  abbrev pub cell_of : Entry → Option Cell
  cell_of e = cell_at e.route e.request

  -- The table after requests that have been confirmed, in order.
  abbrev pub written : List Entry → Table → Table
  written [] t = t
  written (e ∷ es) t = written es (write_cell (cell_of e) t)

  -- The requests that a cluster sends, by the header with the name of the calling cluster.
  abbrev pub requests_of : String → List Entry → List Entry
  requests_of cluster es = filter (λ e. e.request.cluster_name == cluster) es

  -- Nobody uploads for another cluster: the service of an accepted upload names the cluster that sends
  -- the request.
  abbrev pub AreSentByOwner : List Entry → Type 0
  AreSentByOwner [] = Unit
  AreSentByOwner (e ∷ es) = IsByOwner e.request.cluster_name (cell_of e) × AreSentByOwner es

  -- The server after a sequence of requests.
  unfoldable pub play : List Entry → State W → State W
  play [] s = s
  play (e ∷ es) s = play es (serve env e.now e.route e.request s).1

  -- Only the requests of a cluster write its cells.
  written-requests_of :
      (cluster : String) (es : List Entry) (t u : Table)
      → AreSentByOwner es
      → ((j : ObjectKey) → t j cluster ≡ u j cluster)
      → (j : ObjectKey) → written es t j cluster ≡ written (requests_of cluster es) u j cluster
  written-requests_of cluster [] t u own same = same
  written-requests_of cluster (e ∷ es) t u (owner, own) same =
      elim (Bool-cases (e.request.cluster_name == cluster)) [
        | inl sent ↦ rw sent (
            written-requests_of cluster es (write_cell (cell_of e) t) (write_cell (cell_of e) u) own
              (agree (cell_of e)))
        | inr other ↦ rw other (
            written-requests_of cluster es (write_cell (cell_of e) t) u own
              (untouched (cell_of e) owner other))
      ]
    where
      agree :
          (o : Option Cell) (j : ObjectKey) → write_cell o t j cluster ≡ write_cell o u j cluster
      agree none j = same j
      agree (some (k, by, endpoints)) j = elim (Bool-cases (key_beq k j && cluster == by)) [
        | inl h ↦ rw h refl
        | inr h ↦ rw h (same j)
      ]

      untouched :
          (o : Option Cell)
          → IsByOwner e.request.cluster_name o
          → (e.request.cluster_name == cluster) ≡ false
          → (j : ObjectKey) → write_cell o t j cluster ≡ u j cluster
      untouched none by_owner h j = same j
      untouched (some (k, by, endpoints)) by_owner h j =
          let apart : (by == cluster) ≡ false = rw by_owner h in
          let skipped : (key_beq k j && cluster == by) ≡ false =
            ground (arith, eq_iff by cluster, eq_iff cluster by) in
          rw skipped (same j)

module _ {W : Type 0} (cli : Client W) (laws : ClientLaws cli) (allow : Bool) (plain : Env W) where
  abbrev pub trace_server : Env W
  trace_server = with_manager cli allow plain

  -- What the server's cluster holds.
  abbrev pub table_of : W → Table
  table_of w j cluster = exported_by cluster (laws.content_at w j)

  -- What a request must bring for its answer to tell what it has done: the endpoints of an upload are
  -- of the cluster that it names, and a service to be deleted can be read, or is not there.
  abbrev pub IsFair : Route → Request → W → Type 0
  IsFair heartbeat request w = Unit
  IsFair get_all_global_services request w = Unit
  IsFair upload_global_service request w = IsOwnService (accepted trace_server request.body)
  IsFair (delete_endpoints namespace name) request w =
      IsRead (cli.get (service_key namespace name) w).0

  -- Each request is fair when it comes, and is answered with a code below 400.
  abbrev pub IsConfirmed : List Entry → State W → Type 0
  IsConfirmed [] s = Unit
  IsConfirmed (e ∷ es) s =
      IsFair e.route e.request s.world
      × (leb 400 (serve trace_server e.now e.route e.request s).0.status ≡ false)
      × IsConfirmed es (serve trace_server e.now e.route e.request s).1

  pub serve-write_cell :
      (now : Time) (route : Route) (request : Request) (s : State W)
      → IsFair route request s.world
      → leb 400 (serve trace_server now route request s).0.status ≡ false
      → (j : ObjectKey) (cluster : String)
      → table_of (serve trace_server now route request s).1.world j cluster
        ≡ write_cell (cell_at trace_server route request) (table_of s.world) j cluster
  unfolding serve handle
  serve-write_cell now heartbeat request s fair below j cluster = refl
  serve-write_cell now get_all_global_services request s fair below j cluster =
      ap (exported_by cluster) (laws.list_quiet j s.world)
  serve-write_cell now upload_global_service request s fair below j cluster =
      let (gs, read, stored) =
        upload-exported_by cli laws allow plain now request s.cluster_store s.world
          (serve_upload-IsDefinite trace_server now request s below) in
      rw read (stored (rw read at fair) j cluster)
  serve-write_cell now (delete_endpoints namespace name) request s fair below j cluster =
      delete_endpoints-exported_by cli laws allow plain now request s.cluster_store s.world
        namespace name fair
        (serve_delete-IsDefinite trace_server now request s namespace name below) j cluster

  play-written :
      (es : List Entry) (s : State W)
      → IsConfirmed es s
      → table_of (play trace_server es s).world ≡ written trace_server es (table_of s.world)
  unfolding play
  play-written [] s h = refl
  play-written (e ∷ es) s (fair, below, rest) =
      let step : table_of (serve trace_server e.now e.route e.request s).1.world
          ≡ write_cell (cell_of trace_server e) (table_of s.world) =
        fun_ext (λ j.
          fun_ext (λ cluster. serve-write_cell e.now e.route e.request s fair below j cluster)) in
      play-written es (serve trace_server e.now e.route e.request s).1 rest
      ∙ ap (written trace_server es) step

  -- After any sequence of requests of any clusters, each fair and answered with a code below 400, in
  -- which nobody uploads for another cluster, what the server holds of a cluster for a service is what
  -- the requests that this cluster has sent, alone and in their order, make of what it held before: an
  -- upload puts the endpoints of its service, and a deletion puts none.
  pub play-requests_of :
      (es : List Entry) (s : State W)
      → IsConfirmed es s
      → AreSentByOwner trace_server es
      → (j : ObjectKey) (cluster : String)
      → exported_by cluster (laws.content_at (play trace_server es s).world j)
        ≡ written trace_server (requests_of trace_server cluster es) (table_of s.world) j cluster
  play-requests_of es s h own j cluster =
      ap (λ (t : Table). t j cluster) (play-written es s h)
      ∙ written-requests_of trace_server cluster es (table_of s.world) (table_of s.world) own
          (λ i. refl) j
