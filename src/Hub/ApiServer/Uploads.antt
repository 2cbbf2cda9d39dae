-- ===== src/Hub/ApiServer/Uploads.antt =====
-- Requests of exporters to a server with the manager of pkg/service-hub/types.
use fab_dns.Base.{
  String, Bool, ◌&&◌, [], Option, none, some, ◌≡◌, refl, All, if◌then◌else◌, ◌==◌, Result, ok, err,
  Bool-cases, inl, inr, arith,
}
use fab_dns.Base.Equality.{string_eq}
use fab_dns.Api.{Endpoint, GlobalService, ObjectKey, key_of, key_beq}
use fab_dns.Kube.{ApiError, Client, ClientLaws}
use fab_dns.Hub.Manager.{create_or_merge_global_service, revoke_global_service}
use fab_dns.Hub.Manager.Merging.{exported_by, create_or_merge-exported_by}
use fab_dns.Hub.Manager.Revoking.{IsRead, service_key, revoke-exported_by}
use fab_dns.Hub.Clusters.{ClusterStore, Time}
use fab_dns.Hub.ApiServer.{
  Env, Request, Response, Route, State, upload_global_service, delete_endpoints, status_no_content,
  is_complete, upload_response, upload_decoded, upload, deleted, handle, serve,
}
use fab_dns.Hub.ApiServer.Keys.{accepted}

-- The server that `initAPIServer` builds around a client.
abbrev pub with_manager : {W : Type 0} → Client W → Bool → Env W → Env W
with_manager cli allow_create_namespace env = record env {
  list = cli.list;
  create_or_merge_global_service = create_or_merge_global_service cli allow_create_namespace;
  revoke_global_service = revoke_global_service cli;
}

module _ {W : Type 0} (env : Env W) where
  upload_response_ok :
      (o : Option ApiError) → (upload_response env o).status ≡ status_no_content → o ≡ none
  unfolding upload_response
  upload_response_ok none h = refl
  upload_response_ok (some e) h = let bad : 500 ≡ 204 = h in absurd (omega (arith, bad))

  -- An upload that is answered with "no content" was accepted, and was merged without an error.
  pub upload_ok :
      (name : String) (body : Result String String) (store : ClusterStore) (w : W)
      → (upload env name body (record { cluster_store = store; world = w })).0.status
        ≡ status_no_content
      → (gs : GlobalService) × (accepted env body ≡ some gs)
        × ((env.create_or_merge_global_service gs w).0 ≡ none)
        × ((upload env name body (record { cluster_store = store; world = w })).1.world
            ≡ (env.create_or_merge_global_service gs w).1)
  unfolding upload upload_decoded
  upload_ok name (err e) store w h = let bad : 500 ≡ 204 = h in absurd (omega (arith, bad))
  upload_ok name (ok body) store w h = go (env.unmarshal body) refl h
    where
      go :
          (r : Result String GlobalService)
          → env.unmarshal body ≡ r
          → (upload_decoded env name r (record { cluster_store = store; world = w })).0.status
            ≡ status_no_content
          → (gs : GlobalService) × (accepted env (ok body) ≡ some gs)
            × ((env.create_or_merge_global_service gs w).0 ≡ none)
            × ((upload_decoded env name r (record { cluster_store = store; world = w })).1.world
                ≡ (env.create_or_merge_global_service gs w).1)
      go (err e) parsed k = let bad : 400 ≡ 204 = k in absurd (omega (arith, bad))
      go (ok gs) parsed k = elim (Bool-cases (is_complete gs)) [
        | inl t ↦ (
          gs,
          rw (parsed, t) refl,
          upload_response_ok (env.create_or_merge_global_service gs w).0 (rw t at k),
          rw t refl,
        )
        | inr t ↦ let bad : 400 ≡ 204 = rw t at k in absurd (omega (arith, bad))
      ]

module _ {W : Type 0} (cli : Client W) (laws : ClientLaws cli) (allow : Bool) (env : Env W)
    (now : Time) (request : Request) (store : ClusterStore) (w : W) where
  abbrev server : Env W
  server = with_manager cli allow env

  abbrev after : Route → Response × State W
  after route = serve server now route request (record { cluster_store = store; world = w })

  -- An upload that is answered with status 204 holds a complete service; if all endpoints of that
  -- service are of the cluster that the service names, the upload has written one cell of the table
  -- of endpoints by service and cluster, and every other cell is as before.
  pub upload-exported_by :
      (after upload_global_service).0.status ≡ status_no_content
      → (gs : GlobalService) × (accepted server request.body ≡ some gs)
        × (All (λ (e : Endpoint). e.cluster ≡ gs.metadata.cluster_name) gs.spec.endpoints
            → (j : ObjectKey) (cluster : String)
            → exported_by cluster (laws.content_at (after upload_global_service).1.world j) ≡ (
                if key_beq (key_of gs) j && cluster == gs.metadata.cluster_name
                then gs.spec.endpoints
                else exported_by cluster (laws.content_at w j)))
  unfolding serve handle
  upload-exported_by h =
      let (gs, parsed, merged, same) = upload_ok server request.cluster_name request.body _ w h in
      (
        gs,
        parsed,
        λ own j cluster.
            rw same (create_or_merge-exported_by cli laws gs allow w own merged j cluster),
      )

  deleted_ok :
      (key : ObjectKey) (s : ClusterStore) (r : Option ApiError × W)
      → (deleted server request.cluster_name key s r).0.status ≡ status_no_content
      → r.0 ≡ none
  unfolding deleted
  deleted_ok key s (some e, v) h = let bad : 500 ≡ 204 = h in absurd (omega (arith, bad))
  deleted_ok key s (none, v) h = refl

  deleted_world :
      (key : ObjectKey) (s : ClusterStore) (r : Option ApiError × W)
      → (deleted server request.cluster_name key s r).1.world ≡ r.1
  unfolding deleted
  deleted_world key s (some e, v) = refl
  deleted_world key s (none, v) = refl

  -- If the service could be read, or is not there, a deletion that is answered with status 204 has
  -- cleared the cell of the service and the cluster that sent the request, and every other cell is as
  -- before.
  pub delete_endpoints-exported_by :
      (namespace name : String)
      → IsRead (cli.get (service_key namespace name) w).0
      → (after (delete_endpoints namespace name)).0.status ≡ status_no_content
      → (j : ObjectKey) (cluster : String)
      → exported_by cluster (laws.content_at (after (delete_endpoints namespace name)).1.world j)
        ≡ (if key_beq (service_key namespace name) j && cluster == request.cluster_name
            then []
            else exported_by cluster (laws.content_at w j))
  unfolding serve handle
  delete_endpoints-exported_by namespace name read h j cluster =
      let revoked = revoke_global_service cli request.cluster_name namespace name w in
      rw (deleted_world (service_key namespace name) _ revoked) (
        revoke-exported_by cli laws request.cluster_name namespace name w read
          (deleted_ok (service_key namespace name) _ revoked h) j cluster)
