-- ===== src/Hub/ApiServer/Statuses.antt =====
-- Which codes the handlers answer with.
use fab_dns.Base.{
  String, true, false, Option, none, some, ◌≡◌, refl, leb, Result, ok, err, Bool-cases, inl, inr,
}
use fab_dns.Api.{GlobalService, ObjectKey}
use fab_dns.Kube.{ApiError}
use fab_dns.Hub.Clusters.{ClusterStore, Time}
use fab_dns.Hub.ApiServer.{
  Env, Request, Response, State, upload_global_service, delete_endpoints, status_no_content,
  is_complete, upload_response, upload_decoded, upload, deleted, handle, serve,
}

-- A code below 400 is that of an answer without content.
abbrev pub IsDefinite : Response → Type 0
IsDefinite r = leb 400 r.status ≡ false → r.status ≡ status_no_content

module _ {W : Type 0} (env : Env W) where
  upload_response-IsDefinite : (o : Option ApiError) → IsDefinite (upload_response env o)
  unfolding upload_response
  upload_response-IsDefinite none h = refl
  upload_response-IsDefinite (some e) h = cc

  upload_decoded-IsDefinite :
      (name : String) (r : Result String GlobalService) (s : State W)
      → IsDefinite (upload_decoded env name r s).0
  unfolding upload_decoded
  upload_decoded-IsDefinite name (err e) s = λ h. let k : true ≡ false = h in cc
  upload_decoded-IsDefinite name (ok gs) s = elim (Bool-cases (is_complete gs)) [
    | inl t ↦ rw t (upload_response-IsDefinite (env.create_or_merge_global_service gs s.world).0)
    | inr t ↦ rw t (λ h. let k : true ≡ false = h in cc)
  ]

  upload-IsDefinite :
      (name : String) (body : Result String String) (s : State W)
      → IsDefinite (upload env name body s).0
  unfolding upload
  upload-IsDefinite name (err e) s = λ h. let k : true ≡ false = h in cc
  upload-IsDefinite name (ok body) s = upload_decoded-IsDefinite name (env.unmarshal body) s

  deleted-IsDefinite :
      (name : String) (key : ObjectKey) (store : ClusterStore) (r : Option ApiError × W)
      → IsDefinite (deleted env name key store r).0
  unfolding deleted
  deleted-IsDefinite name key store (some e, w) h = cc
  deleted-IsDefinite name key store (none, w) h = refl

  module _ (now : Time) (request : Request) (s : State W) where
    pub serve_upload-IsDefinite : IsDefinite (serve env now upload_global_service request s).0
    unfolding serve handle
    serve_upload-IsDefinite = upload-IsDefinite request.cluster_name request.body _

    pub serve_delete-IsDefinite :
        (namespace name : String)
        → IsDefinite (serve env now (delete_endpoints namespace name) request s).0
    unfolding serve handle
    serve_delete-IsDefinite namespace name =
        deleted-IsDefinite request.cluster_name _ _
          (env.revoke_global_service request.cluster_name namespace name s.world)
