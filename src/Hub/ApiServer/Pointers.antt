-- ===== src/Hub/ApiServer/Pointers.antt =====
-- The pointers of the cluster store after a request.
use fab_dns.Base.{
  String, false, Option, none, some, ◌≡◌, refl, inl, inr, ◌==◌, Result, ok, err, Bool-cases, ℕ,
}
use fab_dns.Base.Equality.{string_eq}
use fab_dns.Api.{GlobalService, ObjectKey}
use fab_dns.Kube.{ApiError}
use fab_dns.Hub.Clusters.{
  ClusterStore, Time, get, set_expire_time, add_service_key, remove_service_key,
}
use fab_dns.Hub.Clusters.View.{IsWf, modify-IsWf}
use fab_dns.Hub.Clusters.Upserts.{upsert-IsWf}
use fab_dns.Hub.ApiServer.{
  Env, Request, Route, State, heartbeat, get_all_global_services, upload_global_service,
  delete_endpoints, is_complete, record_key, forget_key, upload_decoded, upload, deleted, handle,
  renew, serve,
}

module _ {W : Type 0} (env : Env W) where
  record_key-IsWf :
      (name : String) (gs : GlobalService) (store : ClusterStore)
      → IsWf store
      → IsWf (record_key env name gs store)
  unfolding add_service_key
  record_key-IsWf name gs store wf = upsert-IsWf store wf name _ (λ c. refl)

  forget_key-IsWf :
      (o : Option ℕ) (key : ObjectKey) (store : ClusterStore)
      → IsWf store
      → IsWf (forget_key env o key store)
  unfolding remove_service_key
  forget_key-IsWf none key store wf = wf
  forget_key-IsWf (some p) key store wf = modify-IsWf store wf p _ (λ c. refl)

  upload_decoded-IsWf :
      (name : String) (r : Result String GlobalService) (s : State W)
      → IsWf s.cluster_store
      → IsWf (upload_decoded env name r s).1.cluster_store
  unfolding upload_decoded
  upload_decoded-IsWf name (err e) s wf = wf
  upload_decoded-IsWf name (ok gs) s wf = elim (Bool-cases (is_complete gs)) [
    | inl t ↦ rw t (record_key-IsWf name gs s.cluster_store wf)
    | inr t ↦ rw t wf
  ]

  upload-IsWf :
      (name : String) (body : Result String String) (s : State W)
      → IsWf s.cluster_store
      → IsWf (upload env name body s).1.cluster_store
  unfolding upload
  upload-IsWf name (err e) s wf = wf
  upload-IsWf name (ok body) s wf = upload_decoded-IsWf name (env.unmarshal body) s wf

  deleted-IsWf :
      (name : String) (key : ObjectKey) (store : ClusterStore) (r : Option ApiError × W)
      → IsWf store
      → IsWf (deleted env name key store r).1.cluster_store
  unfolding deleted
  deleted-IsWf name key store (some e, w) wf = wf
  deleted-IsWf name key store (none, w) wf = forget_key-IsWf (get name store) key store wf

  handle-IsWf :
      (route : Route) (request : Request) (s : State W)
      → IsWf s.cluster_store
      → IsWf (handle env route request s).1.cluster_store
  unfolding handle
  handle-IsWf heartbeat request s wf = wf
  handle-IsWf get_all_global_services request s wf = wf
  handle-IsWf upload_global_service request s wf =
      upload-IsWf request.cluster_name request.body s wf
  handle-IsWf (delete_endpoints namespace name) request s wf =
      deleted-IsWf request.cluster_name _ s.cluster_store _ wf

  pub serve-IsWf :
      (now : Time) (route : Route) (request : Request) (s : State W)
      → (request.cluster_name == "") ≡ false
      → IsWf s.cluster_store
      → IsWf (serve env now route request s).1.cluster_store
  unfolding serve renew set_expire_time
  serve-IsWf now route request s named wf = rw named (
      handle-IsWf route request _
        (upsert-IsWf s.cluster_store wf request.cluster_name _ (λ c. refl)))
