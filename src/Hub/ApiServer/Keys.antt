-- ===== src/Hub/ApiServer/Keys.antt =====
-- What a request leaves in the cluster store.
use fab_dns.Base.{
  String, false, Option, none, some, ◌≡◌, refl, if◌then◌else◌, ◌==◌, Result, ok, err, Bool-cases,
  inl, inr,
}
use fab_dns.Base.Equality.{string_eq}
use fab_dns.Api.{GlobalService, ObjectKey, key_of}
use fab_dns.Kube.{ApiError}
use fab_dns.Hub.KeySet
use fab_dns.Hub.KeySet.{ObjectKeySet}
use fab_dns.Hub.Clusters.{
  add_duration, Cluster, ClusterStore, Time, get, new, set_expire_time, add_service_key,
  remove_service_key,
}
use fab_dns.Hub.Clusters.View.{IsWf, view}
use fab_dns.Hub.Clusters.Upserts.{
  upsert, cluster_at, view-upsert, view-modify-upsert, get-upsert, upsert-upsert,
}
use fab_dns.Hub.ApiServer.{
  Env, Request, Route, heartbeat, get_all_global_services, upload_global_service, delete_endpoints,
  is_complete, record_key, forget_key, upload_decoded, upload, deleted, handle, renew, serve,
}

-- The service of an upload that is read, parsed and complete.
abbrev pub if_complete : Result String GlobalService → Option GlobalService
if_complete (err e) = none
if_complete (ok gs) = if is_complete gs then some gs else none

module _ {W : Type 0} (env : Env W) where
  abbrev pub accepted : Result String String → Option GlobalService
  accepted (err e) = none
  accepted (ok body) = if_complete (env.unmarshal body)

  abbrev pub with_key : Option GlobalService → ObjectKeySet → ObjectKeySet
  with_key none keys = keys
  with_key (some gs) keys = KeySet.add (key_of gs) keys

  abbrev pub without_key : Option ApiError → ObjectKey → ObjectKeySet → ObjectKeySet
  without_key none key keys = KeySet.delete key keys
  without_key (some e) key keys = keys

  -- The keys of the calling cluster after a request: an accepted upload adds the key of its service,
  -- whatever the manager says; a deletion that the manager confirms removes the key.
  abbrev pub keys_after : Route → Request → W → ObjectKeySet → ObjectKeySet
  keys_after heartbeat request w keys = keys
  keys_after get_all_global_services request w keys = keys
  keys_after upload_global_service request w keys = with_key (accepted request.body) keys
  keys_after (delete_endpoints namespace name) request w keys =
      without_key (env.revoke_global_service request.cluster_name namespace name w).0
        (record { namespace = namespace; name = name }) keys

  abbrev renewed : Time → Cluster → Cluster
  renewed now c = record c { expire_time = add_duration now env.cluster_expire_duration }

  module _ (now : Time) (store : ClusterStore) (wf : IsWf store) (name : String) where
    -- The store in which a handler starts.
    abbrev started : ClusterStore
    started = upsert name (renewed now) store

    -- What each handler makes of the cluster of the request, and of all others.
    abbrev IsUpdated : String → ObjectKeySet → ClusterStore → Type 0
    IsUpdated j keys t = view j t ≡ (
        if name == j
        then some (record (cluster_at name store) {
          service_key_set = keys;
          expire_time = add_duration now env.cluster_expire_duration;
        })
        else view j store)

    abbrev old_keys : ObjectKeySet
    old_keys = (cluster_at name store).service_key_set

    started-IsUpdated : (j : String) → IsUpdated j old_keys started
    started-IsUpdated j = view-upsert store wf name j (renewed now)

    record_key-IsUpdated :
        (j : String) (gs : GlobalService)
        → IsUpdated j (KeySet.add (key_of gs) old_keys) (record_key env name gs started)
    unfolding add_service_key
    record_key-IsUpdated j gs =
        rw
          (upsert-upsert store wf name (renewed now)
            (λ c. record c { service_key_set = KeySet.add (key_of gs) c.service_key_set }))
          (view-modify-upsert store wf name j (renewed now) _ (λ c. refl) (new name store).0
            (get-upsert store wf name (renewed now)))

    forget_key-IsUpdated :
        (j : String) (key : ObjectKey)
        → IsUpdated j (KeySet.delete key old_keys) (forget_key env (get name started) key started)
    unfolding remove_service_key
    forget_key-IsUpdated j key = rw (get-upsert store wf name (renewed now)) (
        view-modify-upsert store wf name j (renewed now) _ (λ c. refl) (new name store).0
          (get-upsert store wf name (renewed now)))

    deleted-IsUpdated :
        (j : String) (key : ObjectKey) (r : Option ApiError × W)
        → IsUpdated j
            (without_key r.0 key old_keys)
            (deleted env name key started r).1.cluster_store
    unfolding deleted
    deleted-IsUpdated j key (some e, w) = started-IsUpdated j
    deleted-IsUpdated j key (none, w) = forget_key-IsUpdated j key

    upload_decoded-IsUpdated :
        (j : String) (r : Result String GlobalService) (w : W)
        → IsUpdated j
            (with_key (if_complete r) old_keys)
            (upload_decoded env name r
              (record { cluster_store = started; world = w })).1.cluster_store
    unfolding upload_decoded
    upload_decoded-IsUpdated j (err e) w = started-IsUpdated j
    upload_decoded-IsUpdated j (ok gs) w = elim (Bool-cases (is_complete gs)) [
      | inl t ↦ rw t (record_key-IsUpdated j gs)
      | inr t ↦ rw t (started-IsUpdated j)
    ]

    upload-IsUpdated :
        (j : String) (body : Result String String) (w : W)
        → IsUpdated j
            (with_key (accepted body) old_keys)
            (upload env name body (record { cluster_store = started; world = w })).1.cluster_store
    unfolding upload
    upload-IsUpdated j (err e) w = started-IsUpdated j
    upload-IsUpdated j (ok body) w = upload_decoded-IsUpdated j (env.unmarshal body) w

  module _ (now : Time) (route : Route) (request : Request) (store : ClusterStore) (w : W)
      (wf : IsWf store) where
    handle-IsUpdated :
        (j : String)
        → IsUpdated now store wf request.cluster_name j
            (keys_after route request w (cluster_at request.cluster_name store).service_key_set)
            (handle env route request (record {
              cluster_store = started now store wf request.cluster_name;
              world = w;
            })).1.cluster_store
    unfolding handle
    handle-IsUpdated j = go route
      where
        go :
            (r : Route)
            → IsUpdated now store wf request.cluster_name j
                (keys_after r request w (cluster_at request.cluster_name store).service_key_set)
                (handle env r request (record {
                  cluster_store = started now store wf request.cluster_name;
                  world = w;
                })).1.cluster_store
        go heartbeat = started-IsUpdated now store wf request.cluster_name j
        go get_all_global_services = started-IsUpdated now store wf request.cluster_name j
        go upload_global_service =
            upload-IsUpdated now store wf request.cluster_name j request.body w
        go (delete_endpoints namespace name) =
            deleted-IsUpdated now store wf request.cluster_name j
              (record { namespace = namespace; name = name })
              (env.revoke_global_service request.cluster_name namespace name w)

    -- In a store whose pointers lead to clusters of their names, any request of a cluster that gives its
    -- name sets the expire time of that cluster to the time of the request plus the duration of the
    -- configuration, creating the cluster if need be; adds the key of an accepted upload to its keys;
    -- removes the key of a deletion that the manager confirms; and leaves all other clusters as they
    -- were.
    pub serve-view :
        (j : String)
        → (request.cluster_name == "") ≡ false
        → view j
            (serve env now route request
              (record { cluster_store = store; world = w })).1.cluster_store
          ≡ (if request.cluster_name == j
              then some (record (cluster_at request.cluster_name store) {
                service_key_set =
                    keys_after route request w
                      (cluster_at request.cluster_name store).service_key_set;
                expire_time = add_duration now env.cluster_expire_duration;
              })
              else view j store)
    unfolding serve renew set_expire_time
    serve-view j named = rw named (handle-IsUpdated j)
