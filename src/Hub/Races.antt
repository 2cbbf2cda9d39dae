-- ===== src/Hub/Races.antt =====
-- Requests in flight at the hub of the tests.
use fab_dns.Base.{ℕ, true, List, [], ◌∷◌, some, ◌≡◌, refl, All, map, inl, inr}
use fab_dns.Base.Map
use fab_dns.Base.Equality.{string_eq}
use fab_dns.Api.{key_eq}
use fab_dns.Kube.Memory.{Memory, memory, memory_laws}
use fab_dns.Hub.KeySet
use fab_dns.Hub.Namespace.{ensure}
use fab_dns.Hub.Manager.{
  create_or_merge_global_service, merge_into, revoke_global_service, remove_endpoints,
}
use fab_dns.Hub.Manager.Merging.{exported_by}
use fab_dns.Hub.Clusters
use fab_dns.Hub.Clusters.{new_cluster_store}
use fab_dns.Hub.Clusters.View.{view}
use fab_dns.Hub.ApiServer.{State, heartbeat, upload_global_service, delete_endpoints}
use fab_dns.Hub.ApiServer.Traces.{Entry}
use fab_dns.Hub.ApiServer.Covered.{IsCell, keys_of}
use fab_dns.Hub.ApiServer.Threads.{
  Phase, start_decoded, start_upload, start_deletion, start_handler, advance, step_at, interleave,
}
use fab_dns.Hub.ApiServer.Threads.Interleaved.{
  Job, incoming, tick, arrive, IsAnswered, interleave-IsCell,
}
use fab_dns.Hub.Sessions.{env, request, web}
use fab_dns.Hub.Sweeps.{memory_revokes, started, started-IsWf}
use fab_dns.Hub.Tests.{memory_readable, nginx_key}

abbrev upload : Entry
upload = record { now = 5; route = upload_global_service; request = request }

abbrev deletion : Entry
deletion = record { now = 6; route = delete_endpoints "default" "nginx"; request = request }

-- The deletion of another service.
abbrev other_deletion : Entry
other_deletion = record { now = 6; route = delete_endpoints "default" "web"; request = request }

abbrev beat : Entry
beat = record { now = 7; route = heartbeat; request = request }

-- The cleaner runs after the cluster has expired.
abbrev jobs : List Job
jobs =
    incoming upload
    ∷ incoming other_deletion
    ∷ incoming beat
    ∷ tick (λ m. m) (λ i. 90) (λ i. 90)
    ∷ []

-- The upload waits between its merge and the record of its key.
abbrev schedule : List ℕ
schedule = 0 ∷ 1 ∷ 2 ∷ 0 ∷ 0 ∷ 2 ∷ 1 ∷ 2 ∷ 1 ∷ 1 ∷ 3 ∷ 3 ∷ 0 ∷ 3 ∷ 3 ∷ 1 ∷ 0 ∷ 3 ∷ []

finished : All IsAnswered (interleave env schedule (map arrive jobs) started).0
unfolding interleave step_at advance start_handler start_upload start_decoded start_deletion
    create_or_merge_global_service ensure memory revoke_global_service Map.lookup Map.insert
    remove_endpoints merge_into Clusters.new Clusters.get new_cluster_store Clusters.set_expire_time
    Clusters.add_service_key Clusters.remove_service_key Clusters.modify KeySet.add KeySet.delete
    KeySet.new_object_key_set memory_laws view Map.delete Clusters.get_all_service_keys
finished = (refl, (refl, (refl, (tt, tt))))

interleave-IsCell_example :
    IsCell
      (exported_by "beijing" (
        memory_laws.content_at
          (interleave env schedule (map arrive jobs) started).1.world
          nginx_key))
      nginx_key
      (keys_of "beijing" (interleave env schedule (map arrive jobs) started).1.cluster_store)
unfolding memory_laws Map.lookup
interleave-IsCell_example =
    interleave-IsCell memory memory_laws true env memory_readable memory_revokes nginx_key "beijing"
      schedule jobs started started-IsWf (inl refl) ((refl, (refl, tt)), (tt, (tt, (tt, tt))))
      (inr (refl, (refl, (refl, (refl, tt))))) finished

-- An upload between the steps of a deletion of the same service by the same cluster.
abbrev crossed : List Phase × State Memory
crossed =
    interleave env (1 ∷ 1 ∷ 1 ∷ 1 ∷ 0 ∷ 0 ∷ 0 ∷ 0 ∷ 0 ∷ 1 ∷ [])
      (arrive (incoming upload) ∷ arrive (incoming deletion) ∷ []) started

-- Both are answered with "no content", the endpoints are there, and no key is recorded for them.
crossed_unrecorded :
    All IsAnswered crossed.0
    × (exported_by "beijing" (memory_laws.content_at crossed.1.world nginx_key)
        ≡ web.spec.endpoints)
    × (keys_of "beijing" crossed.1.cluster_store ≡ [])
unfolding interleave step_at advance start_handler start_upload start_decoded start_deletion
    create_or_merge_global_service ensure memory revoke_global_service Map.lookup Map.insert
    remove_endpoints merge_into Clusters.new Clusters.get new_cluster_store Clusters.set_expire_time
    Clusters.add_service_key Clusters.remove_service_key Clusters.modify KeySet.add KeySet.delete
    KeySet.new_object_key_set memory_laws view Map.delete
crossed_unrecorded = ((refl, (refl, tt)), refl, refl)

-- A tick that tests an expired cluster, an upload of that cluster, and then the revocation of the tick.
abbrev late_upload : Entry
late_upload = record { now = 100; route = upload_global_service; request = request }

abbrev overtaken : List Phase × State Memory
overtaken =
    interleave env (0 ∷ 0 ∷ 0 ∷ 0 ∷ 0 ∷ 1 ∷ 1 ∷ 1 ∷ 1 ∷ 1 ∷ 2 ∷ 2 ∷ 2 ∷ 2 ∷ 2 ∷ 1 ∷ [])
      (arrive (incoming upload)
        ∷ arrive (tick (λ m. m) (λ i. 90) (λ i. 90))
        ∷ arrive (incoming late_upload)
        ∷ [])
      started

-- Both uploads are answered with "no content", and the cluster is not expired, but its endpoints are
-- gone.
overtaken_revoked :
    All IsAnswered overtaken.0
    × (exported_by "beijing" (memory_laws.content_at overtaken.1.world nginx_key) ≡ [])
    × (view "beijing" overtaken.1.cluster_store
        ≡ some (record {
          name = "beijing";
          service_key_set = (nginx_key, tt) ∷ [];
          expire_time = 160;
        }))
unfolding interleave step_at advance start_handler start_upload start_decoded start_deletion
    create_or_merge_global_service ensure memory revoke_global_service Map.lookup Map.insert
    remove_endpoints merge_into Clusters.new Clusters.get new_cluster_store Clusters.set_expire_time
    Clusters.add_service_key Clusters.remove_service_key Clusters.modify KeySet.add KeySet.delete
    KeySet.new_object_key_set memory_laws view Map.delete Clusters.get_all_service_keys
overtaken_revoked = ((refl, (tt, (refl, tt))), refl, refl)
