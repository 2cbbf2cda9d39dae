-- ===== src/Hub/Sessions.antt =====
-- The server and the cleaner at the stores of the tests.
use fab_dns.Base.{pos, ℕ, String, Option, suc, true, List, [], ◌∷◌, none, some, ◌≡◌, refl, ok}
use fab_dns.Base.Map
use fab_dns.Base.Equality.{string_eq}
use fab_dns.Api.{GlobalService}
use fab_dns.Kube.{ApiError}
use fab_dns.Kube.Memory.{Memory, memory, memory_laws}
use fab_dns.Hub.KeySet
use fab_dns.Hub.Namespace.{ensure}
use fab_dns.Hub.Manager.{
  create_or_merge_global_service, merge_into, revoke_global_service, remove_endpoints,
}
use fab_dns.Hub.Manager.Merging.{exported_by}
use fab_dns.Hub.Clusters.{new_cluster_store, get_expired_clusters}
use fab_dns.Hub.Clusters.Steps.{start, Reach-IsWf}
use fab_dns.Hub.Clusters.View.{view}
use fab_dns.Hub.Clusters.Upserts.{cluster_at}
use fab_dns.Hub.ApiServer.{
  Env, Request, State, heartbeat, upload_global_service, delete_endpoints, serve,
}
use fab_dns.Hub.ApiServer.Keys.{serve-view}
use fab_dns.Hub.ApiServer.Uploads.{with_manager}
use fab_dns.Hub.ApiServer.Traces.{Entry, IsConfirmed, play, play-requests_of}
use fab_dns.Hub.Cleaner.{clean_expired_cluster_endpoints}
use fab_dns.Hub.Cleaner.Expired.{Revoked, clean_expired_cluster_endpoints-Revoked}
use fab_dns.Hub.Recording.{record_global_services_by_cluster}
use fab_dns.Hub.Recording.First.{keys_of, record_global_services_by_cluster-first_key}
use fab_dns.Hub.Tests.{endpoint, nginx_of, stored, nginx_key, two, two_reached}

abbrev pub web : GlobalService
web = record (nginx_of "beijing" (endpoint "10.0.0.9" "beijing" ∷ [])) {
  spec = record (nginx_of "beijing" (endpoint "10.0.0.9" "beijing" ∷ [])).spec {
    ports = record { name = "http"; protocol = "TCP"; port = 80; app_protocol = none } ∷ [];
  };
}

-- A server to which every body is the same service.
abbrev pub env : Env Memory
env = with_manager memory true (record {
  list = memory.list;
  create_or_merge_global_service = create_or_merge_global_service memory true;
  revoke_global_service = revoke_global_service memory;
  marshal = λ items. ok "[]";
  unmarshal = λ text. ok web;
  error_text = λ e. "error";
  cluster_expire_duration = pos 60;
})

abbrev pub request : Request
request = record { cluster_name = "beijing"; body = ok "{}" }

serve-view_example :
    view "beijing"
      (serve env 5 heartbeat request
        (record { cluster_store = two; world = stored })).1.cluster_store
    ≡ some (record (cluster_at "beijing" two) { expire_time = 65 })
serve-view_example =
    serve-view env 5 heartbeat request two stored (Reach-IsWf two two_reached) "beijing" refl

uploads :
    (serve env 5 upload_global_service request
      (record { cluster_store = two; world = stored })).0.status
    ≡ 204
unfolding serve create_or_merge_global_service ensure memory
uploads = refl

abbrev after_upload : State Memory
after_upload =
    (serve env 5 upload_global_service request (record { cluster_store = two; world = stored })).1

deletes :
    (serve env 5
      (delete_endpoints "default" "nginx")
      request
      (record { cluster_store = two; world = stored })).0.status
    ≡ 204
unfolding serve revoke_global_service memory Map.lookup Map.insert remove_endpoints
deletes = refl

-- The revocation of the examples counts its calls.
abbrev counting : String → String → String → ℕ → Option ApiError × ℕ
counting cluster namespace name n = (none, suc n)

clean_expired_cluster_endpoints-Revoked_example :
    (tests : ℕ) × Revoked counting
      (λ i. 11)
      (λ i. two)
      (get_expired_clusters (λ m. m) (λ i. 11) (λ i. two))
      0
      tests
      (clean_expired_cluster_endpoints counting
        (λ m. m)
        (λ i. 11)
        (λ i. 11)
        (λ i. two)
        (λ i. two)
        0)
clean_expired_cluster_endpoints-Revoked_example =
    clean_expired_cluster_endpoints-Revoked counting (λ m. m) (λ i. 11) (λ i. 11) (λ i. two)
      (λ i. two) 0

abbrev second : GlobalService
second = record web { metadata = record web.metadata { name = "web" } }

-- Two services with an endpoint of the cluster, of which the first is recorded.
record_global_services_by_cluster-first_key_example :
    keys_of "beijing"
      (record_global_services_by_cluster "tianjin"
        (pos 60)
        (λ i. 5)
        (ok (web ∷ second ∷ []))
        (record { readings = 0; cluster_store = new_cluster_store })).cluster_store
    ≡ some (KeySet.add nginx_key KeySet.new_object_key_set)
unfolding view new_cluster_store Map.lookup
record_global_services_by_cluster-first_key_example =
    record_global_services_by_cluster-first_key "tianjin" (pos 60) (λ i. 5) "beijing" refl
      (web ∷ second ∷ []) (record { readings = 0; cluster_store = new_cluster_store })
      (Reach-IsWf new_cluster_store start)

abbrev pub initial : State Memory
initial = record { cluster_store = two; world = stored }

-- An upload of one cluster, and a deletion of the other one.
abbrev pub trace : List Entry
trace =
    record { now = 5; route = upload_global_service; request = request }
    ∷ record {
      now = 6;
      route = delete_endpoints "default" "nginx";
      request = record { cluster_name = "shanghai"; body = ok "" };
    }
    ∷ []

pub confirmed : IsConfirmed memory memory_laws true env trace initial
unfolding serve create_or_merge_global_service ensure memory revoke_global_service Map.lookup
    Map.insert remove_endpoints merge_into
confirmed = ((refl, tt), refl, (tt, refl, tt))

play-requests_of_example :
    exported_by "beijing" (memory_laws.content_at (play env trace initial).world nginx_key)
    ≡ endpoint "10.0.0.9" "beijing" ∷ []
play-requests_of_example =
    play-requests_of memory memory_laws true env trace initial confirmed (refl, (refl, tt))
      nginx_key "beijing"
