-- ===== src/Hub/Tests.antt =====
-- The hub at a store in memory with one service that two clusters export.
use fab_dns.Base.{
  String, true, List, [], ◌∷◌, none, some, ◌≡◌, refl, err, if◌then◌else◌, filter, arith,
  Option-cases, inl, inr,
}
use fab_dns.Base.Map
use fab_dns.Base.Equality.{string_eq}
use fab_dns.Api.{
  Endpoint, GlobalService, ObjectKey, empty_meta, cluster_ip, key_of, key_beq, key_eq,
  empty_service,
}
use fab_dns.Kube.{other, Client, content_of}
use fab_dns.Kube.Memory.{Memory, memory, memory_laws}
use fab_dns.Hub.Namespace.{ensure}
use fab_dns.Hub.Manager.{
  remove_from, remove_endpoints, merge_into, create_or_merge_global_service, revoke_global_service,
}
use fab_dns.Hub.Manager.Removal.{is_elsewhere, remove_from-filter}
use fab_dns.Hub.Manager.Merging.{
  exported_by, merged_spec, create_or_merge-merged, create_or_merge-exported_by,
}
use fab_dns.Hub.Manager.Revoking.{revoked, revoke-revoked, IsRead}
use fab_dns.Hub.Clusters.{ClusterStore, new, new_cluster_store, set_expire_time}
use fab_dns.Hub.Clusters.View.{IsWf}
use fab_dns.Hub.Clusters.Steps.{created, timed, Reach, start, next, Reach-IsWf}

abbrev pub endpoint : String → String → Endpoint
endpoint address cluster = record {
  addresses = address ∷ [];
  hostname = none;
  target_ref = none;
  cluster = cluster;
  zone = "zone";
  region = "region";
}

abbrev pub nginx_of : String → List Endpoint → GlobalService
nginx_of cluster endpoints = record {
  metadata = record empty_meta { name = "nginx"; namespace = "default"; cluster_name = cluster };
  spec = record { type = cluster_ip; ports = []; endpoints = endpoints };
}

abbrev pub nginx : GlobalService
nginx = nginx_of "" (endpoint "10.0.0.1" "beijing" ∷ endpoint "10.0.0.2" "shanghai" ∷ [])

abbrev pub nginx_key : ObjectKey
nginx_key = record { namespace = "default"; name = "nginx" }

abbrev pub stored : Memory
stored = record { services = (nginx_key, content_of nginx) ∷ []; namespaces = "default" ∷ [] }

abbrev uploaded : GlobalService
uploaded = nginx_of "beijing" (endpoint "10.0.0.9" "beijing" ∷ [])

uploads : (create_or_merge_global_service memory true uploaded stored).0 ≡ none
unfolding create_or_merge_global_service ensure memory
uploads = refl

upload_test :
    Map.lookup nginx_key (create_or_merge_global_service memory true uploaded stored).1.services
    ≡ some (
        content_of
          (nginx_of "" (endpoint "10.0.0.2" "shanghai" ∷ endpoint "10.0.0.9" "beijing" ∷ [])))
unfolding create_or_merge_global_service ensure memory Map.lookup Map.insert remove_endpoints
    merge_into
upload_test = refl

abbrev after_upload : Memory
after_upload = (create_or_merge_global_service memory true uploaded stored).1

create_or_merge-merged_example :
    (labels : List (String × String)) × ((j : ObjectKey)
      → memory_laws.content_at after_upload j ≡ (
          if key_beq (key_of uploaded) j
          then some (record {
            labels = labels;
            spec =
                merged_spec memory memory_laws uploaded
                  (memory_laws.content_at stored (key_of uploaded));
          })
          else memory_laws.content_at stored j))
create_or_merge-merged_example =
    create_or_merge-merged memory memory_laws uploaded true stored uploads

create_or_merge-exported_by_example :
    exported_by "shanghai" (memory_laws.content_at after_upload nginx_key)
    ≡ exported_by "shanghai" (memory_laws.content_at stored nginx_key)
create_or_merge-exported_by_example =
    create_or_merge-exported_by memory memory_laws uploaded true stored (refl, tt) uploads nginx_key
      "shanghai"

revokes : (revoke_global_service memory "beijing" "default" "nginx" stored).0 ≡ none
unfolding revoke_global_service memory Map.lookup Map.insert remove_endpoints
revokes = refl

abbrev after_revocation : Memory
after_revocation = (revoke_global_service memory "beijing" "default" "nginx" stored).1

revoke-revoked_example :
    memory_laws.content_at after_revocation nginx_key
    ≡ revoked "beijing" (memory_laws.content_at stored nginx_key)
revoke-revoked_example =
    revoke-revoked memory memory_laws "beijing" "default" "nginx" stored
      (unfold memory Map.lookup in tt) revokes nginx_key

-- A client of which every read fails.
abbrev failing : Client Memory
failing = record memory { get = λ k w. (err (other "timeout"), w) }

-- The error of reading is lost: the service without a name is deleted.
revokes_unnamed :
    revoke_global_service failing "beijing" "default" "nginx" stored
    ≡ failing.delete empty_service stored
unfolding revoke_global_service remove_endpoints
revokes_unnamed = refl

-- Two rounds more than there are endpoints.
remove_from-filter_example :
    remove_from 4 "beijing" 0 nginx.spec.endpoints
    ≡ filter (is_elsewhere "beijing") nginx.spec.endpoints
remove_from-filter_example = remove_from-filter 4 nginx.spec.endpoints "beijing" (omega arith)

-- A store with a cluster that expires at 10, and one that never expires.
abbrev one : ClusterStore
one = (new "beijing" new_cluster_store).1

abbrev pub two : ClusterStore
two = (new "shanghai" (set_expire_time 0 10 one)).1

pub two_reached : Reach two
two_reached =
    next (next (next start (created "beijing" refl)) (timed 0 10 refl)) (created "shanghai" refl)

Reach-IsWf_example : IsWf two
Reach-IsWf_example = Reach-IsWf two two_reached

-- The store in memory can be read.
pub memory_readable : (k : ObjectKey) (w : Memory) → IsRead (memory.get k w).0
unfolding memory
memory_readable k w = elim (Option-cases (Map.lookup k w.services)) [
  | inl gone ↦ rw (gone, memory) tt
  | inr (c, found) ↦ rw (found, memory) tt
]
