-- ===== src/Hub/Importer.antt =====
-- pkg/service-hub/importer/global_service_importer.go: one tick of the importer. The goroutines that a
-- tick starts are tasks, each of which runs as one step.
pub mod Imports
pub mod Tasks
pub mod Running
pub mod Mirrors
use fab_dns.Base.{
  ℕ, String, Bool, true, false, not, ◌&&◌, List, [], ◌∷◌, ◌++◌, Option, none, some, if◌then◌else◌,
  ◌==◌, Result, ok, err,
}
use fab_dns.Base.Map
use fab_dns.Base.Equality.{string_eq}
use fab_dns.Api.{GlobalService, ObjectKey, Labels, empty_meta, empty_spec, key_of}
use fab_dns.Kube.{ApiError, Client}
use fab_dns.Hub.KeySet
use fab_dns.Hub.KeySet.{ObjectKeySet}
use fab_dns.Hub.Namespace.{ensure, key_created_by, app_service_hub, key_origin_resource_version}

-- `labels[key]`, with "" for a missing key.
abbrev text_or : Option String → String
text_or none = ""
text_or (some v) = v

-- The version that a service was imported from.
unfoldable pub origin : Labels → String
unfolding Map.lookup
origin labels = text_or (Map.lookup key_origin_resource_version labels)

abbrev with_labels : Labels → Labels
with_labels [] = (key_created_by, app_service_hub) ∷ []
with_labels (label ∷ labels) = label ∷ labels

-- The function that is handed to `CreateOrUpdate`.
pub import_into : GlobalService → GlobalService → GlobalService
unfolding origin
import_into source_service service =
    let labels = with_labels service.metadata.labels in
    if not (origin labels == "") && origin labels == source_service.metadata.resource_version
    then record service { metadata = record service.metadata { labels = labels } }
    else record service {
      metadata = record service.metadata {
        labels =
            Map.insert key_origin_resource_version source_service.metadata.resource_version labels;
      };
      spec = source_service.spec;
    }

abbrev pub local_copy_of : GlobalService → GlobalService
local_copy_of source_service = record {
  metadata = record empty_meta {
    name = source_service.metadata.name;
    namespace = source_service.metadata.namespace;
  };
  spec = empty_spec;
}

-- A goroutine of the importer.
pub data Task : Type 0 where
  create_or_update delete : GlobalService → Task

module _ {W : Type 0} (cli : Client W) (allow_create_namespace : Bool) where
  -- `createOrUpdateGlobalService` once the namespace is there, or is not looked after.
  pub import_ensured : GlobalService → Option ApiError × W → Option ApiError × W
  unfolding import_into
  import_ensured source_service (some e, w) = (some e, w)
  import_ensured source_service (none, w) =
      cli.create_or_update (local_copy_of source_service) (import_into source_service) w

  -- The error is the one that is logged.
  unfoldable pub create_or_update_global_service : GlobalService → W → Option ApiError × W
  unfolding import_ensured
  create_or_update_global_service source_service w =
      import_ensured source_service (
        if allow_create_namespace
        then ensure cli source_service.metadata.namespace w
        else (none, w))

  -- `deleteService` for the second task
  unfoldable pub run_task : Task → W → Option ApiError × W
  unfolding create_or_update_global_service
  run_task (create_or_update svc) w = create_or_update_global_service svc w
  run_task (delete svc) w = cli.delete svc w

  -- Tasks one after another.
  pub run_tasks : List Task → W → W
  unfolding run_task
  run_tasks [] w = w
  run_tasks (t ∷ tasks) w = run_tasks tasks (run_task t w).1

-- `importedKeySet`
pub imported_keys : List GlobalService → ObjectKeySet → ObjectKeySet
imported_keys [] keys = keys
imported_keys (svc ∷ services) keys = imported_keys services (KeySet.add (key_of svc) keys)

pub creations : List GlobalService → List Task
creations [] = []
creations (svc ∷ services) = create_or_update svc ∷ creations services

pub deletions : ObjectKeySet → List GlobalService → List Task
deletions keys [] = []
deletions keys (svc ∷ items) =
    let rest = deletions keys items in
    if not (KeySet.has (key_of svc) keys) then delete svc ∷ rest else rest

-- The tasks that `importServices` starts, from what `GetGlobalServices` and `List` return.
unfoldable pub import_services :
    {E : Type 0} → Result E (List GlobalService) → Result ApiError (List GlobalService) → List Task
unfolding imported_keys creations deletions
import_services (err e) local_services = []
import_services (ok services) (err e) = creations services
import_services (ok services) (ok items) =
    creations services ++ deletions (imported_keys services KeySet.new_object_key_set) items
