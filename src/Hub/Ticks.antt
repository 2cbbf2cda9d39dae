-- ===== src/Hub/Ticks.antt =====
-- The importer at the store of the tests.
use fab_dns.Base.{
  if◌then◌else◌, ℕ, true, false, List, In, inl, inr, sym, ◌∙◌, Bool-cases, [], ◌∷◌, none, some, ◌≡◌,
  refl, ◌↔◌, ok,
}
use fab_dns.Api.{GlobalService, ObjectKey, key_of, key_beq}
use fab_dns.Base.Map
use fab_dns.Kube.{Content, content_of}
use fab_dns.Hub.KeySet
use fab_dns.Kube.Memory.{Memory, memory, memory_laws}
use fab_dns.Hub.Namespace.{ensure}
use fab_dns.Hub.Importer.{
  Task, create_or_update, delete, run_task, run_tasks, import_services,
  create_or_update_global_service,
}
use fab_dns.Hub.Importer.Imports.{IsImported, create_or_update_global_service-IsImported}
use fab_dns.Hub.Importer.Tasks.{has_key}
use fab_dns.Hub.Importer.Running.{AreDone, IsCopy}
use fab_dns.Hub.Importer.Mirrors.{import_services-IsCopy}
use fab_dns.Hub.Tests.{endpoint, nginx, nginx_key, nginx_of, stored}

abbrev pub source_service : GlobalService
source_service = record (nginx_of "" (endpoint "10.0.0.9" "beijing" ∷ [])) {
  metadata = record (nginx_of "" []).metadata { resource_version = "7" };
}

imports : (create_or_update_global_service memory true source_service stored).0 ≡ none
unfolding create_or_update_global_service ensure memory
imports = refl

create_or_update_global_service-IsImported_example :
    (c : Content) × IsImported memory memory_laws source_service stored c
    × ((j : ObjectKey)
        → memory_laws.content_at
            (create_or_update_global_service memory true source_service stored).1
            j
          ≡ (if key_beq (key_of source_service) j then some c else memory_laws.content_at stored j))
create_or_update_global_service-IsImported_example =
    create_or_update_global_service-IsImported memory memory_laws source_service true stored imports

abbrev pub api : GlobalService
api = record source_service { metadata = record source_service.metadata { name = "api" } }

-- A cluster that has a service of another spec, and one that is exported no more.
abbrev pub before : Memory
before = record stored {
  services = (nginx_key, content_of nginx) ∷ (key_of api, content_of api) ∷ [];
}

abbrev pub downloads : List GlobalService
downloads = source_service ∷ []

abbrev pub items : List GlobalService
items = nginx ∷ api ∷ []

-- The deletion comes first.
abbrev pub tasks : List Task
tasks = delete api ∷ create_or_update source_service ∷ []

pub distinct_downloads :
    (a b : GlobalService) → In a downloads → In b downloads → key_of a ≡ key_of b → a ≡ b
distinct_downloads a b (inl p) (inl q) e = p ∙ sym q
distinct_downloads a b (inr i) (inl q) e = absurd i
distinct_downloads a b p (inr i) e = absurd i

pub listed_before :
    (j : ObjectKey) (c : Content)
    → memory_laws.content_at before j ≡ some c
    → has_key j items ≡ true
unfolding Map.lookup memory_laws
listed_before j c at = elim (Bool-cases (key_beq nginx_key j)) [
  | inl t ↦ rw t refl
  | inr t ↦ elim (Bool-cases (key_beq (key_of api) j)) [
    | inl u ↦ rw (t, u) refl
    | inr u ↦ let no : none ≡ some c = rw (t, u) at at in cc
  ]
]

pub tasks_started :
    (t : Task) → In t tasks ↔ In t (import_services {E = ℕ} (ok downloads) (ok items))
unfolding import_services KeySet.has KeySet.add KeySet.new_object_key_set Map.lookup Map.insert
tasks_started t = (
  λ i. elim i [ inl e ↦ inr (inl e) | inr k ↦ elim k [ inl e ↦ inl e | inr n ↦ absurd n ] ],
  λ i. elim i [ inl e ↦ inr (inl e) | inr k ↦ elim k [ inl e ↦ inl e | inr n ↦ absurd n ] ],
)

pub tasks_done : AreDone memory memory_laws true tasks before
unfolding run_task create_or_update_global_service ensure memory Map.lookup Map.delete
tasks_done = (refl, (refl, tt))

import_services-IsCopy_example :
    ((j : ObjectKey)
      → has_key j downloads ≡ false
      → memory_laws.content_at (run_tasks memory true tasks before) j ≡ none)
    × ((svc : GlobalService)
        → In svc downloads
        → (c : Content) × (memory_laws.content_at (run_tasks memory true tasks before) (key_of svc)
            ≡ some c)
          × IsCopy memory memory_laws true svc (memory_laws.content_at before (key_of svc)) c)
import_services-IsCopy_example =
    import_services-IsCopy memory memory_laws true ℕ downloads items tasks before distinct_downloads
      listed_before tasks_started tasks_done
