-- ===== src/Hub/Importer/Imports.antt =====
-- What the import of a service stores.
use fab_dns.Base.{
  String, Bool, true, false, not, ◌&&◌, [], ◌∷◌, Option, none, some, ◌≡◌, refl, sym, ap, ◌∙◌, arith,
  ◌⊎◌, inl, inr, if◌then◌else◌, ◌==◌, eq_iff, Bool-cases,
}
use fab_dns.Base.Map
use fab_dns.Base.Map.{lookup-insert}
use fab_dns.Base.Equality.{string_eq}
use fab_dns.Api.{GlobalService, ObjectKey, Labels, key_of, key_beq}
use fab_dns.Kube.{ApiError, Client, ClientLaws, Content, content_of, content_or}
use fab_dns.Hub.Namespace.{ensure, content_at-ensure, key_origin_resource_version}
use fab_dns.Hub.Importer.{
  origin, import_into, local_copy_of, import_ensured, create_or_update_global_service,
}

-- What an import makes of an old content: the version of the source is noted, and the spec is that of
-- the source or the content is the old one.
abbrev pub IsImportOf : GlobalService → Content → Content → Type 0
IsImportOf source_service old c =
    (origin c.labels ≡ source_service.metadata.resource_version)
    × ((c.spec ≡ source_service.spec) ⊎ (((origin old.labels == "") ≡ false) × (c ≡ old)))

origin-insert :
    (v : String) (labels : Labels) → origin (Map.insert key_origin_resource_version v labels) ≡ v
unfolding origin
origin-insert v labels =
    rw (lookup-insert key_origin_resource_version key_origin_resource_version v labels) refl

import_into-IsImportOf :
    (source_service old : GlobalService)
    → IsImportOf source_service (content_of old) (content_of (import_into source_service old))
unfolding import_into
import_into-IsImportOf source_service old = go old.metadata.labels refl
  where
    go :
        (l : Labels)
        → old.metadata.labels ≡ l
        → IsImportOf source_service (content_of old) (content_of (import_into source_service old))
    go [] e =
        rw (e, import_into) (origin-insert source_service.metadata.resource_version _, inl refl)
    go (x ∷ l) e =
        elim (Bool-cases (
          not (origin (x ∷ l) == "")
          && origin (x ∷ l) == source_service.metadata.resource_version)) [
            | inl t ↦
                rw (e, t, import_into)
                  (
                    (eq_iff (origin (x ∷ l)) source_service.metadata.resource_version).0
                        (ground (arith, t)),
                    inr (ground (arith, t), refl),
                  )
            | inr t ↦
                rw (e, t, import_into)
                  (origin-insert source_service.metadata.resource_version _, inl refl)
          ]

module _ {W : Type 0} (cli : Client W) (laws : ClientLaws cli)
    (source_service : GlobalService) where
  open laws use {content_at}

  -- The content of the service after an import from a world.
  abbrev pub IsImported : W → Content → Type 0
  IsImported w c =
      (origin c.labels ≡ source_service.metadata.resource_version)
      × ((c.spec ≡ source_service.spec) ⊎ (content_at w (key_of source_service) ≡ some c))

  IsImportOf-IsImported :
      (o : Option Content) (old c : Content)
      → old ≡ content_or (content_of (local_copy_of source_service)) o
      → IsImportOf source_service old c
      → (origin c.labels ≡ source_service.metadata.resource_version)
        × ((c.spec ≡ source_service.spec) ⊎ (o ≡ some c))
  IsImportOf-IsImported o old c was (version, inl spec) = (version, inl spec)
  IsImportOf-IsImported none old c was (version, inr (noted, same)) =
      let bad : (origin [] == "") ≡ false = rw was at noted in
      let no : true ≡ false = unfold origin Map.lookup in bad in cc
  IsImportOf-IsImported (some d) old c was (version, inr (noted, same)) =
      (version, inr (ap (λ (x : Content). some x) (sym (same ∙ was))))

  -- The outcome of an import.
  abbrev IsDone : W → W → Type 0
  IsDone w w' =
      (c : Content) × IsImported w c
      × ((j : ObjectKey)
          → content_at w' j
            ≡ (if key_beq (key_of source_service) j then some c else content_at w j))

  import_ensured_ok :
      (allow : Bool) (o : Option ApiError) (v w : W)
      → ((j : ObjectKey) → content_at v j ≡ content_at w j)
      → (import_ensured cli allow source_service (o, v)).0 ≡ none
      → IsDone w (import_ensured cli allow source_service (o, v)).1
  unfolding import_ensured
  import_ensured_ok allow (some e) v w same h = cc
  import_ensured_ok allow none v w same h =
      let (old, _, was, stored) =
        laws.create_or_update_ok (local_copy_of source_service) (import_into source_service) v h in
      (
        content_of (import_into source_service old),
        IsImportOf-IsImported (content_at w (key_of source_service)) (content_of old) _
            (was ∙ rw (same (key_of source_service)) refl)
            (import_into-IsImportOf source_service old),
        λ j. stored j ∙ rw (same j) refl,
      )

  -- If the import of a service ends without an error, the service is stored with the version of the
  -- source noted, and either with the spec of the source, or exactly as it was stored before, which
  -- then has that version noted; every other service is as it was.
  pub create_or_update_global_service-IsImported :
      (allow : Bool) (w : W)
      → (create_or_update_global_service cli allow source_service w).0 ≡ none
      → (c : Content) × IsImported w c
        × ((j : ObjectKey)
            → content_at (create_or_update_global_service cli allow source_service w).1 j
              ≡ (if key_beq (key_of source_service) j then some c else content_at w j))
  unfolding create_or_update_global_service
  create_or_update_global_service-IsImported false w h =
      import_ensured_ok false none w w (λ j. refl) h
  create_or_update_global_service-IsImported true w h =
      let (o, v) = ensure cli source_service.metadata.namespace w in
      import_ensured_ok true o v w
        (λ j. content_at-ensure cli laws source_service.metadata.namespace j w) h
