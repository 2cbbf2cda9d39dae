-- ===== src/Hub/Manager/Merging.antt =====
-- `CreateOrMergeGlobalService` against a view of the store by cluster.
use fab_dns.Base.{
  String, Bool, true, false, ◌&&◌, List, [], ◌∷◌, ◌++◌, Option, none, some, ◌≡◌, ◌≢◌, refl, subst,
  ap, ◌∙◌, arith, filter, filter-append, All, if◌then◌else◌, ◌==◌, eq_iff, inl, inr, Bool-cases,
}
use mathlib.Core.List.{append-nil}
use fab_dns.Api.{
  Endpoint, GlobalService, GlobalServiceSpec, ObjectKey, key_of, key_beq, key_beq_iff,
}
use fab_dns.Kube.{ApiError, Client, ClientLaws, Content, content_of, content_or}
use fab_dns.Hub.Namespace.{content_at-ensure, ensure}
use fab_dns.Hub.Manager.{merge_into, local_service_of, merge, create_or_merge_global_service}
use fab_dns.Hub.Manager.Removal.{is_from, is_elsewhere, remove_endpoints_lem}

-- The endpoints of a stored service; none if there is no service.
abbrev pub endpoints_of : Option Content → List Endpoint
endpoints_of none = []
endpoints_of (some c) = c.spec.endpoints

-- Those of one cluster.
abbrev pub exported_by : String → Option Content → List Endpoint
exported_by cluster o = filter (is_from cluster) (endpoints_of o)

filter_own :
    (cluster : String) (es : List Endpoint)
    → All (λ (e : Endpoint). e.cluster ≡ cluster) es
    → filter (is_from cluster) es ≡ es
filter_own cluster [] h = refl
filter_own cluster (e ∷ es) (p, h) =
    ground (arith, filter_own cluster es h, eq_iff e.cluster cluster)

filter_foreign :
    (cluster other : String) (es : List Endpoint)
    → other ≢ cluster
    → All (λ (e : Endpoint). e.cluster ≡ cluster) es
    → filter (is_from other) es ≡ []
filter_foreign cluster other [] ne h = refl
filter_foreign cluster other (e ∷ es) ne (p, h) =
    ground (arith, filter_foreign cluster other es ne h, eq_iff e.cluster other)

-- What a removal leaves of a cluster: nothing of its own, everything of another.
pub exported-elsewhere :
    (cluster : String) (es : List Endpoint)
    → filter (is_from cluster) (filter (is_elsewhere cluster) es) ≡ []
exported-elsewhere cluster [] = refl
exported-elsewhere cluster (e ∷ es) = ground (arith, exported-elsewhere cluster es)

pub exported-elsewhere_ne :
    (cluster other : String) (es : List Endpoint)
    → other ≢ cluster
    → filter (is_from other) (filter (is_elsewhere cluster) es) ≡ filter (is_from other) es
exported-elsewhere_ne cluster other [] ne = refl
exported-elsewhere_ne cluster other (e ∷ es) ne = ground (
  arith,
  exported-elsewhere_ne cluster other es ne,
  eq_iff e.cluster cluster,
  eq_iff e.cluster other,
)

old_endpoints :
    (ext : GlobalService) (o : Option Content)
    → (content_or (content_of (local_service_of ext)) o).spec.endpoints ≡ endpoints_of o
old_endpoints ext none = refl
old_endpoints ext (some c) = refl

module _ {W : Type 0} (cli : Client W) (laws : ClientLaws cli) (ext : GlobalService) where
  open laws use {content_at}

  -- The spec that is stored: the type, the ports and the endpoints of the service that is merged,
  -- its endpoints behind those that other clusters have stored.
  abbrev pub merged_spec : Option Content → GlobalServiceSpec
  merged_spec old = record {
    type = ext.spec.type;
    ports = ext.spec.ports;
    endpoints =
        filter (is_elsewhere ext.metadata.cluster_name) (endpoints_of old) ++ ext.spec.endpoints;
  }

  -- The store after a merge under a state of which the contents are those of `w`.
  IsMerged : W → W → Type 0
  IsMerged w w' =
      (labels : List (String × String)) × ((j : ObjectKey)
        → content_at w' j ≡ (
            if key_beq (key_of ext) j
            then some (record { labels = labels; spec = merged_spec (content_at w (key_of ext)) })
            else content_at w j))

  merge_ok :
      (allow : Bool) (w : W)
      → (merge cli allow ext (none, w)).0 ≡ none
      → IsMerged w (merge cli allow ext (none, w)).1
  unfolding merge merge_into IsMerged
  merge_ok allow w h =
      let (old, _, was, stored) =
        laws.create_or_update_ok (local_service_of ext) (merge_into ext) w h in
      let before : old.spec.endpoints ≡ endpoints_of (content_at w (key_of ext)) =
        ap (λ (c : Content). c.spec.endpoints) was
        ∙ old_endpoints ext (content_at w (key_of ext)) in
      (
        old.metadata.labels,
        λ j.
            stored j
            ∙ (rw (remove_endpoints_lem old.spec.endpoints ext.metadata.cluster_name, before)),
      )

  -- Contents that agree are merged alike.
  IsMerged-cong :
      (w v w' : W)
      → ((j : ObjectKey) → content_at v j ≡ content_at w j)
      → IsMerged v w'
      → IsMerged w w'
  unfolding IsMerged
  IsMerged-cong w v w' same (labels, stored) =
      (labels, λ j. stored j ∙ (rw (same (key_of ext), same j)))

  ensured_merge :
      (o : Option ApiError) (v w : W)
      → ((j : ObjectKey) → content_at v j ≡ content_at w j)
      → (merge cli true ext (o, v)).0 ≡ none
      → IsMerged w (merge cli true ext (o, v)).1
  ensured_merge none v w same h =
      IsMerged-cong w v (merge cli true ext (none, v)).1 same (merge_ok true v h)
  ensured_merge (some e) v w same h = unfold merge in cc

  create_or_merge_ok :
      (allow : Bool) (w : W)
      → (create_or_merge_global_service cli allow ext w).0 ≡ none
      → IsMerged w (create_or_merge_global_service cli allow ext w).1
  unfolding create_or_merge_global_service
  create_or_merge_ok false w h = merge_ok false w h
  create_or_merge_ok true w h =
      let (o, v) = ensure cli ext.metadata.namespace w in
      ensured_merge o v w (λ j. content_at-ensure cli laws ext.metadata.namespace j w) h

  -- If `CreateOrMergeGlobalService` returns no error, the service is stored with the type and the
  -- ports that were passed in, and with the endpoints that were passed in behind those that were
  -- stored for other clusters; every other service is as it was. This holds whether namespaces may be
  -- created or not, and whether the service was there before or not.
  pub create_or_merge-merged :
      (allow : Bool) (w : W)
      → (create_or_merge_global_service cli allow ext w).0 ≡ none
      → (labels : List (String × String)) × ((j : ObjectKey)
          → content_at (create_or_merge_global_service cli allow ext w).1 j ≡ (
              if key_beq (key_of ext) j
              then some (record { labels = labels; spec = merged_spec (content_at w (key_of ext)) })
              else content_at w j))
  create_or_merge-merged allow w h = unfold IsMerged in create_or_merge_ok allow w h

  -- What a merged service holds of each cluster.
  exported_by-merged :
      (old : Option Content) (labels : List (String × String)) (cluster : String)
      → All (λ (e : Endpoint). e.cluster ≡ ext.metadata.cluster_name) ext.spec.endpoints
      → exported_by cluster (some (record { labels = labels; spec = merged_spec old })) ≡ (
          if cluster == ext.metadata.cluster_name
          then ext.spec.endpoints
          else exported_by cluster old)
  exported_by-merged old labels cluster own =
      let c = ext.metadata.cluster_name in
      let split =
        filter-append (is_from cluster) (filter (is_elsewhere c) (endpoints_of old))
          ext.spec.endpoints in
      elim (Bool-cases (cluster == c)) [
        | inl t ↦
            let same : cluster ≡ c = (eq_iff cluster c).0 t in
            rw (t, split, same, exported-elsewhere c (endpoints_of old))
              (filter_own c ext.spec.endpoints own)
        | inr t ↦
            let ne : cluster ≢ c = ground (arith, eq_iff cluster c) in
            rw
              (
                t,
                split,
                exported-elsewhere_ne c cluster (endpoints_of old) ne,
                filter_foreign c cluster ext.spec.endpoints ne own,
              )
              (append-nil _)
      ]

  -- The store is a table with a list of endpoints for each service and cluster, and a merge writes
  -- one cell: if `CreateOrMergeGlobalService` returns no error, and the endpoints passed in are all
  -- of the cluster that passes them in, then that cluster's endpoints of that service are those, and
  -- every other service, and every other cluster's endpoints of the same service, are as before.
  pub create_or_merge-exported_by :
      (allow : Bool) (w : W)
      → All (λ (e : Endpoint). e.cluster ≡ ext.metadata.cluster_name) ext.spec.endpoints
      → (create_or_merge_global_service cli allow ext w).0 ≡ none
      → (j : ObjectKey) (cluster : String)
      → exported_by cluster (content_at (create_or_merge_global_service cli allow ext w).1 j) ≡ (
          if key_beq (key_of ext) j && cluster == ext.metadata.cluster_name
          then ext.spec.endpoints
          else exported_by cluster (content_at w j))
  create_or_merge-exported_by allow w own h j cluster =
      let (labels, stored) = create_or_merge-merged allow w h in
      rw (stored j) (elim (Bool-cases (key_beq (key_of ext) j)) [
        | inl k ↦
            let same : key_of ext ≡ j = (key_beq_iff (key_of ext) j).0 k in
            rw k (
              subst
                (λ (i : ObjectKey).
                  exported_by cluster (
                    some
                      (record { labels = labels; spec = merged_spec (content_at w (key_of ext)) }))
                  ≡ (if cluster == ext.metadata.cluster_name
                      then ext.spec.endpoints
                      else exported_by cluster (content_at w i)))
                same (exported_by-merged (content_at w (key_of ext)) labels cluster own))
        | inr k ↦ rw k refl
      ])
