-- ===== src/Hub/Clusters/Upserts.antt =====
-- `New` followed by a write through the pointer that it returns.
use fab_dns.Base.{ℕ, String, some, ◌≡◌, refl, ◌∙◌, if◌then◌else◌, ◌==◌, inl, inr, Bool-cases}
use fab_dns.Base.Equality.{string_eq}
use fab_dns.Hub.Clusters.{Cluster, ClusterStore, modify, new, get, fresh_cluster}
use fab_dns.Hub.Clusters.View.{
  IsWf, view, cluster_or, new-IsWf, modify-IsWf, get-new, new_present, view-new, view-modify,
}

-- The store after a write to the cluster of a name, which is created if there is none.
abbrev pub upsert : String → (Cluster → Cluster) → ClusterStore → ClusterStore
upsert name f store = modify (new name store).0 f (new name store).1

-- The cluster to which `upsert` writes.
abbrev pub cluster_at : String → ClusterStore → Cluster
cluster_at name store = cluster_or (fresh_cluster name) (view name store)

module _ (store : ClusterStore) (wf : IsWf store) where
  pub upsert-IsWf :
      (name : String) (f : Cluster → Cluster)
      → ((c : Cluster) → (f c).name ≡ c.name)
      → IsWf (upsert name f store)
  upsert-IsWf name f keeps =
      modify-IsWf (new name store).1 (new-IsWf store wf name) (new name store).0 f keeps

  pub view-upsert :
      (name j : String) (f : Cluster → Cluster)
      → view j (upsert name f store)
        ≡ (if name == j then some (f (cluster_at name store)) else view j store)
  view-upsert name j f =
      view-modify (new name store).1 (new-IsWf store wf name) (new name store).0 f name j
        (get-new store wf name)
      ∙ rw (view-new store wf name j)
          (elim (Bool-cases (name == j)) [ inl t ↦ rw t refl | inr t ↦ rw t refl ])

  -- A second write, through the pointer that `Get` returns after the first.
  pub view-modify-upsert :
      (name j : String) (f g : Cluster → Cluster)
      → ((c : Cluster) → (f c).name ≡ c.name)
      → (p : ℕ) → get name (upsert name f store) ≡ some p
      → view j (modify p g (upsert name f store))
        ≡ (if name == j then some (g (f (cluster_at name store))) else view j store)
  view-modify-upsert name j f g keeps p got =
      view-modify (upsert name f store) (upsert-IsWf name f keeps) p g name j got
      ∙ rw (view-upsert name j f)
          (elim (Bool-cases (name == j)) [ inl t ↦ rw t refl | inr t ↦ rw t refl ])

  -- The cluster is there.
  pub get-upsert :
      (name : String) (f : Cluster → Cluster)
      → get name (upsert name f store) ≡ some (new name store).0
  unfolding modify get
  get-upsert name f = unfold get in get-new store wf name

  -- A second `upsert` of the name.
  pub upsert-upsert :
      (name : String) (f g : Cluster → Cluster)
      → upsert name g (upsert name f store) ≡ modify (new name store).0 g (upsert name f store)
  upsert-upsert name f g =
      rw (new_present store wf name (upsert name f store) (new name store).0 (get-upsert name f))
        refl
