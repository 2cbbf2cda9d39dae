-- ===== src/Hub/ApiServer/Covered.antt =====
-- The cluster store of the server against its table of endpoints by service and cluster.
use fab_dns.Base.{
  String, Bool, true, false, ◌&&◌, List, [], ◌∷◌, Option, none, some, ◌≡◌, refl, ap, subst, ◌∙◌,
  arith, ◌⊎◌, inl, inr, ◌==◌, eq_iff, eq_refl, leb, Bool-cases,
}
use fab_dns.Base.Equality.{string_eq}
use fab_dns.Api.{Endpoint, GlobalService, ObjectKey, key_of, key_beq}
use fab_dns.Kube.{ApiError, Client, ClientLaws}
use fab_dns.Hub.KeySet.{ObjectKeySet, has, has-add, has-delete}
use fab_dns.Hub.Manager.Merging.{exported_by}
use fab_dns.Hub.Manager.Revoking.{service_key}
use fab_dns.Hub.Clusters.{Cluster, ClusterStore, Time, fresh_cluster}
use fab_dns.Hub.Clusters.View.{IsWf, view, cluster_or}
use fab_dns.Hub.ApiServer.{
  Env, Request, Route, State, heartbeat, get_all_global_services, upload_global_service,
  delete_endpoints, serve,
}
use fab_dns.Hub.ApiServer.Pointers.{serve-IsWf}
use fab_dns.Hub.ApiServer.Keys.{accepted, keys_after, with_key, without_key, serve-view}
use fab_dns.Hub.ApiServer.Traces.{
  Entry, Table, write_cell, cell_of_service, cell_at, trace_server, table_of, IsFair, IsConfirmed,
  play, serve-write_cell,
}

-- A service without endpoints of a cluster, or a key that is recorded for it.
abbrev pub IsCell : List Endpoint → ObjectKey → ObjectKeySet → Type 0
IsCell endpoints j keys = (endpoints ≡ []) ⊎ (has j keys ≡ true)

pub IsCell-cong :
    (a b : List Endpoint) (j : ObjectKey) (k l : ObjectKeySet)
    → a ≡ b
    → k ≡ l
    → IsCell b j l
    → IsCell a j k
IsCell-cong a b j k l p q h = rw (p, q) h

-- The keys that the store has for a cluster.
abbrev pub keys_of : String → ClusterStore → ObjectKeySet
keys_of name store = (cluster_or (fresh_cluster name) (view name store)).service_key_set

pub keys_of-view :
    (name : String) (store : ClusterStore) (c : Cluster)
    → view name store ≡ some c
    → keys_of name store ≡ c.service_key_set
keys_of-view name store c seen =
    ap (λ (o : Option Cluster). (cluster_or (fresh_cluster name) o).service_key_set) seen

keys_of_same :
    (name : String) (store old : ClusterStore)
    → view name store ≡ view name old
    → keys_of name store ≡ keys_of name old
keys_of_same name store old same =
    ap (λ (o : Option Cluster). (cluster_or (fresh_cluster name) o).service_key_set) same

-- An upload is of a service of the cluster that sends it.
abbrev pub IsOwnBody : String → Option GlobalService → Type 0
IsOwnBody name none = Unit
IsOwnBody name (some gs) = gs.metadata.cluster_name ≡ name

module _ {W : Type 0} (env : Env W) where
  abbrev pub IsOwnUpload : Route → Request → Type 0
  IsOwnUpload upload_global_service request =
      IsOwnBody request.cluster_name (accepted env request.body)
  IsOwnUpload _ request = Unit

  other_write :
      (key : ObjectKey) (by : String) (endpoints : List Endpoint) (t : Table) (j : ObjectKey)
      (name : String)
      → (name == by) ≡ false
      → write_cell (some (key, by, endpoints)) t j name ≡ t j name
  other_write key by endpoints t j name other =
      let skipped : (key_beq key j && name == by) ≡ false = ground arith in rw skipped refl

  own_upload :
      (o : Option GlobalService) (t : Table) (j : ObjectKey) (name : String) (keys : ObjectKeySet)
      → IsOwnBody name o
      → IsCell (t j name) j keys
      → IsCell (write_cell (cell_of_service o) t j name) j (with_key env o keys)
  own_upload none t j name keys own h = h
  own_upload (some gs) t j name keys own h = elim (Bool-cases (key_beq (key_of gs) j)) [
    | inl k ↦ inr (has-add (key_of gs) j keys ∙ rw k refl)
    | inr k ↦ elim h [
      | inl e ↦ inl (rw k e)
      | inr there ↦ inr (has-add (key_of gs) j keys ∙ rw k there)
    ]
  ]

  own_deletion :
      (o : Option ApiError) (key : ObjectKey) (t : Table) (j : ObjectKey) (name : String)
      (keys : ObjectKeySet)
      → IsCell (t j name) j keys
      → IsCell (write_cell (some (key, name, [])) t j name) j (without_key env o key keys)
  own_deletion o key t j name keys h = elim (Bool-cases (key_beq key j)) [
    | inl k ↦ inl (rw (k, eq_refl name) refl)
    | inr k ↦ elim h [ inl e ↦ inl (rw k e) | inr there ↦ inr (kept o k there) ]
  ]
    where
      kept :
          (o : Option ApiError)
          → key_beq key j ≡ false
          → has j keys ≡ true
          → has j (without_key env o key keys) ≡ true
      kept none k there = has-delete key j keys ∙ rw k there
      kept (some e) k there = there

  other_upload :
      (o : Option GlobalService) (t : Table) (j : ObjectKey) (by name : String)
      → IsOwnBody by o
      → (name == by) ≡ false
      → write_cell (cell_of_service o) t j name ≡ t j name
  other_upload none t j by name own other = refl
  other_upload (some gs) t j by name own other =
      let skipped : (name == gs.metadata.cluster_name) ≡ false = rw own other in
      other_write (key_of gs) gs.metadata.cluster_name gs.spec.endpoints t j name skipped

  -- The cell of the calling cluster.
  keys_after-IsCell :
      (route : Route) (request : Request) (w : W) (t : Table) (j : ObjectKey) (keys : ObjectKeySet)
      → IsOwnUpload route request
      → IsCell (t j request.cluster_name) j keys
      → IsCell
          (write_cell (cell_at env route request) t j request.cluster_name)
          j
          (keys_after env route request w keys)
  keys_after-IsCell heartbeat request w t j keys own h = h
  keys_after-IsCell get_all_global_services request w t j keys own h = h
  keys_after-IsCell upload_global_service request w t j keys own h =
      own_upload (accepted env request.body) t j request.cluster_name keys own h
  keys_after-IsCell (delete_endpoints namespace name) request w t j keys own h =
      own_deletion (env.revoke_global_service request.cluster_name namespace name w).0
        (service_key namespace name) t j request.cluster_name keys h

  -- The cell of any other.
  other_cell :
      (route : Route) (request : Request) (t : Table) (j : ObjectKey) (name : String)
      → IsOwnUpload route request
      → (name == request.cluster_name) ≡ false
      → write_cell (cell_at env route request) t j name ≡ t j name
  other_cell heartbeat request t j name own other = refl
  other_cell get_all_global_services request t j name own other = refl
  other_cell upload_global_service request t j name own other =
      other_upload (accepted env request.body) t j request.cluster_name name own other
  other_cell (delete_endpoints namespace service) request t j name own other =
      other_write (service_key namespace service) request.cluster_name [] t j name other

module _ {W : Type 0} (cli : Client W) (laws : ClientLaws cli) (allow : Bool) (plain : Env W) where
  abbrev server : Env W
  server = trace_server cli laws allow plain

  -- For each cluster, every service is recorded of which the server has endpoints of the cluster.
  abbrev pub IsCovered : State W → Type 0
  IsCovered s =
      (j : ObjectKey) (name : String)
      → IsCell (exported_by name (laws.content_at s.world j)) j (keys_of name s.cluster_store)

  serve-IsCovered :
      (now : Time) (route : Route) (request : Request) (s : State W)
      → (request.cluster_name == "") ≡ false
      → IsOwnUpload server route request
      → IsWf s.cluster_store
      → IsFair cli laws allow plain route request s.world
      → leb 400 (serve server now route request s).0.status ≡ false
      → IsCovered s
      → IsCovered (serve server now route request s).1
  serve-IsCovered now route request s named own wf fair below h j name =
      elim (Bool-cases (request.cluster_name == name)) [
        | inl t ↦ subst IsCellOf ((eq_iff request.cluster_name name).0 t) at_own
        | inr t ↦
            let apart : (name == request.cluster_name) ≡ false =
              ground (arith, eq_iff name request.cluster_name, eq_iff request.cluster_name name) in
            IsCell-cong _ _ j _ _
              (serve-write_cell cli laws allow plain now route request s fair below j name
                ∙ other_cell server route request (table_of cli laws allow plain s.world) j name own
                    apart)
              (keys_of_same name _ _ (
                rw t at
                  (serve-view server now route request s.cluster_store s.world wf name named)))
              (h j name)
      ]
    where
      IsCellOf : String → Type 0
      IsCellOf n =
          IsCell (exported_by n (laws.content_at (serve server now route request s).1.world j)) j
            (keys_of n (serve server now route request s).1.cluster_store)

      at_own : IsCellOf request.cluster_name
      at_own =
          IsCell-cong _ _ j _ _
            (serve-write_cell cli laws allow plain now route request s fair below j
              request.cluster_name)
            (keys_of-view request.cluster_name _ _ (
              rw (eq_refl request.cluster_name) at (
                serve-view server now route request s.cluster_store s.world wf request.cluster_name
                  named)))
            (keys_after-IsCell server route request s.world (table_of cli laws allow plain s.world)
              j (keys_of request.cluster_name s.cluster_store) own (h j request.cluster_name))

  -- Every request is of a cluster that gives its name, and uploads a service of that cluster only.
  abbrev pub AreOwn : List Entry → Type 0
  AreOwn [] = Unit
  AreOwn (e ∷ es) =
      ((e.request.cluster_name == "") ≡ false) × IsOwnUpload server e.route e.request × AreOwn es

  pub play-IsCovered :
      (es : List Entry) (s : State W)
      → AreOwn es
      → IsWf s.cluster_store
      → IsConfirmed cli laws allow plain es s
      → IsCovered s
      → IsWf (play server es s).cluster_store × IsCovered (play server es s)
  unfolding play
  play-IsCovered [] s own wf confirmed h = (wf, h)
  play-IsCovered (e ∷ es) s (named, uploads, own) wf (fair, below, confirmed) h =
      play-IsCovered es (serve server e.now e.route e.request s).1 own
        (serve-IsWf server e.now e.route e.request s named wf) confirmed
        (serve-IsCovered e.now e.route e.request s named uploads wf fair below h)
