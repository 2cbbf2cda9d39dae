-- ===== src/Hub/ApiServer/Threads/Settled.antt =====
-- The keys of a cluster against a cell of the table, in one step of a thread.
use fab_dns.Base.{
  none, String, Bool, true, List, [], ◌≡◌, refl, ◌∙◌, arith, if◌then◌else◌, ◌==◌, Bool-cases, ◌⊎◌,
  inl, inr, eq_iff, ◌∷◌,
}
use fab_dns.Base.Equality.{string_eq}
use fab_dns.Api.{Endpoint, ObjectKey, key_of, key_beq}
use fab_dns.Kube.{Client, ClientLaws}
use fab_dns.Hub.KeySet
use fab_dns.Hub.KeySet.{ObjectKeySet, has, has-add, has-delete}
use fab_dns.Hub.Manager.{revoke_global_service}
use fab_dns.Hub.Manager.Revoking.{IsRead}
use fab_dns.Hub.Clusters.View.{IsWf}
use fab_dns.Hub.ApiServer.{Env, Request, Route, State}
use fab_dns.Hub.ApiServer.Covered.{IsCell, IsCell-cong, keys_of}
use fab_dns.Hub.ApiServer.Threads.{
  collecting, examining, sweeping, testing, revoking, swept, Phase, arriving, renewing, handling,
  merged, noting, revoked, forgetting, answered, start_handler, advance,
}
use fab_dns.Hub.ApiServer.Threads.Effects.{HoldsPointer}
use fab_dns.Hub.ApiServer.Threads.Recorded.{note, advance-keys_of}
use fab_dns.Hub.ApiServer.Threads.Cells.{
  IsFine, IsOwnPhase, is_cell, is_pending, uploads_at, deletes_at,
}
use fab_dns.Hub.ApiServer.Threads.Phases.{swept_cell, server, cell_in, IsGood, started}

-- A key that is added or removed.
add-IsCell :
    (key j : ObjectKey) (name n : String) (c : List Endpoint) (keys : ObjectKeySet)
    → IsCell c j keys
    → IsCell c j (if n == name then KeySet.add key keys else keys)
add-IsCell key j name n c keys (inl e) = inl e
add-IsCell key j name n c keys (inr h) = inr (elim (Bool-cases (n == name)) [
  | inl t ↦ rw t (
      has-add key j keys
      ∙ (elim (Bool-cases (key_beq key j)) [ inl k ↦ rw k refl | inr k ↦ rw k h ]))
  | inr t ↦ rw t h
])

added-IsCell :
    (key j : ObjectKey) (name n : String) (c : List Endpoint) (keys : ObjectKeySet)
    → is_cell j name key n ≡ true
    → IsCell c j (if n == name then KeySet.add key keys else keys)
added-IsCell key j name n c keys h =
    let k : key_beq key j ≡ true = ground arith in
    let here : (n == name) ≡ true = ground (arith, eq_iff name n, eq_iff n name) in
    rw here (inr (has-add key j keys ∙ rw k refl))

delete-IsCell :
    (key j : ObjectKey) (name n : String) (c : List Endpoint) (keys : ObjectKeySet)
    → (is_cell j name key n ≡ true → c ≡ [])
    → IsCell c j keys
    → IsCell c j (if n == name then KeySet.delete key keys else keys)
delete-IsCell key j name n c keys empty (inl e) = inl e
delete-IsCell key j name n c keys empty (inr h) = elim (Bool-cases (n == name)) [
  | inr t ↦ rw t (inr h)
  | inl t ↦ elim (Bool-cases (key_beq key j)) [
    | inl k ↦
        let own : is_cell j name key n ≡ true = ground (arith, eq_iff name n, eq_iff n name) in
        inl (empty own)
    | inr k ↦ rw t (inr (has-delete key j keys ∙ rw k h))
  ]
]

module _ {W : Type 0} (cli : Client W) (laws : ClientLaws cli) (allow : Bool) (plain : Env W)
    (readable : (k : ObjectKey) (w : W) → IsRead (cli.get k w).0)
    (revokes : (by : String) (k : ObjectKey) (w : W)
      → (revoke_global_service cli by k.namespace k.name w).0 ≡ none)
    (j : ObjectKey) (name : String) where
  abbrev here : State W → List Endpoint
  here = cell_in cli laws allow plain readable revokes j name

  abbrev hub : Env W
  hub = server cli laws allow plain readable revokes j name

  -- The key of the cell is recorded, or the cell is empty.
  abbrev pub IsSettled : State W → Type 0
  IsSettled s = IsCell (here s) j (keys_of name s.cluster_store)

  module _ (s : State W) where
    step_keeps :
        (ph : Phase)
        → IsWf s.cluster_store
        → HoldsPointer s.cluster_store ph
        → here (advance hub ph s).1 ≡ here s
        → IsCell (here s) j (note name ph (keys_of name s.cluster_store))
        → IsSettled (advance hub ph s).1
    step_keeps ph wf held same h =
        IsCell-cong _ _ j _ _ same (advance-keys_of hub name ph s wf held) h

    handler_keeps :
        (route : Route) (request : Request)
        → IsWf s.cluster_store
        → IsOwnPhase hub (handling route request)
        → IsFine (start_handler hub route request s).0
        → IsSettled s
        → IsSettled (advance hub (handling route request) s).1
          ⊎ (is_pending j name (advance hub (handling route request) s).0 ≡ true)
    unfolding advance
    handler_keeps route request wf own fine h =
        let r = started cli laws allow plain readable revokes j name s route request own fine in
        elim (Bool-cases (uploads_at j name hub route request)) [
          | inl up ↦ inr (r.to_record ∙ up)
          | inr none_up ↦ inl (
              let keys = advance-keys_of hub name (handling route request) s wf tt in
              elim (Bool-cases (deletes_at j name route request)) [
                | inl d ↦ inl (r.left none_up ∙ rw d refl)
                | inr d ↦ IsCell-cong _ _ j _ _ (r.left none_up ∙ rw d refl) keys h
              ])
        ]

    -- After the step, the key is recorded, or the cell is empty, or the thread has still to record it.
    pub advance-IsSettled :
        (ph : Phase)
        → IsWf s.cluster_store
        → IsGood cli laws allow plain readable revokes j name s ph
        → IsFine (advance hub ph s).0
        → IsSettled s ⊎ (is_pending j name ph ≡ true)
        → IsSettled (advance hub ph s).1 ⊎ (is_pending j name (advance hub ph s).0 ≡ true)
    unfolding advance
    advance-IsSettled (arriving now route request) wf (held, own, empty) fine (inl h) = inl (
        step_keeps (arriving now route request) wf tt
          (elim (Bool-cases (request.cluster_name == "")) [ inl t ↦ rw t refl | inr t ↦ rw t refl ])
          h)
    advance-IsSettled (renewing p now route request) wf (held, own, empty) fine (inl h) =
        inl (step_keeps (renewing p now route request) wf held refl h)
    advance-IsSettled (handling route request) wf (held, own, empty) fine (inl h) =
        handler_keeps route request wf own fine h
    advance-IsSettled (merged n gs response) wf (held, own, empty) fine (inl h) =
        inl (step_keeps (merged n gs response) wf held refl h)
    advance-IsSettled (noting n p gs response) wf (held, own, empty) fine (inl h) = inl (
        step_keeps (noting n p gs response) wf held refl
          (add-IsCell (key_of gs) j name n (here s) (keys_of name s.cluster_store) h))
    advance-IsSettled (revoked n key) wf (held, own, empty) fine (inl h) = inl h
    advance-IsSettled (forgetting n p key) wf (held, own, empty) fine (inl h) = inl (
        step_keeps (forgetting n p key) wf held refl
          (delete-IsCell key j name n (here s) (keys_of name s.cluster_store) empty h))
    advance-IsSettled (answered response) wf (held, own, empty) fine (inl h) = inl h
    advance-IsSettled (collecting order collecting_clock clock) wf (held, own, empty) fine (inl h) =
        inl h
    advance-IsSettled (examining collecting_clock clock found []) wf (held, own, empty) fine
          (inl h) =
        inl h
    advance-IsSettled (examining collecting_clock clock found (x ∷ m)) wf (held, own, empty) fine
          (inl h) =
        inl h
    advance-IsSettled (sweeping clock ps) wf (held, own, empty) fine (inl h) = inl h
    advance-IsSettled (testing clock p c keys ps) wf (held, own, empty) fine (inl h) = inl h
    advance-IsSettled (revoking clock p c key keys ps) wf (held, own, empty) fine (inl h) =
        elim (Bool-cases (is_cell j name key c)) [
          | inl t ↦ inl (
              inl (
                swept_cell cli laws allow plain readable revokes j name s clock p c key keys ps
                ∙ rw t refl))
          | inr t ↦ inl (
              step_keeps (revoking clock p c key keys ps) wf held
                (swept_cell cli laws allow plain readable revokes j name s clock p c key keys ps
                  ∙ rw t refl)
                h)
        ]
    advance-IsSettled swept wf (held, own, empty) fine (inl h) = inl h
    advance-IsSettled (merged n gs response) wf (held, own, empty) fine (inr h) = inr h
    advance-IsSettled (noting n p gs response) wf (held, own, empty) fine (inr h) = inl (
        step_keeps (noting n p gs response) wf held refl
          (added-IsCell (key_of gs) j name n (here s) (keys_of name s.cluster_store) h))
    advance-IsSettled (arriving now route request) wf good fine (inr h) = cc
    advance-IsSettled (renewing p now route request) wf good fine (inr h) = cc
    advance-IsSettled (handling route request) wf good fine (inr h) = cc
    advance-IsSettled (revoked n key) wf good fine (inr h) = cc
    advance-IsSettled (forgetting n p key) wf good fine (inr h) = cc
    advance-IsSettled (answered response) wf good fine (inr h) = cc
    advance-IsSettled (collecting order collecting_clock clock) wf good fine (inr h) = cc
    advance-IsSettled (examining collecting_clock clock found []) wf good fine (inr h) = cc
    advance-IsSettled (examining collecting_clock clock found (x ∷ m)) wf good fine (inr h) = cc
    advance-IsSettled (sweeping clock ps) wf good fine (inr h) = cc
    advance-IsSettled (testing clock p c keys ps) wf good fine (inr h) = cc
    advance-IsSettled (revoking clock p c key keys ps) wf good fine (inr h) = cc
    advance-IsSettled swept wf good fine (inr h) = cc
