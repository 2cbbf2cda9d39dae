-- ===== src/Hub/ApiServer/Threads/Interleaved.antt =====
-- Requests of clusters whose handlers run at the same time: what is recorded in the end.
use fab_dns.Base.{
  none, ℕ, String, Bool, true, false, ◌||◌, List, [], ◌∷◌, ◌≡◌, sym, ◌∙◌, leb, All, any, map, ◌⊎◌,
  inl, inr,
}
use fab_dns.Api.{ObjectKey}
use fab_dns.Kube.{Client, ClientLaws}
use fab_dns.Hub.Manager.{revoke_global_service}
use fab_dns.Hub.Manager.Revoking.{IsRead}
use fab_dns.Hub.Manager.Merging.{exported_by}
use fab_dns.Hub.Clusters.{Time}
use fab_dns.Hub.Clusters.View.{IsWf}
use fab_dns.Hub.ApiServer.{Env, State}
use fab_dns.Hub.ApiServer.Traces.{Entry, trace_server}
use fab_dns.Hub.ApiServer.Covered.{IsCell, keys_of}
use fab_dns.Hub.ApiServer.Threads.{
  collecting, examining, sweeping, testing, revoking, swept, Phase, arriving, renewing, handling,
  merged, noting, revoked, forgetting, answered, advance, interleave,
}
use fab_dns.Hub.ApiServer.Threads.Effects.{advance-HoldsPointer}
use fab_dns.Hub.ApiServer.Threads.Cells.{
  IsFine, IsOwnRequest, is_pending, is_forgetting, is_uploading, is_deleting,
}
use fab_dns.Hub.ApiServer.Threads.Phases.{
  IsGood, cell_in, advance-IsGood, advance-is_uploading, advance-is_deleting, advance-empty,
}
use fab_dns.Hub.ApiServer.Threads.Settled.{IsSettled, advance-IsSettled}
use fab_dns.Hub.ApiServer.Threads.Schedules.{interleave-IsOwed}

-- A request, or a tick of the cleaner, with the order in which `range` meets the clusters and what `time.Now` returns while it collects the expired
-- clusters and afterwards.
pub data Job : Type 0 where
  incoming : Entry → Job
  tick : (order : List (String × ℕ) → List (String × ℕ)) (collecting_clock clock : ℕ → Time) → Job

-- The thread of a job.
abbrev pub arrive : Job → Phase
arrive (incoming e) = arriving e.now e.route e.request
arrive (tick order collecting_clock clock) = collecting order collecting_clock clock

-- A request that is answered with a code below 400, or a tick at any point.
abbrev pub IsAnswered : Phase → Type 0
IsAnswered (answered response) = leb 400 response.status ≡ false
IsAnswered (collecting order collecting_clock clock) = Unit
IsAnswered (examining collecting_clock clock found m) = Unit
IsAnswered (sweeping clock ps) = Unit
IsAnswered (testing clock p c keys ps) = Unit
IsAnswered (revoking clock p c key keys ps) = Unit
IsAnswered swept = Unit
IsAnswered _ = ⊥

IsAnswered-IsFine : (phs : List Phase) → All IsAnswered phs → All IsFine phs
IsAnswered-IsFine [] h = tt
IsAnswered-IsFine (ph ∷ phs) h = (one ph h.0, IsAnswered-IsFine phs h.1)
  where
    one : (ph : Phase) → IsAnswered ph → IsFine ph
    one (answered response) k = k
    one (arriving now route request) k = tt
    one (renewing p now route request) k = tt
    one (handling route request) k = tt
    one (merged n gs response) k = absurd k
    one (noting n p gs response) k = absurd k
    one (revoked n key) k = tt
    one (forgetting n p key) k = tt
    one (collecting order collecting_clock clock) k = tt
    one (examining collecting_clock clock found m) k = tt
    one (sweeping clock ps) k = tt
    one (testing clock p c keys ps) k = tt
    one (revoking clock p c key keys ps) k = tt
    one swept k = tt

module _ {W : Type 0} (cli : Client W) (laws : ClientLaws cli) (allow : Bool) (plain : Env W)
    (readable : (k : ObjectKey) (w : W) → IsRead (cli.get k w).0)
    (revokes : (by : String) (k : ObjectKey) (w : W)
      → (revoke_global_service cli by k.namespace k.name w).0 ≡ none)
    (j : ObjectKey) (name : String) where
  abbrev server : Env W
  server = trace_server cli laws allow plain

  abbrev IsGoodHere : State W → Phase → Type 0
  IsGoodHere = IsGood cli laws allow plain readable revokes j name

  abbrev IsSettledHere : State W → Type 0
  IsSettledHere = IsSettled cli laws allow plain readable revokes j name

  nothing_owed : (phs : List Phase) → All IsAnswered phs → any (is_pending j name) phs ≡ true → ⊥
  nothing_owed [] h k = cc
  nothing_owed (ph ∷ phs) h k = nothing_owed phs h.1 (one ph h.0 k)
    where
      one :
          (ph : Phase)
          → IsAnswered ph
          → is_pending j name ph || any (is_pending j name) phs ≡ true
          → any (is_pending j name) phs ≡ true
      one (answered response) a b = b
      one (arriving now route request) a b = absurd a
      one (renewing p now route request) a b = absurd a
      one (handling route request) a b = absurd a
      one (merged n gs response) a b = absurd a
      one (noting n p gs response) a b = absurd a
      one (revoked n key) a b = absurd a
      one (forgetting n p key) a b = absurd a
      one (collecting order collecting_clock clock) a b = b
      one (examining collecting_clock clock found m) a b = b
      one (sweeping clock ps) a b = b
      one (testing clock p c keys ps) a b = b
      one (revoking clock p c key keys ps) a b = b
      one swept a b = b

  forgetting-is_deleting :
      (ph : Phase) → is_forgetting j name ph ≡ true → is_deleting j name ph ≡ true
  forgetting-is_deleting (revoked n key) h = h
  forgetting-is_deleting (forgetting n p key) h = h
  forgetting-is_deleting (arriving now route request) h = cc
  forgetting-is_deleting (renewing p now route request) h = cc
  forgetting-is_deleting (handling route request) h = cc
  forgetting-is_deleting (merged n gs response) h = cc
  forgetting-is_deleting (noting n p gs response) h = cc
  forgetting-is_deleting (answered response) h = cc
  forgetting-is_deleting (collecting order collecting_clock clock) h = cc
  forgetting-is_deleting (examining collecting_clock clock found m) h = cc
  forgetting-is_deleting (sweeping clock ps) h = cc
  forgetting-is_deleting (testing clock p c keys ps) h = cc
  forgetting-is_deleting (revoking clock p c key keys ps) h = cc
  forgetting-is_deleting swept h = cc

  -- Threads none of which uploads the cell, and threads none of which deletes it.
  abbrev NoUpload : State W → Phase → Type 0
  NoUpload s ph = IsGoodHere s ph × (is_uploading j name server ph ≡ false)

  abbrev NoDeletion : State W → Phase → Type 0
  NoDeletion s ph = IsGoodHere s ph × (is_deleting j name ph ≡ false)

  good_other :
      (s : State W) (ph o : Phase)
      → IsGoodHere s o
      → (is_forgetting j name o ≡ true
          → cell_in cli laws allow plain readable revokes j name (advance server ph s).1 ≡ [])
      → IsGoodHere (advance server ph s).1 o
  good_other s ph o (held, own, empty) still = (advance-HoldsPointer server ph o s held, own, still)

  whole_schedule :
      (schedule : List ℕ) (phs : List Phase) (s : State W)
      → IsWf s.cluster_store
      → IsSettledHere s
      → All (NoUpload s) phs ⊎ All (NoDeletion s) phs
      → All IsAnswered (interleave server schedule phs s).0
      → IsSettledHere (interleave server schedule phs s).1
  whole_schedule schedule phs s wf settled quiet done = elim owed [
    | inl here ↦ here
    | inr left ↦ absurd (nothing_owed (interleave server schedule phs s).0 done left)
  ]
    where
      fine : All IsFine (interleave server schedule phs s).0
      fine = IsAnswered-IsFine (interleave server schedule phs s).0 done

      owed :
          IsSettledHere (interleave server schedule phs s).1
          ⊎ (any (is_pending j name) (interleave server schedule phs s).0 ≡ true)
      owed = elim quiet [
        | inl none_up ↦
            interleave-IsOwed server NoUpload
              (λ t ph w g f. (
                advance-IsGood cli laws allow plain readable revokes j name t ph w g.0 f,
                advance-is_uploading cli laws allow plain readable revokes j name t ph g.0.1 f g.1,
              ))
              (λ t ph o w g f h. (
                good_other t ph o h.0 (λ k.
                    advance-empty cli laws allow plain readable revokes j name t ph g.0.1 f g.1
                      (h.0.2 k)),
                h.1,
              ))
              IsSettledHere (is_pending j name)
              (λ t ph w g f.
                advance-IsSettled cli laws allow plain readable revokes j name t ph w g.0 f)
              schedule phs s wf none_up fine (inl settled)
        | inr none_down ↦
            interleave-IsOwed server NoDeletion
              (λ t ph w g f. (
                advance-IsGood cli laws allow plain readable revokes j name t ph w g.0 f,
                advance-is_deleting cli laws allow plain readable revokes j name t ph g.0.1 f g.1,
              ))
              (λ t ph o w g f h. (
                good_other t ph o h.0 (λ k.
                    let yes : is_deleting j name o ≡ true = forgetting-is_deleting o k in
                    let no : true ≡ false = sym yes ∙ h.1 in cc),
                h.1,
              ))
              IsSettledHere (is_pending j name)
              (λ t ph w g f.
                advance-IsSettled cli laws allow plain readable revokes j name t ph w g.0 f)
              schedule phs s wf none_down fine (inl settled)
      ]

  -- A request uploads only what is of its own cluster.
  abbrev pub IsOwnJob : Job → Type 0
  IsOwnJob (incoming e) = IsOwnRequest server e.route e.request
  IsOwnJob (tick order collecting_clock clock) = Unit

  arrived : (s : State W) (job : Job) → IsOwnJob job → IsGoodHere s (arrive job)
  arrived s (incoming e) own = (tt, own, λ k. cc)
  arrived s (tick order collecting_clock clock) own = (tt, tt, λ k. cc)

  arrivals :
      (test : Phase → Bool) (s : State W) (jobs : List Job)
      → All IsOwnJob jobs
      → All (λ (job : Job). test (arrive job) ≡ false) jobs
      → All (λ ph. IsGoodHere s ph × (test ph ≡ false)) (map arrive jobs)
  arrivals test s [] own h = tt
  arrivals test s (job ∷ jobs) own h = ((arrived s job own.0, h.0), arrivals test s jobs own.1 h.1)

  -- Take a cluster store whose pointers lead to clusters of their names, and a service that is recorded
  -- for a cluster or of which the hub has no endpoint of that cluster. Let any requests be in flight
  -- at once, and any ticks of the cleaner, whose steps interleave in any order: each request uploads
  -- only what is of its own cluster, and not both are among them: an upload of that service by that
  -- cluster, and its deletion. If services can be read, revocations succeed and all requests are
  -- answered in the end, with codes below 400, the service is then recorded for the cluster, or the
  -- hub has no endpoint of it of that cluster.
  pub interleave-IsCell :
      (schedule : List ℕ) (jobs : List Job) (s : State W)
      → IsWf s.cluster_store
      → IsCell (exported_by name (laws.content_at s.world j)) j (keys_of name s.cluster_store)
      → All IsOwnJob jobs
      → All (λ (job : Job). is_uploading j name server (arrive job) ≡ false) jobs
        ⊎ All (λ (job : Job). is_deleting j name (arrive job) ≡ false) jobs
      → All IsAnswered (interleave server schedule (map arrive jobs) s).0
      → IsCell
          (exported_by name
            (laws.content_at (interleave server schedule (map arrive jobs) s).1.world j))
          j
          (keys_of name (interleave server schedule (map arrive jobs) s).1.cluster_store)
  interleave-IsCell schedule jobs s wf settled own quiet done =
      whole_schedule schedule (map arrive jobs) s wf settled
        (elim quiet [
          | inl none_up ↦ inl (arrivals (is_uploading j name server) s jobs own none_up)
          | inr none_down ↦ inr (arrivals (is_deleting j name) s jobs own none_down)
        ])
        done
