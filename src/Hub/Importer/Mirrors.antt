-- ===== src/Hub/Importer/Mirrors.antt =====
-- What a tick of the importer makes of the local services.
use fab_dns.Base.{
  Bool, true, false, List, none, some, ◌≡◌, refl, sym, ap, In, ◌⊎◌, ◌↔◌, inl, inr, ok, Bool-cases,
  Option-cases,
}
use fab_dns.Api.{GlobalService, ObjectKey, key_of, key_beq, key_beq_iff}
use fab_dns.Kube.{Client, ClientLaws, Content}
use fab_dns.Hub.Importer.{Task, create_or_update, delete, run_tasks, origin, import_services}
use fab_dns.Hub.Importer.Tasks.{
  has_key, has_key-In, In-apart, import_services-create_or_update, import_services-delete,
}
use fab_dns.Hub.Importer.Running.{
  task_key, AreDone, IsCopy, IsGoing, run_tasks-none, run_tasks-IsThere,
}

module _ {W : Type 0} (cli : Client W) (laws : ClientLaws cli) (allow : Bool) where
  open laws use {content_at}

  module _ (E : Type 0) (services items : List GlobalService) (j : ObjectKey) where
    -- The tasks at a key that was not downloaded, and at the key of a service that was.
    create_or_update-has_key :
        (svc : GlobalService)
        → has_key j services ≡ false
        → In (create_or_update svc) (import_services {E = E} (ok services) (ok items))
        → key_beq (key_of svc) j ≡ false
    create_or_update-has_key svc out i =
        let k = (import_services-create_or_update E services items svc).0 i in
        elim (Bool-cases (key_beq (key_of svc) j)) [
          | inl t ↦ absurd (In-apart svc services j k out ((key_beq_iff (key_of svc) j).0 t))
          | inr t ↦ t
        ]

  import_services-task_key :
      (E : Type 0) (services items : List GlobalService) (svc : GlobalService)
      → ((a b : GlobalService) → In a services → In b services → key_of a ≡ key_of b → a ≡ b)
      → In svc services
      → (t : Task) → In t (import_services {E = E} (ok services) (ok items))
      → (key_beq (task_key t) (key_of svc) ≡ false) ⊎ (t ≡ create_or_update svc)
  import_services-task_key E services items svc distinct i (create_or_update s) m =
      let k = (import_services-create_or_update E services items s).0 m in
      elim (Bool-cases (key_beq (key_of s) (key_of svc))) [
        | inl t ↦ inr (
            ap (λ (x : GlobalService). create_or_update x)
              (distinct s svc k i ((key_beq_iff (key_of s) (key_of svc)).0 t)))
        | inr t ↦ inl t
      ]
  import_services-task_key E services items svc distinct i (delete s) m =
      let (_, out) = (import_services-delete E services items s).0 m in
      elim (Bool-cases (key_beq (key_of s) (key_of svc))) [
        | inl t ↦ absurd (
            In-apart svc services (key_of s) i out
              (sym ((key_beq_iff (key_of s) (key_of svc)).0 t)))
        | inr t ↦ inl t
      ]

  import_services-IsGoing :
      (E : Type 0) (services items : List GlobalService) (tasks : List Task) (w : W) (j : ObjectKey)
      → ((c : Content) → content_at w j ≡ some c → has_key j items ≡ true)
      → ((t : Task) → In t (import_services {E = E} (ok services) (ok items)) → In t tasks)
      → has_key j services ≡ false
      → IsGoing cli laws allow j tasks w
  import_services-IsGoing E services items tasks w j listed started out =
      elim (Option-cases (content_at w j)) [
        | inl gone ↦ inl gone
        | inr (c, at) ↦
            let (svc, i, e) = has_key-In j items (listed c at) in
            inr (
              svc,
              started (delete svc) ((import_services-delete E services items svc).1 (i, rw e out)),
              (key_beq_iff (key_of svc) j).1 e,
            )
      ]

  -- Let the downloaded services have distinct keys, and let the list of local services have every
  -- service that was there before the tick. If the tasks that a tick starts all end without an error,
  -- in whatever order they run, then after the tick the local services are the downloaded ones: under a
  -- key that was not downloaded nothing is stored, and under the key of a downloaded service there is
  -- its spec with its version noted, or what was there before with that version noted.
  pub import_services-IsCopy :
      (E : Type 0) (services items : List GlobalService) (tasks : List Task) (w : W)
      → ((a b : GlobalService) → In a services → In b services → key_of a ≡ key_of b → a ≡ b)
      → ((j : ObjectKey) (c : Content) → content_at w j ≡ some c → has_key j items ≡ true)
      → ((t : Task) → In t tasks ↔ In t (import_services {E = E} (ok services) (ok items)))
      → AreDone cli laws allow tasks w
      → ((j : ObjectKey)
          → has_key j services ≡ false
          → content_at (run_tasks cli allow tasks w) j ≡ none)
        × ((svc : GlobalService)
            → In svc services
            → (c : Content) × (content_at (run_tasks cli allow tasks w) (key_of svc) ≡ some c)
              × IsCopy cli laws allow svc (content_at w (key_of svc)) c)
  import_services-IsCopy E services items tasks w distinct listed started done = (
    λ j out.
        run_tasks-none cli laws allow j tasks w done
          (λ svc i.
            create_or_update-has_key E services items j svc out
              ((started (create_or_update svc)).0 i))
          (import_services-IsGoing E services items tasks w j (listed j) (λ t. (started t).1) out),
    λ svc i.
        run_tasks-IsThere cli laws allow svc (content_at w (key_of svc)) tasks w done
          (λ t m. import_services-task_key E services items svc distinct i t ((started t).0 m))
          (inl (
            refl,
            (started (create_or_update svc)).1
                ((import_services-create_or_update E services items svc).1 i),
          )),
  )

  -- A copy has the spec of the downloaded service, if what was there with its version noted has.
  pub IsCopy-spec :
      (services : List GlobalService) (svc : GlobalService) (c : Content) (w : W)
      → ((svc : GlobalService) (c : Content)
          → In svc services
          → content_at w (key_of svc) ≡ some c
          → origin c.labels ≡ svc.metadata.resource_version
          → c.spec ≡ svc.spec)
      → In svc services
      → IsCopy cli laws allow svc (content_at w (key_of svc)) c
      → c.spec ≡ svc.spec
  IsCopy-spec services svc c w honest i (version, inl e) = e
  IsCopy-spec services svc c w honest i (version, inr was) = honest svc c i was version
