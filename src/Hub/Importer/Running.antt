-- ===== src/Hub/Importer/Running.antt =====
-- The tasks of a tick, run one after another.
use fab_dns.Base.{
  Bool, true, false, List, [], ◌∷◌, Option, none, some, ◌≡◌, refl, sym, ap, ◌∙◌, In, ◌⊎◌, inl, inr,
  Bool-cases,
}
use fab_dns.Api.{GlobalService, ObjectKey, key_of, key_beq, key_beq_iff}
use fab_dns.Kube.{Client, ClientLaws, Content}
use fab_dns.Hub.Importer.{Task, create_or_update, delete, run_task, run_tasks, origin}
use fab_dns.Hub.Importer.Imports.{create_or_update_global_service-IsImported}

-- The key that a task writes.
abbrev pub task_key : Task → ObjectKey
task_key (create_or_update svc) = key_of svc
task_key (delete svc) = key_of svc

module _ {W : Type 0} (cli : Client W) (laws : ClientLaws cli) (allow : Bool) where
  open laws use {content_at}

  -- Every task ends without an error.
  abbrev pub AreDone : List Task → W → Type 0
  AreDone [] w = Unit
  AreDone (t ∷ tasks) w =
      ((run_task cli allow t w).0 ≡ none) × AreDone tasks (run_task cli allow t w).1

  -- A content that an import of the service leaves, if `before` was there before the tick.
  abbrev pub IsCopy : GlobalService → Option Content → Content → Type 0
  IsCopy svc before c =
      (origin c.labels ≡ svc.metadata.resource_version) × ((c.spec ≡ svc.spec) ⊎ (before ≡ some c))

  -- What a task leaves in the cell of its key, and that it leaves all others.
  run_task_done :
      (t : Task) (w : W)
      → (run_task cli allow t w).0 ≡ none
      → (j : ObjectKey) → key_beq (task_key t) j ≡ false
      → content_at (run_task cli allow t w).1 j ≡ content_at w j
  unfolding run_task
  run_task_done (create_or_update svc) w h j apart =
      let (c, _, stored) = create_or_update_global_service-IsImported cli laws svc allow w h in
      stored j ∙ rw apart refl
  run_task_done (delete svc) w h j apart = laws.delete_ok svc j w h ∙ rw apart refl

  module _ (j : ObjectKey) where
    -- The key of the tasks is deleted by one of them, or nothing is stored under it.
    abbrev pub IsGoing : List Task → W → Type 0
    IsGoing tasks w =
        (content_at w j ≡ none)
        ⊎ ((svc : GlobalService) × In (delete svc) tasks × (key_beq (key_of svc) j ≡ true))

    IsGoing-kept :
        (t : Task) (tasks : List Task) (w w' : W)
        → content_at w' j ≡ content_at w j
        → ((svc : GlobalService) → delete svc ≡ t → key_beq (key_of svc) j ≡ false)
        → IsGoing (t ∷ tasks) w
        → IsGoing tasks w'
    IsGoing-kept t tasks w w' same other (inl e) = inl (same ∙ e)
    IsGoing-kept t tasks w w' same other (inr (svc, inl e, k)) =
        let no : true ≡ false = sym k ∙ other svc e in cc
    IsGoing-kept t tasks w w' same other (inr (svc, inr m, k)) = inr (svc, m, k)

    run_task-IsGoing :
        (t : Task) (tasks : List Task) (w : W)
        → (run_task cli allow t w).0 ≡ none
        → ((svc : GlobalService) → create_or_update svc ≡ t → key_beq (key_of svc) j ≡ false)
        → IsGoing (t ∷ tasks) w
        → IsGoing tasks (run_task cli allow t w).1
    unfolding run_task
    run_task-IsGoing (create_or_update s) tasks w quiet apart h =
        IsGoing-kept (create_or_update s) tasks w _
          (run_task_done (create_or_update s) w quiet j (apart s refl)) (λ svc e. cc) h
    run_task-IsGoing (delete s) tasks w quiet apart h = elim (Bool-cases (key_beq (key_of s) j)) [
      | inl t ↦ inl (laws.delete_ok s j w quiet ∙ rw t refl)
      | inr t ↦
          IsGoing-kept (delete s) tasks w _ (run_task_done (delete s) w quiet j t)
            (λ svc e. let same : svc ≡ s = cc in rw same t) h
    ]

    -- If all tasks at a key are deletions, and there is one or nothing is stored, then nothing is
    -- stored in the end.
    pub run_tasks-none :
        (tasks : List Task) (w : W)
        → AreDone tasks w
        → ((svc : GlobalService) → In (create_or_update svc) tasks → key_beq (key_of svc) j ≡ false)
        → IsGoing tasks w
        → content_at (run_tasks cli allow tasks w) j ≡ none
    unfolding run_tasks
    run_tasks-none [] w done apart (inl e) = e
    run_tasks-none [] w done apart (inr (svc, i, e)) = absurd i
    run_tasks-none (t ∷ tasks) w (quiet, done) apart h =
        run_tasks-none tasks (run_task cli allow t w).1 done (λ svc i. apart svc (inr i))
          (run_task-IsGoing t tasks w quiet (λ svc e. apart svc (inl e)) h)

  module _ (svc : GlobalService) (before : Option Content) where
    -- The service has been imported.
    abbrev pub IsThere : W → Type 0
    IsThere w = (c : Content) × (content_at w (key_of svc) ≡ some c) × IsCopy svc before c

    -- The service has been imported, or one of the tasks will import it.
    abbrev IsComing : List Task → W → Type 0
    IsComing tasks w =
        ((content_at w (key_of svc) ≡ before) × In (create_or_update svc) tasks) ⊎ IsThere w

    import-IsThere :
        (w : W)
        → (run_task cli allow (create_or_update svc) w).0 ≡ none
        → (content_at w (key_of svc) ≡ before) ⊎ IsThere w
        → IsThere (run_task cli allow (create_or_update svc) w).1
    unfolding run_task
    import-IsThere w quiet h =
        let (c, (version, spec), stored) =
          create_or_update_global_service-IsImported cli laws svc allow w quiet in
        let own : key_beq (key_of svc) (key_of svc) ≡ true =
          (key_beq_iff (key_of svc) (key_of svc)).1 refl in
        let now = stored (key_of svc) ∙ rw own refl in
        elim spec [
          | inl e ↦ (c, now, (version, inl e))
          | inr was ↦ elim h [
            | inl b ↦ (c, now, (version, inr (sym b ∙ was)))
            | inr (d, at, good) ↦
                let same : c ≡ d = cc in (d, now ∙ ap (λ (x : Content). some x) same, good)
          ]
        ]

    run_task-IsComing :
        (t : Task) (tasks : List Task) (w : W)
        → (run_task cli allow t w).0 ≡ none
        → (key_beq (task_key t) (key_of svc) ≡ false) ⊎ (t ≡ create_or_update svc)
        → IsComing (t ∷ tasks) w
        → IsComing tasks (run_task cli allow t w).1
    run_task-IsComing t tasks w quiet (inl apart) (inl (b, inl e)) =
        let apart' : key_beq (key_of svc) (key_of svc) ≡ false = rw (← e) at apart in
        let own : key_beq (key_of svc) (key_of svc) ≡ true =
          (key_beq_iff (key_of svc) (key_of svc)).1 refl in
        cc
    run_task-IsComing t tasks w quiet (inl apart) (inl (b, inr m)) =
        inl (run_task_done t w quiet (key_of svc) apart ∙ b, m)
    run_task-IsComing t tasks w quiet (inl apart) (inr (c, at, good)) =
        inr (c, run_task_done t w quiet (key_of svc) apart ∙ at, good)
    run_task-IsComing t tasks w quiet (inr e) h =
        rw e
          (inr (import-IsThere w (rw e at quiet) (elim h [ inl (b, _) ↦ inl b | inr k ↦ inr k ])))

    -- If all tasks at the key of a service import it, and one does or it has been imported, then it has
    -- been imported in the end.
    pub run_tasks-IsThere :
        (tasks : List Task) (w : W)
        → AreDone tasks w
        → ((t : Task)
            → In t tasks
            → (key_beq (task_key t) (key_of svc) ≡ false) ⊎ (t ≡ create_or_update svc))
        → IsComing tasks w
        → IsThere (run_tasks cli allow tasks w)
    unfolding run_tasks
    run_tasks-IsThere [] w done own (inl (b, i)) = absurd i
    run_tasks-IsThere [] w done own (inr there) = there
    run_tasks-IsThere (t ∷ tasks) w (quiet, done) own h =
        run_tasks-IsThere tasks (run_task cli allow t w).1 done (λ u i. own u (inr i))
          (run_task-IsComing t tasks w quiet (own t (inl refl)) h)
