-- ===== src/Hub/ApiServer/Threads/Schedules.antt =====
-- Any number of requests in flight, whose steps a schedule interleaves.
use fab_dns.Base.{
  ℕ, zero, suc, Bool, true, false, ◌||◌, List, [], ◌∷◌, ◌≡◌, refl, arith, All, any, Bool-cases, ◌⊎◌,
  inl, inr,
}
use fab_dns.Hub.Clusters.View.{IsWf}
use fab_dns.Hub.ApiServer.{Env, State}
use fab_dns.Hub.ApiServer.Threads.{Phase, advance, step_at, interleave}
use fab_dns.Hub.ApiServer.Threads.Recorded.{advance-IsWf}
use fab_dns.Hub.ApiServer.Threads.Cells.{IsFine, advance-IsFine}

-- What holds of every thread, and stays so when one of them takes a step.
module _ {W : Type 0} (env : Env W) (G : State W → Phase → Type 0)
    (self : (s : State W) (ph : Phase)
      → IsWf s.cluster_store
      → G s ph
      → IsFine (advance env ph s).0
      → G (advance env ph s).1 (advance env ph s).0)
    (other : (s : State W) (ph o : Phase)
      → IsWf s.cluster_store
      → G s ph
      → IsFine (advance env ph s).0
      → G s o
      → G (advance env ph s).1 o) where
  -- The thread that has taken the step, if the number is one of a thread.
  IsStep : State W → State W → Type 0
  IsStep s t =
      (t ≡ s) ⊎ ((ph : Phase) × G s ph × IsFine (advance env ph s).0 × (t ≡ (advance env ph s).1))

  step_at-IsStep :
      (i : ℕ) (phs : List Phase) (s : State W)
      → All (G s) phs
      → All IsFine (step_at env i phs s).0
      → IsStep s (step_at env i phs s).1
  unfolding step_at IsStep
  step_at-IsStep i [] s all fine = inl refl
  step_at-IsStep zero (ph ∷ phs) s all fine = inr (ph, all.0, fine.0, refl)
  step_at-IsStep (suc i) (ph ∷ phs) s all fine = step_at-IsStep i phs s all.1 fine.1

  IsStep-IsWf : (s t : State W) → IsWf s.cluster_store → IsStep s t → IsWf t.cluster_store
  unfolding IsStep
  IsStep-IsWf s t wf (inl same) = rw same wf
  IsStep-IsWf s t wf (inr (ph, good, fine, same)) = rw same (advance-IsWf env ph s wf)

  IsStep-other : (s t : State W) (o : Phase) → IsWf s.cluster_store → IsStep s t → G s o → G t o
  unfolding IsStep
  IsStep-other s t o wf (inl same) h = rw same h
  IsStep-other s t o wf (inr (ph, good, fine, same)) h = rw same (other s ph o wf good fine h)

  All-other :
      (s t : State W) (phs : List Phase)
      → IsWf s.cluster_store
      → IsStep s t
      → All (G s) phs
      → All (G t) phs
  All-other s t [] wf step h = tt
  All-other s t (o ∷ phs) wf step h =
      (IsStep-other s t o wf step h.0, All-other s t phs wf step h.1)

  step_at-All :
      (i : ℕ) (phs : List Phase) (s : State W)
      → IsWf s.cluster_store
      → All (G s) phs
      → All IsFine (step_at env i phs s).0
      → All (G (step_at env i phs s).1) (step_at env i phs s).0
  unfolding step_at IsStep
  step_at-All i [] s wf all fine = tt
  step_at-All zero (ph ∷ phs) s wf all fine = (
    self s ph wf all.0 fine.0,
    All-other s (advance env ph s).1 phs wf (inr (ph, all.0, fine.0, refl)) all.1,
  )
  step_at-All (suc i) (ph ∷ phs) s wf all fine = (
    IsStep-other s (step_at env i phs s).1 ph wf (step_at-IsStep i phs s all.1 fine.1) all.0,
    step_at-All i phs s wf all.1 fine.1,
  )

  -- What holds of the shared state, or of a thread that has still to see to it.
  module _ (S : State W → Type 0) (owes : Phase → Bool)
      (settles : (s : State W) (ph : Phase)
        → IsWf s.cluster_store
        → G s ph
        → IsFine (advance env ph s).0
        → S s ⊎ (owes ph ≡ true)
        → S (advance env ph s).1 ⊎ (owes (advance env ph s).0 ≡ true)) where
    abbrev IsOwed : State W → List Phase → Type 0
    IsOwed s phs = S s ⊎ (any owes phs ≡ true)

    first_owes : (a b : Bool) → a ≡ true → a || b ≡ true
    first_owes a b h = ground arith

    later_owes : (a b : Bool) → b ≡ true → a || b ≡ true
    later_owes a b h = ground arith

    step_at-IsOwed :
        (i : ℕ) (phs : List Phase) (s : State W)
        → IsWf s.cluster_store
        → All (G s) phs
        → All IsFine (step_at env i phs s).0
        → IsOwed s phs
        → IsOwed (step_at env i phs s).1 (step_at env i phs s).0
    unfolding step_at
    step_at-IsOwed i [] s wf all fine h = h
    step_at-IsOwed zero (ph ∷ phs) s wf all fine h = elim (Bool-cases (any owes phs)) [
      | inl later ↦ inr (later_owes (owes (advance env ph s).0) (any owes phs) later)
      | inr none_later ↦
          elim (settles s ph wf all.0 fine.0 (elim h [
            | inl done ↦ inl done
            | inr owed ↦ inr (only_first (owes ph) (any owes phs) none_later owed)
          ])) [
            | inl done ↦ inl done
            | inr owed ↦ inr (first_owes (owes (advance env ph s).0) (any owes phs) owed)
          ]
    ]
      where
        only_first : (a b : Bool) → b ≡ false → a || b ≡ true → a ≡ true
        only_first a b n h = ground arith
    step_at-IsOwed (suc i) (ph ∷ phs) s wf all fine h = elim (Bool-cases (owes ph)) [
      | inl own ↦ inr (first_owes (owes ph) (any owes (step_at env i phs s).0) own)
      | inr none_own ↦
          elim (step_at-IsOwed i phs s wf all.1 fine.1 (elim h [
            | inl done ↦ inl done
            | inr owed ↦ inr (only_later (owes ph) (any owes phs) none_own owed)
          ])) [
            | inl done ↦ inl done
            | inr owed ↦ inr (later_owes (owes ph) (any owes (step_at env i phs s).0) owed)
          ]
    ]
      where
        only_later : (a b : Bool) → a ≡ false → a || b ≡ true → b ≡ true
        only_later a b n h = ground arith

    step_at-IsFine :
        (i : ℕ) (phs : List Phase) (s : State W)
        → All IsFine (step_at env i phs s).0
        → All IsFine phs
    unfolding step_at
    step_at-IsFine i [] s h = tt
    step_at-IsFine zero (ph ∷ phs) s h = (advance-IsFine env ph s h.0, h.1)
    step_at-IsFine (suc i) (ph ∷ phs) s h = (h.0, step_at-IsFine i phs s h.1)

    interleave-IsFine :
        (schedule : List ℕ) (phs : List Phase) (s : State W)
        → All IsFine (interleave env schedule phs s).0
        → All IsFine phs
    unfolding interleave
    interleave-IsFine [] phs s h = h
    interleave-IsFine (i ∷ schedule) phs s h =
        step_at-IsFine i phs s
          (interleave-IsFine schedule (step_at env i phs s).0 (step_at env i phs s).1 h)

    pub interleave-IsOwed :
        (schedule : List ℕ) (phs : List Phase) (s : State W)
        → IsWf s.cluster_store
        → All (G s) phs
        → All IsFine (interleave env schedule phs s).0
        → IsOwed s phs
        → IsOwed (interleave env schedule phs s).1 (interleave env schedule phs s).0
    unfolding interleave
    interleave-IsOwed [] phs s wf all fine h = h
    interleave-IsOwed (i ∷ schedule) phs s wf all fine h =
        let (phs', s') = step_at env i phs s in
        let now_fine = interleave-IsFine schedule phs' s' fine in
        interleave-IsOwed schedule phs' s'
          (IsStep-IsWf s s' wf (step_at-IsStep i phs s all now_fine))
          (step_at-All i phs s wf all now_fine) fine (step_at-IsOwed i phs s wf all now_fine h)
