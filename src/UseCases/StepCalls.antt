-- ===== src/UseCases/StepCalls.antt =====
-- The repository's methods that a worker calls, and `finalize_schedule_run`, as committed calls.
use roster_ai.Base.{
  ℕ, String, ◌≡◌, refl, sym, subst, Bool, true, false, Option, none, some, List, inl, inr,
  Bool-cases, Option-cases, arith, if◌then◌else◌, ◌⊎◌, ◌==◌,
}
use roster_ai.Base.Table.{select_one, update-none, count}
use roster_ai.Contracts.RunStatus.{RunStatus, status_eq, solver_completed, solver_running}
use roster_ai.Contracts.JobLease.{Uuid, Instant}
use roster_ai.Contracts.Scheduling.{
  RunSnapshot, SolverOutcome, ConstraintResult, ValidationFacts, Candidate,
}
use roster_ai.Store.{World, run_transition_conflict, ScheduleRun, stale_lease}
use roster_ai.Store.Tx.{Tx, Result, ok, raised, gets, transaction, Tx-eq-ok}
use roster_ai.Repository.Rows.{get_run_state, uuid4, holds_epoch, update_run, or_uuid4}
use roster_ai.Repository.Progress.{write_progress_event, actor_for_run}
use roster_ai.Repository.Fence.{claim_epoch, raise_transition_failure}
use roster_ai.Repository.Transitions.{
  mark_running, finalize_run, fenced_update, can_start, running_row, record_transition,
}
use roster_ai.Repository.Jobs.{complete_job, fail_job}
use roster_ai.Scheduling.HardConstraints.{require_hard_constraints}
use roster_ai.Lifecycle.Calls.{perform, mark, finalize, complete, fail, claim, draw}
use roster_ai.UseCases.Commits.{
  Commits, IsReached, Commits-pure, Commits-raise, Commits-read, Commits-call, Commits->>=,
}
use roster_ai.UseCases.Finalize.{
  judge, with_facts, with_hard, with_soft, terminal, finalize_schedule_run,
}

Commits-gets {ℓ} : {A : Type ℓ} (f : World → A) → Commits (gets f)
Commits-gets f w a w' h = Commits-read w (gets f) w a w' h

pub finalize-Commits :
    (run site : Uuid) (epoch : ℕ) (status : RunStatus) (reason : Option String)
    (c : Option Candidate) (at : Option Instant) (request : Option Uuid)
    → Commits (finalize_run run site epoch status reason c at request)
unfolding perform
finalize-Commits run site epoch status reason c at request =
    Commits-call (finalize run site epoch status reason c at request)
      (finalize_run run site epoch status reason c at request) (λ w. refl)

pub complete-Commits : (job site : Uuid) (epoch : ℕ) → Commits (complete_job job site epoch)
unfolding perform
complete-Commits job site epoch =
    Commits-call (complete job site epoch) (complete_job job site epoch) (λ w. refl)

pub fail-Commits : (job site : Uuid) (epoch : ℕ) → Commits (fail_job job site epoch)
unfolding perform
fail-Commits job site epoch =
    Commits-call (fail job site epoch) (fail_job job site epoch) (λ w. refl)

uuid4-Commits : Commits uuid4
unfolding perform transaction uuid4
uuid4-Commits = Commits-call draw uuid4 (λ w. refl)

conflict_writes_nothing :
    (run site : Uuid) (epoch : ℕ) (p : ScheduleRun → Bool) (request : Option Uuid) (w : World)
    → (fenced_update run site epoch solver_running p running_row none request w).0
      ≡ raised run_transition_conflict
    → (fenced_update run site epoch solver_running p running_row none request w).1 ≡ w
unfolding fenced_update update_run raise_transition_failure record_transition actor_for_run or_uuid4
    write_progress_event
conflict_writes_nothing run site epoch p request w h =
    elim (Option-cases (select_one p w.schedule_run)) [
      | inl e ↦ let same = update-none p running_row w.schedule_run e in ground (arith, e, same)
      | inr (r, e) ↦ absurd (ground (arith, e))
    ]

claim_cases :
    (run site : Uuid) (epoch : ℕ) (w : World)
    → ((claim_epoch run site epoch w).0 ≡ ok tt)
      ⊎ ((claim_epoch run site epoch w).0 ≡ raised stale_lease)
unfolding claim_epoch
claim_cases run site epoch w =
    elim (Bool-cases (count (holds_epoch run site epoch) w.job_queue == 1)) [
      | inl e ↦ inl (ground (arith, e))
      | inr e ↦ inr (ground (arith, e))
    ]

claim_reaches :
    (run site : Uuid) (epoch : ℕ) (w : World)
    → (claim_epoch run site epoch w).0 ≡ ok tt
    → IsReached w (claim_epoch run site epoch w).1
unfolding perform
claim_reaches run site epoch w h =
    Commits-call (claim run site epoch) (claim_epoch run site epoch) (λ v. refl) w tt
      (claim_epoch run site epoch w).1 (Tx-eq-ok h refl)

-- A lost compare-and-set leaves the heartbeat that claiming the epoch wrote, and no more.
pub conflict_reaches :
    (run site : Uuid) (epoch : ℕ) (request : Option Uuid) (w : World)
    → (mark_running run site epoch request w).0 ≡ raised run_transition_conflict
    → IsReached w (mark_running run site epoch request w).1
unfolding mark_running
conflict_reaches run site epoch request w h = elim (claim_cases run site epoch w) [
  | inl e ↦
      let v = (claim_epoch run site epoch w).1 in
      let p = can_start run site epoch v in
      let lost : (fenced_update run site epoch solver_running p running_row none request v).0
          ≡ raised run_transition_conflict =
        rw e at h in
      let reached = claim_reaches run site epoch w e in
      let nothing = conflict_writes_nothing run site epoch p request v lost in
      rw e (subst (IsReached w) (sym nothing) reached)
  | inr e ↦
      let other : ◌≡◌ {A = Result Instant} (raised stale_lease) (raised run_transition_conflict) =
        rw e at h in
      cc other
]

pub mark-Commits :
    (run site : Uuid) (epoch : ℕ) (request : Option Uuid)
    → Commits (mark_running run site epoch request)
unfolding perform
mark-Commits run site epoch request =
    Commits-call (mark run site epoch request) (mark_running run site epoch request) (λ w. refl)

pub state-Commits : (run site : Uuid) → Commits (get_run_state run site)
unfolding get_run_state
state-Commits run site = Commits-gets _

pub Commits-if {ℓ} :
    {A : Type ℓ} (b : Bool) (m k : Tx A) → Commits m → Commits k → Commits (if b then m else k)
Commits-if true m k p q = p
Commits-if false m k p q = q

module _ (candidate_metrics : SolverOutcome → RunSnapshot → Result (List ConstraintResult)) where
  soft-Commits :
      (snapshot : RunSnapshot) (outcome : SolverOutcome) (hard : List ConstraintResult)
      (soft : Result (List ConstraintResult))
      → Commits (with_soft candidate_metrics snapshot outcome hard soft)
  soft-Commits snapshot outcome hard (raised e) = Commits-raise e
  soft-Commits snapshot outcome hard (ok soft) = Commits->>= uuid4 _ uuid4-Commits λ version.
      Commits->>= (gets (λ w. w.clock)) _ (Commits-gets (λ w. w.clock)) λ created. Commits-pure _

  hard-Commits :
      (snapshot : RunSnapshot) (outcome : SolverOutcome)
      (hard : List String ⊎ List ConstraintResult)
      → Commits (with_hard candidate_metrics snapshot outcome hard)
  hard-Commits snapshot outcome (inl failed) = Commits-pure _
  hard-Commits snapshot outcome (inr hard) =
      soft-Commits snapshot outcome hard (candidate_metrics outcome snapshot)

  facts-Commits :
      (snapshot : RunSnapshot) (outcome : SolverOutcome) (facts : Option ValidationFacts)
      → Commits (with_facts candidate_metrics snapshot outcome facts)
  facts-Commits snapshot outcome none = Commits-pure _
  facts-Commits snapshot outcome (some facts) =
      hard-Commits snapshot outcome
        (require_hard_constraints outcome.assignments facts snapshot.preserved_locks)

  pub judge-Commits :
      (snapshot : RunSnapshot) (outcome : SolverOutcome)
      → Commits (judge candidate_metrics snapshot outcome)
  unfolding judge
  judge-Commits snapshot outcome =
      Commits-if (status_eq (terminal outcome).0 solver_completed) _ _
        (facts-Commits snapshot outcome outcome.validation_facts) (Commits-pure _)

  pub finalization-Commits :
      (snapshot : RunSnapshot) (outcome : SolverOutcome) (site : Uuid) (epoch : ℕ)
      (request : Option Uuid)
      → Commits (finalize_schedule_run candidate_metrics snapshot outcome site epoch request)
  unfolding finalize_schedule_run
  finalization-Commits snapshot outcome site epoch request =
      Commits->>= (judge candidate_metrics snapshot outcome) _ (judge-Commits snapshot outcome)
        λ judged. Commits->>= (gets (λ w. w.clock)) _ (Commits-gets (λ w. w.clock)) λ now.
          Commits->>=
            (finalize_run snapshot.schedule_run_id site epoch judged.status judged.reason
              judged.candidate (some now) request)
            _
            (finalize-Commits snapshot.schedule_run_id site epoch judged.status judged.reason
              judged.candidate (some now) request)
            λ done. Commits-pure judged
