-- ===== src/UseCases/Candidates.antt =====
-- What `finalize_schedule_run` persists.
use roster_ai.Base.{
  ℕ, String, ◌≡◌, refl, sym, ◌∙◌, ap, ap₂, subst, Bool, false, List, [], ◌∷◌, ◌++◌, Option, none,
  some, ◌⊎◌, inl, inr, Bool-cases, arith,
}
use roster_ai.Contracts.RunStatus.{RunStatus, status_eq, is_terminal, solver_completed}
use roster_ai.Contracts.JobLease.{Uuid, Instant}
use roster_ai.Contracts.Scheduling.{
  SolverOutcome, RunSnapshot, ValidationFacts, ConstraintResult, Candidate,
}
use roster_ai.Store.{World, ScheduleRun, ScheduleVersion, value_error}
use roster_ai.Store.Tx.{Tx-eq-ok, Result, ok, raised, ok_value, >>=-eq-ok, require->>-eq-ok}
use roster_ai.Repository.Rows.{uuid4, or_uuid4}
use roster_ai.Repository.Progress.{write_progress_event, actor_for_run}
use roster_ai.Repository.Fence.{claim_epoch, raise_transition_failure}
use roster_ai.Repository.Transitions.{
  finalize_run, fenced_update, insert_candidate, candidate_fits, add_candidate, update_allowed,
  record_transition,
}
use roster_ai.Scheduling.HardConstraints.{require_hard_constraints}
use roster_ai.Scheduling.Rules.{IsAdmissible}
use roster_ai.Scheduling.Sound.{require_hard_constraints-IsAdmissible}
use roster_ai.UseCases.Finalize.{
  terminal, FinalizedScheduleRun, with_soft, with_hard, with_facts, judge, finalize_schedule_run,
}

-- The row of a candidate.
abbrev pub version_row : Uuid → Uuid → Candidate → ScheduleVersion
version_row run site c = record {
  id = c.schedule_version_id;
  site_id = site;
  schedule_run_id = run;
  payload = c;
}

abbrev pub version_rows : Uuid → Uuid → Option Candidate → List ScheduleVersion
version_rows run site none = []
version_rows run site (some c) = version_row run site c ∷ []

fenced_update-versions :
    (run site : Uuid) (epoch : ℕ) (status : RunStatus) (p : ScheduleRun → Bool)
    (f : ScheduleRun → ScheduleRun) (reason : Option String) (request : Option Uuid) (w : World)
    → (fenced_update run site epoch status p f reason request w).1.schedule_version
      ≡ w.schedule_version
unfolding fenced_update raise_transition_failure record_transition actor_for_run or_uuid4
    write_progress_event
fenced_update-versions run site epoch status p f reason request w = ground arith

++-nil {ℓ} : {A : Type ℓ} (xs : List A) → xs ++ [] ≡ xs
++-nil [] = refl
++-nil (x ∷ xs) = ap (◌∷◌ x) (++-nil xs)

insert_candidate-versions :
    (run site : Uuid) (c : Option Candidate) (w : World) {o : Option Uuid}
    → (insert_candidate run site c w).0 ≡ ok o
    → (insert_candidate run site c w).1.schedule_version
      ≡ w.schedule_version ++ version_rows run site c
insert_candidate-versions run site none w h = sym (++-nil w.schedule_version)
insert_candidate-versions run site (some c) w h =
    let done =
      require->>-eq-ok (candidate_fits run site c w) _ (add_candidate run site c) w
        (Tx-eq-ok h refl) in
    ap (λ (p : Result (Option Uuid) × World). p.1.schedule_version) (sym done.1)

claim-versions :
    (run site : Uuid) (epoch : ℕ) (w : World)
    → (claim_epoch run site epoch w).1.schedule_version ≡ w.schedule_version
unfolding claim_epoch
claim-versions run site epoch w = ground arith

pub finalize_run-versions :
    (run site : Uuid) (epoch : ℕ) (status : RunStatus) (reason : Option String)
    (c : Option Candidate) (finished : Option Instant) (request : Option Uuid) (w : World)
    {w' : World}
    → finalize_run run site epoch status reason c finished request w ≡ (ok tt, w')
    → w'.schedule_version ≡ w.schedule_version ++ version_rows run site c
unfolding finalize_run
finalize_run-versions run site epoch status reason c finished request w {w'} h =
    let checked = require->>-eq-ok (is_terminal status) value_error _ w h in
    let claimed = >>=-eq-ok (claim_epoch run site epoch) _ w checked.1 in
    let w1 = (claim_epoch run site epoch w).1 in
    let inserted = >>=-eq-ok (insert_candidate run site c) _ w1 claimed.2 in
    let w2 = (insert_candidate run site c w1).1 in
    let named =
      require->>-eq-ok (update_allowed run site epoch status reason inserted.0 w2) _ _ w2
        inserted.2 in
    let updated = >>=-eq-ok (fenced_update run site epoch status _ _ reason request) _ w2 named.1 in
    sym (ap (λ r. r.1.schedule_version) updated.2)
    ∙ fenced_update-versions run site epoch status _ _ reason request w2
    ∙ insert_candidate-versions run site c w1 inserted.1
    ∙ ap (λ vs. vs ++ version_rows run site c) (claim-versions run site epoch w)

-- A candidate comes with a completed run, and obeys the rules of the facts that came with it.
pub data IsJudged (snapshot : RunSnapshot) (outcome : SolverOutcome) (f : FinalizedScheduleRun)
    : Type 0 where
  without :
      f.candidate ≡ none → status_eq f.status solver_completed ≡ false → IsJudged snapshot outcome f
  with_candidate :
      (c : Candidate) (facts : ValidationFacts)
      → f.candidate ≡ some c
      → f.status ≡ solver_completed
      → c.schedule_run_id ≡ snapshot.schedule_run_id
      → outcome.validation_facts ≡ some facts
      → c.assignments ≡ outcome.assignments
      → IsAdmissible outcome.assignments facts snapshot.preserved_locks
      → IsJudged snapshot outcome f

module _ (metrics : SolverOutcome → RunSnapshot → Result (List ConstraintResult))
    (snapshot : RunSnapshot) (outcome : SolverOutcome) (w : World) {f : FinalizedScheduleRun}
    {w' : World} where
  soft-IsJudged :
      (facts : ValidationFacts) (hard : List ConstraintResult)
      (soft : Result (List ConstraintResult))
      → outcome.validation_facts ≡ some facts
      → IsAdmissible outcome.assignments facts snapshot.preserved_locks
      → with_soft metrics snapshot outcome hard soft w ≡ (ok f, w')
      → IsJudged snapshot outcome f
  unfolding uuid4
  soft-IsJudged facts hard (raised e) given good h = cc
  soft-IsJudged facts hard (ok soft) given good h =
      let judged = ok_value h in
      with_candidate
        (record {
          schedule_version_id = w.next_uuid;
          schedule_run_id = snapshot.schedule_run_id;
          feasible_solver_status = outcome.solver_status;
          assignments = outcome.assignments;
          constraint_results = hard ++ soft;
          scenario_version_id = snapshot.scenario_version_id;
          proposal_id = snapshot.proposal_id;
          proposal_version_id = snapshot.proposal_version_id;
          created_at = w.clock;
        })
        facts (sym (ap (λ (a : FinalizedScheduleRun). a.candidate) judged))
        (sym (ap (λ (a : FinalizedScheduleRun). a.status) judged)) refl given refl good

  hard-IsJudged :
      (facts : ValidationFacts) (checked : List String ⊎ List ConstraintResult)
      → outcome.validation_facts ≡ some facts
      → require_hard_constraints outcome.assignments facts snapshot.preserved_locks ≡ checked
      → with_hard metrics snapshot outcome checked w ≡ (ok f, w')
      → IsJudged snapshot outcome f
  hard-IsJudged facts (inl failed) given e h =
      let judged = ok_value h in
      without (sym (ap (λ (a : FinalizedScheduleRun). a.candidate) judged))
        (ap (λ (a : FinalizedScheduleRun). status_eq a.status solver_completed) (sym judged))
  hard-IsJudged facts (inr hard) given e h =
      soft-IsJudged facts hard (metrics outcome snapshot) given
        (require_hard_constraints-IsAdmissible outcome.assignments facts snapshot.preserved_locks e)
        h

  facts-IsJudged :
      (o : Option ValidationFacts)
      → outcome.validation_facts ≡ o
      → with_facts metrics snapshot outcome o w ≡ (ok f, w')
      → IsJudged snapshot outcome f
  facts-IsJudged none given h =
      let judged = ok_value h in
      without (sym (ap (λ (a : FinalizedScheduleRun). a.candidate) judged))
        (ap (λ (a : FinalizedScheduleRun). status_eq a.status solver_completed) (sym judged))
  facts-IsJudged (some facts) given h = hard-IsJudged facts _ given refl h

  judge-IsJudged : judge metrics snapshot outcome w ≡ (ok f, w') → IsJudged snapshot outcome f
  unfolding judge
  judge-IsJudged h = elim (Bool-cases (status_eq (terminal outcome).0 solver_completed)) [
    | inl e ↦ facts-IsJudged outcome.validation_facts refl (rw e at h)
    | inr e ↦
        let judged : record {
          status = (terminal outcome).0;
          reason = (terminal outcome).1;
          candidate = none;
        }
            ≡ f =
          ok_value (rw e at h) in
        without (sym (ap (λ (a : FinalizedScheduleRun). a.candidate) judged))
          (ap (λ (a : FinalizedScheduleRun). status_eq a.status solver_completed) (sym judged) ∙ e)
  ]

judge-versions :
    (metrics : SolverOutcome → RunSnapshot → Result (List ConstraintResult))
    (snapshot : RunSnapshot) (outcome : SolverOutcome) (w : World)
    → (judge metrics snapshot outcome w).1.schedule_version ≡ w.schedule_version
unfolding judge uuid4
judge-versions metrics snapshot outcome w = ground arith

-- What is persisted when `finalize_schedule_run` returns.
pub record IsPersisted (snapshot : RunSnapshot) (outcome : SolverOutcome) (site : Uuid)
    (w w' : World) (f : FinalizedScheduleRun) : Type 0 where
  pub judged : IsJudged snapshot outcome f
  pub versions :
      w'.schedule_version
      ≡ w.schedule_version ++ version_rows snapshot.schedule_run_id site f.candidate

-- When finalize_schedule_run returns, the schedule version that it adds is the candidate that it
-- returns; there is one only with the status solver_completed, its assignments are the solver's,
-- and these obey the hard rules of the outcome's facts, the weekly cap in hours of 60 minutes
-- among them, and keep the snapshot's locks.
pub finalize_schedule_run-IsPersisted :
    (metrics : SolverOutcome → RunSnapshot → Result (List ConstraintResult))
    (snapshot : RunSnapshot) (outcome : SolverOutcome) (site : Uuid) (epoch : ℕ)
    (request : Option Uuid) (w : World) {f : FinalizedScheduleRun} {w' : World}
    → finalize_schedule_run metrics snapshot outcome site epoch request w ≡ (ok f, w')
    → IsPersisted snapshot outcome site w w' f
unfolding finalize_schedule_run
finalize_schedule_run-IsPersisted metrics snapshot outcome site epoch request w {f} {w'} h =
    let first = >>=-eq-ok (judge metrics snapshot outcome) _ w h in
    let w1 = (judge metrics snapshot outcome w).1 in
    let second =
      >>=-eq-ok
        (finalize_run snapshot.schedule_run_id site epoch first.0.status first.0.reason
          first.0.candidate (some w1.clock) request)
        _ w1 first.2 in
    let w2 =
      (finalize_run snapshot.schedule_run_id site epoch first.0.status first.0.reason
        first.0.candidate (some w1.clock) request w1).1 in
    let own : first.0 ≡ f = ok_value second.2 in
    let last : w2 ≡ w' = ap (λ (p : Result FinalizedScheduleRun × World). p.1) second.2 in
    record {
      judged =
          subst (IsJudged snapshot outcome) own
            (judge-IsJudged metrics snapshot outcome w (Tx-eq-ok first.1 refl));
      versions =
          sym (ap (λ (a : World). a.schedule_version) last)
          ∙ finalize_run-versions snapshot.schedule_run_id site epoch first.0.status first.0.reason
              first.0.candidate (some w1.clock) request w1 (Tx-eq-ok second.1 refl)
          ∙ ap₂
              (λ vs (a : FinalizedScheduleRun).
                vs ++ version_rows snapshot.schedule_run_id site a.candidate)
              (judge-versions metrics snapshot outcome w) own;
    }
