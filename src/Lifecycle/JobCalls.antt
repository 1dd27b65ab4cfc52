-- ===== src/Lifecycle/JobCalls.antt =====
-- The committed calls, by what they do to the job queue.
use roster_ai.Base.{
  ℕ, ◌≡◌, ◌+◌, ltb, refl, sym, ◌∙◌, ap, Bool, true, false, Option, none, some, List, [], ◌∷◌, inl,
  inr, Bool-cases, Option-cases, arith, String,
}
use roster_ai.Base.Table.{select_one, update}
use roster_ai.Contracts.RunStatus.{
  RunStatus, solver_queued, solver_running, solver_cancelled, cancellation_requested, is_terminal,
}
use roster_ai.Contracts.JobLease.{Uuid, Instant, JobLease, JobStatus, completed, failed}
use roster_ai.Contracts.Scheduling.{RunSnapshot, Candidate}
use roster_ai.Store.{World, ScheduleRun, value_error, Operation, Payload}
use roster_ai.Store.Tx.{
  Tx, ok, transaction, transaction-cases, >>=-eq-ok, require->>-eq-ok, require, ◌>>◌,
}
use roster_ai.Repository.Rows.{uuid4, or_uuid4, holds_epoch, is_run_job}
use roster_ai.Repository.Progress.{write_progress_event, actor_for_run}
use roster_ai.Repository.Fence.{claim_epoch, touch, raise_transition_failure}
use roster_ai.Repository.Transitions.{
  create_queued_run, cancel_transition, cancel_queued_run, request_cancellation, mark_running,
  finalize_run, fenced_update, record_transition, insert_candidate, candidate_fits, refusal,
  all_fit, add_candidate, update_allowed,
}
use roster_ai.Repository.Jobs.{
  enqueue_job, set_job_cancellation_requested, complete_job, fail_job, end_job, lease_next_job,
  renew_job_lease, clashes, holds_lease,
}
use roster_ai.Repository.Idempotency.{store_idempotent_result}
use roster_ai.Lifecycle.JobMoves.{
  JobMoves, same, edited, inserted, IsEdit, HasUniqueJobs, JobMoves-HasUniqueJobs,
}
use roster_ai.Lifecycle.Leases.{lease_next_job-Leased, Leased-JobMoves}
use roster_ai.Lifecycle.Calls.{
  Call, create, enqueue, lease, renew, mark, finalize, complete, fail, cancel_now, request_cancel,
  flag, reply, tick, claim, draw, hold, perform, performs,
}

moving_call {ℓ} :
    {A : Type ℓ} (m : Tx A) (w : World)
    → ((a : A) → m w ≡ (ok a, (m w).1) → JobMoves w (m w).1)
    → JobMoves w (transaction m w).1
moving_call m w move = elim (transaction-cases m w) [
  | inl (a, h, e) ↦ rw e (move a h)
  | inr e ↦ rw e (same refl)
]

fenced_update-jobs :
    (run site : Uuid) (epoch : ℕ) (status : RunStatus) (p : ScheduleRun → Bool)
    (f : ScheduleRun → ScheduleRun) (reason : Option String) (request : Option Uuid) (w : World)
    → (fenced_update run site epoch status p f reason request w).1.job_queue ≡ w.job_queue
unfolding fenced_update raise_transition_failure record_transition actor_for_run or_uuid4
    write_progress_event
fenced_update-jobs run site epoch status p f reason request w = ground arith

insert_candidate-jobs :
    (run site : Uuid) (c : Option Candidate) (w : World)
    → (insert_candidate run site c w).1.job_queue ≡ w.job_queue
insert_candidate-jobs run site none w = refl
insert_candidate-jobs run site (some c) w =
    elim (candidate_fits run site c w)
      as (λ b.
        ((require b (refusal (all_fit c.assignments)) >> add_candidate run site c) w).1.job_queue
        ≡ w.job_queue) [ true ↦ refl | false ↦ refl ]

cancel_transition-jobs :
    (run site actor : Uuid) (version : ℕ) (expected status : RunStatus) (reason : String)
    (terminal : Bool) (w : World)
    → (cancel_transition run site actor version expected status reason terminal w).1.job_queue
      ≡ w.job_queue
unfolding cancel_transition write_progress_event
cancel_transition-jobs run site actor version expected status reason terminal w = ground arith

create_queued_run-jobs :
    (snapshot : RunSnapshot) (site actor : Uuid) (w : World)
    → (create_queued_run snapshot site actor w).1.job_queue ≡ w.job_queue
unfolding create_queued_run write_progress_event
create_queued_run-jobs snapshot site actor w = ground arith

reply-jobs :
    (site actor : Uuid) (operation : Operation) (key : String) (hash : ℕ) (payload : Payload)
    (w : World)
    → (store_idempotent_result site actor operation key hash payload w).1.job_queue ≡ w.job_queue
unfolding store_idempotent_result
reply-jobs site actor operation key hash payload w = ground arith

claim_epoch-jobs :
    (run site : Uuid) (epoch : ℕ) (w : World)
    → (claim_epoch run site epoch w).1.job_queue
      ≡ update (holds_epoch run site epoch) (touch w) w.job_queue
unfolding claim_epoch
claim_epoch-jobs run site epoch w = ground arith

touch-IsEdit : (w : World) → IsEdit (touch w)
touch-IsEdit w = record {
  same_job = λ x. refl;
  same_run = λ x. refl;
  same_site = λ x. refl;
  epoch = λ x. omega arith;
}

mark_running-JobMoves :
    (run site : Uuid) (epoch : ℕ) (request : Option Uuid) (w : World) {t : Instant} {w' : World}
    → mark_running run site epoch request w ≡ (ok t, w')
    → JobMoves w w'
unfolding mark_running
mark_running-JobMoves run site epoch request w {t} {w'} h =
    let claimed = >>=-eq-ok (claim_epoch run site epoch) _ w h in
    edited (holds_epoch run site epoch) (touch w) (touch-IsEdit w) (
      sym (ap (λ r. r.1.job_queue) claimed.2)
      ∙ fenced_update-jobs run site epoch solver_running _ _ none request
          (claim_epoch run site epoch w).1
      ∙ claim_epoch-jobs run site epoch w)

finalize_run-JobMoves :
    (run site : Uuid) (epoch : ℕ) (status : RunStatus) (reason : Option String)
    (c : Option Candidate) (finished : Option Instant) (request : Option Uuid) (w : World)
    {w' : World}
    → finalize_run run site epoch status reason c finished request w ≡ (ok tt, w')
    → JobMoves w w'
unfolding finalize_run
finalize_run-JobMoves run site epoch status reason c finished request w {w'} h =
    let checked = require->>-eq-ok (is_terminal status) value_error _ w h in
    let claimed = >>=-eq-ok (claim_epoch run site epoch) _ w checked.1 in
    let w1 = (claim_epoch run site epoch w).1 in
    let inserted = >>=-eq-ok (insert_candidate run site c) _ w1 claimed.2 in
    let w2 = (insert_candidate run site c w1).1 in
    let named =
      require->>-eq-ok (update_allowed run site epoch status reason inserted.0 w2) _ _ w2
        inserted.2 in
    let updated = >>=-eq-ok (fenced_update run site epoch status _ _ reason request) _ w2 named.1 in
    edited (holds_epoch run site epoch) (touch w) (touch-IsEdit w) (
      sym (ap (λ r. r.1.job_queue) updated.2)
      ∙ fenced_update-jobs run site epoch status _ _ reason request w2
      ∙ insert_candidate-jobs run site c w1
      ∙ claim_epoch-jobs run site epoch w)

end_job-JobMoves :
    (status : JobStatus) (job site : Uuid) (epoch : ℕ) (w : World) {w' : World}
    → end_job status job site epoch w ≡ (ok tt, w')
    → JobMoves w w'
unfolding end_job
end_job-JobMoves status job site epoch w {w'} h =
    edited (holds_lease job site epoch)
      (λ j. record j { status = status; heartbeat_at = some w.now })
      (record {
        same_job = λ x. refl;
        same_run = λ x. refl;
        same_site = λ x. refl;
        epoch = λ x. omega arith;
      })
      (ground arith)

flag-JobMoves :
    (run site : Uuid) (w : World) → JobMoves w (set_job_cancellation_requested run site w).1
unfolding set_job_cancellation_requested
flag-JobMoves run site w =
    edited (is_run_job run site) (λ j. record j { cancellation_requested = true })
      (record {
        same_job = λ x. refl;
        same_run = λ x. refl;
        same_site = λ x. refl;
        epoch = λ x. omega arith;
      })
      refl

renew-JobMoves :
    (site job : Uuid) (epoch seconds : ℕ) (w : World)
    → JobMoves w (renew_job_lease site job epoch seconds w).1
unfolding renew_job_lease
renew-JobMoves site job epoch seconds w = elim (Bool-cases (ltb 0 seconds)) [
  | inl e ↦ rw e (
      edited (holds_lease job site epoch)
        (λ j. record j { lease_expires_at = some (w.now + seconds); heartbeat_at = some w.now })
        (record {
          same_job = λ x. refl;
          same_run = λ x. refl;
          same_site = λ x. refl;
          epoch = λ x. omega arith;
        })
        refl)
  | inr e ↦ rw e (same refl)
]

enqueue_job-JobMoves :
    (job : JobLease) (site : Uuid) (w : World) {w' : World}
    → enqueue_job job site w ≡ (ok tt, w')
    → JobMoves w w'
unfolding enqueue_job
enqueue_job-JobMoves job site w {w'} h =
    elim (Option-cases (select_one (clashes job) w.job_queue)) [
      | inl e ↦ inserted job e (ground (arith, e))
      | inr (j, e) ↦ absurd (ground (arith, e))
    ]

leased_or_not :
    (owner : String) (seconds : ℕ) (w : World) (o : Option JobLease) {w' : World}
    → HasUniqueJobs w.job_queue
    → lease_next_job owner seconds w ≡ (ok o, w')
    → JobMoves w w'
unfolding lease_next_job
leased_or_not owner seconds w none u h = same (ground arith)
leased_or_not owner seconds w (some l) u h =
    Leased-JobMoves u.jobs (lease_next_job-Leased owner seconds w h)

pub perform-JobMoves : (c : Call) (w : World) → HasUniqueJobs w.job_queue → JobMoves w (perform c w)
unfolding perform cancel_queued_run request_cancellation complete_job fail_job uuid4
perform-JobMoves (create snapshot site actor) w u =
    moving_call (create_queued_run snapshot site actor) w
      (λ a h. same (create_queued_run-jobs snapshot site actor w))
perform-JobMoves (enqueue job site) w u =
    moving_call (enqueue_job job site) w (λ a h. enqueue_job-JobMoves job site w h)
perform-JobMoves (lease owner seconds) w u =
    moving_call (lease_next_job owner seconds) w (λ a h. leased_or_not owner seconds w a u h)
perform-JobMoves (renew site job epoch seconds) w u =
    moving_call (renew_job_lease site job epoch seconds) w
      (λ a h. renew-JobMoves site job epoch seconds w)
perform-JobMoves (mark run site epoch request) w u =
    moving_call (mark_running run site epoch request) w
      (λ a h. mark_running-JobMoves run site epoch request w h)
perform-JobMoves (finalize run site epoch status reason c finished request) w u =
    moving_call (finalize_run run site epoch status reason c finished request) w
      (λ a h. finalize_run-JobMoves run site epoch status reason c finished request w h)
perform-JobMoves (complete job site epoch) w u =
    moving_call (complete_job job site epoch) w
      (λ a h. end_job-JobMoves completed job site epoch w h)
perform-JobMoves (fail job site epoch) w u =
    moving_call (fail_job job site epoch) w (λ a h. end_job-JobMoves failed job site epoch w h)
perform-JobMoves (cancel_now run site actor version) w u =
    moving_call (cancel_queued_run run site actor version) w (λ a h. same (
      cancel_transition-jobs run site actor version solver_queued solver_cancelled "cancelled" true
        w))
perform-JobMoves (request_cancel run site actor version) w u =
    moving_call (request_cancellation run site actor version) w (λ a h. same (
      cancel_transition-jobs run site actor version solver_running cancellation_requested
        "cancellation_requested" false w))
perform-JobMoves (flag run site) w u =
    moving_call (set_job_cancellation_requested run site) w (λ a h. flag-JobMoves run site w)
perform-JobMoves (reply site actor operation key hash payload) w u =
    moving_call (store_idempotent_result site actor operation key hash payload) w
      (λ a h. same (reply-jobs site actor operation key hash payload w))
perform-JobMoves (tick now clock) w u = same refl
perform-JobMoves (claim run site epoch) w u = moving_call (claim_epoch run site epoch) w (λ a h.
    edited (holds_epoch run site epoch) (touch w) (touch-IsEdit w)
      (claim_epoch-jobs run site epoch w))
perform-JobMoves draw w u = same refl
perform-JobMoves (hold ids) w u = same refl

-- Any committed calls keep the job queue's ids unique, and its runs: no run has two jobs.
pub performs-HasUniqueJobs :
    (cs : List Call) (w : World)
    → HasUniqueJobs w.job_queue
    → HasUniqueJobs (performs cs w).job_queue
unfolding performs
performs-HasUniqueJobs [] w u = u
performs-HasUniqueJobs (c ∷ cs) w u =
    performs-HasUniqueJobs cs (perform c w)
      (JobMoves-HasUniqueJobs w (perform c w) (perform-JobMoves c w u) u)
