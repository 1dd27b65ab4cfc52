-- ===== src/Lifecycle/Ends.antt =====
-- `finalize_run` for a worker that holds its lease.

use roster_ai.Base.{
  ℕ, ◌<◌, ◌≡◌, refl, ◌∙◌, ap, Bool, true, Option, none, some, List, [], ◌∷◌, inl, inr, Bool-cases,
  arith, String, any,
}
use roster_ai.Base.Table.{select_one, select_one_holds, update, count}
use roster_ai.Contracts.RunStatus.{RunStatus, is_terminal, status_in, finalize_expected}
use roster_ai.Contracts.JobLease.{Uuid, Instant, JobLease}
use roster_ai.Contracts.Scheduling.{Candidate}
use roster_ai.Store.{World, ScheduleRun}
use roster_ai.Store.Tx.{ok, pure, resume, ◌>>◌}
use roster_ai.Base.Unique.{count-update}
use roster_ai.Repository.Rows.{
  or_uuid4, holds_epoch, is_run_job, run_job, is_run, update_run, run_row,
}
use roster_ai.Repository.Progress.{write_progress_event, actor_for_run}
use roster_ai.Repository.Fence.{claim_epoch, touch, has_current_epoch}
use roster_ai.Repository.Transitions.{finalize_run, fenced_update, record_transition, can_finalize}
use roster_ai.Lifecycle.Inserts.{
  IsShort, IsShort-fits, CanPersist, with_candidate, CanInsert-fits, completed_eq,
}

-- The worker's job is there under its lease, once, and its run may end with `status`.
pub record CanEnd (run site : Uuid) (epoch : ℕ) (status : RunStatus) (w : World) : Type 0 where
  pub terminal : is_terminal status ≡ true
  pub held : count (holds_epoch run site epoch) w.job_queue ≡ 1
  pub row : ScheduleRun
  pub found : run_row run site w ≡ some row
  pub expected : status_in row.status (finalize_expected status) ≡ true

pub found_of_count {ℓ} :
    {A : Type ℓ} (p q : A → Bool) (xs : List A)
    → ((x : A) → p x ≡ true → q x ≡ true)
    → count p xs ≡ 1
    → (a : A) × (select_one q xs ≡ some a)
unfolding count select_one
found_of_count p q [] k h = absurd (omega (arith, h))
found_of_count p q (x ∷ xs) k h = elim (Bool-cases (q x)) [
  | inl e ↦ (x, rw e refl)
  | inr e ↦ elim (Bool-cases (p x)) [
    | inl d ↦ cc (k x d, e)
    | inr d ↦ rw e (found_of_count p q xs k (omega (arith, rw d at h)))
  ]
]

any_of_count {ℓ} : {A : Type ℓ} (p : A → Bool) (xs : List A) → 0 < count p xs → any p xs ≡ true
unfolding count
any_of_count p [] h = absurd (omega (arith, h))
any_of_count p (x ∷ xs) h = elim (Bool-cases (p x)) [
  | inl e ↦ rw e refl
  | inr e ↦ rw e (any_of_count p xs (omega (arith, rw e at h)))
]

select_one-and {ℓ} :
    {A : Type ℓ} (p q : A → Bool) (xs : List A) {a : A}
    → select_one p xs ≡ some a
    → ((x : A) → q x ≡ true → p x ≡ true)
    → q a ≡ true
    → (b : A) × (select_one q xs ≡ some b)
unfolding select_one
select_one-and p q [] h k t = cc
select_one-and p q (x ∷ xs) {a} h k t = elim (Bool-cases (q x)) [
  | inl e ↦ (x, rw e refl)
  | inr e ↦ elim (Bool-cases (p x)) [
    | inl d ↦
        let x_is : some x ≡ some a = rw d at h in let same : x ≡ a = cc x_is in cc (ap q same, t, e)
    | inr d ↦ rw e (select_one-and p q xs (rw d at h) k t)
  ]
]

-- `_claim_epoch` touches the job, and leaves it held.
claim_epoch-ok :
    (run site : Uuid) (epoch : ℕ) (w : World)
    → count (holds_epoch run site epoch) w.job_queue ≡ 1
    → claim_epoch run site epoch w
      ≡ (ok tt, record w { job_queue = update (holds_epoch run site epoch) (touch w) w.job_queue })
unfolding claim_epoch
claim_epoch-ok run site epoch w h = rw h refl

record_transition-ok :
    (run site : Uuid) (status : RunStatus) (reason : Option String) (request : Option Uuid)
    (row : ScheduleRun) (w : World) {j : JobLease}
    → run_job run site w ≡ some j
    → (t : Instant) × ((record_transition run site status reason request row w).0 ≡ ok t)
unfolding record_transition actor_for_run or_uuid4 write_progress_event
record_transition-ok run site status reason none row w h = (w.clock, rw h refl)
record_transition-ok run site status reason (some u) row w h = (w.clock, rw h refl)

held_row :
    (run site : Uuid) (epoch : ℕ) (status : RunStatus) (w v : World)
    → CanEnd run site epoch status w
    → v.schedule_run ≡ w.schedule_run
    → has_current_epoch run site epoch v ≡ true
    → (r : ScheduleRun) × (select_one (can_finalize run site epoch status v) v.schedule_run
        ≡ some r)
held_row run site epoch status w v c same held =
    select_one-and (is_run run site) (can_finalize run site epoch status v) v.schedule_run
      (ap (select_one (is_run run site)) same ∙ c.found) (λ x t. ground arith)
      (rw (select_one_holds (is_run run site) w.schedule_run c.found, c.expected, held) refl)

fenced_update-ok :
    (run site : Uuid) (epoch : ℕ) (status : RunStatus) (p : ScheduleRun → Bool)
    (f : ScheduleRun → ScheduleRun) (reason : Option String) (request : Option Uuid) (w : World)
    {r : ScheduleRun} {j : JobLease}
    → select_one p w.schedule_run ≡ some r
    → run_job run site w ≡ some j
    → (t : Instant) × ((fenced_update run site epoch status p f reason request w).0 ≡ ok t)
unfolding fenced_update update_run
fenced_update-ok run site epoch status p f reason request w {r} found job =
    let v : World = record w { schedule_run = update p f w.schedule_run } in
    let done = record_transition-ok run site status reason request (f r) v job in
    (done.0, rw found done.1)

-- The end of `finalize_run`, on a store with the claimed job and the same runs.
finish_ok :
    (run site : Uuid) (epoch : ℕ) (status : RunStatus) (reason : Option String)
    (row : ScheduleRun → ScheduleRun) (request : Option Uuid) (w v : World)
    → CanEnd run site epoch status w
    → v.schedule_run ≡ w.schedule_run
    → v.job_queue ≡ update (holds_epoch run site epoch) (touch w) w.job_queue
    → ((fenced_update run site epoch status
            (can_finalize run site epoch status v)
            row
            reason
            request
          >> pure (tt {0}))
        v).0
      ≡ ok (tt {0})
finish_ok run site epoch status reason row request w v c same jobs =
    let held : count (holds_epoch run site epoch) v.job_queue ≡ 1 =
      ap (count (holds_epoch run site epoch)) jobs
      ∙ count-update (holds_epoch run site epoch) (holds_epoch run site epoch) (touch w) w.job_queue
          (λ x. refl)
      ∙ c.held in
    let job =
      found_of_count (holds_epoch run site epoch) (is_run_job run site) v.job_queue
        (λ x t. ground arith) held in
    let now_held = any_of_count (holds_epoch run site epoch) v.job_queue (omega (arith, held)) in
    let fits = held_row run site epoch status w v c same now_held in
    let done =
      fenced_update-ok run site epoch status (can_finalize run site epoch status v) row reason
        request v fits.1 job.1 in
    ap
      (λ r.
        (resume r (λ _. pure (tt {0}))
          (fenced_update run site epoch status (can_finalize run site epoch status v) row reason
            request v).1).0)
      done.1

-- A worker whose job is under its lease at its epoch, and whose run has a status that may end
-- with the given terminal status, is not refused: finalize_run with that status and a reason of
-- at most 100 characters returns, without a candidate or with one for a completed run that has no
-- version yet, with a solution, a new id and assignments of positive length with different record
-- ids and texts of at most 200 characters. The references to scenarios and proposals, which are
-- outside the model, are not tested.
pub finalize_run-returns :
    (run site : Uuid) (epoch : ℕ) (status : RunStatus) (reason : Option String)
    (c : Option Candidate) (finished : Option Instant) (request : Option Uuid) (w : World)
    → CanEnd run site epoch status w
    → IsShort 100 reason
    → CanPersist run status w c
    → (finalize_run run site epoch status reason c finished request w).0 ≡ ok tt
unfolding finalize_run
finalize_run-returns run site epoch status reason none finished request w h s k =
    rw (h.terminal, claim_epoch-ok run site epoch w h.held, IsShort-fits 100 reason s)
      (finish_ok run site epoch status reason _ request w _ h refl refl)
finalize_run-returns run site epoch status reason (some c) finished request w h s
      (with_candidate p) =
    rw
      (
        h.terminal,
        claim_epoch-ok run site epoch w h.held,
        CanInsert-fits run site status c w h.found p,
        IsShort-fits 100 reason s,
        completed_eq status p.completed,
      )
      (finish_ok run site epoch status reason _ request w _ h refl refl)
