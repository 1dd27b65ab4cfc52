-- ===== src/Lifecycle/Calls.antt =====
-- The calls that sessions commit, one transaction for each, and what a sequence of them does.
-- Every interleaving of the API's and the workers' committed calls is such a sequence.
use roster_ai.Base.{ℕ, String, ◌≡◌, refl, true, false, Option, List, [], ◌∷◌, inl, inr, arith}
use roster_ai.Contracts.RunStatus.{
  RunStatus, solver_queued, solver_running, solver_cancelled, cancellation_requested,
}
use roster_ai.Contracts.JobLease.{Uuid, Instant, JobLease}
use roster_ai.Contracts.Scheduling.{RunSnapshot, Candidate}
use roster_ai.Store.{World, Operation, Payload}
use roster_ai.Store.Tx.{Tx, ok, transaction, transaction-cases}
use roster_ai.Repository.Transitions.{
  create_queued_run, cancel_queued_run, request_cancellation, mark_running, finalize_run,
}
use roster_ai.Repository.Jobs.{
  enqueue_job, set_job_cancellation_requested, complete_job, fail_job, lease_next_job,
  renew_job_lease,
}
use roster_ai.Repository.Idempotency.{store_idempotent_result}
use roster_ai.Lifecycle.Edges.{cancel_queued, ask_cancel}
use roster_ai.Lifecycle.Moves.{Moves, kept}
use roster_ai.Lifecycle.Written.{SameRuns, claim_epoch-SameRuns}
use roster_ai.Repository.Rows.{uuid4}
use roster_ai.Repository.Fence.{claim_epoch}
use roster_ai.Lifecycle.Cancels.{cancel_transition-Moves, create_queued_run-Moves}
use roster_ai.Lifecycle.Fenced.{mark_running-Moves, finalize_run-Moves}

pub data Call : Type 0 where
  create : RunSnapshot → Uuid → Uuid → Call
  enqueue : JobLease → Uuid → Call
  lease : String → ℕ → Call
  renew : Uuid → Uuid → ℕ → ℕ → Call
  mark : Uuid → Uuid → ℕ → Option Uuid → Call
  finalize :
      Uuid
      → Uuid
      → ℕ
      → RunStatus
      → Option String
      → Option Candidate
      → Option Instant
      → Option Uuid
      → Call
  complete fail : Uuid → Uuid → ℕ → Call
  cancel_now request_cancel : Uuid → Uuid → Uuid → ℕ → Call
  flag : Uuid → Uuid → Call
  reply : Uuid → Uuid → Operation → String → ℕ → Payload → Call
  tick : Instant → Instant → Call
  claim : Uuid → Uuid → ℕ → Call
  draw : Call
  hold : List Uuid → Call

unfoldable pub perform : Call → World → World
perform (create snapshot site actor) w = (transaction (create_queued_run snapshot site actor) w).1
perform (enqueue job site) w = (transaction (enqueue_job job site) w).1
perform (lease owner seconds) w = (transaction (lease_next_job owner seconds) w).1
perform (renew site job epoch seconds) w =
    (transaction (renew_job_lease site job epoch seconds) w).1
perform (mark run site epoch request) w = (transaction (mark_running run site epoch request) w).1
perform (finalize run site epoch status reason c finished request) w =
    (transaction (finalize_run run site epoch status reason c finished request) w).1
perform (complete job site epoch) w = (transaction (complete_job job site epoch) w).1
perform (fail job site epoch) w = (transaction (fail_job job site epoch) w).1
perform (cancel_now run site actor version) w =
    (transaction (cancel_queued_run run site actor version) w).1
perform (request_cancel run site actor version) w =
    (transaction (request_cancellation run site actor version) w).1
perform (flag run site) w = (transaction (set_job_cancellation_requested run site) w).1
perform (reply site actor operation key hash payload) w =
    (transaction (store_idempotent_result site actor operation key hash payload) w).1
perform (tick now clock) w = record w { now = now; clock = clock }
perform (claim run site epoch) w = (transaction (claim_epoch run site epoch) w).1
perform draw w = (uuid4 w).1
perform (hold ids) w = record w { locked = ids }

unfoldable pub performs : List Call → World → World
performs [] w = w
performs (c ∷ cs) w = performs cs (perform c w)

-- A call that leaves the runs alone, returned or not.
kept_call {ℓ} :
    {A : Type ℓ} (m : Tx A) (w : World) → SameRuns w (m w).1 → Moves w (transaction m w).1
kept_call m w same = elim (transaction-cases m w) [
  | inl (a, _, e) ↦ rw e (kept same.runs same.events)
  | inr e ↦ rw e (kept refl refl)
]

-- A call whose returning runs are moves.
moving_call {ℓ} :
    {A : Type ℓ} (m : Tx A) (w : World)
    → ((a : A) → m w ≡ (ok a, (m w).1) → Moves w (m w).1)
    → Moves w (transaction m w).1
moving_call m w move = elim (transaction-cases m w) [
  | inl (a, h, e) ↦ rw e (move a h)
  | inr e ↦ rw e (kept refl refl)
]

lease-SameRuns :
    (owner : String) (seconds : ℕ) (w : World) → SameRuns w (lease_next_job owner seconds w).1
unfolding lease_next_job
lease-SameRuns owner seconds w = ground arith

renew-SameRuns :
    (site job : Uuid) (epoch seconds : ℕ) (w : World)
    → SameRuns w (renew_job_lease site job epoch seconds w).1
unfolding renew_job_lease
renew-SameRuns site job epoch seconds w = ground arith

complete-SameRuns :
    (job site : Uuid) (epoch : ℕ) (w : World) → SameRuns w (complete_job job site epoch w).1
unfolding complete_job
complete-SameRuns job site epoch w = ground arith

fail-SameRuns : (job site : Uuid) (epoch : ℕ) (w : World) → SameRuns w (fail_job job site epoch w).1
unfolding fail_job
fail-SameRuns job site epoch w = ground arith

enqueue-SameRuns :
    (job : JobLease) (site : Uuid) (w : World) → SameRuns w (enqueue_job job site w).1
unfolding enqueue_job
enqueue-SameRuns job site w = ground arith

reply-SameRuns :
    (site actor : Uuid) (operation : Operation) (key : String) (hash : ℕ) (payload : Payload)
    (w : World)
    → SameRuns w (store_idempotent_result site actor operation key hash payload w).1
unfolding store_idempotent_result
reply-SameRuns site actor operation key hash payload w = ground arith

flag-SameRuns :
    (run site : Uuid) (w : World) → SameRuns w (set_job_cancellation_requested run site w).1
unfolding set_job_cancellation_requested
flag-SameRuns run site w = ground arith

-- Every committed call keeps the runs, moves one run along an edge, or adds a queued run.
pub perform-Moves : (c : Call) (w : World) → Moves w (perform c w)
unfolding perform cancel_queued_run request_cancellation uuid4
perform-Moves (create snapshot site actor) w =
    moving_call (create_queued_run snapshot site actor) w
      (λ a h. create_queued_run-Moves snapshot site actor w h)
perform-Moves (enqueue job site) w =
    kept_call (enqueue_job job site) w (enqueue-SameRuns job site w)
perform-Moves (lease owner seconds) w =
    kept_call (lease_next_job owner seconds) w (lease-SameRuns owner seconds w)
perform-Moves (renew site job epoch seconds) w =
    kept_call (renew_job_lease site job epoch seconds) w (renew-SameRuns site job epoch seconds w)
perform-Moves (mark run site epoch request) w =
    moving_call (mark_running run site epoch request) w
      (λ a h. mark_running-Moves run site epoch request w h)
perform-Moves (finalize run site epoch status reason c finished request) w =
    moving_call (finalize_run run site epoch status reason c finished request) w
      (λ a h. finalize_run-Moves run site epoch status reason c finished request w h)
perform-Moves (complete job site epoch) w =
    kept_call (complete_job job site epoch) w (complete-SameRuns job site epoch w)
perform-Moves (fail job site epoch) w =
    kept_call (fail_job job site epoch) w (fail-SameRuns job site epoch w)
perform-Moves (cancel_now run site actor version) w =
    moving_call (cancel_queued_run run site actor version) w (λ a h.
      cancel_transition-Moves run site actor version solver_queued solver_cancelled "cancelled" true
        w cancel_queued h)
perform-Moves (request_cancel run site actor version) w =
    moving_call (request_cancellation run site actor version) w (λ a h.
      cancel_transition-Moves run site actor version solver_running cancellation_requested
        "cancellation_requested" false w ask_cancel h)
perform-Moves (flag run site) w =
    kept_call (set_job_cancellation_requested run site) w (flag-SameRuns run site w)
perform-Moves (reply site actor operation key hash payload) w =
    kept_call (store_idempotent_result site actor operation key hash payload) w
      (reply-SameRuns site actor operation key hash payload w)
perform-Moves (tick now clock) w = kept refl refl
perform-Moves (claim run site epoch) w =
    kept_call (claim_epoch run site epoch) w (claim_epoch-SameRuns run site epoch w)
perform-Moves draw w = kept refl refl
perform-Moves (hold ids) w = kept refl refl
