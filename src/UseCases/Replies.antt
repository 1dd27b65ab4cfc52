-- ===== src/UseCases/Replies.antt =====
-- The rows of `command_idempotency` over the committed calls.
use roster_ai.Base.{
  ℕ, String, ◌≡◌, refl, sym, ◌∙◌, ap, Bool, true, false, Option, some, List, [], ◌∷◌, ◌++◌, inl,
  inr, Option-cases, arith,
}
use roster_ai.Base.Table.{select_one, select_one-append}
use roster_ai.Contracts.RunStatus.{
  is_terminal, RunStatus, solver_queued, solver_running, solver_cancelled, cancellation_requested,
}
use roster_ai.Contracts.JobLease.{Uuid, Instant, JobLease}
use roster_ai.Contracts.Scheduling.{Candidate, RunSnapshot}
use roster_ai.Store.{Fault, value_error, ScheduleRun, World, Operation, Payload, IdempotentResult}
use roster_ai.Store.Tx.{
  Result, ok, raised, resume, require, pure, ◌>>=◌, Tx, transaction, transaction-cases,
}
use roster_ai.Repository.Rows.{uuid4, or_uuid4}
use roster_ai.Repository.Progress.{write_progress_event, actor_for_run}
use roster_ai.Repository.Fence.{claim_epoch, raise_transition_failure}
use roster_ai.Repository.Transitions.{
  create_queued_run, cancel_transition, cancel_queued_run, request_cancellation, mark_running,
  finalize_run, fenced_update, record_transition, insert_candidate, update_allowed, finalized_row,
  finish_time, can_finalize, refusal, text_fits,
}
use roster_ai.Repository.Jobs.{
  enqueue_job, set_job_cancellation_requested, complete_job, fail_job, lease_next_job,
  renew_job_lease,
}
use roster_ai.Repository.Idempotency.{store_idempotent_result, is_request}
use roster_ai.Lifecycle.Calls.{
  Call, create, enqueue, lease, renew, mark, finalize, complete, fail, cancel_now, request_cancel,
  flag, reply, tick, claim, draw, hold, perform, performs,
}

-- The replies of `w` are the first of `w'`.
pub record Keeps (w w' : World) : Type 0 where
  pub more : List IdempotentResult
  pub replies : w'.command_idempotency ≡ w.command_idempotency ++ more

++-nil {ℓ} : {A : Type ℓ} (xs : List A) → xs ++ [] ≡ xs
++-nil [] = refl
++-nil (x ∷ xs) = ap (◌∷◌ x) (++-nil xs)

pub same_replies : {w w' : World} → w'.command_idempotency ≡ w.command_idempotency → Keeps w w'
same_replies {w} e = record { more = []; replies = e ∙ sym (++-nil w.command_idempotency) }

kept_call {ℓ} : {A : Type ℓ} (m : Tx A) (w : World) → Keeps w (m w).1 → Keeps w (transaction m w).1
kept_call m w k = elim (transaction-cases m w) [
  | inl (a, _, e) ↦ rw e k
  | inr e ↦ rw e (same_replies refl)
]

abbrev KeepsReplies {ℓ} : {A : Type ℓ} → Tx A → Type 0
KeepsReplies m = (w : World) → (m w).1.command_idempotency ≡ w.command_idempotency

KeepsReplies->>= {ℓ κ} :
    {A : Type ℓ} {B : Type κ} (m : Tx A) (f : A → Tx B)
    → KeepsReplies m
    → ((a : A) → KeepsReplies (f a))
    → KeepsReplies (m >>= f)
KeepsReplies->>= {A = A} {B = B} m f h k w = resumed (m w).0 (m w).1 ∙ h w
  where
    resumed :
        (r : Result A) (v : World) → (resume r f v).1.command_idempotency ≡ v.command_idempotency
    resumed (ok a) v = k a v
    resumed (raised e) v = refl

require-replies : (b : Bool) (e : Fault) → KeepsReplies (require b e)
require-replies true e w = refl
require-replies false e w = refl

claim-replies :
    (run site : Uuid) (epoch : ℕ) (w : World)
    → (claim_epoch run site epoch w).1.command_idempotency ≡ w.command_idempotency
unfolding claim_epoch
claim-replies run site epoch w = ground arith

mark-replies :
    (run site : Uuid) (epoch : ℕ) (request : Option Uuid) (w : World)
    → (mark_running run site epoch request w).1.command_idempotency ≡ w.command_idempotency
unfolding mark_running claim_epoch fenced_update raise_transition_failure record_transition
    actor_for_run or_uuid4 write_progress_event
mark-replies run site epoch request w = ground arith

fenced-replies :
    (run site : Uuid) (epoch : ℕ) (status : RunStatus) (p : ScheduleRun → Bool)
    (f : ScheduleRun → ScheduleRun) (reason : Option String) (request : Option Uuid)
    → KeepsReplies (fenced_update run site epoch status p f reason request)
unfolding fenced_update raise_transition_failure record_transition actor_for_run or_uuid4
    write_progress_event
fenced-replies run site epoch status p f reason request w = ground arith

insert-replies :
    (run site : Uuid) (c : Option Candidate) → KeepsReplies (insert_candidate run site c)
insert-replies run site c w = ground arith

finalize-replies :
    (run site : Uuid) (epoch : ℕ) (status : RunStatus) (reason : Option String)
    (c : Option Candidate) (finished : Option Instant) (request : Option Uuid) (w : World)
    → (finalize_run run site epoch status reason c finished request w).1.command_idempotency
      ≡ w.command_idempotency
unfolding finalize_run
finalize-replies run site epoch status reason c finished request =
    KeepsReplies->>= (require (is_terminal status) value_error) _
      (require-replies (is_terminal status) value_error)
      λ u. KeepsReplies->>= (claim_epoch run site epoch) _ (claim-replies run site epoch) λ u.
        KeepsReplies->>= (insert_candidate run site c) _ (insert-replies run site c) λ candidate v.
          let named = update_allowed run site epoch status reason candidate v in
          let row = finalized_row status reason candidate (finish_time c finished v.clock) in
          let updated =
            fenced_update run site epoch status (can_finalize run site epoch status v) row reason
              request in
          KeepsReplies->>= (require named (refusal (text_fits 100 reason)))
            (λ u. updated >>= λ t. pure (tt {0}))
            (require-replies named (refusal (text_fits 100 reason)))
            (λ u.
              KeepsReplies->>= updated (λ t. pure (tt {0}))
                (fenced-replies run site epoch status (can_finalize run site epoch status v) row
                  reason request)
                (λ t x. refl))
            v

pub cancel_transition-replies :
    (run site actor : Uuid) (version : ℕ) (expected status : RunStatus) (reason : String)
    (terminal : Bool) (w : World)
    → (cancel_transition run site actor version expected status reason terminal
        w).1.command_idempotency
      ≡ w.command_idempotency
unfolding cancel_transition write_progress_event
cancel_transition-replies run site actor version expected status reason terminal w = ground arith

create-replies :
    (snapshot : RunSnapshot) (site actor : Uuid) (w : World)
    → (create_queued_run snapshot site actor w).1.command_idempotency ≡ w.command_idempotency
unfolding create_queued_run write_progress_event
create-replies snapshot site actor w = ground arith

lease-replies :
    (owner : String) (seconds : ℕ) (w : World)
    → (lease_next_job owner seconds w).1.command_idempotency ≡ w.command_idempotency
unfolding lease_next_job
lease-replies owner seconds w = ground arith

renew-replies :
    (site job : Uuid) (epoch seconds : ℕ) (w : World)
    → (renew_job_lease site job epoch seconds w).1.command_idempotency ≡ w.command_idempotency
unfolding renew_job_lease
renew-replies site job epoch seconds w = ground arith

complete-replies :
    (job site : Uuid) (epoch : ℕ) (w : World)
    → (complete_job job site epoch w).1.command_idempotency ≡ w.command_idempotency
unfolding complete_job
complete-replies job site epoch w = ground arith

fail-replies :
    (job site : Uuid) (epoch : ℕ) (w : World)
    → (fail_job job site epoch w).1.command_idempotency ≡ w.command_idempotency
unfolding fail_job
fail-replies job site epoch w = ground arith

enqueue-replies :
    (job : JobLease) (site : Uuid) (w : World)
    → (enqueue_job job site w).1.command_idempotency ≡ w.command_idempotency
unfolding enqueue_job
enqueue-replies job site w = ground arith

reply-Keeps :
    (site actor : Uuid) (operation : Operation) (key : String) (hash : ℕ) (payload : Payload)
    (w : World)
    → Keeps w (store_idempotent_result site actor operation key hash payload w).1
unfolding store_idempotent_result
reply-Keeps site actor operation key hash payload w =
    elim (Option-cases (select_one (is_request site actor operation key) w.command_idempotency)) [
      | inl e ↦ rw e (record { more = _; replies = refl })
      | inr (r, e) ↦ rw e (same_replies refl)
    ]

perform-Keeps : (c : Call) (w : World) → Keeps w (perform c w)
unfolding perform cancel_queued_run request_cancellation set_job_cancellation_requested uuid4
perform-Keeps (create snapshot site actor) w =
    kept_call (create_queued_run snapshot site actor) w
      (same_replies (create-replies snapshot site actor w))
perform-Keeps (enqueue job site) w =
    kept_call (enqueue_job job site) w (same_replies (enqueue-replies job site w))
perform-Keeps (lease owner seconds) w =
    kept_call (lease_next_job owner seconds) w (same_replies (lease-replies owner seconds w))
perform-Keeps (renew site job epoch seconds) w =
    kept_call (renew_job_lease site job epoch seconds) w
      (same_replies (renew-replies site job epoch seconds w))
perform-Keeps (mark run site epoch request) w =
    kept_call (mark_running run site epoch request) w
      (same_replies (mark-replies run site epoch request w))
perform-Keeps (finalize run site epoch status reason c finished request) w =
    kept_call (finalize_run run site epoch status reason c finished request) w
      (same_replies (finalize-replies run site epoch status reason c finished request w))
perform-Keeps (complete job site epoch) w =
    kept_call (complete_job job site epoch) w (same_replies (complete-replies job site epoch w))
perform-Keeps (fail job site epoch) w =
    kept_call (fail_job job site epoch) w (same_replies (fail-replies job site epoch w))
perform-Keeps (cancel_now run site actor version) w =
    kept_call (cancel_queued_run run site actor version) w (
      same_replies (
        cancel_transition-replies run site actor version solver_queued solver_cancelled "cancelled"
          true w))
perform-Keeps (request_cancel run site actor version) w =
    kept_call (request_cancellation run site actor version) w (
      same_replies (
        cancel_transition-replies run site actor version solver_running cancellation_requested
          "cancellation_requested" false w))
perform-Keeps (flag run site) w =
    kept_call (set_job_cancellation_requested run site) w (same_replies refl)
perform-Keeps (reply site actor operation key hash payload) w =
    kept_call (store_idempotent_result site actor operation key hash payload) w
      (reply-Keeps site actor operation key hash payload w)
perform-Keeps (tick now clock) w = same_replies refl
perform-Keeps (claim run site epoch) w =
    kept_call (claim_epoch run site epoch) w (same_replies (claim-replies run site epoch w))
perform-Keeps draw w = same_replies refl
perform-Keeps (hold ids) w = same_replies refl

-- A reply that is found is found after any calls.
pub performs-finds_reply :
    (cs : List Call) (p : IdempotentResult → Bool) (w : World) {r : IdempotentResult}
    → select_one p w.command_idempotency ≡ some r
    → select_one p (performs cs w).command_idempotency ≡ some r
unfolding performs
performs-finds_reply [] p w h = h
performs-finds_reply (c ∷ cs) p w h =
    let k = perform-Keeps c w in
    performs-finds_reply cs p (perform c w)
      (ap (select_one p) k.replies ∙ select_one-append p w.command_idempotency k.more h)
