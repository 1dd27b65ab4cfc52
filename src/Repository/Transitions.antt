-- ===== src/Repository/Transitions.antt =====
-- The writers of `schedule_run.status`: `create_queued_run`, `_cancel_transition` and its two
-- callers, `mark_running`, `finalize_run`.

use Prim.Native.String.{count as characters}
use roster_ai.Base.{
  leb, not, is_some, any, ltb, str_eq, ◌||◌, List, ℕ, ◌+◌, String, Bool, true, false, ◌&&◌, Option,
  none, some, [], ◌∷◌, ◌++◌, map, ◌==◌, if◌then◌else◌,
}
use roster_ai.Contracts.RunStatus.{
  RunStatus, status_eq, status_in, is_terminal, finalize_expected, solver_queued, solver_running,
  cancellation_requested, solver_cancelled, solver_completed,
}
use roster_ai.Contracts.JobLease.{Uuid, Instant}
use roster_ai.Contracts.Scheduling.{
  RunSnapshot, Candidate, Assignment, SolverStatus, optimal, feasible,
}
use roster_ai.Store.{
  World, ScheduleRun, AssignmentRow, value_error, integrity_error, data_error, Fault,
  run_not_cancellable,
}
use roster_ai.Store.Tx.{Tx, ok, pure, raise, gets, modify, require, ◌>>=◌, ◌>>◌}
use roster_ai.Repository.Rows.{uuid4, or_uuid4, is_run, row_of, run_row, update_run}
use roster_ai.Repository.Progress.{write_progress_event, actor_for_run}
use roster_ai.Repository.Fence.{has_current_epoch, claim_epoch, raise_transition_failure}

-- A new `schedule_run` row; its `resource_version` has the column's default, 1.
abbrev pub queued_run : RunSnapshot → Uuid → ScheduleRun
queued_run snapshot site = record {
  id = snapshot.schedule_run_id;
  site_id = site;
  run_snapshot_id = snapshot.snapshot_id;
  status = solver_queued;
  reason = none;
  candidate_schedule_version_id = none;
  resource_version = 1;
  finished_at = none;
}

-- The primary key refuses an id that a row has.
unfoldable pub create_queued_run : RunSnapshot → Uuid → Uuid → Tx (Unit {0})
unfolding uuid4
create_queued_run snapshot site actor = do
  taken ← gets (λ w. is_some (row_of snapshot.schedule_run_id w))
  require (not taken) integrity_error
  modify λ w. record w {
    run_snapshot = w.run_snapshot ++ record { site_id = site; payload = snapshot } ∷ [];
    schedule_run = w.schedule_run ++ queued_run snapshot site ∷ [];
  }
  request ← uuid4
  write_progress_event snapshot.schedule_run_id site actor solver_queued none 1 request
  pure tt

-- WHERE id, site_id, status and resource_version are the expected ones
abbrev pub is_at : Uuid → Uuid → RunStatus → ℕ → ScheduleRun → Bool
is_at run site expected version r =
    is_run run site r && status_eq r.status expected && r.resource_version == version

abbrev pub cancelled_row : RunStatus → String → Bool → Instant → ScheduleRun → ScheduleRun
cancelled_row status reason terminal now r = record r {
  status = status;
  reason = some reason;
  resource_version = r.resource_version + 1;
  finished_at = if terminal then some now else r.finished_at;
}

abbrev require_row : Option ScheduleRun → Tx ScheduleRun
require_row none = raise run_not_cancellable
require_row (some r) = pure r

unfoldable pub cancel_transition :
    Uuid → Uuid → Uuid → ℕ → RunStatus → RunStatus → String → Bool → Tx (Unit {0})
unfolding update_run uuid4
cancel_transition run site actor version expected status reason terminal = do
  now ← gets (λ w. w.now)
  updated ← update_run (is_at run site expected version) (cancelled_row status reason terminal now)
  row ← require_row updated
  request ← uuid4
  write_progress_event run site actor status (some reason) row.resource_version request
  pure tt

unfoldable pub cancel_queued_run : Uuid → Uuid → Uuid → ℕ → Tx (Unit {0})
unfolding cancel_transition
cancel_queued_run run site actor version =
    cancel_transition run site actor version solver_queued solver_cancelled "cancelled" true

unfoldable pub request_cancellation : Uuid → Uuid → Uuid → ℕ → Tx (Unit {0})
unfolding cancel_transition
request_cancellation run site actor version =
    cancel_transition run site actor version solver_running cancellation_requested
      "cancellation_requested" false

-- The compare-and-set of the two fenced writers, with what each does when no row fits.
abbrev pub fenced_row : Uuid → Uuid → ℕ → RunStatus → Option ScheduleRun → Tx ScheduleRun
fenced_row run site epoch target none = raise_transition_failure run site epoch target
fenced_row run site epoch target (some r) = pure r

abbrev pub running_row : ScheduleRun → ScheduleRun
running_row r = record r { status = solver_running; resource_version = r.resource_version + 1 }

-- The end of both fenced writers: the event, by the run's actor, with `request_id or uuid4()`.
unfoldable pub record_transition :
    Uuid → Uuid → RunStatus → Option String → Option Uuid → ScheduleRun → Tx Instant
unfolding or_uuid4
record_transition run site status reason request_id row = do
  actor ← actor_for_run run site
  request ← or_uuid4 request_id
  write_progress_event run site actor status reason row.resource_version request

-- The compare-and-set that ends `mark_running` and `finalize_run`: UPDATE … SET f WHERE p, the
-- failure when no row fits, and the event.
unfoldable pub fenced_update :
    Uuid
    → Uuid
    → ℕ
    → RunStatus
    → (ScheduleRun → Bool)
    → (ScheduleRun → ScheduleRun)
    → Option String
    → Option Uuid
    → Tx Instant
unfolding update_run raise_transition_failure record_transition
fenced_update run site epoch status p f reason request_id = do
  updated ← update_run p f
  row ← fenced_row run site epoch status updated
  record_transition run site status reason request_id row

-- The WHERE clause of `mark_running`, whose EXISTS reads the store `w`.
abbrev pub can_start : Uuid → Uuid → ℕ → World → ScheduleRun → Bool
can_start run site epoch w r =
    is_run run site r && status_eq r.status solver_queued && has_current_epoch run site epoch w

unfoldable pub mark_running : Uuid → Uuid → ℕ → Option Uuid → Tx Instant
unfolding claim_epoch fenced_update
mark_running run site epoch request_id = do
  claim_epoch run site epoch
  w ← gets (λ w. w)
  fenced_update run site epoch solver_running (can_start run site epoch w) running_row none
      request_id

-- `ck_schedule_version_feasible_status`
abbrev pub has_solution : SolverStatus → Bool
has_solution optimal = true
has_solution feasible = true
has_solution _ = false

-- The primary key of `schedule_version`, `uq_schedule_version_run`, the check on its status and its
-- reference to the run. The other references are to tables outside the model.
abbrev pub version_fits : Uuid → Uuid → Candidate → World → Bool
version_fits run site c w =
    has_solution c.feasible_solver_status
    && not (any (λ v. v.id == c.schedule_version_id || v.schedule_run_id == run) w.schedule_version)
    && is_some (run_row run site w)

-- A text of String(n) has n characters at most.
abbrev pub text_fits : ℕ → Option String → Bool
text_fits n none = true
text_fits n (some s) = leb (characters s) n

-- The text columns of `schedule_assignment` that the model has.
abbrev pub texts_fit : Assignment → Bool
texts_fit a =
    text_fits 200 (some a.record_id)
    && text_fits 200 (some a.worker_id)
    && text_fits 200 (some a.task_id)
    && text_fits 200 a.shift_id
    && text_fits 200 a.lock_ref

abbrev pub all_fit : List Assignment → Bool
all_fit [] = true
all_fit (a ∷ rest) = texts_fit a && all_fit rest

-- `uq_schedule_assignment_record`, against the rows of the table and the candidate's next ones, and
-- `ck_schedule_assignment_interval`
abbrev pub same_record : Uuid → Assignment → AssignmentRow → Bool
same_record version a r =
    r.schedule_version_id == version && str_eq r.assignment.record_id a.record_id

abbrev pub assignments_fit : Uuid → List AssignmentRow → List Assignment → Bool
assignments_fit version rows [] = true
assignments_fit version rows (a ∷ rest) =
    ltb a.start_minute a.end_minute
    && texts_fit a
    && not (any (same_record version a) rows)
    && not (any (λ b. str_eq b.record_id a.record_id) rest)
    && assignments_fit version rows rest

abbrev pub candidate_fits : Uuid → Uuid → Candidate → World → Bool
candidate_fits run site c w =
    version_fits run site c w
    && assignments_fit c.schedule_version_id w.schedule_assignment c.assignments

-- The rows of `schedule_version` and `schedule_assignment` that a candidate adds.
abbrev pub add_candidate : Uuid → Uuid → Candidate → Tx (Option Uuid)
add_candidate run site c = do
  modify λ w. record w {
    schedule_version =
        w.schedule_version
        ++ record { id = c.schedule_version_id; site_id = site; schedule_run_id = run; payload = c }
          ∷ [];
    schedule_assignment =
        w.schedule_assignment
        ++ map
            (λ a. record {
              site_id = site;
              schedule_version_id = c.schedule_version_id;
              assignment = a;
            })
            c.assignments;
  }
  pure (some c.schedule_version_id)

-- PostgreSQL raises DataError for a text that is too long, and IntegrityError for a constraint.
abbrev pub refusal : Bool → Fault
refusal true = integrity_error
refusal false = data_error

-- The inserts of a candidate. One that fails aborts the transaction, so that the constraints of all
-- its rows are tested before the first.
abbrev pub insert_candidate : Uuid → Uuid → Option Candidate → Tx (Option Uuid)
insert_candidate run site none w = (ok none, w)
insert_candidate run site (some c) w =
    (require (candidate_fits run site c w) (refusal (all_fit c.assignments))
        >> add_candidate run site c)
      w

-- `candidate.created_at if candidate else (finished_at or now)`
abbrev pub finish_time : Option Candidate → Option Instant → Instant → Instant
finish_time (some c) finished now = c.created_at
finish_time none (some t) now = t
finish_time none none now = now

abbrev pub finalized_row :
    RunStatus → Option String → Option Uuid → Instant → ScheduleRun → ScheduleRun
finalized_row status reason candidate finished r = record r {
  status = status;
  reason = reason;
  candidate_schedule_version_id = candidate;
  resource_version = r.resource_version + 1;
  finished_at = some finished;
}

-- The WHERE clause of `finalize_run`.
abbrev pub can_finalize : Uuid → Uuid → ℕ → RunStatus → World → ScheduleRun → Bool
can_finalize run site epoch status w r =
    is_run run site r
    && status_in r.status (finalize_expected status)
    && has_current_epoch run site epoch w

-- `ck_schedule_run_candidate_completed`: a row that is updated names a candidate only when it is
-- completed.
abbrev pub may_name : RunStatus → Option Uuid → Bool
may_name status none = true
may_name status (some c) = status_eq status solver_completed

-- The new values of the row that is updated, if there is one; `reason` is a String(100).
abbrev pub update_allowed : Uuid → Uuid → ℕ → RunStatus → Option String → Option Uuid → World → Bool
update_allowed run site epoch status reason candidate w =
    text_fits 100 reason && may_name status candidate
    || not (any (can_finalize run site epoch status w) w.schedule_run)

unfoldable pub finalize_run :
    Uuid
    → Uuid
    → ℕ
    → RunStatus
    → Option String
    → Option Candidate
    → Option Instant
    → Option Uuid
    → Tx (Unit {0})
unfolding claim_epoch fenced_update is_terminal
finalize_run run site epoch status reason candidate finished_at request_id = do
  require (is_terminal status) value_error
  claim_epoch run site epoch
  candidate_id ← insert_candidate run site candidate
  w ← gets (λ w. w)
  require (update_allowed run site epoch status reason candidate_id w)
      (refusal (text_fits 100 reason))
  fenced_update run site epoch status (can_finalize run site epoch status w)
      (finalized_row status reason candidate_id (finish_time candidate finished_at w.clock)) reason
      request_id
  pure tt
