-- ===== src/UseCases/Cancel.antt =====
-- `cancel_schedule_run` and `_resolve_lost_race`.
use Prim.Native.String.{count}
use roster_ai.Base.{
  ℕ, ◌+◌, String, false, not, ◌&&◌, Option, none, some, List, [], ◌∷◌, if◌then◌else◌, str_eq, leb,
  ◌==◌,
}
use roster_ai.Contracts.RunStatus.{
  RunStatus, status_in, solver_queued, solver_running, solver_cancelled, cancellation_requested,
  non_terminal,
}
use roster_ai.Contracts.JobLease.{Uuid, max_idempotency_key_length}
use roster_ai.Store.{
  World, Body, cancel_body, Cancellation, IdempotentResult, Payload, cancellation, Fault,
  run_not_cancellable, not_cancellable, idempotency_key_conflict, stale_resource_version,
  cancel_schedule_run_error, value_error,
}
use roster_ai.Store as Ops
use roster_ai.Lifecycle.Calls.{Call, performs}
use roster_ai.UseCases.Sessions.{read}
use roster_ai.Store.Tx.{transaction, Tx, Result, ok, raised, pure, raise, require, ◌>>=◌, ◌>>◌}
use roster_ai.Repository.Rows.{RunState, get_run_state}
use roster_ai.Repository.Transitions.{cancel_queued_run, request_cancellation}
use roster_ai.Repository.Jobs.{set_job_cancellation_requested, get_job_cancellation_requested}
use roster_ai.Repository.Idempotency.{get_idempotent_result, store_idempotent_result}

-- `_from_payload`; the operation's name keeps another command's payload from its key
abbrev pub from_payload : Payload → Tx (Option Cancellation)
from_payload (cancellation c) = pure (some c)
from_payload _ = raise value_error

-- The hash of a command's body: `contract_digest(body)[2]`.
module _ (contract_digest : Body → ℕ) (run site actor : Uuid) (version : ℕ) (key : String) where
  abbrev pub body_hash : ℕ
  body_hash = contract_digest (cancel_body run version)

  abbrev pub replay : IdempotentResult → Tx (Option Cancellation)
  replay stored =
      if not (stored.body_hash == body_hash)
      then raise idempotency_key_conflict
      else from_payload stored.response_payload

  abbrev pub lost_to : Option RunState → Tx (Option Cancellation)
  lost_to none = pure none
  lost_to (some current) =
      if not (current.resource_version == version)
      then raise stale_resource_version
      else raise not_cancellable

  abbrev pub lost_or_replayed : Option IdempotentResult → Tx (Option Cancellation)
  lost_or_replayed (some replayed) = replay replayed
  lost_or_replayed none = do current ← get_run_state run site; lost_to current

  -- `_resolve_lost_race`
  unfoldable pub resolve_lost_race : Tx (Option Cancellation)
  unfolding get_run_state get_idempotent_result
  resolve_lost_race = do
    replayed ← get_idempotent_result site actor (Ops.cancel_schedule_run run) key
    lost_or_replayed replayed

  abbrev pub acknowledged : RunStatus → String → ℕ → Cancellation
  acknowledged status reason at = record {
    schedule_run_id = run;
    status = status;
    reason = reason;
    resource_version = at;
    cancellation_requested = false;
  }

  -- The body of the `try`, after the flag.
  abbrev pub cancel_at : RunState → Tx Cancellation
  cancel_at state = elim state.status [
    | solver_queued ↦
        cancel_queued_run run site actor version
        >> pure (acknowledged solver_cancelled "cancelled" (state.resource_version + 1))
    | solver_running ↦
        request_cancellation run site actor version
        >> pure (
            acknowledged cancellation_requested "cancellation_requested"
              (state.resource_version + 1))
    | _ ↦ pure (acknowledged cancellation_requested "cancellation_requested" state.resource_version)
  ]

  -- `replace(result, cancellation_requested=…)`, the reply's row, and the return
  abbrev pub store_reply : Cancellation → Tx (Option Cancellation)
  store_reply result = do
    flag ← get_job_cancellation_requested run site
    store_idempotent_result site actor (Ops.cancel_schedule_run run) key body_hash
        (cancellation (record result { cancellation_requested = flag }))
    pure (some (record result { cancellation_requested = flag }))

  -- if state.status in {"solver_queued", "solver_running"}
  abbrev pub flag_job : RunState → Tx (Unit {0})
  flag_job state =
      if status_in state.status (solver_queued ∷ solver_running ∷ [])
      then set_job_cancellation_requested run site
      else pure tt

  -- `except` leaves the function by the handler's value, and `else` goes on to the reply.
  abbrev pub settle : Result Cancellation → Tx (Option Cancellation)
  settle (ok result) = store_reply result
  settle (raised run_not_cancellable) = resolve_lost_race
  settle (raised e) = raise e

  abbrev pub attempt : RunState → Tx (Option Cancellation)
  attempt state = flag_job state >> λ w. settle (cancel_at state w).0 (cancel_at state w).1

  abbrev pub with_stored : RunState → Option IdempotentResult → Tx (Option Cancellation)
  with_stored state (some stored) = replay stored
  with_stored state none = do
    require (state.resource_version == version) stale_resource_version
    require (status_in state.status non_terminal) not_cancellable
    attempt state

  abbrev pub with_state : World → Option RunState → Tx (Option Cancellation)
  with_state before none = pure none
  with_state before (some state) = do
    stored ← read before (get_idempotent_result site actor (Ops.cancel_schedule_run run) key)
    with_stored state stored

  -- The reads before the first write see the store `before`; the writes fall on the store as other
  -- sessions have left it by then. len(idempotency_key) counts characters.
  unfoldable pub cancel_schedule_run : World → Tx (Option Cancellation)
  unfolding get_run_state get_idempotent_result store_idempotent_result
      set_job_cancellation_requested get_job_cancellation_requested cancel_queued_run
      request_cancellation resolve_lost_race
  cancel_schedule_run before = do
    require (not (str_eq key "") && leb (count key) max_idempotency_key_length)
        cancel_schedule_run_error
    state ← read before (get_run_state run site)
    with_state before state

  -- The command in its transaction, with what other sessions commit between its reads and its writes.
  unfoldable pub cancel_command : List Call → Tx (Option Cancellation)
  unfolding cancel_schedule_run performs transaction
  cancel_command others w = transaction (cancel_schedule_run w) (performs others w)
