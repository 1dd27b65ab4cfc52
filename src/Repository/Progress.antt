-- ===== src/Repository/Progress.antt =====
-- The run's event stream: its head, its reader, and the writer that every transition calls.
use Prim.Native.Nat.{max}
use mathlib.Core.Option
use roster_ai.Base.{
  ℕ, ◌+◌, String, Option, none, some, List, [], ◌∷◌, ◌++◌, ◌==◌, ltb, if◌then◌else◌,
}
use roster_ai.Contracts.RunStatus.{RunStatus, run_event_types}
use roster_ai.Contracts.JobLease.{Uuid, Instant}
use roster_ai.Store.{World, PersistedEvent, no_result_found}
use roster_ai.Store.Tx.{Tx, pure, raise, gets, modify, ◌>>=◌, ◌>>◌}
use roster_ai.Repository.Rows.{uuid4, run_job}

-- coalesce(max(sequence), 0) over the events of a stream
unfoldable pub max_sequence : Uuid → List PersistedEvent → ℕ
max_sequence stream [] = 0
max_sequence stream (e ∷ es) =
    let rest = max_sequence stream es in if e.stream_id == stream then max e.sequence rest else rest

-- The row that `_write_progress_event` inserts.
abbrev pub progress_event :
    Uuid → Uuid → Uuid → RunStatus → Option String → ℕ → Uuid → Uuid → World → PersistedEvent
progress_event run site actor status reason resource_version request_id activity w = record {
  site_id = site;
  stream_id = run;
  sequence = max_sequence run w.persisted_event + 1;
  event_type = run_event_types status;
  occurred_at = w.clock;
  resource_version = resource_version;
  request_id = request_id;
  actor_id = actor;
  activity_id = activity;
  status = status;
  reason = reason;
}

abbrev append_event : PersistedEvent → World → World
append_event e w = record w { persisted_event = w.persisted_event ++ e ∷ [] }

-- `_write_progress_event`; no caller passes `occurred_at`
unfoldable pub write_progress_event :
    Uuid → Uuid → Uuid → RunStatus → Option String → ℕ → Uuid → Tx Instant
unfolding uuid4
write_progress_event run site actor status reason resource_version request_id = do
  activity ← uuid4
  w ← gets (λ w. w)
  modify (
      append_event
        (progress_event run site actor status reason resource_version request_id activity w))
  pure w.clock

-- The least sequence's event of the stream, by ORDER BY sequence LIMIT 1.
unfoldable pub first_event : Uuid → List PersistedEvent → Option PersistedEvent
first_event run [] = none
first_event run (e ∷ es) =
    let rest = first_event run es in
    if e.stream_id == run
    then elim rest [ none ↦ some e | some d ↦ if ltb d.sequence e.sequence then some d else some e ]
    else rest

abbrev pub or_no_result : Option Uuid → Tx Uuid
or_no_result none = raise no_result_found
or_no_result (some a) = pure a

abbrev pub actor_or_opener : Uuid → Option Uuid → Tx Uuid
actor_or_opener run (some a) = pure a
actor_or_opener run none = do
  opener ← gets (λ w. Option.map (λ e. e.actor_id) (first_event run w.persisted_event))
  or_no_result opener

-- `_actor_for_run`
unfoldable pub actor_for_run : Uuid → Uuid → Tx Uuid
unfolding first_event
actor_for_run run site = do
  owner ← gets (λ w. Option.map (λ j. j.actor_id) (run_job run site w))
  actor_or_opener run owner
