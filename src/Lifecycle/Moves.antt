-- ===== src/Lifecycle/Moves.antt =====
-- What a call that returned did to the runs and their streams, one constructor for each way.
use roster_ai.Base.{◌+◌, ◌≡◌, Bool, true, none, some, [], ◌∷◌, ◌++◌}
use roster_ai.Base.Table.{select_one, update}
use roster_ai.Contracts.RunStatus.{solver_queued}
use roster_ai.Contracts.JobLease.{Uuid}
use roster_ai.Store.{World, ScheduleRun, PersistedEvent}
use roster_ai.Repository.Rows.{is_run, row_of}
use roster_ai.Repository.Progress.{max_sequence}
use roster_ai.Lifecycle.Edges.{◌⟶◌}

-- The event that a transition of `row` writes.
pub record Recorded (w : World) (run : Uuid) (row : ScheduleRun) (e : PersistedEvent) : Type 0 where
  pub stream : e.stream_id ≡ run
  pub next : e.sequence ≡ max_sequence run w.persisted_event + 1
  pub status : e.status ≡ row.status
  pub version : e.resource_version ≡ row.resource_version

-- A statement `UPDATE … SET f WHERE p` that takes rows of one run along an edge.
pub record IsMove (run site : Uuid) (p : ScheduleRun → Bool) (f : ScheduleRun → ScheduleRun)
    : Type 0 where
  pub own : (x : ScheduleRun) → p x ≡ true → is_run run site x ≡ true
  pub edge : (x : ScheduleRun) → p x ≡ true → x.status ⟶ (f x).status
  pub same_id : (x : ScheduleRun) → (f x).id ≡ x.id
  pub same_site : (x : ScheduleRun) → (f x).site_id ≡ x.site_id
  pub version : (x : ScheduleRun) → (f x).resource_version ≡ x.resource_version + 1

pub data Moves (w w' : World) : Type 0 where
  kept : w'.schedule_run ≡ w.schedule_run → w'.persisted_event ≡ w.persisted_event → Moves w w'
  moved :
      (run site : Uuid) (p : ScheduleRun → Bool) (f : ScheduleRun → ScheduleRun) (r : ScheduleRun)
      (e : PersistedEvent)
      → IsMove run site p f
      → select_one p w.schedule_run ≡ some r
      → w'.schedule_run ≡ update p f w.schedule_run
      → Recorded w run (f r) e
      → w'.persisted_event ≡ w.persisted_event ++ e ∷ []
      → Moves w w'
  added :
      (r : ScheduleRun) (e : PersistedEvent)
      → r.status ≡ solver_queued
      → r.resource_version ≡ 1
      → row_of r.id w ≡ none
      → w'.schedule_run ≡ w.schedule_run ++ r ∷ []
      → Recorded w r.id r e
      → w'.persisted_event ≡ w.persisted_event ++ e ∷ []
      → Moves w w'
