-- ===== src/Lifecycle/Written.antt =====
-- The parts of a transition: the steps that leave runs and streams alone, and the event's writer.
use roster_ai.Base.{
  ℕ, suc, ◌+◌, ◌≡◌, refl, ap, ◌∙◌, Bool, true, false, Option, none, some, [], ◌∷◌, ◌++◌, arith,
  String,
}
use roster_ai.Contracts.RunStatus.{RunStatus}
use roster_ai.Contracts.JobLease.{Uuid, Instant}
use roster_ai.Contracts.Scheduling.{Candidate}
use roster_ai.Store.{World, ScheduleRun, PersistedEvent, Fault}
use roster_ai.Store.Tx.{ok, require, >>=-eq-ok, ◌>>◌}
use roster_ai.Repository.Rows.{or_uuid4, run_job}
use roster_ai.Repository.Fence.{claim_epoch}
use mathlib.Core.Option
use roster_ai.Repository.Progress.{
  actor_for_run, or_no_result, actor_or_opener, first_event, max_sequence, progress_event,
  write_progress_event,
}
use roster_ai.Repository.Transitions.{
  insert_candidate, candidate_fits, refusal, all_fit, add_candidate, record_transition,
}

-- The steps that leave the runs and their streams alone.
pub record SameRuns (w v : World) : Type 0 where
  pub runs : v.schedule_run ≡ w.schedule_run
  pub events : v.persisted_event ≡ w.persisted_event

pub SameRuns-refl : (w : World) → SameRuns w w
SameRuns-refl w = record { runs = refl; events = refl }

pub SameRuns-trans : {u v w : World} → SameRuns u v → SameRuns v w → SameRuns u w
SameRuns-trans a b = record { runs = b.runs ∙ a.runs; events = b.events ∙ a.events }

pub require-SameRuns : (b : Bool) (x : Fault) (w : World) → SameRuns w (require b x w).1
require-SameRuns true x w = SameRuns-refl w
require-SameRuns false x w = SameRuns-refl w

pub insert_candidate-SameRuns :
    (run site : Uuid) (c : Option Candidate) (w : World)
    → SameRuns w (insert_candidate run site c w).1
insert_candidate-SameRuns run site none w = SameRuns-refl w
insert_candidate-SameRuns run site (some c) w =
    elim (candidate_fits run site c w)
      as (λ b.
        SameRuns w
          ((require b (refusal (all_fit c.assignments)) >> add_candidate run site c) w).1) [
            | true ↦ record { runs = refl; events = refl }
            | false ↦ SameRuns-refl w
          ]

or_opener-SameRuns : (o : Option Uuid) (w : World) → SameRuns w (or_no_result o w).1
or_opener-SameRuns none w = record { runs = refl; events = refl }
or_opener-SameRuns (some a) w = record { runs = refl; events = refl }

actor-SameRuns : (run : Uuid) (o : Option Uuid) (w : World) → SameRuns w (actor_or_opener run o w).1
actor-SameRuns run (some a) w = record { runs = refl; events = refl }
actor-SameRuns run none w =
    or_opener-SameRuns (Option.map (λ e. e.actor_id) (first_event run w.persisted_event)) w

pub actor_for_run-SameRuns : (run site : Uuid) (w : World) → SameRuns w (actor_for_run run site w).1
unfolding actor_for_run
actor_for_run-SameRuns run site w =
    actor-SameRuns run (Option.map (λ j. j.actor_id) (run_job run site w)) w

pub or_uuid4-SameRuns : (o : Option Uuid) (w : World) → SameRuns w (or_uuid4 o w).1
unfolding or_uuid4
or_uuid4-SameRuns none w = record { runs = refl; events = refl }
or_uuid4-SameRuns (some u) w = record { runs = refl; events = refl }

pub claim_epoch-SameRuns :
    (run site : Uuid) (epoch : ℕ) (w : World) → SameRuns w (claim_epoch run site epoch w).1
unfolding claim_epoch
claim_epoch-SameRuns run site epoch w = ground arith

-- The stream of `run` has one more event, and the runs are as they were.
pub record Written (w w' : World) (run : Uuid) (status : RunStatus) (version : ℕ) : Type 0 where
  pub event : PersistedEvent
  pub stream : event.stream_id ≡ run
  pub next : event.sequence ≡ max_sequence run w.persisted_event + 1
  pub at_status : event.status ≡ status
  pub at_version : event.resource_version ≡ version
  pub runs : w'.schedule_run ≡ w.schedule_run
  pub events : w'.persisted_event ≡ w.persisted_event ++ event ∷ []

pub write_progress_event-Written :
    (run site actor : Uuid) (status : RunStatus) (reason : Option String) (version : ℕ)
    (request : Uuid) (w v : World) {t : Instant} {w' : World}
    → SameRuns w v
    → write_progress_event run site actor status reason version request v ≡ (ok t, w')
    → Written w w' run status version
unfolding write_progress_event
write_progress_event-Written run site actor status reason version request w v same h = record {
  event =
      progress_event run site actor status reason version request v.next_uuid
        (record v { next_uuid = suc v.next_uuid });
  stream = refl;
  next = ap (λ es. max_sequence run es + 1) same.events;
  at_status = refl;
  at_version = refl;
  runs = ground arith;
  events = ground arith;
}

pub record_transition-Written :
    (run site : Uuid) (status : RunStatus) (reason : Option String) (request : Option Uuid)
    (row : ScheduleRun) (w : World) {t : Instant} {w' : World}
    → record_transition run site status reason request row w ≡ (ok t, w')
    → Written w w' run status row.resource_version
unfolding record_transition
record_transition-Written run site status reason request row w h =
    let actor = >>=-eq-ok (actor_for_run run site) _ w h in
    let w1 = (actor_for_run run site w).1 in
    let req = >>=-eq-ok (or_uuid4 request) _ w1 actor.2 in
    let same1 = actor_for_run-SameRuns run site w in
    let same2 = or_uuid4-SameRuns request w1 in
    write_progress_event-Written run site actor.0 status reason row.resource_version req.0 w
      (or_uuid4 request w1).1 (SameRuns-trans same1 same2) req.2
