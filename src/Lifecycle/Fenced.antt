-- ===== src/Lifecycle/Fenced.antt =====
-- `mark_running` and `finalize_run` are moves.
use roster_ai.Base.{
  ℕ, ◌+◌, ◌≡◌, refl, sym, subst, ap, ◌∙◌, Bool, true, Option, none, some, [], ◌∷◌, ◌++◌, arith,
  String, if◌then◌else◌, ◌==◌,
}
use roster_ai.Base.Table.{select_one, select_one_holds, select_one-update, update}
use roster_ai.Base.Unique.{UniqueBy, select_by_key}
use roster_ai.Repository.Rows.{row_of}
use roster_ai.Contracts.RunStatus.{
  RunStatus, eq_of_status_eq, is_terminal, solver_queued, solver_running,
}
use roster_ai.Contracts.JobLease.{Uuid, Instant}
use roster_ai.Contracts.Scheduling.{Candidate}
use roster_ai.Store.{World, ScheduleRun, value_error}
use roster_ai.Store.Tx.{ok, ◌>>=◌, require->>-eq-ok, >>=-eq-ok, Tx-eq-ok}
use roster_ai.Repository.Fence.{claim_epoch, raise_transition_failure}
use mathlib.Core.Option
use roster_ai.Repository.Progress.{max_sequence}
use roster_ai.Repository.Transitions.{
  can_start, running_row, can_finalize, finalized_row, insert_candidate, update_allowed,
  finish_time, record_transition, fenced_row, fenced_update, mark_running, finalize_run,
}
use roster_ai.Lifecycle.Edges.{◌⟶◌, start, finalize_edge}
use roster_ai.Lifecycle.Moves.{IsMove, Moves, moved}
use roster_ai.Lifecycle.Written.{
  SameRuns, SameRuns-trans, Written, record_transition-Written, claim_epoch-SameRuns,
  insert_candidate-SameRuns,
}

raise_transition_failure-raises :
    (run site : Uuid) (epoch : ℕ) (target : RunStatus) (w : World) {r : ScheduleRun}
    → (raise_transition_failure run site epoch target w).0 ≡ ok r
    → ⊥
unfolding raise_transition_failure
raise_transition_failure-raises run site epoch target w h = ground arith

-- A compare-and-set that returned found its row.
pub record Updated (w w' : World) (run : Uuid) (status : RunStatus) (p : ScheduleRun → Bool)
    (f : ScheduleRun → ScheduleRun) : Type 0 where
  pub row : ScheduleRun
  pub found : select_one p w.schedule_run ≡ some row
  pub written :
      Written
        (record w { schedule_run = update p f w.schedule_run })
        w'
        run
        status
        (f row).resource_version

module _ (run site : Uuid) (epoch : ℕ) (status : RunStatus) (p : ScheduleRun → Bool)
    (f : ScheduleRun → ScheduleRun) (reason : Option String) (request : Option Uuid) (w : World)
    {t : Instant} {w' : World} where
  fenced_rest :
      (o : Option ScheduleRun)
      → select_one p w.schedule_run ≡ o
      → (fenced_row run site epoch status (Option.map f o)
            >>= record_transition run site status reason request)
          (record w { schedule_run = update p f w.schedule_run })
        ≡ (ok t, w')
      → Updated w w' run status p f
  fenced_rest none e h =
      let got = >>=-eq-ok (raise_transition_failure run site epoch status) _ _ h in
      absurd (raise_transition_failure-raises run site epoch status _ got.1)
  fenced_rest (some r) e h = record {
    row = r;
    found = e;
    written = record_transition-Written run site status reason request (f r) _ h;
  }

  fenced_update-Updated :
      fenced_update run site epoch status p f reason request w ≡ (ok t, w')
      → Updated w w' run status p f
  unfolding fenced_update
  fenced_update-Updated h = fenced_rest (select_one p w.schedule_run) refl h

-- What a fenced writer that returned did: its compare-and-set moved the run to `status`, and what
-- it did before is in `before`, which has the runs and the streams of `w`.
pub record IsFencedMove (run site : Uuid) (status : RunStatus) (w w' : World) : Type 0 where
  pub fits : ScheduleRun → Bool
  pub edit : ScheduleRun → ScheduleRun
  pub before : World
  pub move : IsMove run site fits edit
  pub at_status : (x : ScheduleRun) → (edit x).status ≡ status
  pub same : SameRuns w before
  pub updated : Updated before w' run status fits edit

pub IsFencedMove-Moves :
    {w w' : World} (run site : Uuid) (status : RunStatus)
    → IsFencedMove run site status w w'
    → Moves w w'
IsFencedMove-Moves {w} {w'} run site status m =
    let u = m.updated in
    moved run site m.fits m.edit u.row u.written.event m.move
      (subst (λ rs. select_one m.fits rs ≡ some u.row) m.same.runs u.found)
      (u.written.runs ∙ ap (update m.fits m.edit) m.same.runs)
      (record {
        stream = u.written.stream;
        next = u.written.next ∙ ap (λ es. max_sequence run es + 1) m.same.events;
        status = u.written.at_status ∙ sym (m.at_status u.row);
        version = u.written.at_version;
      })
      (u.written.events ∙ ap (λ es. es ++ u.written.event ∷ []) m.same.events)

-- The run's row, by its id, after the writer.
pub IsFencedMove-row :
    {w w' : World} (run site : Uuid) (status : RunStatus)
    → UniqueBy (λ (r : ScheduleRun). r.id) w.schedule_run
    → IsFencedMove run site status w w'
    → (r : ScheduleRun) × (row_of run w' ≡ some r) × (r.status ≡ status)
IsFencedMove-row {w} {w'} run site status unique m =
    let u = m.updated in
    let rs = m.before.schedule_run in
    let found =
      select_by_key (λ r. r.id) run m.fits rs
        (subst (UniqueBy (λ (r : ScheduleRun). r.id)) (sym m.same.runs) unique)
        (λ x t. let own = m.move.own x t in ground arith) u.found in
    (
      m.edit u.row,
      ap (select_one (λ r. r.id == run)) u.written.runs
          ∙ select_one-update (λ r. r.id == run) m.fits m.edit rs
              (λ x. ap (λ a. a == run) (m.move.same_id x))
          ∙ ap (Option.map (λ x. if m.fits x then m.edit x else x)) found
          ∙ rw (select_one_holds m.fits rs u.found) refl,
      m.at_status u.row,
    )

can_start-IsMove :
    (run site : Uuid) (epoch : ℕ) (w : World)
    → IsMove run site (can_start run site epoch w) running_row
can_start-IsMove run site epoch w = record {
  own = λ x h. ground arith;
  edge = λ x h.
      subst (λ s. s ⟶ solver_running) (sym (eq_of_status_eq x.status solver_queued (ground arith)))
        start;
  same_id = λ x. refl;
  same_site = λ x. refl;
  version = λ x. refl;
}

can_finalize-IsMove :
    (run site : Uuid) (epoch : ℕ) (status : RunStatus) (w : World) (reason : Option String)
    (c : Option Uuid) (finished : Instant)
    → is_terminal status ≡ true
    → IsMove run site
        (can_finalize run site epoch status w)
        (finalized_row status reason c finished)
can_finalize-IsMove run site epoch status w reason c finished t = record {
  own = λ x h. ground arith;
  edge = λ x h. finalize_edge x.status status t (ground arith);
  same_id = λ x. refl;
  same_site = λ x. refl;
  version = λ x. refl;
}

pub mark_running-IsFencedMove :
    (run site : Uuid) (epoch : ℕ) (request : Option Uuid) (w : World) {t : Instant} {w' : World}
    → mark_running run site epoch request w ≡ (ok t, w')
    → IsFencedMove run site solver_running w w'
unfolding mark_running
mark_running-IsFencedMove run site epoch request w h =
    let claimed = >>=-eq-ok (claim_epoch run site epoch) _ w h in
    let v = (claim_epoch run site epoch w).1 in
    record {
      fits = can_start run site epoch v;
      edit = running_row;
      before = v;
      move = can_start-IsMove run site epoch v;
      at_status = λ x. refl;
      same = claim_epoch-SameRuns run site epoch w;
      updated =
          fenced_update-Updated run site epoch solver_running (can_start run site epoch v)
            running_row none request v claimed.2;
    }

pub finalize_run-IsFencedMove :
    (run site : Uuid) (epoch : ℕ) (status : RunStatus) (reason : Option String)
    (c : Option Candidate) (finished : Option Instant) (request : Option Uuid) (w : World)
    {w' : World}
    → finalize_run run site epoch status reason c finished request w ≡ (ok tt, w')
    → (is_terminal status ≡ true) × IsFencedMove run site status w w'
unfolding finalize_run
finalize_run-IsFencedMove run site epoch status reason c finished request w h =
    let checked = require->>-eq-ok (is_terminal status) value_error _ w h in
    let claimed = >>=-eq-ok (claim_epoch run site epoch) _ w checked.1 in
    let w1 = (claim_epoch run site epoch w).1 in
    let inserted = >>=-eq-ok (insert_candidate run site c) _ w1 claimed.2 in
    let w2 = (insert_candidate run site c w1).1 in
    let named =
      require->>-eq-ok (update_allowed run site epoch status reason inserted.0 w2) _ _ w2
        inserted.2 in
    let row = finalized_row status reason inserted.0 (finish_time c finished w2.clock) in
    let updated =
      >>=-eq-ok
        (fenced_update run site epoch status (can_finalize run site epoch status w2) row reason
          request)
        _ w2 named.1 in
    (
      checked.0,
      record {
        fits = can_finalize run site epoch status w2;
        edit = row;
        before = w2;
        move =
            can_finalize-IsMove run site epoch status w2 reason inserted.0
              (finish_time c finished w2.clock) checked.0;
        at_status = λ x. refl;
        same =
            SameRuns-trans (claim_epoch-SameRuns run site epoch w)
              (insert_candidate-SameRuns run site c w1);
        updated =
            fenced_update-Updated run site epoch status (can_finalize run site epoch status w2) row
              reason request w2 (Tx-eq-ok updated.1 (ap (λ t. t.1) updated.2));
      },
    )

pub mark_running-Moves :
    (run site : Uuid) (epoch : ℕ) (request : Option Uuid) (w : World) {t : Instant} {w' : World}
    → mark_running run site epoch request w ≡ (ok t, w')
    → Moves w w'
mark_running-Moves run site epoch request w h =
    IsFencedMove-Moves run site solver_running
      (mark_running-IsFencedMove run site epoch request w h)

pub finalize_run-Moves :
    (run site : Uuid) (epoch : ℕ) (status : RunStatus) (reason : Option String)
    (c : Option Candidate) (finished : Option Instant) (request : Option Uuid) (w : World)
    {w' : World}
    → finalize_run run site epoch status reason c finished request w ≡ (ok tt, w')
    → Moves w w'
finalize_run-Moves run site epoch status reason c finished request w h =
    IsFencedMove-Moves run site status
      (finalize_run-IsFencedMove run site epoch status reason c finished request w h).1
