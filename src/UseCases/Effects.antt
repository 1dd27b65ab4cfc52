-- ===== src/UseCases/Effects.antt =====
-- What a cancellation that was not answered before does to its run.
use roster_ai.Base.{
  ℕ, ◌+◌, String, ◌≡◌, refl, sym, ◌∙◌, ap, subst, Bool, true, false, not, ◌&&◌, none, some, List,
  [], ◌∷◌, inl, inr, Bool-cases, arith, ◌==◌, ==_iff, str_eq, leb, if◌then◌else◌,
}
use Prim.Native.String.{count}
use mathlib.Core.Option
use roster_ai.Base.Table.{select_one, select_one_holds, update, select_one-update}
use roster_ai.Contracts.RunStatus.{
  RunStatus, status_eq, status_in, solver_queued, solver_running, solver_cancelled,
  cancellation_requested, solver_completed, solver_infeasible, solver_timed_out, solver_failed,
  non_terminal,
}
use roster_ai.Contracts.JobLease.{Uuid, max_idempotency_key_length}
use roster_ai.Store.{World, Body, Cancellation, ScheduleRun}
use roster_ai.Store.Tx.{Tx-eq-ok, ok, transaction-of-ok}
use roster_ai.Repository.Rows.{get_run_state, run_row, is_run, is_run_job, uuid4, update_run}
use roster_ai.Repository.Progress.{write_progress_event}
use roster_ai.Repository.Transitions.{
  cancel_queued_run, request_cancellation, cancel_transition, is_at, cancelled_row,
}
use roster_ai.Repository.Jobs.{
  set_job_cancellation_requested, get_job_cancellation_requested, flag_of,
}
use roster_ai.Repository.Idempotency.{get_idempotent_result, store_idempotent_result}
use roster_ai.Lifecycle.Calls.{performs}
use roster_ai.UseCases.Cancel.{cancel_command, cancel_schedule_run, attempt}
use roster_ai.UseCases.Replay.{own_request}

-- The statuses a run may be cancelled at, with what the command leaves.
pub data Stops : RunStatus → RunStatus → Type 0 where
  at_once : Stops solver_queued solver_cancelled
  asked : Stops solver_running cancellation_requested
  asked_before : Stops cancellation_requested cancellation_requested

pub record HasStopped (run site : Uuid) (r : ScheduleRun) (w' : World) (c : Cancellation)
    : Type 0 where
  pub row : ScheduleRun
  pub found : run_row run site w' ≡ some row
  pub step : Stops r.status row.status
  pub told_status : c.status ≡ row.status
  pub told_version : c.resource_version ≡ row.resource_version

select_one_narrow {ℓ} :
    {A : Type ℓ} (p q : A → Bool) (xs : List A) {a : A}
    → select_one p xs ≡ some a
    → ((x : A) → q x ≡ true → p x ≡ true)
    → q a ≡ true
    → select_one q xs ≡ some a
unfolding select_one
select_one_narrow p q [] h k t = cc
select_one_narrow p q (x ∷ xs) {a} h k t = elim (Bool-cases (p x)) [
  | inl d ↦
      let x_is : some x ≡ some a = rw d at h in
      let same : x ≡ a = cc x_is in rw (ap q same ∙ t) x_is
  | inr d ↦ elim (Bool-cases (q x)) [
    | inl e ↦ cc (k x e, d)
    | inr e ↦ rw e (select_one_narrow p q xs (rw d at h) k t)
  ]
]

module _ (contract_digest : Body → ℕ) (run site actor : Uuid) (version : ℕ) (key : String)
    (w : World) where
  queued_case :
      (r : ScheduleRun) {c : Cancellation} {w' : World}
      → run_row run site w ≡ some r
      → r.status ≡ solver_queued
      → r.resource_version ≡ version
      → select_one (is_at run site solver_queued version) w.schedule_run ≡ some r
      → attempt contract_digest run site actor version key
          (record { status = solver_queued; resource_version = version })
          w
        ≡ (ok (some c), w')
      → HasStopped run site r w' c
  unfolding set_job_cancellation_requested get_job_cancellation_requested cancel_queued_run
      cancel_transition update_run uuid4 write_progress_event store_idempotent_result
  queued_case r {c} {w'} found at now here h =
      let p = is_at run site solver_queued version in
      let f = cancelled_row solver_cancelled "cancelled" true w.now in
      let after : w'.schedule_run ≡ update p f w.schedule_run = ground (arith, here) in
      let fits = select_one_holds p w.schedule_run here in
      record {
        row = f r;
        found =
            ap (select_one (is_run run site)) after
            ∙ select_one-update (is_run run site) p f w.schedule_run (λ x. refl)
            ∙ ap (Option.map (λ y. if p y then f y else y)) found
            ∙ rw fits refl;
        step = subst (λ s. Stops s solver_cancelled) (sym at) at_once;
        told_status = ground (arith, here);
        told_version = ground (arith, here, now);
      }

  running_case :
      (r : ScheduleRun) {c : Cancellation} {w' : World}
      → run_row run site w ≡ some r
      → r.status ≡ solver_running
      → r.resource_version ≡ version
      → select_one (is_at run site solver_running version) w.schedule_run ≡ some r
      → attempt contract_digest run site actor version key
          (record { status = solver_running; resource_version = version })
          w
        ≡ (ok (some c), w')
      → HasStopped run site r w' c
  unfolding set_job_cancellation_requested get_job_cancellation_requested request_cancellation
      cancel_transition update_run uuid4 write_progress_event store_idempotent_result
  running_case r {c} {w'} found at now here h =
      let p = is_at run site solver_running version in
      let f = cancelled_row cancellation_requested "cancellation_requested" false w.now in
      let after : w'.schedule_run ≡ update p f w.schedule_run = ground (arith, here) in
      let fits = select_one_holds p w.schedule_run here in
      record {
        row = f r;
        found =
            ap (select_one (is_run run site)) after
            ∙ select_one-update (is_run run site) p f w.schedule_run (λ x. refl)
            ∙ ap (Option.map (λ y. if p y then f y else y)) found
            ∙ rw fits refl;
        step = subst (λ s. Stops s cancellation_requested) (sym at) asked;
        told_status = ground (arith, here);
        told_version = ground (arith, here, now);
      }

  asked_case :
      (r : ScheduleRun) {c : Cancellation} {w' : World}
      → run_row run site w ≡ some r
      → r.status ≡ cancellation_requested
      → r.resource_version ≡ version
      → attempt contract_digest run site actor version key
          (record { status = cancellation_requested; resource_version = version })
          w
        ≡ (ok (some c), w')
      → HasStopped run site r w' c
  unfolding get_job_cancellation_requested store_idempotent_result
  asked_case r {c} {w'} found at now h =
      let after : w'.schedule_run ≡ w.schedule_run = ground arith in
      let told : c.status ≡ cancellation_requested = ground arith in
      record {
        row = r;
        found = ap (select_one (is_run run site)) after ∙ found;
        step = subst (λ s. Stops s s) (sym at) asked_before;
        told_status = told ∙ sym at;
        told_version = ground (arith, now);
      }

  found_at :
      (status : RunStatus) (r : ScheduleRun)
      → run_row run site w ≡ some r
      → status_eq r.status status ≡ true
      → r.resource_version ≡ version
      → select_one (is_at run site status version) w.schedule_run ≡ some r
  found_at status r found at now =
      select_one_narrow (is_run run site) (is_at run site status version) w.schedule_run found
        (λ x t. ground arith)
        (rw
          (
            select_one_holds (is_run run site) w.schedule_run found,
            at,
            (==_iff r.resource_version version).1 now,
          )
          refl)

  told : RunStatus → String → Cancellation
  told status reason = record {
    schedule_run_id = run;
    status = status;
    reason = reason;
    resource_version = version + 1;
    cancellation_requested = flag_of (
        select_one (is_run_job run site) (
          update (is_run_job run site) (λ j. record j { cancellation_requested = true })
            w.job_queue));
  }

  -- The command's answer, and the store that it leaves.
  record Stopping (status : RunStatus) (r : ScheduleRun) : Type 0 where
    answer : Cancellation
    left : World
    returns :
        attempt contract_digest run site actor version key
          (record { status = status; resource_version = version })
          w
        ≡ (ok (some answer), left)
    stopped : HasStopped run site r left answer

  stopping :
      (status : RunStatus) (r : ScheduleRun)
      → status_in status non_terminal ≡ true
      → run_row run site w ≡ some r
      → r.status ≡ status
      → r.resource_version ≡ version
      → Stopping status r
  unfolding set_job_cancellation_requested get_job_cancellation_requested request_cancellation
      cancel_queued_run cancel_transition update_run uuid4 write_progress_event
      store_idempotent_result told
  stopping solver_queued r h found at now =
      let here = found_at solver_queued r found (ap (λ s. status_eq s solver_queued) at) now in
      let back = Tx-eq-ok {a = some (told solver_cancelled "cancelled")} (rw here refl) refl in
      record {
        answer = _;
        left = _;
        returns = back;
        stopped = queued_case r found at now here back;
      }
  stopping solver_running r h found at now =
      let here = found_at solver_running r found (ap (λ s. status_eq s solver_running) at) now in
      let back =
        Tx-eq-ok {a = some (told cancellation_requested "cancellation_requested")} (rw here refl)
          refl in
      record {
        answer = _;
        left = _;
        returns = back;
        stopped = running_case r found at now here back;
      }
  stopping cancellation_requested r h found at now = record {
    answer = _;
    left = _;
    returns = refl;
    stopped = asked_case r found at now refl;
  }
  stopping solver_completed r h found at now = cc
  stopping solver_infeasible r h found at now = cc
  stopping solver_timed_out r h found at now = cc
  stopping solver_cancelled r h found at now = cc
  stopping solver_failed r h found at now = cc

  -- The whole command, with nothing committed between its reads and its writes.
  pub record HasCancelled (r : ScheduleRun) : Type 0 where
    pub answer : Cancellation
    pub left : World
    pub returns :
        cancel_command contract_digest run site actor version key [] w ≡ (ok (some answer), left)
    pub stopped : HasStopped run site r left answer

  -- A cancellation with a key of 1 to 40 characters, of a run that is queued, running or asked to
  -- stop, at the expected version and with no reply stored under the key, nothing being committed
  -- meanwhile, returns a result: a queued run is then cancelled, a running one asked to stop, and
  -- the result has the status and the version of the row that is left.
  pub cancel_command-HasCancelled :
      (r : ScheduleRun)
      → (not (str_eq key "") && leb (count key) max_idempotency_key_length) ≡ true
      → run_row run site w ≡ some r
      → r.resource_version ≡ version
      → status_in r.status non_terminal ≡ true
      → select_one (own_request contract_digest run site actor version key) w.command_idempotency
        ≡ none
      → HasCancelled r
  unfolding cancel_command cancel_schedule_run performs get_run_state get_idempotent_result
  cancel_command-HasCancelled r fits found now stoppable none_yet =
      let s = stopping r.status r stoppable found refl now in
      let at_version : (r.resource_version == version) ≡ true =
        (==_iff r.resource_version version).1 now in
      record {
        answer = s.answer;
        left = s.left;
        returns =
            transaction-of-ok (cancel_schedule_run contract_digest run site actor version key w) w (
              rw (fits, found, none_yet, at_version, stoppable)
                (subst
                  (λ v.
                    attempt contract_digest run site actor version key
                      (record { status = r.status; resource_version = v }) w
                    ≡ (ok (some s.answer), s.left))
                  (sym now) s.returns));
        stopped = s.stopped;
      }
