-- ===== src/UseCases/Replay.antt =====
-- The parts of `cancel_schedule_run`, and the reply that each stores or returns.
use roster_ai.Base.{
  ℕ, String, ◌≡◌, refl, sym, ◌∙◌, ap, subst, Bool, true, false, not, ◌&&◌, [], ◌∷◌, ◌++◌, Option,
  none, some, inl, inr, Bool-cases, arith, str_eq, eq_iff, ==_iff, ◌==◌, leb, if◌then◌else◌,
}
use Prim.Native.String.{count}
use mathlib.Core.Option
use roster_ai.Base.Table.{select_one, update, select_one-update, select_one-append_none}
use roster_ai.Contracts.RunStatus.{
  RunStatus, status_in, solver_queued, solver_running, solver_cancelled, cancellation_requested,
  solver_completed, solver_infeasible, solver_timed_out, solver_failed,
}
use roster_ai.Contracts.JobLease.{Uuid, max_idempotency_key_length}
use roster_ai.Store.{
  World, Body, cancel_body, Cancellation, IdempotentResult, Payload, cancellation, enqueued, Fault,
  run_not_cancellable, not_cancellable, stale_resource_version, cancel_schedule_run_error,
  ScheduleRun,
}
use roster_ai.Store as Ops
use roster_ai.Store.Tx.{Tx, Result, ok, raised, pure, resume, ◌>>◌, ok_value}
use roster_ai.Repository.Rows.{RunState, get_run_state, run_row, is_run, run_job}
use roster_ai.Repository.Transitions.{
  cancel_queued_run, request_cancellation, cancel_transition, is_at, cancelled_row,
}
use roster_ai.Repository.Jobs.{
  set_job_cancellation_requested, get_job_cancellation_requested, flag_of,
}
use roster_ai.Repository.Progress.{write_progress_event}
use roster_ai.Repository.Idempotency.{get_idempotent_result, store_idempotent_result, is_request}
use roster_ai.UseCases.Replies.{cancel_transition-replies}
use roster_ai.UseCases.Cancel.{
  cancel_schedule_run, attempt, settle, store_reply, cancel_at, replay, resolve_lost_race,
  body_hash, from_payload,
}

module _ (contract_digest : Body → ℕ) (run site actor : Uuid) (version : ℕ) (key : String) where
  abbrev pub own_request : IdempotentResult → Bool
  own_request = is_request site actor (Ops.cancel_schedule_run run) key

  -- The store has the reply `c` to the command.
  pub record IsAnswered (c : Cancellation) (w : World) : Type 0 where
    pub stored : IdempotentResult
    pub found : select_one own_request w.command_idempotency ≡ some stored
    pub hash : stored.body_hash ≡ body_hash contract_digest run site actor version key
    pub payload : stored.response_payload ≡ cancellation c

  payload_of :
      (p : Payload) (w : World) {c : Cancellation} {w' : World}
      → from_payload p w ≡ (ok (some c), w')
      → (p ≡ cancellation c) × (w' ≡ w)
  payload_of (cancellation a) w h =
      let same = ok_value h in
      let own = ap (λ (q : Result (Option Cancellation) × World). q.1) h in (cc same, sym own)
  payload_of (enqueued a) w h = cc
  payload_of (Ops.decision a) w h = cc

  pub replay-IsAnswered :
      (stored : IdempotentResult) (w : World) {c : Cancellation} {w' : World}
      → select_one own_request w.command_idempotency ≡ some stored
      → replay contract_digest run site actor version key stored w ≡ (ok (some c), w')
      → IsAnswered c w × (w' ≡ w)
  replay-IsAnswered stored w found h =
      elim (Bool-cases (stored.body_hash == body_hash contract_digest run site actor version key)) [
        | inl e ↦
            let got = payload_of stored.response_payload w (rw e at h) in
            (
              record {
                stored = stored;
                found = found;
                hash =
                    (==_iff stored.body_hash
                        (body_hash contract_digest run site actor version key)).0
                      e;
                payload = got.0;
              },
              got.1,
            )
        | inr e ↦ cc (rw e at h)
      ]

  own_row :
      (hash : ℕ) (p : Payload)
      → own_request (record {
        site_id = site;
        actor_id = actor;
        operation = Ops.cancel_schedule_run run;
        idempotency_key = key;
        body_hash = hash;
        response_payload = p;
      })
        ≡ true
  own_row hash p =
      rw
        (
          (==_iff site site).1 refl,
          (==_iff actor actor).1 refl,
          (==_iff run run).1 refl,
          (eq_iff key key).1 refl,
        )
        refl

  unfoldable pub HasRow : World → Type 0
  HasRow w = (r : ScheduleRun) × (run_row run site w ≡ some r)

  same_row : (w w' : World) → w'.schedule_run ≡ w.schedule_run → HasRow w → HasRow w'
  unfolding HasRow
  same_row w w' e h = (h.0, ap (select_one (is_run run site)) e ∙ h.1)

  store_reply-IsAnswered :
      (result : Cancellation) (w : World) {c : Cancellation} {w' : World}
      → select_one own_request w.command_idempotency ≡ none
      → store_reply contract_digest run site actor version key result w ≡ (ok (some c), w')
      → IsAnswered c w' × (w'.schedule_run ≡ w.schedule_run)
  unfolding store_idempotent_result get_job_cancellation_requested
  store_reply-IsAnswered result w {c} {w'} none_yet h =
      let full : Cancellation = record result {
        cancellation_requested = flag_of (run_job run site w);
      } in
      let row : IdempotentResult = record {
        site_id = site;
        actor_id = actor;
        operation = Ops.cancel_schedule_run run;
        idempotency_key = key;
        body_hash = body_hash contract_digest run site actor version key;
        response_payload = cancellation full;
      } in
      let after : World = record w { command_idempotency = w.command_idempotency ++ row ∷ [] } in
      let computed : store_reply contract_digest run site actor version key result w
          ≡ (ok (some full), after) =
        rw none_yet refl in
      let own = ok_value (sym computed ∙ h) in
      let last = ap (λ (q : Result (Option Cancellation) × World). q.1) (sym computed ∙ h) in
      (
        record {
          stored = row;
          found =
              ap (λ (a : World). select_one own_request a.command_idempotency) (sym last)
              ∙ select_one-append_none own_request w.command_idempotency row none_yet
              ∙ rw
                  (own_row (body_hash contract_digest run site actor version key)
                    (cancellation full))
                  refl;
          hash = refl;
          payload = cc own;
        },
        ap (λ (a : World). a.schedule_run) (sym last),
      )

  after_pure : {A : Type 0} (m : Tx (Unit {0})) (a : A) (w : World) → ((m >> pure a) w).1 ≡ (m w).1
  after_pure m a w = go (m w).0 (m w).1
    where
      go : (r : Result (Unit {0})) (v : World) → (resume r (λ _. pure a) v).1 ≡ v
      go (ok x) v = refl
      go (raised e) v = refl

  cancel_transition-runs :
      (expected status : RunStatus) (reason : String) (terminal : Bool) (w : World)
      → (cancel_transition run site actor version expected status reason terminal w).1.schedule_run
        ≡ update
            (is_at run site expected version)
            (cancelled_row status reason terminal w.now)
            w.schedule_run
  unfolding cancel_transition write_progress_event
  cancel_transition-runs expected status reason terminal w = ground arith

  cancel_transition-HasRow :
      (expected status : RunStatus) (reason : String) (terminal : Bool) (w : World)
      → HasRow w
      → HasRow (cancel_transition run site actor version expected status reason terminal w).1
  unfolding HasRow
  cancel_transition-HasRow expected status reason terminal w h =
      let p = is_at run site expected version in
      let f = cancelled_row status reason terminal w.now in
      (
        (if p h.0 then f h.0 else h.0),
        ap (select_one (is_run run site)) (cancel_transition-runs expected status reason terminal w)
            ∙ select_one-update (is_run run site) p f w.schedule_run (λ x. refl)
            ∙ ap (Option.map (λ y. if p y then f y else y)) h.1,
      )

  -- What the cancelling step keeps, returned or raised.
  record KeepsReplies (w w' : World) : Type 0 where
    row : HasRow w → HasRow w'
    replies : w'.command_idempotency ≡ w.command_idempotency

  transition-KeepsReplies :
      (expected status : RunStatus) (reason : String) (terminal : Bool) (a : Cancellation)
      (w : World)
      → KeepsReplies w
          ((cancel_transition run site actor version expected status reason terminal >> pure a) w).1
  transition-KeepsReplies expected status reason terminal a w =
      subst (KeepsReplies w)
        (sym (
          after_pure (cancel_transition run site actor version expected status reason terminal) a
            w))
        (record {
          row = cancel_transition-HasRow expected status reason terminal w;
          replies =
              cancel_transition-replies run site actor version expected status reason terminal w;
        })

  same-KeepsReplies : (w : World) → KeepsReplies w w
  same-KeepsReplies w = record { row = λ h. h; replies = refl }

  at-KeepsReplies :
      (status : RunStatus) (at : ℕ) (w : World)
      → KeepsReplies w
          (cancel_at contract_digest run site actor version key
            (record { status = status; resource_version = at })
            w).1
  unfolding cancel_queued_run request_cancellation
  at-KeepsReplies solver_queued at w =
      transition-KeepsReplies solver_queued solver_cancelled "cancelled" true _ w
  at-KeepsReplies solver_running at w =
      transition-KeepsReplies solver_running cancellation_requested "cancellation_requested" false _
        w
  at-KeepsReplies cancellation_requested at w = same-KeepsReplies w
  at-KeepsReplies solver_completed at w = same-KeepsReplies w
  at-KeepsReplies solver_infeasible at w = same-KeepsReplies w
  at-KeepsReplies solver_timed_out at w = same-KeepsReplies w
  at-KeepsReplies solver_cancelled at w = same-KeepsReplies w
  at-KeepsReplies solver_failed at w = same-KeepsReplies w

  settle-IsAnswered :
      (r : Result Cancellation) (w : World) {c : Cancellation} {w' : World}
      → select_one own_request w.command_idempotency ≡ none
      → HasRow w
      → settle contract_digest run site actor version key r w ≡ (ok (some c), w')
      → IsAnswered c w' × HasRow w'
  unfolding resolve_lost_race
  settle-IsAnswered (ok result) w none_yet row h =
      let done = store_reply-IsAnswered result w none_yet h in (done.0, same_row w _ done.1 row)
  settle-IsAnswered (raised e) w none_yet row h = absurd (ground (arith, none_yet))

  settled :
      (state : RunState) (w : World) {c : Cancellation} {w' : World}
      → select_one own_request w.command_idempotency ≡ none
      → HasRow w
      → settle contract_digest run site actor version key
          (cancel_at contract_digest run site actor version key state w).0
          (cancel_at contract_digest run site actor version key state w).1
        ≡ (ok (some c), w')
      → IsAnswered c w' × HasRow w'
  settled state w none_yet row h =
      let k = at-KeepsReplies state.status state.resource_version w in
      settle-IsAnswered (cancel_at contract_digest run site actor version key state w).0
        (cancel_at contract_digest run site actor version key state w).1
        (ap (select_one own_request) k.replies ∙ none_yet) (k.row row) h

  pub attempt-IsAnswered :
      (state : RunState) (w : World) {c : Cancellation} {w' : World}
      → select_one own_request w.command_idempotency ≡ none
      → HasRow w
      → attempt contract_digest run site actor version key state w ≡ (ok (some c), w')
      → IsAnswered c w' × HasRow w'
  unfolding set_job_cancellation_requested HasRow
  attempt-IsAnswered state w none_yet row h =
      elim (Bool-cases (status_in state.status (solver_queued ∷ solver_running ∷ []))) [
        | inl e ↦
            let v = (set_job_cancellation_requested run site w).1 in
            settled state v none_yet row (rw e at h)
        | inr e ↦ settled state w none_yet row (rw e at h)
      ]

  -- The command on a store that has the answer returns it and writes nothing.
  pub answered_again :
      (w v : World) {c : Cancellation}
      → (not (str_eq key "") && leb (count key) max_idempotency_key_length) ≡ true
      → HasRow w
      → IsAnswered c w
      → cancel_schedule_run contract_digest run site actor version key w v ≡ (ok (some c), v)
  unfolding cancel_schedule_run get_run_state get_idempotent_result HasRow
  answered_again w v key_fits row a =
      rw
        (
          key_fits,
          row.1,
          a.found,
          (==_iff a.stored.body_hash (body_hash contract_digest run site actor version key)).1
              a.hash,
          a.payload,
        )
        refl
