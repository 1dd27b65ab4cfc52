-- ===== src/UseCases/Answers.antt =====
-- `cancel_schedule_run` and its idempotency key, over the calls that other sessions commit.
use roster_ai.Base.{
  ℕ, String, ◌≡◌, refl, sym, subst, true, not, ◌&&◌, List, Option, none, some, str_eq, leb, ◌==◌,
}
use Prim.Native.String.{count}
use roster_ai.Base.Table.{select_one}
use roster_ai.Contracts.RunStatus.{status_in, non_terminal}
use roster_ai.Contracts.JobLease.{Uuid, max_idempotency_key_length}
use roster_ai.Store.{
  World, Body, Cancellation, stale_resource_version, not_cancellable, cancel_schedule_run_error,
  ScheduleRun, IdempotentResult,
}
use roster_ai.Store.Tx.{ok, transaction-eq-ok, transaction-of-ok, require->>-eq-ok, ok_value}
use roster_ai.Repository.Rows.{RunState, get_run_state, run_row}
use roster_ai.Repository.Idempotency.{get_idempotent_result}
use roster_ai.Lifecycle.Calls.{Call, performs}
use roster_ai.Lifecycle.History.{performs-Later}
use roster_ai.UseCases.Replies.{performs-finds_reply}
use roster_ai.UseCases.Cancel.{cancel_command, cancel_schedule_run, with_stored}
use roster_ai.UseCases.Replay.{
  own_request, IsAnswered, HasRow, attempt-IsAnswered, replay-IsAnswered, answered_again,
}

module _ (contract_digest : Body → ℕ) (run site actor : Uuid) (version : ℕ) (key : String) where
  performs-HasRow :
      (cs : List Call) (w : World)
      → HasRow contract_digest run site actor version key w
      → HasRow contract_digest run site actor version key (performs cs w)
  unfolding HasRow
  performs-HasRow cs w h = let l = performs-Later cs run site w h.1 in (l.row, l.found)

  performs-IsAnswered :
      (cs : List Call) (w : World) {c : Cancellation}
      → IsAnswered contract_digest run site actor version key c w
      → IsAnswered contract_digest run site actor version key c (performs cs w)
  performs-IsAnswered cs w a = record {
    stored = a.stored;
    found =
        performs-finds_reply cs (own_request contract_digest run site actor version key) w a.found;
    hash = a.hash;
    payload = a.payload;
  }

  -- The first answer, in the store that it left.
  abbrev Answered : Cancellation → World → Type 0
  Answered c w' =
      ((not (str_eq key "") && leb (count key) max_idempotency_key_length) ≡ true)
      × (IsAnswered contract_digest run site actor version key c w'
          × HasRow contract_digest run site actor version key w')

  stored_answer :
      (state : RunState) (o : Option IdempotentResult) (others : List Call) (w : World)
      {c : Cancellation} {w' : World}
      → select_one (own_request contract_digest run site actor version key) w.command_idempotency
        ≡ o
      → select_one
          (own_request contract_digest run site actor version key)
          (performs others w).command_idempotency
        ≡ o
      → HasRow contract_digest run site actor version key (performs others w)
      → with_stored contract_digest run site actor version key state o (performs others w)
        ≡ (ok (some c), w')
      → IsAnswered contract_digest run site actor version key c w'
        × HasRow contract_digest run site actor version key w'
  stored_answer state (some stored) others w before now row h =
      let got =
        replay-IsAnswered contract_digest run site actor version key stored (performs others w) now
          h in
      (
        subst (IsAnswered contract_digest run site actor version key _) (sym got.1) got.0,
        subst (HasRow contract_digest run site actor version key) (sym got.1) row,
      )
  stored_answer state none others w before now row h =
      let current =
        require->>-eq-ok (state.resource_version == version) stale_resource_version _
          (performs others w) h in
      let stoppable =
        require->>-eq-ok (status_in state.status non_terminal) not_cancellable _ (performs others w)
          current.1 in
      attempt-IsAnswered contract_digest run site actor version key state (performs others w) now
        row stoppable.1

  first_answer :
      (others : List Call) (w : World) (o : Option ScheduleRun) {c : Cancellation} {w' : World}
      → run_row run site w ≡ o
      → select_one
          (own_request contract_digest run site actor version key)
          (performs others w).command_idempotency
        ≡ select_one (own_request contract_digest run site actor version key) w.command_idempotency
      → cancel_schedule_run contract_digest run site actor version key w (performs others w)
        ≡ (ok (some c), w')
      → Answered c w'
  unfolding cancel_schedule_run get_run_state get_idempotent_result HasRow
  first_answer others w none found fresh h =
      let fits =
        require->>-eq-ok (not (str_eq key "") && leb (count key) max_idempotency_key_length)
          cancel_schedule_run_error _ (performs others w) h in
      absurd (let e = ok_value (rw found at fits.1) in cc e)
  first_answer others w (some r) found fresh h =
      let fits =
        require->>-eq-ok (not (str_eq key "") && leb (count key) max_idempotency_key_length)
          cancel_schedule_run_error _ (performs others w) h in
      (
        fits.0,
        stored_answer (record { status = r.status; resource_version = r.resource_version })
            (select_one (own_request contract_digest run site actor version key)
              w.command_idempotency)
            others w refl fresh (performs-HasRow others w (r, found)) (rw found at fits.1),
      )

  -- When a cancellation has returned a result, with no reply stored under its key by another
  -- session between its reads and its writes, then after any committed calls the same command
  -- returns that result again and writes nothing, whatever is committed while it runs.
  pub cancel_command-replays :
      (others : List Call) (w : World) {c : Cancellation} {w' : World}
      → select_one
          (own_request contract_digest run site actor version key)
          (performs others w).command_idempotency
        ≡ select_one (own_request contract_digest run site actor version key) w.command_idempotency
      → cancel_command contract_digest run site actor version key others w ≡ (ok (some c), w')
      → (cs more : List Call)
      → cancel_command contract_digest run site actor version key more (performs cs w')
        ≡ (ok (some c), performs more (performs cs w'))
  unfolding cancel_command
  cancel_command-replays others w {c} {w'} fresh h cs more =
      let first = first_answer others w (run_row run site w) refl fresh (
        transaction-eq-ok (cancel_schedule_run contract_digest run site actor version key w)
          (performs others w) h) in
      transaction-of-ok
        (cancel_schedule_run contract_digest run site actor version key (performs cs w'))
        (performs more (performs cs w'))
        (answered_again contract_digest run site actor version key (performs cs w')
          (performs more (performs cs w')) first.0 (performs-HasRow cs w' first.1.1)
          (performs-IsAnswered cs w' first.1.0))
