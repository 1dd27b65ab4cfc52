-- ===== src/Lifecycle/Cancels.antt =====
-- `cancel_transition` and `create_queued_run` are moves.
use roster_ai.Base.{
  ℕ, suc, ◌+◌, ◌≡◌, refl, sym, subst, Bool, none, some, arith, Option-cases, String, inl, inr,
}
use roster_ai.Base.Table.{select_one}
use roster_ai.Contracts.RunStatus.{RunStatus, eq_of_status_eq, solver_queued}
use roster_ai.Contracts.JobLease.{Uuid, Instant}
use roster_ai.Contracts.Scheduling.{RunSnapshot}
use roster_ai.Store.{World}
use roster_ai.Store.Tx.{ok}
use roster_ai.Repository.Progress.{progress_event, write_progress_event}
use roster_ai.Repository.Rows.{row_of}
use roster_ai.Repository.Transitions.{
  create_queued_run, queued_run, cancel_transition, is_at, cancelled_row,
}
use roster_ai.Lifecycle.Edges.{◌⟶◌}
use roster_ai.Lifecycle.Moves.{IsMove, Moves, moved, added}

-- `cancel_transition`, when it returns, has moved the row that it names.
module _ (run site actor : Uuid) (version : ℕ) (expected status : RunStatus) (reason : String)
    (terminal : Bool) (w : World) where
  cancel_transition-IsMove :
      expected ⟶ status
      → (now : Instant)
      → IsMove run site (is_at run site expected version) (cancelled_row status reason terminal now)
  cancel_transition-IsMove ed now = record {
    own = λ x h. ground arith;
    edge =
        λ x h. subst (λ s. s ⟶ status) (sym (eq_of_status_eq x.status expected (ground arith))) ed;
    same_id = λ x. refl;
    same_site = λ x. refl;
    version = λ x. refl;
  }

  pub cancel_transition-Moves :
      expected ⟶ status
      → {w' : World}
      → cancel_transition run site actor version expected status reason terminal w ≡ (ok tt, w')
      → Moves w w'
  unfolding cancel_transition write_progress_event
  cancel_transition-Moves ed {w'} h =
      elim (Option-cases (select_one (is_at run site expected version) w.schedule_run)) [
        | inl e ↦ absurd (ground (arith, e))
        | inr (r, e) ↦
            moved run site (is_at run site expected version)
              (cancelled_row status reason terminal w.now) r
              (progress_event run site actor status (some reason) (r.resource_version + 1)
                w.next_uuid (suc w.next_uuid) w)
              (cancel_transition-IsMove ed w.now) e (ground (arith, e))
              (record { stream = refl; next = refl; status = refl; version = refl })
              (ground (arith, e))
      ]

-- A new run enters queued at version 1, with the event that opens its stream.
pub create_queued_run-Moves :
    (snapshot : RunSnapshot) (site actor : Uuid) (w : World) {w' : World}
    → create_queued_run snapshot site actor w ≡ (ok tt, w')
    → Moves w w'
unfolding create_queued_run write_progress_event
create_queued_run-Moves snapshot site actor w h =
    elim (Option-cases (row_of snapshot.schedule_run_id w)) [
      | inl e ↦
          added (queued_run snapshot site)
            (progress_event snapshot.schedule_run_id site actor solver_queued none 1 w.next_uuid
              (suc w.next_uuid) w)
            refl refl e (ground (arith, e))
            (record { stream = refl; next = refl; status = refl; version = refl })
            (ground (arith, e))
      | inr (r, e) ↦ absurd (ground (arith, e))
    ]
