-- ===== src/Lifecycle/History.antt =====
-- What any sequence of committed calls does to a run that exists.
use mathlib.Core.Option
use roster_ai.Base.{
  ℕ, ◌+◌, ◌≤◌, ◌≡◌, refl, sym, ◌∙◌, ap, ap₂, Bool, true, false, ◌⊎◌, some, List, [], ◌∷◌,
  if◌then◌else◌, inl, inr, Bool-cases, arith, ◌&&◌, ◌==◌,
}
use roster_ai.Base.Table.{select_one, select_one-update, select_one-append}
use roster_ai.Contracts.RunStatus.{
  RunStatus, solver_queued, solver_running, cancellation_requested, is_terminal,
}
use roster_ai.Contracts.JobLease.{Uuid}
use roster_ai.Store.{World, ScheduleRun}
use roster_ai.Repository.Rows.{is_run, run_row}
use roster_ai.Lifecycle.Edges.{
  ◌⟶◌, ◌⟶*◌, here, more, start, cancel_queued, queue_times_out, queue_fails, ask_cancel,
  end_running, end_asked, cancel_asked, EndsSolve, completes, infeasible, times_out, fails,
}
use roster_ai.Lifecycle.Moves.{Moves, kept, moved, added, IsMove}
use roster_ai.Lifecycle.Calls.{Call, performs, perform, perform-Moves}

-- How many transitions a run may still make.
unfoldable pub transitions_left : RunStatus → ℕ
transitions_left solver_queued = 3
transitions_left solver_running = 2
transitions_left cancellation_requested = 1
transitions_left _ = 0

ended_rank : {t : RunStatus} → EndsSolve t → transitions_left t ≡ 0
unfolding transitions_left
ended_rank completes = refl
ended_rank infeasible = refl
ended_rank times_out = refl
ended_rank fails = refl

⟶-rank : {s t : RunStatus} → s ⟶ t → transitions_left t + 1 ≤ transitions_left s
unfolding transitions_left
⟶-rank start = omega arith
⟶-rank cancel_queued = omega arith
⟶-rank queue_times_out = omega arith
⟶-rank queue_fails = omega arith
⟶-rank ask_cancel = omega arith
⟶-rank (end_running e) = omega (arith, ended_rank e)
⟶-rank (end_asked e) = omega (arith, ended_rank e)
⟶-rank cancel_asked = omega arith

terminal-not-⟶ : {s t : RunStatus} → s ⟶ t → is_terminal s ≡ true → ⊥
unfolding is_terminal
terminal-not-⟶ start h = cc
terminal-not-⟶ cancel_queued h = cc
terminal-not-⟶ queue_times_out h = cc
terminal-not-⟶ queue_fails h = cc
terminal-not-⟶ ask_cancel h = cc
terminal-not-⟶ (end_running e) h = cc
terminal-not-⟶ (end_asked e) h = cc
terminal-not-⟶ cancel_asked h = cc

-- A run's row, earlier and later.
pub record Evolves (r r' : ScheduleRun) : Type 0 where
  pub path : r.status ⟶* r'.status
  pub version : r.resource_version ≤ r'.resource_version
  pub bounded :
      r'.resource_version + transitions_left r'.status
      ≤ r.resource_version + transitions_left r.status
  pub frozen : (is_terminal r.status ≡ false) ⊎ (r' ≡ r)

Evolves-refl : (r : ScheduleRun) → Evolves r r
Evolves-refl r = record {
  path = here;
  version = omega arith;
  bounded = omega arith;
  frozen = inr refl;
}

⟶*-trans : {s t u : RunStatus} → s ⟶* t → t ⟶* u → s ⟶* u
⟶*-trans here q = q
⟶*-trans (more e p) q = more e (⟶*-trans p q)

⟶-unfinished : {s t : RunStatus} → s ⟶ t → is_terminal s ≡ false
⟶-unfinished {s} e = elim (Bool-cases (is_terminal s)) [
  | inl t ↦ absurd (terminal-not-⟶ e t)
  | inr t ↦ t
]

frozen_trans :
    (a b c : ScheduleRun)
    → (is_terminal a.status ≡ false) ⊎ (b ≡ a)
    → (is_terminal b.status ≡ false) ⊎ (c ≡ b)
    → (is_terminal a.status ≡ false) ⊎ (c ≡ a)
frozen_trans a b c (inl t) y = inl t
frozen_trans a b c (inr e) (inl t) =
    inl (ap (λ (r : ScheduleRun). is_terminal r.status) (sym e) ∙ t)
frozen_trans a b c (inr e) (inr f) = inr (f ∙ e)

Evolves-trans : (a b c : ScheduleRun) → Evolves a b → Evolves b c → Evolves a c
Evolves-trans a b c x y = record {
  path = ⟶*-trans x.path y.path;
  version = omega arith;
  bounded = omega arith;
  frozen = frozen_trans a b c x.frozen y.frozen;
}

move-Evolves :
    {run site : Uuid} {p : ScheduleRun → Bool} {f : ScheduleRun → ScheduleRun}
    (m : IsMove run site p f) (r : ScheduleRun)
    → Evolves r (if p r then f r else r)
move-Evolves {p = p} {f = f} m r = elim (Bool-cases (p r)) [
  | inl e ↦ rw e (record {
    path = more (m.edge r e) here;
    version = omega (arith, m.version r);
    bounded = omega (arith, m.version r, ⟶-rank (m.edge r e));
    frozen = inl (⟶-unfinished (m.edge r e));
  })
  | inr e ↦ rw e (Evolves-refl r)
]

-- A run that exists is found after a call, further along.
pub record Later (run site : Uuid) (r : ScheduleRun) (w' : World) : Type 0 where
  pub row : ScheduleRun
  pub found : run_row run site w' ≡ some row
  pub evolves : Evolves r row

pub Moves-Later :
    (run site : Uuid) {w w' : World} {r : ScheduleRun}
    → Moves w w'
    → run_row run site w ≡ some r
    → Later run site r w'
Moves-Later run site {r = r} (kept runs events) h = record {
  row = r;
  found = ap (select_one (is_run run site)) runs ∙ h;
  evolves = Evolves-refl r;
}
Moves-Later run site {w} {w'} {r = r} (moved run' site' p f x e m found runs recorded events) h =
    record {
      row = if p r then f r else r;
      found =
          ap (select_one (is_run run site)) runs
          ∙ select_one-update (is_run run site) p f w.schedule_run
              (λ y. ap₂ (λ a b. a == run && b == site) (m.same_id y) (m.same_site y))
          ∙ ap (Option.map (λ y. if p y then f y else y)) h;
      evolves = move-Evolves m r;
    }
Moves-Later run site {w} {w'} {r = r} (added x e queued one fresh runs recorded events) h = record {
  row = r;
  found =
      ap (select_one (is_run run site)) runs
      ∙ select_one-append (is_run run site) w.schedule_run (x ∷ []) h;
  evolves = Evolves-refl r;
}

-- A run that exists is found after any committed calls: its status has followed the edges, its
-- resource version has not fallen and is bounded by the transitions that it may still make, and
-- if its status was terminal the row is unchanged.
pub performs-Later :
    (cs : List Call) (run site : Uuid) (w : World) {r : ScheduleRun}
    → run_row run site w ≡ some r
    → Later run site r (performs cs w)
unfolding performs
performs-Later [] run site w {r = r} h = record { row = r; found = h; evolves = Evolves-refl r }
performs-Later (c ∷ cs) run site w {r = r} h =
    let first = Moves-Later run site (perform-Moves c w) h in
    let rest = performs-Later cs run site (perform c w) first.found in
    record {
      row = rest.row;
      found = rest.found;
      evolves = Evolves-trans r first.row rest.row first.evolves rest.evolves;
    }
