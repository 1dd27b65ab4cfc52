-- ===== src/Lifecycle/ActiveRuns.antt =====
-- The active runs of a site, NON_TERMINAL_RUN_STATUSES of enqueue_compute.py, over a move.
use roster_ai.Base.{
  ℕ, ◌+◌, ◌≤◌, ◌≡◌, refl, ap, Bool, true, false, List, [], ◌∷◌, arith, ◌==◌, ◌&&◌, if◌then◌else◌,
}
use roster_ai.Base.Table.{count, update, count-append}
use roster_ai.Contracts.RunStatus.{RunStatus, status_in, non_terminal}
use roster_ai.Contracts.JobLease.{Uuid}
use roster_ai.Store.{World, ScheduleRun}
use roster_ai.Lifecycle.Edges.{
  ◌⟶◌, start, cancel_queued, queue_times_out, queue_fails, ask_cancel, end_running, end_asked,
  cancel_asked,
}
use roster_ai.Lifecycle.Moves.{Moves, kept, moved, added, IsMove}

abbrev pub is_active : Uuid → ScheduleRun → Bool
is_active site r = r.site_id == site && status_in r.status non_terminal

-- How many runs of a site are queued, running or asked to stop.
abbrev pub active : Uuid → World → ℕ
active site w = count (is_active site) w.schedule_run

edge_from_active : {s t : RunStatus} → s ⟶ t → status_in s non_terminal ≡ true
edge_from_active start = refl
edge_from_active cancel_queued = refl
edge_from_active queue_times_out = refl
edge_from_active queue_fails = refl
edge_from_active ask_cancel = refl
edge_from_active (end_running e) = refl
edge_from_active (end_asked e) = refl
edge_from_active cancel_asked = refl

count-update :
    (site run at : Uuid) (p : ScheduleRun → Bool) (f : ScheduleRun → ScheduleRun)
    (xs : List ScheduleRun)
    → IsMove run at p f
    → count (is_active site) (update p f xs) ≤ count (is_active site) xs
unfolding count update
count-update site run at p f [] m = omega arith
count-update site run at p f (x ∷ xs) m =
    elim (p x)
        as (λ b.
          p x ≡ b
          → (if is_active site (if b then f x else x) then 1 else 0)
              + count (is_active site) (update p f xs)
            ≤ (if is_active site x then 1 else 0) + count (is_active site) xs) [
              | true ↦ λ e. ground (
                arith,
                edge_from_active (m.edge x e),
                m.same_site x,
                count-update site run at p f xs m,
              )
              | false ↦ λ e. omega (arith, count-update site run at p f xs m)
            ]
      refl

pub Moves-active : (site : Uuid) (w w' : World) → Moves w w' → active site w' ≤ active site w + 1
unfolding count
Moves-active site w w' (kept e _) = omega (arith, ap (count (is_active site)) e)
Moves-active site w w' (moved run at p f r e m _ u _ _) =
    omega (arith, ap (count (is_active site)) u, count-update site run at p f w.schedule_run m)
Moves-active site w w' (added r e _ _ _ u _ _) =
    ground
      (arith, ap (count (is_active site)) u, count-append (is_active site) w.schedule_run (r ∷ []))
