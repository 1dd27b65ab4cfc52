-- ===== src/Lifecycle/Inserts.antt =====
-- When the tables take a candidate: the constraints of `schedule_version` and `schedule_assignment`.

use Prim.Native.String.{count as characters}
use roster_ai.Base.{
  ℕ, ◌≤◌, String, ◌<◌, ◌≡◌, refl, Bool, true, Option, none, some, List, [], ◌∷◌, inl, inr, arith,
  any, ◌≢◌, ◌⊎◌, ◌==◌, ◌||◌, All, All-map, str_eq, eq_iff, lt→ltb, false,
}
use roster_ai.Contracts.RunStatus.{RunStatus, status_eq, solver_completed}
use roster_ai.Contracts.JobLease.{Uuid}
use roster_ai.Contracts.Scheduling.{Candidate, Assignment, SolverStatus, optimal, feasible}
use roster_ai.Store.{World, ScheduleRun, AssignmentRow}
use roster_ai.Repository.Rows.{run_row}
use roster_ai.Repository.Transitions.{
  text_fits, texts_fit, candidate_fits, assignments_fit, same_record, has_solution,
}
use roster_ai.Scheduling.Sorting.{Pairwise}

-- A text that a column of String(n) takes.
pub data IsShort (n : ℕ) : Option String → Type 0 where
  no_text : IsShort n none
  short : {s : String} → characters s ≤ n → IsShort n (some s)

pub record HasShortTexts (a : Assignment) : Type 0 where
  pub short_record : characters a.record_id ≤ 200
  pub short_worker : characters a.worker_id ≤ 200
  pub short_task : characters a.task_id ≤ 200
  pub short_shift : IsShort 200 a.shift_id
  pub short_lock : IsShort 200 a.lock_ref

-- A candidate that the tables take: of a completed run that has none yet, under a new id, solved,
-- with assignments of positive length, with texts of 200 characters at most and different record
-- ids.
pub record CanInsert (run : Uuid) (status : RunStatus) (w : World) (c : Candidate) : Type 0 where
  pub completed : status ≡ solver_completed
  pub solved : (c.feasible_solver_status ≡ optimal) ⊎ (c.feasible_solver_status ≡ feasible)
  pub new_version :
      All (λ v. (v.id ≢ c.schedule_version_id) × (v.schedule_run_id ≢ run)) w.schedule_version
  pub new_rows : All (λ r. r.schedule_version_id ≢ c.schedule_version_id) w.schedule_assignment
  pub intervals : All (λ a. a.start_minute < a.end_minute) c.assignments
  pub texts : All HasShortTexts c.assignments
  pub distinct : Pairwise (λ a b. b.record_id ≢ a.record_id) c.assignments

pub data CanPersist (run : Uuid) (status : RunStatus) (w : World) : Option Candidate → Type 0 where
  no_candidate : CanPersist run status w none
  with_candidate : {c : Candidate} → CanInsert run status w c → CanPersist run status w (some c)

any-false {ℓ} :
    {A : Type ℓ} (p : A → Bool) (xs : List A) → All (λ x. p x ≡ false) xs → any p xs ≡ false
any-false p [] h = refl
any-false p (x ∷ xs) h = rw (h.0, any-false p xs h.1) refl

pub IsShort-fits : (n : ℕ) (o : Option String) → IsShort n o → text_fits n o ≡ true
IsShort-fits n none h = refl
IsShort-fits n (some s) (short h) = ground (arith, h)

HasShortTexts-fits : (a : Assignment) → HasShortTexts a → texts_fit a ≡ true
HasShortTexts-fits a h =
    rw
      (
        IsShort-fits 200 (some a.record_id) (short h.short_record),
        IsShort-fits 200 (some a.worker_id) (short h.short_worker),
        IsShort-fits 200 (some a.task_id) (short h.short_task),
        IsShort-fits 200 a.shift_id h.short_shift,
        IsShort-fits 200 a.lock_ref h.short_lock,
      )
      refl

assignments_fit-ok :
    (version : Uuid) (rows : List AssignmentRow) (rest : List Assignment)
    → All (λ r. r.schedule_version_id ≢ version) rows
    → All (λ a. a.start_minute < a.end_minute) rest
    → All HasShortTexts rest
    → Pairwise (λ a b. b.record_id ≢ a.record_id) rest
    → assignments_fit version rows rest ≡ true
assignments_fit-ok version rows [] n l t d = refl
assignments_fit-ok version rows (a ∷ rest) n l t d =
    rw
      (
        lt→ltb a.start_minute a.end_minute l.0,
        HasShortTexts-fits a t.0,
        any-false (same_record version a) rows (
            All-map (λ r. r.schedule_version_id ≢ version) (λ r. same_record version a r ≡ false)
              rows (λ r e. ground (arith, e)) n),
        any-false (λ b. str_eq b.record_id a.record_id) rest
            (All-map (λ b. b.record_id ≢ a.record_id) (λ b. str_eq b.record_id a.record_id ≡ false)
              rest (λ b e. ground (arith, e, eq_iff b.record_id a.record_id)) d.0),
        assignments_fit-ok version rows rest n l.1 t.1 d.1,
      )
      refl

pub completed_eq : (s : RunStatus) → s ≡ solver_completed → status_eq s solver_completed ≡ true
completed_eq s e = rw e refl

solution_found : (s : SolverStatus) → (s ≡ optimal) ⊎ (s ≡ feasible) → has_solution s ≡ true
solution_found s (inl e) = rw e refl
solution_found s (inr e) = rw e refl

pub CanInsert-fits :
    (run site : Uuid) (status : RunStatus) (c : Candidate) (w : World) {row : ScheduleRun}
    → run_row run site w ≡ some row
    → CanInsert run status w c
    → candidate_fits run site c w ≡ true
CanInsert-fits run site status c w found p =
    rw
      (
        solution_found c.feasible_solver_status p.solved,
        any-false (λ v. v.id == c.schedule_version_id || v.schedule_run_id == run)
            w.schedule_version
            (All-map (λ v. (v.id ≢ c.schedule_version_id) × (v.schedule_run_id ≢ run))
              (λ v. (v.id == c.schedule_version_id || v.schedule_run_id == run) ≡ false)
              w.schedule_version (λ v e. ground (arith, e.0, e.1)) p.new_version),
        found,
        assignments_fit-ok c.schedule_version_id w.schedule_assignment c.assignments p.new_rows
            p.intervals p.texts p.distinct,
      )
      refl
