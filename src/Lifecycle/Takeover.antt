-- ===== src/Lifecycle/Takeover.antt =====
-- `lease_next_job` at a new epoch, and what the repository answers to the holders of older epochs.
use roster_ai.Base.{
  ℕ, ◌+◌, ◌<◌, ◌≡◌, refl, sym, ◌∙◌, ap, subst, true, false, Option, none, some, List, [], ◌∷◌, inl,
  inr, Bool-cases, Option-cases, arith, if◌then◌else◌, ◌==◌, ==_iff, leb, String,
}
use roster_ai.Base.Table.{select_one, count, count-append, select_one_holds, select_one-update}
use roster_ai.Base.Unique.{
  UniqueBy, select_by_key, select_key_of_found, count-update-le, count-update, count-none,
  count_found,
}
use mathlib.Core.Option
use roster_ai.Contracts.RunStatus.{RunStatus, is_terminal}
use roster_ai.Contracts.JobLease.{Uuid, Instant, JobLease, completed, failed}
use roster_ai.Contracts.Scheduling.{Candidate}
use roster_ai.Store.{World, stale_lease}
use roster_ai.Store.Tx.{Tx, ok, raised, transaction, commit_or_rollback}
use roster_ai.Repository.Transitions.{mark_running, finalize_run}
use roster_ai.Repository.Jobs.{lease_next_job, complete_job, fail_job, clashes, leased_row}
use roster_ai.Lifecycle.JobMoves.{
  JobMoves, same, edited, inserted, IsEdit, HasUniqueJobs, JobMoves-HasUniqueJobs,
  first_leasable-found,
}
use roster_ai.Lifecycle.Leases.{Leased, Leased-JobMoves, lease_next_job-Leased}
use roster_ai.Lifecycle.Fencing.{
  JobName, by_run, by_job, names, names_at_most, IsSuperseded, mark_running_superseded,
  finalize_run_superseded, end_job_superseded,
}
use roster_ai.Lifecycle.Calls.{Call, performs, perform}
use roster_ai.Lifecycle.JobCalls.{perform-JobMoves}

names_edited :
    (n : JobName) {f : JobLease → JobLease} → IsEdit f → (x : JobLease) → names n (f x) ≡ names n x
names_edited (by_run run site) k x = rw (k.same_run x, k.same_site x) refl
names_edited (by_job job site) k x = rw (k.same_job x, k.same_site x) refl

at_most_edited :
    (n : JobName) (e : ℕ) {f : JobLease → JobLease}
    → IsEdit f
    → (x : JobLease) → names_at_most n e (f x) ≡ true
    → names_at_most n e x ≡ true
at_most_edited n e {f} k x h = ground (arith, names_edited n k x, k.epoch x)

named_clash :
    (n : JobName) (j x : JobLease) → names n j ≡ true → names n x ≡ true → clashes j x ≡ true
named_clash (by_run run site) j x a b = ground arith
named_clash (by_job job site) j x a b = ground arith

fresh_unnamed :
    (n : JobName) (j : JobLease) (js : List JobLease)
    → 0 < count (names n) js
    → select_one (clashes j) js ≡ none
    → names n j ≡ false
fresh_unnamed n j js some_named fresh = elim (Bool-cases (names n j)) [
  | inl e ↦
      absurd
        (omega (arith, count-none (clashes j) (names n) js (λ x t. named_clash n j x e t) fresh))
  | inr e ↦ e
]

last_unnamed :
    (n : JobName) (e : ℕ) (j : JobLease) (js : List JobLease)
    → count (names_at_most n e) js ≡ 0
    → names n j ≡ false
    → count (names_at_most n e) js + count (names_at_most n e) (j ∷ []) ≡ 0
unfolding count
last_unnamed n e j js h unnamed = rw unnamed (omega (arith, h))

JobMoves-IsSuperseded :
    (n : JobName) (e : ℕ) {w w' : World} → JobMoves w w' → IsSuperseded n e w → IsSuperseded n e w'
JobMoves-IsSuperseded n e (same q) h = record {
  present = subst (λ js. 0 < count (names n) js) (sym q) h.present;
  passed = ap (count (names_at_most n e)) q ∙ h.passed;
}
JobMoves-IsSuperseded n e {w} (edited p f k q) h = record {
  present =
      subst (λ js. 0 < count (names n) js) (sym q)
        (omega (arith, h.present, count-update (names n) p f w.job_queue (names_edited n k)));
  passed =
      ap (count (names_at_most n e)) q
      ∙ omega (
        arith,
        h.passed,
        count-update-le (names_at_most n e) p f w.job_queue (λ x _ t. at_most_edited n e k x t),
      );
}
JobMoves-IsSuperseded n e {w} (inserted j fresh q) h =
    let unnamed = fresh_unnamed n j w.job_queue h.present fresh in
    record {
      present =
          subst (λ js. 0 < count (names n) js) (sym q)
            (omega (arith, h.present, count-append (names n) w.job_queue (j ∷ [])));
      passed =
          ap (count (names_at_most n e)) q
          ∙ count-append (names_at_most n e) w.job_queue (j ∷ [])
          ∙ last_unnamed n e j w.job_queue h.passed unnamed;
    }

performs-IsSuperseded :
    (cs : List Call) (n : JobName) (e : ℕ) (w : World)
    → HasUniqueJobs w.job_queue
    → IsSuperseded n e w
    → IsSuperseded n e (performs cs w)
unfolding performs
performs-IsSuperseded [] n e w u h = h
performs-IsSuperseded (c ∷ cs) n e w u h =
    let move = perform-JobMoves c w u in
    performs-IsSuperseded cs n e (perform c w) (JobMoves-HasUniqueJobs w (perform c w) move u)
      (JobMoves-IsSuperseded n e move h)

-- The row with the job's key has passed the epoch, and there is one such row.
sole_row :
    (key : JobLease → ℕ) (n : JobName) (e : ℕ) (w : World) {l : JobLease}
    → UniqueBy key w.job_queue
    → ((x : JobLease) → names n x ≡ true → key x ≡ key l)
    → names n l ≡ true
    → select_one (λ x. key x == key l) w.job_queue ≡ some l
    → e < l.fencing_epoch
    → IsSuperseded n e w
sole_row key n e w {l} u own named found passed = record {
  present = count_found (λ x. key x == key l) (names n) w.job_queue found named;
  passed = elim (Option-cases (select_one (names_at_most n e) w.job_queue)) [
    | inl q ↦ count-none (names_at_most n e) (names_at_most n e) w.job_queue (λ x t. t) q
    | inr (r, q) ↦
        let fits = select_one_holds (names_at_most n e) w.job_queue q in
        let by_key =
          select_by_key key (key l) (names_at_most n e) w.job_queue u (λ x t. own x (ground arith))
            q in
        let both : some r ≡ some l = sym by_key ∙ found in
        let row_is : r ≡ l = cc both in
        let late : leb r.fencing_epoch e ≡ true = ground arith in
        let same_epoch = ap (λ (a : JobLease). a.fencing_epoch) row_is in
        absurd (ground (arith, late, same_epoch, passed))
  ];
}

-- What a lease leaves: the row of its job, found by its id.
Leased-found :
    {owner : String} {seconds : ℕ} {w w' : World} {l : JobLease}
    → HasUniqueJobs w.job_queue
    → Leased owner seconds w w' l
    → select_one (λ x. x.job_id == l.job_id) w'.job_queue ≡ some l
Leased-found {owner} {seconds} {w} {w'} {l} u h =
    let row = leased_row owner seconds w h.attempt h.job.fencing_epoch in
    let own : (h.job.job_id == h.job.job_id) ≡ true = (==_iff h.job.job_id h.job.job_id).1 refl in
    let updated : select_one (λ x. x.job_id == h.job.job_id) w'.job_queue ≡ some (row h.job) =
      ap (select_one (λ x. x.job_id == h.job.job_id)) h.queue
      ∙ select_one-update (λ x. x.job_id == h.job.job_id) (λ x. x.job_id == h.job.job_id) row
          w.job_queue (λ x. refl)
      ∙ ap (Option.map (λ y. if y.job_id == h.job.job_id then row y else y))
          (first_leasable-found w w.job_queue u.jobs h.picked)
      ∙ ap (λ b. some (if b then row h.job else h.job)) own in
    ap (λ k. select_one (λ x. x.job_id == k) w'.job_queue) (ap (λ (a : JobLease). a.job_id) h.lease)
    ∙ updated
    ∙ ap some (sym h.lease)

module _ {owner : String} {seconds : ℕ} {w w' : World} {l : JobLease} (e : ℕ) where
  lease-IsSuperseded_job :
      HasUniqueJobs w.job_queue
      → Leased owner seconds w w' l
      → e < l.fencing_epoch
      → IsSuperseded (by_job l.job_id l.site_id) e w'
  lease-IsSuperseded_job u h passed =
      let u' = JobMoves-HasUniqueJobs w w' (Leased-JobMoves u.jobs h) u in
      sole_row (λ x. x.job_id) (by_job l.job_id l.site_id) e w' u'.jobs (λ x t. ground arith)
        (ground arith) (Leased-found u h) passed

  lease-IsSuperseded_run :
      HasUniqueJobs w.job_queue
      → Leased owner seconds w w' l
      → e < l.fencing_epoch
      → IsSuperseded (by_run l.schedule_run_id l.site_id) e w'
  lease-IsSuperseded_run u h passed =
      let u' = JobMoves-HasUniqueJobs w w' (Leased-JobMoves u.jobs h) u in
      sole_row (λ x. x.schedule_run_id) (by_run l.schedule_run_id l.site_id) e w' u'.runs
        (λ x t. ground arith) (ground arith)
        (select_key_of_found (λ x. x.schedule_run_id) (λ x. x.job_id == l.job_id) w'.job_queue
          u'.runs (Leased-found u h))
        passed

-- What a call at an older epoch gets, and what its transaction leaves.
pub record IsRefused {ℓ} {A : Type ℓ} (m : Tx A) (w : World) : Type ℓ where
  pub answer : (transaction m w).0 ≡ raised stale_lease
  pub unchanged : (transaction m w).1 ≡ w

refused {ℓ} : {A : Type ℓ} (m : Tx A) (w : World) → (m w).0 ≡ raised stale_lease → IsRefused m w
unfolding transaction
refused m w h = record {
  answer = ap (λ r. (commit_or_rollback w r (m w).1).0) h;
  unchanged = ap (λ r. (commit_or_rollback w r (m w).1).1) h;
}

-- The committed calls are any, so they may let more workers lease the job.
module _ (owner : String) (seconds : ℕ) (w : World) {l : JobLease} {w' : World} (cs : List Call)
    (e : ℕ) where
  taken_run :
      HasUniqueJobs w.job_queue
      → lease_next_job owner seconds w ≡ (ok (some l), w')
      → e < l.fencing_epoch
      → IsSuperseded (by_run l.schedule_run_id l.site_id) e (performs cs w')
  taken_run u h passed =
      let done = lease_next_job-Leased owner seconds w h in
      performs-IsSuperseded cs (by_run l.schedule_run_id l.site_id) e w'
        (JobMoves-HasUniqueJobs w w' (Leased-JobMoves u.jobs done) u)
        (lease-IsSuperseded_run e u done passed)

  taken_job :
      HasUniqueJobs w.job_queue
      → lease_next_job owner seconds w ≡ (ok (some l), w')
      → e < l.fencing_epoch
      → IsSuperseded (by_job l.job_id l.site_id) e (performs cs w')
  taken_job u h passed =
      let done = lease_next_job-Leased owner seconds w h in
      performs-IsSuperseded cs (by_job l.job_id l.site_id) e w'
        (JobMoves-HasUniqueJobs w w' (Leased-JobMoves u.jobs done) u)
        (lease-IsSuperseded_job e u done passed)

  -- Once lease_next_job has returned a lease at epoch n on a queue with unique ids, then after
  -- any committed calls mark_running of the lease's run at an epoch below n raises
  -- StaleLeaseError, and its transaction changes nothing.
  pub mark_running-after_takeover :
      (request : Option Uuid)
      → HasUniqueJobs w.job_queue
      → lease_next_job owner seconds w ≡ (ok (some l), w')
      → e < l.fencing_epoch
      → IsRefused (mark_running l.schedule_run_id l.site_id e request) (performs cs w')
  mark_running-after_takeover request u h passed =
      refused (mark_running l.schedule_run_id l.site_id e request) (performs cs w') (
        mark_running_superseded l.schedule_run_id l.site_id e request (performs cs w')
          (taken_run u h passed))

  -- Once lease_next_job has returned a lease at epoch n on a queue with unique ids, then after
  -- any committed calls finalize_run of the lease's run with a terminal status at an epoch below
  -- n raises StaleLeaseError, and its transaction changes nothing.
  pub finalize_run-after_takeover :
      (status : RunStatus) (reason : Option String) (c : Option Candidate)
      (finished : Option Instant) (request : Option Uuid)
      → is_terminal status ≡ true
      → HasUniqueJobs w.job_queue
      → lease_next_job owner seconds w ≡ (ok (some l), w')
      → e < l.fencing_epoch
      → IsRefused
          (finalize_run l.schedule_run_id l.site_id e status reason c finished request)
          (performs cs w')
  finalize_run-after_takeover status reason c finished request t u h passed =
      refused (finalize_run l.schedule_run_id l.site_id e status reason c finished request)
        (performs cs w')
        (finalize_run_superseded l.schedule_run_id l.site_id e status reason c finished request
          (performs cs w') t (taken_run u h passed))

  -- Once lease_next_job has returned a lease at epoch n on a queue with unique ids, then after
  -- any committed calls complete_job and fail_job of the lease's job at an epoch below n raise
  -- StaleLeaseError, and their transactions change nothing.
  pub end_job-after_takeover :
      HasUniqueJobs w.job_queue
      → lease_next_job owner seconds w ≡ (ok (some l), w')
      → e < l.fencing_epoch
      → IsRefused (complete_job l.job_id l.site_id e) (performs cs w')
        × IsRefused (fail_job l.job_id l.site_id e) (performs cs w')
  unfolding complete_job fail_job
  end_job-after_takeover u h passed =
      let gone = taken_job u h passed in
      (
        refused (complete_job l.job_id l.site_id e) (performs cs w')
            (end_job_superseded completed l.job_id l.site_id e (performs cs w') gone),
        refused (fail_job l.job_id l.site_id e) (performs cs w')
            (end_job_superseded failed l.job_id l.site_id e (performs cs w') gone),
      )
