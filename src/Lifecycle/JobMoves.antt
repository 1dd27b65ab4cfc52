-- ===== src/Lifecycle/JobMoves.antt =====
-- Changes of the job queue that keep the names of its rows.

use roster_ai.Base.{
  ◌≤◌, ◌≡◌, refl, sym, ap, subst, Bool, true, Option, none, some, List, [], ◌∷◌, ◌++◌,
  if◌then◌else◌, inl, inr, Bool-cases, arith, ◌==◌, ==_iff, ◌⊎◌,
}
use roster_ai.Base.Table.{select_one, update}
use roster_ai.Base.Unique.{UniqueBy, UniqueBy-update, UniqueBy-append, count_found}
use roster_ai.Contracts.JobLease.{JobLease}
use roster_ai.Store.{World}
use roster_ai.Repository.Jobs.{first_leasable, is_takeable, precedes, clashes}

-- An edit of rows that keeps what names them.
pub record IsEdit (f : JobLease → JobLease) : Type 0 where
  pub same_job : (x : JobLease) → (f x).job_id ≡ x.job_id
  pub same_run : (x : JobLease) → (f x).schedule_run_id ≡ x.schedule_run_id
  pub same_site : (x : JobLease) → (f x).site_id ≡ x.site_id
  pub epoch : (x : JobLease) → x.fencing_epoch ≤ (f x).fencing_epoch

pub data JobMoves (w w' : World) : Type 0 where
  same : w'.job_queue ≡ w.job_queue → JobMoves w w'
  edited :
      (p : JobLease → Bool) (f : JobLease → JobLease)
      → IsEdit f
      → w'.job_queue ≡ update p f w.job_queue
      → JobMoves w w'
  inserted :
      (j : JobLease)
      → select_one (clashes j) w.job_queue ≡ none
      → w'.job_queue ≡ w.job_queue ++ j ∷ []
      → JobMoves w w'

-- The job queue's keys.
pub record HasUniqueJobs (js : List JobLease) : Type 0 where
  pub jobs : UniqueBy (λ j. j.job_id) js
  pub runs : UniqueBy (λ j. j.schedule_run_id) js

select_weaker :
    (p q : JobLease → Bool) (js : List JobLease)
    → ((x : JobLease) → q x ≡ true → p x ≡ true)
    → select_one p js ≡ none
    → select_one q js ≡ none
unfolding select_one
select_weaker p q [] k h = refl
select_weaker p q (x ∷ xs) k h = elim (Bool-cases (p x)) [
  | inl e ↦ cc (rw e at h)
  | inr e ↦ elim (Bool-cases (q x)) [
    | inl d ↦ cc (k x d, e)
    | inr d ↦ rw d (select_weaker p q xs k (rw e at h))
  ]
]

pub JobMoves-HasUniqueJobs :
    (w w' : World) → JobMoves w w' → HasUniqueJobs w.job_queue → HasUniqueJobs w'.job_queue
JobMoves-HasUniqueJobs w w' (same e) u = subst HasUniqueJobs (sym e) u
JobMoves-HasUniqueJobs w w' (edited p f k e) u = subst HasUniqueJobs (sym e) (record {
  jobs = UniqueBy-update (λ j. j.job_id) p f w.job_queue k.same_job u.jobs;
  runs = UniqueBy-update (λ j. j.schedule_run_id) p f w.job_queue k.same_run u.runs;
})
JobMoves-HasUniqueJobs w w' (inserted j fresh e) u = subst HasUniqueJobs (sym e) (record {
  jobs =
      UniqueBy-append (λ x. x.job_id) w.job_queue j u.jobs
        (select_weaker (clashes j) (λ x. x.job_id == j.job_id) w.job_queue (λ x t. ground arith)
          fresh);
  runs =
      UniqueBy-append (λ x. x.schedule_run_id) w.job_queue j u.runs
        (select_weaker (clashes j) (λ x. x.schedule_run_id == j.schedule_run_id) w.job_queue
          (λ x t. ground arith) fresh);
})

pub picks :
    (store : World) (x : JobLease) (o : Option JobLease) (j : JobLease)
    → (if is_takeable store x
        then elim o [ none ↦ some x | some k ↦ if precedes k x then some k else some x ]
        else o)
      ≡ some j
    → ((x ≡ j) × (is_takeable store x ≡ true)) ⊎ (o ≡ some j)
picks store x none j h = elim (Bool-cases (is_takeable store x)) [
  | inl e ↦ inl (cc (rw e at h), e)
  | inr e ↦ cc (rw e at h)
]
picks store x (some k) j h = elim (Bool-cases (is_takeable store x)) [
  | inl e ↦ elim (Bool-cases (precedes k x)) [
    | inl d ↦ inr (rw (e, d) at h)
    | inr d ↦ inl (cc (rw (e, d) at h), e)
  ]
  | inr e ↦ inr (rw e at h)
]

-- The picked job is the row with its id, and may be leased.
pub first_leasable-found :
    (store : World) (js : List JobLease) {j : JobLease}
    → UniqueBy (λ x. x.job_id) js
    → first_leasable store js ≡ some j
    → select_one (λ x. x.job_id == j.job_id) js ≡ some j
unfolding first_leasable select_one
first_leasable-found store [] u h = cc
first_leasable-found store (x ∷ xs) {j} u h = elim (picks store x (first_leasable store xs) j h) [
  | inl (e, _) ↦ rw ((==_iff x.job_id j.job_id).1 (ap (λ (a : JobLease). a.job_id) e)) (ap some e)
  | inr rest ↦
      let found = first_leasable-found store xs u.1 rest in
      elim (Bool-cases (x.job_id == j.job_id)) [
        | inl d ↦ absurd (
            omega (
              arith,
              u.0,
              count_found (λ y. y.job_id == j.job_id) (λ y. y.job_id == x.job_id) xs found
                  ((==_iff j.job_id x.job_id).1 (sym ((==_iff x.job_id j.job_id).0 d))),
            ))
        | inr d ↦ rw d found
      ]
]
