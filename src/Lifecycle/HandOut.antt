-- ===== src/Lifecycle/HandOut.antt =====
-- What a worker that asks for a job gets.
use roster_ai.Base.{
  ℕ, ◌+◌, ◌≡◌, refl, sym, ap, true, false, Option, none, some, All, String, arith, not, ltb, str_eq,
  inl, inr, Bool-cases, Option-cases, ◌==◌, ==_iff, ◌⊎◌, ◌<◌, ◌≤◌, List, [], ◌∷◌, any, Any, All-map,
  ◌&&◌,
}
use roster_ai.Base.Table.{select_one}
use roster_ai.Contracts.JobLease.{JobLease, post_init, Instant, Uuid, queued, leased, is_queued}
use roster_ai.Repository.Rows.{uuid4}
use roster_ai.Store.{World, value_error}
use roster_ai.Store.Tx.{ok, require->>-eq-ok}
use roster_ai.Repository.Jobs.{
  lease_next_job, take_lease, first_leasable, is_leasable, leased_row, is_takeable, is_locked,
  precedes,
}
use roster_ai.Lifecycle.JobMoves.{HasUniqueJobs, first_leasable-found}
use roster_ai.Lifecycle.Leases.{
  lease_next_job-Leased, first_leasable-IsFirst, first_leasable-is_takeable, first_leasable-none,
}

-- A job that waits, or whose lease has run out.
pub data IsLeasable (now : Instant) (j : JobLease) : Type 0 where
  waiting : j.status ≡ queued → IsLeasable now j
  lapsed :
      (t : Instant) → j.status ≡ leased → j.lease_expires_at ≡ some t → t < now → IsLeasable now j

-- `j` is older than `k`, or as old with an id that is not greater.
abbrev pub IsNotAfter : JobLease → JobLease → Type 0
IsNotAfter j k =
    (j.created_at < k.created_at) ⊎ ((j.created_at ≡ k.created_at) × (j.job_id ≤ k.job_id))

abbrev pub IsHeld : World → JobLease → Type 0
IsHeld w j = Any (λ id. id ≡ j.job_id) w.locked

-- The lease `l` of a job of the queue, for `seconds` from now, one epoch later.
pub record IsHandedOut (owner : String) (seconds : ℕ) (w : World) (l : JobLease) : Type 0 where
  pub job : JobLease
  pub row : select_one (λ x. x.job_id == job.job_id) w.job_queue ≡ some job
  pub leasable : IsLeasable w.now job
  pub free : ¬ (IsHeld w job)
  pub first : All (λ k. IsLeasable w.now k → ¬ (IsHeld w k) → IsNotAfter job k) w.job_queue
  pub same_job : l.job_id ≡ job.job_id
  pub same_run : l.schedule_run_id ≡ job.schedule_run_id
  pub epoch : l.fencing_epoch ≡ job.fencing_epoch + 1
  pub expires : l.lease_expires_at ≡ some (w.now + seconds)
  pub held_by : l.lease_owner ≡ some owner

is_leasable-IsLeasable :
    (now : Instant) (j : JobLease) → is_leasable now j ≡ true → IsLeasable now j
is_leasable-IsLeasable now j h = elim (Bool-cases (is_queued j.status)) [
  | inl e ↦ waiting (ground (arith, e))
  | inr e ↦ elim (Option-cases j.lease_expires_at) [
    | inl n ↦ absurd (ground (arith, e, n, h))
    | inr (t, p) ↦ lapsed t (ground (arith, e, h)) p (ground (arith, e, h, p))
  ]
]

IsLeasable-is_leasable :
    (now : Instant) (j : JobLease) → IsLeasable now j → is_leasable now j ≡ true
IsLeasable-is_leasable now j (waiting e) = ground (arith, e)
IsLeasable-is_leasable now j (lapsed t e p l) = ground (arith, e, p, l)

any-Any : (ids : List Uuid) (k : Uuid) → any (λ id. id == k) ids ≡ true → Any (λ id. id ≡ k) ids
any-Any [] k h = cc
any-Any (x ∷ xs) k h = elim (Bool-cases (x == k)) [
  | inl e ↦ inl ((==_iff x k).0 e)
  | inr e ↦ inr (any-Any xs k (rw e at h))
]

Any-any : (ids : List Uuid) (k : Uuid) → Any (λ id. id ≡ k) ids → any (λ id. id == k) ids ≡ true
Any-any [] k h = absurd h
Any-any (x ∷ xs) k (inl e) = rw ((==_iff x k).1 e) refl
Any-any (x ∷ xs) k (inr e) = elim (Bool-cases (x == k)) [
  | inl d ↦ rw d refl
  | inr d ↦ rw d (Any-any xs k e)
]

takeable : (w : World) (k : JobLease) → IsLeasable w.now k → ¬ (IsHeld w k) → is_takeable w k ≡ true
takeable w k l f = elim (Bool-cases (is_locked w k)) [
  | inl e ↦ absurd (f (any-Any w.locked k.job_id e))
  | inr e ↦ rw (IsLeasable-is_leasable w.now k l, e) refl
]

not_before-IsNotAfter :
    (w : World) (j k : JobLease)
    → (is_takeable w k && precedes k j) ≡ false
    → IsLeasable w.now k
    → ¬ (IsHeld w k)
    → IsNotAfter j k
not_before-IsNotAfter w j k h l f =
    let later : precedes k j ≡ false = rw (takeable w k l f) at h in
    elim (Bool-cases (ltb j.created_at k.created_at)) [
      | inl e ↦ inl (ground (arith, e))
      | inr e ↦ inr (ground (arith, e, later), ground (arith, e, later))
    ]

-- When lease_next_job returns a lease, on a queue with unique ids, it is of a row that is queued
-- or whose lease has expired and that no other session holds locked, and no such row is older, or
-- as old with a smaller id; the lease has the row's job and run, its epoch plus one, the owner,
-- and expires the given seconds from now.
pub lease_next_job-IsHandedOut :
    (owner : String) (seconds : ℕ) (w : World) {l : JobLease} {w' : World}
    → HasUniqueJobs w.job_queue
    → lease_next_job owner seconds w ≡ (ok (some l), w')
    → IsHandedOut owner seconds w l
lease_next_job-IsHandedOut owner seconds w {l} u h =
    let done = lease_next_job-Leased owner seconds w h in
    let fits = first_leasable-is_takeable w w.job_queue done.picked in
    record {
      job = done.job;
      row = first_leasable-found w w.job_queue u.jobs done.picked;
      leasable = is_leasable-IsLeasable w.now done.job (ground (arith, fits));
      free = λ held. absurd (ground (arith, fits, Any-any w.locked done.job.job_id held));
      first =
          All-map (λ k. (is_takeable w k && precedes k done.job) ≡ false)
            (λ k. IsLeasable w.now k → ¬ (IsHeld w k) → IsNotAfter done.job k) w.job_queue
            (λ k e. not_before-IsNotAfter w done.job k e)
            (first_leasable-IsFirst w w.job_queue done.picked);
      same_job = ap (λ (a : JobLease). a.job_id) done.lease;
      same_run = ap (λ (a : JobLease). a.schedule_run_id) done.lease;
      epoch = ap (λ (a : JobLease). a.fencing_epoch) done.lease;
      expires = ap (λ (a : JobLease). a.lease_expires_at) done.lease;
      held_by = ap (λ (a : JobLease). a.lease_owner) done.lease;
    }

nothing_taken :
    (owner : String) (seconds : ℕ) (w : World) (o : Option JobLease) {w' : World}
    → take_lease owner seconds o w ≡ (ok none, w')
    → (o ≡ none) × (w' ≡ w)
unfolding uuid4
nothing_taken owner seconds w none h = (refl, sym (ap (λ p. p.1) h))
nothing_taken owner seconds w (some job) h =
    elim (Bool-cases (post_init (leased_row owner seconds w w.next_uuid job.fencing_epoch job))) [
      | inl e ↦ absurd (ground (arith, e))
      | inr e ↦ absurd (ground (arith, e))
    ]

-- When lease_next_job returns none, other sessions hold every row locked that is queued or has an
-- expired lease, and nothing has changed.
pub lease_next_job-none :
    (owner : String) (seconds : ℕ) (w : World) {w' : World}
    → lease_next_job owner seconds w ≡ (ok none, w')
    → All (λ k. IsLeasable w.now k → IsHeld w k) w.job_queue × (w' ≡ w)
unfolding lease_next_job
lease_next_job-none owner seconds w h =
    let named = require->>-eq-ok (not (str_eq owner "")) value_error _ w h in
    let timed = require->>-eq-ok (ltb 0 seconds) value_error _ w named.1 in
    let got = nothing_taken owner seconds w (first_leasable w w.job_queue) timed.1 in
    (
      All-map (λ k. is_takeable w k ≡ false) (λ k. IsLeasable w.now k → IsHeld w k) w.job_queue
          (λ k e l. any-Any w.locked k.job_id (ground (arith, e, IsLeasable-is_leasable w.now k l)))
          (first_leasable-none w w.job_queue got.0),
      got.1,
    )
