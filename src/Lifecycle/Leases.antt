-- ===== src/Lifecycle/Leases.antt =====
-- `lease_next_job`: which job it hands out, and what a lease does to the queue.

use roster_ai.Base.{
  ℕ, ◌≡◌, refl, ◌∙◌, subst, true, false, ◌&&◌, Option, none, some, List, [], ◌∷◌, if◌then◌else◌,
  inl, inr, Bool-cases, arith, ◌==◌, ltb, String, str_eq, not, All,
}
use roster_ai.Base.Table.{update}
use roster_ai.Base.Unique.{UniqueBy, update_agree}
use roster_ai.Contracts.JobLease.{Uuid, JobLease, post_init}
use roster_ai.Repository.Rows.{uuid4}
use roster_ai.Store.{World, value_error}
use roster_ai.Store.Tx.{ok, require->>-eq-ok}
use roster_ai.Repository.Jobs.{
  lease_next_job, take_lease, first_leasable, is_takeable, precedes, leased_row,
}
use roster_ai.Lifecycle.JobMoves.{JobMoves, edited, IsEdit, picks, first_leasable-found}

nothing_picked :
    (store : World) (x : JobLease) (o : Option JobLease)
    → (if is_takeable store x
        then elim o [ none ↦ some x | some k ↦ if precedes k x then some k else some x ]
        else o)
      ≡ none
    → (is_takeable store x ≡ false) × (o ≡ none)
nothing_picked store x none h = elim (Bool-cases (is_takeable store x)) [
  | inl e ↦ cc (rw e at h)
  | inr e ↦ (e, refl)
]
nothing_picked store x (some k) h = elim (Bool-cases (is_takeable store x)) [
  | inl e ↦ elim (Bool-cases (precedes k x)) [
    | inl d ↦ cc (rw (e, d) at h)
    | inr d ↦ cc (rw (e, d) at h)
  ]
  | inr e ↦ cc (rw e at h)
]

-- When nothing is picked, nothing may be leased.
pub first_leasable-none :
    (store : World) (js : List JobLease)
    → first_leasable store js ≡ none
    → All (λ k. is_takeable store k ≡ false) js
unfolding first_leasable
first_leasable-none store [] h = tt
first_leasable-none store (x ∷ xs) h =
    let both = nothing_picked store x (first_leasable store xs) h in
    (both.0, first_leasable-none store xs both.1)

-- No leasable job of the list comes before `j`.
abbrev pub IsFirst : World → JobLease → List JobLease → Type 0
IsFirst store j = All (λ k. (is_takeable store k && precedes k j) ≡ false)

precedes_trans :
    (a b c : JobLease) → precedes a b ≡ false → precedes b c ≡ false → precedes a c ≡ false
precedes_trans a b c h k = ground arith

precedes_asymm : (a b : JobLease) → precedes a b ≡ true → precedes b a ≡ false
precedes_asymm a b h = ground arith

precedes_irrefl : (a : JobLease) → precedes a a ≡ false
precedes_irrefl a = ground arith

not_before :
    (store : World) (a b : JobLease)
    → precedes a b ≡ false
    → (is_takeable store a && precedes a b) ≡ false
not_before store a b h = ground (arith, h)

still_after :
    (store : World) (a b c : JobLease)
    → (is_takeable store a && precedes a b) ≡ false
    → precedes b c ≡ false
    → (is_takeable store a && precedes a c) ≡ false
still_after store a b c h k = elim (Bool-cases (is_takeable store a)) [
  | inl e ↦ rw e (precedes_trans a b c (rw e at h) k)
  | inr e ↦ rw e refl
]

IsFirst-trans :
    (store : World) (k x : JobLease) (js : List JobLease)
    → precedes k x ≡ false
    → IsFirst store k js
    → IsFirst store x js
IsFirst-trans store k x [] h f = tt
IsFirst-trans store k x (y ∷ ys) h f =
    (still_after store y k x f.0 h, IsFirst-trans store k x ys h f.1)

IsFirst-of_none :
    (store : World) (x : JobLease) (js : List JobLease)
    → All (λ k. is_takeable store k ≡ false) js
    → IsFirst store x js
IsFirst-of_none store x [] h = tt
IsFirst-of_none store x (y ∷ ys) h = (rw h.0 refl, IsFirst-of_none store x ys h.1)

pick-IsFirst :
    (store : World) (x : JobLease) (xs : List JobLease) (o : Option JobLease) {j : JobLease}
    → first_leasable store xs ≡ o
    → ((k : JobLease) → o ≡ some k → IsFirst store k xs)
    → (if is_takeable store x
        then elim o [ none ↦ some x | some k ↦ if precedes k x then some k else some x ]
        else o)
      ≡ some j
    → IsFirst store j (x ∷ xs)
pick-IsFirst store x xs none {j} rest ih h = elim (Bool-cases (is_takeable store x)) [
  | inl e ↦
      let x_is : some x ≡ some j = rw e at h in
      let same_row : x ≡ j = cc x_is in
      subst (λ a. IsFirst store a (x ∷ xs)) same_row
        (
          not_before store x x (precedes_irrefl x),
          IsFirst-of_none store x xs (first_leasable-none store xs rest),
        )
  | inr e ↦ cc (rw e at h)
]
pick-IsFirst store x xs (some k) {j} rest ih h = elim (Bool-cases (is_takeable store x)) [
  | inl e ↦ elim (Bool-cases (precedes k x)) [
    | inl d ↦
        let k_is : k ≡ j = cc (rw (e, d) at h) in
        subst (λ a. IsFirst store a (x ∷ xs)) k_is
          (not_before store x k (precedes_asymm k x d), ih k refl)
    | inr d ↦
        let x_is : x ≡ j = cc (rw (e, d) at h) in
        subst (λ a. IsFirst store a (x ∷ xs)) x_is
          (not_before store x x (precedes_irrefl x), IsFirst-trans store k x xs d (ih k refl))
  ]
  | inr e ↦
      let k_is : k ≡ j = cc (rw e at h) in
      subst (λ a. IsFirst store a (x ∷ xs)) k_is (rw e refl, ih k refl)
]

-- The job that is picked is first of those that may be leased, by age and then by id.
pub first_leasable-IsFirst :
    (store : World) (js : List JobLease) {j : JobLease}
    → first_leasable store js ≡ some j
    → IsFirst store j js
unfolding first_leasable
first_leasable-IsFirst store [] h = cc
first_leasable-IsFirst store (x ∷ xs) h =
    pick-IsFirst store x xs (first_leasable store xs) refl
      (λ k e. first_leasable-IsFirst store xs e) h

-- It may be leased.
pub first_leasable-is_takeable :
    (store : World) (js : List JobLease) {j : JobLease}
    → first_leasable store js ≡ some j
    → is_takeable store j ≡ true
unfolding first_leasable
first_leasable-is_takeable store [] h = cc
first_leasable-is_takeable store (x ∷ xs) {j} h =
    elim (picks store x (first_leasable store xs) j h) [
      | inl (e, t) ↦ subst (λ a. is_takeable store a ≡ true) e t
      | inr rest ↦ first_leasable-is_takeable store xs rest
    ]

-- What a call that handed a lease out did.
pub record Leased (owner : String) (seconds : ℕ) (w w' : World) (l : JobLease) : Type 0 where
  pub job : JobLease
  pub attempt : Uuid
  pub picked : first_leasable w w.job_queue ≡ some job
  pub lease : l ≡ leased_row owner seconds w attempt job.fencing_epoch job
  pub queue :
      w'.job_queue
      ≡ update
          (λ q. q.job_id == job.job_id)
          (leased_row owner seconds w attempt job.fencing_epoch)
          w.job_queue

take_lease-Leased :
    (owner : String) (seconds : ℕ) (w : World) (o : Option JobLease) {l : JobLease} {w' : World}
    → first_leasable w w.job_queue ≡ o
    → take_lease owner seconds o w ≡ (ok (some l), w')
    → Leased owner seconds w w' l
unfolding uuid4
take_lease-Leased owner seconds w none found h = cc
take_lease-Leased owner seconds w (some job) {l} {w'} found h =
    let row = leased_row owner seconds w w.next_uuid job.fencing_epoch job in
    elim (Bool-cases (post_init row)) [
      | inl e ↦ record {
        job = job;
        attempt = w.next_uuid;
        picked = found;
        lease = ground (arith, e);
        queue = ground (arith, e);
      }
      | inr e ↦ absurd (ground (arith, e))
    ]

pub lease_next_job-Leased :
    (owner : String) (seconds : ℕ) (w : World) {l : JobLease} {w' : World}
    → lease_next_job owner seconds w ≡ (ok (some l), w')
    → Leased owner seconds w w' l
unfolding lease_next_job
lease_next_job-Leased owner seconds w h =
    let named = require->>-eq-ok (not (str_eq owner "")) value_error _ w h in
    let timed = require->>-eq-ok (ltb 0 seconds) value_error _ w named.1 in
    take_lease-Leased owner seconds w (first_leasable w w.job_queue) refl timed.1

-- On ids that are unique, a lease is an edit that raises its job's epoch by one.
lease_edit : String → ℕ → World → Uuid → JobLease → JobLease
lease_edit owner seconds w attempt q = leased_row owner seconds w attempt q.fencing_epoch q

lease_edit-IsEdit :
    (owner : String) (seconds : ℕ) (w : World) (attempt : Uuid)
    → IsEdit (lease_edit owner seconds w attempt)
unfolding lease_edit
lease_edit-IsEdit owner seconds w attempt = record {
  same_job = λ x. refl;
  same_run = λ x. refl;
  same_site = λ x. refl;
  epoch = λ x. omega arith;
}

pub Leased-JobMoves :
    {owner : String} {seconds : ℕ} {w w' : World} {l : JobLease}
    → UniqueBy (λ j. j.job_id) w.job_queue
    → Leased owner seconds w w' l
    → JobMoves w w'
unfolding lease_edit
Leased-JobMoves {owner} {seconds} {w} u h =
    edited (λ q. q.job_id == h.job.job_id) (lease_edit owner seconds w h.attempt)
      (lease_edit-IsEdit owner seconds w h.attempt)
      (h.queue
        ∙ update_agree (λ q. q.job_id) h.job.job_id
            (leased_row owner seconds w h.attempt h.job.fencing_epoch)
            (lease_edit owner seconds w h.attempt) w.job_queue u
            (first_leasable-found w w.job_queue u h.picked) refl)
