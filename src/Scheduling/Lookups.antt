-- ===== src/Scheduling/Lookups.antt =====
-- What the dictionaries, sums and tests of the hard constraints find.
use native.Mathlib.Nat.{mul-suc}
use roster_ai.Base.{
  ℕ, suc, ◌+◌, ◌*◌, ◌/◌, ◌≤◌, ◌≡◌, refl, sym, ap, ◌∙◌, subst, Bool, true, false, ◌&&◌, none, some,
  List, [], ◌∷◌, if◌then◌else◌, ltb, leb, ◌==◌, str_eq, eq_iff, any, null, length, filter, All,
  All-map, Any, ◌⊎◌, inl, inr, Bool-cases, Option-cases, arith, String,
}
use roster_ai.Contracts.Scheduling.{
  Assignment, Lock, WorkerFact, SelectedShift, ValidationFacts, Fraction,
}
use roster_ai.Scheduling.Gaps.{null-filter}
use roster_ai.Scheduling.Sorting.{Pairwise}
use roster_ai.Scheduling.Rules.{SameSlot, is_on, Honours, same_shift, by_reference}
use roster_ai.Scheduling.HardConstraints.{
  dict_get, worker_of, cap_of, slot_eq, day_eq, day_of, plus, sum_fractions, keeps_lock,
  partition_colon,
}

module _ {A : Type 0} where
  pub Any-map : (P Q : A → Type 0) (xs : List A) → ((x : A) → P x → Q x) → Any P xs → Any Q xs
  Any-map P Q [] k h = absurd h
  Any-map P Q (x ∷ xs) k (inl e) = inl (k x e)
  Any-map P Q (x ∷ xs) k (inr e) = inr (Any-map P Q xs k e)

  pub any-Any : (p : A → Bool) (xs : List A) → any p xs ≡ true → Any (λ x. p x ≡ true) xs
  any-Any p [] h = cc
  any-Any p (x ∷ xs) h = elim (Bool-cases (p x)) [
    | inl e ↦ inl e
    | inr e ↦ inr (any-Any p xs (rw e at h))
  ]

  found_here :
      (p : A → Bool) (x y : A) → (if p x then some x else none) ≡ some y → (p x ≡ true) × (x ≡ y)
  found_here p x y h = elim (Bool-cases (p x)) [
    | inl e ↦ let same : some x ≡ some y = rw e at h in (e, cc same)
    | inr e ↦ cc (rw e at h)
  ]

  pub dict_get-Any :
      (p : A → Bool) (xs : List A) {y : A}
      → dict_get p xs ≡ some y
      → Any (λ x. (p x ≡ true) × (x ≡ y)) xs
  dict_get-Any p [] h = cc
  dict_get-Any p (x ∷ xs) {y} h = elim (Option-cases (dict_get p xs)) [
    | inl e ↦ inl (found_here p x y (rw e at h))
    | inr (z, e) ↦ let same : z ≡ y = cc (rw e at h) in inr (dict_get-Any p xs (e ∙ ap some same))
  ]

  pub filter-ext :
      (p q : A → Bool) (xs : List A) → ((x : A) → p x ≡ q x) → filter p xs ≡ filter q xs
  filter-ext p q [] k = refl
  filter-ext p q (x ∷ xs) k = rw (k x, filter-ext p q xs k) refl

-- The worker with an id, and the cap of the worker's employment type.
pub worker_of-Any :
    (facts : ValidationFacts) (k : String) {w : WorkerFact}
    → worker_of facts k ≡ some w
    → Any (λ x. (x.worker_id ≡ k) × (x ≡ w)) facts.workers
worker_of-Any facts k {w} h =
    Any-map (λ x. (str_eq x.worker_id k ≡ true) × (x ≡ w)) (λ x. (x.worker_id ≡ k) × (x ≡ w))
      facts.workers (λ x e. ((eq_iff x.worker_id k).0 e.0, e.1))
      (dict_get-Any (λ (x : WorkerFact). str_eq x.worker_id k) facts.workers h)

cap_missing :
    {A : Type 0} (otherwise : A) (caps : List (String × A)) (w : WorkerFact)
    → dict_get (λ c. str_eq c.0 w.employment_type) caps ≡ none
    → cap_of otherwise caps (some w) ≡ otherwise
cap_missing otherwise caps w d = rw (cap_of, d) refl

cap_found :
    {A : Type 0} (otherwise : A) (caps : List (String × A)) (w : WorkerFact) {c : String × A}
    → dict_get (λ c. str_eq c.0 w.employment_type) caps ≡ some c
    → cap_of otherwise caps (some w) ≡ c.1
cap_found otherwise caps w d = rw (cap_of, d) refl

-- A cap is the default, or a worker with the id has a cap of the same type.
pub cap_of-cases :
    {A : Type 0} (otherwise : A) (caps : List (String × A)) (facts : ValidationFacts) (k : String)
    (P : A → Type 0)
    → P (cap_of otherwise caps (worker_of facts k))
    → P otherwise
      ⊎ Any
          (λ w. (w.worker_id ≡ k) × Any (λ c. (c.0 ≡ w.employment_type) × P c.1) caps)
          facts.workers
cap_of-cases otherwise caps facts k P h = elim (Option-cases (worker_of facts k)) [
  | inl e ↦ inl (rw e at h)
  | inr (w, e) ↦
      let p = λ (c : String × _). str_eq c.0 w.employment_type in
      elim (Option-cases (dict_get p caps)) [
        | inl d ↦ inl (subst P (cap_missing otherwise caps w d) (rw e at h))
        | inr (c, d) ↦
            let good : P c.1 = subst P (cap_found otherwise caps w d) (rw e at h) in
            inr (
              Any-map (λ x. (x.worker_id ≡ k) × (x ≡ w))
                (λ x. (x.worker_id ≡ k) × Any (λ c. (c.0 ≡ x.employment_type) × P c.1) caps)
                facts.workers
                (λ x i. (
                  i.0,
                  Any-map (λ b. (p b ≡ true) × (b ≡ c)) (λ b. (b.0 ≡ x.employment_type) × P b.1)
                      caps
                      (λ b j. (
                        (eq_iff b.0 w.employment_type).0 j.0
                            ∙ ap (λ (y : WorkerFact). y.employment_type) (sym i.1),
                        subst (λ y. P y.1) (sym j.1) good,
                      ))
                      (dict_get-Any p caps d),
                ))
                (worker_of-Any facts k e))
      ]
]

mul_zero : (a b : ℕ) → a * suc b ≡ 0 → a ≡ 0
mul_zero a b h = omega (arith, h, mul-suc a b)

pub plus_zero : (p q : Fraction) → (plus p q).numerator ≡ 0 → (p.numerator ≡ 0) × (q.numerator ≡ 0)
plus_zero p q h = (
  mul_zero p.numerator q.below (omega (arith, h)),
  mul_zero q.numerator p.below (omega (arith, h)),
)

pub sum_fractions_zero {ℓ} :
    {A : Type ℓ} (f : A → Fraction) (xs : List A)
    → (sum_fractions f xs).numerator ≡ 0
    → All (λ x. (f x).numerator ≡ 0) xs
sum_fractions_zero f [] h = tt
sum_fractions_zero f (x ∷ xs) h =
    let both = plus_zero (f x) (sum_fractions f xs) h in (both.0, sum_fractions_zero f xs both.1)

day_interval : (m d : ℕ) → (m / 1440 == d) ≡ (leb (d * 1440) m && ltb m (d * 1440 + 1440))
day_interval m d = ground arith

-- The key of a shift's day is the worker's on that day.
pub day_key :
    (k : String) (day : ℕ) (s : SelectedShift) → day_eq (day_of s) (k, day) ≡ is_on k day s
day_key k day s = ap (λ b. str_eq s.worker_id k && b) (day_interval s.start_minute day)

slot_key :
    (s t : SelectedShift)
    → SameSlot s t
    → slot_eq (t.worker_id, t.window_id) (s.worker_id, s.window_id) ≡ true
slot_key s t h =
    rw ((eq_iff t.worker_id s.worker_id).1 (sym h.0), (eq_iff t.window_id s.window_id).1 (sym h.1))
      refl

length-null : {A : Type 0} (xs : List A) → length xs ≤ 0 → null xs ≡ true
length-null [] h = refl
length-null (x ∷ xs) h = absurd (omega (arith, h))

-- When no key occurs twice, no two shifts have one slot.
pub keys-Pairwise :
    (xs : List SelectedShift)
    → ((slot : String × String)
        → length (filter (λ s. slot_eq (s.worker_id, s.window_id) slot) xs) ≤ 1)
    → Pairwise (λ s t. ¬ (SameSlot s t)) xs
keys-Pairwise [] h = tt
keys-Pairwise (x ∷ xs) h =
    let own = h (x.worker_id, x.window_id) in
    let alone = rw (slot_key x x (refl, refl)) at own in
    (
      All-map (λ t. slot_eq (t.worker_id, t.window_id) (x.worker_id, x.window_id) ≡ false)
          (λ t. ¬ (SameSlot x t)) xs (λ t e same. cc (slot_key x t same, e))
          (null-filter (λ t. slot_eq (t.worker_id, t.window_id) (x.worker_id, x.window_id)) xs
            (length-null
              (filter (λ t. slot_eq (t.worker_id, t.window_id) (x.worker_id, x.window_id)) xs)
              (omega (arith, alone)))),
      keys-Pairwise xs (λ slot.
          let all = h slot in
          elim (Bool-cases (slot_eq (x.worker_id, x.window_id) slot)) [
            | inl e ↦ omega (arith, rw e at all)
            | inr e ↦ rw e at all
          ]),
    )

pub keeps_lock-Honours : (l : Lock) (a : Assignment) → keeps_lock l a ≡ true → Honours l a
keeps_lock-Honours l a h = elim (Bool-cases (str_eq l.target_type "worker_shift")) [
  | inl e ↦ elim (Option-cases a.shift_id) [
    | inl n ↦ absurd (ground (arith, e, n, h))
    | inr (k, p) ↦
        same_shift ((eq_iff l.target_type "worker_shift").0 e)
          ((eq_iff a.worker_id (partition_colon l.target_ref).0).0 (ground (arith, e, p, h)))
          (p ∙ ap some ((eq_iff k (partition_colon l.target_ref).1).0 (ground (arith, e, p, h))))
  ]
  | inr e ↦ elim (Option-cases a.lock_ref) [
    | inl n ↦ absurd (ground (arith, e, n, h))
    | inr (k, p) ↦
        by_reference (λ t. let d = (eq_iff l.target_type "worker_shift").1 t in cc (d, e))
          (p ∙ ap some ((eq_iff k l.record_id).0 (ground (arith, e, p, h))))
  ]
]
