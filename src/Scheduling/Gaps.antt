-- ===== src/Scheduling/Gaps.antt =====
-- What the empty results of the checks say of the sorted groups.
use roster_ai.Base.{
  ℕ, ◌+◌, ◌≤◌, ◌≡◌, refl, Bool, true, false, List, [], ◌∷◌, ◌++◌, ltb, null, filter, All, inl, inr,
  Bool-cases, arith,
}
use roster_ai.Contracts.Scheduling.{Assignment, SelectedShift}
use roster_ai.Scheduling.Sorting.{
  sorted, Pairwise, Chain, Chain-Pairwise, Pairwise-map, sorted-IsSorted, sorted-Pairwise,
}
use roster_ai.Scheduling.Rules.{Disjoint, Apart}
use roster_ai.Scheduling.HardConstraints.{
  starts_first, overlapping, gap_violations, shift_starts_first, sum_of, concat_of,
}

pub null-filter {ℓ} :
    {A : Type ℓ} (p : A → Bool) (xs : List A)
    → null (filter p xs) ≡ true
    → All (λ x. p x ≡ false) xs
null-filter p [] h = tt
null-filter p (x ∷ xs) h = elim (Bool-cases (p x)) [
  | inl e ↦ cc (rw e at h)
  | inr e ↦ (e, null-filter p xs (rw e at h))
]

pub sum_zero {ℓ} : {A : Type ℓ} (f : A → ℕ) (xs : List A) → sum_of f xs ≡ 0 → All (λ x. f x ≡ 0) xs
sum_zero f [] h = tt
sum_zero f (x ∷ xs) h = (omega (arith, h), sum_zero f xs (omega (arith, h)))

null-++ {ℓ} :
    {A : Type ℓ} (xs ys : List A) → null (xs ++ ys) ≡ true → (null xs ≡ true) × (null ys ≡ true)
null-++ [] ys h = (refl, h)
null-++ (x ∷ xs) ys h = cc

pub null-concat {ℓ κ} :
    {A : Type ℓ} {B : Type κ} (f : A → List B) (xs : List A)
    → null (concat_of f xs) ≡ true
    → All (λ x. null (f x) ≡ true) xs
null-concat f [] h = tt
null-concat f (x ∷ xs) h =
    let both = null-++ (f x) (concat_of f xs) h in (both.0, null-concat f xs both.1)

abbrev Before : Assignment → Assignment → Type 0
Before a b = a.end_minute ≤ b.start_minute

overlapping-Chain : (xs : List Assignment) → null (overlapping xs) ≡ true → Chain Before xs
overlapping-Chain [] h = tt
overlapping-Chain (x ∷ []) h = tt
overlapping-Chain (x ∷ y ∷ ys) h = elim (Bool-cases (ltb y.start_minute x.end_minute)) [
  | inl e ↦ cc (rw e at h)
  | inr e ↦ (ground (arith, e), overlapping-Chain (y ∷ ys) (rw e at h))
]

starts_first_total : (a b : Assignment) → starts_first a b ≡ false → starts_first b a ≡ true
starts_first_total a b h = ground arith

starts_first_trans :
    (a b c : Assignment)
    → starts_first a b ≡ true
    → starts_first b c ≡ true
    → starts_first a c ≡ true
starts_first_trans a b c h k = ground arith

pub overlapping-Disjoint :
    (xs : List Assignment)
    → null (overlapping (sorted starts_first xs)) ≡ true
    → Pairwise Disjoint xs
overlapping-Disjoint xs h =
    sorted-Pairwise starts_first (λ a b r. elim r [ inl e ↦ inr e | inr e ↦ inl e ]) xs
      (Pairwise-map Before Disjoint (sorted starts_first xs) (λ a b r. inl r)
        (Chain-Pairwise starts_first Before (λ a b c r t. ground (arith, r, t))
          (sorted starts_first xs)
          (sorted-IsSorted starts_first starts_first_total starts_first_trans xs)
          (overlapping-Chain (sorted starts_first xs) h)))

abbrev WellBefore : ℕ → SelectedShift → SelectedShift → Type 0
WellBefore gap a b = gap + a.end_minute ≤ b.start_minute

gap-Chain :
    (gap : ℕ) (xs : List SelectedShift) → gap_violations gap xs ≡ 0 → Chain (WellBefore gap) xs
gap-Chain gap [] h = tt
gap-Chain gap (x ∷ []) h = tt
gap-Chain gap (x ∷ y ∷ ys) h = elim (Bool-cases (ltb y.start_minute (gap + x.end_minute))) [
  | inl e ↦ absurd (omega (arith, rw e at h))
  | inr e ↦ (ground (arith, e), gap-Chain gap (y ∷ ys) (rw e at h))
]

pub gap-Apart :
    (gap : ℕ) (xs : List SelectedShift)
    → gap_violations gap (sorted shift_starts_first xs) ≡ 0
    → Pairwise (Apart gap) xs
gap-Apart gap xs h =
    sorted-Pairwise shift_starts_first (λ a b r. elim r [ inl e ↦ inr e | inr e ↦ inl e ]) xs
      (Pairwise-map (WellBefore gap) (Apart gap) (sorted shift_starts_first xs) (λ a b r. inl r)
        (Chain-Pairwise shift_starts_first (WellBefore gap) (λ a b c r t. ground (arith, r, t))
          (sorted shift_starts_first xs)
          (sorted-IsSorted shift_starts_first (λ a b e. ground (arith, e))
            (λ a b c e d. ground (arith, e, d)) xs)
          (gap-Chain gap (sorted shift_starts_first xs) h)))
