-- ===== src/Scheduling/Sorting.antt =====
-- `sorted(values, key=…)`, which is stable, and pairwise relations on lists.
use roster_ai.Base.{
  ◌≡◌, Bool, true, false, List, [], ◌∷◌, if◌then◌else◌, inl, inr, Bool-cases, All, All-map,
}

module _ {ℓ} {A : Type ℓ} (le : A → A → Bool) where
  abbrev pub insert : A → List A → List A
  insert x [] = x ∷ []
  insert x (y ∷ ys) = let rest = insert x ys in if le x y then x ∷ y ∷ ys else y ∷ rest

  unfoldable pub sorted : List A → List A
  sorted [] = []
  sorted (x ∷ xs) = insert x (sorted xs)

-- Every element is related to every later one.
abbrev pub Pairwise {ℓ κ} : {A : Type ℓ} → (A → A → Type κ) → List A → Type κ
Pairwise R [] = Unit
Pairwise R (x ∷ xs) = All (R x) xs × Pairwise R xs

module _ {ℓ κ} {A : Type ℓ} (P : A → Type κ) (le : A → A → Bool) where
  All-insert : (x : A) (ys : List A) → P x → All P ys → All P (insert le x ys)
  All-insert x [] p h = (p, tt)
  All-insert x (y ∷ ys) p h = elim (Bool-cases (le x y)) [
    | inl e ↦ rw e (p, h)
    | inr e ↦ rw e (h.0, All-insert x ys p h.1)
  ]

  insert-All : (x : A) (ys : List A) → All P (insert le x ys) → P x × All P ys
  insert-All x [] h = (h.0, tt)
  insert-All x (y ∷ ys) h = elim (Bool-cases (le x y)) [
    | inl e ↦ let both : P x × (P y × All P ys) = rw e at h in both
    | inr e ↦
        let both : P y × All P (insert le x ys) = rw e at h in
        let rest = insert-All x ys both.1 in (rest.0, (both.0, rest.1))
  ]

  pub sorted-All : (xs : List A) → All P (sorted le xs) → All P xs
  unfolding sorted
  sorted-All [] h = tt
  sorted-All (x ∷ xs) h = let both = insert-All x (sorted le xs) h in (both.0, sorted-All xs both.1)

  pub All-sorted : (xs : List A) → All P xs → All P (sorted le xs)
  unfolding sorted
  All-sorted [] h = tt
  All-sorted (x ∷ xs) h = All-insert x (sorted le xs) h.0 (All-sorted xs h.1)

module _ {ℓ κ} {A : Type ℓ} {R : A → A → Type κ} (le : A → A → Bool)
    (swap : (x y : A) → R x y → R y x) where
  insert-Pairwise :
      (x : A) (ys : List A) → Pairwise R (insert le x ys) → All (R x) ys × Pairwise R ys
  insert-Pairwise x [] h = (tt, tt)
  insert-Pairwise x (y ∷ ys) h = elim (Bool-cases (le x y)) [
    | inl e ↦ rw e at h
    | inr e ↦
        let both : All (R y) (insert le x ys) × Pairwise R (insert le x ys) = rw e at h in
        let own = insert-All (R y) le x ys both.0 in
        let rest = insert-Pairwise x ys both.1 in ((swap y x own.0, rest.0), (own.1, rest.1))
  ]

  Pairwise-insert :
      (x : A) (ys : List A) → All (R x) ys → Pairwise R ys → Pairwise R (insert le x ys)
  Pairwise-insert x [] h k = (tt, tt)
  Pairwise-insert x (y ∷ ys) h k = elim (Bool-cases (le x y)) [
    | inl e ↦ rw e (h, k)
    | inr e ↦ rw e (All-insert (R y) le x ys (swap x y h.0) k.0, Pairwise-insert x ys h.1 k.1)
  ]

  -- And the other way.
  pub Pairwise-sorted : (xs : List A) → Pairwise R xs → Pairwise R (sorted le xs)
  unfolding sorted
  Pairwise-sorted [] h = tt
  Pairwise-sorted (x ∷ xs) h =
      Pairwise-insert x (sorted le xs) (All-sorted (R x) le xs h.0) (Pairwise-sorted xs h.1)

  -- A symmetric relation that holds throughout the sorted list holds throughout the list.
  pub sorted-Pairwise : (xs : List A) → Pairwise R (sorted le xs) → Pairwise R xs
  unfolding sorted
  sorted-Pairwise [] h = tt
  sorted-Pairwise (x ∷ xs) h =
      let both = insert-Pairwise x (sorted le xs) h in
      (sorted-All (R x) le xs both.0, sorted-Pairwise xs both.1)

-- Sorted lists, by an order that is total and transitive.
abbrev pub IsSorted {ℓ} : {A : Type ℓ} → (A → A → Bool) → List A → Type 0
IsSorted le = Pairwise (λ a b. le a b ≡ true)

module _ {ℓ} {A : Type ℓ} (le : A → A → Bool) (total : (a b : A) → le a b ≡ false → le b a ≡ true)
    (trans : (a b c : A) → le a b ≡ true → le b c ≡ true → le a c ≡ true) where
  All-trans :
      (x y : A) (ys : List A)
      → le x y ≡ true
      → All (λ b. le y b ≡ true) ys
      → All (λ b. le x b ≡ true) ys
  All-trans x y [] e h = tt
  All-trans x y (z ∷ zs) e h = (trans x y z e h.0, All-trans x y zs e h.1)

  insert-IsSorted : (x : A) (ys : List A) → IsSorted le ys → IsSorted le (insert le x ys)
  insert-IsSorted x [] h = (tt, tt)
  insert-IsSorted x (y ∷ ys) h = elim (Bool-cases (le x y)) [
    | inl e ↦ rw e ((e, All-trans x y ys e h.0), h)
    | inr e ↦
        rw e (All-insert (λ b. le y b ≡ true) le x ys (total x y e) h.0, insert-IsSorted x ys h.1)
  ]

  pub sorted-IsSorted : (xs : List A) → IsSorted le (sorted le xs)
  unfolding sorted
  sorted-IsSorted [] = tt
  sorted-IsSorted (x ∷ xs) = insert-IsSorted x (sorted le xs) (sorted-IsSorted xs)

-- Every element is related to the next.
abbrev pub Chain {ℓ κ} : {A : Type ℓ} → (A → A → Type κ) → List A → Type κ
Chain R [] = Unit
Chain R (x ∷ []) = Unit
Chain R (x ∷ y ∷ ys) = R x y × Chain R (y ∷ ys)

-- On a sorted list, a relation that later elements inherit holds throughout when it holds in steps.
module _ {ℓ κ} {A : Type ℓ} (le : A → A → Bool) (R : A → A → Type κ)
    (inherit : (a b c : A) → R a b → le b c ≡ true → R a c) where
  All-inherit : (a b : A) (cs : List A) → R a b → All (λ c. le b c ≡ true) cs → All (R a) cs
  All-inherit a b [] r h = tt
  All-inherit a b (c ∷ cs) r h = (inherit a b c r h.0, All-inherit a b cs r h.1)

  pub Chain-Pairwise : (xs : List A) → IsSorted le xs → Chain R xs → Pairwise R xs
  Chain-Pairwise [] s c = tt
  Chain-Pairwise (x ∷ []) s c = (tt, tt)
  Chain-Pairwise (x ∷ y ∷ ys) s c =
      ((c.0, All-inherit x y ys c.0 s.1.0), Chain-Pairwise (y ∷ ys) s.1 c.1)

pub Pairwise-map {ℓ κ μ} :
    {A : Type ℓ} (R : A → A → Type κ) (S : A → A → Type μ) (xs : List A)
    → ((x y : A) → R x y → S x y)
    → Pairwise R xs
    → Pairwise S xs
Pairwise-map R S [] k h = tt
Pairwise-map R S (x ∷ xs) k h = (All-map (R x) (S x) xs (k x) h.0, Pairwise-map R S xs k h.1)
