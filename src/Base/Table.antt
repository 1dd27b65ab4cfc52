-- ===== src/Base/Table.antt =====
-- A relational table as the list of its rows, with the statements that the adapters issue.
use mathlib.Core.List.{List, [], ◌∷◌, ◌++◌}
use mathlib.Core.Bool.{Bool, true}
use mathlib.Core.Option.{Option, none, some}
use mathlib.Core.Option
use mathlib.Core.Path.{◌≡◌, refl}
use mathlib.Core.Logic.{inl, inr}
use Prim.Native.Nat.{ℕ, ◌+◌}
use native.Mathlib.Omega.{arith}
use roster_ai.Base.Tests.{if◌then◌else◌, Bool-cases}

module _ {ℓ} {A : Type ℓ} where
  -- SELECT … WHERE p, for a key that at most one row has
  unfoldable pub select_one : (A → Bool) → List A → Option A
  select_one p [] = none
  select_one p (x ∷ xs) = if p x then some x else select_one p xs

  -- UPDATE … SET f WHERE p
  unfoldable pub update : (A → Bool) → (A → A) → List A → List A
  update p f [] = []
  update p f (x ∷ xs) = (if p x then f x else x) ∷ update p f xs

  -- SELECT count(*) WHERE p
  unfoldable pub count : (A → Bool) → List A → ℕ
  count p [] = 0
  count p (x ∷ xs) = (if p x then 1 else 0) + count p xs

  pub count-append : (p : A → Bool) (xs ys : List A) → count p (xs ++ ys) ≡ count p xs + count p ys
  unfolding count
  count-append p [] ys = omega arith
  count-append p (x ∷ xs) ys = omega (arith, count-append p xs ys)

  pub select_one_holds :
      (p : A → Bool) (xs : List A) {x : A} → select_one p xs ≡ some x → p x ≡ true
  unfolding select_one
  select_one_holds p [] h = cc
  select_one_holds p (y ∷ ys) h = elim (Bool-cases (p y)) [
    | inl e ↦ ground arith
    | inr e ↦ select_one_holds p ys (ground arith)
  ]

  -- A row is found after an UPDATE that keeps its key exactly where it was found before.
  pub select_one-update :
      (q p : A → Bool) (f : A → A) (xs : List A)
      → ((x : A) → q (f x) ≡ q x)
      → select_one q (update p f xs) ≡ Option.map (λ x. if p x then f x else x) (select_one q xs)
  unfolding select_one update
  select_one-update q p f [] k = refl
  select_one-update q p f (x ∷ xs) k = elim (Bool-cases (p x)) [
    | inl e ↦ elim (Bool-cases (q x)) [
      | inl d ↦ rw (e, k x, d, e)
      | inr d ↦ rw (e, k x, d) (select_one-update q p f xs k)
    ]
    | inr e ↦ elim (Bool-cases (q x)) [
      | inl d ↦ rw (e, d, e)
      | inr d ↦ rw (e, d) (select_one-update q p f xs k)
    ]
  ]

  -- A row that is found stays found when rows are inserted.
  pub select_one-append :
      (p : A → Bool) (xs ys : List A) {x : A}
      → select_one p xs ≡ some x
      → select_one p (xs ++ ys) ≡ some x
  unfolding select_one
  select_one-append p [] ys h = cc
  select_one-append p (x ∷ xs) ys h = elim (Bool-cases (p x)) [
    | inl e ↦ rw e (rw e at h)
    | inr e ↦ rw e (select_one-append p xs ys (rw e at h))
  ]

  -- An UPDATE whose WHERE finds no row changes nothing.
  pub update-none :
      (p : A → Bool) (f : A → A) (xs : List A) → select_one p xs ≡ none → update p f xs ≡ xs
  unfolding select_one update
  update-none p f [] h = refl
  update-none p f (x ∷ xs) h = elim (Bool-cases (p x)) [
    | inl e ↦ cc (rw e at h)
    | inr e ↦ rw (e, update-none p f xs (rw e at h))
  ]

  pub select_one-append_none :
      (p : A → Bool) (xs : List A) (y : A)
      → select_one p xs ≡ none
      → select_one p (xs ++ y ∷ []) ≡ (if p y then some y else none)
  unfolding select_one
  select_one-append_none p [] y h = refl
  select_one-append_none p (x ∷ xs) y h = elim (Bool-cases (p x)) [
    | inl e ↦ cc (rw e at h)
    | inr e ↦ rw e (select_one-append_none p xs y (rw e at h))
  ]
