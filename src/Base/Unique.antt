-- ===== src/Base/Unique.antt =====
-- Rows with a unique key, and what UPDATE and INSERT do to it.
use mathlib.Core.Path.{◌≡◌, refl, sym, ◌∙◌, ap}
use mathlib.Core.Bool.{Bool, true}
use mathlib.Core.Logic.{inl, inr}
use mathlib.Core.List.{List, [], ◌∷◌, ◌++◌}
use mathlib.Core.Option.{none, some}
use Prim.Native.Nat.{ℕ, ◌+◌, ◌<◌, ◌≤◌}
use native.Mathlib.Omega.{arith}
use roster_ai.Base.Tests.{◌==◌, ==_iff, Bool-cases, if◌then◌else◌}
use roster_ai.Base.Table.{select_one, update, count, count-append}

module _ {ℓ} {A : Type ℓ} where
  pub count_pos :
      (p q : A → Bool) (xs : List A) {r : A}
      → ((x : A) → p x ≡ true → q x ≡ true)
      → select_one p xs ≡ some r
      → 0 < count q xs
  unfolding select_one count
  count_pos p q [] k h = cc
  count_pos p q (x ∷ xs) k h = elim (Bool-cases (p x)) [
    | inl e ↦ rw (k x e) (omega arith)
    | inr e ↦ omega (arith, count_pos p q xs k (rw e at h))
  ]

  -- A row that is found counts for any test that it passes.
  pub count_found :
      (p q : A → Bool) (xs : List A) {r : A}
      → select_one p xs ≡ some r
      → q r ≡ true
      → 0 < count q xs
  unfolding select_one count
  count_found p q [] h t = cc
  count_found p q (x ∷ xs) {r} h t = elim (Bool-cases (p x)) [
    | inl e ↦
        let x_is : some x ≡ some r = rw e at h in
        let x_fits : q x ≡ true = cc (x_is, t) in rw x_fits (omega arith)
    | inr e ↦ omega (arith, count_found p q xs (rw e at h) t)
  ]

  pub count-none :
      (p q : A → Bool) (xs : List A)
      → ((x : A) → q x ≡ true → p x ≡ true)
      → select_one p xs ≡ none
      → count q xs ≡ 0
  unfolding select_one count
  count-none p q [] k h = refl
  count-none p q (x ∷ xs) k h = elim (Bool-cases (p x)) [
    | inl e ↦ cc (rw e at h)
    | inr e ↦ elim (Bool-cases (q x)) [
      | inl d ↦ cc (k x d, e)
      | inr d ↦ rw d (omega (arith, count-none p q xs k (rw e at h)))
    ]
  ]

  -- An UPDATE that makes no row fit adds none to the rows that fit.
  pub count-update-le :
      (p q : A → Bool) (f : A → A) (xs : List A)
      → ((x : A) → q x ≡ true → p (f x) ≡ true → p x ≡ true)
      → count p (update q f xs) ≤ count p xs
  unfolding count update
  count-update-le p q f [] k = omega arith
  count-update-le p q f (x ∷ xs) k = elim (Bool-cases (q x)) [
    | inl e ↦ elim (Bool-cases (p (f x))) [
      | inl d ↦ rw (e, d, k x e d) (omega (arith, count-update-le p q f xs k))
      | inr d ↦ rw (e, d) (omega (arith, count-update-le p q f xs k))
    ]
    | inr e ↦ rw e (omega (arith, count-update-le p q f xs k))
  ]

  -- An UPDATE that keeps a test keeps the number of rows that pass it.
  pub count-update :
      (p q : A → Bool) (f : A → A) (xs : List A)
      → ((x : A) → p (f x) ≡ p x)
      → count p (update q f xs) ≡ count p xs
  unfolding count update
  count-update p q f [] k = refl
  count-update p q f (x ∷ xs) k = elim (Bool-cases (q x)) [
    | inl e ↦ rw (e, k x) (ap (λ n. (if p x then 1 else 0) + n) (count-update p q f xs k))
    | inr e ↦ rw e (ap (λ n. (if p x then 1 else 0) + n) (count-update p q f xs k))
  ]

  -- Fewer rows fit a narrower test.
  pub count-le :
      (p q : A → Bool) (xs : List A) → ((x : A) → p x ≡ true → q x ≡ true) → count p xs ≤ count q xs
  unfolding count
  count-le p q [] k = omega arith
  count-le p q (x ∷ xs) k = elim (Bool-cases (p x)) [
    | inl e ↦ rw (e, k x e) (omega (arith, count-le p q xs k))
    | inr e ↦ rw e (omega (arith, count-le p q xs k))
  ]

  pub update_absent : (p : A → Bool) (f : A → A) (xs : List A) → count p xs ≡ 0 → update p f xs ≡ xs
  unfolding count update
  update_absent p f [] h = refl
  update_absent p f (x ∷ xs) h = elim (Bool-cases (p x)) [
    | inl e ↦ absurd (omega (arith, rw e at h))
    | inr e ↦ rw (e, update_absent p f xs (omega (arith, rw e at h)))
  ]

module _ {ℓ} {A : Type ℓ} (key : A → ℕ) where
  abbrev pub UniqueBy : List A → Type 0
  UniqueBy [] = Unit
  UniqueBy (x ∷ xs) = (count (λ y. key y == key x) xs ≡ 0) × UniqueBy xs

  -- A row that is found by a test for its key is the row with that key.
  pub select_by_key :
      (k : ℕ) (p : A → Bool) (xs : List A) {r : A}
      → UniqueBy xs
      → ((x : A) → p x ≡ true → key x ≡ k)
      → select_one p xs ≡ some r
      → select_one (λ x. key x == k) xs ≡ some r
  unfolding select_one
  select_by_key k p [] u own h = cc
  select_by_key k p (x ∷ xs) u own h = elim (Bool-cases (p x)) [
    | inl e ↦ rw ((==_iff (key x) k).1 (own x e)) (rw e at h)
    | inr e ↦ elim (Bool-cases (key x == k)) [
      | inl d ↦ absurd (
          omega (
            arith,
            u.0,
            count_pos p (λ y. key y == key x) xs
                (λ y t. (==_iff (key y) (key x)).1 (own y t ∙ sym ((==_iff (key x) k).0 d)))
                (rw e at h),
          ))
      | inr d ↦ rw d (select_by_key k p xs u.1 own (rw e at h))
    ]
  ]

  pub UniqueBy-update :
      (p : A → Bool) (f : A → A) (xs : List A)
      → ((y : A) → key (f y) ≡ key y)
      → UniqueBy xs
      → UniqueBy (update p f xs)
  unfolding update
  UniqueBy-update p f [] k u = tt
  UniqueBy-update p f (x ∷ xs) k u =
      let same = count-update (λ y. key y == key x) p f xs (λ y. ap (λ a. a == key x) (k y)) in
      elim (Bool-cases (p x)) [
        | inl e ↦ rw e (rw (k x) (same ∙ u.0), UniqueBy-update p f xs k u.1)
        | inr e ↦ rw e (same ∙ u.0, UniqueBy-update p f xs k u.1)
      ]

  pub UniqueBy-append :
      (xs : List A) (x : A)
      → UniqueBy xs
      → select_one (λ y. key y == key x) xs ≡ none
      → UniqueBy (xs ++ x ∷ [])
  unfolding select_one count
  UniqueBy-append [] x u h = (refl, tt)
  UniqueBy-append (y ∷ ys) x u h = elim (Bool-cases (key y == key x)) [
    | inl e ↦ cc (rw e at h)
    | inr e ↦ (
      ground (arith, count-append (λ z. key z == key y) ys (x ∷ []), u.0),
      UniqueBy-append ys x u.1 (rw e at h),
    )
  ]

  -- An UPDATE by key depends only on what it does to the row with that key.
  pub update_agree :
      (k : ℕ) (f g : A → A) (xs : List A) {j : A}
      → UniqueBy xs
      → select_one (λ x. key x == k) xs ≡ some j
      → f j ≡ g j
      → update (λ x. key x == k) f xs ≡ update (λ x. key x == k) g xs
  unfolding select_one update
  update_agree k f g [] u h e = refl
  update_agree k f g (x ∷ xs) {j} u h e = elim (Bool-cases (key x == k)) [
    | inl d ↦
        let x_is : some x ≡ some j = rw d at h in
        let same : f x ≡ g x = cc (x_is, e) in
        let rest : count (λ y. key y == k) xs ≡ 0 =
          ap (λ a. count (λ y. key y == a) xs) (sym ((==_iff (key x) k).0 d)) ∙ u.0 in
        rw (
          d,
          same,
          update_absent (λ y. key y == k) f xs rest,
          update_absent (λ y. key y == k) g xs rest,
        )
    | inr d ↦ rw d (ap (◌∷◌ x) (update_agree k f g xs u.1 (rw d at h) e))
  ]

  -- A row that is found by any test is found by its key.
  pub select_key_of_found :
      (p : A → Bool) (xs : List A) {r : A}
      → UniqueBy xs
      → select_one p xs ≡ some r
      → select_one (λ x. key x == key r) xs ≡ some r
  unfolding select_one
  select_key_of_found p [] u h = cc
  select_key_of_found p (x ∷ xs) {r} u h = elim (Bool-cases (p x)) [
    | inl e ↦
        let x_is : some x ≡ some r = rw e at h in
        let same : x ≡ r = cc x_is in rw ((==_iff (key x) (key r)).1 (ap key same)) x_is
    | inr e ↦
        let found = select_key_of_found p xs u.1 (rw e at h) in
        elim (Bool-cases (key x == key r)) [
          | inl d ↦ absurd (
              omega (
                arith,
                u.0,
                count_found (λ y. key y == key r) (λ y. key y == key x) xs found
                    ((==_iff (key r) (key x)).1 (sym ((==_iff (key x) (key r)).0 d))),
              ))
          | inr d ↦ rw d found
        ]
  ]
