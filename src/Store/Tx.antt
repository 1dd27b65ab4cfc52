-- ===== src/Store/Tx.antt =====
-- Python code in a transaction: it reads and writes the store, and may raise. What was written
-- before a raise stays written until the transaction ends; leaving it by an exception rolls back.
use roster_ai.Base.{◌≡◌, refl, ap, ◌⊎◌, inl, inr, Bool, true, false}
use roster_ai.Store.{World, Fault}

pub data Result {ℓ} (A : Type ℓ) : Type ℓ where
  ok : A → Result A
  raised : Fault → Result A

abbrev pub Tx {ℓ} : Type ℓ → Type ℓ
Tx A = World → Result A × World

module _ {ℓ} {A : Type ℓ} where
  abbrev pub pure : A → Tx A
  pure a w = (ok a, w)

  abbrev pub raise : Fault → Tx A
  raise e w = (raised e, w)

  abbrev pub gets : (World → A) → Tx A
  gets f w = (ok (f w), w)

abbrev pub modify : (World → World) → Tx (Unit {0})
modify f w = (ok tt, f w)

module _ {ℓ κ} {A : Type ℓ} {B : Type κ} where
  abbrev pub resume : Result A → (A → World → Result B × World) → World → Result B × World
  resume (ok a) f w = f a w
  resume (raised e) f w = (raised e, w)

infixl 5 ◌>>=◌ ◌>>◌
abbrev pub ◌>>=◌ {ℓ κ} : {A : Type ℓ} {B : Type κ} → Tx A → (A → Tx B) → Tx B
◌>>=◌ m f w = resume (m w).0 f (m w).1

abbrev pub ◌>>◌ {ℓ κ} : {A : Type ℓ} {B : Type κ} → Tx A → Tx B → Tx B
◌>>◌ m k = m >>= λ _. k

-- `if not b: raise e`
abbrev pub require : Bool → Fault → Tx (Unit {0})
require true e = pure tt
require false e = raise e

-- `with connection_factory(site) as connection:`: commit, or roll back when an exception leaves.
abbrev pub commit_or_rollback {ℓ} : {A : Type ℓ} → World → Result A → World → Result A × World
commit_or_rollback w (ok a) w' = (ok a, w')
commit_or_rollback w (raised e) w' = (raised e, w)

unfoldable pub transaction {ℓ} : {A : Type ℓ} → Tx A → Tx A
transaction m w = commit_or_rollback w (m w).0 (m w).1

commit_or_rollback_raised {ℓ} :
    {A : Type ℓ} (w : World) (r : Result A) (v : World) {e : Fault}
    → (commit_or_rollback w r v).0 ≡ raised e
    → (commit_or_rollback w r v).1 ≡ w
commit_or_rollback_raised w (ok a) v h = cc
commit_or_rollback_raised w (raised x) v h = refl

-- A transaction that raises has changed nothing.
pub transaction_raised {ℓ} :
    {A : Type ℓ} (m : Tx A) (w : World) {e : Fault}
    → (transaction m w).0 ≡ raised e
    → (transaction m w).1 ≡ w
unfolding transaction
transaction_raised m w h = commit_or_rollback_raised w (m w).0 (m w).1 h

module _ {ℓ κ} {A : Type ℓ} {B : Type κ} where
  resume-eq-ok :
      (r : Result A) (f : A → Tx B) (v : World) {b : B} {w' : World}
      → resume r f v ≡ (ok b, w')
      → (a : A) × (r ≡ ok a) × (f a v ≡ (ok b, w'))
  resume-eq-ok (ok a) f v h = (a, refl, h)
  resume-eq-ok (raised e) f v h = cc

  -- A block that returned got a value from its first step.
  pub >>=-eq-ok :
      (m : Tx A) (f : A → Tx B) (w : World) {b : B} {w' : World}
      → (m >>= f) w ≡ (ok b, w')
      → (a : A) × ((m w).0 ≡ ok a) × (f a (m w).1 ≡ (ok b, w'))
  >>=-eq-ok m f w h = resume-eq-ok (m w).0 f (m w).1 h

-- `transaction` commits what a returning block did, and nothing else.
pub transaction-cases {ℓ} :
    {A : Type ℓ} (m : Tx A) (w : World)
    → ((a : A) × (m w ≡ (ok a, (m w).1)) × ((transaction m w).1 ≡ (m w).1))
      ⊎ ((transaction m w).1 ≡ w)
unfolding transaction
transaction-cases {A = A} m w = go (m w).0 (m w).1
  where
    go :
        (r : Result A) (v : World)
        → ((a : A) × (◌≡◌ {A = Result A × World} (r, v) (ok a, v))
            × ((commit_or_rollback w r v).1 ≡ v))
          ⊎ ((commit_or_rollback w r v).1 ≡ w)
    go (ok a) v = inl (a, refl, refl)
    go (raised e) v = inr refl

pub require-ok : (b : Bool) (e : Fault) (w : World) {a : Unit} → (require b e w).0 ≡ ok a → b ≡ true
require-ok true e w h = refl
require-ok false e w h = cc

pub Tx-eq-ok {ℓ} :
    {A : Type ℓ} {p : Result A × World} {a : A} {w : World} → p.0 ≡ ok a → p.1 ≡ w → p ≡ (ok a, w)
Tx-eq-ok e f = λ i. (e i, f i)

pub require->>-eq-ok {ℓ} :
    {A : Type ℓ} (b : Bool) (e : Fault) (m : Tx A) (w : World) {a : A} {w' : World}
    → (require b e >> m) w ≡ (ok a, w')
    → (b ≡ true) × (m w ≡ (ok a, w'))
require->>-eq-ok true e m w h = (refl, h)
require->>-eq-ok false e m w h = cc

pub ok_value {ℓ} :
    {A : Type ℓ} {a b : A} {v w : World} → ◌≡◌ {A = Result A × World} (ok a, v) (ok b, w) → a ≡ b
ok_value h = let e = ap (λ (p : Result _ × World). p.0) h in cc e

-- A transaction that returned is its block.
pub transaction-eq-ok {ℓ} :
    {A : Type ℓ} (m : Tx A) (w : World) {a : A} {w' : World}
    → transaction m w ≡ (ok a, w')
    → m w ≡ (ok a, w')
unfolding transaction
transaction-eq-ok {A = A} m w {a} {w'} h = go (m w).0 (m w).1 h
  where
    go :
        (r : Result A) (v : World)
        → commit_or_rollback w r v ≡ (ok a, w')
        → ◌≡◌ {A = Result A × World} (r, v) (ok a, w')
    go (ok b) v e = e
    go (raised b) v e = cc

pub transaction-of-ok {ℓ} :
    {A : Type ℓ} (m : Tx A) (w : World) {a : A} {w' : World}
    → m w ≡ (ok a, w')
    → transaction m w ≡ (ok a, w')
unfolding transaction
transaction-of-ok m w h = ap (λ p. commit_or_rollback w p.0 p.1) h

-- A raise is not a value.
pub raised_is_no_value {ℓ} :
    {A : Type ℓ} {e : Fault} {v w' : World} {a : A}
    → ◌≡◌ {A = Result A × World} (raised e, v) (ok a, w')
    → ⊥
raised_is_no_value h = let no_value = ap (λ (p : Result _ × World). p.0) h in cc no_value
