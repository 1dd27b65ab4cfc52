-- ===== src/Approvals/Steps.antt =====
-- What a block of code does to the store, by its last write: the guards and the reads before it
-- leave the store as it is.
use roster_ai.Base.{Bool, true, false, Option, none, some, if◌then◌else◌, inl, inr}
use roster_ai.Store.{World, Fault}
use roster_ai.Store.Tx.{
  Tx, Result, ok, raised, pure, require, transaction, transaction-cases, ◌>>=◌, ◌>>◌, resume,
}
use roster_ai.Approvals.Promote.{require_some}
use roster_ai.UseCases.Sessions.{read}

module _ (R : World → World → Type 0) (stays : (w : World) → R w w) where
  -- Every run of the code, returned or raised, is a step.
  abbrev pub Steps {ℓ} : {A : Type ℓ} → Tx A → Type 0
  Steps m = (w : World) → R w (m w).1

  pub steps_require {ℓ} :
      {A : Type ℓ} (b : Bool) (e : Fault) (m : Tx A) → Steps m → Steps (require b e >> m)
  steps_require true e m k w = k w
  steps_require false e m k w = stays w

  resumed_steps {ℓ κ} :
      {A : Type ℓ} {B : Type κ} (r : Result A) (f : A → Tx B) (w : World)
      → ((a : A) → Steps (f a))
      → R w (resume r f w).1
  resumed_steps (ok a) f w k = k a w
  resumed_steps (raised e) f w k = stays w

  pub steps_read {ℓ κ} :
      {A : Type ℓ} {B : Type κ} (before : World) (q : Tx A) (f : A → Tx B)
      → ((a : A) → Steps (f a))
      → Steps (read before q >>= f)
  steps_read before q f k w = resumed_steps (q before).0 f w k

  pub steps_some {ℓ κ} :
      {A : Type ℓ} {B : Type κ} (o : Option A) (e : Fault) (f : A → Tx B)
      → ((a : A) → Steps (f a))
      → Steps (require_some o e >>= f)
  steps_some none e f k w = stays w
  steps_some (some a) e f k w = k a w

  last_value {ℓ κ} :
      {A : Type ℓ} {B : Type κ} (r : Result A) (f : A → B) (v w : World)
      → R w v
      → R w (resume r (λ a. pure (f a)) v).1
  last_value (ok a) f v w k = k
  last_value (raised e) f v w k = k

  -- The value that is computed from a step's result changes nothing.
  pub steps_value {ℓ κ} :
      {A : Type ℓ} {B : Type κ} (m : Tx A) (f : A → B) → Steps m → Steps (m >>= λ a. pure (f a))
  steps_value m f k w = last_value (m w).0 f (m w).1 w (k w)

  pub steps_if {ℓ} :
      {A : Type ℓ} (b : Bool) (m n : Tx A) → Steps m → Steps n → Steps (if b then m else n)
  steps_if true m n j k = j
  steps_if false m n j k = k

  pub steps_transaction {ℓ} : {A : Type ℓ} (m : Tx A) → Steps m → Steps (transaction m)
  steps_transaction m k w = elim (transaction-cases m w) [
    | inl (a, _, e) ↦ rw e (k w)
    | inr e ↦ rw e (stays w)
  ]

  module _ (follows : (u v w : World) → R u v → R v w → R u w) where
    bound_steps {ℓ κ} :
        {A : Type ℓ} {B : Type κ} (r : Result A) (f : A → Tx B) (u v : World)
        → R u v
        → ((a : A) → Steps (f a))
        → R u (resume r f v).1
    bound_steps (ok a) f u v j k = follows u v (f a v).1 j (k a v)
    bound_steps (raised e) f u v j k = j

    pub steps_bind {ℓ κ} :
        {A : Type ℓ} {B : Type κ} (m : Tx A) (f : A → Tx B)
        → Steps m
        → ((a : A) → Steps (f a))
        → Steps (m >>= f)
    steps_bind m f j k w = bound_steps (m w).0 f w (m w).1 (j w) k
