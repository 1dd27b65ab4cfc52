-- ===== src/UseCases/Commits.antt =====
-- The worker's transactions as committed calls: each block that returns leaves the store as some
-- calls leave it.
use roster_ai.Base.{◌≡◌, refl, ◌∙◌, ap, Bool, true, false, List, [], ◌∷◌, ◌++◌, inl, inr}
use roster_ai.Store.{World, Fault}
use roster_ai.Store.Tx.{
  Tx, Result, ok, raised, pure, raise, require, transaction, ◌>>=◌, >>=-eq-ok, transaction-cases,
  transaction-of-ok, Tx-eq-ok, resume,
}
use roster_ai.Lifecycle.Calls.{Call, perform, performs}
use roster_ai.UseCases.Sessions.{read, session, elsewhere}

-- The store `w'` is what some committed calls make of `w`.
pub record IsReached (w w' : World) : Type 0 where
  pub calls : List Call
  pub path : performs calls w ≡ w'

pub performs-append :
    (cs ds : List Call) (w : World) → performs (cs ++ ds) w ≡ performs ds (performs cs w)
unfolding performs
performs-append [] ds w = refl
performs-append (c ∷ cs) ds w = performs-append cs ds (perform c w)

pub IsReached-refl : (w : World) → IsReached w w
unfolding performs
IsReached-refl w = record { calls = []; path = refl }

pub IsReached-trans : (u v w : World) → IsReached u v → IsReached v w → IsReached u w
IsReached-trans u v w p q = record {
  calls = p.calls ++ q.calls;
  path = performs-append p.calls q.calls u ∙ ap (performs q.calls) p.path ∙ q.path;
}

pub IsReached-call : (c : Call) {w w' : World} → perform c w ≡ w' → IsReached w w'
unfolding performs
IsReached-call c e = record { calls = c ∷ []; path = e }

pub IsReached-performs : (cs : List Call) (w : World) → IsReached w (performs cs w)
IsReached-performs cs w = record { calls = cs; path = refl }

-- A block whose returning runs are committed calls.
abbrev pub Commits {ℓ} : {A : Type ℓ} → Tx A → Type ℓ
Commits {A = A} m = (w : World) (a : A) (w' : World) → m w ≡ (ok a, w') → IsReached w w'

-- Code all of whose runs, returned or raised, are committed calls.
abbrev pub Leaves {ℓ} : {A : Type ℓ} → Tx A → Type 0
Leaves m = (w : World) → IsReached w (m w).1

module _ {ℓ} {A : Type ℓ} where
  pub Commits-pure : (a : A) → Commits (pure a)
  unfolding performs
  Commits-pure a w b w' h = record { calls = []; path = ap (λ (p : Result A × World). p.1) h }

  pub Commits-raise : (e : Fault) → Commits {A = A} (raise e)
  Commits-raise e w b w' h = let no_value = ap (λ (p : Result A × World). p.0) h in cc no_value

  -- A SELECT commits nothing.
  pub Commits-read : (before : World) (m : Tx A) → Commits (read before m)
  unfolding performs
  Commits-read before m w b w' h = record {
    calls = [];
    path = ap (λ (p : Result A × World). p.1) h;
  }

  -- A repository method that is a call.
  pub Commits-call :
      (c : Call) (m : Tx A) → ((w : World) → perform c w ≡ (transaction m w).1) → Commits m
  Commits-call c m e w a w' h =
      IsReached-call c (e w ∙ ap (λ (p : Result A × World). p.1) (transaction-of-ok m w h))

  -- A transaction around a block, returned or not, is committed calls.
  pub Leaves-transaction : (m : Tx A) → Commits m → Leaves (transaction m)
  Leaves-transaction m k w = elim (transaction-cases m w) [
    | inl (a, h, e) ↦ rw e (k w a (m w).1 h)
    | inr e ↦ rw e (IsReached-refl w)
  ]

module _ {ℓ κ} {A : Type ℓ} {B : Type κ} where
  pub Commits->>= :
      (m : Tx A) (f : A → Tx B) → Commits m → ((a : A) → Commits (f a)) → Commits (m >>= f)
  Commits->>= m f j k w b w' h =
      let step = >>=-eq-ok m f w h in
      IsReached-trans w (m w).1 w' (j w step.0 (m w).1 (Tx-eq-ok step.1 refl))
        (k step.0 (m w).1 b w' step.2)

  Leaves-rest :
      (r : Result A) (f : A → Tx B) (v : World)
      → ((a : A) → Leaves (f a))
      → IsReached v (resume r f v).1
  Leaves-rest (ok a) f v k = k a v
  Leaves-rest (raised e) f v k = IsReached-refl v

  pub Leaves->>= :
      (m : Tx A) (f : A → Tx B) → Leaves m → ((a : A) → Leaves (f a)) → Leaves (m >>= f)
  Leaves->>= m f j k w =
      IsReached-trans w (m w).1 (resume (m w).0 f (m w).1).1 (j w) (Leaves-rest (m w).0 f (m w).1 k)

pub Commits-require : (b : Bool) (e : Fault) → Commits (require b e)
Commits-require true e = Commits-pure tt
Commits-require false e = Commits-raise e

pub Commits-elsewhere : (others : List Call) → Commits (elsewhere others)
unfolding elsewhere
Commits-elsewhere others w a w' h = record {
  calls = others;
  path = ap (λ (p : Result Unit × World). p.1) h;
}

pub Leaves-elsewhere : (others : List Call) → Leaves (elsewhere others)
unfolding elsewhere
Leaves-elsewhere others w = IsReached-performs others w

pub Leaves-session {ℓ} :
    {A : Type ℓ} (others : List Call) (block : World → Tx A)
    → ((before : World) → Commits (block before))
    → Leaves (session others block)
unfolding session
Leaves-session others block k w =
    IsReached-trans w (performs others w) (transaction (block w) (performs others w)).1
      (IsReached-performs others w) (Leaves-transaction (block w) (k w) (performs others w))
