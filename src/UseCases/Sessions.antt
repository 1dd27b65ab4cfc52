-- ===== src/UseCases/Sessions.antt =====
-- Transactions of one session among others: READ COMMITTED as the store that the reads saw and the
-- store that the writes fall on.
use roster_ai.Base.{List}
use roster_ai.Store.{World}
use roster_ai.Store.Tx.{Tx, ok, transaction}
use roster_ai.Lifecycle.Calls.{Call, performs}

-- A SELECT that the store `before` answered.
abbrev pub read {ℓ} : {A : Type ℓ} → World → Tx A → Tx A
read before m w = ((m before).0, w)

-- `with connection_factory(site) as connection:` around a block, with what other sessions commit
-- between the block's reads and its writes. An exception takes back what the block wrote.
unfoldable pub session {ℓ} : {A : Type ℓ} → List Call → (World → Tx A) → Tx A
unfolding performs transaction
session others block w = transaction (block w) (performs others w)

-- Other sessions commit, between two transactions of this one.
unfoldable pub elsewhere : List Call → Tx (Unit {0})
unfolding performs
elsewhere others w = (ok tt, performs others w)
