-- ===== src/World.antt =====
-- What an operation of the companion can read and change: the database, the node behind its API
-- with the states `N`, and how many UUIDs have been drawn.
use rln_companion.Base.{ℕ, ◌+◌, String, Option, Exec, map_err, ok}
use rln_companion.Base.Int.{ℤ}
use rln_companion.Rln.Types.{RlnError}
use rln_companion.Store.Rows.{Db}
use rln_companion.Store.Transaction.{Query}
use rln_companion.Store.Types.{TransferStatus, PaymentStatus, Transfer, Payment, StoreError}

pub record World (N : Type 0) : Type 0 where
  pub db : Db
  pub node : N
  pub drawn : ℕ

-- The object that `json!` builds for an event, before it is written as text.
pub data Payload : Type 0 where
  transfer_payload : String → String → Transfer → TransferStatus → TransferStatus → ℤ → Payload
  payment_payload : String → String → Payment → PaymentStatus → PaymentStatus → ℤ → Payload

-- What the code takes from its dependencies: the values of `Uuid::new_v4().to_string()`, in the
-- order of the calls, and `serde_json::to_string`, which may refuse.
pub record Env : Type 0 where
  pub uuid : ℕ → String
  pub to_string : Payload → Option String

pub data SyncError : Type 0 where
  rln : RlnError → SyncError
  store : StoreError → SyncError
  payload : SyncError

module _ {N E : Type 0} where
  -- A query on the pool, its error converted by `?`.
  unfoldable pub on_db : {A : Type 0} → (StoreError → E) → Query A → Exec (World N) E A
  unfolding map_err
  on_db from q w = let (r, d) = q w.db in (map_err from r, record w { db = d })

  -- A call of the node, its error converted by `?`.
  unfoldable pub on_node : {A : Type 0} → (RlnError → E) → Exec N RlnError A → Exec (World N) E A
  unfolding map_err
  on_node from call w = let (r, n) = call w.node in (map_err from r, record w { node = n })

  unfoldable pub draw : Env → Exec (World N) E String
  draw env w = (ok (env.uuid w.drawn), record w { drawn = w.drawn + 1 })
