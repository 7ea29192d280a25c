-- ===== src/Sync/Statements.antt =====
-- The statements that the syncs, the engine and the hooks run on the database, one at a time: each is
-- atomic, a single write or a transaction. Tasks that run side by side interleave between them.
use rln_companion.Base.{◌<◌, String, ◌≡◌, ◌≢◌, false, Option, List}
use rln_companion.Base.Int.{ℤ}
use rln_companion.Base.Respects.{Preorder, Respects}
use rln_companion.Store.Node.{
  set_node_state, upsert_assets, set_last_full_sync_at, set_payments_baseline_at,
}
use rln_companion.Store.Outbox.{Event}
use rln_companion.Store.Payments.{upsert_payment, apply_payment_transition}
use rln_companion.Store.Rows.{Db}
use rln_companion.Store.Transaction.{Query}
use rln_companion.Store.Transfers.{insert_transfer}
use rln_companion.Store.Types.{
  TransferStatus, terminal, PaymentStatus, NodeState, NewTransfer, Observed, NewPayment, succeeded,
}
use rln_companion.Store.Upsert.{upsert_observed, apply_transition}
use rln_companion.Sync.Plan.{rank}
use rln_companion.Sync.Progress.{
  Progress, Progress-refl, Progress-trans, upsert_observed-Progress, insert_transfer-Progress,
  apply_transition-Progress, upsert_payment-Progress, apply_payment_transition-Progress,
  upsert_assets-Progress, set_node_state-Progress, set_last_full_sync_at-Progress,
  set_payments_baseline_at-Progress,
}

-- One statement. A transition is planned before it runs, from a row that may be stale by then, and only
-- from a status that is not terminal to a later one; a payment transition never from `Succeeded`.
pub data Statement : Db → Db → Type 0 where
  runs_insert_transfer :
      (fresh : String) (t : NewTransfer) (now : ℤ) (d : Db)
      → Statement d (insert_transfer fresh t now d).1
  runs_upsert_observed :
      (fresh : String) (o : Observed) (now : ℤ) (d : Db)
      → Statement d (upsert_observed fresh o now d).1
  runs_apply_transition :
      (id : String) (from to : TransferStatus) (event : Option Event) (now : ℤ) (d : Db)
      → terminal from ≡ false
      → rank from < rank to
      → Statement d (apply_transition id from to event now d).1
  runs_upsert_payment :
      (p : NewPayment) (seen : Option ℤ) (now : ℤ) (d : Db)
      → Statement d (upsert_payment p seen now d).1
  runs_apply_payment_transition :
      (hash : String) (from to : PaymentStatus) (event : Option Event) (now : ℤ) (d : Db)
      → from ≢ succeeded
      → Statement d (apply_payment_transition hash from to event now d).1
  runs_upsert_assets :
      (new : List (String × String)) (now : ℤ) (d : Db) → Statement d (upsert_assets new now d).1
  runs_set_node_state :
      (state : NodeState) (now : ℤ) (d : Db) → Statement d (set_node_state state now d).1
  runs_set_last_full_sync_at : (now : ℤ) (d : Db) → Statement d (set_last_full_sync_at now d).1
  runs_set_payments_baseline_at :
      (now : ℤ) (d : Db) → Statement d (set_payments_baseline_at now d).1

pub data Statements : Db → Db → Type 0 where
  no_statement : (d : Db) → Statements d d
  then_statement : {d e f : Db} → Statements d e → Statement e f → Statements d f

joined : {d e f : Db} → Statements d e → Statements e f → Statements d f
joined run (no_statement d) = run
joined run (then_statement more last) = then_statement (joined run more) last

pub Statements-order : Preorder Statements
Statements-order = record { here = no_statement; onwards = λ s t u f g. joined f g }

-- A query that is one statement.
at_once : {A : Type 0} {q : Query A} → ((d : Db) → Statement d (q d).1) → Respects Statements q
at_once runs = record { at = λ d. then_statement (no_statement d) (runs d) }

pub insert_transfer-Statements :
    (fresh : String) (t : NewTransfer) (now : ℤ) → Respects Statements (insert_transfer fresh t now)
insert_transfer-Statements fresh t now = at_once (runs_insert_transfer fresh t now)

pub upsert_observed-Statements :
    (fresh : String) (o : Observed) (now : ℤ) → Respects Statements (upsert_observed fresh o now)
upsert_observed-Statements fresh o now = at_once (runs_upsert_observed fresh o now)

pub apply_transition-Statements :
    (id : String) (from to : TransferStatus) (event : Option Event) (now : ℤ)
    → terminal from ≡ false
    → rank from < rank to
    → Respects Statements (apply_transition id from to event now)
apply_transition-Statements id from to event now open_from less =
    at_once (λ d. runs_apply_transition id from to event now d open_from less)

pub upsert_payment-Statements :
    (p : NewPayment) (seen : Option ℤ) (now : ℤ) → Respects Statements (upsert_payment p seen now)
upsert_payment-Statements p seen now = at_once (runs_upsert_payment p seen now)

pub apply_payment_transition-Statements :
    (hash : String) (from to : PaymentStatus) (event : Option Event) (now : ℤ)
    → from ≢ succeeded
    → Respects Statements (apply_payment_transition hash from to event now)
apply_payment_transition-Statements hash from to event now open_from =
    at_once (λ d. runs_apply_payment_transition hash from to event now d open_from)

pub upsert_assets-Statements :
    (new : List (String × String)) (now : ℤ) → Respects Statements (upsert_assets new now)
upsert_assets-Statements new now = at_once (runs_upsert_assets new now)

pub set_node_state-Statements :
    (state : NodeState) (now : ℤ) → Respects Statements (set_node_state state now)
set_node_state-Statements state now = at_once (runs_set_node_state state now)

pub set_last_full_sync_at-Statements : (now : ℤ) → Respects Statements (set_last_full_sync_at now)
set_last_full_sync_at-Statements now = at_once (runs_set_last_full_sync_at now)

pub set_payments_baseline_at-Statements :
    (now : ℤ) → Respects Statements (set_payments_baseline_at now)
set_payments_baseline_at-Statements now = at_once (runs_set_payments_baseline_at now)

-- What one statement keeps, and what any sequence of them keeps.
pub Statement-Progress : {d e : Db} → Statement d e → Progress d e
Statement-Progress (runs_insert_transfer fresh t now d) =
    (insert_transfer-Progress fresh t now).at d
Statement-Progress (runs_upsert_observed fresh o now d) =
    (upsert_observed-Progress fresh o now).at d
Statement-Progress (runs_apply_transition id from to event now d open_from less) =
    (apply_transition-Progress id from to event now open_from less).at d
Statement-Progress (runs_upsert_payment p seen now d) = (upsert_payment-Progress p seen now).at d
Statement-Progress (runs_apply_payment_transition hash from to event now d open_from) =
    (apply_payment_transition-Progress hash from to event now open_from).at d
Statement-Progress (runs_upsert_assets new now d) = (upsert_assets-Progress new now).at d
Statement-Progress (runs_set_node_state state now d) = (set_node_state-Progress state now).at d
Statement-Progress (runs_set_last_full_sync_at now d) = (set_last_full_sync_at-Progress now).at d
Statement-Progress (runs_set_payments_baseline_at now d) =
    (set_payments_baseline_at-Progress now).at d

pub Statements-Progress : {d e : Db} → Statements d e → Progress d e
Statements-Progress (no_statement d) = Progress-refl d
Statements-Progress (then_statement {d} {e} {f} run last) =
    Progress-trans d e f (Statements-Progress run) (Statement-Progress last)
