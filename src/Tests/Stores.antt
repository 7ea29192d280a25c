-- ===== src/Tests/Stores.antt =====
-- The store at concrete inputs.
use rln_companion.Base.{
  ◌≡◌, refl, ◌≢◌, ◌⊎◌, Bool, true, false, none, some, [], ◌∷◌, any, Result, ok,
}
use rln_companion.Base.Int.{pos}
use rln_companion.Store.Atomic.{
  is_fresh, moved_db, apply_transition-all_or_nothing, apply_transition-once,
}
use rln_companion.Store.AtomicPayment.{moved_payment_db, apply_payment_transition-all_or_nothing}
use rln_companion.Store.Codec.{
  status_from_str, transfer_try_from, status_to_str, payment_status_to_str,
}
use rln_companion.Store.Payments.{payment_stands_at, apply_payment_transition}
use rln_companion.Store.Rows.{PaymentRow, Db}
use rln_companion.Store.Transfers.{insert_transfer}
use rln_companion.Store.Types.{
  TransferStatus, PaymentStatus, StoreError, waiting_counterparty, succeeded,
}
use rln_companion.Store.Upsert.{stands_at, apply_transition}
use rln_companion.Tests.Sample.{empty_db, invoice, one_db, stored, settled_event}

inserted : insert_transfer "t1" invoice (pos 1) empty_db ≡ (ok stored, one_db)
unfolding insert_transfer transfer_try_from status_from_str
inserted = refl

abbrev settled_once : Result StoreError Bool × Db
settled_once =
    apply_transition "t1" waiting_counterparty TransferStatus.settled (some settled_event) (pos 9)
      one_db

settles : settled_once.0 ≡ ok true
unfolding apply_transition status_to_str
settles = refl

apply_transition-all_or_nothing_example :
    ((settled_once.0 ≡ ok true)
      × (settled_once.1
          ≡ moved_db "t1" waiting_counterparty TransferStatus.settled
              (some settled_event)
              (pos 9)
              one_db)
      × (any (stands_at "t1" waiting_counterparty) one_db.transfers ≡ true)
      × (is_fresh (some settled_event) one_db.outbox ≡ true))
    ⊎ ((settled_once.0 ≢ ok true) × (settled_once.1 ≡ one_db))
apply_transition-all_or_nothing_example =
    apply_transition-all_or_nothing "t1" waiting_counterparty TransferStatus.settled
      (some settled_event) (pos 9) one_db

apply_transition-once_example :
    apply_transition "t1" waiting_counterparty TransferStatus.failed none (pos 10) settled_once.1
    ≡ (ok false, settled_once.1)
apply_transition-once_example =
    apply_transition-once "t1" waiting_counterparty TransferStatus.settled TransferStatus.failed
      (some settled_event) none (pos 9) (pos 10) one_db settles

abbrev pending_payment : PaymentRow
pending_payment = record {
  payment_hash = "h1";
  direction = "Inbound";
  status = "Pending";
  asset_id = none;
  asset_amount = none;
  amt_msat = some (pos 3000);
  payee_pubkey = none;
  created_at = pos 1;
  updated_at = pos 1;
  last_seen_at = none;
}

abbrev payment_db : Db
payment_db = record empty_db { payments = pending_payment ∷ [] }

abbrev paid_once : Result StoreError Bool × Db
paid_once =
    apply_payment_transition "h1" PaymentStatus.pending succeeded (some settled_event) (pos 9)
      payment_db

pays : paid_once.0 ≡ ok true
unfolding apply_payment_transition payment_status_to_str
pays = refl

apply_payment_transition-all_or_nothing_example :
    ((paid_once.0 ≡ ok true)
      × (paid_once.1
          ≡ moved_payment_db "h1" PaymentStatus.pending succeeded
              (some settled_event)
              (pos 9)
              payment_db)
      × (any (payment_stands_at "h1" PaymentStatus.pending) payment_db.payments ≡ true)
      × (is_fresh (some settled_event) payment_db.outbox ≡ true))
    ⊎ ((paid_once.0 ≢ ok true) × (paid_once.1 ≡ payment_db))
apply_payment_transition-all_or_nothing_example =
    apply_payment_transition-all_or_nothing "h1" PaymentStatus.pending succeeded
      (some settled_event) (pos 9) payment_db
