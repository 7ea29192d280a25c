-- ===== src/Store/Valid/Payments.antt =====
-- The statements over the other tables keep the database valid.
use rln_companion.Base.{
  ℕ, String, ◌≡◌, refl, inl, inr, false, Option, List, [], ◌∷◌, ◌++◌, eq_iff, All, find, any, ok,
  Option-cases,
}
use rln_companion.Base.Int.{ℤ}
use rln_companion.Base.Respects.{Respects, Respects-lift, Respects-bind, Respects-convert}
use rln_companion.Base.Tables.{All-update_rows, All-append, any_of_find}
use rln_companion.Store.AtomicPayment.{apply_payment_transition-all_or_nothing}
use rln_companion.Store.Codec.{ts_to_db, amt_to_db, payment_try_from}
use rln_companion.Store.Outbox.{Event}
use rln_companion.Store.Payments.{
  has_hash, payment_row, merged_payment, insert_payment_row, upsert_payment, payment_stands_at,
  moved_payment, apply_payment_transition,
}
use rln_companion.Store.Rows.{PaymentRow, Db}
use rln_companion.Store.Types.{PaymentStatus, NewPayment}
use rln_companion.Store.Valid.{
  InRange, PaymentOk, Unique, Valid, Stays, Stays-order, Unique-update, Unique-append,
  queued-Unique,
}
use rln_companion.Store.Valid.Transfers.{ts_to_db-InRange, coalesce-InRange}
use mathlib.Core.Path.{subst}

Valid-payments :
    (d : Db) (rows : List PaymentRow)
    → Unique has_hash rows
    → All PaymentOk rows
    → Valid d
    → Valid (record d { payments = rows })
Valid-payments d rows hashes oks v = record {
  ids = v.ids;
  idxs = v.idxs;
  recipients = v.recipients;
  transfers_ok = v.transfers_ok;
  hashes = hashes;
  payments_ok = oks;
  event_ids = v.event_ids;
  asset_ids = v.asset_ids;
  state_ok = v.state_ok;
}

insert_payment_row-Stays :
    (row : PaymentRow) → PaymentOk row → Respects Stays (insert_payment_row row)
unfolding insert_payment_row
insert_payment_row-Stays row (direction, status, asset_amount, amt_msat) = record {
  at = λ d v. elim (Option-cases (find (has_hash row.payment_hash) d.payments)) [
    | inl miss ↦
        rw (miss, insert_payment_row)
          (Valid-payments d (d.payments ++ row ∷ [])
            (Unique-append has_hash d.payments row
              (λ k h.
                subst (λ i. any (has_hash i) d.payments ≡ false) ((eq_iff row.payment_hash k).0 h)
                  (any_of_find (has_hash row.payment_hash) d.payments miss))
              v.hashes)
            (All-append PaymentOk d.payments (row ∷ []) v.payments_ok
              ((direction, status, asset_amount, amt_msat), tt))
            v)
    | inr (r, hit) ↦
        rw (hit, insert_payment_row)
          (Valid-payments d _
            (Unique-update has_hash (has_hash row.payment_hash) (merged_payment row) d.payments
              (λ k r h. h) v.hashes)
            (All-update_rows PaymentOk (has_hash row.payment_hash) (merged_payment row) d.payments
              (λ r h (_, status', asset_amount', amt_msat'). (
                direction,
                status',
                coalesce-InRange row.asset_amount r.asset_amount asset_amount asset_amount',
                coalesce-InRange row.amt_msat r.amt_msat amt_msat amt_msat',
              ))
              v.payments_ok)
            v)
  ];
}

amt_to_db-InRange : (v : Option ℕ) (x : Option ℤ) → amt_to_db v ≡ ok x → InRange x
unfolding amt_to_db ts_to_db
amt_to_db-InRange v x h = ts_to_db-InRange v x h

pub upsert_payment-Stays :
    (p : NewPayment) (seen : Option ℤ) (now : ℤ) → Respects Stays (upsert_payment p seen now)
unfolding upsert_payment
upsert_payment-Stays p seen now =
    Respects-convert Stays-order (amt_to_db p.asset_amount) _ λ asset_amount read.
      Respects-convert Stays-order (amt_to_db p.amt_msat) _ λ amt_msat read'.
        Respects-bind Stays-order _ _
          (insert_payment_row-Stays (payment_row p asset_amount amt_msat seen now) (
            (p.direction, refl),
            (p.status, refl),
            amt_to_db-InRange p.asset_amount asset_amount read,
            amt_to_db-InRange p.amt_msat amt_msat read',
          ))
          (λ row. Respects-lift Stays-order (payment_try_from row))

pub apply_payment_transition-Stays :
    (hash : String) (from to : PaymentStatus) (event : Option Event) (now : ℤ)
    → Respects Stays (apply_payment_transition hash from to event now)
apply_payment_transition-Stays hash from to event now = record {
  at = λ d v. elim (apply_payment_transition-all_or_nothing hash from to event now d) [
    | inl (done, after, _, free) ↦ rw after (record {
      ids = v.ids;
      idxs = v.idxs;
      recipients = v.recipients;
      transfers_ok = v.transfers_ok;
      hashes =
          Unique-update has_hash (payment_stands_at hash from) (moved_payment to now) d.payments
            (λ k r h. h) v.hashes;
      payments_ok =
          All-update_rows PaymentOk (payment_stands_at hash from) (moved_payment to now) d.payments
            (λ r h (direction, _, amount, msat). (direction, (to, refl), amount, msat))
            v.payments_ok;
      event_ids = queued-Unique event now d.outbox free v.event_ids;
      asset_ids = v.asset_ids;
      state_ok = v.state_ok;
    })
    | inr (_, after) ↦ rw after v
  ];
}
