-- ===== src/Store/Payments.antt =====
-- The statements of store.rs over the table `payments`.
use mathlib.Core.Option
use rln_companion.Base.{
  ℕ, String, List, Option, ◌>>=◌, Bool, find, coalesce, Result, sort_by, some, take, none, any,
  where_rows, not, reverse, ok, ◌∷◌, update_rows, and_then, true, false, ◌&&◌, [], ◌++◌, map, pure,
  lift, if◌then◌else◌, ◌==◌, Eq_String, ◌>>◌,
}
use rln_companion.Store.Types.{PaymentStatus, NewPayment, Payment, StoreError, payment_terminal}
use rln_companion.Store.Transaction.{Query, transaction}
use rln_companion.Store.Rows.{PaymentRow}
use rln_companion.Store.Outbox.{enqueue, Event}
use rln_companion.Store.Codec.{
  amt_to_db, payment_status_to_str, transpose_map, direction_to_str, payment_try_from,
  all_payment_statuses,
}
use rln_companion.Base.Int.{ℤ, leb_ℤ}
use rln_companion.Store.Transfers.{wanted}
use rln_companion.Store.Equality.{Eq_PaymentStatus}

abbrev pub has_hash : String → PaymentRow → Bool
has_hash hash r = r.payment_hash == hash

-- The bound values of `upsert_payment`, encoded.
abbrev pub payment_row : NewPayment → Option ℤ → Option ℤ → Option ℤ → ℤ → PaymentRow
payment_row p asset_amount amt_msat last_seen_at now = record {
  payment_hash = p.payment_hash;
  direction = direction_to_str p.direction;
  status = payment_status_to_str p.status;
  asset_id = p.asset_id;
  asset_amount = asset_amount;
  amt_msat = amt_msat;
  payee_pubkey = p.payee_pubkey;
  created_at = now;
  updated_at = now;
  last_seen_at = last_seen_at;
}

-- `ON CONFLICT (payment_hash) DO UPDATE SET …`: the status stays.
abbrev pub merged_payment : PaymentRow → PaymentRow → PaymentRow
merged_payment excluded r = record r {
  direction = excluded.direction;
  asset_id = coalesce excluded.asset_id r.asset_id;
  asset_amount = coalesce excluded.asset_amount r.asset_amount;
  amt_msat = coalesce excluded.amt_msat r.amt_msat;
  payee_pubkey = coalesce excluded.payee_pubkey r.payee_pubkey;
  last_seen_at = coalesce excluded.last_seen_at r.last_seen_at;
}

unfoldable pub insert_payment_row : PaymentRow → Query PaymentRow
insert_payment_row row d = elim (find (has_hash row.payment_hash) d.payments) [
  | some r ↦ (
    ok (merged_payment row r),
    record d { payments = update_rows (has_hash row.payment_hash) (merged_payment row) d.payments },
  )
  | none ↦ (ok row, record d { payments = d.payments ++ row ∷ [] })
]

unfoldable pub upsert_payment : NewPayment → Option ℤ → ℤ → Query Payment
unfolding ◌>>=◌ amt_to_db insert_payment_row payment_try_from
upsert_payment p last_seen_at now = do
  asset_amount ← lift (amt_to_db p.asset_amount)
  amt_msat ← lift (amt_to_db p.amt_msat)
  row ← insert_payment_row (payment_row p asset_amount amt_msat last_seen_at now)
  lift (payment_try_from row)

unfoldable pub upsert_payment_observed : NewPayment → ℤ → Query Payment
unfolding upsert_payment
upsert_payment_observed p now = upsert_payment p (some now) now

unfoldable pub insert_pending_payment : NewPayment → ℤ → Query Payment
unfolding upsert_payment
insert_pending_payment p now = upsert_payment p none now

abbrev pub payment_stands_at : String → PaymentStatus → PaymentRow → Bool
payment_stands_at hash from r = r.payment_hash == hash && r.status == payment_status_to_str from

abbrev pub moved_payment : PaymentStatus → ℤ → PaymentRow → PaymentRow
moved_payment to now r = record r { status = payment_status_to_str to; updated_at = now }

unfoldable pub payment_transition_body :
    String → PaymentStatus → PaymentStatus → Option Event → ℤ → Query Bool
unfolding ◌>>=◌ enqueue
payment_transition_body hash from to event now d =
    if any (payment_stands_at hash from) d.payments
    then (do enqueue event now; pure true)
        (record d {
          payments = update_rows (payment_stands_at hash from) (moved_payment to now) d.payments;
        })
    else (ok false, d)

unfoldable pub apply_payment_transition :
    String → PaymentStatus → PaymentStatus → Option Event → ℤ → Query Bool
unfolding transaction payment_transition_body
apply_payment_transition hash from to event now d =
    if from == to
    then (ok false, d)
    else transaction (payment_transition_body hash from to event now) d

unfoldable pub collect_payments : List PaymentRow → Result StoreError (List Payment)
collect_payments [] = ok []
collect_payments (r ∷ rs) =
    and_then (payment_try_from r) λ p. and_then (collect_payments rs) λ ps. ok (p ∷ ps)

abbrev pub payments_by_age : List PaymentRow → List PaymentRow
payments_by_age rows = sort_by (λ a b. leb_ℤ a.created_at b.created_at) rows

unfoldable pub payment_status_in : (PaymentStatus → Bool) → String → Bool
payment_status_in pred s =
    any (λ name. name == s) (map payment_status_to_str (where_rows pred all_payment_statuses))

unfoldable pub pending_payments : Query (List Payment)
unfolding collect_payments
pending_payments d = (
  collect_payments (
      payments_by_age
        (where_rows (λ r. payment_status_in (λ s. not (payment_terminal s)) r.status) d.payments)),
  d,
)

unfoldable pub list_payments : Option PaymentStatus → ℕ → Query (List Payment)
unfolding collect_payments
list_payments status limit d = (
  collect_payments (
      take limit (
        reverse (
          payments_by_age (
            where_rows (λ r. wanted (Option.map payment_status_to_str status) (some r.status))
              d.payments)))),
  d,
)

unfoldable pub get_payment : String → Query (Option Payment)
get_payment hash d = (transpose_map payment_try_from (find (has_hash hash) d.payments), d)
