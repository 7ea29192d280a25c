-- ===== src/Store/Valid/Reads.antt =====
-- Of a valid database every read returns: no stored value fails to decode.
use mathlib.Core.Option
use rln_companion.Store.Payments
use rln_companion.Store.Transfers
use rln_companion.Store.Node.{node_state}
use rln_companion.Base.{
  ℕ, ◌≡◌, refl, Option, none, some, List, [], ◌∷◌, arith, All, length, ok, ◌⊎◌, inl, inr, Result,
  err, ◌≤◌, String, ap, ◌∙◌, Bool, ◌&&◌, reverse, take, where_rows, find, length-take, Option-cases,
}
use rln_companion.Base.Int.{ℤ, pos, negsuc}
use rln_companion.Store.Codec.{
  transpose_map, u64_from_i64, transfer_try_from, payment_try_from, status_to_str,
  payment_status_to_str, node_state_from_str,
}
use rln_companion.Store.Names.{
  status_from_str-status_to_str, payment_status_from_str-payment_status_to_str,
  direction_from_str-direction_to_str, node_state_from_str-node_state_to_str,
}
use rln_companion.Store.Payments.{
  collect_payments, has_hash, payments_by_age, pending_payments, get_payment,
}
use rln_companion.Store.Rows.{TransferRow, PaymentRow, Db}
use rln_companion.Store.Transfers.{
  collect_transfers, has_id, get_transfer, by_age, wanted, pending_transfers, expired_fallible,
}
use rln_companion.Store.Types.{
  Transfer, Payment, TransferStatus, PaymentStatus, NodeState, StoreError,
}
use rln_companion.Store.Valid.{InRange, TransferOk, PaymentOk, Valid}
use rln_companion.Base.Tables.{All-find, All-where_rows, All-take, All-sort_by, All-reverse}

u64_of-InRange : (v : Option ℤ) → InRange v → (n : Option ℕ) × (transpose_map u64_from_i64 v ≡ ok n)
u64_of-InRange none h = (none, refl)
u64_of-InRange (some (pos n)) h = (some n, refl)
u64_of-InRange (some (negsuc n)) h = absurd h

pub Result-cases :
    {E A : Type 0} (r : Result E A) → ((a : A) × (r ≡ ok a)) ⊎ ((e : E) × (r ≡ err e))
Result-cases (ok a) = inl (a, refl)
Result-cases (err e) = inr (e, refl)

pub transfer_try_from-ok :
    (r : TransferRow) → TransferOk r → (t : Transfer) × (transfer_try_from r ≡ ok t)
unfolding transfer_try_from
transfer_try_from-ok r ((s, e), fits) =
    let (n, read) = u64_of-InRange r.expiration_timestamp fits in
    elim (Result-cases (transfer_try_from r)) [
      | inl found ↦ found
      | inr (_, bad) ↦ cc (rw (transfer_try_from, read, e, status_from_str-status_to_str s) at bad)
    ]

payment_try_from-ok : (r : PaymentRow) → PaymentOk r → (p : Payment) × (payment_try_from r ≡ ok p)
unfolding payment_try_from
payment_try_from-ok r ((x, ex), (s, es), fits, fits') =
    let (n, read) = u64_of-InRange r.asset_amount fits in
    let (m, read') = u64_of-InRange r.amt_msat fits' in
    elim (Result-cases (payment_try_from r)) [
      | inl found ↦ found
      | inr (_, bad) ↦ cc (
          rw
            (
              payment_try_from,
              ex,
              es,
              read,
              read',
              direction_from_str-direction_to_str x,
              payment_status_from_str-payment_status_to_str s,
            )
            at bad)
    ]

-- A collection of rows that are read back.
pub collect_transfers-ok :
    (rows : List TransferRow)
    → All TransferOk rows
    → (ts : List Transfer) × (collect_transfers rows ≡ ok ts) × (length ts ≡ length rows)
unfolding collect_transfers
collect_transfers-ok [] h = ([], refl, refl)
collect_transfers-ok (r ∷ rows) (h, hs) =
    let (t, e) = transfer_try_from-ok r h in
    let (ts, es, same) = collect_transfers-ok rows hs in
    (t ∷ ts, rw (e, es) refl, omega (arith, same))

pub collect_payments-ok :
    (rows : List PaymentRow)
    → All PaymentOk rows
    → (ps : List Payment) × (collect_payments rows ≡ ok ps) × (length ps ≡ length rows)
unfolding collect_payments
collect_payments-ok [] h = ([], refl, refl)
collect_payments-ok (r ∷ rows) (h, hs) =
    let (p, e) = payment_try_from-ok r h in
    let (ps, es, same) = collect_payments-ok rows hs in
    (p ∷ ps, rw (e, es) refl, omega (arith, same))

pub get_transfer-ok :
    (id : String) (d : Db)
    → Valid d
    → (found : Option Transfer) × ((get_transfer id d).0 ≡ ok found)
unfolding get_transfer
get_transfer-ok id d v = elim (Option-cases (find (has_id id) d.transfers)) [
  | inl miss ↦ (none, rw (get_transfer, miss) refl)
  | inr (r, hit) ↦
      let (t, read) =
        transfer_try_from-ok r (All-find TransferOk (has_id id) d.transfers r v.transfers_ok hit) in
      (some t, rw (get_transfer, hit, read) refl)
]

get_payment-ok :
    (hash : String) (d : Db)
    → Valid d
    → (found : Option Payment) × ((get_payment hash d).0 ≡ ok found)
unfolding get_payment
get_payment-ok hash d v = elim (Option-cases (find (has_hash hash) d.payments)) [
  | inl miss ↦ (none, rw (get_payment, miss) refl)
  | inr (r, hit) ↦
      let (p, read) =
        payment_try_from-ok r (All-find PaymentOk (has_hash hash) d.payments r v.payments_ok hit) in
      (some p, rw (get_payment, hit, read) refl)
]

-- The rows that a query of `transfers` selects, read back.
pub selected-ok :
    (p : TransferRow → Bool) (d : Db) → Valid d → All TransferOk (by_age (where_rows p d.transfers))
selected-ok p d v =
    All-sort_by TransferOk _ (where_rows p d.transfers)
      (All-where_rows TransferOk p d.transfers v.transfers_ok)

pub selected_payments-ok :
    (p : PaymentRow → Bool) (d : Db)
    → Valid d
    → All PaymentOk (payments_by_age (where_rows p d.payments))
selected_payments-ok p d v =
    All-sort_by PaymentOk _ (where_rows p d.payments)
      (All-where_rows PaymentOk p d.payments v.payments_ok)

-- The answer to a query with a LIMIT: it returns, with no more than the limit.
abbrev pub Limited : {A : Type 0} → ℕ → Result StoreError (List A) → Type 0
Limited {A} limit r = (found : List A) × (r ≡ ok found) × (length found ≤ limit)

pub list_transfers-ok :
    (status : Option TransferStatus) (asset_id : Option String) (limit : ℕ) (d : Db)
    → Valid d
    → Limited limit (Transfers.list_transfers status asset_id limit d).0
unfolding Transfers.list_transfers
list_transfers-ok status asset_id limit d v =
    let p = λ (r : TransferRow).
      wanted (Option.map status_to_str status) (some r.status) && wanted asset_id r.asset_id in
    let rows = reverse (by_age (where_rows p d.transfers)) in
    let (ts, e, same) =
      collect_transfers-ok (take limit rows)
        (All-take TransferOk limit rows (All-reverse TransferOk _ (selected-ok p d v))) in
    (ts, e, omega (arith, same, length-take limit rows))

pub list_payments-ok :
    (status : Option PaymentStatus) (limit : ℕ) (d : Db)
    → Valid d
    → Limited limit (Payments.list_payments status limit d).0
unfolding Payments.list_payments
list_payments-ok status limit d v =
    let p = λ (r : PaymentRow). wanted (Option.map payment_status_to_str status) (some r.status) in
    let rows = reverse (payments_by_age (where_rows p d.payments)) in
    let (ps, e, same) =
      collect_payments-ok (take limit rows)
        (All-take PaymentOk limit rows (All-reverse PaymentOk _ (selected_payments-ok p d v))) in
    (ps, e, omega (arith, same, length-take limit rows))

pending_transfers-ok : (d : Db) → Valid d → (ts : List Transfer) × ((pending_transfers d).0 ≡ ok ts)
unfolding pending_transfers
pending_transfers-ok d v = let (ts, e, _) = collect_transfers-ok _ (selected-ok _ d v) in (ts, e)

expired_fallible-ok :
    (now : ℤ) (d : Db) → Valid d → (ts : List Transfer) × ((expired_fallible now d).0 ≡ ok ts)
unfolding expired_fallible
expired_fallible-ok now d v = let (ts, e, _) = collect_transfers-ok _ (selected-ok _ d v) in (ts, e)

pending_payments-ok : (d : Db) → Valid d → (ps : List Payment) × ((pending_payments d).0 ≡ ok ps)
unfolding pending_payments
pending_payments-ok d v =
    let (ps, e, _) = collect_payments-ok _ (selected_payments-ok _ d v) in (ps, e)

pub node_state-ok : (d : Db) → Valid d → (s : NodeState) × ((node_state d).0 ≡ ok s)
unfolding node_state
node_state-ok d v =
    let (s, e) = v.state_ok in
    (s, ap node_state_from_str e ∙ node_state_from_str-node_state_to_str s)

-- Each read returns: one transfer, the transfers in three ways, one payment, the payments in two
-- ways, and the node state.
abbrev pub ReadsReturn :
    Db
    → String
    → String
    → Option TransferStatus
    → Option String
    → Option PaymentStatus
    → ℕ
    → ℤ
    → Type 0
ReadsReturn d id hash status asset_id payment_status limit now =
    ((found : Option Transfer) × ((get_transfer id d).0 ≡ ok found))
    × Limited limit (Transfers.list_transfers status asset_id limit d).0
    × ((ts : List Transfer) × ((pending_transfers d).0 ≡ ok ts))
    × ((ts : List Transfer) × ((expired_fallible now d).0 ≡ ok ts))
    × ((found : Option Payment) × ((get_payment hash d).0 ≡ ok found))
    × Limited limit (Payments.list_payments payment_status limit d).0
    × ((ps : List Payment) × ((pending_payments d).0 ≡ ok ps))
    × ((s : NodeState) × ((node_state d).0 ≡ ok s))

-- Of a valid database every read of transfers, of payments and of the node state returns, since no
-- stored value fails to decode, and the two lists return no more entries than their limits.
pub reads-Valid :
    (d : Db) (id hash : String) (status : Option TransferStatus) (asset_id : Option String)
    (payment_status : Option PaymentStatus) (limit : ℕ) (now : ℤ)
    → Valid d
    → ReadsReturn d id hash status asset_id payment_status limit now
reads-Valid d id hash status asset_id payment_status limit now v = (
  get_transfer-ok id d v,
  list_transfers-ok status asset_id limit d v,
  pending_transfers-ok d v,
  expired_fallible-ok now d v,
  get_payment-ok hash d v,
  list_payments-ok payment_status limit d v,
  pending_payments-ok d v,
  node_state-ok d v,
)
