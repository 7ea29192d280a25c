-- ===== src/Store/Valid.antt =====
-- What the tables hold between two statements: the constraints of migrations/*.sql, and values that
-- `TryFrom` reads back.
pub mod Transfers
pub mod Inserts
pub mod Payments
pub mod Others
pub mod Reads
use rln_companion.Base.{
  ◌≤◌, String, ◌≡◌, Bool, Option, none, some, List, All, count, sql_eq, Eq_String, inl, inr, true,
  false, [], ◌∷◌, ◌++◌, arith, any, update_rows, Bool-cases, sym, eq_iff, Result, ok, err,
}
use rln_companion.Base.Int.{ℤ, i64_max, pos, negsuc, Eq_ℤ}
use rln_companion.Base.Respects.{Preorder, Respects}
use rln_companion.Store.Codec.{
  status_to_str, payment_status_to_str, direction_to_str, node_state_to_str,
}
use rln_companion.Store.Node.{has_asset}
use rln_companion.Store.Outbox.{has_event_id, Event, queued_row}
use rln_companion.Store.Payments.{has_hash}
use rln_companion.Store.Rows.{TransferRow, PaymentRow, Db, OutboxRow}
use rln_companion.Store.Transfers.{has_id}
use rln_companion.Store.Types.{
  TransferStatus, PaymentStatus, PaymentDirection, NodeState, StoreError,
}
use rln_companion.Base.Tables.{count-update_rows, count-append, count_of_none}
use rln_companion.Store.Atomic.{queued, is_fresh}
use rln_companion.Store.Transaction.{Query, settle_tx, transaction}
use mathlib.Core.Path.{subst}

-- A value that `u64::try_from` takes, and that `i64::try_from` of a `u64` gave.
abbrev pub InRange : Option ℤ → Type 0
InRange none = Unit
InRange (some (pos n)) = n ≤ i64_max
InRange (some (negsuc n)) = ⊥

abbrev pub TransferOk : TransferRow → Type 0
TransferOk r =
    ((s : TransferStatus) × (r.status ≡ status_to_str s)) × InRange r.expiration_timestamp

abbrev pub PaymentOk : PaymentRow → Type 0
PaymentOk r =
    ((x : PaymentDirection) × (r.direction ≡ direction_to_str x))
    × ((s : PaymentStatus) × (r.status ≡ payment_status_to_str s))
    × InRange r.asset_amount
    × InRange r.amt_msat

-- `UNIQUE (column)`: NULL is not a value.
abbrev pub has_idx : ℤ → TransferRow → Bool
has_idx idx r = sql_eq r.rln_idx (some idx)

abbrev pub has_recipient : String → TransferRow → Bool
has_recipient recipient r = sql_eq r.recipient_id (some recipient)

abbrev pub Unique : {K A : Type 0} → (K → A → Bool) → List A → Type 0
Unique {K} has rows = (k : K) → count (has k) rows ≤ 1

pub record Valid (d : Db) : Type 0 where
  pub ids : Unique has_id d.transfers
  pub idxs : Unique has_idx d.transfers
  pub recipients : Unique has_recipient d.transfers
  pub transfers_ok : All TransferOk d.transfers
  pub hashes : Unique has_hash d.payments
  pub payments_ok : All PaymentOk d.payments
  pub event_ids : Unique has_event_id d.outbox
  pub asset_ids : Unique has_asset d.assets
  pub state_ok : (s : NodeState) × (d.node_state.state ≡ node_state_to_str s)

-- What a statement keeps.
abbrev pub Stays : Db → Db → Type 0
Stays d d' = Valid d → Valid d'

pub Stays-order : Preorder Stays
Stays-order = record { here = λ d h. h; onwards = λ s t u f g h. g (f h) }

-- An update that leaves the column, or that only empties it.
pub Unique-update :
    {K A : Type 0} (has : K → A → Bool) (p : A → Bool) (f : A → A) (rows : List A)
    → ((k : K) (r : A) → has k (f r) ≡ true → has k r ≡ true)
    → Unique has rows
    → Unique has (update_rows p f rows)
Unique-update has p f rows same h k =
    omega (arith, h k, count-update_rows (has k) p f rows (same k))

pub Unique-append :
    {K A : Type 0} (has : K → A → Bool) (rows : List A) (x : A)
    → ((k : K) → has k x ≡ true → any (has k) rows ≡ false)
    → Unique has rows
    → Unique has (rows ++ x ∷ [])
Unique-append has rows x free h k = elim (Bool-cases (has k x)) [
  | inl there ↦ rw count-append (ground (arith, count_of_none (has k) rows (free k there)))
  | inr absent ↦ rw count-append (ground (arith, h k))
]

-- The rows with a queued event, if the outbox does not hold it yet.
pub queued-Unique :
    (event : Option Event) (now : ℤ) (rows : List OutboxRow)
    → is_fresh event rows ≡ true
    → Unique has_event_id rows
    → Unique has_event_id (queued event now rows)
queued-Unique none now rows free h = h
queued-Unique (some e) now rows free h =
    Unique-append has_event_id rows (queued_row e now)
      (λ k there.
        let same : e.event_id ≡ k = (eq_iff e.event_id k).0 there in
        subst (λ i. any (has_event_id i) rows ≡ false) same (ground arith))
      h

settle_tx-Stays :
    {A : Type 0} (d d' : Db) (r : Result StoreError A) → Stays d d' → Stays d (settle_tx d r d').1
settle_tx-Stays d d' (ok a) h = h
settle_tx-Stays d d' (err e) h = λ v. v

pub transaction-Stays :
    {A : Type 0} (body : Query A) → Respects Stays body → Respects Stays (transaction body)
unfolding transaction
transaction-Stays body h = record { at = λ d. settle_tx-Stays d (body d).1 (body d).0 (h.at d) }

-- A query that only reads.
pub read-Stays : {A : Type 0} (q : Query A) → ((d : Db) → (q d).1 ≡ d) → Respects Stays q
read-Stays q same = record { at = λ d v. subst Valid (sym (same d)) v }
