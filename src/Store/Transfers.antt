-- ===== src/Store/Transfers.antt =====
-- The statements of store.rs over the table `transfers`. `fresh` is the value of
-- `Uuid::new_v4().to_string()`, should the call need one.
use mathlib.Core.Option
use rln_companion.Base.{
  ℕ, String, List, Option, ◌>>=◌, Bool, true, false, coalesce, find, Result, sort_by, sql_eq, take,
  none, any, where_rows, reverse, Eq_String, distinct, err, map, some, ok, ◌∷◌, somes, str_le,
  and_then, is_none, ◌&&◌, [], ◌++◌, lift, update_rows, if◌then◌else◌, ◌==◌,
}
use rln_companion.Base.Int.{ℤ, leb_ℤ, ltb_ℤ}
use rln_companion.Store.Transaction.{Query}
use rln_companion.Store.Types.{
  NewTransfer, TransferStatus, Transfer, StoreError, waiting, corrupt, fallible, db,
}
use rln_companion.Store.Codec.{
  ts_to_db, transpose_map, status_to_str, transfer_try_from, all_statuses,
}
use rln_companion.Store.Rows.{TransferRow}

-- `WHERE id = ?`
abbrev pub has_id : String → TransferRow → Bool
has_id id r = r.id == id

-- `fetch_one` of a row that the caller has just written.
unfoldable pub fetch_transfer : String → Query Transfer
fetch_transfer id d = elim (find (has_id id) d.transfers) [
  | none ↦ (err corrupt, d)
  | some r ↦ (transfer_try_from r, d)
]

abbrev pub inserted_row : String → NewTransfer → Option ℤ → ℤ → TransferRow
inserted_row fresh t expiration now = record {
  id = fresh;
  rln_idx = none;
  asset_id = t.asset_id;
  kind = t.kind;
  status = status_to_str t.status;
  recipient_id = t.recipient_id;
  txid = t.txid;
  batch_transfer_idx = t.batch_transfer_idx;
  invoice = t.invoice;
  expiration_timestamp = expiration;
  created_at = now;
  updated_at = now;
  last_seen_at = none;
  settled_at = none;
}

-- `ON CONFLICT (recipient_id) DO UPDATE SET …`
abbrev pub merged_row : NewTransfer → Option ℤ → ℤ → TransferRow → TransferRow
merged_row t expiration now r = record r {
  batch_transfer_idx = t.batch_transfer_idx;
  invoice = t.invoice;
  expiration_timestamp = coalesce expiration r.expiration_timestamp;
  updated_at = now;
}

abbrev pub same_recipient : Option String → TransferRow → Bool
same_recipient recipient r = sql_eq r.recipient_id recipient

-- The `INSERT … ON CONFLICT (recipient_id) … RETURNING id`. The primary key is checked first.
unfoldable pub insert_returning_id : String → NewTransfer → Option ℤ → ℤ → Query String
insert_returning_id fresh t expiration now d =
    if any (has_id fresh) d.transfers
    then (err db, d)
    else elim (find (same_recipient t.recipient_id) d.transfers) [
      | some r ↦ (
        ok r.id,
        record d {
          transfers =
              update_rows (same_recipient t.recipient_id) (merged_row t expiration now) d.transfers;
        },
      )
      | none ↦ (
        ok fresh,
        record d { transfers = d.transfers ++ inserted_row fresh t expiration now ∷ [] },
      )
    ]

unfoldable pub insert_transfer : String → NewTransfer → ℤ → Query Transfer
unfolding ◌>>=◌ ts_to_db insert_returning_id fetch_transfer
insert_transfer fresh t now = do
  expiration ← lift (ts_to_db t.expiration_timestamp)
  id ← insert_returning_id fresh t expiration now
  fetch_transfer id

unfoldable pub get_transfer : String → Query (Option Transfer)
get_transfer id d = (transpose_map transfer_try_from (find (has_id id) d.transfers), d)

-- `rows.into_iter().map(Transfer::try_from).collect()`
unfoldable pub collect_transfers : List TransferRow → Result StoreError (List Transfer)
collect_transfers [] = ok []
collect_transfers (r ∷ rs) =
    and_then (transfer_try_from r) λ t. and_then (collect_transfers rs) λ ts. ok (t ∷ ts)

-- `ORDER BY created_at, rowid`
abbrev pub by_age : List TransferRow → List TransferRow
by_age rows = sort_by (λ a b. leb_ℤ a.created_at b.created_at) rows

-- `?1 IS NULL OR column = ?1`
abbrev pub wanted : Option String → Option String → Bool
wanted none column = true
wanted (some v) column = sql_eq column (some v)

-- `ORDER BY created_at DESC, rowid DESC` is the reverse of the order by age.
unfoldable pub list_transfers : Option TransferStatus → Option String → ℕ → Query (List Transfer)
unfolding collect_transfers
list_transfers status asset_id limit d = (
  collect_transfers (
      take limit (
        reverse (
          by_age (
            where_rows
              (λ r.
                wanted (Option.map status_to_str status) (some r.status)
                && wanted asset_id r.asset_id)
              d.transfers)))),
  d,
)

-- `status IN (…)`, with the names of the statuses that the predicate accepts.
unfoldable pub status_in : (TransferStatus → Bool) → String → Bool
status_in pred s = any (λ name. name == s) (map status_to_str (where_rows pred all_statuses))

unfoldable pub pending_transfers : Query (List Transfer)
unfolding collect_transfers
pending_transfers d =
    (collect_transfers (by_age (where_rows (λ r. status_in waiting r.status) d.transfers)), d)

-- `expiration_timestamp IS NOT NULL AND expiration_timestamp < ?`
abbrev pub expired : Option ℤ → ℤ → Bool
expired none now = false
expired (some at) now = ltb_ℤ at now

unfoldable pub expired_fallible : ℤ → Query (List Transfer)
unfolding collect_transfers
expired_fallible now d = (
  collect_transfers (
      by_age (
        where_rows (λ r. expired r.expiration_timestamp now && status_in fallible r.status)
          d.transfers)),
  d,
)

-- `SELECT DISTINCT asset_id … ORDER BY asset_id`: NULL stands first.
abbrev pub same_asset : Option String → Option String → Bool
same_asset none none = true
same_asset (some a) (some b) = a == b
same_asset none (some b) = false
same_asset (some a) none = false

abbrev pub asset_le : Option String → Option String → Bool
asset_le none b = true
asset_le (some a) none = false
asset_le (some a) (some b) = str_le a b

unfoldable pub pending_asset_ids : Query (List String × Bool)
pending_asset_ids d =
    let ids = sort_by asset_le (
      distinct same_asset
        (map (λ r. r.asset_id) (where_rows (λ r. status_in waiting r.status) d.transfers))) in
    (ok (somes ids, any is_none ids), d)
