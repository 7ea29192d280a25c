-- ===== src/Store/Upsert.antt =====
-- upsert_observed and apply_transition of store.rs. `fresh` is the value of
-- `Uuid::new_v4().to_string()`, should the call need one.
use mathlib.Core.Option
use rln_companion.Base.{
  ℕ, String, ◌>>=◌, List, Option, Bool, some, head?, sort_by, sql_eq, coalesce, none, leb,
  where_rows, true, false, not, ◌&&◌, ◌||◌, [], ◌∷◌, ◌++◌, pure, lift, gets, ok, err, any,
  update_rows, if◌then◌else◌, ◌==◌, is_none, Eq_String, ◌>>◌,
}
use rln_companion.Store.Types.{Observed, TransferStatus, Transfer, settled, db}
use rln_companion.Store.Transaction.{transaction, Query}
use rln_companion.Base.Int.{ℤ, Eq_ℤ}
use rln_companion.Store.Codec.{ts_to_db, status_to_str}
use rln_companion.Store.Outbox.{enqueue, Event}
use rln_companion.Store.Rows.{TransferRow}
use rln_companion.Store.Transfers.{fetch_transfer, has_id}
use rln_companion.Store.Equality.{Eq_TransferStatus}

-- The `WHERE` of the lookup: bound to the index, or not bound yet and of the same recipient, or of
-- the same transaction and asset.
unfoldable pub matches : Observed → TransferRow → Bool
matches o r =
    sql_eq r.rln_idx (some o.rln_idx)
    || (is_none r.rln_idx
        && (sql_eq r.recipient_id o.recipient_id
            || (sql_eq r.txid o.txid && sql_eq r.asset_id o.asset_id)))

-- The `CASE` of its `ORDER BY`.
unfoldable pub match_order : Observed → TransferRow → ℕ
match_order o r =
    if sql_eq r.rln_idx (some o.rln_idx)
    then 0
    else if sql_eq r.recipient_id o.recipient_id
    then 1
    else 2

unfoldable pub existing_id : Observed → List TransferRow → Option String
unfolding matches match_order
existing_id o rows =
    Option.map (λ r. r.id)
      (head?
        (sort_by (λ a b. leb (match_order o a) (match_order o b)) (where_rows (matches o) rows)))

abbrev pub refreshed_row : Observed → Option ℤ → ℤ → TransferRow → TransferRow
refreshed_row o expiration now r = record r {
  rln_idx = some o.rln_idx;
  asset_id = coalesce o.asset_id r.asset_id;
  kind = some o.kind;
  txid = coalesce o.txid r.txid;
  expiration_timestamp = coalesce expiration r.expiration_timestamp;
  last_seen_at = some now;
}

-- `UPDATE transfers SET rln_idx = ?, … WHERE id = ?`, with the UNIQUE constraint on `rln_idx`.
unfoldable pub refresh_row : String → Observed → Option ℤ → ℤ → Query Unit
refresh_row id o expiration now d =
    if any (λ r. not (r.id == id) && sql_eq r.rln_idx (some o.rln_idx)) d.transfers
    then (err db, d)
    else (
      ok tt,
      record d { transfers = update_rows (has_id id) (refreshed_row o expiration now) d.transfers },
    )

abbrev pub discovered_row : String → Observed → Option ℤ → ℤ → TransferRow
discovered_row fresh o expiration now = record {
  id = fresh;
  rln_idx = some o.rln_idx;
  asset_id = o.asset_id;
  kind = some o.kind;
  status = status_to_str o.status;
  recipient_id = o.recipient_id;
  txid = o.txid;
  batch_transfer_idx = none;
  invoice = none;
  expiration_timestamp = expiration;
  created_at = now;
  updated_at = now;
  last_seen_at = some now;
  settled_at = none;
}

-- A row that breaks a UNIQUE constraint with the row to be inserted.
abbrev pub clashes : String → Observed → TransferRow → Bool
clashes fresh o r =
    r.id == fresh || sql_eq r.rln_idx (some o.rln_idx) || sql_eq r.recipient_id o.recipient_id

unfoldable pub discover_row : String → Observed → Option ℤ → ℤ → Query Unit
discover_row fresh o expiration now d =
    if any (clashes fresh o) d.transfers
    then (err db, d)
    else (ok tt, record d { transfers = d.transfers ++ discovered_row fresh o expiration now ∷ [] })

-- The row that the observation is written to: the existing one, or a new one.
unfoldable pub bind_row : String → Observed → Option ℤ → ℤ → Option String → Query String
unfolding ◌>>=◌ refresh_row discover_row
bind_row fresh o expiration now (some id) = do refresh_row id o expiration now; pure id
bind_row fresh o expiration now none = do discover_row fresh o expiration now; pure fresh

unfoldable pub upsert_body : String → Observed → ℤ → Query Transfer
unfolding ◌>>=◌ ts_to_db existing_id bind_row fetch_transfer
upsert_body fresh o now = do
  existing ← gets (λ d. existing_id o d.transfers)
  expiration ← lift (ts_to_db o.expiration_timestamp)
  id ← bind_row fresh o expiration now existing
  fetch_transfer id

unfoldable pub upsert_observed : String → Observed → ℤ → Query Transfer
unfolding transaction upsert_body
upsert_observed fresh o now = transaction (upsert_body fresh o now)

-- `WHERE id = ? AND status = ?`
abbrev pub stands_at : String → TransferStatus → TransferRow → Bool
stands_at id from r = r.id == id && r.status == status_to_str from

abbrev pub moved_row : TransferStatus → ℤ → TransferRow → TransferRow
moved_row to now r = record r {
  status = status_to_str to;
  updated_at = now;
  settled_at = coalesce (if to == settled then some now else none) r.settled_at;
}

-- Between `BEGIN IMMEDIATE` and `commit`; no row affected, nothing to commit.
unfoldable pub transition_body :
    String → TransferStatus → TransferStatus → Option Event → ℤ → Query Bool
unfolding ◌>>=◌ enqueue
transition_body id from to event now d =
    if any (stands_at id from) d.transfers
    then (do enqueue event now; pure true)
        (record d { transfers = update_rows (stands_at id from) (moved_row to now) d.transfers })
    else (ok false, d)

unfoldable pub apply_transition :
    String → TransferStatus → TransferStatus → Option Event → ℤ → Query Bool
unfolding transaction transition_body
apply_transition id from to event now d =
    if from == to then (ok false, d) else transaction (transition_body id from to event now) d
