-- ===== src/Store/Rows.antt =====
-- The columns of the tables (migrations/*.sql) as the queries of store.rs read them: a status is
-- text, and a `u64` is stored as an `i64`.
use rln_companion.Base.{String, Option, List}
use rln_companion.Base.Int.{ℤ}
use rln_companion.Store.Types.{OutboxEvent}

pub record TransferRow : Type 0 where
  pub id : String
  pub rln_idx : Option ℤ
  pub asset_id : Option String
  pub kind : Option String
  pub status : String
  pub recipient_id : Option String
  pub txid : Option String
  pub batch_transfer_idx : Option ℤ
  pub invoice : Option String
  pub expiration_timestamp : Option ℤ
  pub created_at : ℤ
  pub updated_at : ℤ
  pub last_seen_at : Option ℤ
  pub settled_at : Option ℤ

pub record PaymentRow : Type 0 where
  pub payment_hash : String
  pub direction : String
  pub status : String
  pub asset_id : Option String
  pub asset_amount : Option ℤ
  pub amt_msat : Option ℤ
  pub payee_pubkey : Option String
  pub created_at : ℤ
  pub updated_at : ℤ
  pub last_seen_at : Option ℤ

-- A row of `webhook_outbox`: the selected columns, and `delivered_at`.
pub record OutboxRow : Type 0 where
  pub event : OutboxEvent
  pub delivered_at : Option ℤ

pub record AssetRow : Type 0 where
  pub asset_id : String
  pub schema : String
  pub last_synced_at : Option ℤ

-- The one row of `node_state`.
pub record NodeRow : Type 0 where
  pub state : String
  pub updated_at : ℤ
  pub last_full_sync_at : Option ℤ
  pub payments_baseline_at : Option ℤ

-- The tables, their rows in the order of the rowid: no statement deletes a row, so a new row has
-- the largest rowid and stands last.
pub record Db : Type 0 where
  pub transfers : List TransferRow
  pub assets : List AssetRow
  pub node_state : NodeRow
  pub outbox : List OutboxRow
  pub payments : List PaymentRow
