-- ===== src/Store/Types.antt =====
-- The types of store.rs: what the mirror keeps of transfers, payments, the node and the outbox.
-- `i32` and `i64` are integers, `u64` and `u32` are numbers.
use rln_companion.Base.{ℕ, String, Bool, true, false, Option}
use rln_companion.Base.Int.{ℤ}

pub data TransferStatus : Type 0 where
  initiated waiting_counterparty waiting_safe_height waiting_broadcast : TransferStatus
  waiting_confirmations settled failed : TransferStatus

unfoldable pub terminal : TransferStatus → Bool
terminal settled = true
terminal failed = true
terminal _ = false

unfoldable pub waiting : TransferStatus → Bool
waiting waiting_counterparty = true
waiting waiting_safe_height = true
waiting waiting_broadcast = true
waiting waiting_confirmations = true
waiting _ = false

unfoldable pub fallible : TransferStatus → Bool
fallible initiated = true
fallible waiting_counterparty = true
fallible waiting_safe_height = true
fallible waiting_broadcast = true
fallible _ = false

pub data PaymentStatus : Type 0 where
  pending succeeded failed claimable claiming cancelled : PaymentStatus

unfoldable pub payment_terminal : PaymentStatus → Bool
payment_terminal succeeded = true
payment_terminal failed = true
payment_terminal cancelled = true
payment_terminal _ = false

pub data PaymentDirection : Type 0 where
  inbound outbound : PaymentDirection

pub data NodeState : Type 0 where
  unknown locked unlocked down misconfigured : NodeState

pub record Transfer : Type 0 where
  pub id : String
  pub rln_idx : Option ℤ
  pub asset_id : Option String
  pub kind : Option String
  pub status : TransferStatus
  pub recipient_id : Option String
  pub txid : Option String
  pub batch_transfer_idx : Option ℤ
  pub invoice : Option String
  pub expiration_timestamp : Option ℕ
  pub created_at : ℤ
  pub updated_at : ℤ
  pub last_seen_at : Option ℤ
  pub settled_at : Option ℤ

pub record NewTransfer : Type 0 where
  pub asset_id : Option String
  pub kind : Option String
  pub status : TransferStatus
  pub recipient_id : Option String
  pub txid : Option String
  pub batch_transfer_idx : Option ℤ
  pub invoice : Option String
  pub expiration_timestamp : Option ℕ

pub record Observed : Type 0 where
  pub rln_idx : ℤ
  pub asset_id : Option String
  pub kind : String
  pub status : TransferStatus
  pub recipient_id : Option String
  pub txid : Option String
  pub expiration_timestamp : Option ℕ

pub record Payment : Type 0 where
  pub payment_hash : String
  pub direction : PaymentDirection
  pub status : PaymentStatus
  pub asset_id : Option String
  pub asset_amount : Option ℕ
  pub amt_msat : Option ℕ
  pub payee_pubkey : Option String
  pub created_at : ℤ
  pub updated_at : ℤ
  pub last_seen_at : Option ℤ

pub record NewPayment : Type 0 where
  pub payment_hash : String
  pub direction : PaymentDirection
  pub status : PaymentStatus
  pub asset_id : Option String
  pub asset_amount : Option ℕ
  pub amt_msat : Option ℕ
  pub payee_pubkey : Option String

pub record OutboxEvent : Type 0 where
  pub id : String
  pub event_type : String
  pub payload : String
  pub attempts : ℕ
  pub next_attempt_at : ℤ

-- A database error (a violated constraint), or a stored value that does not decode.
pub data StoreError : Type 0 where
  db corrupt : StoreError
