-- ===== src/Rln/Types.antt =====
-- The answers of the node that rln.rs decodes, and its errors. The texts of transport and decoding
-- errors are not modelled.
use rln_companion.Base.{ℕ, String, Option}
use rln_companion.Base.Int.{ℤ}
use rln_companion.Store.Types.{TransferStatus, PaymentStatus, PaymentDirection, inbound}

pub record RlnTransfer : Type 0 where
  pub idx : ℤ
  pub status : TransferStatus
  pub kind : String
  pub recipient_id : Option String
  pub txid : Option String
  pub expiration_timestamp : Option ℕ

pub data RlnPaymentType : Type 0 where
  outbound inbound_auto_claim inbound_hodl : RlnPaymentType

unfoldable pub direction : RlnPaymentType → PaymentDirection
direction RlnPaymentType.outbound = PaymentDirection.outbound
direction inbound_auto_claim = inbound
direction inbound_hodl = inbound

pub record RlnPayment : Type 0 where
  pub amt_msat : Option ℕ
  pub asset_amount : Option ℕ
  pub asset_id : Option String
  pub payment_hash : String
  pub payment_type : RlnPaymentType
  pub status : PaymentStatus
  pub payee_pubkey : String

pub data RlnError : Type 0 where
  locked cannot_fail : RlnError
  api : ℕ → String → String → RlnError
  transport decode : RlnError
