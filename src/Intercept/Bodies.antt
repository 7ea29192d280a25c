-- ===== src/Intercept/Bodies.antt =====
-- The structs that intercept.rs reads from the bodies of requests and answers.
use rln_companion.Base.{ℕ, String, Bool, Option, List}
use rln_companion.Base.Int.{ℤ}
use rln_companion.Store.Types.{PaymentStatus}

pub record InvoiceRequest : Type 0 where
  pub asset_id : Option String
  pub witness : Bool

pub record InvoiceResponse : Type 0 where
  pub recipient_id : String
  pub invoice : String
  pub expiration_timestamp : Option ℕ
  pub batch_transfer_idx : ℤ

-- The keys of `recipient_map`, in the order in which the map gives them.
pub record SendRequest : Type 0 where
  pub donation : Bool
  pub expiration_timestamp : Option ℕ
  pub recipient_map : List String

pub record KeysendRequest : Type 0 where
  pub dest_pubkey : String
  pub amt_msat : ℕ
  pub asset_id : Option String
  pub asset_amount : Option ℕ

pub record PaymentResponse : Type 0 where
  pub payment_hash : Option String
  pub status : PaymentStatus

pub record SendPaymentRequest : Type 0 where
  pub amt_msat : Option ℕ
  pub asset_id : Option String
  pub asset_amount : Option ℕ

pub record LnInvoiceRequest : Type 0 where
  pub amt_msat : Option ℕ
  pub asset_id : Option String
  pub asset_amount : Option ℕ

pub record AssetLinkRequest : Type 0 where
  pub parent_asset_id : String
  pub child_asset_id : String

-- `serde_json::from_slice` at each of them; a struct of one field is that field.
pub record Json : Type 0 where
  pub invoice_request : String → Option InvoiceRequest
  pub invoice_response : String → Option InvoiceResponse
  pub send_request : String → Option SendRequest
  pub send_response : String → Option String
  pub keysend_request : String → Option KeysendRequest
  pub payment_response : String → Option PaymentResponse
  pub send_payment_request : String → Option SendPaymentRequest
  pub ln_invoice_request : String → Option LnInvoiceRequest
  pub ln_invoice_response : String → Option String
  pub issue_response : String → Option String
  pub asset_id_field : String → Option String
  pub asset_link_request : String → Option AssetLinkRequest
