-- ===== src/Rln/Api.antt =====
-- The trait `RlnApi`: what the engine and the sync ask of a node with the states `N`. A call may
-- change the state of the node, also when it fails.
use rln_companion.Base.{ℕ, String, Bool, List, Exec}
use rln_companion.Base.Int.{ℤ}
use rln_companion.Rln.Types.{RlnTransfer, RlnPayment, RlnError}

pub record RlnApi (N : Type 0) : Type 0 where
  pub refresh : Bool → Exec N RlnError Unit
  pub list_transfers : String → ℕ → Exec N RlnError (List RlnTransfer)
  pub list_assetless_transfers : ℕ → Exec N RlnError (List RlnTransfer)
  pub list_payments : ℕ → Exec N RlnError (List RlnPayment)
  pub decode_ln_invoice : String → Exec N RlnError String
  pub list_assets : Exec N RlnError (List (String × String))
  pub fail_transfer : ℤ → Exec N RlnError Unit
  pub node_info : Exec N RlnError Unit
  pub network : Exec N RlnError String
