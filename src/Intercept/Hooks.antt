-- ===== src/Intercept/Hooks.antt =====
-- The hooks of intercept.rs. Each takes the values of `now()` it reads.
use rln_companion.Engine.State
use rln_companion.Engine.Tick
use rln_companion.Base.{
  ℕ, ◌+◌, String, true, false, Option, none, some, List, [], ◌∷◌, Result, Exec, pure, lift, ◌>>=◌,
  ◌>>◌, map_err, ok, err, if◌then◌else◌,
}
use rln_companion.Base.Int.{ℤ}
use rln_companion.Engine.Fault.{EngineError}
use rln_companion.Engine.State.{Engine}
use rln_companion.Engine.Tick.{sync_pending_locked}
use rln_companion.Intercept.Bodies.{
  InvoiceRequest, InvoiceResponse, SendRequest, LnInvoiceRequest, Json,
}
use rln_companion.Intercept.Exchange.{
  Exchange, HookError, Effects, Hook, engine_error, asset_sync, reconcile_task,
}
use rln_companion.Store.Node.{upsert_assets}
use rln_companion.Store.Payments.{insert_pending_payment}
use rln_companion.Store.Transfers.{insert_transfer}
use rln_companion.Store.Types.{
  PaymentStatus, PaymentDirection, NodeState, NewTransfer, NewPayment, StoreError,
  waiting_counterparty, waiting_confirmations, inbound, down,
}
use rln_companion.Sync.Apply.{apply_payment_observed}
use rln_companion.World.{World, SyncError, on_db, draw}

abbrev pub from_store : StoreError → HookError
from_store e = engine_error (EngineError.store e)

abbrev pub from_sync : SyncError → HookError
from_sync e = engine_error (EngineError.sync e)

abbrev parsed : {A : Type 0} → HookError → Option A → Result HookError A
parsed e none = err e
parsed e (some a) = ok a

-- `?` on a call whose error converts into `HookError`
unfoldable pub converted :
    {N E A : Type 0} → (E → HookError) → Exec (World N) E A → Exec (World N) HookError A
unfolding map_err
converted from m w = let (r, w') = m w in (map_err from r, w')

module _ {N : Type 0} where
  unfoldable pub parse_req :
      {A : Type 0} → (String → Option A) → Exchange → Exec (World N) HookError A
  parse_req from_slice ex = lift (parsed HookError.request (from_slice ex.req))

  unfoldable pub parse_resp :
      {A : Type 0} → (String → Option A) → Exchange → Exec (World N) HookError A
  parse_resp from_slice ex = lift (parsed HookError.response (from_slice ex.resp))

abbrev pub nothing : Effects
nothing = record { spawned = []; woken = false }

module _ {N : Type 0} (engine : Engine N) (json : Json) where
  abbrev invoice_row : InvoiceRequest → InvoiceResponse → NewTransfer
  invoice_row req resp = record {
    asset_id = req.asset_id;
    kind = some (if req.witness then "ReceiveWitness" else "ReceiveBlind");
    status = waiting_counterparty;
    recipient_id = some resp.recipient_id;
    txid = none;
    batch_transfer_idx = some resp.batch_transfer_idx;
    invoice = some resp.invoice;
    expiration_timestamp = resp.expiration_timestamp;
  }

  unfoldable pub rgbinvoice : ℤ → Hook N
  unfolding ◌>>=◌ parse_req parse_resp draw on_db insert_transfer
  rgbinvoice now ex = do
    req ← parse_req json.invoice_request ex
    resp ← parse_resp json.invoice_response ex
    fresh ← draw engine.env
    on_db from_store (insert_transfer fresh (invoice_row req resp) now)
    pure (record { spawned = []; woken = true })

  abbrev pub send_row : SendRequest → String → String → NewTransfer
  send_row req txid asset_id = record {
    asset_id = some asset_id;
    kind = some "Send";
    status = if req.donation then waiting_confirmations else waiting_counterparty;
    recipient_id = none;
    txid = some txid;
    batch_transfer_idx = none;
    invoice = none;
    expiration_timestamp = req.expiration_timestamp;
  }

  -- The clock is read for every asset: `nows k` for the asset at `k`.
  unfoldable pub insert_sends :
      SendRequest → String → List String → (ℕ → ℤ) → ℕ → Exec (World N) HookError Unit
  unfolding ◌>>=◌ draw on_db insert_transfer
  insert_sends req txid [] nows k = pure tt
  insert_sends req txid (asset_id ∷ ids) nows k = do
    fresh ← draw engine.env
    on_db from_store (insert_transfer fresh (send_row req txid asset_id) (nows k))
    insert_sends req txid ids nows (k + 1)

  unfoldable pub sendrgb : (ℕ → ℤ) → Hook N
  unfolding ◌>>=◌ parse_req parse_resp insert_sends
  sendrgb nows ex = do
    req ← parse_req json.send_request ex
    txid ← parse_resp json.send_response ex
    insert_sends req txid req.recipient_map nows 0
    pure (record { spawned = asset_sync req.recipient_map ∷ []; woken = true })

  -- The row of an outbound payment that the node has accepted.
  unfoldable pub record_hash :
      String
      → PaymentStatus
      → Option String
      → Option ℕ
      → Option ℕ
      → Option String
      → ℤ
      → Exec (World N) HookError Effects
  unfolding ◌>>=◌ on_db insert_pending_payment apply_payment_observed converted
  record_hash payment_hash status asset_id asset_amount amt_msat payee_pubkey now = do
    inserted ← on_db from_store (
        insert_pending_payment
          (record {
            payment_hash = payment_hash;
            direction = PaymentDirection.outbound;
            status = PaymentStatus.pending;
            asset_id = asset_id;
            asset_amount = asset_amount;
            amt_msat = amt_msat;
            payee_pubkey = payee_pubkey;
          })
          now)
    converted from_sync (apply_payment_observed engine.env inserted status now)
    pure nothing

  -- An answer without a payment hash is not mirrored.
  unfoldable pub record_outbound_payment :
      Option String
      → PaymentStatus
      → Option String
      → Option ℕ
      → Option ℕ
      → Option String
      → ℤ
      → Exec (World N) HookError Effects
  unfolding record_hash
  record_outbound_payment none status asset_id asset_amount amt_msat payee_pubkey now = pure nothing
  record_outbound_payment (some payment_hash) status asset_id asset_amount amt_msat payee_pubkey
        now =
      record_hash payment_hash status asset_id asset_amount amt_msat payee_pubkey now

  unfoldable pub keysend : ℤ → Hook N
  unfolding ◌>>=◌ parse_req parse_resp record_outbound_payment
  keysend now ex = do
    req ← parse_req json.keysend_request ex
    resp ← parse_resp json.payment_response ex
    record_outbound_payment resp.payment_hash resp.status req.asset_id req.asset_amount
        (some req.amt_msat) (some req.dest_pubkey) now

  unfoldable pub sendpayment : ℤ → Hook N
  unfolding ◌>>=◌ parse_req parse_resp record_outbound_payment
  sendpayment now ex = do
    req ← parse_req json.send_payment_request ex
    resp ← parse_resp json.payment_response ex
    record_outbound_payment resp.payment_hash resp.status req.asset_id req.asset_amount req.amt_msat
        none now

  abbrev inbound_row : String → LnInvoiceRequest → NewPayment
  inbound_row payment_hash req = record {
    payment_hash = payment_hash;
    direction = inbound;
    status = PaymentStatus.pending;
    asset_id = req.asset_id;
    asset_amount = req.asset_amount;
    amt_msat = req.amt_msat;
    payee_pubkey = none;
  }

  unfoldable pub lninvoice : ℤ → Hook N
  unfolding ◌>>=◌ parse_req parse_resp Tick.decode_ln_invoice converted on_db insert_pending_payment
  lninvoice now ex = do
    req ← parse_req json.ln_invoice_request ex
    invoice ← parse_resp json.ln_invoice_response ex
    payment_hash ← converted engine_error (Tick.decode_ln_invoice engine invoice)
    on_db from_store (insert_pending_payment (inbound_row payment_hash req) now)
    pure nothing

  unfoldable pub issue : String → ℤ → Hook N
  unfolding ◌>>=◌ parse_resp on_db upsert_assets
  issue schema now ex = do
    asset_id ← parse_resp json.issue_response ex
    on_db from_store (upsert_assets ((asset_id, schema) ∷ []) now)
    pure (record { spawned = asset_sync (asset_id ∷ []) ∷ []; woken = false })

  unfoldable pub inflate : Hook N
  unfolding ◌>>=◌ parse_req
  inflate ex = do
    asset_id ← parse_req json.asset_id_field ex
    pure (record { spawned = asset_sync (asset_id ∷ []) ∷ []; woken = false })

  unfoldable pub assetlink : Hook N
  unfolding ◌>>=◌ parse_req
  assetlink ex = do
    req ← parse_req json.asset_link_request ex
    pure (record {
      spawned = asset_sync (req.child_asset_id ∷ req.parent_asset_id ∷ []) ∷ [];
      woken = false;
    })

  -- `noted` is when the node is marked locked, should the sync find it so.
  unfoldable pub sync_pending : ℤ → ℤ → Hook N
  unfolding ◌>>=◌ sync_pending_locked converted
  sync_pending now noted ex = do
    converted engine_error (sync_pending_locked engine now noted)
    pure nothing

  unfoldable pub unlock : ℤ → Hook N
  unfolding ◌>>=◌ State.set_node_state converted
  unlock now ex = do
    converted engine_error (State.set_node_state engine NodeState.unlocked now)
    pure (record { spawned = reconcile_task ∷ []; woken = false })

  unfoldable pub lock : ℤ → Hook N
  unfolding ◌>>=◌ State.set_node_state converted
  lock now ex = do
    converted engine_error (State.set_node_state engine NodeState.locked now)
    pure nothing

  unfoldable pub shutdown : ℤ → Hook N
  unfolding ◌>>=◌ State.set_node_state converted
  shutdown now ex = do converted engine_error (State.set_node_state engine down now); pure nothing
