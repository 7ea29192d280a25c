-- ===== src/Intercept/Keeps.antt =====
-- What the hooks may do to the mirror: they keep what `Evolves` promises, and a valid database valid.
use rln_companion.Proxy.Forward
use rln_companion.Proxy.Fallback.{answered, note, note_locked, noted_state, fallback}
use rln_companion.Base.{
  ℕ, ◌+◌, String, Option, none, some, List, [], ◌∷◌, Exec, inl, inr, Result, ok, err, Bool-cases,
}
use rln_companion.Base.Int.{ℤ}
use rln_companion.Base.Respects.{Respects}
use rln_companion.Engine.State.{Engine}
use rln_companion.Intercept.Bodies.{SendRequest, Json}
use rln_companion.Intercept.Exchange.{Exchange, HookError, passed, read_then, forward_then}
use rln_companion.Intercept.Hooks.{
  converted, parse_req, parse_resp, rgbinvoice, insert_sends, sendrgb, record_hash,
  record_outbound_payment, keysend, sendpayment, lninvoice, issue, inflate, assetlink, sync_pending,
  unlock, lock, shutdown, from_store, send_row,
}
use rln_companion.Intercept.Routes.{
  Route, Times, hook_of, to_rgbinvoice, to_sendrgb, to_keysend, to_sendpayment, to_lninvoice,
  to_issueassetnia, to_issueassetcfa, to_issueassetuda, to_issueassetifa, to_inflate, to_assetlink,
  to_refreshtransfers, to_failtransfers, to_init, to_unlock, to_restore, to_lock, to_shutdown,
}
use rln_companion.Store.Payments.{insert_pending_payment}
use rln_companion.Store.Types.{PaymentStatus, NewPayment, NodeState}
use rln_companion.Sync.Forward.{
  Forward, lift-Forward, forward_rules, apply_payment_observed-Forward, bind-Forward, on_db-Forward,
  draw-Forward,
}
use rln_companion.World.{World, on_db, draw}
use rln_companion.Engine.Forward.{set_node_state-Forward, sync_pending_locked-Forward}
use rln_companion.Proxy.Forward.{ProxyResponse, Wire, Proxy, ProxyError, Parts, forward_parts}
use rln_companion.Rln.Client.{is_success}
use rln_companion.Store.Transfers.{insert_transfer}
use rln_companion.Sync.Evolve.{Evolves}
use rln_companion.Sync.Statements.{
  Statements, Statements-order, insert_transfer-Statements, upsert_payment-Statements,
  upsert_assets-Statements, Statements-Progress,
}

module _ {N : Type 0} where
  converted-Forward :
      {E A : Type 0} (from : E → HookError) (m : Exec (World N) E A)
      → Respects Forward m
      → Respects Forward (converted from m)
  unfolding converted
  converted-Forward from m h = record { at = λ w. h.at w }

  parse_req-Forward :
      {A : Type 0} (f : String → Option A) (ex : Exchange)
      → Respects (Forward {N = N}) (parse_req f ex)
  unfolding parse_req
  parse_req-Forward f ex = lift-Forward _

  parse_resp-Forward :
      {A : Type 0} (f : String → Option A) (ex : Exchange)
      → Respects (Forward {N = N}) (parse_resp f ex)
  unfolding parse_resp
  parse_resp-Forward f ex = lift-Forward _

insert_pending_payment-Statements :
    (p : NewPayment) (now : ℤ) → Respects Statements (insert_pending_payment p now)
unfolding insert_pending_payment
insert_pending_payment-Statements p now = upsert_payment-Statements p none now

ruleset hook_rules = (
  forward_rules, converted-Forward, parse_req-Forward, parse_resp-Forward,
  insert_transfer-Statements, insert_pending_payment-Statements, upsert_assets-Statements,
  apply_payment_observed-Forward,
)

module _ {N : Type 0} (engine : Engine N) (json : Json) where
  rgbinvoice-Forward : (now : ℤ) (ex : Exchange) → Respects Forward (rgbinvoice engine json now ex)
  unfolding rgbinvoice
  rgbinvoice-Forward now ex = search hook_rules depth 9

  insert_sends-Forward :
      (req : SendRequest) (txid : String) (ids : List String) (nows : ℕ → ℤ) (k : ℕ)
      → Respects Forward (insert_sends engine json req txid ids nows k)
  unfolding insert_sends
  insert_sends-Forward req txid [] nows k = search hook_rules
  insert_sends-Forward req txid (i ∷ ids) nows k =
      bind-Forward (draw engine.env) _ (draw-Forward engine.env) (λ fresh.
        let row = send_row engine json req txid i in
        bind-Forward (on_db from_store (insert_transfer fresh row (nows k))) _
          (on_db-Forward from_store (insert_transfer fresh row (nows k))
            (insert_transfer-Statements fresh row (nows k)))
          (λ stored. insert_sends-Forward req txid ids nows (k + 1)))

  sendrgb-Forward : (nows : ℕ → ℤ) (ex : Exchange) → Respects Forward (sendrgb engine json nows ex)
  unfolding sendrgb
  sendrgb-Forward nows ex = search (hook_rules, insert_sends-Forward)

  record_outbound-Forward :
      (payment_hash : Option String) (status : PaymentStatus) (asset_id : Option String)
      (asset_amount amt_msat : Option ℕ) (payee_pubkey : Option String) (now : ℤ)
      → Respects Forward (
          record_outbound_payment engine json payment_hash status asset_id asset_amount amt_msat
            payee_pubkey now)
  unfolding record_outbound_payment record_hash
  record_outbound-Forward none status asset_id asset_amount amt_msat payee_pubkey now =
      search hook_rules
  record_outbound-Forward (some h) status asset_id asset_amount amt_msat payee_pubkey now =
      search hook_rules

  keysend-Forward : (now : ℤ) (ex : Exchange) → Respects Forward (keysend engine json now ex)
  unfolding keysend
  keysend-Forward now ex = search (hook_rules, record_outbound-Forward)

  sendpayment-Forward :
      (now : ℤ) (ex : Exchange) → Respects Forward (sendpayment engine json now ex)
  unfolding sendpayment
  sendpayment-Forward now ex = search (hook_rules, record_outbound-Forward)

  lninvoice-Forward : (now : ℤ) (ex : Exchange) → Respects Forward (lninvoice engine json now ex)
  unfolding lninvoice
  lninvoice-Forward now ex = search hook_rules depth 9

  issue-Forward :
      (schema : String) (now : ℤ) (ex : Exchange)
      → Respects Forward (issue engine json schema now ex)
  unfolding issue
  issue-Forward schema now ex = search hook_rules

  inflate-Forward : (ex : Exchange) → Respects Forward (inflate engine json ex)
  unfolding inflate
  inflate-Forward ex = search hook_rules

  assetlink-Forward : (ex : Exchange) → Respects Forward (assetlink engine json ex)
  unfolding assetlink
  assetlink-Forward ex = search hook_rules

  sync_pending-Forward :
      (now noted : ℤ) (ex : Exchange) → Respects Forward (sync_pending engine json now noted ex)
  unfolding sync_pending
  sync_pending-Forward now noted ex = search (hook_rules, sync_pending_locked-Forward)

  unlock-Forward : (now : ℤ) (ex : Exchange) → Respects Forward (unlock engine json now ex)
  unfolding unlock
  unlock-Forward now ex = search (hook_rules, set_node_state-Forward)

  lock-Forward : (now : ℤ) (ex : Exchange) → Respects Forward (lock engine json now ex)
  unfolding lock
  lock-Forward now ex = search (hook_rules, set_node_state-Forward)

  shutdown-Forward : (now : ℤ) (ex : Exchange) → Respects Forward (shutdown engine json now ex)
  unfolding shutdown
  shutdown-Forward now ex = search (hook_rules, set_node_state-Forward)

  hook_of-Forward :
      (route : Route) (times : Times) (ex : Exchange)
      → Respects Forward (hook_of engine json route times ex)
  unfolding hook_of
  hook_of-Forward to_rgbinvoice times ex = rgbinvoice-Forward times.now ex
  hook_of-Forward to_sendrgb times ex = sendrgb-Forward times.nows ex
  hook_of-Forward to_keysend times ex = keysend-Forward times.now ex
  hook_of-Forward to_sendpayment times ex = sendpayment-Forward times.now ex
  hook_of-Forward to_lninvoice times ex = lninvoice-Forward times.now ex
  hook_of-Forward to_issueassetnia times ex = issue-Forward "NIA" times.now ex
  hook_of-Forward to_issueassetcfa times ex = issue-Forward "CFA" times.now ex
  hook_of-Forward to_issueassetuda times ex = issue-Forward "UDA" times.now ex
  hook_of-Forward to_issueassetifa times ex = issue-Forward "IFA" times.now ex
  hook_of-Forward to_inflate times ex = inflate-Forward ex
  hook_of-Forward to_assetlink times ex = assetlink-Forward ex
  hook_of-Forward to_refreshtransfers times ex = sync_pending-Forward times.now times.noted ex
  hook_of-Forward to_failtransfers times ex = sync_pending-Forward times.now times.noted ex
  hook_of-Forward to_init times ex = lock-Forward times.now ex
  hook_of-Forward to_unlock times ex = unlock-Forward times.now ex
  hook_of-Forward to_restore times ex = lock-Forward times.now ex
  hook_of-Forward to_lock times ex = lock-Forward times.now ex
  hook_of-Forward to_shutdown times ex = shutdown-Forward times.now ex

module _ {N B : Type 0} (engine : Engine N) (wire : Wire N B) (proxy : Proxy) where
  note-Statements :
      (state : Option NodeState) (now : ℤ) (w : World N)
      → Statements w.db (note engine wire proxy state now w).db
  note-Statements none now w = Statements-order.here w.db
  note-Statements (some state) now w = (set_node_state-Forward engine state now).at w

  note_locked-Statements :
      (resp : ProxyResponse) (now : ℤ) (w : World N)
      → Statements w.db (note_locked engine wire proxy resp now w).db
  unfolding note_locked
  note_locked-Statements resp now w = note-Statements (noted_state engine wire proxy resp) now w

  answered-Statements :
      (r : Result ProxyError ProxyResponse) (now : ℤ) (w : World N)
      → Statements w.db (answered engine wire proxy r now w).1.db
  answered-Statements (ok resp) now w = note_locked-Statements resp now w
  answered-Statements (err e) now w = Statements-order.here w.db

  pub fallback-Forward :
      (parts : Parts) (b : B) (now : ℤ) (w : World N)
      → Statements w.db (fallback engine wire proxy parts b now w).1.db
  unfolding fallback
  fallback-Forward parts b now w =
      answered-Statements (Forward.forward wire proxy parts b w.node).0 now
        (record w { node = (Forward.forward wire proxy parts b w.node).1 })

  module _ (json : Json) (route : Route) (times : Times) where
    passed-Statements :
        (text : String) (r : Result ProxyError ProxyResponse) (w : World N)
        → Statements w.db
            (passed engine wire proxy (hook_of engine json route times) text r times.now w).2.db
    passed-Statements text (err e) w = Statements-order.here w.db
    passed-Statements text (ok resp) w = elim (Bool-cases (is_success resp.status)) [
      | inl success ↦
          rw success (
            (hook_of-Forward engine json route times (record { req = text; resp = resp.body })).at
              w)
      | inr failure ↦ rw failure (note_locked-Statements resp times.now w)
    ]

    read_then-Statements :
        (parts : Parts) (text : Result ProxyError String) (w : World N)
        → Statements w.db
            (read_then engine wire proxy
              (hook_of engine json route times)
              parts
              text
              times.now
              w).2.db
    read_then-Statements parts (err e) w = Statements-order.here w.db
    read_then-Statements parts (ok text) w =
        passed-Statements text (forward_parts wire proxy parts text w.node).0
          (record w { node = (forward_parts wire proxy parts text w.node).1 })

    pub requests-Forward :
        (parts : Parts) (b : B) (w : World N)
        → Statements w.db
            (forward_then engine wire proxy
              (hook_of engine json route times)
              parts
              b
              times.now
              w).2.db
          × Statements w.db (fallback engine wire proxy parts b times.now w).1.db
    unfolding forward_then fallback
    requests-Forward parts b w = (
      read_then-Statements parts (Forward.read_body wire proxy b) w,
      answered-Statements (Forward.forward wire proxy parts b w.node).0 times.now
          (record w { node = (Forward.forward wire proxy parts b w.node).1 }),
    )

    -- A request to any intercepted route, and one that the proxy only forwards, whatever the node
    -- answers and wherever the hook stops: neither loses a transfer, moves one backward or out of a
    -- terminal status, takes back a payment that succeeded, or touches a queued event.
    pub requests-Evolves :
        (parts : Parts) (b : B) (w : World N)
        → Evolves w.db
            (forward_then engine wire proxy
              (hook_of engine json route times)
              parts
              b
              times.now
              w).2.db
          × Evolves w.db (fallback engine wire proxy parts b times.now w).1.db
    requests-Evolves parts b w =
        let (hooked_on, plain) = requests-Forward parts b w in
        ((Statements-Progress hooked_on).evolves, (Statements-Progress plain).evolves)
