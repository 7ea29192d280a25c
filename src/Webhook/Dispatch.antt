-- ===== src/Webhook/Dispatch.antt =====
-- The dispatcher of webhook.rs: it sends what the outbox holds, in order.
use rln_companion.Base.{
  ℕ, ◌+◌, String, Bool, false, Option, none, some, List, [], ◌∷◌, Exec, pure, ◌>>=◌, ◌>>◌, ok,
  if◌then◌else◌,
}
use rln_companion.Base.Int.{ℤ, ltb_ℤ}
use rln_companion.Store.Outbox.{undelivered_events, record_attempt, mark_delivered}
use rln_companion.Store.Rows.{Db}
use rln_companion.Store.Transaction.{Query}
use rln_companion.Store.Types.{OutboxEvent, StoreError}
use rln_companion.Webhook.Backoff.{WebhookConfig, next_attempt_delay, retry_at}
use rln_companion.Rln.Client.{is_success}

-- What `reqwest` is asked to send.
pub record HookRequest : Type 0 where
  pub url : String
  pub headers : List (String × String)
  pub body : String

-- The receiver with the states `H`, and the functions of the crates `hmac`, `sha2` and `hex`. An
-- answer is its status, and a transport error is none.
pub record HookClient (H : Type 0) : Type 0 where
  pub send : HookRequest → H → Option ℕ × H
  pub hmac_sha256 : String → String → List ℕ
  pub hex_encode : List ℕ → String

pub record Outgoing (H : Type 0) : Type 0 where
  pub db : Db
  pub hook : H

pub record DispatchReport : Type 0 where
  pub delivered : ℕ
  pub failed : ℕ

abbrev pub accepted : Option ℕ → Bool
accepted none = false
accepted (some status) = is_success status

module _ {H : Type 0} (client : HookClient H) (cfg : WebhookConfig) where
  unfoldable pub signature : String → String → String
  signature secret body = client.hex_encode (client.hmac_sha256 secret body)

  unfoldable pub request_for : OutboxEvent → HookRequest
  unfolding signature
  request_for ev = record {
    url = cfg.url;
    headers =
        ("content-type", "application/json")
        ∷ ("x-companion-event-id", ev.id)
        ∷ ("x-companion-signature", signature cfg.secret ev.payload)
        ∷ [];
    body = ev.payload;
  }

  unfoldable pub post : OutboxEvent → Exec (Outgoing H) StoreError Bool
  unfolding request_for
  post ev w =
      let (answer, hook) = client.send (request_for ev) w.hook in
      (ok (accepted answer), record w { hook = hook })

  unfoldable pub on_pool : {A : Type 0} → Query A → Exec (Outgoing H) StoreError A
  on_pool q w = let (r, d) = q w.db in (r, record w { db = d })

  unfoldable pub dispatch_each :
      List OutboxEvent → DispatchReport → ℤ → Exec (Outgoing H) StoreError DispatchReport
  unfolding ◌>>=◌ post on_pool mark_delivered record_attempt next_attempt_delay retry_at
  dispatch_each [] report now = pure report
  dispatch_each (ev ∷ evs) report now = if ltb_ℤ now ev.next_attempt_at then pure report else do
    posted ← post ev
    if posted
        then (do
          on_pool (mark_delivered ev.id now)
          dispatch_each evs (record report { delivered = report.delivered + 1 }) now)
        else (do
          on_pool (record_attempt ev.id (retry_at now (next_attempt_delay (ev.attempts + 1) cfg)))
          pure (record report { failed = report.failed + 1 }))

  unfoldable pub dispatch_due : ℤ → Exec (Outgoing H) StoreError DispatchReport
  unfolding ◌>>=◌ on_pool undelivered_events dispatch_each
  dispatch_due now = do
    events ← on_pool (undelivered_events cfg.max_attempts)
    dispatch_each events (record { delivered = 0; failed = 0 }) now
