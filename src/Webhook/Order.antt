-- ===== src/Webhook/Order.antt =====
-- One run of the dispatcher, whatever the receiver answers.
use rln_companion.Base.{
  ℕ, ◌+◌, ◌≡◌, refl, ◌⊎◌, inl, inr, true, false, List, [], ◌∷◌, ◌++◌, arith, length, update_rows,
  ok, Bool-cases, ap, Option, ◌≤◌, ◌<◌, none, some, All,
}
use rln_companion.Base.Int.{ℤ, ltb_ℤ}
use rln_companion.Store.Outbox.{has_event_id, attempted_row, delivered_row}
use rln_companion.Store.Rows.{OutboxRow}
use rln_companion.Store.Types.{OutboxEvent}
use rln_companion.Webhook.Backoff.{WebhookConfig, next_attempt_delay, retry_at}
use rln_companion.Webhook.Dispatch.{
  signature, HookClient, Outgoing, DispatchReport, dispatch_each, accepted, request_for,
  HookRequest,
}

-- The outbox after the events have been delivered.
abbrev pub deliver_all : ℤ → List OutboxEvent → List OutboxRow → List OutboxRow
deliver_all now [] rows = rows
deliver_all now (ev ∷ evs) rows =
    deliver_all now evs (update_rows (has_event_id ev.id) (delivered_row now) rows)

module _ {H : Type 0} (client : HookClient H) (cfg : WebhookConfig) where
  -- The request that an event is sent in: its body is the payload, which the signature is of.
  abbrev pub envelope : OutboxEvent → HookRequest
  envelope ev = record {
    url = cfg.url;
    headers =
        ("content-type", "application/json")
        ∷ ("x-companion-event-id", ev.id)
        ∷ ("x-companion-signature", client.hex_encode (client.hmac_sha256 cfg.secret ev.payload))
        ∷ [];
    body = ev.payload;
  }

  -- The receiver has been sent the events, each once and in order, has answered each with a status of
  -- the two hundreds, and has gone from the one state to the other.
  pub data Taken : List OutboxEvent → H → H → Type 0 where
    none_taken : (h : H) → Taken [] h h
    then_taken :
        (ev : OutboxEvent) (evs : List OutboxEvent) (h h' : H) (status : ℕ)
        → (client.send (envelope ev) h).0 ≡ some status
        → 200 ≤ status
        → status < 300
        → Taken evs (client.send (envelope ev) h).1 h'
        → Taken (ev ∷ evs) h h'

  -- The receiver does not take the event: there is no answer, or one with another status.
  abbrev pub Declines : OutboxEvent → H → Type 0
  Declines ev h =
      ((client.send (envelope ev) h).0 ≡ none)
      ⊎ ((status : ℕ) × ((client.send (envelope ev) h).0 ≡ some status)
          × ((status < 200) ⊎ (300 ≤ status)))

  -- The run stops at the head of what is left: there is none, or it is not due, and the receiver is
  -- asked nothing more; or it is declined and waits for its next attempt, and the receiver is asked
  -- nothing after that.
  abbrev pub Stopped : List OutboxEvent → ℤ → ℕ → H → H → List OutboxRow → List OutboxRow → Type 0
  Stopped [] now failed h h' rows rows' = (failed ≡ 0) × (h' ≡ h) × (rows' ≡ rows)
  Stopped (ev ∷ evs) now failed h h' rows rows' =
      ((ltb_ℤ now ev.next_attempt_at ≡ true) × (failed ≡ 0) × (h' ≡ h) × (rows' ≡ rows))
      ⊎ ((ltb_ℤ now ev.next_attempt_at ≡ false)
          × Declines ev h
          × (failed ≡ 1)
          × (h' ≡ (client.send (envelope ev) h).1)
          × (rows'
              ≡ update_rows (has_event_id ev.id)
                  (attempted_row (retry_at now (next_attempt_delay (ev.attempts + 1) cfg))) rows))

  pub record Ran (evs : List OutboxEvent) (report : DispatchReport) (now : ℤ) (w : Outgoing H)
      : Type 0 where
    pub sent : List OutboxEvent
    pub left : List OutboxEvent
    pub split : evs ≡ sent ++ left
    pub due : All (λ ev. ltb_ℤ now ev.next_attempt_at ≡ false) sent
    pub hook_then : H
    pub taken : Taken sent w.hook hook_then
    pub after : DispatchReport
    pub returned : (dispatch_each client cfg evs report now w).0 ≡ ok after
    pub delivered : after.delivered ≡ report.delivered + length sent
    pub failed : ℕ
    pub counted : after.failed ≡ report.failed + failed
    pub stopped :
        Stopped left now failed hook_then
          (dispatch_each client cfg evs report now w).1.hook
          (deliver_all now sent w.db.outbox)
          (dispatch_each client cfg evs report now w).1.db.outbox

  -- The world after the receiver has answered, and after a delivery has been marked.
  abbrev answered : OutboxEvent → Outgoing H → Option ℕ × H
  answered ev w = client.send (envelope ev) w.hook

  abbrev marked : OutboxEvent → ℤ → Outgoing H → Outgoing H
  marked ev now w = record w {
    db = record w.db { outbox = update_rows (has_event_id ev.id) (delivered_row now) w.db.outbox };
    hook = (answered ev w).1;
  }

  -- What an answer means.
  taken_of :
      (o : Option ℕ)
      → accepted o ≡ true
      → (status : ℕ) × (o ≡ some status) × (200 ≤ status) × (status < 300)
  taken_of none h = cc
  taken_of (some status) h = (status, refl, ground arith, ground arith)

  declined_of :
      (o : Option ℕ)
      → accepted o ≡ false
      → (o ≡ none) ⊎ ((status : ℕ) × (o ≡ some status) × ((status < 200) ⊎ (300 ≤ status)))
  declined_of none h = inl refl
  declined_of (some status) h = inr (status, refl, ground arith)

  -- A run ends with a report, and in order: a first part of the events is due, is sent to the receiver
  -- and taken with a status of the two hundreds, and is marked as delivered; the run stops at the next
  -- event, which is not due, or is declined by any other answer or by none and has its attempt counted.
  -- Nothing behind it is sent: the receiver is in the state that these requests have left.
  pub dispatch_each-Ran :
      (evs : List OutboxEvent) (report : DispatchReport) (now : ℤ) (w : Outgoing H)
      → Ran evs report now w
  unfolding dispatch_each request_for signature
  dispatch_each-Ran [] report now w = record {
    sent = [];
    left = [];
    split = refl;
    due = tt;
    hook_then = w.hook;
    taken = none_taken w.hook;
    after = report;
    returned = refl;
    delivered = omega arith;
    failed = 0;
    counted = omega arith;
    stopped = (refl, refl, refl);
  }
  dispatch_each-Ran (ev ∷ evs) report now w = elim (Bool-cases (ltb_ℤ now ev.next_attempt_at)) [
    | inl early ↦ record {
      sent = [];
      left = ev ∷ evs;
      split = refl;
      due = tt;
      hook_then = w.hook;
      taken = none_taken w.hook;
      after = report;
      returned = rw early;
      delivered = omega arith;
      failed = 0;
      counted = omega arith;
      stopped = inl (early, refl, rw early, rw early);
    }
    | inr on_time ↦ elim (Bool-cases (accepted (answered ev w).0)) [
      | inl yes_sent ↦
          let ih =
            dispatch_each-Ran evs (record report { delivered = report.delivered + 1 }) now
              (marked ev now w) in
          let (status, said, low, high) = taken_of (answered ev w).0 yes_sent in
          record {
            sent = ev ∷ ih.sent;
            left = ih.left;
            split = ap (◌∷◌ ev) ih.split;
            due = (on_time, ih.due);
            hook_then = ih.hook_then;
            taken = then_taken ev ih.sent w.hook ih.hook_then status said low high ih.taken;
            after = ih.after;
            returned = rw (on_time, yes_sent) ih.returned;
            delivered = omega (arith, ih.delivered);
            failed = ih.failed;
            counted = ih.counted;
            stopped = rw (on_time, yes_sent) ih.stopped;
          }
      | inr refused ↦ record {
        sent = [];
        left = ev ∷ evs;
        split = refl;
        due = tt;
        hook_then = w.hook;
        taken = none_taken w.hook;
        after = record report { failed = report.failed + 1 };
        returned = rw (on_time, refused);
        delivered = omega arith;
        failed = 1;
        counted = refl;
        stopped = inr (
          on_time,
          declined_of (answered ev w).0 refused,
          refl,
          rw (on_time, refused),
          rw (on_time, refused),
        );
      }
    ]
  ]
