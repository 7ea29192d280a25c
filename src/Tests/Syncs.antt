-- ===== src/Tests/Syncs.antt =====
-- The syncs at concrete inputs.
use rln_companion.Base.{
  ◌*◌, ◌^◌, min, ◌≡◌, refl, ◌↔◌, ◌⊎◌, none, some, [], arith, ok, String, ◌∷◌, ℕ, find, Result,
}
use rln_companion.Base.Int.{pos}
use rln_companion.Store.Codec.{
  status_from_str, transfer_try_from, direction_from_str, payment_status_from_str,
  payment_status_to_str,
}
use rln_companion.Store.Types.{
  TransferStatus, PaymentStatus, PaymentDirection, Payment, waiting_counterparty, cancelled,
  OutboxEvent, succeeded,
}
use rln_companion.Sync.Baseline.{observe_payment_silent}
use rln_companion.Sync.Evolve.{Evolves}
use rln_companion.Sync.Plan.{
  EventType, Transition, plan_transition, PaymentTransition, plan_payment_transition,
}
use rln_companion.Sync.Plan.Order.{
  Before, Announced, named, PaymentBefore, PaymentAnnounced, payment_named, plan_transition_iff,
  plan_payment_transition_iff,
}
use rln_companion.Sync.Run.{
  sync, observe_payment, sync_payments, full, SyncReport, observe, PaymentSyncReport,
}
use rln_companion.Sync.Whole.{sync-Forward, sync_payments-Forward}
use rln_companion.Tests.Sample.{
  one_db, stored, env, paid, node, sync_cfg, world, hook_cfg, receiver, seen,
}
use rln_companion.Webhook.Backoff.{next_attempt_delay}
use rln_companion.Webhook.BackoffLaws.{next_attempt_delay_exact}
use rln_companion.Webhook.Order.{Ran, dispatch_each-Ran}
use rln_companion.Sync.Mirror.{Mirrored, observe-Mirrored}
use rln_companion.Sync.MirrorPayment.{PaymentMirrored, observe_payment-PaymentMirrored}
use rln_companion.Store.Payments.{has_hash}
use rln_companion.Store.Rows.{PaymentRow}
use rln_companion.World.{World, SyncError}

-- One full sync settles the invoice, queues its event, and learns the asset.
settles_by_sync :
    (sync env node sync_cfg full (pos 9) world).0
    ≡ ok (record { assets = 1; transfers = 1; transitions = 1 })
unfolding sync transfer_try_from status_from_str
settles_by_sync = refl

sync-Forward_example : Evolves one_db (sync env node sync_cfg full (pos 9) world).1.db
sync-Forward_example = sync-Forward env node sync_cfg full (pos 9) world

sync_payments-Forward_example : Evolves one_db (sync_payments env node sync_cfg (pos 9) world).1.db
sync_payments-Forward_example = sync_payments-Forward env node sync_cfg (pos 9) world

abbrev move : Transition
move = record {
  transfer_id = "t1";
  from = waiting_counterparty;
  to = TransferStatus.settled;
  event = some EventType.settled;
}

plan_transition_iff_example : (plan_transition stored TransferStatus.settled ≡ some move) ↔ (
    Before waiting_counterparty TransferStatus.settled
    × (move.transfer_id ≡ stored.id)
    × (move.from ≡ waiting_counterparty)
    × (move.to ≡ TransferStatus.settled)
    × Announced TransferStatus.settled (named move.event))
plan_transition_iff_example = plan_transition_iff stored TransferStatus.settled move

abbrev cancelled_payment : Payment
cancelled_payment = record {
  payment_hash = "h1";
  direction = PaymentDirection.outbound;
  status = cancelled;
  asset_id = none;
  asset_amount = none;
  amt_msat = none;
  payee_pubkey = none;
  created_at = pos 1;
  updated_at = pos 1;
  last_seen_at = none;
}

abbrev retry : PaymentTransition
retry = record { payment_hash = "h1"; from = cancelled; to = PaymentStatus.pending; event = none }

plan_payment_transition_iff_example :
    (plan_payment_transition cancelled_payment PaymentStatus.pending ≡ some retry) ↔ (
      (retry.payment_hash ≡ cancelled_payment.payment_hash)
      × (retry.from ≡ cancelled)
      × (retry.to ≡ PaymentStatus.pending)
      × ((PaymentBefore cancelled PaymentStatus.pending
            × PaymentAnnounced PaymentStatus.pending (payment_named retry.event))
          ⊎ (((cancelled ≡ PaymentStatus.failed) ⊎ (cancelled ≡ cancelled))
              × (PaymentStatus.pending ≡ PaymentStatus.pending)
              × (retry.event ≡ none))))
plan_payment_transition_iff_example =
    plan_payment_transition_iff cancelled_payment PaymentStatus.pending retry

abbrev observed_first : Result SyncError PaymentSyncReport × World ℕ
observed_first =
    observe_payment env node none (record { payments = 0; transitions = 0 }) paid (pos 9) world

observe_payment_silent_example :
    (observed_first.0 ≡ ok (record { payments = 1; transitions = 0 }))
    × ((stored : PaymentRow) × (find (has_hash "h1") observed_first.1.db.payments ≡ some stored)
        × (stored.status ≡ payment_status_to_str succeeded))
    × (observed_first.1.db.outbox ≡ one_db.outbox)
observe_payment_silent_example =
    observe_payment_silent env node (record { payments = 0; transitions = 0 }) paid (pos 9) world
      refl tt (omega arith)

abbrev event : String → OutboxEvent
event name = record {
  id = name;
  event_type = "transfer.settled";
  payload = "{}";
  attempts = 0;
  next_attempt_at = pos 1;
}

-- The receiver takes the first event and refuses the second.
dispatch_each-Ran_example :
    Ran receiver hook_cfg
      (event "e1" ∷ event "e2" ∷ [])
      (record { delivered = 0; failed = 0 })
      (pos 9)
      (record { db = one_db; hook = 0 })
dispatch_each-Ran_example =
    dispatch_each-Ran receiver hook_cfg (event "e1" ∷ event "e2" ∷ [])
      (record { delivered = 0; failed = 0 }) (pos 9) (record { db = one_db; hook = 0 })

next_attempt_delay_exact_example : next_attempt_delay 4 hook_cfg ≡ min 300 (2 * 2 ^ 3)
next_attempt_delay_exact_example = next_attempt_delay_exact 4 hook_cfg (omega arith)

abbrev nothing_yet : SyncReport
nothing_yet = record { assets = 0; transfers = 0; transitions = 0 }

observed_once :
    (observe env node nothing_yet (some "A") seen (pos 9) world).0
    ≡ ok (record { assets = 0; transfers = 1; transitions = 1 })
unfolding observe transfer_try_from status_from_str
observed_once = refl

observe-Mirrored_example :
    Mirrored
      (pos 1)
      TransferStatus.settled
      (observe env node nothing_yet (some "A") seen (pos 9) world).1.db.transfers
observe-Mirrored_example =
    observe-Mirrored env node nothing_yet (record { assets = 0; transfers = 1; transitions = 1 })
      (some "A") seen (pos 9) world observed_once

-- After the baseline a payment is inserted as pending, and then it moves.
paid_up :
    (observe_payment env node
      (some (pos 5))
      (record { payments = 0; transitions = 0 })
      paid
      (pos 9)
      world).0
    ≡ ok (record { payments = 1; transitions = 1 })
unfolding observe_payment direction_from_str payment_status_from_str
paid_up = refl

observe_payment-PaymentMirrored_example :
    PaymentMirrored "h1" PaymentStatus.succeeded
      (observe_payment env node
        (some (pos 5))
        (record { payments = 0; transitions = 0 })
        paid
        (pos 9)
        world).1.db.payments
observe_payment-PaymentMirrored_example =
    observe_payment-PaymentMirrored env node (some (pos 5))
      (record { payments = 0; transitions = 0 }) (record { payments = 1; transitions = 1 }) paid
      (pos 9) world paid_up
