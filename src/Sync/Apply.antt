-- ===== src/Sync/Apply.antt =====
-- apply_observed and apply_payment_observed of sync.rs: a planned transition, its event and the
-- statement that applies both.
use rln_companion.Base.{
  String, Bool, false, Option, none, some, Result, Exec, pure, lift, ◌>>=◌, and_then, ok, err,
  if◌then◌else◌, ◌==◌,
}
use rln_companion.Base.Int.{ℤ}
use rln_companion.Store.Codec.{transpose_map}
use rln_companion.Store.Outbox.{Event}
use rln_companion.Store.Payments.{apply_payment_transition}
use rln_companion.Store.Types.{TransferStatus, PaymentStatus, Transfer, Payment}
use rln_companion.Store.Upsert.{apply_transition}
use rln_companion.Sync.Plan.{
  EventType, event_as_str, Transition, plan_transition, PaymentEventType, payment_event_as_str,
  PaymentTransition, plan_payment_transition,
}
use rln_companion.World.{
  World, Payload, Env, SyncError, on_db, draw, transfer_payload, payment_payload, store, payload,
}
use rln_companion.Store.Equality.{Eq_TransferStatus}

-- `event_payload`: the row as it stands after the transition.
unfoldable pub event_payload : String → EventType → Transfer → Transition → ℤ → Payload
unfolding event_as_str
event_payload event_id event row tr now =
    transfer_payload event_id (event_as_str event)
      (record row {
        status = tr.to;
        updated_at = now;
        settled_at = if tr.to == TransferStatus.settled then some now else row.settled_at;
      })
      tr.from tr.to now

unfoldable pub payment_event_payload :
    String → PaymentEventType → Payment → PaymentTransition → ℤ → Payload
unfolding payment_event_as_str
payment_event_payload event_id event row tr now =
    payment_payload event_id (payment_event_as_str event)
      (record row { status = tr.to; updated_at = now }) tr.from tr.to now

-- A payload that does not serialize is `SyncError::Payload`.
abbrev pub written : Option String → Result SyncError String
written none = err payload
written (some text) = ok text

-- The event of a transition, if it carries one, with its payload as text.
unfoldable pub event_row :
    Env → String → Transfer → Transition → ℤ → Result SyncError (Option Event)
unfolding event_payload event_as_str
event_row env event_id row tr now =
    transpose_map
      (λ e.
        and_then (written (env.to_string (event_payload event_id e row tr now)))
          λ text. ok (record { event_id = event_id; event_type = event_as_str e; payload = text }))
      tr.event

unfoldable pub payment_event_row :
    Env → String → Payment → PaymentTransition → ℤ → Result SyncError (Option Event)
unfolding payment_event_payload payment_event_as_str
payment_event_row env event_id row tr now =
    transpose_map
      (λ e. and_then (written (env.to_string (payment_event_payload event_id e row tr now))) λ text.
        ok (record { event_id = event_id; event_type = payment_event_as_str e; payload = text }))
      tr.event

module _ {N : Type 0} (env : Env) where
  unfoldable pub carry_out : Transfer → Option Transition → ℤ → Exec (World N) SyncError Bool
  unfolding ◌>>=◌ draw on_db event_row apply_transition
  carry_out row none now = pure false
  carry_out row (some tr) now = do
    event_id ← draw env
    event ← lift (event_row env event_id row tr now)
    on_db store (apply_transition tr.transfer_id tr.from tr.to event now)

  unfoldable pub apply_observed : Transfer → TransferStatus → ℤ → Exec (World N) SyncError Bool
  unfolding plan_transition carry_out
  apply_observed row observed now = carry_out row (plan_transition row observed) now

  unfoldable pub carry_out_payment :
      Payment → Option PaymentTransition → ℤ → Exec (World N) SyncError Bool
  unfolding ◌>>=◌ draw on_db payment_event_row apply_payment_transition
  carry_out_payment row none now = pure false
  carry_out_payment row (some tr) now = do
    event_id ← draw env
    event ← lift (payment_event_row env event_id row tr now)
    on_db store (apply_payment_transition tr.payment_hash tr.from tr.to event now)

  unfoldable pub apply_payment_observed :
      Payment → PaymentStatus → ℤ → Exec (World N) SyncError Bool
  unfolding plan_payment_transition carry_out_payment
  apply_payment_observed row observed now =
      carry_out_payment row (plan_payment_transition row observed) now
