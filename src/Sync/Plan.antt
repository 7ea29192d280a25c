-- ===== src/Sync/Plan.antt =====
-- The pure part of sync.rs: which transition an observation calls for, and which event it carries.
pub mod Laws
pub mod Order
use rln_companion.Base.{ℕ, String, Bool, true, false, ◌||◌, Option, none, some, leb, if◌then◌else◌}
use rln_companion.Store.Types.{
  TransferStatus, terminal, PaymentStatus, payment_terminal, Transfer, Payment, initiated,
  waiting_counterparty, waiting_safe_height, waiting_broadcast, waiting_confirmations, succeeded,
  claimable, claiming, cancelled,
}

pub data EventType : Type 0 where
  confirmed_pending settled failed : EventType

unfoldable pub event_as_str : EventType → String
event_as_str confirmed_pending = "transfer.confirmed_pending"
event_as_str EventType.settled = "transfer.settled"
event_as_str EventType.failed = "transfer.failed"

pub record Transition : Type 0 where
  pub transfer_id : String
  pub from : TransferStatus
  pub to : TransferStatus
  pub event : Option EventType

unfoldable pub rank : TransferStatus → ℕ
rank initiated = 0
rank waiting_counterparty = 1
rank waiting_safe_height = 2
rank waiting_broadcast = 3
rank waiting_confirmations = 4
rank TransferStatus.settled = 5
rank TransferStatus.failed = 5

unfoldable pub event_of : TransferStatus → Option EventType
event_of waiting_confirmations = some confirmed_pending
event_of TransferStatus.settled = some EventType.settled
event_of TransferStatus.failed = some EventType.failed
event_of _ = none

unfoldable pub plan_transition : Transfer → TransferStatus → Option Transition
unfolding terminal rank event_of
plan_transition stored observed =
    if terminal stored.status || leb (rank observed) (rank stored.status)
    then none
    else some (record {
      transfer_id = stored.id;
      from = stored.status;
      to = observed;
      event = event_of observed;
    })

pub data PaymentEventType : Type 0 where
  settled failed : PaymentEventType

unfoldable pub payment_event_as_str : PaymentEventType → String
payment_event_as_str PaymentEventType.settled = "payment.settled"
payment_event_as_str PaymentEventType.failed = "payment.failed"

pub record PaymentTransition : Type 0 where
  pub payment_hash : String
  pub from : PaymentStatus
  pub to : PaymentStatus
  pub event : Option PaymentEventType

unfoldable pub payment_rank : PaymentStatus → ℕ
payment_rank PaymentStatus.pending = 0
payment_rank claimable = 1
payment_rank claiming = 2
payment_rank succeeded = 3
payment_rank PaymentStatus.failed = 3
payment_rank cancelled = 3

unfoldable pub payment_event_of : PaymentStatus → Option PaymentEventType
payment_event_of succeeded = some PaymentEventType.settled
payment_event_of PaymentStatus.failed = some PaymentEventType.failed
payment_event_of cancelled = some PaymentEventType.failed
payment_event_of _ = none

-- `observed` is `Pending`, after a failure or a cancellation.
unfoldable pub restarts : PaymentStatus → PaymentStatus → Bool
restarts PaymentStatus.failed PaymentStatus.pending = true
restarts cancelled PaymentStatus.pending = true
restarts _ _ = false

abbrev payment_move : Payment → PaymentStatus → Option PaymentEventType → Option PaymentTransition
payment_move stored observed event = some (record {
  payment_hash = stored.payment_hash;
  from = stored.status;
  to = observed;
  event = event;
})

unfoldable pub plan_payment_transition : Payment → PaymentStatus → Option PaymentTransition
unfolding payment_terminal payment_rank payment_event_of restarts
plan_payment_transition stored observed =
    if payment_terminal stored.status
    then (if restarts stored.status observed then payment_move stored observed none else none)
    else if leb (payment_rank observed) (payment_rank stored.status)
    then none
    else payment_move stored observed (payment_event_of observed)
