-- ===== src/Sync/Plan/Laws.antt =====
-- What a planned transition is, by the ranks and the events of the code.
use rln_companion.Base.{◌<◌, ◌≡◌, ◌↔◌, false, some, arith, ◌≢◌, ◌⊎◌, none}
use rln_companion.Store.Types.{
  TransferStatus, terminal, Transfer, PaymentStatus, payment_terminal, Payment, succeeded,
  cancelled,
}
use rln_companion.Sync.Plan.{
  Transition, rank, event_of, plan_transition, PaymentTransition, payment_rank, payment_event_of,
  plan_payment_transition,
}

-- Which transition of a payment is planned, by the ranks.
pub plan_payment_transition_lem :
    (row : Payment) (observed : PaymentStatus) (tr : PaymentTransition)
    → (plan_payment_transition row observed ≡ some tr) ↔ (
        (tr.payment_hash ≡ row.payment_hash)
        × (tr.from ≡ row.status)
        × (tr.to ≡ observed)
        × (((payment_terminal row.status ≡ false)
              × (payment_rank row.status < payment_rank observed)
              × (tr.event ≡ payment_event_of observed))
            ⊎ (((row.status ≡ PaymentStatus.failed) ⊎ (row.status ≡ cancelled))
                × (observed ≡ PaymentStatus.pending)
                × (tr.event ≡ none))))
unfolding plan_payment_transition
plan_payment_transition_lem row observed tr = ground arith

-- And which of a transfer.
pub plan_transition_lem :
    (row : Transfer) (observed : TransferStatus) (tr : Transition)
    → (plan_transition row observed ≡ some tr) ↔ (
        (terminal row.status ≡ false)
        × (rank row.status < rank observed)
        × (tr.transfer_id ≡ row.id)
        × (tr.from ≡ row.status)
        × (tr.to ≡ observed)
        × (tr.event ≡ event_of observed))
unfolding plan_transition
plan_transition_lem row observed tr = ground arith

-- A payment that succeeded is never moved.
pub from_ne_succeeded :
    (row : Payment) (observed : PaymentStatus) (tr : PaymentTransition)
    → plan_payment_transition row observed ≡ some tr
    → tr.from ≢ succeeded
unfolding plan_payment_transition
from_ne_succeeded row observed tr h = ground arith

-- A planned transition leaves a status that is not terminal for one of a higher rank.
pub planned_forward :
    (row : Transfer) (observed : TransferStatus) (tr : Transition)
    → plan_transition row observed ≡ some tr
    → (terminal tr.from ≡ false) × (rank tr.from < rank tr.to)
unfolding plan_transition
planned_forward row observed tr h = ground arith
