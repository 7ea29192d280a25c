-- ===== src/Store/Equality.antt =====
-- The derived `PartialEq` of the enums of store.rs, by the position of the variant.
use rln_companion.Base.{ℕ, ◌≡◌, ◌↔◌, true, arith, Eq, nat_eq}
use rln_companion.Store.Types.{
  TransferStatus, initiated, waiting_counterparty, waiting_safe_height, waiting_broadcast,
  waiting_confirmations, settled, PaymentStatus, pending, succeeded, claimable, claiming, cancelled,
  NodeState, unknown, locked, unlocked, down, misconfigured,
}

abbrev pub status_index : TransferStatus → ℕ
status_index initiated = 0
status_index waiting_counterparty = 1
status_index waiting_safe_height = 2
status_index waiting_broadcast = 3
status_index waiting_confirmations = 4
status_index settled = 5
status_index TransferStatus.failed = 6

abbrev pub payment_index : PaymentStatus → ℕ
payment_index pending = 0
payment_index succeeded = 1
payment_index PaymentStatus.failed = 2
payment_index claimable = 3
payment_index claiming = 4
payment_index cancelled = 5

abbrev pub node_index : NodeState → ℕ
node_index unknown = 0
node_index locked = 1
node_index unlocked = 2
node_index down = 3
node_index misconfigured = 4

pub status_eq_iff :
    (a b : TransferStatus) → (nat_eq (status_index a) (status_index b) ≡ true) ↔ (a ≡ b)
status_eq_iff a b = ground arith

pub payment_eq_iff :
    (a b : PaymentStatus) → (nat_eq (payment_index a) (payment_index b) ≡ true) ↔ (a ≡ b)
payment_eq_iff a b = ground arith

pub node_eq_iff : (a b : NodeState) → (nat_eq (node_index a) (node_index b) ≡ true) ↔ (a ≡ b)
node_eq_iff a b = ground arith

instance abbrev pub Eq_TransferStatus : Eq TransferStatus
Eq_TransferStatus = record {
  beq = λ a b. nat_eq (status_index a) (status_index b);
  beq_iff = status_eq_iff;
}

instance abbrev pub Eq_PaymentStatus : Eq PaymentStatus
Eq_PaymentStatus = record {
  beq = λ a b. nat_eq (payment_index a) (payment_index b);
  beq_iff = payment_eq_iff;
}

instance abbrev pub Eq_NodeState : Eq NodeState
Eq_NodeState = record { beq = λ a b. nat_eq (node_index a) (node_index b); beq_iff = node_eq_iff }
