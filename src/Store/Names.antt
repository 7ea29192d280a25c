-- ===== src/Store/Names.antt =====
-- The texts of the statuses in the database: reading back what was written, and what a text is that
-- reads as a value.
use rln_companion.Base.{
  ◌≡◌, refl, ok, String, sym, ap, ◌∙◌, inl, inr, List, [], ◌∷◌, eq_iff, Result, Bool-cases, ◌==◌,
  Eq_String,
}
use rln_companion.Store.Codec.{
  status_to_str, payment_status_to_str, direction_to_str, node_state_to_str, status_from_str,
  payment_status_from_str, direction_from_str, node_state_from_str, all_statuses,
  all_payment_statuses, enum_from_str,
}
use rln_companion.Store.Types.{
  TransferStatus, PaymentStatus, PaymentDirection, NodeState, initiated, waiting_counterparty,
  waiting_safe_height, waiting_broadcast, waiting_confirmations, succeeded, claimable, claiming,
  cancelled, inbound, unknown, unlocked, down, StoreError,
}

-- Every status reads back as itself.
pub status_from_str-status_to_str : (s : TransferStatus) → status_from_str (status_to_str s) ≡ ok s
unfolding status_from_str
status_from_str-status_to_str initiated = refl
status_from_str-status_to_str waiting_counterparty = refl
status_from_str-status_to_str waiting_safe_height = refl
status_from_str-status_to_str waiting_broadcast = refl
status_from_str-status_to_str waiting_confirmations = refl
status_from_str-status_to_str TransferStatus.settled = refl
status_from_str-status_to_str TransferStatus.failed = refl

pub payment_status_from_str-payment_status_to_str :
    (s : PaymentStatus) → payment_status_from_str (payment_status_to_str s) ≡ ok s
unfolding payment_status_from_str
payment_status_from_str-payment_status_to_str PaymentStatus.pending = refl
payment_status_from_str-payment_status_to_str succeeded = refl
payment_status_from_str-payment_status_to_str PaymentStatus.failed = refl
payment_status_from_str-payment_status_to_str claimable = refl
payment_status_from_str-payment_status_to_str claiming = refl
payment_status_from_str-payment_status_to_str cancelled = refl

pub direction_from_str-direction_to_str :
    (s : PaymentDirection) → direction_from_str (direction_to_str s) ≡ ok s
unfolding direction_from_str
direction_from_str-direction_to_str inbound = refl
direction_from_str-direction_to_str PaymentDirection.outbound = refl

pub node_state_from_str-node_state_to_str :
    (s : NodeState) → node_state_from_str (node_state_to_str s) ≡ ok s
unfolding node_state_from_str
node_state_from_str-node_state_to_str unknown = refl
node_state_from_str-node_state_to_str NodeState.locked = refl
node_state_from_str-node_state_to_str unlocked = refl
node_state_from_str-node_state_to_str down = refl
node_state_from_str-node_state_to_str NodeState.misconfigured = refl

-- Two statuses with one text are one status.
pub status_to_str-injective : (a b : TransferStatus) → status_to_str a ≡ status_to_str b → a ≡ b
status_to_str-injective a b h =
    cc (status_from_str-status_to_str a, status_from_str-status_to_str b)

pub payment_status_to_str-injective :
    (a b : PaymentStatus) → payment_status_to_str a ≡ payment_status_to_str b → a ≡ b
payment_status_to_str-injective a b h = cc (
  payment_status_from_str-payment_status_to_str a,
  payment_status_from_str-payment_status_to_str b,
)

-- A text that reads as a value is the name of that value.
name_of_read :
    {A : Type 0} (name : A → String) (vs : List A) (s : String) (a : A)
    → enum_from_str name vs s ≡ ok a
    → s ≡ name a
unfolding enum_from_str
name_of_read name [] s a h = cc
name_of_read {A = A} name (v ∷ vs) s a h = elim (Bool-cases (name v == s)) [
  | inl same ↦
      let e : ◌≡◌ {A = Result StoreError A} (ok v) (ok a) = rw same at h in
      let f : v ≡ a = cc in sym ((eq_iff (name v) s).0 same) ∙ ap name f
  | inr differ ↦ name_of_read name vs s a (rw differ at h)
]

pub status_to_str-status_from_str :
    (s : String) (a : TransferStatus) → status_from_str s ≡ ok a → s ≡ status_to_str a
unfolding status_from_str
status_to_str-status_from_str s a h = name_of_read status_to_str all_statuses s a h

pub payment_status_to_str-payment_status_from_str :
    (s : String) (a : PaymentStatus)
    → payment_status_from_str s ≡ ok a
    → s ≡ payment_status_to_str a
unfolding payment_status_from_str
payment_status_to_str-payment_status_from_str s a h =
    name_of_read payment_status_to_str all_payment_statuses s a h
