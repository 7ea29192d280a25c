-- ===== src/Sync/Plan/Order.antt =====
-- The order of the statuses and the events that are announced, and how a planned transition follows them.
use rln_companion.Base.{
  ◌<◌, String, ◌≡◌, false, Option, none, some, arith, refl, sym, ap, ◌∙◌, ◌↔◌, ◌⊎◌, inl, inr,
  if◌then◌else◌, ◌==◌, Eq_String,
}
use rln_companion.Store.Types.{
  TransferStatus, terminal, PaymentStatus, payment_terminal, initiated, waiting_counterparty,
  waiting_safe_height, waiting_broadcast, waiting_confirmations, succeeded, claimable, claiming,
  cancelled, Transfer, Payment,
}
use rln_companion.Sync.Plan.{
  EventType, event_as_str, rank, event_of, PaymentEventType, payment_event_as_str, payment_rank,
  payment_event_of, Transition, plan_transition, PaymentTransition, plan_payment_transition,
  confirmed_pending,
}
use rln_companion.Sync.Plan.Laws.{plan_payment_transition_lem, plan_transition_lem}

-- The order in which a transfer goes through its statuses: it may skip some, and ends settled or failed.
pub data Before : TransferStatus → TransferStatus → Type 0 where
  asked : Before initiated waiting_counterparty
  answered : Before waiting_counterparty waiting_safe_height
  safe : Before waiting_safe_height waiting_broadcast
  broadcast : Before waiting_broadcast waiting_confirmations
  settles : Before waiting_confirmations TransferStatus.settled
  fails : Before waiting_confirmations TransferStatus.failed
  skips : {s t u : TransferStatus} → Before s t → Before t u → Before s u

-- The event that is announced of a status of a transfer, by the name that it has in a webhook.
pub data Announced : TransferStatus → Option String → Type 0 where
  of_confirmations : Announced waiting_confirmations (some "transfer.confirmed_pending")
  of_settled : Announced TransferStatus.settled (some "transfer.settled")
  of_failed : Announced TransferStatus.failed (some "transfer.failed")
  of_initiated : Announced initiated none
  of_counterparty : Announced waiting_counterparty none
  of_safe_height : Announced waiting_safe_height none
  of_broadcast : Announced waiting_broadcast none

-- The order of the statuses of a payment, and the event that is announced of each.
pub data PaymentBefore : PaymentStatus → PaymentStatus → Type 0 where
  held : PaymentBefore PaymentStatus.pending claimable
  claims : PaymentBefore claimable claiming
  succeeds : PaymentBefore claiming succeeded
  fails : PaymentBefore claiming PaymentStatus.failed
  cancels : PaymentBefore claiming cancelled
  skips : {s t u : PaymentStatus} → PaymentBefore s t → PaymentBefore t u → PaymentBefore s u

pub data PaymentAnnounced : PaymentStatus → Option String → Type 0 where
  of_succeeded : PaymentAnnounced succeeded (some "payment.settled")
  of_failed : PaymentAnnounced PaymentStatus.failed (some "payment.failed")
  of_cancelled : PaymentAnnounced cancelled (some "payment.failed")
  of_pending : PaymentAnnounced PaymentStatus.pending none
  of_claimable : PaymentAnnounced claimable none
  of_claiming : PaymentAnnounced claiming none

rank-Before : {s t : TransferStatus} → Before s t → rank s < rank t
unfolding rank
rank-Before asked = omega arith
rank-Before answered = omega arith
rank-Before safe = omega arith
rank-Before broadcast = omega arith
rank-Before settles = omega arith
rank-Before Before.fails = omega arith
rank-Before (Before.skips a b) = let p = rank-Before a in let q = rank-Before b in omega arith

open_of_rank : (s t : TransferStatus) → rank s < rank t → terminal s ≡ false
unfolding rank terminal
open_of_rank s t h = ground arith

-- From each status the next ones, and from them all that follow.
Before-rank : (s t : TransferStatus) → rank s < rank t → Before s t
unfolding rank
Before-rank initiated waiting_counterparty h = asked
Before-rank initiated waiting_safe_height h = Before.skips asked answered
Before-rank initiated waiting_broadcast h = Before.skips asked (Before.skips answered safe)
Before-rank initiated waiting_confirmations h =
    Before.skips asked (Before.skips answered (Before.skips safe broadcast))
Before-rank initiated TransferStatus.settled h =
    Before.skips asked (Before.skips answered (Before.skips safe (Before.skips broadcast settles)))
Before-rank initiated TransferStatus.failed h =
    Before.skips asked
      (Before.skips answered (Before.skips safe (Before.skips broadcast Before.fails)))
Before-rank waiting_counterparty waiting_safe_height h = answered
Before-rank waiting_counterparty waiting_broadcast h = Before.skips answered safe
Before-rank waiting_counterparty waiting_confirmations h =
    Before.skips answered (Before.skips safe broadcast)
Before-rank waiting_counterparty TransferStatus.settled h =
    Before.skips answered (Before.skips safe (Before.skips broadcast settles))
Before-rank waiting_counterparty TransferStatus.failed h =
    Before.skips answered (Before.skips safe (Before.skips broadcast Before.fails))
Before-rank waiting_safe_height waiting_broadcast h = safe
Before-rank waiting_safe_height waiting_confirmations h = Before.skips safe broadcast
Before-rank waiting_safe_height TransferStatus.settled h =
    Before.skips safe (Before.skips broadcast settles)
Before-rank waiting_safe_height TransferStatus.failed h =
    Before.skips safe (Before.skips broadcast Before.fails)
Before-rank waiting_broadcast waiting_confirmations h = broadcast
Before-rank waiting_broadcast TransferStatus.settled h = Before.skips broadcast settles
Before-rank waiting_broadcast TransferStatus.failed h = Before.skips broadcast Before.fails
Before-rank waiting_confirmations TransferStatus.settled h = settles
Before-rank waiting_confirmations TransferStatus.failed h = Before.fails
Before-rank _ _ h = absurd (grind arith)

payment_rank-Before : {s t : PaymentStatus} → PaymentBefore s t → payment_rank s < payment_rank t
unfolding payment_rank
payment_rank-Before held = omega arith
payment_rank-Before claims = omega arith
payment_rank-Before succeeds = omega arith
payment_rank-Before PaymentBefore.fails = omega arith
payment_rank-Before cancels = omega arith
payment_rank-Before (PaymentBefore.skips a b) =
    let p = payment_rank-Before a in let q = payment_rank-Before b in omega arith

PaymentBefore-rank : (s t : PaymentStatus) → payment_rank s < payment_rank t → PaymentBefore s t
unfolding payment_rank
PaymentBefore-rank PaymentStatus.pending claimable h = held
PaymentBefore-rank PaymentStatus.pending claiming h = PaymentBefore.skips held claims
PaymentBefore-rank PaymentStatus.pending succeeded h =
    PaymentBefore.skips held (PaymentBefore.skips claims succeeds)
PaymentBefore-rank PaymentStatus.pending PaymentStatus.failed h =
    PaymentBefore.skips held (PaymentBefore.skips claims PaymentBefore.fails)
PaymentBefore-rank PaymentStatus.pending cancelled h =
    PaymentBefore.skips held (PaymentBefore.skips claims cancels)
PaymentBefore-rank claimable claiming h = claims
PaymentBefore-rank claimable succeeded h = PaymentBefore.skips claims succeeds
PaymentBefore-rank claimable PaymentStatus.failed h = PaymentBefore.skips claims PaymentBefore.fails
PaymentBefore-rank claimable cancelled h = PaymentBefore.skips claims cancels
PaymentBefore-rank claiming succeeded h = succeeds
PaymentBefore-rank claiming PaymentStatus.failed h = PaymentBefore.fails
PaymentBefore-rank claiming cancelled h = cancels
PaymentBefore-rank _ _ h = absurd (grind arith)

open_payment : (s t : PaymentStatus) → payment_rank s < payment_rank t → payment_terminal s ≡ false
unfolding payment_rank payment_terminal
open_payment s t h = ground arith

-- The name of an event that a transition carries.
abbrev pub named : Option EventType → Option String
named none = none
named (some e) = some (event_as_str e)

abbrev pub payment_named : Option PaymentEventType → Option String
payment_named none = none
payment_named (some e) = some (payment_event_as_str e)

event_of-Announced : (s : TransferStatus) → Announced s (named (event_of s))
unfolding event_of event_as_str
event_of-Announced initiated = of_initiated
event_of-Announced waiting_counterparty = of_counterparty
event_of-Announced waiting_safe_height = of_safe_height
event_of-Announced waiting_broadcast = of_broadcast
event_of-Announced waiting_confirmations = of_confirmations
event_of-Announced TransferStatus.settled = of_settled
event_of-Announced TransferStatus.failed = Announced.of_failed

payment_event_of-PaymentAnnounced :
    (s : PaymentStatus) → PaymentAnnounced s (payment_named (payment_event_of s))
unfolding payment_event_of payment_event_as_str
payment_event_of-PaymentAnnounced PaymentStatus.pending = of_pending
payment_event_of-PaymentAnnounced claimable = of_claimable
payment_event_of-PaymentAnnounced claiming = of_claiming
payment_event_of-PaymentAnnounced succeeded = of_succeeded
payment_event_of-PaymentAnnounced PaymentStatus.failed = PaymentAnnounced.of_failed
payment_event_of-PaymentAnnounced cancelled = of_cancelled

Announced-named : {s : TransferStatus} {n : Option String} → Announced s n → n ≡ named (event_of s)
unfolding event_of event_as_str
Announced-named of_confirmations = refl
Announced-named of_settled = refl
Announced-named Announced.of_failed = refl
Announced-named of_initiated = refl
Announced-named of_counterparty = refl
Announced-named of_safe_height = refl
Announced-named of_broadcast = refl

PaymentAnnounced-named :
    {s : PaymentStatus} {n : Option String}
    → PaymentAnnounced s n
    → n ≡ payment_named (payment_event_of s)
unfolding payment_event_of payment_event_as_str
PaymentAnnounced-named of_succeeded = refl
PaymentAnnounced-named PaymentAnnounced.of_failed = refl
PaymentAnnounced-named of_cancelled = refl
PaymentAnnounced-named of_pending = refl
PaymentAnnounced-named of_claimable = refl
PaymentAnnounced-named of_claiming = refl

-- The event of a name.
abbrev event_named : Option String → Option EventType
event_named none = none
event_named (some n) =
    if n == "transfer.confirmed_pending"
    then some confirmed_pending
    else if n == "transfer.settled"
    then some EventType.settled
    else some EventType.failed

event_named-named : (e : Option EventType) → event_named (named e) ≡ e
unfolding event_as_str
event_named-named none = refl
event_named-named (some confirmed_pending) = refl
event_named-named (some EventType.settled) = refl
event_named-named (some EventType.failed) = refl

abbrev payment_event_named : Option String → Option PaymentEventType
payment_event_named none = none
payment_event_named (some n) =
    if n == "payment.settled" then some PaymentEventType.settled else some PaymentEventType.failed

payment_event_named-payment_named :
    (e : Option PaymentEventType) → payment_event_named (payment_named e) ≡ e
unfolding payment_event_as_str
payment_event_named-payment_named none = refl
payment_event_named-payment_named (some PaymentEventType.settled) = refl
payment_event_named-payment_named (some PaymentEventType.failed) = refl

-- A transition is planned exactly when the observed status comes after the stored one in the order in
-- which a transfer goes through them; it is of that row, leads from the stored to the observed status,
-- and carries the event that is announced of the observed status, if there is one.
pub plan_transition_iff :
    (row : Transfer) (observed : TransferStatus) (tr : Transition)
    → (plan_transition row observed ≡ some tr) ↔ (
        Before row.status observed
        × (tr.transfer_id ≡ row.id)
        × (tr.from ≡ row.status)
        × (tr.to ≡ observed)
        × Announced observed (named tr.event))
plan_transition_iff row observed tr = (
  λ h.
      let (_, less, id, from, to, event) = (plan_transition_lem row observed tr).0 h in
      (Before-rank row.status observed less, id, from, to, rw event (event_of-Announced observed)),
  λ (before, id, from, to, says).
      let less = rank-Before before in
      let same : tr.event ≡ event_of observed =
        sym (event_named-named tr.event)
        ∙ ap event_named (Announced-named says)
        ∙ event_named-named (event_of observed) in
      (plan_transition_lem row observed tr).1
        (open_of_rank row.status observed less, less, id, from, to, same),
)

-- A transition of a payment is planned exactly when the observed status comes after the stored one in
-- the order of the statuses of a payment, with the event that is announced of the observed status, if
-- there is one; or when the payment failed or was cancelled and is observed pending again, with no
-- event. It is of that payment, and leads from the stored to the observed status.
pub plan_payment_transition_iff :
    (row : Payment) (observed : PaymentStatus) (tr : PaymentTransition)
    → (plan_payment_transition row observed ≡ some tr) ↔ (
        (tr.payment_hash ≡ row.payment_hash)
        × (tr.from ≡ row.status)
        × (tr.to ≡ observed)
        × ((PaymentBefore row.status observed × PaymentAnnounced observed (payment_named tr.event))
            ⊎ (((row.status ≡ PaymentStatus.failed) ⊎ (row.status ≡ cancelled))
                × (observed ≡ PaymentStatus.pending)
                × (tr.event ≡ none))))
plan_payment_transition_iff row observed tr = (
  λ h.
      let (hash, from, to, why) = (plan_payment_transition_lem row observed tr).0 h in
      (
        hash,
        from,
        to,
        elim why [
          | inl (open_now, less, event) ↦ inl (
            PaymentBefore-rank row.status observed less,
            rw event (payment_event_of-PaymentAnnounced observed),
          )
          | inr restart ↦ inr restart
        ],
      ),
  λ (hash, from, to, why). (plan_payment_transition_lem row observed tr).1 (
    hash,
    from,
    to,
    elim why [
      | inl (before, says) ↦
          let less = payment_rank-Before before in
          let same : tr.event ≡ payment_event_of observed =
            sym (payment_event_named-payment_named tr.event)
            ∙ ap payment_event_named (PaymentAnnounced-named says)
            ∙ payment_event_named-payment_named (payment_event_of observed) in
          inl (open_payment row.status observed less, less, same)
      | inr restart ↦ inr restart
    ],
  ),
)
