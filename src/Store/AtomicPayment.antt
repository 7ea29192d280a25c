-- ===== src/Store/AtomicPayment.antt =====
-- The transition of a payment and its event are one, as for a transfer.
use rln_companion.Base.{
  String, ◌≡◌, refl, sym, ◌≢◌, ◌⊎◌, inl, inr, true, false, not, Option, none, some, List, [], ◌∷◌,
  arith, eq_iff, any, update_rows, ok, err, if◌then◌else◌, Bool-cases, ◌==◌, Eq_String,
}
use rln_companion.Base.Int.{ℤ}
use rln_companion.Store.Atomic.{queued, is_fresh}
use rln_companion.Store.Codec.{payment_status_to_str}
use rln_companion.Store.Equality.{payment_eq_iff, Eq_PaymentStatus}
use rln_companion.Store.Names.{payment_status_to_str-injective}
use rln_companion.Store.Outbox.{Event, has_event_id, enqueue}
use rln_companion.Store.Payments.{
  payment_stands_at, moved_payment, payment_transition_body, apply_payment_transition,
}
use rln_companion.Store.Rows.{PaymentRow, Db}
use rln_companion.Store.Transaction.{transaction}
use rln_companion.Store.Types.{PaymentStatus, db}

-- The database after a transition that goes through.
abbrev pub moved_payment_db : String → PaymentStatus → PaymentStatus → Option Event → ℤ → Db → Db
moved_payment_db hash from to event now d = record d {
  payments = update_rows (payment_stands_at hash from) (moved_payment to now) d.payments;
  outbox = queued event now d.outbox;
}

-- Everything that `apply_payment_transition` can do.
-- The transaction, from the point where its first statement has been run.
payment_transition_body_lem :
    (hash : String) (from to : PaymentStatus) (event : Option Event) (now : ℤ) (d : Db)
    → transaction (payment_transition_body hash from to event now) d ≡ (
        if not (any (payment_stands_at hash from) d.payments)
        then (ok false, d)
        else if is_fresh event d.outbox
        then (ok true, moved_payment_db hash from to event now d)
        else (err db, d))
unfolding transaction payment_transition_body enqueue
payment_transition_body_lem hash from to none now d =
    elim (Bool-cases (any (payment_stands_at hash from) d.payments)) [ inl h ↦ rw h | inr h ↦ rw h ]
payment_transition_body_lem hash from to (some e) now d =
    elim (Bool-cases (any (payment_stands_at hash from) d.payments)) [
      | inl h ↦ elim (Bool-cases (any (has_event_id e.event_id) d.outbox)) [
        | inl k ↦ rw (h, k)
        | inr k ↦ rw (h, k)
      ]
      | inr h ↦ rw h
    ]

pub apply_payment_transition_lem :
    (hash : String) (from to : PaymentStatus) (event : Option Event) (now : ℤ) (d : Db)
    → apply_payment_transition hash from to event now d ≡ (
        if from == to
        then (ok false, d)
        else if not (any (payment_stands_at hash from) d.payments)
        then (ok false, d)
        else if is_fresh event d.outbox
        then (ok true, moved_payment_db hash from to event now d)
        else (err db, d))
unfolding apply_payment_transition
apply_payment_transition_lem hash from to event now d = elim (Bool-cases (from == to)) [
  | inl same ↦ rw same
  | inr differ ↦ rw differ (payment_transition_body_lem hash from to event now d)
]

module _ (hash : String) (from to : PaymentStatus) (event : Option Event) (now : ℤ) (d : Db) where
  -- A transition that goes through found a payment in the expected status, and has moved it and queued
  -- its event, whose id is new; any other outcome, an error included, leaves the database as it was.
  pub apply_payment_transition-all_or_nothing :
      (((apply_payment_transition hash from to event now d).0 ≡ ok true)
        × ((apply_payment_transition hash from to event now d).1
            ≡ moved_payment_db hash from to event now d)
        × (any (payment_stands_at hash from) d.payments ≡ true)
        × (is_fresh event d.outbox ≡ true))
      ⊎ (((apply_payment_transition hash from to event now d).0 ≢ ok true)
          × ((apply_payment_transition hash from to event now d).1 ≡ d))
  apply_payment_transition-all_or_nothing = rw apply_payment_transition_lem (ground arith)

  pub payment_moved_of_true :
      (apply_payment_transition hash from to event now d).0 ≡ ok true
      → ((from == to) ≡ false)
        × ((apply_payment_transition hash from to event now d).1
            ≡ moved_payment_db hash from to event now d)
  payment_moved_of_true h = ground (arith, apply_payment_transition_lem hash from to event now d)

pub payment_names_differ :
    (from to : PaymentStatus)
    → (from == to) ≡ false
    → (payment_status_to_str to == payment_status_to_str from) ≡ false
payment_names_differ from to h =
    elim (Bool-cases (payment_status_to_str to == payment_status_to_str from)) [
      | inl same ↦ cc (
          (payment_eq_iff from to).1
            (sym (payment_status_to_str-injective to from ((eq_iff _ _).0 same))))
      | inr differ ↦ differ
    ]

pub not-payment_stands_at-moved :
    (hash : String) (from to : PaymentStatus) (now : ℤ) (rows : List PaymentRow)
    → (from == to) ≡ false
    → any
        (payment_stands_at hash from)
        (update_rows (payment_stands_at hash from) (moved_payment to now) rows)
      ≡ false
not-payment_stands_at-moved hash from to now [] h = refl
not-payment_stands_at-moved hash from to now (r ∷ rows) h =
    ground
      (arith, payment_names_differ from to h, not-payment_stands_at-moved hash from to now rows h)

-- Once a transition of a payment has gone through, another from the same status, with whatever target
-- and event, changes nothing and answers `false`.
apply_payment_transition-once :
    (hash : String) (from to to' : PaymentStatus) (event event' : Option Event) (now now' : ℤ)
    (d : Db)
    → (apply_payment_transition hash from to event now d).0 ≡ ok true
    → apply_payment_transition hash from to' event' now'
        (apply_payment_transition hash from to event now d).1
      ≡ (ok false, (apply_payment_transition hash from to event now d).1)
apply_payment_transition-once hash from to to' event event' now now' d h =
    let (differ, after) = payment_moved_of_true hash from to event now d h in
    rw (after, apply_payment_transition_lem)
      (ground (arith, not-payment_stands_at-moved hash from to now d.payments differ))
