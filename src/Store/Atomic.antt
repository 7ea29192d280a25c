-- ===== src/Store/Atomic.antt =====
-- A transition and its event are one: `apply_transition` does both or nothing, and does it once.
use rln_companion.Base.{
  String, ◌≡◌, refl, inl, inr, Bool, true, false, not, Option, none, some, List, [], ◌∷◌, ◌++◌, any,
  update_rows, ok, err, if◌then◌else◌, Bool-cases, ◌==◌, ◌≢◌, ◌⊎◌, arith, eq_iff, Eq_String, sym,
}
use rln_companion.Base.Int.{ℤ}
use rln_companion.Store.Outbox.{Event, has_event_id, queued_row, enqueue}
use rln_companion.Store.Rows.{OutboxRow, Db, TransferRow}
use rln_companion.Store.Types.{TransferStatus, db}
use rln_companion.Store.Upsert.{stands_at, moved_row, apply_transition, transition_body}
use rln_companion.Store.Equality.{Eq_TransferStatus, status_eq_iff}
use rln_companion.Store.Transaction.{transaction}
use rln_companion.Store.Codec.{status_to_str}
use rln_companion.Store.Names.{status_to_str-injective}

-- what `enqueue` leaves of the outbox
abbrev pub queued : Option Event → ℤ → List OutboxRow → List OutboxRow
queued none now rows = rows
queued (some e) now rows = rows ++ queued_row e now ∷ []

-- An event id that the outbox does not hold yet.
abbrev pub is_fresh : Option Event → List OutboxRow → Bool
is_fresh none rows = true
is_fresh (some e) rows = not (any (has_event_id e.event_id) rows)

pub enqueue_lem :
    (event : Option Event) (now : ℤ) (d : Db)
    → enqueue event now d ≡ (
        if is_fresh event d.outbox
        then (ok tt, record d { outbox = queued event now d.outbox })
        else (err db, d))
unfolding enqueue
enqueue_lem none now d = refl
enqueue_lem (some e) now d = elim (Bool-cases (any (has_event_id e.event_id) d.outbox)) [
  | inl h ↦ rw h
  | inr h ↦ rw h
]

-- The database after a transition that goes through.
abbrev pub moved_db : String → TransferStatus → TransferStatus → Option Event → ℤ → Db → Db
moved_db id from to event now d = record d {
  transfers = update_rows (stands_at id from) (moved_row to now) d.transfers;
  outbox = queued event now d.outbox;
}

-- The transaction, from the point where its first statement has been run.
transition_body_lem :
    (id : String) (from to : TransferStatus) (event : Option Event) (now : ℤ) (d : Db)
    → transaction (transition_body id from to event now) d ≡ (
        if not (any (stands_at id from) d.transfers)
        then (ok false, d)
        else if is_fresh event d.outbox
        then (ok true, moved_db id from to event now d)
        else (err db, d))
unfolding transaction transition_body enqueue
transition_body_lem id from to none now d =
    elim (Bool-cases (any (stands_at id from) d.transfers)) [ inl h ↦ rw h | inr h ↦ rw h ]
transition_body_lem id from to (some e) now d =
    elim (Bool-cases (any (stands_at id from) d.transfers)) [
      | inl h ↦ elim (Bool-cases (any (has_event_id e.event_id) d.outbox)) [
        | inl k ↦ rw (h, k)
        | inr k ↦ rw (h, k)
      ]
      | inr h ↦ rw h
    ]

pub apply_transition_lem :
    (id : String) (from to : TransferStatus) (event : Option Event) (now : ℤ) (d : Db)
    → apply_transition id from to event now d ≡ (
        if from == to
        then (ok false, d)
        else if not (any (stands_at id from) d.transfers)
        then (ok false, d)
        else if is_fresh event d.outbox
        then (ok true, moved_db id from to event now d)
        else (err db, d))
unfolding apply_transition
apply_transition_lem id from to event now d = elim (Bool-cases (from == to)) [
  | inl same ↦ rw same
  | inr differ ↦ rw differ (transition_body_lem id from to event now d)
]

module _ (id : String) (from to : TransferStatus) (event : Option Event) (now : ℤ) (d : Db) where
  -- A transition that goes through found a row in the expected status, and has moved it and queued its
  -- event, whose id is new; any other outcome, an error included, leaves the database as it was.
  pub apply_transition-all_or_nothing :
      (((apply_transition id from to event now d).0 ≡ ok true)
        × ((apply_transition id from to event now d).1 ≡ moved_db id from to event now d)
        × (any (stands_at id from) d.transfers ≡ true)
        × (is_fresh event d.outbox ≡ true))
      ⊎ (((apply_transition id from to event now d).0 ≢ ok true)
          × ((apply_transition id from to event now d).1 ≡ d))
  apply_transition-all_or_nothing = rw apply_transition_lem (ground arith)

  pub moved_of_true :
      (apply_transition id from to event now d).0 ≡ ok true
      → ((from == to) ≡ false)
        × ((apply_transition id from to event now d).1 ≡ moved_db id from to event now d)
  moved_of_true h = ground (arith, apply_transition_lem id from to event now d)

pub names_differ :
    (from to : TransferStatus)
    → (from == to) ≡ false
    → (status_to_str to == status_to_str from) ≡ false
names_differ from to h = elim (Bool-cases (status_to_str to == status_to_str from)) [
  | inl same ↦
      cc ((status_eq_iff from to).1 (sym (status_to_str-injective to from ((eq_iff _ _).0 same))))
  | inr differ ↦ differ
]

pub not-stands_at-moved :
    (id : String) (from to : TransferStatus) (now : ℤ) (rows : List TransferRow)
    → (from == to) ≡ false
    → any (stands_at id from) (update_rows (stands_at id from) (moved_row to now) rows) ≡ false
not-stands_at-moved id from to now [] h = refl
not-stands_at-moved id from to now (r ∷ rows) h =
    ground (arith, names_differ from to h, not-stands_at-moved id from to now rows h)

-- Once a transition of a row has gone through, another from the same status, with whatever target and
-- event, changes nothing and answers `false`.
pub apply_transition-once :
    (id : String) (from to to' : TransferStatus) (event event' : Option Event) (now now' : ℤ)
    (d : Db)
    → (apply_transition id from to event now d).0 ≡ ok true
    → apply_transition id from to' event' now' (apply_transition id from to event now d).1
      ≡ (ok false, (apply_transition id from to event now d).1)
apply_transition-once id from to to' event event' now now' d h =
    let (differ, after) = moved_of_true id from to event now d h in
    rw (after, apply_transition_lem)
      (ground (arith, not-stands_at-moved id from to now d.transfers differ))
