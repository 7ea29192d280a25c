-- ===== src/Webhook/Keeps.antt =====
-- What every part of the companion keeps of the database, and that the statements of the dispatcher do.
use rln_companion.Base.{
  String, ◌≡◌, refl, sym, ap, ◌∙◌, inl, inr, Bool, some, List, [], ◌∷◌, ◌++◌, map, update_rows,
  Bool-cases,
}
use rln_companion.Base.Int.{ℤ}
use rln_companion.Base.Respects.{Preorder, Respects}
use rln_companion.Store.Codec.{payment_status_to_str}
use rln_companion.Store.Outbox.{
  has_event_id, attempted_row, record_attempt, delivered_row, mark_delivered,
}
use rln_companion.Store.Rows.{OutboxRow, Db}
use rln_companion.Store.Types.{succeeded}
use rln_companion.Store.Valid.{Valid}
use rln_companion.Store.Valid.Others.{record_attempt-Stays, mark_delivered-Stays}
use rln_companion.Sync.Evolve.{payment_status_at, Onward-trans, Keeps}
use rln_companion.Sync.Progress.{Progress}
use mathlib.Core.List.{append_assoc, append-nil}

abbrev pub event_ids : List OutboxRow → List String
event_ids rows = map (λ r. r.event.id) rows

-- What every operation of the companion keeps, also the dispatcher: of the transfers and payments
-- what `Evolves` promises, that no event leaves the queue or its place, and the validity.
pub record Lasts (d d' : Db) : Type 0 where
  pub transfers : Keeps d.transfers d'.transfers
  pub payments :
      (hash : String)
      → payment_status_at hash d.payments ≡ some (payment_status_to_str succeeded)
      → payment_status_at hash d'.payments ≡ some (payment_status_to_str succeeded)
  pub events : (more : List String) × (event_ids d'.outbox ≡ event_ids d.outbox ++ more)
  pub valid : Valid d → Valid d'

Lasts-refl : (d : Db) → Lasts d d
Lasts-refl d = record {
  transfers = λ id s h. (s, h, inl refl);
  payments = λ hash h. h;
  events = ([], sym (append-nil _));
  valid = λ v. v;
}

Lasts-trans : (d e f : Db) → Lasts d e → Lasts e f → Lasts d f
Lasts-trans d e f h k = record {
  transfers = λ id s at.
      let (t, at', st) = h.transfers id s at in
      let (u, at'', tu) = k.transfers id t at' in (u, at'', Onward-trans s t u st tu);
  payments = λ hash at. k.payments hash (h.payments hash at);
  events =
      let (more, e1) = h.events in
      let (later, e2) = k.events in
      (
        more ++ later,
        e2 ∙ ap (λ ids. ids ++ later) e1 ∙ append_assoc (event_ids d.outbox) more later,
      );
  valid = λ v. k.valid (h.valid v);
}

pub Lasts-order : Preorder Lasts
Lasts-order = record { here = Lasts-refl; onwards = Lasts-trans }

ids-append :
    (rows more : List OutboxRow) → event_ids (rows ++ more) ≡ event_ids rows ++ event_ids more
ids-append [] more = refl
ids-append (r ∷ rows) more = ap (◌∷◌ r.event.id) (ids-append rows more)

pub Progress-Lasts : (d d' : Db) → Progress d d' → Lasts d d'
Progress-Lasts d d' h = record {
  transfers = h.evolves.transfers;
  payments = h.evolves.payments;
  events =
      let (more, e) = h.evolves.outbox in
      (event_ids more, ap event_ids e ∙ ids-append d.outbox more);
  valid = h.valid;
}

ids-update :
    (p : OutboxRow → Bool) (f : OutboxRow → OutboxRow) (rows : List OutboxRow)
    → ((r : OutboxRow) → (f r).event.id ≡ r.event.id)
    → event_ids (update_rows p f rows) ≡ event_ids rows
ids-update p f [] same = refl
ids-update p f (r ∷ rows) same = elim (Bool-cases (p r)) [
  | inl there ↦ rw (there, same r, ids-update p f rows same) refl
  | inr absent ↦ rw (absent, ids-update p f rows same) refl
]

-- A change of the queue alone.
Lasts-outbox :
    (d : Db) (rows : List OutboxRow)
    → event_ids rows ≡ event_ids d.outbox
    → (Valid d → Valid (record d { outbox = rows }))
    → Lasts d (record d { outbox = rows })
Lasts-outbox d rows same valid = record {
  transfers = λ id s h. (s, h, inl refl);
  payments = λ hash h. h;
  events = ([], same ∙ sym (append-nil _));
  valid = valid;
}

pub record_attempt-Lasts : (id : String) (next : ℤ) → Respects Lasts (record_attempt id next)
unfolding record_attempt
record_attempt-Lasts id next = record {
  at = λ d.
      Lasts-outbox d _ (ids-update (has_event_id id) (attempted_row next) d.outbox (λ r. refl))
        ((record_attempt-Stays id next).at d);
}

pub mark_delivered-Lasts : (id : String) (now : ℤ) → Respects Lasts (mark_delivered id now)
unfolding mark_delivered
mark_delivered-Lasts id now = record {
  at = λ d.
      Lasts-outbox d _ (ids-update (has_event_id id) (delivered_row now) d.outbox (λ r. refl))
        ((mark_delivered-Stays id now).at d);
}
