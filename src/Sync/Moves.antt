-- ===== src/Sync/Moves.antt =====
-- The two transitions keep what `Evolves` promises, if the planned move goes forward.
use rln_companion.Base.{
  ◌<◌, String, ◌≡◌, refl, sym, ap, inl, inr, Bool, true, false, Option, none, some, List, [], ◌∷◌,
  ◌++◌, arith, eq_iff, find, update_rows, Bool-cases, Option-cases, ◌==◌, Eq_String, ◌∙◌, ◌≢◌,
}
use rln_companion.Base.Int.{ℤ}
use rln_companion.Base.Respects.{Respects}
use rln_companion.Base.Tables.{find-update_rows, find-append}
use rln_companion.Store.Atomic.{queued, apply_transition-all_or_nothing}
use rln_companion.Store.Codec.{status_to_str, payment_status_to_str}
use rln_companion.Store.Outbox.{Event, queued_row}
use rln_companion.Store.Payments.{
  has_hash, merged_payment, insert_payment_row, upsert_payment, payment_stands_at, moved_payment,
  apply_payment_transition,
}
use rln_companion.Store.Rows.{TransferRow, PaymentRow, OutboxRow, Db}
use rln_companion.Store.Types.{TransferStatus, terminal, NewPayment, succeeded, PaymentStatus}
use rln_companion.Store.Upsert.{stands_at, moved_row, apply_transition}
use rln_companion.Sync.Evolve.{payment_status_at, Onward, Evolves, Evolves-refl, Keeps-update}
use rln_companion.Sync.Plan.{rank}
use rln_companion.Sync.Steps.{query_rules}
use mathlib.Core.List.{append-nil}
use rln_companion.Store.AtomicPayment.{apply_payment_transition-all_or_nothing}
use rln_companion.Store.Names.{payment_status_to_str-injective}

outbox-queued :
    (event : Option Event) (now : ℤ) (rows : List OutboxRow)
    → (more : List OutboxRow) × (queued event now rows ≡ rows ++ more)
outbox-queued none now rows = ([], sym (append-nil rows))
outbox-queued (some e) now rows = (queued_row e now ∷ [], refl)

moved-Onward :
    (id : String) (from to : TransferStatus) (now : ℤ) (r : TransferRow)
    → terminal from ≡ false
    → rank from < rank to
    → stands_at id from r ≡ true
    → Onward r.status (moved_row to now r).status
moved-Onward id from to now r open_from less stands =
    inr (from, to, (eq_iff r.status (status_to_str from)).0 (ground arith), refl, open_from, less)

pub apply_transition-Evolves :
    (id : String) (from to : TransferStatus) (event : Option Event) (now : ℤ)
    → terminal from ≡ false
    → rank from < rank to
    → Respects Evolves (apply_transition id from to event now)
apply_transition-Evolves id from to event now open_from less = record {
  at = λ d. elim (apply_transition-all_or_nothing id from to event now d) [
    | inl (done, after, _, _) ↦ rw after (record {
      transfers =
          Keeps-update (stands_at id from) (moved_row to now) d.transfers (λ r. refl)
            (λ r stands. moved-Onward id from to now r open_from less stands);
      payments = λ hash at. at;
      outbox = outbox-queued event now d.outbox;
    })
    | inr (_, after) ↦ rw after (Evolves-refl d)
  ];
}

payment_of_found :
    (hash s : String) (rows : List PaymentRow) (r : PaymentRow)
    → payment_status_at hash rows ≡ some s
    → find (has_hash hash) rows ≡ some r
    → r.status ≡ s
payment_of_found hash s rows r h hit = let e : some r.status ≡ some s = rw hit at h in cc

-- An update that leaves the status of every payment that succeeded.
KeepsPayments-update :
    (p : PaymentRow → Bool) (f : PaymentRow → PaymentRow) (rows : List PaymentRow) (hash : String)
    → ((r : PaymentRow) → (f r).payment_hash ≡ r.payment_hash)
    → ((r : PaymentRow)
        → p r ≡ true
        → r.status ≡ payment_status_to_str succeeded
        → (f r).status ≡ payment_status_to_str succeeded)
    → payment_status_at hash rows ≡ some (payment_status_to_str succeeded)
    → payment_status_at hash (update_rows p f rows) ≡ some (payment_status_to_str succeeded)
KeepsPayments-update p f rows hash same keep h = elim (Option-cases (find (has_hash hash) rows)) [
  | inl miss ↦ cc (rw miss at h)
  | inr (r, hit) ↦
      let after = find-update_rows (has_hash hash) p f rows (λ x. ap (λ i. i == hash) (same x)) in
      let e = payment_of_found hash (payment_status_to_str succeeded) rows r h hit in
      elim (Bool-cases (p r)) [
        | inl yes_p ↦ rw (after, hit, yes_p) (ap some (keep r yes_p e))
        | inr no_p ↦ rw (after, hit, no_p) (ap some e)
      ]
]

KeepsPayments-append :
    (rows more : List PaymentRow) (hash s : String)
    → payment_status_at hash rows ≡ some s
    → payment_status_at hash (rows ++ more) ≡ some s
KeepsPayments-append rows more hash s h = elim (Option-cases (find (has_hash hash) rows)) [
  | inl miss ↦ cc (rw miss at h)
  | inr (r, hit) ↦
      rw (find-append (has_hash hash) rows more r hit)
        (ap some (payment_of_found hash s rows r h hit))
]

pub Evolves-payments :
    (d : Db) (rows : List PaymentRow) (queue : List OutboxRow)
    → ((hash : String)
        → payment_status_at hash d.payments ≡ some (payment_status_to_str succeeded)
        → payment_status_at hash rows ≡ some (payment_status_to_str succeeded))
    → ((more : List OutboxRow) × (queue ≡ d.outbox ++ more))
    → Evolves d (record d { payments = rows; outbox = queue })
Evolves-payments d rows queue h k = record {
  transfers = λ id s at. (s, at, inl refl);
  payments = h;
  outbox = k;
}

pub insert_payment_row-Evolves : (row : PaymentRow) → Respects Evolves (insert_payment_row row)
unfolding insert_payment_row
insert_payment_row-Evolves row = record {
  at = λ d. elim (Option-cases (find (has_hash row.payment_hash) d.payments)) [
    | inl miss ↦
        rw (miss, insert_payment_row)
          (Evolves-payments d _ _ (λ hash. KeepsPayments-append d.payments _ hash _)
            ([], sym (append-nil d.outbox)))
    | inr (r, hit) ↦
        rw (hit, insert_payment_row)
          (Evolves-payments d _ _
            (λ hash.
              KeepsPayments-update (has_hash row.payment_hash) (merged_payment row) d.payments hash
                (λ x. refl) (λ x p e. e))
            ([], sym (append-nil d.outbox)))
  ];
}

pub upsert_payment-Evolves :
    (p : NewPayment) (seen : Option ℤ) (now : ℤ) → Respects Evolves (upsert_payment p seen now)
unfolding upsert_payment
upsert_payment-Evolves p seen now = search (query_rules, insert_payment_row-Evolves)

moved-succeeded :
    (hash : String) (from to : PaymentStatus) (now : ℤ) (r : PaymentRow)
    → from ≢ succeeded
    → payment_stands_at hash from r ≡ true
    → r.status ≡ payment_status_to_str succeeded
    → (moved_payment to now r).status ≡ payment_status_to_str succeeded
moved-succeeded hash from to now r open_from stands e =
    let at_from = (eq_iff r.status (payment_status_to_str from)).0 (ground arith) in
    absurd (open_from (payment_status_to_str-injective from succeeded (sym at_from ∙ e)))

pub apply_payment_transition-Evolves :
    (hash : String) (from to : PaymentStatus) (event : Option Event) (now : ℤ)
    → from ≢ succeeded
    → Respects Evolves (apply_payment_transition hash from to event now)
apply_payment_transition-Evolves hash from to event now open_from = record {
  at = λ d. elim (apply_payment_transition-all_or_nothing hash from to event now d) [
    | inl (done, after, _, _) ↦ rw after (
        Evolves-payments d _ _
          (λ h.
            KeepsPayments-update (payment_stands_at hash from) (moved_payment to now) d.payments h
              (λ r. refl) (λ r stands e. moved-succeeded hash from to now r open_from stands e))
          (outbox-queued event now d.outbox))
    | inr (_, after) ↦ rw after (Evolves-refl d)
  ];
}
