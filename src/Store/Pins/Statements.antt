-- ===== src/Store/Pins/Statements.antt =====
-- The statements of store.rs keep the rows bound.
use rln_companion.Base.{
  String, ◌≡◌, refl, sym, ap, ◌∙◌, inl, inr, true, not, ◌&&◌, Option, none, some, arith, eq_iff,
  find, any, Result, pure, continue, ◌>>=◌, ok, err, Bool-cases, Option-cases, ◌==◌, sql_eq,
  Eq_String,
}
use rln_companion.Base.Int.{ℤ, eq_ℤ_iff, Eq_ℤ}
use rln_companion.Base.Respects.{Respects, Respects-lift, Respects-bind, Respects-convert}
use rln_companion.Base.Tables.{find-holds}
use rln_companion.Store.Atomic.{apply_transition-all_or_nothing}
use rln_companion.Store.AtomicPayment.{apply_payment_transition-all_or_nothing}
use rln_companion.Store.Bound.{fetched_same}
use rln_companion.Store.Codec.{ts_to_db, amt_to_db, payment_try_from}
use rln_companion.Store.Outbox.{Event}
use rln_companion.Store.Payments.{
  has_hash, payment_row, insert_payment_row, upsert_payment, apply_payment_transition,
}
use rln_companion.Store.Pins.{
  existing_id-matches, idx_at, Pins, Pinned, Pinned-order, Pins-append, Pins-update,
}
use rln_companion.Store.Rows.{TransferRow, PaymentRow, Db}
use rln_companion.Store.Transaction.{settle_tx}
use rln_companion.Store.Transfers.{
  has_id, fetch_transfer, merged_row, same_recipient, insert_returning_id, insert_transfer,
}
use rln_companion.Store.Types.{
  TransferStatus, PaymentStatus, NewTransfer, Observed, NewPayment, StoreError,
}
use rln_companion.Store.Upsert.{
  matches, existing_id, refreshed_row, refresh_row, clashes, discover_row, bind_row, upsert_body,
  upsert_observed, stands_at, moved_row, apply_transition,
}
use rln_companion.Store.Valid.{Unique}
use mathlib.Core.Path.{subst}

fetch_transfer-Pinned : (id : String) → Respects Pinned (fetch_transfer id)
fetch_transfer-Pinned id = record {
  at = λ d i idx h. subst (λ x. idx_at i x.transfers ≡ some (some idx)) (sym (fetched_same id d)) h;
}

insert_returning_id-Pinned :
    (fresh : String) (t : NewTransfer) (expiration : Option ℤ) (now : ℤ)
    → Respects Pinned (insert_returning_id fresh t expiration now)
unfolding insert_returning_id
insert_returning_id-Pinned fresh t expiration now = record {
  at = λ d. elim (Bool-cases (any (has_id fresh) d.transfers)) [
    | inl taken ↦ rw taken (Pinned-order.here d)
    | inr free ↦ elim (Option-cases (find (same_recipient t.recipient_id) d.transfers)) [
      | inl miss ↦ rw (free, miss) (Pins-append d.transfers _)
      | inr (r, hit) ↦
          rw (free, hit)
            (Pins-update (same_recipient t.recipient_id) (merged_row t expiration now) d.transfers
              (λ x. refl) (λ x i idx e p k. k))
    ]
  ];
}

pub insert_transfer-Pinned :
    (fresh : String) (t : NewTransfer) (now : ℤ) → Respects Pinned (insert_transfer fresh t now)
unfolding insert_transfer
insert_transfer-Pinned fresh t now =
    Respects-convert Pinned-order (ts_to_db t.expiration_timestamp) _ λ expiration read.
      Respects-bind Pinned-order _ _ (insert_returning_id-Pinned fresh t expiration now)
        fetch_transfer-Pinned

pub apply_transition-Pinned :
    (id : String) (from to : TransferStatus) (event : Option Event) (now : ℤ)
    → Respects Pinned (apply_transition id from to event now)
apply_transition-Pinned id from to event now = record {
  at = λ d. elim (apply_transition-all_or_nothing id from to event now d) [
    | inl (done, after, _, _) ↦ rw after (
        Pins-update (stands_at id from) (moved_row to now) d.transfers (λ x. refl)
          (λ x i idx e p k. k))
    | inr (_, after) ↦ rw after (Pinned-order.here d)
  ];
}

insert_payment_row-Pinned : (row : PaymentRow) → Respects Pinned (insert_payment_row row)
unfolding insert_payment_row
insert_payment_row-Pinned row = record {
  at = λ d. elim (Option-cases (find (has_hash row.payment_hash) d.payments)) [
    | inl miss ↦ rw (miss, insert_payment_row) (Pinned-order.here d)
    | inr (r, hit) ↦ rw (hit, insert_payment_row) (Pinned-order.here d)
  ];
}

pub upsert_payment-Pinned :
    (p : NewPayment) (seen : Option ℤ) (now : ℤ) → Respects Pinned (upsert_payment p seen now)
unfolding upsert_payment
upsert_payment-Pinned p seen now =
    Respects-convert Pinned-order (amt_to_db p.asset_amount) _ λ asset_amount read.
      Respects-convert Pinned-order (amt_to_db p.amt_msat) _ λ amt_msat read'.
        Respects-bind Pinned-order _ _
          (insert_payment_row-Pinned (payment_row p asset_amount amt_msat seen now))
          (λ row. Respects-lift Pinned-order (payment_try_from row))

pub apply_payment_transition-Pinned :
    (hash : String) (from to : PaymentStatus) (event : Option Event) (now : ℤ)
    → Respects Pinned (apply_payment_transition hash from to event now)
apply_payment_transition-Pinned hash from to event now = record {
  at = λ d. elim (apply_payment_transition-all_or_nothing hash from to event now d) [
    | inl (done, after, _, _) ↦ rw after (Pinned-order.here d)
    | inr (_, after) ↦ rw after (Pinned-order.here d)
  ];
}

-- A row that matches an observation is not bound to another index.
matched_idx :
    (o : Observed) (r : TransferRow) (idx : ℤ)
    → matches o r ≡ true
    → r.rln_idx ≡ some idx
    → o.rln_idx ≡ idx
unfolding matches
matched_idx o r idx fits e =
    let here : matches o r ≡ (idx == o.rln_idx) = rw (matches, e) (ground arith) in
    sym ((eq_ℤ_iff idx o.rln_idx).0 (sym here ∙ fits))

refresh_row-Pins :
    (id : String) (o : Observed) (expiration : Option ℤ) (now : ℤ) (d : Db)
    → Unique has_id d.transfers
    → existing_id o d.transfers ≡ some id
    → Pins d.transfers (refresh_row id o expiration now d).1.transfers
unfolding refresh_row
refresh_row-Pins id o expiration now d distinct_ids found =
    elim (Bool-cases
      (any (λ r. not (r.id == id) && sql_eq r.rln_idx (some o.rln_idx)) d.transfers)) [
        | inl clash ↦ rw clash (Pinned-order.here d)
        | inr free ↦ rw free (
            Pins-update (has_id id) (refreshed_row o expiration now) d.transfers (λ x. refl)
              (λ x i idx hit here k.
                let same : x.id ≡ id = (eq_iff x.id id).0 here in
                let same' : x.id ≡ i =
                  (eq_iff x.id i).0 (find-holds (has_id i) d.transfers x hit) in
                let hit' : find (has_id id) d.transfers ≡ some x =
                  subst (λ j. find (has_id j) d.transfers ≡ some x) (sym same' ∙ same) hit in
                ap some (
                  matched_idx o x idx
                    (existing_id-matches o d.transfers id x distinct_ids found hit') k)))
      ]

discover_row-Pins :
    (fresh : String) (o : Observed) (expiration : Option ℤ) (now : ℤ) (d : Db)
    → Pins d.transfers (discover_row fresh o expiration now d).1.transfers
unfolding discover_row
discover_row-Pins fresh o expiration now d = elim (Bool-cases (any (clashes fresh o) d.transfers)) [
  | inl clash ↦ rw clash (Pinned-order.here d)
  | inr free ↦ rw free (Pins-append d.transfers _)
]

-- The rest of the statements of a transaction, once the row is bound.
fetched-Pins :
    (r : Result StoreError String) (d d' : Db)
    → Pins d.transfers d'.transfers
    → Pins d.transfers (continue r fetch_transfer d').1.transfers
fetched-Pins (ok id) d d' h i idx k = (fetch_transfer-Pinned id).at d' i idx (h i idx k)
fetched-Pins (err e) d d' h i idx k = h i idx k

-- An action that ends by a value.
settled_after :
    {A : Type 0} (r : Result StoreError A) (a : String) (d d' : Db)
    → Pins d.transfers d'.transfers
    → Pins d.transfers (continue r (λ _. pure a) d').1.transfers
unfolding pure
settled_after (ok x) a d d' h = h
settled_after (err e) a d d' h = h

bind_row-Pins :
    (fresh : String) (o : Observed) (expiration : Option ℤ) (now : ℤ) (existing : Option String)
    (d : Db)
    → Unique has_id d.transfers
    → existing_id o d.transfers ≡ existing
    → Pins d.transfers (bind_row fresh o expiration now existing d).1.transfers
unfolding bind_row ◌>>=◌
bind_row-Pins fresh o expiration now none d distinct_ids found =
    settled_after (discover_row fresh o expiration now d).0 _ d
      (discover_row fresh o expiration now d).1 (discover_row-Pins fresh o expiration now d)
bind_row-Pins fresh o expiration now (some id) d distinct_ids found =
    settled_after (refresh_row id o expiration now d).0 _ d (refresh_row id o expiration now d).1
      (refresh_row-Pins id o expiration now d distinct_ids found)

upserted-Pins :
    (fresh : String) (o : Observed) (now : ℤ) (existing : Option String)
    (expiration : Result StoreError (Option ℤ)) (d : Db)
    → Unique has_id d.transfers
    → existing_id o d.transfers ≡ existing
    → Pins d.transfers
        (continue expiration
          (λ x. bind_row fresh o x now existing >>= fetch_transfer)
          d).1.transfers
unfolding ◌>>=◌
upserted-Pins fresh o now existing (ok x) d distinct_ids found =
    fetched-Pins (bind_row fresh o x now existing d).0 d _
      (bind_row-Pins fresh o x now existing d distinct_ids found)
upserted-Pins fresh o now existing (err e) d distinct_ids found = Pinned-order.here d

settle_tx-Pins :
    {A : Type 0} (d d' : Db) (r : Result StoreError A)
    → Pins d.transfers d'.transfers
    → Pins d.transfers (settle_tx d r d').1.transfers
settle_tx-Pins d d' (ok a) h = h
settle_tx-Pins d d' (err e) h = Pinned-order.here d

-- An observation binds no row anew that is bound to another index, if the ids are distinct.
pub upsert_observed-Pins :
    (fresh : String) (o : Observed) (now : ℤ) (d : Db)
    → Unique has_id d.transfers
    → Pins d.transfers (upsert_observed fresh o now d).1.transfers
unfolding upsert_observed
upsert_observed-Pins fresh o now d distinct_ids =
    settle_tx-Pins d (upsert_body fresh o now d).1 (upsert_body fresh o now d).0 (
      upserted-Pins fresh o now (existing_id o d.transfers) (ts_to_db o.expiration_timestamp) d
        distinct_ids refl)
