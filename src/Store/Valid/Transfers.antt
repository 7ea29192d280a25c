-- ===== src/Store/Valid/Transfers.antt =====
-- `upsert_observed` keeps the database valid.
use rln_companion.Base.{
  ℕ, ◌≤◌, String, ◌≡◌, refl, inl, inr, Bool, true, false, not, ◌&&◌, Option, none, some, List, [],
  ◌∷◌, arith, All, any, count, update_rows, ok, leb, Bool-cases, coalesce, ◌==◌, sql_eq, Eq_String,
  sym, ap, eq_iff, gets,
}
use rln_companion.Base.Int.{ℤ, i64_max, pos, Eq_ℤ, eq_ℤ_iff}
use rln_companion.Base.Respects.{Respects, Respects-pure, Respects-bind, Respects-convert}
use rln_companion.Base.Tables.{count-update_rows, All-update_rows, All-append}
use rln_companion.Store.Codec.{ts_to_db}
use rln_companion.Store.Rows.{TransferRow, Db}
use rln_companion.Store.Transfers.{has_id, fetch_transfer}
use rln_companion.Store.Types.{Observed, StoreError}
use rln_companion.Store.Upsert.{
  refreshed_row, refresh_row, clashes, discover_row, bind_row, upsert_body, upsert_observed,
}
use rln_companion.Store.Valid.{
  InRange, TransferOk, has_idx, has_recipient, Unique, Valid, Stays, Unique-update, Unique-append,
  Stays-order, transaction-Stays, read-Stays,
}
use mathlib.Core.Path.{subst}
use rln_companion.Store.Bound.{fetched_same}

pub Valid-transfers :
    (d : Db) (rows : List TransferRow)
    → Unique has_id rows
    → Unique has_idx rows
    → Unique has_recipient rows
    → All TransferOk rows
    → Valid d
    → Valid (record d { transfers = rows })
Valid-transfers d rows ids idxs recipients oks v = record {
  ids = ids;
  idxs = idxs;
  recipients = recipients;
  transfers_ok = oks;
  hashes = v.hashes;
  payments_ok = v.payments_ok;
  event_ids = v.event_ids;
  asset_ids = v.asset_ids;
  state_ok = v.state_ok;
}

-- What `ts_to_db` gives is in range.
pub ts_to_db-InRange : (v : Option ℕ) (x : Option ℤ) → ts_to_db v ≡ ok x → InRange x
unfolding ts_to_db
ts_to_db-InRange none x h = let e : none ≡ x = cc in subst InRange e tt
ts_to_db-InRange (some n) x h = elim (Bool-cases (leb n i64_max)) [
  | inl small ↦ let e : some (pos n) ≡ x = cc (rw small at h) in subst InRange e (ground arith)
  | inr large ↦ cc (rw large at h)
]

pub coalesce-InRange : (a b : Option ℤ) → InRange a → InRange b → InRange (coalesce a b)
coalesce-InRange none b h k = k
coalesce-InRange (some a) b h k = h

-- The index that a refresh writes: only the rows of the id have it afterwards.
count-refreshed :
    (id : String) (o : Observed) (expiration : Option ℤ) (now : ℤ) (rows : List TransferRow)
    → any (λ r. not (r.id == id) && sql_eq r.rln_idx (some o.rln_idx)) rows ≡ false
    → count (has_idx o.rln_idx) (update_rows (has_id id) (refreshed_row o expiration now) rows)
      ≤ count (has_id id) rows
count-refreshed id o expiration now [] free = omega arith
count-refreshed id o expiration now (r ∷ rows) free =
    ground (arith, count-refreshed id o expiration now rows)

refreshed_other :
    (id : String) (o : Observed) (expiration : Option ℤ) (now : ℤ) (rows : List TransferRow) (k : ℤ)
    → (o.rln_idx == k) ≡ false
    → count (has_idx k) (update_rows (has_id id) (refreshed_row o expiration now) rows)
      ≤ count (has_idx k) rows
refreshed_other id o expiration now rows k other =
    count-update_rows (has_idx k) (has_id id) (refreshed_row o expiration now) rows
      (λ r h. cc (rw other at h))

pub refresh_row-Stays :
    (id : String) (o : Observed) (expiration : Option ℤ) (now : ℤ)
    → InRange expiration
    → Respects Stays (refresh_row id o expiration now)
unfolding refresh_row
refresh_row-Stays id o expiration now fits = record {
  at = λ d v.
      elim (Bool-cases
        (any (λ r. not (r.id == id) && sql_eq r.rln_idx (some o.rln_idx)) d.transfers)) [
          | inl clash ↦ rw clash v
          | inr free ↦ rw free (
              Valid-transfers d _
                (Unique-update has_id (has_id id) _ d.transfers (λ k r h. h) v.ids)
                (λ k. elim (Bool-cases (o.rln_idx == k)) [
                  | inl same ↦
                      let e : o.rln_idx ≡ k = (eq_ℤ_iff o.rln_idx k).0 same in
                      subst
                        (λ i.
                          count (has_idx i)
                            (update_rows (has_id id) (refreshed_row o expiration now) d.transfers)
                          ≤ 1)
                        e
                        (omega
                          (arith, v.ids id, count-refreshed id o expiration now d.transfers free))
                  | inr other ↦
                      omega
                        (arith, v.idxs k, refreshed_other id o expiration now d.transfers k other)
                ])
                (Unique-update has_recipient (has_id id) _ d.transfers (λ k r h. h) v.recipients)
                (All-update_rows TransferOk (has_id id) _ d.transfers
                  (λ r h (s, fits').
                    (s, coalesce-InRange expiration r.expiration_timestamp fits fits'))
                  v.transfers_ok)
                v)
        ];
}

any_of_or :
    {A : Type 0} (p q : A → Bool) (rows : List A)
    → ((r : A) → p r ≡ true → q r ≡ true)
    → any q rows ≡ false
    → any p rows ≡ false
any_of_or p q [] h k = refl
any_of_or p q (r ∷ rows) h k = ground (arith, h r, any_of_or p q rows h)

clash_id :
    (fresh : String) (o : Observed) (k : String) (r : TransferRow)
    → (fresh == k) ≡ true
    → has_id k r ≡ true
    → clashes fresh o r ≡ true
clash_id fresh o k r h e =
    let same : k ≡ fresh = sym ((eq_iff fresh k).0 h) in
    let here : has_id fresh r ≡ true = subst (λ i. has_id i r ≡ true) same e in ground arith

clash_idx :
    (fresh : String) (o : Observed) (k : ℤ) (r : TransferRow)
    → (o.rln_idx == k) ≡ true
    → has_idx k r ≡ true
    → clashes fresh o r ≡ true
clash_idx fresh o k r h e =
    let same : k ≡ o.rln_idx = sym ((eq_ℤ_iff o.rln_idx k).0 h) in
    let here : has_idx o.rln_idx r ≡ true = subst (λ i. has_idx i r ≡ true) same e in ground arith

pub same_value : (a : Option String) (k : String) → sql_eq a (some k) ≡ true → some k ≡ a
same_value none k h = cc
same_value (some a) k h = ap some (sym ((eq_iff a k).0 h))

clash_recipient :
    (fresh : String) (o : Observed) (k : String) (r : TransferRow)
    → sql_eq o.recipient_id (some k) ≡ true
    → has_recipient k r ≡ true
    → clashes fresh o r ≡ true
clash_recipient fresh o k r h e =
    let here : sql_eq r.recipient_id o.recipient_id ≡ true =
      subst (λ v. sql_eq r.recipient_id v ≡ true) (same_value o.recipient_id k h) e in
    ground arith

pub discover_row-Stays :
    (fresh : String) (o : Observed) (expiration : Option ℤ) (now : ℤ)
    → InRange expiration
    → Respects Stays (discover_row fresh o expiration now)
unfolding discover_row
discover_row-Stays fresh o expiration now fits = record {
  at = λ d v. elim (Bool-cases (any (clashes fresh o) d.transfers)) [
    | inl clash ↦ rw clash v
    | inr free ↦ rw free (
        Valid-transfers d _
          (Unique-append has_id d.transfers _
            (λ k h.
              any_of_or (has_id k) (clashes fresh o) d.transfers (λ r e. clash_id fresh o k r h e)
                free)
            v.ids)
          (Unique-append has_idx d.transfers _
            (λ k h.
              any_of_or (has_idx k) (clashes fresh o) d.transfers (λ r e. clash_idx fresh o k r h e)
                free)
            v.idxs)
          (Unique-append has_recipient d.transfers _
            (λ k h.
              any_of_or (has_recipient k) (clashes fresh o) d.transfers
                (λ r e. clash_recipient fresh o k r h e) free)
            v.recipients)
          (All-append TransferOk d.transfers _ v.transfers_ok ((((o.status, refl), fits)), tt)) v)
  ];
}

pub fetch_transfer-Stays : (id : String) → Respects Stays (fetch_transfer id)
fetch_transfer-Stays id = read-Stays (fetch_transfer id) (fetched_same id)

bind_row-Stays :
    (fresh : String) (o : Observed) (expiration : Option ℤ) (now : ℤ) (existing : Option String)
    → InRange expiration
    → Respects Stays (bind_row fresh o expiration now existing)
unfolding bind_row
bind_row-Stays fresh o expiration now none fits =
    Respects-bind Stays-order _ _ (discover_row-Stays fresh o expiration now fits)
      (λ _. Respects-pure Stays-order fresh)
bind_row-Stays fresh o expiration now (some id) fits =
    Respects-bind Stays-order _ _ (refresh_row-Stays id o expiration now fits)
      (λ _. Respects-pure Stays-order id)

gets-Stays : {A : Type 0} (f : Db → A) → Respects {E = StoreError} Stays (gets f)
unfolding gets
gets-Stays f = record { at = λ d v. v }

pub upsert_observed-Stays :
    (fresh : String) (o : Observed) (now : ℤ) → Respects Stays (upsert_observed fresh o now)
unfolding upsert_observed
upsert_observed-Stays fresh o now = transaction-Stays (upsert_body fresh o now) (
    Respects-bind Stays-order _ _ (gets-Stays _) λ existing.
      Respects-convert Stays-order (ts_to_db o.expiration_timestamp) _ λ expiration read.
        Respects-bind Stays-order _ _
          (bind_row-Stays fresh o expiration now existing
            (ts_to_db-InRange o.expiration_timestamp expiration read))
          fetch_transfer-Stays)
