-- ===== src/Sync/Steps.antt =====
-- Each statement that a sync runs keeps what `Evolves` promises.
use rln_companion.Base.{
  String, ◌≡◌, refl, sym, inl, inr, not, ◌&&◌, Option, some, List, [], find, any, Bool-cases,
  Option-cases, ◌==◌, sql_eq, Eq_String, none, Result, pure, lift, gets, ◌>>=◌, ok, err,
}
use rln_companion.Base.Int.{ℤ, Eq_ℤ}
use rln_companion.Base.Respects.{Respects, Respects-pure, Respects-lift, Respects-bind}
use rln_companion.Store.Codec.{payment_status_to_str}
use rln_companion.Store.Rows.{TransferRow, PaymentRow, AssetRow, NodeRow, Db}
use rln_companion.Store.Transaction.{Query, transaction, settle_tx}
use rln_companion.Store.Transfers.{
  has_id, fetch_transfer, merged_row, same_recipient, insert_returning_id, insert_transfer,
}
use rln_companion.Store.Types.{NewTransfer, Observed, succeeded, StoreError, NodeState}
use rln_companion.Store.Upsert.{
  refreshed_row, refresh_row, clashes, discover_row, bind_row, upsert_body, upsert_observed,
}
use rln_companion.Sync.Evolve.{
  payment_status_at, Evolves, Evolves-refl, Keeps, Keeps-append, Keeps-update, Evolves-order,
}
use mathlib.Core.List.{append-nil}
use rln_companion.Store.Node.{
  set_node_state, upsert_assets, set_last_full_sync_at, set_payments_baseline_at,
}

abbrev KeepsPayments : List PaymentRow → List PaymentRow → Type 0
KeepsPayments rows rows' =
    (hash : String)
    → payment_status_at hash rows ≡ some (payment_status_to_str succeeded)
    → payment_status_at hash rows' ≡ some (payment_status_to_str succeeded)

-- A change of the transfers alone.
Evolves-transfers :
    (d : Db) (rows : List TransferRow)
    → Keeps d.transfers rows
    → Evolves d (record d { transfers = rows })
Evolves-transfers d rows h = record {
  transfers = h;
  payments = λ hash at. at;
  outbox = ([], sym (append-nil d.outbox));
}

Evolves-assets : (d : Db) (rows : List AssetRow) → Evolves d (record d { assets = rows })
Evolves-assets d rows = record {
  transfers = λ id s at. (s, at, inl refl);
  payments = λ hash at. at;
  outbox = ([], sym (append-nil d.outbox));
}

Evolves-node_state : (d : Db) (row : NodeRow) → Evolves d (record d { node_state = row })
Evolves-node_state d row = record {
  transfers = λ id s at. (s, at, inl refl);
  payments = λ hash at. at;
  outbox = ([], sym (append-nil d.outbox));
}

pub fetch_transfer-Evolves : (id : String) → Respects Evolves (fetch_transfer id)
unfolding fetch_transfer
fetch_transfer-Evolves id = record {
  at = λ d. elim (Option-cases (find (has_id id) d.transfers)) [
    | inl miss ↦ rw (miss, fetch_transfer) (Evolves-refl d)
    | inr (r, hit) ↦ rw (hit, fetch_transfer) (Evolves-refl d)
  ];
}

pub insert_returning_id-Evolves :
    (fresh : String) (t : NewTransfer) (expiration : Option ℤ) (now : ℤ)
    → Respects Evolves (insert_returning_id fresh t expiration now)
unfolding insert_returning_id
insert_returning_id-Evolves fresh t expiration now = record {
  at = λ d. elim (Bool-cases (any (has_id fresh) d.transfers)) [
    | inl taken ↦ rw taken (Evolves-refl d)
    | inr free ↦ elim (Option-cases (find (same_recipient t.recipient_id) d.transfers)) [
      | inl miss ↦ rw (free, miss) (Evolves-transfers d _ (Keeps-append d.transfers _))
      | inr (r, hit) ↦
          rw (free, hit)
            (Evolves-transfers d _ (
              Keeps-update (same_recipient t.recipient_id) (merged_row t expiration now) d.transfers
                (λ x. refl) (λ x p. inl refl)))
    ]
  ];
}

pub refresh_row-Evolves :
    (id : String) (o : Observed) (expiration : Option ℤ) (now : ℤ)
    → Respects Evolves (refresh_row id o expiration now)
unfolding refresh_row
refresh_row-Evolves id o expiration now = record {
  at = λ d.
      elim (Bool-cases
        (any (λ r. not (r.id == id) && sql_eq r.rln_idx (some o.rln_idx)) d.transfers)) [
          | inl clash ↦ rw clash (Evolves-refl d)
          | inr free ↦ rw free (
              Evolves-transfers d _ (
                Keeps-update (has_id id) (refreshed_row o expiration now) d.transfers (λ x. refl)
                  (λ x p. inl refl)))
        ];
}

pub discover_row-Evolves :
    (fresh : String) (o : Observed) (expiration : Option ℤ) (now : ℤ)
    → Respects Evolves (discover_row fresh o expiration now)
unfolding discover_row
discover_row-Evolves fresh o expiration now = record {
  at = λ d. elim (Bool-cases (any (clashes fresh o) d.transfers)) [
    | inl clash ↦ rw clash (Evolves-refl d)
    | inr free ↦ rw free (Evolves-transfers d _ (Keeps-append d.transfers _))
  ];
}

settle_tx-Evolves :
    {A : Type 0} (d d' : Db) (r : Result StoreError A)
    → Evolves d d'
    → Evolves d (settle_tx d r d').1
settle_tx-Evolves d d' (ok a) h = h
settle_tx-Evolves d d' (err e) h = Evolves-refl d

pub transaction-Evolves :
    {A : Type 0} (body : Query A) → Respects Evolves body → Respects Evolves (transaction body)
unfolding transaction
transaction-Evolves body h = record { at = λ d. settle_tx-Evolves d (body d).1 (body d).0 (h.at d) }

pub pure-Evolves : {A : Type 0} (a : A) → Respects {E = StoreError} Evolves (pure a)
pure-Evolves a = Respects-pure Evolves-order a

pub lift-Evolves : {A : Type 0} (r : Result StoreError A) → Respects Evolves (lift r)
lift-Evolves r = Respects-lift Evolves-order r

pub bind-Evolves :
    {A B : Type 0} (m : Query A) (f : A → Query B)
    → Respects Evolves m
    → ((a : A) → Respects Evolves (f a))
    → Respects Evolves (m >>= f)
bind-Evolves m f h k = Respects-bind Evolves-order m f h k

pub gets-Evolves : {A : Type 0} (f : Db → A) → Respects {E = StoreError} Evolves (gets f)
unfolding gets
gets-Evolves f = record { at = λ d. Evolves-refl d }

pub ruleset query_rules =
    (pure-Evolves, lift-Evolves, bind-Evolves, gets-Evolves, fetch_transfer-Evolves)

-- The row that the observation belongs to, or a new one.
bound-Evolves :
    (fresh : String) (o : Observed) (expiration : Option ℤ) (now : ℤ) (existing : Option String)
    → Respects Evolves (bind_row fresh o expiration now existing)
unfolding bind_row
bound-Evolves fresh o expiration now none = search (query_rules, discover_row-Evolves)
bound-Evolves fresh o expiration now (some id) = search (query_rules, refresh_row-Evolves)

pub upsert_observed-Evolves :
    (fresh : String) (o : Observed) (now : ℤ) → Respects Evolves (upsert_observed fresh o now)
unfolding upsert_observed
upsert_observed-Evolves fresh o now =
    transaction-Evolves (upsert_body fresh o now) (search (query_rules, bound-Evolves))

pub insert_transfer-Evolves :
    (fresh : String) (t : NewTransfer) (now : ℤ) → Respects Evolves (insert_transfer fresh t now)
unfolding insert_transfer
insert_transfer-Evolves fresh t now = search (query_rules, insert_returning_id-Evolves)

pub upsert_assets-Evolves :
    (found : List (String × String)) (now : ℤ) → Respects Evolves (upsert_assets found now)
unfolding upsert_assets
upsert_assets-Evolves found now = record { at = λ d. Evolves-assets d _ }

pub set_node_state-Evolves :
    (state : NodeState) (now : ℤ) → Respects Evolves (set_node_state state now)
unfolding set_node_state
set_node_state-Evolves state now = record { at = λ d. Evolves-node_state d _ }

pub set_last_full_sync_at-Evolves : (now : ℤ) → Respects Evolves (set_last_full_sync_at now)
unfolding set_last_full_sync_at
set_last_full_sync_at-Evolves now = record { at = λ d. Evolves-node_state d _ }

pub set_payments_baseline_at-Evolves : (now : ℤ) → Respects Evolves (set_payments_baseline_at now)
unfolding set_payments_baseline_at
set_payments_baseline_at-Evolves now = record { at = λ d. Evolves-node_state d _ }
