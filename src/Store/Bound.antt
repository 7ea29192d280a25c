-- ===== src/Store/Bound.antt =====
-- What `upsert_observed` returns: the row of its answer, as it now stands, bound to the observed index.
use rln_companion.Base.{
  String, ◌≡◌, sym, ◌∙◌, inl, inr, false, Option, none, some, List, [], ◌∷◌, ◌++◌, arith, eq_iff,
  find, any, update_rows, ok, Option-cases, refl, not, ◌&&◌, Result, continue, ◌>>=◌, err,
  Bool-cases, ◌==◌, sql_eq, Eq_String,
}
use rln_companion.Base.Int.{ℤ, Eq_ℤ}
use rln_companion.Base.Tables.{find-holds}
use rln_companion.Store.Codec.{transfer_try_from, ts_to_db}
use rln_companion.Store.Rows.{TransferRow, Db}
use rln_companion.Store.Transfers.{has_id, fetch_transfer}
use rln_companion.Store.Types.{Transfer, Observed, StoreError}
use rln_companion.Store.Upsert.{
  refreshed_row, discovered_row, clashes, bind_row, existing_id, upsert_body, upsert_observed,
}
use rln_companion.Store.Transaction.{settle_tx}

-- The database has the row of that answer, and the row is bound to the index.
abbrev pub Bound : ℤ → Transfer → List TransferRow → Type 0
Bound idx row rows =
    (r : TransferRow) × (find (has_id row.id) rows ≡ some r)
    × (transfer_try_from r ≡ ok row)
    × (r.rln_idx ≡ some idx)

-- Every row found under the id is bound to the index.
abbrev BoundAt : ℤ → String → List TransferRow → Type 0
BoundAt idx id rows = (r : TransferRow) → find (has_id id) rows ≡ some r → r.rln_idx ≡ some idx

pub id-transfer_try_from :
    (r : TransferRow) (row : Transfer) → transfer_try_from r ≡ ok row → r.id ≡ row.id
unfolding transfer_try_from
id-transfer_try_from r row h = ground arith

found_of_fetched :
    (id : String) (d : Db) (row : Transfer)
    → (fetch_transfer id d).0 ≡ ok row
    → (r : TransferRow) × (find (has_id id) d.transfers ≡ some r) × (transfer_try_from r ≡ ok row)
unfolding fetch_transfer
found_of_fetched id d row h = elim (Option-cases (find (has_id id) d.transfers)) [
  | inl miss ↦ cc (rw (miss, fetch_transfer) at h)
  | inr (r, hit) ↦ (r, hit, (rw (hit, fetch_transfer) at h))
]

pub fetched_same : (id : String) (d : Db) → (fetch_transfer id d).1 ≡ d
unfolding fetch_transfer
fetched_same id d = elim (Option-cases (find (has_id id) d.transfers)) [
  | inl miss ↦ rw (miss, fetch_transfer)
  | inr (r, hit) ↦ rw (hit, fetch_transfer)
]

fetched_Bound :
    (idx : ℤ) (id : String) (d : Db) (row : Transfer)
    → BoundAt idx id d.transfers
    → (fetch_transfer id d).0 ≡ ok row
    → Bound idx row (fetch_transfer id d).1.transfers
unfolding fetch_transfer
fetched_Bound idx id d row k h =
    let (r, hit, read) = found_of_fetched id d row h in
    let same : row.id ≡ id =
      sym (id-transfer_try_from r row read)
      ∙ (eq_iff r.id id).0 (find-holds (has_id id) d.transfers r hit) in
    (r, rw (fetched_same id d, same) hit, read, k r hit)

refreshed_BoundAt :
    (id : String) (o : Observed) (expiration : Option ℤ) (now : ℤ) (rows : List TransferRow)
    → BoundAt o.rln_idx id (update_rows (has_id id) (refreshed_row o expiration now) rows)
refreshed_BoundAt id o expiration now [] r h = cc
refreshed_BoundAt id o expiration now (x ∷ rows) r h =
    ground (arith, refreshed_BoundAt id o expiration now rows r)

discovered_BoundAt :
    (fresh : String) (o : Observed) (expiration : Option ℤ) (now : ℤ) (rows : List TransferRow)
    → any (clashes fresh o) rows ≡ false
    → BoundAt o.rln_idx fresh (rows ++ discovered_row fresh o expiration now ∷ [])
discovered_BoundAt fresh o expiration now [] free r h = ground arith
discovered_BoundAt fresh o expiration now (x ∷ rows) free r h =
    let rest : any (clashes fresh o) rows ≡ false = ground arith in
    ground (arith, discovered_BoundAt fresh o expiration now rows rest r)

bind_row-BoundAt :
    (fresh : String) (o : Observed) (expiration : Option ℤ) (now : ℤ) (existing : Option String)
    (d : Db) (id : String)
    → (bind_row fresh o expiration now existing d).0 ≡ ok id
    → BoundAt o.rln_idx id (bind_row fresh o expiration now existing d).1.transfers
unfolding bind_row
bind_row-BoundAt fresh o expiration now (some i) d id h =
    elim (Bool-cases
      (any (λ r. not (r.id == i) && sql_eq r.rln_idx (some o.rln_idx)) d.transfers)) [
        | inl clash ↦ cc (rw clash at h)
        | inr free ↦
            let same : i ≡ id = cc (rw free at h) in
            rw (free, sym same) (refreshed_BoundAt i o expiration now d.transfers)
      ]
bind_row-BoundAt fresh o expiration now none d id h =
    elim (Bool-cases (any (clashes fresh o) d.transfers)) [
      | inl clash ↦ cc (rw clash at h)
      | inr free ↦
          let same : fresh ≡ id = cc (rw free at h) in
          rw (free, sym same) (discovered_BoundAt fresh o expiration now d.transfers free)
    ]

-- A block whose value decides what is fetched.
fetch_after :
    (idx : ℤ) (r : Result StoreError String) (d : Db) (row : Transfer)
    → ((id : String) → r ≡ ok id → BoundAt idx id d.transfers)
    → (continue r fetch_transfer d).0 ≡ ok row
    → Bound idx row (continue r fetch_transfer d).1.transfers
fetch_after idx (ok id) d row k h = fetched_Bound idx id d row (k id refl) h
fetch_after idx (err e) d row k h = cc

bind_after :
    (fresh : String) (o : Observed) (now : ℤ) (existing : Option String)
    (expiration : Result StoreError (Option ℤ)) (d : Db) (row : Transfer)
    → (continue expiration (λ x. bind_row fresh o x now existing >>= fetch_transfer) d).0 ≡ ok row
    → Bound o.rln_idx row
        (continue expiration
          (λ x. bind_row fresh o x now existing >>= fetch_transfer)
          d).1.transfers
unfolding bind_row ◌>>=◌
bind_after fresh o now existing (ok x) d row h =
    fetch_after o.rln_idx (bind_row fresh o x now existing d).0
      (bind_row fresh o x now existing d).1 row
      (λ id e. bind_row-BoundAt fresh o x now existing d id e) h
bind_after fresh o now existing (err e) d row h = cc

settled_Bound :
    (idx : ℤ) (d d' : Db) (r : Result StoreError Transfer) (row : Transfer)
    → (r ≡ ok row → Bound idx row d'.transfers)
    → (settle_tx d r d').0 ≡ ok row
    → Bound idx row (settle_tx d r d').1.transfers
settled_Bound idx d d' (ok x) row k h = k h
settled_Bound idx d d' (err e) row k h = cc

-- When `upsert_observed` returns a row, the database has that row, and it is bound to the observed
-- index.
pub upsert_observed-Bound :
    (fresh : String) (o : Observed) (now : ℤ) (d : Db) (row : Transfer)
    → (upsert_observed fresh o now d).0 ≡ ok row
    → Bound o.rln_idx row (upsert_observed fresh o now d).1.transfers
unfolding upsert_observed
upsert_observed-Bound fresh o now d row h =
    settled_Bound o.rln_idx d (upsert_body fresh o now d).1 (upsert_body fresh o now d).0 row
      (λ e.
        bind_after fresh o now (existing_id o d.transfers) (ts_to_db o.expiration_timestamp) d row
          e)
      h
