-- ===== src/Store/Transaction.antt =====
-- The SQLite transactions of store.rs: a transaction that ends without `commit` is rolled back.
use rln_companion.Base.{Result, ok, err, Exec}
use rln_companion.Store.Rows.{Db}
use rln_companion.Store.Types.{StoreError}

abbrev pub Query : Type 0 → Type 0
Query A = Exec Db StoreError A

abbrev pub settle_tx : {A : Type 0} → Db → Result StoreError A → Db → Result StoreError A × Db
settle_tx d (ok a) d' = (ok a, d')
settle_tx d (err e) d' = (err e, d)

-- `begin_with("BEGIN IMMEDIATE") … commit`: an error on the way drops the transaction.
unfoldable pub transaction : {A : Type 0} → Query A → Query A
transaction body d = let (r, d') = body d in settle_tx d r d'
