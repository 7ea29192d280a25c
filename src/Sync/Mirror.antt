-- ===== src/Sync/Mirror.antt =====
-- An observation that goes through is in the mirror: a row bound to the index, at the observed status
-- or one that the code does not take back.
use rln_companion.Base.{
  ◌≤◌, String, ◌≡◌, refl, true, none, some, List, arith, eq_iff, find, update_rows, ok, ap, inl,
  inr, [], ◌∷◌, Bool-cases, ◌==◌, ◌<◌, Bool, false, Option, any, Result, continue, map_err, err,
  ◌+◌, ◌||◌, pure, ◌>>=◌, leb, Eq_String,
}
use rln_companion.Base.Int.{ℤ}
use rln_companion.Base.Tables.{find-update_rows, find-holds}
use rln_companion.Store.Bound.{Bound, upsert_observed-Bound}
use rln_companion.Store.Codec.{status_to_str, transfer_try_from}
use rln_companion.Store.Rows.{TransferRow, Db}
use rln_companion.Store.Transfers.{has_id}
use rln_companion.Store.Types.{TransferStatus, Transfer, StoreError, terminal}
use rln_companion.Store.Upsert.{stands_at, moved_row, apply_transition, upsert_observed}
use rln_companion.Sync.Plan.{rank, plan_transition, Transition, event_of}
use rln_companion.World.{Env, World, SyncError, on_db}
use rln_companion.Rln.Api.{RlnApi}
use rln_companion.Store.Atomic.{moved_db, apply_transition_lem}
use rln_companion.Store.Equality.{status_eq_iff, Eq_TransferStatus}
use rln_companion.Store.Outbox.{Event}
use rln_companion.Sync.Apply.{apply_observed, event_row}
use rln_companion.Rln.Types.{RlnTransfer}
use rln_companion.Sync.Run.{SyncReport, counted, observe, observed_of}
use rln_companion.Store.Names.{status_to_str-status_from_str}

status-transfer_try_from :
    (r : TransferRow) (row : Transfer)
    → transfer_try_from r ≡ ok row
    → r.status ≡ status_to_str row.status
unfolding transfer_try_from
status-transfer_try_from r row h = ground (arith, status_to_str-status_from_str r.status row.status)

-- A row that is bound to the index and stands at the observed status or at one of at least its rank.
pub record Mirrored (idx : ℤ) (observed : TransferStatus) (rows : List TransferRow) : Type 0 where
  pub id : String
  pub row : TransferRow
  pub here : find (has_id id) rows ≡ some row
  pub bound : row.rln_idx ≡ some idx
  pub status : TransferStatus
  pub text : row.status ≡ status_to_str status
  pub reached : rank observed ≤ rank status

-- A row that is as far as the observation, or does not move.
unmoved :
    (idx : ℤ) (row : Transfer) (observed : TransferStatus) (rows : List TransferRow)
    → Bound idx row rows
    → plan_transition row observed ≡ none
    → Mirrored idx observed rows
unfolding plan_transition
unmoved idx row observed rows (r, hit, read, bound) stays = record {
  id = row.id;
  row = r;
  here = hit;
  bound = bound;
  status = row.status;
  text = status-transfer_try_from r row read;
  reached = ground arith;
}

-- A row that the transition has moved.
moved :
    (idx : ℤ) (row : Transfer) (to : TransferStatus) (now : ℤ) (rows : List TransferRow)
    → Bound idx row rows
    → Mirrored idx to (update_rows (stands_at row.id row.status) (moved_row to now) rows)
moved idx row to now rows (r, hit, read, bound) =
    let after =
      find-update_rows (has_id row.id) (stands_at row.id row.status) (moved_row to now) rows
        (λ x. refl) in
    let stands : stands_at row.id row.status r ≡ true = ground (
      arith,
      find-holds (has_id row.id) rows r hit,
      (eq_iff r.status (status_to_str row.status)).1 (status-transfer_try_from r row read),
    ) in
    record {
      id = row.id;
      row = moved_row to now r;
      here = rw (after, hit, stands);
      bound = bound;
      status = to;
      text = refl;
      reached = omega arith;
    }

any_of_found :
    (q p : TransferRow → Bool) (rows : List TransferRow) (r : TransferRow)
    → find q rows ≡ some r
    → p r ≡ true
    → any p rows ≡ true
any_of_found q p [] r hit h = cc
any_of_found q p (x ∷ rows) r hit h = ground (arith, any_of_found q p rows r)

-- A transition of a row that stands there goes through, unless it fails.
goes_through :
    (id : String) (from to : TransferStatus) (event : Option Event) (now : ℤ) (d : Db) (m : Bool)
    → (from == to) ≡ false
    → any (stands_at id from) d.transfers ≡ true
    → (apply_transition id from to event now d).0 ≡ ok m
    → (apply_transition id from to event now d).1 ≡ moved_db id from to event now d
goes_through id from to event now d m differ stands h =
    ground (arith, apply_transition_lem id from to event now d)

planned_differ :
    (row : Transfer) (observed : TransferStatus)
    → rank row.status < rank observed
    → (row.status == observed) ≡ false
planned_differ row observed less = elim (Bool-cases (row.status == observed)) [
  | inl same ↦ absurd (omega (arith, ap rank ((status_eq_iff row.status observed).0 same)))
  | inr differ ↦ differ
]

stands_of_Bound :
    (idx : ℤ) (row : Transfer) (rows : List TransferRow)
    → Bound idx row rows
    → any (stands_at row.id row.status) rows ≡ true
stands_of_Bound idx row rows (r, hit, read, bound) =
    any_of_found (has_id row.id) (stands_at row.id row.status) rows r hit (
      ground (
        arith,
        find-holds (has_id row.id) rows r hit,
        (eq_iff r.status (status_to_str row.status)).1 (status-transfer_try_from r row read),
      ))

pub ok_of_map_err :
    {E F A : Type 0} (f : E → F) (r : Result E A) (a : A) → map_err f r ≡ ok a → r ≡ ok a
unfolding map_err
ok_of_map_err f (ok x) a h = cc
ok_of_map_err f (err e) a h = cc

module _ {N : Type 0} (env : Env) (node : RlnApi N) where
  transition_Mirrored :
      (idx : ℤ) (row : Transfer) (observed : TransferStatus) (now : ℤ) (w : World N) (m : Bool)
      (event : Result SyncError (Option Event))
      → rank row.status < rank observed
      → Bound idx row w.db.transfers
      → (continue event
          (λ e. on_db SyncError.store (apply_transition row.id row.status observed e now))
          w).0
        ≡ ok m
      → Mirrored idx observed
          (continue event
            (λ e. on_db SyncError.store (apply_transition row.id row.status observed e now))
            w).1.db.transfers
  unfolding on_db
  transition_Mirrored idx row observed now w m (err e) less bound h = cc
  transition_Mirrored idx row observed now w m (ok e) less bound h =
      let went =
        goes_through row.id row.status observed e now w.db m (planned_differ row observed less)
          (stands_of_Bound idx row w.db.transfers bound)
          (ok_of_map_err SyncError.store (apply_transition row.id row.status observed e now w.db).0
            m h) in
      rw went (moved idx row observed now w.db.transfers bound)

  apply_observed-Mirrored :
      (idx : ℤ) (row : Transfer) (observed : TransferStatus) (now : ℤ) (w : World N) (m : Bool)
      → Bound idx row w.db.transfers
      → (apply_observed env row observed now w).0 ≡ ok m
      → Mirrored idx observed (apply_observed env row observed now w).1.db.transfers
  unfolding apply_observed
  apply_observed-Mirrored idx row observed now w m bound h =
      elim (Bool-cases (terminal row.status || leb (rank observed) (rank row.status))) [
        | inl stays ↦
            rw stays (unmoved idx row observed w.db.transfers bound (rw (plan_transition, stays)))
        | inr moves ↦
            let tr : Transition = record {
              transfer_id = row.id;
              from = row.status;
              to = observed;
              event = event_of observed;
            } in
            let drew : World N = record w { drawn = w.drawn + 1 } in
            rw moves (
              transition_Mirrored idx row observed now drew m
                (event_row env (env.uuid w.drawn) row tr now) (ground arith) bound (rw moves at h))
      ]

  -- What holds once a value has been computed holds after the report is returned.
  pub reported :
      {A : Type 0} (P : World N → Type 0) (r : Result SyncError Bool) (f : Bool → A) (w : World N)
      (a : A)
      → ((m : Bool) → r ≡ ok m → P w)
      → (continue r (λ m. pure (f m)) w).0 ≡ ok a
      → P (continue r (λ m. pure (f m)) w).1
  unfolding pure
  reported P (ok m) f w a k h = k m refl
  reported P (err e) f w a k h = cc

  -- A transfer whose observation goes through is in the mirror: a row with its index, whose status is
  -- the observed one or has at least its rank.
  pub observe-Mirrored :
      (report report' : SyncReport) (asset_id : Option String) (t : RlnTransfer) (now : ℤ)
      (w : World N)
      → (observe env node report asset_id t now w).0 ≡ ok report'
      → Mirrored t.idx t.status (observe env node report asset_id t now w).1.db.transfers
  unfolding observe
  observe-Mirrored report report' asset_id t now w h =
      let o = observed_of asset_id t in
      let upserted = upsert_observed (env.uuid w.drawn) o now w.db in
      go upserted.0 (record w { db = upserted.1; drawn = w.drawn + 1 })
        (λ row e. upsert_observed-Bound (env.uuid w.drawn) o now w.db row e) h
    where
      go :
          (r : Result StoreError Transfer) (w' : World N)
          → ((row : Transfer) → r ≡ ok row → Bound t.idx row w'.db.transfers)
          → (continue
              (map_err SyncError.store r)
              (λ row. apply_observed env row t.status now >>= λ moved. pure (record report {
                transfers = report.transfers + 1;
                transitions = counted moved report.transitions;
              }))
              w').0
            ≡ ok report'
          → Mirrored t.idx t.status
              (continue
                (map_err SyncError.store r)
                (λ row. apply_observed env row t.status now >>= λ moved. pure (record report {
                  transfers = report.transfers + 1;
                  transitions = counted moved report.transitions;
                }))
                w').1.db.transfers
      go (err e) w' k h = cc
      go (ok row) w' k h =
          reported (λ x. Mirrored t.idx t.status x.db.transfers)
            (apply_observed env row t.status now w').0 _ (apply_observed env row t.status now w').1
            report' (λ m e. apply_observed-Mirrored t.idx row t.status now w' m (k row refl) e) h
