-- ===== src/Sync/MirrorPayment.antt =====
-- An observation of a payment that goes through is in the mirror.
use rln_companion.Base.{
  ◌≤◌, String, ◌≡◌, refl, Bool, true, Option, none, some, List, [], ◌∷◌, arith, eq_iff, find,
  Result, ok, err, sym, ◌∙◌, false, any, update_rows, ◌==◌, ◌+◌, inl, inr, continue, Bool-cases,
  pure, ◌>>=◌, map_err,
}
use rln_companion.Base.Int.{ℤ}
use rln_companion.Base.Tables.{find-update_rows, find-holds}
use rln_companion.Store.Codec.{payment_status_to_str, amt_to_db, payment_try_from}
use rln_companion.Store.Payments.{
  has_hash, payment_row, merged_payment, insert_payment_row, upsert_payment, payment_stands_at,
  moved_payment, apply_payment_transition,
}
use rln_companion.Store.Rows.{PaymentRow, Db}
use rln_companion.Store.Types.{PaymentStatus, Payment, NewPayment, StoreError, payment_terminal}
use rln_companion.Sync.Mirror.{ok_of_map_err, reported}
use rln_companion.Store.Names.{payment_status_to_str-payment_status_from_str}
use rln_companion.Sync.Plan.{payment_rank, plan_payment_transition, PaymentTransition}
use rln_companion.Store.AtomicPayment.{moved_payment_db, apply_payment_transition_lem}
use rln_companion.Store.Outbox.{Event}
use rln_companion.Store.Equality.{Eq_PaymentStatus, payment_eq_iff}
use rln_companion.Rln.Api.{RlnApi}
use rln_companion.Sync.Apply.{apply_payment_observed}
use rln_companion.Sync.Baseline.{plan_same, find-last}
use rln_companion.Sync.Plan.Laws.{plan_payment_transition_lem}
use rln_companion.World.{World, Env, SyncError, on_db}
use rln_companion.Rln.Types.{RlnPayment}
use rln_companion.Sync.Run.{PaymentSyncReport, counted, observed_payment, observe_payment}

-- A row of the payment that stands at the observed status or at one of at least its rank.
pub record PaymentMirrored (hash : String) (observed : PaymentStatus) (rows : List PaymentRow)
    : Type 0 where
  pub row : PaymentRow
  pub here : find (has_hash hash) rows ≡ some row
  pub status : PaymentStatus
  pub text : row.status ≡ payment_status_to_str status
  pub reached : payment_rank observed ≤ payment_rank status

-- The row that a payment has been read from.
PaymentFound : Payment → List PaymentRow → Type 0
PaymentFound row rows =
    (r : PaymentRow) × (find (has_hash row.payment_hash) rows ≡ some r)
    × (payment_try_from r ≡ ok row)

status-payment_try_from :
    (r : PaymentRow) (row : Payment)
    → payment_try_from r ≡ ok row
    → (r.status ≡ payment_status_to_str row.status) × (r.payment_hash ≡ row.payment_hash)
unfolding payment_try_from
status-payment_try_from r row h =
    ground (arith, payment_status_to_str-payment_status_from_str r.status row.status)

-- The row that `RETURNING` gives back is the one of that hash.
returned :
    (row : PaymentRow) (d : Db)
    → (r : PaymentRow) × ((insert_payment_row row d).0 ≡ ok r)
      × (find (has_hash row.payment_hash) (insert_payment_row row d).1.payments ≡ some r)
unfolding insert_payment_row
returned row d = go (find (has_hash row.payment_hash) d.payments) refl
  where
    go :
        (o : Option PaymentRow)
        → find (has_hash row.payment_hash) d.payments ≡ o
        → (r : PaymentRow) × ((insert_payment_row row d).0 ≡ ok r)
          × (find (has_hash row.payment_hash) (insert_payment_row row d).1.payments ≡ some r)
    go none miss = (
      row,
      rw (insert_payment_row, miss) refl,
      rw (insert_payment_row, miss)
          (find-last (has_hash row.payment_hash) d.payments row miss
            ((eq_iff row.payment_hash row.payment_hash).1 refl)),
    )
    go (some r) hit =
        let after =
          find-update_rows (has_hash row.payment_hash) (has_hash row.payment_hash)
            (merged_payment row) d.payments (λ x. refl) in
        let there = find-holds (has_hash row.payment_hash) d.payments r hit in
        (
          merged_payment row r,
          rw (insert_payment_row, hit) refl,
          rw (insert_payment_row, hit) (rw (after, hit, there) refl),
        )

upsert_payment-Found :
    (p : NewPayment) (seen : Option ℤ) (now : ℤ) (d : Db) (row : Payment)
    → (upsert_payment p seen now d).0 ≡ ok row
    → PaymentFound row (upsert_payment p seen now d).1.payments
      × (row.payment_hash ≡ p.payment_hash)
unfolding upsert_payment PaymentFound
upsert_payment-Found p seen now d row h =
    go (amt_to_db p.asset_amount) (amt_to_db p.amt_msat) refl refl
  where
    go :
        (a b : Result StoreError (Option ℤ))
        → amt_to_db p.asset_amount ≡ a
        → amt_to_db p.amt_msat ≡ b
        → PaymentFound row (upsert_payment p seen now d).1.payments
          × (row.payment_hash ≡ p.payment_hash)
    go (err e) b ea eb = cc (rw ea at h)
    go (ok a) (err e) ea eb = cc (rw (ea, eb) at h)
    go (ok a) (ok b) ea eb =
        let (r, out, here) = returned (payment_row p a b seen now) d in
        let read : payment_try_from r ≡ ok row = rw (upsert_payment, ea, eb, out) at h in
        let same = (status-payment_try_from r row read).1 in
        let at_hash : r.payment_hash ≡ p.payment_hash =
          (eq_iff r.payment_hash p.payment_hash).0
            (find-holds (has_hash p.payment_hash) _ r here) in
        let key : row.payment_hash ≡ p.payment_hash = sym same ∙ at_hash in
        (rw (upsert_payment, ea, eb, out) (r, rw key here, read), key)

payment_rank_bound : (s : PaymentStatus) → payment_rank s ≤ 3
unfolding payment_rank
payment_rank_bound s = ground arith

payment_rank_terminal : (s : PaymentStatus) → payment_terminal s ≡ true → payment_rank s ≡ 3
unfolding payment_rank payment_terminal
payment_rank_terminal s h = ground arith

far_enough :
    (row : Payment) (observed : PaymentStatus)
    → plan_payment_transition row observed ≡ none
    → payment_rank observed ≤ payment_rank row.status
unfolding plan_payment_transition
far_enough row observed stays =
    ground (arith, payment_rank_bound observed, payment_rank_terminal row.status)

-- A planned transition leads to another status.
planned_elsewhere :
    (row : Payment) (observed : PaymentStatus) (tr : PaymentTransition)
    → plan_payment_transition row observed ≡ some tr
    → (row.status == observed) ≡ false
planned_elsewhere row observed tr h = elim (Bool-cases (row.status == observed)) [
  | inl same ↦
      absurd (cc (sym h ∙ plan_same row observed ((payment_eq_iff row.status observed).0 same)))
  | inr differ ↦ differ
]

-- A payment that the plan leaves alone is as far as the observation.
stays_put :
    (row : Payment) (observed : PaymentStatus) (rows : List PaymentRow)
    → PaymentFound row rows
    → plan_payment_transition row observed ≡ none
    → PaymentMirrored row.payment_hash observed rows
unfolding PaymentFound
stays_put row observed rows (r, hit, read) stays = record {
  row = r;
  here = hit;
  status = row.status;
  text = (status-payment_try_from r row read).0;
  reached = far_enough row observed stays;
}

-- A payment that the transition has moved.
moved_on :
    (row : Payment) (to : PaymentStatus) (now : ℤ) (rows : List PaymentRow)
    → PaymentFound row rows
    → PaymentMirrored row.payment_hash to
        (update_rows (payment_stands_at row.payment_hash row.status) (moved_payment to now) rows)
unfolding PaymentFound
moved_on row to now rows (r, hit, read) =
    let after =
      find-update_rows (has_hash row.payment_hash) (payment_stands_at row.payment_hash row.status)
        (moved_payment to now) rows (λ x. refl) in
    let stands : payment_stands_at row.payment_hash row.status r ≡ true = ground (
      arith,
      find-holds (has_hash row.payment_hash) rows r hit,
      (eq_iff r.status (payment_status_to_str row.status)).1 (status-payment_try_from r row read).0,
    ) in
    record {
      row = moved_payment to now r;
      here = rw (after, hit, stands) refl;
      status = to;
      text = refl;
      reached = omega arith;
    }

any_of_found_payment :
    (q p : PaymentRow → Bool) (rows : List PaymentRow) (r : PaymentRow)
    → find q rows ≡ some r
    → p r ≡ true
    → any p rows ≡ true
any_of_found_payment q p [] r hit h = cc
any_of_found_payment q p (x ∷ rows) r hit h = ground (arith, any_of_found_payment q p rows r)

payment_goes_through :
    (row : Payment) (to : PaymentStatus) (event : Option Event) (now : ℤ) (d : Db) (m : Bool)
    → (row.status == to) ≡ false
    → PaymentFound row d.payments
    → (apply_payment_transition row.payment_hash row.status to event now d).0 ≡ ok m
    → (apply_payment_transition row.payment_hash row.status to event now d).1
      ≡ moved_payment_db row.payment_hash row.status to event now d
unfolding PaymentFound
payment_goes_through row to event now d m differ (r, hit, read) h =
    let stands : any (payment_stands_at row.payment_hash row.status) d.payments ≡ true =
      any_of_found_payment (has_hash row.payment_hash) _ d.payments r hit (
        ground (
          arith,
          find-holds (has_hash row.payment_hash) d.payments r hit,
          (eq_iff r.status (payment_status_to_str row.status)).1
              (status-payment_try_from r row read).0,
        )) in
    ground (arith, apply_payment_transition_lem row.payment_hash row.status to event now d)

module _ {N : Type 0} (env : Env) (node : RlnApi N) where
  carried_out :
      (row : Payment) (observed : PaymentStatus) (now : ℤ) (w : World N) (m : Bool)
      (event : Result SyncError (Option Event))
      → (row.status == observed) ≡ false
      → PaymentFound row w.db.payments
      → (continue event
          (λ e.
            on_db SyncError.store
              (apply_payment_transition row.payment_hash row.status observed e now))
          w).0
        ≡ ok m
      → PaymentMirrored row.payment_hash observed
          (continue event
            (λ e.
              on_db SyncError.store
                (apply_payment_transition row.payment_hash row.status observed e now))
            w).1.db.payments
  unfolding on_db
  carried_out row observed now w m (err e) differ found h = cc
  carried_out row observed now w m (ok e) differ found h =
      let went = payment_goes_through row observed e now w.db m differ found (
        ok_of_map_err SyncError.store
          (apply_payment_transition row.payment_hash row.status observed e now w.db).0 m h) in
      rw went (moved_on row observed now w.db.payments found)

  apply_payment_observed-PaymentMirrored :
      (row : Payment) (observed : PaymentStatus) (now : ℤ) (w : World N) (m : Bool)
      → PaymentFound row w.db.payments
      → (apply_payment_observed env row observed now w).0 ≡ ok m
      → PaymentMirrored row.payment_hash observed
          (apply_payment_observed env row observed now w).1.db.payments
  unfolding apply_payment_observed
  apply_payment_observed-PaymentMirrored row observed now w m found h =
      go (plan_payment_transition row observed) refl
    where
      go :
          (o : Option PaymentTransition)
          → plan_payment_transition row observed ≡ o
          → PaymentMirrored row.payment_hash observed
              (apply_payment_observed env row observed now w).1.db.payments
      go none stays = rw stays (stays_put row observed w.db.payments found stays)
      go (some planned) moves =
          let (hash, from, to, rest) = (plan_payment_transition_lem row observed planned).0 moves in
          rw (moves, hash, from, to)
            (carried_out row observed now (record w { drawn = w.drawn + 1 }) m _
              (planned_elsewhere row observed planned moves) found
              (rw (moves, hash, from, to) at h))

  -- A payment whose observation goes through is in the mirror: the row of its hash is at the observed
  -- status or at one of at least its rank.
  pub observe_payment-PaymentMirrored :
      (baseline : Option ℤ) (report report' : PaymentSyncReport) (p : RlnPayment) (now : ℤ)
      (w : World N)
      → (observe_payment env node baseline report p now w).0 ≡ ok report'
      → PaymentMirrored p.payment_hash p.status
          (observe_payment env node baseline report p now w).1.db.payments
  unfolding observe_payment
  observe_payment-PaymentMirrored baseline report report' p now w h =
      let q = observed_payment baseline p in
      let upserted = upsert_payment q (some now) now w.db in
      go upserted.0 (record w { db = upserted.1 })
        (λ row e. upsert_payment-Found q (some now) now w.db row e) h
    where
      go :
          (r : Result StoreError Payment) (w' : World N)
          → ((row : Payment)
              → r ≡ ok row
              → PaymentFound row w'.db.payments × (row.payment_hash ≡ p.payment_hash))
          → (continue {B = PaymentSyncReport}
              (map_err SyncError.store r)
              (λ row. apply_payment_observed env row p.status now >>= λ moved. pure (record {
                payments = report.payments + 1;
                transitions = counted moved report.transitions;
              }))
              w').0
            ≡ ok report'
          → PaymentMirrored p.payment_hash p.status
              (continue {B = PaymentSyncReport}
                (map_err SyncError.store r)
                (λ row. apply_payment_observed env row p.status now >>= λ moved. pure (record {
                  payments = report.payments + 1;
                  transitions = counted moved report.transitions;
                }))
                w').1.db.payments
      go (err e) w' k h = cc
      go (ok row) w' k h =
          let (found, same) = k row refl in
          reported env node (λ x. PaymentMirrored p.payment_hash p.status x.db.payments)
            (apply_payment_observed env row p.status now w').0 _
            (apply_payment_observed env row p.status now w').1 report'
            (λ m e.
              rw (sym same) (apply_payment_observed-PaymentMirrored row p.status now w' m found e))
            h
