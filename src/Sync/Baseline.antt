-- ===== src/Sync/Baseline.antt =====
-- Which payments are announced when they are first seen.
use rln_companion.Base.{
  ◌≡◌, Option, none, arith, find, ok, ◌+◌, refl, false, some, ℕ, ◌-◌, ◌^◌, ◌≤◌, Bool, true, List,
  [], ◌∷◌, ◌++◌, eq_iff, leb,
}
use rln_companion.Base.Int.{ℤ, i64_max, pos}
use rln_companion.Store.Names.{
  payment_status_from_str-payment_status_to_str, direction_from_str-direction_to_str,
}
use rln_companion.Store.Payments.{has_hash, upsert_payment, payment_row, insert_payment_row}
use rln_companion.Store.Rows.{Db, PaymentRow}
use rln_companion.Store.Types.{PaymentStatus, Payment, NewPayment}
use rln_companion.Sync.Plan.{plan_payment_transition}
use rln_companion.Rln.Api.{RlnApi}
use rln_companion.Rln.Types.{RlnPayment}
use rln_companion.Sync.Apply.{apply_payment_observed}
use rln_companion.Sync.Run.{PaymentSyncReport, observed_payment, observe_payment}
use rln_companion.World.{World, Env}
use rln_companion.Store.Codec.{
  payment_status_to_str, transpose_map, u64_from_i64, amt_to_db, payment_try_from,
}
use rln_companion.Tests.Sample.{seen}

-- A payment observed at the status that its row has is not moved.
pub plan_same :
    (row : Payment) (observed : PaymentStatus)
    → row.status ≡ observed
    → plan_payment_transition row observed ≡ none
unfolding plan_payment_transition
plan_same row observed h = ground arith

pub find-last :
    (q : PaymentRow → Bool) (rows : List PaymentRow) (r : PaymentRow)
    → find q rows ≡ none
    → q r ≡ true
    → find q (rows ++ r ∷ []) ≡ some r
find-last q [] r miss h = rw h
find-last q (x ∷ rows) r miss h = ground (arith, find-last q rows r)

-- An amount that the database can hold.
abbrev pub Fits : Option ℕ → Type 0
Fits none = Unit
Fits (some n) = n ≤ 2 ^ 63 - 1

-- Such an amount is stored, and reads back as itself.
stored_amount :
    (v : Option ℕ)
    → Fits v
    → (a : Option ℤ) × (amt_to_db v ≡ ok a) × (transpose_map u64_from_i64 a ≡ ok v)
unfolding amt_to_db
stored_amount none h = (none, refl, refl)
stored_amount (some n) h =
    let small : leb n i64_max ≡ true = ground arith in (some (pos n), rw small refl, refl)

-- What `upsert_payment` does for a hash that is not stored and amounts that can be: the row is new,
-- and comes back as it was given.
upsert_new :
    (p : NewPayment) (seen : Option ℤ) (now : ℤ) (d : Db)
    → find (has_hash p.payment_hash) d.payments ≡ none
    → Fits p.asset_amount
    → Fits p.amt_msat
    → (row : Payment) × (stored : PaymentRow) × (row.status ≡ p.status)
      × (stored.status ≡ payment_status_to_str p.status)
      × (find (has_hash p.payment_hash) (d.payments ++ stored ∷ []) ≡ some stored)
      × (upsert_payment p seen now d ≡ (ok row, record d { payments = d.payments ++ stored ∷ [] }))
unfolding upsert_payment insert_payment_row payment_try_from
upsert_new p seen now d miss fits_asset fits_msat =
    let (a, ea, ra) = stored_amount p.asset_amount fits_asset in
    let (b, eb, rb) = stored_amount p.amt_msat fits_msat in
    let stored = payment_row p a b seen now in
    (
      record {
        payment_hash = p.payment_hash;
        direction = p.direction;
        status = p.status;
        asset_id = p.asset_id;
        asset_amount = p.asset_amount;
        amt_msat = p.amt_msat;
        payee_pubkey = p.payee_pubkey;
        created_at = now;
        updated_at = now;
        last_seen_at = seen;
      },
      stored,
      refl,
      refl,
      find-last (has_hash p.payment_hash) d.payments stored miss
          ((eq_iff p.payment_hash p.payment_hash).1 refl),
      rw
          (
            ea,
            eb,
            miss,
            direction_from_str-direction_to_str p.direction,
            payment_status_from_str-payment_status_to_str p.status,
            ra,
            rb,
          )
          refl,
    )

module _ {N : Type 0} (env : Env) (node : RlnApi N) where
  apply_same :
      (row : Payment) (observed : PaymentStatus) (now : ℤ) (w : World N)
      → row.status ≡ observed
      → apply_payment_observed env row observed now w ≡ (ok false, w)
  unfolding apply_payment_observed
  apply_same row observed now w h = rw (plan_same row observed h)

  -- Before the baseline, a payment that is not stored yet, and whose amounts the database can hold, is
  -- mirrored at its status, whatever that is, and no event is queued: its observation returns, counts
  -- the payment and no transition, leaves a row of its hash at that status, and the queue as it was.
  pub observe_payment_silent :
      (report : PaymentSyncReport) (p : RlnPayment) (now : ℤ) (w : World N)
      → find (has_hash p.payment_hash) w.db.payments ≡ none
      → Fits p.asset_amount
      → Fits p.amt_msat
      → ((observe_payment env node none report p now w).0
          ≡ ok (record { payments = report.payments + 1; transitions = report.transitions }))
        × ((stored : PaymentRow) × (find
                (has_hash p.payment_hash)
                (observe_payment env node none report p now w).1.db.payments
              ≡ some stored)
            × (stored.status ≡ payment_status_to_str p.status))
        × ((observe_payment env node none report p now w).1.db.outbox ≡ w.db.outbox)
  unfolding observe_payment
  observe_payment_silent report p now w miss fits_asset fits_msat =
      let q = observed_payment none p in
      let (row, kept_row, same, status, hit, went) =
        upsert_new q (some now) now w.db miss fits_asset fits_msat in
      let quiet =
        apply_same row p.status now
          (record w { db = record w.db { payments = w.db.payments ++ kept_row ∷ [] } }) same in
      (rw (went, quiet) refl, (kept_row, rw (went, quiet) hit, status), rw (went, quiet) refl)
