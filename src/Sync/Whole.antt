-- ===== src/Sync/Whole.antt =====
-- The syncs of sync.rs as a whole keep what `Evolves` promises.
use rln_companion.Base.{ℕ, String, refl, Bool, true, false, Option, none, some, List, [], ◌∷◌}
use rln_companion.Base.Int.{ℤ}
use rln_companion.Base.Respects.{Respects}
use rln_companion.Rln.Api.{RlnApi}
use rln_companion.Rln.Types.{RlnTransfer, RlnPayment}
use rln_companion.Store.Node.{payments_baseline_at}
use rln_companion.Store.Payments.{upsert_payment_observed}
use rln_companion.Store.Transfers.{pending_asset_ids}
use rln_companion.Sync.Evolve.{Evolves}
use rln_companion.Sync.Forward.{
  Forward, bind-Forward, read-Forward, forward_rules, apply_observed-Forward,
  apply_payment_observed-Forward,
}
use rln_companion.Sync.Run.{
  sync, Scope, SyncReport, PaymentSyncReport, SyncConfig, fetch_assets, observe, observe_each,
  sync_each, scope_ids, sync_assetless, observe_payment, observe_payments, close_baseline,
  sync_payments, full, assets,
}
use rln_companion.World.{World, Env, SyncError, on_db}
use rln_companion.Sync.Statements.{
  upsert_observed-Statements, upsert_payment-Statements, upsert_assets-Statements,
  set_payments_baseline_at-Statements, Statements-Progress,
}

ruleset sync_rules = (
  forward_rules, apply_observed-Forward, apply_payment_observed-Forward, upsert_observed-Statements,
  upsert_assets-Statements, upsert_payment-Statements, set_payments_baseline_at-Statements,
)

module _ {N : Type 0} (env : Env) (node : RlnApi N) where
  pub fetch_assets-Forward : (now : ℤ) → Respects Forward (fetch_assets env node now)
  unfolding fetch_assets
  fetch_assets-Forward now = search sync_rules

  pub observe-Forward :
      (report : SyncReport) (asset_id : Option String) (t : RlnTransfer) (now : ℤ)
      → Respects Forward (observe env node report asset_id t now)
  unfolding observe
  observe-Forward report asset_id t now = search sync_rules

  pub observe_each-Forward :
      (asset_id : Option String) (ts : List RlnTransfer) (report : SyncReport) (now : ℤ)
      → Respects Forward (observe_each env node asset_id ts report now)
  unfolding observe_each
  observe_each-Forward asset_id [] report now = search sync_rules
  observe_each-Forward asset_id (t ∷ ts) report now =
      bind-Forward _ _ (observe-Forward report asset_id t now)
        (λ report'. observe_each-Forward asset_id ts report' now)

  pub sync_each-Forward :
      (page_size : ℕ) (ids : List String) (report : SyncReport) (now : ℤ)
      → Respects Forward (sync_each env node page_size ids report now)
  unfolding sync_each
  sync_each-Forward page_size [] report now = search sync_rules
  sync_each-Forward page_size (id ∷ ids) report now =
      let rest = λ (report' : SyncReport). sync_each-Forward page_size ids report' now in
      search (sync_rules, observe_each-Forward, rest)

  pending_ids-Forward : Respects (Forward {N = N}) (on_db SyncError.store pending_asset_ids)
  unfolding pending_asset_ids
  pending_ids-Forward = read-Forward _ pending_asset_ids (λ d. refl)

  pub scope_ids-Forward :
      (scope : Scope) (now : ℤ) → Respects Forward (scope_ids env node scope now)
  unfolding scope_ids
  scope_ids-Forward full now = search (sync_rules, fetch_assets-Forward)
  scope_ids-Forward (assets ids) now = search sync_rules
  scope_ids-Forward Scope.pending now =
      search (forward_rules, pending_ids-Forward, fetch_assets-Forward)

  pub sync_assetless-Forward :
      (assetless : Bool) (page_size : ℕ) (report : SyncReport) (now : ℤ)
      → Respects Forward (sync_assetless env node assetless page_size report now)
  unfolding sync_assetless
  sync_assetless-Forward false page_size report now = search sync_rules
  sync_assetless-Forward true page_size report now = search (sync_rules, observe_each-Forward)

  pub sync-Respects :
      (cfg : SyncConfig) (scope : Scope) (now : ℤ) → Respects Forward (sync env node cfg scope now)
  unfolding sync
  sync-Respects cfg scope now =
      search (forward_rules, scope_ids-Forward, sync_assetless-Forward, sync_each-Forward)

  -- Whatever the node answers and wherever a sync of the transfers stops, also with an error: no
  -- transfer is lost, each keeps its status or has left one that is not terminal for a later one, a
  -- payment that succeeded stays so, and the queued events stay as they are, in their places.
  pub sync-Forward :
      (cfg : SyncConfig) (scope : Scope) (now : ℤ) (w : World N)
      → Evolves w.db (sync env node cfg scope now w).1.db
  sync-Forward cfg scope now w = (Statements-Progress ((sync-Respects cfg scope now).at w)).evolves

  observe_payment-Forward :
      (baseline : Option ℤ) (report : PaymentSyncReport) (p : RlnPayment) (now : ℤ)
      → Respects Forward (observe_payment env node baseline report p now)
  unfolding observe_payment upsert_payment_observed
  observe_payment-Forward baseline report p now = search sync_rules

  observe_payments-Forward :
      (baseline : Option ℤ) (ps : List RlnPayment) (report : PaymentSyncReport) (now : ℤ)
      → Respects Forward (observe_payments env node baseline ps report now)
  unfolding observe_payments
  observe_payments-Forward baseline [] report now = search sync_rules
  observe_payments-Forward baseline (p ∷ ps) report now =
      bind-Forward _ _ (observe_payment-Forward baseline report p now)
        (λ report'. observe_payments-Forward baseline ps report' now)

  close_baseline-Forward :
      (baseline : Option ℤ) (now : ℤ) → Respects Forward (close_baseline env node baseline now)
  unfolding close_baseline
  close_baseline-Forward none now = search sync_rules
  close_baseline-Forward (some at) now = search sync_rules

  baseline-Forward : Respects (Forward {N = N}) (on_db SyncError.store payments_baseline_at)
  unfolding payments_baseline_at
  baseline-Forward = read-Forward _ payments_baseline_at (λ d. refl)

  pub sync_payments-Respects :
      (cfg : SyncConfig) (now : ℤ) → Respects Forward (sync_payments env node cfg now)
  unfolding sync_payments
  sync_payments-Respects cfg now =
      search (forward_rules, baseline-Forward, observe_payments-Forward, close_baseline-Forward)

  -- Whatever the node answers and wherever a sync of the payments stops, also with an error: a payment
  -- that succeeded stays so, every transfer keeps its status or moves on, and the queued events stay as
  -- they are, in their places.
  pub sync_payments-Forward :
      (cfg : SyncConfig) (now : ℤ) (w : World N)
      → Evolves w.db (sync_payments env node cfg now w).1.db
  sync_payments-Forward cfg now w =
      (Statements-Progress ((sync_payments-Respects cfg now).at w)).evolves
