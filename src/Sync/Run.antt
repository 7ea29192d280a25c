-- ===== src/Sync/Run.antt =====
-- sync and sync_payments of sync.rs: the loops over what the node lists.
use rln_companion.Base.{
  ℕ, ◌+◌, max, String, Bool, true, false, ◌&&◌, Option, none, some, List, [], ◌∷◌, ◌++◌, map,
  length, sort_by, distinct, Exec, pure, ◌>>=◌, ◌>>◌, str_le, if◌then◌else◌, ◌==◌, is_some,
  Eq_String,
}
use rln_companion.Base.Int.{ℤ}
use rln_companion.Rln.Api.{RlnApi}
use rln_companion.Rln.Types.{RlnTransfer, direction, RlnPayment}
use rln_companion.Store.Node.{upsert_assets, payments_baseline_at, set_payments_baseline_at}
use rln_companion.Store.Payments.{upsert_payment_observed}
use rln_companion.Store.Transfers.{pending_asset_ids}
use rln_companion.Store.Types.{PaymentStatus, payment_terminal, Observed, NewPayment}
use rln_companion.Store.Upsert.{upsert_observed}
use rln_companion.Sync.Apply.{apply_observed, apply_payment_observed}
use rln_companion.World.{World, Env, SyncError, on_db, on_node, draw, rln, store}

pub data Scope : Type 0 where
  full : Scope
  assets : List String → Scope
  pending : Scope

pub record SyncReport : Type 0 where
  pub assets : ℕ
  pub transfers : ℕ
  pub transitions : ℕ

pub record PaymentSyncReport : Type 0 where
  pub payments : ℕ
  pub transitions : ℕ

-- `config::Sync`
pub record SyncConfig : Type 0 where
  pub full_interval_secs : ℕ
  pub page_size : ℕ

abbrev pub full_min_page_size : ℕ
full_min_page_size = 1000

-- `collect()` into a `BTreeSet<String>`: the elements once, in order.
unfoldable pub btree_set : List String → List String
btree_set ids = sort_by str_le (distinct (λ a b. a == b) ids)

abbrev pub observed_of : Option String → RlnTransfer → Observed
observed_of asset_id t = record {
  rln_idx = t.idx;
  asset_id = asset_id;
  kind = t.kind;
  status = t.status;
  recipient_id = t.recipient_id;
  txid = t.txid;
  expiration_timestamp = t.expiration_timestamp;
}

abbrev pub counted : Bool → ℕ → ℕ
counted moved n = if moved then n + 1 else n

unfoldable pub page_size_for : Scope → SyncConfig → ℕ
page_size_for full cfg = max cfg.page_size full_min_page_size
page_size_for (assets ids) cfg = cfg.page_size
page_size_for pending cfg = cfg.page_size

-- Before the baseline a payment is inserted as it is; after it, a terminal one as pending.
unfoldable pub insert_status : Option ℤ → PaymentStatus → PaymentStatus
unfolding payment_terminal
insert_status baseline status =
    if is_some baseline && payment_terminal status then PaymentStatus.pending else status

unfoldable pub observed_payment : Option ℤ → RlnPayment → NewPayment
unfolding direction insert_status
observed_payment baseline p = record {
  payment_hash = p.payment_hash;
  direction = direction p.payment_type;
  status = insert_status baseline p.status;
  asset_id = p.asset_id;
  asset_amount = p.asset_amount;
  amt_msat = p.amt_msat;
  payee_pubkey = some p.payee_pubkey;
}

module _ {N : Type 0} (env : Env) (node : RlnApi N) where
  -- `?` in a function whose error is `SyncError`
  abbrev Sync : Type 0 → Type 0
  Sync A = Exec (World N) SyncError A

  unfoldable pub fetch_assets : ℤ → Sync (List String)
  unfolding ◌>>=◌ on_db on_node upsert_assets
  fetch_assets now = do
    found ← on_node rln node.list_assets
    on_db store (upsert_assets found now)
    pure (map (λ a. a.0) found)

  unfoldable pub observe : SyncReport → Option String → RlnTransfer → ℤ → Sync SyncReport
  unfolding ◌>>=◌ draw on_db upsert_observed apply_observed
  observe report asset_id t now = do
    fresh ← draw env
    row ← on_db store (upsert_observed fresh (observed_of asset_id t) now)
    moved ← apply_observed env row t.status now
    pure (record report {
      transfers = report.transfers + 1;
      transitions = counted moved report.transitions;
    })

  unfoldable pub observe_each : Option String → List RlnTransfer → SyncReport → ℤ → Sync SyncReport
  unfolding ◌>>=◌ observe
  observe_each asset_id [] report now = pure report
  observe_each asset_id (t ∷ ts) report now = do
    report' ← observe report asset_id t now
    observe_each asset_id ts report' now

  unfoldable pub sync_each : ℕ → List String → SyncReport → ℤ → Sync SyncReport
  unfolding ◌>>=◌ on_node observe_each
  sync_each page_size [] report now = pure report
  sync_each page_size (asset_id ∷ ids) report now = do
    transfers ← on_node rln (node.list_transfers asset_id page_size)
    report' ← observe_each (some asset_id) transfers report now
    sync_each page_size ids report' now

  -- The assets to list, and whether the transfers without an asset are listed too.
  unfoldable pub scope_ids : Scope → ℤ → Sync (List String × Bool)
  unfolding ◌>>=◌ on_db pending_asset_ids fetch_assets btree_set
  scope_ids full now = do ids ← fetch_assets now; pure (btree_set ids, true)
  scope_ids (assets ids) now = pure (btree_set ids, false)
  scope_ids pending now = do
    (ids, agnostic) ← on_db store pending_asset_ids
    more ← if agnostic then fetch_assets now else pure []
    pure (btree_set (ids ++ more), agnostic)

  unfoldable pub sync_assetless : Bool → ℕ → SyncReport → ℤ → Sync SyncReport
  unfolding ◌>>=◌ on_node observe_each
  sync_assetless false page_size report now = pure report
  sync_assetless true page_size report now = do
    transfers ← on_node rln (node.list_assetless_transfers page_size)
    observe_each none transfers report now

  unfoldable pub sync : SyncConfig → Scope → ℤ → Sync SyncReport
  unfolding ◌>>=◌ page_size_for scope_ids sync_assetless sync_each
  sync cfg scope now = do
    let page_size = page_size_for scope cfg
    (asset_ids, assetless) ← scope_ids scope now
    report ←
        sync_assetless assetless page_size
          (record { assets = length asset_ids; transfers = 0; transitions = 0 }) now
    sync_each page_size asset_ids report now

  unfoldable pub observe_payment :
      Option ℤ → PaymentSyncReport → RlnPayment → ℤ → Sync PaymentSyncReport
  unfolding ◌>>=◌ on_db observed_payment upsert_payment_observed apply_payment_observed
  observe_payment baseline report p now = do
    row ← on_db store (upsert_payment_observed (observed_payment baseline p) now)
    moved ← apply_payment_observed env row p.status now
    pure (record { payments = report.payments + 1; transitions = counted moved report.transitions })

  unfoldable pub observe_payments :
      Option ℤ → List RlnPayment → PaymentSyncReport → ℤ → Sync PaymentSyncReport
  unfolding ◌>>=◌ observe_payment
  observe_payments baseline [] report now = pure report
  observe_payments baseline (p ∷ ps) report now = do
    report' ← observe_payment baseline report p now
    observe_payments baseline ps report' now

  -- The first sync that goes through sets the baseline.
  unfoldable pub close_baseline : Option ℤ → ℤ → Sync Unit
  unfolding on_db set_payments_baseline_at ◌>>=◌
  close_baseline none now = on_db store (set_payments_baseline_at now)
  close_baseline (some at) now = pure tt

  unfoldable pub sync_payments : SyncConfig → ℤ → Sync PaymentSyncReport
  unfolding ◌>>=◌ on_db on_node payments_baseline_at observe_payments close_baseline
  sync_payments cfg now = do
    payments ← on_node rln (node.list_payments cfg.page_size)
    baseline ← on_db store payments_baseline_at
    report ← observe_payments baseline payments (record { payments = 0; transitions = 0 }) now
    close_baseline baseline now
    pure report
