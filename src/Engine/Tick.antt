-- ===== src/Engine/Tick.antt =====
-- The operations of engine.rs that run once: tick, payments_tick, reap, full_sync and the syncs
-- under the lock. Those that hold the single-flight lock hold it from their first call of the node to
-- their end; payments_tick takes no lock. The value of each call of `now()` is an argument.
use rln_companion.Store.Node
use rln_companion.Sync.Run
use rln_companion.Base.{
  String, Bool, true, false, not, List, [], ◌∷◌, Result, Exec, pure, raise, ◌>>=◌, ◌>>◌, map_err,
  ok, err, if◌then◌else◌, ◌==◌,
}
use rln_companion.Base.Int.{ℤ}
use rln_companion.Engine.Fault.{EngineError, Fault}
use rln_companion.Engine.State.{Engine, Action, catching, set_node_state, classify}
use rln_companion.Rln.Types.{RlnError}
use rln_companion.Store.Node.{set_last_full_sync_at}
use rln_companion.Store.Transfers.{pending_transfers}
use rln_companion.Store.Types.{NodeState}
use rln_companion.Sync.Run.{Scope, SyncReport, PaymentSyncReport, sync_payments, full}
use rln_companion.World.{World, SyncError, on_db, on_node}
use rln_companion.Store.Equality.{Eq_NodeState}

pub data TickOutcome : Type 0 where
  idle paused locked unreachable : TickOutcome
  refreshed : SyncReport → TickOutcome

pub data PaymentsTickOutcome : Type 0 where
  paused locked unreachable : PaymentsTickOutcome
  synced : PaymentSyncReport → PaymentsTickOutcome

abbrev is_nil : {A : Type 0} → List A → Bool
is_nil [] = true
is_nil (x ∷ xs) = false

-- `?` on an error of the node, of the sync or of the store
unfoldable pub raised : {N E A : Type 0} → (E → EngineError) → Exec (World N) E A → Action N A
unfolding map_err
raised from m w = let (r, w') = m w in (map_err from r, w')

module _ {N : Type 0} (engine : Engine N) where
  unfoldable pub refresh_and_sync : ℤ → Action N SyncReport
  unfolding ◌>>=◌ on_node raised Run.sync
  refresh_and_sync now = do
    on_node EngineError.rln (engine.api.refresh engine.cfg.skip_sync)
    raised EngineError.sync (Run.sync engine.env engine.api engine.sync_cfg Scope.pending now)

  -- Only a locked node is recorded; every error is returned.
  unfoldable pub sync_failed : SyncError → ℤ → Action N SyncReport
  unfolding ◌>>=◌ set_node_state
  sync_failed (SyncError.rln RlnError.locked) now = do
    set_node_state engine NodeState.locked now
    raise (EngineError.sync (SyncError.rln RlnError.locked))
  sync_failed e now = raise (EngineError.sync e)

  unfoldable pub sync_outcome : Result SyncError SyncReport → ℤ → Action N SyncReport
  unfolding ◌>>=◌ sync_failed
  sync_outcome (ok report) now = pure report
  sync_outcome (err e) now = sync_failed e now

  -- `noted` is the value of `now()` when the state is written.
  unfoldable pub sync_locked : Scope → ℤ → ℤ → Action N SyncReport
  unfolding ◌>>=◌ catching Run.sync sync_outcome
  sync_locked scope now noted = do
    result ← catching (Run.sync engine.env engine.api engine.sync_cfg scope now)
    sync_outcome result noted

  unfoldable pub sync_pending_locked : ℤ → ℤ → Action N SyncReport
  unfolding sync_locked
  sync_pending_locked now noted = sync_locked Scope.pending now noted

  unfoldable pub sync_assets_locked : List String → ℤ → ℤ → Action N SyncReport
  unfolding sync_locked
  sync_assets_locked ids now noted = sync_locked (Scope.assets ids) now noted

  abbrev tick_fault : Fault → TickOutcome
  tick_fault Fault.locked = TickOutcome.locked
  tick_fault Fault.unreachable = TickOutcome.unreachable

  unfoldable pub tick_result : Result EngineError SyncReport → ℤ → Action N TickOutcome
  unfolding ◌>>=◌ classify
  tick_result (ok report) now = pure (refreshed report)
  tick_result (err e) now = do f ← classify engine e now; pure (tick_fault f)

  unfoldable pub tick : ℤ → ℤ → Action N TickOutcome
  unfolding ◌>>=◌ on_db Node.node_state pending_transfers catching refresh_and_sync tick_result
  tick now noted = do
    state ← on_db EngineError.store Node.node_state
    if not (state == NodeState.unlocked) then pure TickOutcome.paused else do
      waiting_rows ← on_db EngineError.store pending_transfers
      if is_nil waiting_rows
          then pure idle
          else do result ← catching (refresh_and_sync now); tick_result result noted

  abbrev payments_fault : Fault → PaymentsTickOutcome
  payments_fault Fault.locked = PaymentsTickOutcome.locked
  payments_fault Fault.unreachable = PaymentsTickOutcome.unreachable

  unfoldable pub payments_result :
      Result SyncError PaymentSyncReport → ℤ → Action N PaymentsTickOutcome
  unfolding ◌>>=◌ classify
  payments_result (ok report) now = pure (synced report)
  payments_result (err e) now = do
    f ← classify engine (EngineError.sync e) now
    pure (payments_fault f)

  unfoldable pub payments_tick : ℤ → ℤ → Action N PaymentsTickOutcome
  unfolding ◌>>=◌ on_db Node.node_state catching sync_payments payments_result
  payments_tick now noted = do
    state ← on_db EngineError.store Node.node_state
    if not (state == NodeState.unlocked) then pure PaymentsTickOutcome.paused else do
      result ← catching (sync_payments engine.env engine.api engine.sync_cfg now)
      payments_result result noted

  unfoldable pub decode_ln_invoice : String → Action N String
  unfolding on_node
  decode_ln_invoice invoice = on_node EngineError.rln (engine.api.decode_ln_invoice invoice)

  unfoldable pub full_sync : ℤ → Action N SyncReport
  unfolding ◌>>=◌ raised Run.sync on_db set_last_full_sync_at
  full_sync now = do
    report ← raised EngineError.sync (Run.sync engine.env engine.api engine.sync_cfg full now)
    on_db EngineError.store (set_last_full_sync_at now)
    pure report
