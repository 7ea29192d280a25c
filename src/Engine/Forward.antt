-- ===== src/Engine/Forward.antt =====
-- Every operation of engine.rs moves the mirror only forward.
use rln_companion.Engine.State
use rln_companion.Store.Node
use rln_companion.Base.{
  ℕ, refl, inl, inr, Option, none, some, List, [], ◌∷◌, Result, Exec, pure, ok, err, Option-cases,
  String,
}
use rln_companion.Base.Int.{ℤ}
use rln_companion.Base.Respects.{Respects}
use rln_companion.Engine.Fault.{EngineError, Fault, fault}
use rln_companion.Engine.Reap.{Flow, reap_outcome, reap_one, reap_each, reap, proceed, stop}
use rln_companion.Engine.State.{Engine, catching, classify}
use rln_companion.Engine.Tick.{
  raised, refresh_and_sync, tick_result, tick, payments_result, payments_tick, full_sync,
  sync_locked, sync_pending_locked, sync_failed, sync_outcome, sync_assets_locked,
}
use rln_companion.Rln.Types.{RlnError, cannot_fail, api, transport, decode}
use rln_companion.Store.Transfers.{pending_transfers, expired_fallible}
use rln_companion.Store.Types.{NodeState, Transfer}
use rln_companion.Sync.Forward.{
  Forward, pure-Forward, bind-Forward, read-Forward, forward_rules, apply_observed-Forward,
}
use rln_companion.Sync.Run.{SyncReport, PaymentSyncReport}
use rln_companion.Sync.Whole.{sync-Respects, sync_payments-Respects}
use rln_companion.World.{World, SyncError, on_db}
use rln_companion.Sync.Evolve.{Evolves}
use rln_companion.Sync.Statements.{
  set_node_state-Statements, set_last_full_sync_at-Statements, Statements-Progress,
}

module _ {N : Type 0} where
  pub catching-Forward :
      {A E F : Type 0} (m : Exec (World N) E A)
      → Respects Forward m
      → Respects {E = F} Forward (catching m)
  unfolding catching
  catching-Forward m h = record { at = h.at }

  pub raised-Forward :
      {A E : Type 0} (from : E → EngineError) (m : Exec (World N) E A)
      → Respects Forward m
      → Respects Forward (raised from m)
  unfolding raised
  raised-Forward from m h = record { at = h.at }

  pub node_state-Forward : Respects (Forward {N = N}) (on_db EngineError.store Node.node_state)
  unfolding Node.node_state
  node_state-Forward = read-Forward _ Node.node_state (λ d. refl)

  pub pending_transfers-Forward :
      Respects (Forward {N = N}) (on_db EngineError.store pending_transfers)
  unfolding pending_transfers
  pending_transfers-Forward = read-Forward _ pending_transfers (λ d. refl)

  pub expired_fallible-Forward :
      (now : ℤ) → Respects (Forward {N = N}) (on_db EngineError.store (expired_fallible now))
  unfolding expired_fallible
  expired_fallible-Forward now = read-Forward _ (expired_fallible now) (λ d. refl)

pub ruleset engine_rules = (
  forward_rules, catching-Forward, raised-Forward, node_state-Forward, pending_transfers-Forward,
  expired_fallible-Forward, set_node_state-Statements, set_last_full_sync_at-Statements,
  apply_observed-Forward,
)

module _ {N : Type 0} (engine : Engine N) where
  pub set_node_state-Forward :
      (state : NodeState) (now : ℤ) → Respects Forward (State.set_node_state engine state now)
  unfolding State.set_node_state
  set_node_state-Forward state now = search engine_rules

  pub classify-Forward : (e : EngineError) (now : ℤ) → Respects Forward (classify engine e now)
  unfolding classify
  classify-Forward e now = elim (Option-cases (fault e)) [
    | inl h ↦ rw (h, classify) (search engine_rules)
    | inr (Fault.locked, h) ↦ rw (h, classify) (search (engine_rules, set_node_state-Forward))
    | inr (Fault.unreachable, h) ↦ rw (h, classify) (search engine_rules)
  ]

  tick_result-Forward :
      (r : Result EngineError SyncReport) (now : ℤ) → Respects Forward (tick_result engine r now)
  unfolding tick_result
  tick_result-Forward (ok report) now = search engine_rules
  tick_result-Forward (err e) now = search (engine_rules, classify-Forward)

  payments_result-Forward :
      (r : Result SyncError PaymentSyncReport) (now : ℤ)
      → Respects Forward (payments_result engine r now)
  unfolding payments_result
  payments_result-Forward (ok report) now = search engine_rules
  payments_result-Forward (err e) now = search (engine_rules, classify-Forward)

  refresh-Forward : (now : ℤ) → Respects Forward (refresh_and_sync engine now)
  unfolding refresh_and_sync
  refresh-Forward now = search (engine_rules, sync-Respects)

  sync_failed-Forward : (e : SyncError) (noted : ℤ) → Respects Forward (sync_failed engine e noted)
  unfolding sync_failed
  sync_failed-Forward (SyncError.rln RlnError.locked) noted =
      search (engine_rules, set_node_state-Forward)
  sync_failed-Forward e noted = search engine_rules

  sync_outcome-Forward :
      (r : Result SyncError SyncReport) (noted : ℤ) → Respects Forward (sync_outcome engine r noted)
  unfolding sync_outcome
  sync_outcome-Forward (ok report) noted = search engine_rules
  sync_outcome-Forward (err e) noted = sync_failed-Forward e noted

  pub sync_pending_locked-Forward :
      (now noted : ℤ) → Respects Forward (sync_pending_locked engine now noted)
  unfolding sync_pending_locked sync_locked
  sync_pending_locked-Forward now noted = search (engine_rules, sync-Respects, sync_outcome-Forward)

  pub sync_assets_locked-Forward :
      (ids : List String) (now noted : ℤ)
      → Respects Forward (sync_assets_locked engine ids now noted)
  unfolding sync_assets_locked sync_locked
  sync_assets_locked-Forward ids now noted =
      search (engine_rules, sync-Respects, sync_outcome-Forward)

  pub tick-Forward : (now noted : ℤ) → Respects Forward (tick engine now noted)
  unfolding tick
  tick-Forward now noted = search (engine_rules, refresh-Forward, tick_result-Forward) depth 9

  pub payments_tick-Forward : (now noted : ℤ) → Respects Forward (payments_tick engine now noted)
  unfolding payments_tick
  payments_tick-Forward now noted =
      search (engine_rules, sync_payments-Respects, payments_result-Forward)

  pub full_sync-Forward : (now : ℤ) → Respects Forward (full_sync engine now)
  unfolding full_sync
  full_sync-Forward now = search (engine_rules, sync-Respects)

  reap_outcome-Forward :
      (t : Transfer) (r : Result RlnError Unit) (n : ℕ) (now noted : ℤ)
      → Respects Forward (reap_outcome engine t r n now noted)
  unfolding reap_outcome
  reap_outcome-Forward t (ok _) n now noted = search engine_rules
  reap_outcome-Forward t (err cannot_fail) n now noted = search engine_rules
  reap_outcome-Forward t (err RlnError.locked) n now noted =
      search (engine_rules, set_node_state-Forward)
  reap_outcome-Forward t (err transport) n now noted = search engine_rules
  reap_outcome-Forward t (err (api code name message)) n now noted = search engine_rules
  reap_outcome-Forward t (err decode) n now noted = search engine_rules

  reap_one-Forward :
      (t : Transfer) (idx : Option ℤ) (n : ℕ) (now noted : ℤ)
      → Respects Forward (reap_one engine t idx n now noted)
  unfolding reap_one
  reap_one-Forward t none n now noted = search engine_rules
  reap_one-Forward t (some idx) n now noted = search (engine_rules, reap_outcome-Forward)

  reap_each-Forward :
      (ts : List Transfer) (n : ℕ) (now noted : ℤ)
      → Respects Forward (reap_each engine ts n now noted)
  unfolding reap_each
  reap_each-Forward [] n now noted = search engine_rules
  reap_each-Forward (t ∷ ts) n now noted =
      bind-Forward _ _ (reap_one-Forward t t.batch_transfer_idx n now noted)
        λ flow. go flow (λ m. reap_each-Forward ts m now noted)
    where
      go :
          (flow : Flow)
          → ((m : ℕ) → Respects Forward (reap_each engine ts m now noted))
          → Respects Forward
              (elim flow [ proceed m ↦ reap_each engine ts m now noted | stop m ↦ pure m ])
      go (proceed m) h = h m
      go (stop m) h = pure-Forward m

  pub reap-Forward : (now noted : ℤ) → Respects Forward (reap engine now noted)
  unfolding reap
  reap-Forward now noted = search (engine_rules, reap_each-Forward)

  -- A tick, a payments tick, a reap and a full sync, whatever the node answers and whether they return
  -- or fail: none loses a transfer, moves one backward or out of a terminal status, takes back a
  -- payment that succeeded, or touches a queued event.
  pub background-Evolves :
      (now noted : ℤ) (w : World N)
      → Evolves w.db (tick engine now noted w).1.db
        × Evolves w.db (payments_tick engine now noted w).1.db
        × Evolves w.db (reap engine now noted w).1.db
        × Evolves w.db (full_sync engine now w).1.db
  background-Evolves now noted w = (
    (Statements-Progress ((tick-Forward now noted).at w)).evolves,
    (Statements-Progress ((payments_tick-Forward now noted).at w)).evolves,
    (Statements-Progress ((reap-Forward now noted).at w)).evolves,
    (Statements-Progress ((full_sync-Forward now).at w)).evolves,
  )
