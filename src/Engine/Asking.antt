-- ===== src/Engine/Asking.antt =====
-- The probe and the rounds of reconcile move the mirror only forward.
use rln_companion.Base.{inl, inr, Option, none, some, Result, ok, err, Option-cases}
use rln_companion.Base.Int.{ℤ}
use rln_companion.Base.Respects.{Respects}
use rln_companion.Engine.Fault.{EngineError, Fault, fault}
use rln_companion.Engine.Forward.{engine_rules, set_node_state-Forward, full_sync-Forward}
use rln_companion.Engine.Reconcile.{
  round_body, fault_verdict, round_failed, round_outcome, one_round,
}
use rln_companion.Engine.State.{
  Engine, check_network, probe_checks, probe_error, probe_fault, probe_outcome, probe,
}
use rln_companion.Sync.Forward.{Forward}
use rln_companion.Sync.Run.{SyncReport}

module _ {N : Type 0} (engine : Engine N) where
  check_network-Forward : Respects Forward (check_network engine)
  unfolding check_network
  check_network-Forward = elim (Option-cases engine.expected_network) [
    | inl h ↦ rw (h, check_network) (search engine_rules)
    | inr (want, h) ↦ rw (h, check_network) (search engine_rules)
  ]

  probe_error-Forward : (e : EngineError) (now : ℤ) → Respects Forward (probe_error engine e now)
  unfolding probe_error
  probe_error-Forward (EngineError.misconfigured text) now =
      search (engine_rules, set_node_state-Forward)
  probe_error-Forward (EngineError.rln e) now = search engine_rules
  probe_error-Forward (EngineError.sync e) now = search engine_rules
  probe_error-Forward (EngineError.store e) now = search engine_rules

  probe_fault-Forward :
      (e : EngineError) (f : Option Fault) (now : ℤ) → Respects Forward (probe_fault engine e f now)
  unfolding probe_fault
  probe_fault-Forward e (some Fault.locked) now = search (engine_rules, set_node_state-Forward)
  probe_fault-Forward e (some Fault.unreachable) now = search (engine_rules, set_node_state-Forward)
  probe_fault-Forward e none now = probe_error-Forward e now

  probe_outcome-Forward :
      (r : Result EngineError Unit) (now : ℤ) → Respects Forward (probe_outcome engine r now)
  unfolding probe_outcome
  probe_outcome-Forward (ok u) now = search (engine_rules, set_node_state-Forward)
  probe_outcome-Forward (err e) now = probe_fault-Forward e (fault e) now

  pub probe-Forward : (now : ℤ) → Respects Forward (probe engine now)
  unfolding probe probe_checks
  probe-Forward now = search (engine_rules, check_network-Forward, probe_outcome-Forward)

  fault_verdict-Forward :
      (e : EngineError) (f : Option Fault) (noted : ℤ)
      → Respects Forward (fault_verdict engine e f noted)
  unfolding fault_verdict
  fault_verdict-Forward e (some Fault.locked) noted = search (engine_rules, set_node_state-Forward)
  fault_verdict-Forward e (some Fault.unreachable) noted =
      search (engine_rules, set_node_state-Forward)
  fault_verdict-Forward e none noted = search engine_rules

  round_failed-Forward :
      (e : EngineError) (noted : ℤ) → Respects Forward (round_failed engine e noted)
  unfolding round_failed
  round_failed-Forward (EngineError.misconfigured text) noted =
      search (engine_rules, set_node_state-Forward)
  round_failed-Forward (EngineError.rln e) noted =
      let failure = EngineError.rln e in fault_verdict-Forward failure (fault failure) noted
  round_failed-Forward (EngineError.sync e) noted =
      let failure = EngineError.sync e in fault_verdict-Forward failure (fault failure) noted
  round_failed-Forward (EngineError.store e) noted =
      let failure = EngineError.store e in fault_verdict-Forward failure (fault failure) noted

  round_outcome-Forward :
      (r : Result EngineError SyncReport) (noted : ℤ)
      → Respects Forward (round_outcome engine r noted)
  unfolding round_outcome
  round_outcome-Forward (ok report) noted = search (engine_rules, set_node_state-Forward)
  round_outcome-Forward (err e) noted = round_failed-Forward e noted

  pub one_round-Forward : (now noted : ℤ) → Respects Forward (one_round engine now noted)
  unfolding one_round round_body
  one_round-Forward now noted =
      search (engine_rules, full_sync-Forward, check_network-Forward, round_outcome-Forward)
