-- ===== src/Engine/Probe.antt =====
-- What a probe leaves in the store, for every outcome.
use rln_companion.Engine.State
use rln_companion.Store.Node
use rln_companion.Base.{
  ◌≡◌, Result, pure, ◌>>◌, ok, err, refl, ◌⊎◌, inl, inr, Option, none, some, arith, String,
}
use rln_companion.Base.Int.{ℤ}
use rln_companion.Engine.Fault.{EngineError, Fault, fault}
use rln_companion.Engine.Rounds.{stored_state}
use rln_companion.Engine.State.{
  Engine, check_network, probe_checks, probe_error, probe_outcome, probe, probe_fault,
}
use rln_companion.Store.Codec.{node_state_to_str, node_state_from_str}
use rln_companion.Store.Types.{NodeState, StoreError, unlocked, down}
use rln_companion.World.{World}
use mathlib.Core.Path.{subst}

module _ {N : Type 0} (engine : Engine N) where
  -- What the store says after a probe: the state that was answered; that the node is misconfigured
  -- after that error; what it said before, after any other error.
  abbrev pub AfterProbe : String → Result EngineError NodeState → World N → Type 0
  AfterProbe old (ok state) w' = stored_state w' ≡ node_state_to_str state
  AfterProbe old (err (EngineError.misconfigured text)) w' =
      stored_state w' ≡ node_state_to_str NodeState.misconfigured
  AfterProbe old (err (EngineError.rln e)) w' = stored_state w' ≡ old
  AfterProbe old (err (EngineError.sync e)) w' = stored_state w' ≡ old
  AfterProbe old (err (EngineError.store e)) w' = stored_state w' ≡ old

  -- The state was read and then written, or could not be read.
  read_cases :
      {A : Type 0} (r : Result StoreError A)
      → ((a : A) × (r ≡ ok a)) ⊎ ((e : StoreError) × (r ≡ err e))
  read_cases (ok a) = inl (a, refl)
  read_cases (err e) = inr (e, refl)

  noted-AfterProbe :
      (state : NodeState) (now : ℤ) (w : World N)
      → AfterProbe
          (stored_state w)
          ((State.set_node_state engine state now >> pure state) w).0
          ((State.set_node_state engine state now >> pure state) w).1
  unfolding State.set_node_state Node.set_node_state Node.node_state
  noted-AfterProbe state now w = elim (read_cases (node_state_from_str w.db.node_state.state)) [
    | inl (old, h) ↦ rw h refl
    | inr (e, h) ↦ rw h refl
  ]

  error-AfterProbe :
      (e : EngineError) (now : ℤ) (w : World N)
      → AfterProbe (stored_state w) (probe_error engine e now w).0 (probe_error engine e now w).1
  unfolding probe_error State.set_node_state Node.set_node_state Node.node_state
  error-AfterProbe (EngineError.misconfigured text) now w =
      elim (read_cases (node_state_from_str w.db.node_state.state)) [
        | inl (old, h) ↦ rw h refl
        | inr (e, h) ↦ rw h refl
      ]
  error-AfterProbe (EngineError.rln e) now w = refl
  error-AfterProbe (EngineError.sync e) now w = refl
  error-AfterProbe (EngineError.store e) now w = refl

  fault-AfterProbe :
      (e : EngineError) (f : Option Fault) (now : ℤ) (w : World N)
      → AfterProbe
          (stored_state w)
          (probe_fault engine e f now w).0
          (probe_fault engine e f now w).1
  unfolding probe_fault
  fault-AfterProbe e none now w = error-AfterProbe e now w
  fault-AfterProbe e (some Fault.locked) now w = noted-AfterProbe NodeState.locked now w
  fault-AfterProbe e (some Fault.unreachable) now w = noted-AfterProbe down now w

  outcome-AfterProbe :
      (r : Result EngineError Unit) (now : ℤ) (w : World N)
      → AfterProbe
          (stored_state w)
          (probe_outcome engine r now w).0
          (probe_outcome engine r now w).1
  unfolding probe_outcome
  outcome-AfterProbe (ok u) now w = noted-AfterProbe unlocked now w
  outcome-AfterProbe (err e) now w = fault-AfterProbe e (fault e) now w

  -- The checks of a probe only ask the node.
  db-check_network : (w : World N) → (check_network engine w).1.db ≡ w.db
  unfolding check_network
  db-check_network w = ground arith

  pub db-probe_checks : (w : World N) → (probe_checks engine w).1.db ≡ w.db
  unfolding probe_checks
  db-probe_checks w = ground arith

  -- After a probe the store says of the node what the probe answered; after the error that the node is
  -- misconfigured it says just that; after any other error it says what it said before.
  pub probe-AfterProbe :
      (now : ℤ) (w : World N)
      → AfterProbe (stored_state w) (probe engine now w).0 (probe engine now w).1
  unfolding probe
  probe-AfterProbe now w =
      subst (λ d. AfterProbe d.node_state.state (probe engine now w).0 (probe engine now w).1)
        (db-probe_checks w)
        (outcome-AfterProbe (probe_checks engine w).0 now (probe_checks engine w).1)
