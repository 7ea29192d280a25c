-- ===== src/Engine/Rounds.antt =====
-- What the rounds of reconcile leave behind.
use rln_companion.Engine.State
use rln_companion.Store.Node
use rln_companion.Base.{
  String, ◌≡◌, arith, ok, ◌⊎◌, true, false, pure, ◌>>◌, inl, inr, Option, none, some, Result, err,
  Bool, List, [], ◌∷◌, leb, if◌then◌else◌, ℕ, refl, continue, ◌≢◌, any,
}
use rln_companion.Base.Int.{ℤ}
use rln_companion.Engine.State.{Engine, Action}
use rln_companion.Store.Codec.{node_state_to_str}
use rln_companion.Store.Types.{NodeState, unlocked, down}
use rln_companion.World.{World}
use rln_companion.Engine.Reconcile.{
  Verdict, finish, again, round_failed, round_body, fault_verdict, round_outcome, one_round, Round,
  reconcile, conclude,
}
use rln_companion.Engine.Fault.{EngineError, Fault, fault}
use rln_companion.Sync.Run.{SyncReport}
use mathlib.Core.Path.{subst}

-- The node state that the store holds.
abbrev pub stored_state : {N : Type 0} → World N → String
stored_state w = w.db.node_state.state

module _ {N : Type 0} (engine : Engine N) where
  -- A state that was written is the state that the store holds.
  pub stored_of_set :
      (state : NodeState) (now : ℤ) (w : World N)
      → (State.set_node_state engine state now w).0 ≡ ok tt
      → stored_state (State.set_node_state engine state now w).1 ≡ node_state_to_str state
  unfolding State.set_node_state Node.set_node_state Node.node_state
  stored_of_set state now w h = ground (arith)

  -- What the store holds after a round, by its verdict.
  abbrev AfterRound : Verdict → World N → Type 0
  AfterRound (finish true) w = stored_state w ≡ node_state_to_str unlocked
  AfterRound (finish false) w = stored_state w ≡ node_state_to_str NodeState.misconfigured
  AfterRound again w =
      (stored_state w ≡ node_state_to_str NodeState.locked)
      ⊎ (stored_state w ≡ node_state_to_str down)

  -- A block that writes the state and returns a value.
  abbrev pub noting : {A : Type 0} → NodeState → ℤ → A → Action N A
  noting state now a = State.set_node_state engine state now >> pure a

  pub noting_lem :
      {A : Type 0} (state : NodeState) (now : ℤ) (a b : A) (w : World N)
      → (noting state now a w).0 ≡ ok b
      → (a ≡ b) × (stored_state (noting state now a w).1 ≡ node_state_to_str state)
  unfolding State.set_node_state Node.set_node_state Node.node_state
  noting_lem state now a b w h = ground arith

  noting-AfterRound :
      (state : NodeState) (now : ℤ) (a v : Verdict) (w : World N)
      → ((w' : World N) → stored_state w' ≡ node_state_to_str state → AfterRound a w')
      → (noting state now a w).0 ≡ ok v
      → AfterRound v (noting state now a w).1
  noting-AfterRound state now a v w k h =
      let (same, after) = noting_lem state now a v w h in
      subst (λ x. AfterRound x (noting state now a w).1) same (k _ after)

  fault-AfterRound :
      (e : EngineError) (f : Option Fault) (noted : ℤ) (w : World N) (v : Verdict)
      → (fault_verdict engine e f noted w).0 ≡ ok v
      → AfterRound v (fault_verdict engine e f noted w).1
  unfolding fault_verdict
  fault-AfterRound e none noted w v h = cc
  fault-AfterRound e (some Fault.locked) noted w v h =
      noting-AfterRound NodeState.locked noted again v w (λ w' k. inl k) h
  fault-AfterRound e (some Fault.unreachable) noted w v h =
      noting-AfterRound down noted again v w (λ w' k. inr k) h

  round_failed-AfterRound :
      (e : EngineError) (noted : ℤ) (w : World N) (v : Verdict)
      → (round_failed engine e noted w).0 ≡ ok v
      → AfterRound v (round_failed engine e noted w).1
  unfolding round_failed
  round_failed-AfterRound (EngineError.misconfigured text) noted w v h =
      noting-AfterRound NodeState.misconfigured noted (finish false) v w (λ w' k. k) h
  round_failed-AfterRound (EngineError.rln e) noted w v h =
      fault-AfterRound (EngineError.rln e) (fault (EngineError.rln e)) noted w v h
  round_failed-AfterRound (EngineError.sync e) noted w v h =
      fault-AfterRound (EngineError.sync e) (fault (EngineError.sync e)) noted w v h
  round_failed-AfterRound (EngineError.store e) noted w v h =
      fault-AfterRound (EngineError.store e) (fault (EngineError.store e)) noted w v h

  round_outcome-AfterRound :
      (r : Result EngineError SyncReport) (noted : ℤ) (w : World N) (v : Verdict)
      → (round_outcome engine r noted w).0 ≡ ok v
      → AfterRound v (round_outcome engine r noted w).1
  unfolding round_outcome
  round_outcome-AfterRound (ok report) noted w v h =
      noting-AfterRound unlocked noted (finish true) v w (λ w' k. k) h
  round_outcome-AfterRound (err e) noted w v h = round_failed-AfterRound e noted w v h

  one_round-AfterRound :
      (now noted : ℤ) (w : World N) (v : Verdict)
      → (one_round engine now noted w).0 ≡ ok v
      → AfterRound v (one_round engine now noted w).1
  unfolding one_round
  one_round-AfterRound now noted w v h =
      let (r, w') = round_body engine now w in round_outcome-AfterRound r noted w' v h

  -- Where a reconcile that comes to an end leaves the node state: after `true` the
  -- store says that the node is unlocked, and after `false` that it is
  -- misconfigured, locked or down.
  abbrev pub Reconciled : Bool → World N → Type 0
  Reconciled true w = stored_state w ≡ node_state_to_str unlocked
  Reconciled false w =
      (stored_state w ≡ node_state_to_str NodeState.misconfigured)
      ⊎ (stored_state w ≡ node_state_to_str NodeState.locked)
      ⊎ (stored_state w ≡ node_state_to_str down)

  give_up-Reconciled :
      (over : Bool) (rest : Action N (Option Bool)) (w : World N) (b : Bool)
      → ((w' : World N) → (rest w').0 ≡ ok (some b) → Reconciled b (rest w').1)
      → AfterRound again w
      → ((if over then pure (some false) else rest) w).0 ≡ ok (some b)
      → Reconciled b ((if over then pure (some false) else rest) w).1
  unfolding pure
  give_up-Reconciled true rest w true k after h = cc
  give_up-Reconciled true rest w false k after h = inr after
  give_up-Reconciled false rest w b k after h = k w h

  conclude-Reconciled :
      (v : Verdict) (elapsed : ℕ) (rest : Action N (Option Bool)) (w : World N) (b : Bool)
      → ((w' : World N) → (rest w').0 ≡ ok (some b) → Reconciled b (rest w').1)
      → AfterRound v w
      → (conclude engine v elapsed rest w).0 ≡ ok (some b)
      → Reconciled b (conclude engine v elapsed rest w).1
  unfolding conclude
  conclude-Reconciled (finish true) elapsed rest w true k after h = after
  conclude-Reconciled (finish false) elapsed rest w false k after h = inl after
  conclude-Reconciled (finish true) elapsed rest w false k after h = cc
  conclude-Reconciled (finish false) elapsed rest w true k after h = cc
  conclude-Reconciled again elapsed rest w b k after h =
      give_up-Reconciled (leb engine.cfg.reconcile_max_wait_secs elapsed) rest w b k after h

  continue-Reconciled :
      (res : Result EngineError Verdict) (elapsed : ℕ) (rest : Action N (Option Bool)) (w : World N)
      (b : Bool)
      → ((w' : World N) → (rest w').0 ≡ ok (some b) → Reconciled b (rest w').1)
      → ((v : Verdict) → res ≡ ok v → AfterRound v w)
      → (continue res (λ v. conclude engine v elapsed rest) w).0 ≡ ok (some b)
      → Reconciled b (continue res (λ v. conclude engine v elapsed rest) w).1
  continue-Reconciled (ok v) elapsed rest w b k after h =
      conclude-Reconciled v elapsed rest w b k (after v refl) h
  continue-Reconciled (err e) elapsed rest w b k after h = cc

  -- When reconcile answers `true` the store says that the node is unlocked, and when it answers `false`
  -- that it is misconfigured, locked or down, whatever happened between the rounds.
  pub reconcile-Reconciled :
      (rs : List (Round N)) (w : World N) (b : Bool)
      → (reconcile engine rs w).0 ≡ ok (some b)
      → Reconciled b (reconcile engine rs w).1
  unfolding reconcile
  reconcile-Reconciled [] w b h = cc
  reconcile-Reconciled (r ∷ rs) w b h =
      continue-Reconciled (one_round engine r.synced_at r.noted_at w).0 r.elapsed
        (λ w'. reconcile engine rs (r.meanwhile w')) (one_round engine r.synced_at r.noted_at w).1 b
        (λ w' k. reconcile-Reconciled rs (r.meanwhile w') b k)
        (λ v k. one_round-AfterRound r.synced_at r.noted_at w v k) h

  give_up-ends :
      (over : Bool) (rest : Action N (Option Bool)) (w : World N)
      → (over ≡ false → (rest w).0 ≢ ok none)
      → ((if over then pure (some false) else rest) w).0 ≢ ok none
  unfolding pure
  give_up-ends true rest w k = λ e. cc
  give_up-ends false rest w k = k refl

  continue-ends :
      (res : Result EngineError Verdict) (elapsed : ℕ) (rest : Action N (Option Bool)) (w : World N)
      → (leb engine.cfg.reconcile_max_wait_secs elapsed ≡ false → (rest w).0 ≢ ok none)
      → (continue res (λ v. conclude engine v elapsed rest) w).0 ≢ ok none
  unfolding conclude
  continue-ends (ok (finish result)) elapsed rest w k = λ e. cc
  continue-ends (ok again) elapsed rest w k = give_up-ends _ rest w k
  continue-ends (err e) elapsed rest w k = λ e'. cc

  -- Reconcile comes to an end, with an answer or an error, within the rounds given if one of them ends
  -- when the longest wait is over.
  pub reconcile-ne-none :
      (rs : List (Round N)) (w : World N)
      → any (λ r. leb engine.cfg.reconcile_max_wait_secs r.elapsed) rs ≡ true
      → (reconcile engine rs w).0 ≢ ok none
  unfolding reconcile
  reconcile-ne-none [] w h = λ e. cc
  reconcile-ne-none (r ∷ rs) w h =
      let w' = (one_round engine r.synced_at r.noted_at w).1 in
      continue-ends (one_round engine r.synced_at r.noted_at w).0 r.elapsed
        (λ w''. reconcile engine rs (r.meanwhile w'')) w'
        (λ wait. reconcile-ne-none rs (r.meanwhile w') (rw wait at h))
