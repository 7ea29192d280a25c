-- ===== src/Engine/Reconcile.antt =====
-- reconcile of engine.rs: full syncs until one goes through, the node turns out misconfigured, or
-- the wait is over.
use rln_companion.Base.{
  ℕ, Bool, true, false, Option, none, some, List, [], ◌∷◌, Result, pure, raise, ◌>>=◌, ◌>>◌, ok,
  err, leb, if◌then◌else◌,
}
use rln_companion.Base.Int.{ℤ}
use rln_companion.Engine.Fault.{EngineError, Fault, fault, misconfigured, unreachable}
use rln_companion.Engine.State.{Engine, Action, catching, set_node_state, check_network}
use rln_companion.Engine.Tick.{full_sync}
use rln_companion.Store.Types.{NodeState, down}
use rln_companion.Sync.Run.{SyncReport}
use rln_companion.World.{World}

-- What one round of the loop meets: the values of `now()` in the full sync and when the state is
-- written, the seconds since the start when the round ends, and what the rest of the program and
-- the node do while it sleeps.
pub record Round (N : Type 0) : Type 0 where
  pub synced_at : ℤ
  pub noted_at : ℤ
  pub elapsed : ℕ
  pub meanwhile : World N → World N

-- Leave the loop with a result, or sleep and try again.
pub data Verdict : Type 0 where
  finish : Bool → Verdict
  again : Verdict

module _ {N : Type 0} (engine : Engine N) where
  unfoldable pub round_body : ℤ → Action N SyncReport
  unfolding ◌>>=◌ full_sync check_network
  round_body now = do report ← full_sync engine now; check_network engine; pure report

  unfoldable pub fault_verdict : EngineError → Option Fault → ℤ → Action N Verdict
  unfolding ◌>>=◌ set_node_state
  fault_verdict e (some Fault.locked) noted = do
    set_node_state engine NodeState.locked noted
    pure again
  fault_verdict e (some unreachable) noted = do set_node_state engine down noted; pure again
  fault_verdict e none noted = raise e

  unfoldable pub round_failed : EngineError → ℤ → Action N Verdict
  unfolding ◌>>=◌ fault set_node_state fault_verdict
  round_failed (misconfigured text) noted = do
    set_node_state engine NodeState.misconfigured noted
    pure (finish false)
  round_failed e noted = fault_verdict e (fault e) noted

  unfoldable pub round_outcome : Result EngineError SyncReport → ℤ → Action N Verdict
  unfolding ◌>>=◌ set_node_state round_failed
  round_outcome (ok report) noted = do
    set_node_state engine NodeState.unlocked noted
    pure (finish true)
  round_outcome (err e) noted = round_failed e noted

  unfoldable pub one_round : ℤ → ℤ → Action N Verdict
  unfolding ◌>>=◌ catching round_body round_outcome
  one_round now noted = do result ← catching (round_body now); round_outcome result noted

  -- After a round: leave the loop, give up once the wait is over, or go on to the next round.
  unfoldable pub conclude : Verdict → ℕ → Action N (Option Bool) → Action N (Option Bool)
  unfolding ◌>>=◌
  conclude (finish result) elapsed rest = pure (some result)
  conclude again elapsed rest =
      if leb engine.cfg.reconcile_max_wait_secs elapsed then pure (some false) else rest

  -- None: the rounds given are over and the loop is not.
  unfoldable pub reconcile : List (Round N) → Action N (Option Bool)
  unfolding ◌>>=◌ one_round conclude
  reconcile [] = pure none
  reconcile (r ∷ rs) = do
    verdict ← one_round r.synced_at r.noted_at
    conclude verdict r.elapsed (λ w. reconcile rs (r.meanwhile w))
