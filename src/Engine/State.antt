-- ===== src/Engine/State.antt =====
-- The node state that engine.rs keeps in the store: set_node_state, is_unlocked, check_network,
-- probe and classify. The value of each call of `now()` is an argument.
use Prim.Native.String.{◌++◌}
use rln_companion.Base.{
  ℕ, String, Bool, false, Option, none, some, Result, Exec, pure, raise, ◌>>=◌, ◌>>◌, ok, err,
  if◌then◌else◌, ◌==◌,
}
use rln_companion.Base.Int.{ℤ}
use rln_companion.Base.Text.{eq_ignore_ascii_case}
use rln_companion.Engine.Fault.{EngineError, auth_fault, Fault, fault, misconfigured, unreachable}
use rln_companion.Rln.Api.{RlnApi}
use rln_companion.Store.Types.{NodeState, StoreError, down}
use rln_companion.Sync.Run.{SyncConfig}
use rln_companion.World.{World, Env, on_db, on_node}
use rln_companion.Store.Equality.{Eq_NodeState}
use rln_companion.Store.Node

-- `config::Engine`
pub record EngineConfig : Type 0 where
  pub refresh_interval_secs : ℕ
  pub skip_sync : Bool
  pub reap_interval_secs : ℕ
  pub payments_poll_interval_secs : ℕ
  pub reconcile_backoff_secs : ℕ
  pub reconcile_max_wait_secs : ℕ

pub record Engine (N : Type 0) : Type 0 where
  pub api : RlnApi N
  pub env : Env
  pub cfg : EngineConfig
  pub sync_cfg : SyncConfig
  pub expected_network : Option String

abbrev pub Action : Type 0 → Type 0 → Type 0
Action N A = Exec (World N) EngineError A

-- A value, or the error as a value: what a `match` on an awaited result sees.
unfoldable pub catching : {N A E F : Type 0} → Exec (World N) E A → Exec (World N) F (Result E A)
catching m w = let (r, w') = m w in (ok r, w')

module _ {N : Type 0} (engine : Engine N) where
  -- The first read only decides whether a line is logged, but its error is returned.
  unfoldable pub set_node_state : NodeState → ℤ → Action N Unit
  unfolding ◌>>=◌ on_db Node.node_state Node.set_node_state
  set_node_state state now = do
    on_db EngineError.store Node.node_state
    on_db EngineError.store (Node.set_node_state state now)

  abbrev unlocked_result : Result StoreError NodeState → Bool
  unlocked_result (ok s) = s == NodeState.unlocked
  unlocked_result (err e) = false

  unfoldable pub is_unlocked : World N → Bool
  unfolding Node.node_state
  is_unlocked w = unlocked_result (Node.node_state w.db).0

  abbrev mismatch : String → String → String
  mismatch got want = "node network is " ++ got ++ ", rln.network expects " ++ want

  unfoldable pub check_network : Action N Unit
  unfolding ◌>>=◌ on_node eq_ignore_ascii_case
  check_network = elim engine.expected_network [
    | none ↦ pure tt
    | some want ↦ (do
      got ← on_node auth_fault engine.api.network
      if eq_ignore_ascii_case got want then pure tt else raise (misconfigured (mismatch got want)))
  ]

  unfoldable pub probe_checks : Action N Unit
  unfolding ◌>>=◌ on_node check_network
  probe_checks = do on_node auth_fault engine.api.node_info; check_network

  unfoldable pub probe_error : EngineError → ℤ → Action N NodeState
  unfolding ◌>>=◌ set_node_state
  probe_error (misconfigured text) now = do
    set_node_state NodeState.misconfigured now
    raise (misconfigured text)
  probe_error e now = raise e

  unfoldable pub probe_fault : EngineError → Option Fault → ℤ → Action N NodeState
  unfolding ◌>>=◌ set_node_state probe_error
  probe_fault e (some Fault.locked) now = do
    set_node_state NodeState.locked now
    pure NodeState.locked
  probe_fault e (some unreachable) now = do set_node_state down now; pure down
  probe_fault e none now = probe_error e now

  -- The state that the outcome of the checks stands for; an error that is no fault is returned,
  -- after a misconfiguration has been recorded.
  unfoldable pub probe_outcome : Result EngineError Unit → ℤ → Action N NodeState
  unfolding ◌>>=◌ fault set_node_state probe_fault
  probe_outcome (ok _) now = do set_node_state NodeState.unlocked now; pure NodeState.unlocked
  probe_outcome (err e) now = probe_fault e (fault e) now

  unfoldable pub probe : ℤ → Action N NodeState
  unfolding ◌>>=◌ catching probe_checks probe_outcome
  probe now = do checked ← catching probe_checks; probe_outcome checked now

  unfoldable pub classify : EngineError → ℤ → Action N Fault
  unfolding ◌>>=◌ fault set_node_state
  classify e now = elim (fault e) [
    | some Fault.locked ↦ (do set_node_state NodeState.locked now; pure Fault.locked)
    | some unreachable ↦ pure unreachable
    | none ↦ raise e
  ]
