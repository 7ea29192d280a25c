-- ===== src/Engine/Reap.antt =====
-- reap of engine.rs: it fails the transfers that have expired. The value of `now()` when a state is
-- written is the argument `noted`.
use rln_companion.Base.{
  ℕ, ◌+◌, Option, none, some, List, [], ◌∷◌, Result, pure, raise, ◌>>=◌, ◌>>◌, ok, err,
}
use rln_companion.Base.Int.{ℤ}
use rln_companion.Engine.Fault.{EngineError}
use rln_companion.Engine.State.{Engine, Action, catching, set_node_state}
use rln_companion.Engine.Tick.{raised}
use rln_companion.Rln.Types.{RlnError, cannot_fail, api, transport, decode}
use rln_companion.Store.Transfers.{expired_fallible}
use rln_companion.Store.Types.{TransferStatus, NodeState, Transfer}
use rln_companion.Sync.Apply.{apply_observed}
use rln_companion.World.{on_db, on_node}

-- One step of the loop either goes on to the next transfer or leaves the loop.
pub data Flow : Type 0 where
  proceed stop : ℕ → Flow

module _ {N : Type 0} (engine : Engine N) where
  -- `match self.rln.fail_transfer(idx).await`, with the number of transfers failed so far
  unfoldable pub reap_outcome : Transfer → Result RlnError Unit → ℕ → ℤ → ℤ → Action N Flow
  unfolding ◌>>=◌ raised apply_observed set_node_state
  reap_outcome t (ok _) failed now noted = do
    raised EngineError.sync (apply_observed engine.env t TransferStatus.failed now)
    pure (proceed (failed + 1))
  reap_outcome t (err cannot_fail) failed now noted = pure (proceed failed)
  reap_outcome t (err RlnError.locked) failed now noted = do
    set_node_state engine NodeState.locked noted
    pure (stop failed)
  reap_outcome t (err transport) failed now noted = pure (stop failed)
  reap_outcome t (err (api code name message)) failed now noted =
      raise (EngineError.rln (api code name message))
  reap_outcome t (err decode) failed now noted = raise (EngineError.rln decode)

  -- A transfer without `batch_transfer_idx` is passed over.
  unfoldable pub reap_one : Transfer → Option ℤ → ℕ → ℤ → ℤ → Action N Flow
  unfolding ◌>>=◌ catching on_node reap_outcome
  reap_one t none failed now noted = pure (proceed failed)
  reap_one t (some idx) failed now noted = do
    result ← catching (on_node (λ e. e) (engine.api.fail_transfer idx))
    reap_outcome t result failed now noted

  unfoldable pub reap_each : List Transfer → ℕ → ℤ → ℤ → Action N ℕ
  unfolding ◌>>=◌ reap_one
  reap_each [] failed now noted = pure failed
  reap_each (t ∷ ts) failed now noted = do
    flow ← reap_one t t.batch_transfer_idx failed now noted
    elim flow [ proceed n ↦ reap_each ts n now noted | stop n ↦ pure n ]

  -- The number of transfers failed; the refresh loop is woken exactly if it is not 0.
  unfoldable pub reap : ℤ → ℤ → Action N ℕ
  unfolding ◌>>=◌ on_db expired_fallible reap_each
  reap now noted = do ts ← on_db EngineError.store (expired_fallible now); reap_each ts 0 now noted
