-- ===== src/Engine/Recovery.antt =====
-- The refresh loop brings the node back.
use rln_companion.Engine.State
use rln_companion.Store.Node
use rln_companion.Base.{◌≡◌, refl, sym, ◌≢◌, ◌>>=◌, ok}
use rln_companion.Base.Int.{ℤ}
use rln_companion.Engine.Loops.{Wakeup, backoff_probe, refresh_round}
use rln_companion.Engine.Pause.{tick_paused}
use rln_companion.Engine.Probe.{db-probe_checks}
use rln_companion.Engine.Rounds.{stored_state}
use rln_companion.Engine.State.{
  Engine, Action, catching, is_unlocked, probe_checks, probe_outcome, probe, classify,
}
use rln_companion.Intercept.Exchange.{passed}
use rln_companion.Store.Codec.{node_state_to_str}
use rln_companion.Store.Types.{NodeState, unlocked}
use rln_companion.Store.Valid.{Valid}
use rln_companion.Store.Valid.Reads.{node_state-ok}
use rln_companion.World.{World}
use mathlib.Core.Path.{subst}

module _ {N : Type 0} (engine : Engine N) where
  probe_unlocks :
      (now : ℤ) (w : World N) (old : NodeState)
      → (probe_checks engine w).0 ≡ ok tt
      → (Node.node_state (probe_checks engine w).1.db).0 ≡ ok old
      → stored_state (probe engine now w).1 ≡ node_state_to_str unlocked
  unfolding probe probe_outcome State.set_node_state Node.set_node_state
  probe_unlocks now w old passed readable = rw (passed, readable) refl

  -- A node that is marked anything but unlocked, and that passes the checks of a probe once the refresh
  -- loop has backed off, is marked unlocked when that round of the loop is over, if the database is
  -- valid then.
  pub refresh_round_recovers :
      (r : Wakeup N) (w : World N) (state : NodeState)
      → (Node.node_state w.db).0 ≡ ok state
      → state ≢ unlocked
      → (probe_checks engine (r.backed_off w)).0 ≡ ok tt
      → Valid (r.backed_off w).db
      → stored_state (refresh_round engine r w).1 ≡ node_state_to_str unlocked
  unfolding refresh_round backoff_probe catching ◌>>=◌
  refresh_round_recovers r w state h ne passed valid =
      let checked = r.backed_off w in
      let readable : Valid (probe_checks engine checked).1.db =
        subst Valid (sym (db-probe_checks engine checked)) valid in
      let (old, read) = node_state-ok (probe_checks engine checked).1.db readable in
      rw (tick_paused engine r.now r.noted w state h ne)
        (probe_unlocks r.probed checked old passed read)
