-- ===== src/Engine/Pause.antt =====
-- A tick on a node that is not marked unlocked.
use rln_companion.Store.Node
use rln_companion.Base.{◌≡◌, ◌≢◌, arith, ok}
use rln_companion.Base.Int.{ℤ}
use rln_companion.Engine.State.{Engine}
use rln_companion.Engine.Tick.{TickOutcome, tick}
use rln_companion.Store.Equality.{node_eq_iff}
use rln_companion.Store.Types.{NodeState, unlocked}
use rln_companion.World.{World}

module _ {N : Type 0} (engine : Engine N) where
  -- A tick on a node that is marked anything but unlocked is paused and changes nothing: neither the
  -- node nor the database.
  pub tick_paused :
      (now noted : ℤ) (w : World N) (state : NodeState)
      → (Node.node_state w.db).0 ≡ ok state
      → state ≢ unlocked
      → tick engine now noted w ≡ (ok TickOutcome.paused, w)
  unfolding tick
  tick_paused now noted w state h ne = ground (arith, node_eq_iff state unlocked)
