-- ===== src/Tests/Engines.antt =====
-- The engine at concrete inputs.
use rln_companion.Store.Node
use rln_companion.Base.{ℕ, ◌≡◌, refl, ◌≢◌, true, none, some, List, [], ◌∷◌, ok}
use rln_companion.Base.Int.{pos}
use rln_companion.Engine.Forward.{background-Evolves}
use rln_companion.Engine.Reap.{reap}
use rln_companion.Engine.Reconcile.{Round, reconcile}
use rln_companion.Engine.Rounds.{Reconciled, reconcile-Reconciled, reconcile-ne-none, stored_state}
use rln_companion.Engine.Tick.{tick, payments_tick, full_sync, refreshed}
use rln_companion.Store.Codec.{status_from_str, node_state_from_str, transfer_try_from}
use rln_companion.Store.Types.{waiting, fallible}
use rln_companion.Store.Transfers.{status_in}
use rln_companion.Sync.Evolve.{Evolves}
use rln_companion.Tests.Sample.{engine, world, open_world}
use rln_companion.Engine.Probe.{AfterProbe, probe-AfterProbe}
use rln_companion.Engine.State.{probe}

background-Evolves_example :
    Evolves open_world.db (tick engine (pos 9) (pos 9) open_world).1.db
    × Evolves open_world.db (payments_tick engine (pos 9) (pos 9) open_world).1.db
    × Evolves open_world.db (reap engine (pos 9) (pos 9) open_world).1.db
    × Evolves open_world.db (full_sync engine (pos 9) open_world).1.db
background-Evolves_example = background-Evolves engine (pos 9) (pos 9) open_world

-- A tick refreshes the node once, and settles the invoice.
ticks :
    ((tick engine (pos 9) (pos 9) open_world).0
      ≡ ok (refreshed (record { assets = 1; transfers = 1; transitions = 1 })))
    × ((tick engine (pos 9) (pos 9) open_world).1.node ≡ 1)
unfolding tick transfer_try_from status_from_str node_state_from_str status_in waiting
ticks = (refl, refl)

-- The reaper fails the expired invoice.
reaps : (reap engine (pos 2000) (pos 2000) open_world).0 ≡ ok 1
unfolding reap transfer_try_from status_from_str Node.set_node_state status_in fallible
reaps = refl

abbrev rounds : List (Round ℕ)
rounds = record { synced_at = pos 9; noted_at = pos 9; elapsed = 600; meanwhile = λ w. w } ∷ []

reconciles : (reconcile engine rounds world).0 ≡ ok (some true)
unfolding reconcile transfer_try_from status_from_str node_state_from_str Node.node_state
reconciles = refl

reconcile-Reconciled_example : Reconciled engine true (reconcile engine rounds world).1
reconcile-Reconciled_example = reconcile-Reconciled engine rounds world true reconciles

reconcile-ne-none_example : (reconcile engine rounds world).0 ≢ ok none
reconcile-ne-none_example = reconcile-ne-none engine rounds world refl

-- The node is unlocked, and on the expected network.
probe-AfterProbe_example :
    AfterProbe engine
      (stored_state world)
      (probe engine (pos 9) world).0
      (probe engine (pos 9) world).1
probe-AfterProbe_example = probe-AfterProbe engine (pos 9) world
