-- ===== src/Tests/Loops.antt =====
-- The background loops at concrete inputs.
use rln_companion.Store.Node
use rln_companion.Tests.Sample.{
  engine, one_db, world, hook_cfg, receiver, env, seen, node, sync_cfg,
}
use rln_companion.Tests.Runs.{one_db-Valid, steady}
use rln_companion.Base.{ℕ, ◌≡◌, refl, ◌≢◌, [], ok, ◌+◌, String, none, some, ◌∷◌, arith, All}
use rln_companion.Base.Int.{pos}
use rln_companion.Engine.Loops.{Wakeup, refresh_round, run_full_sync_timer}
use rln_companion.Engine.Recovery.{refresh_round_recovers}
use rln_companion.Engine.Rounds.{stored_state}
use rln_companion.Engine.State.{probe_checks}
use rln_companion.Store.Codec.{
  node_state_to_str, status_from_str, node_state_from_str, transfer_try_from,
}
use rln_companion.Store.Transfers.{status_in}
use rln_companion.Store.Types.{waiting, NodeState}
use rln_companion.Store.Rows.{OutboxRow}
use rln_companion.Webhook.Delivery.{Settled, run-Settled}
use rln_companion.Webhook.Dispatch.{HookClient, Outgoing}
use rln_companion.Webhook.Loop.{HookRound, run}
use rln_companion.Engine.Timer.{run_full_sync_timer-AllMirrored}
use rln_companion.Store.Valid.{Valid}
use rln_companion.Store.Valid.Others.{set_node_state-Stays}
use rln_companion.Sync.Lasting.{AllMirrored}
use rln_companion.Sync.Run.{sync, page_size_for, Scope}
use rln_companion.World.{World}

-- A round that begins at 9; nothing happens while it sleeps.
abbrev wakeup : Wakeup ℕ
wakeup = record { slept = λ w. w; now = pos 9; noted = pos 9; backed_off = λ w. w; probed = pos 12 }

marked_unknown : (Node.node_state one_db).0 ≡ ok NodeState.unknown
unfolding Node.node_state node_state_from_str
marked_unknown = refl

unknown_ne_unlocked : NodeState.unknown ≢ NodeState.unlocked
unknown_ne_unlocked e = cc

refresh_round_recovers_example :
    stored_state (refresh_round engine wakeup world).1 ≡ node_state_to_str NodeState.unlocked
unfolding probe_checks
refresh_round_recovers_example =
    refresh_round_recovers engine wakeup world NodeState.unknown marked_unknown unknown_ne_unlocked
      refl one_db-Valid

-- The next round settles the invoice.
settles : (refresh_round engine wakeup (refresh_round engine wakeup world).1).1.db.outbox ≢ []
unfolding refresh_round transfer_try_from status_from_str node_state_from_str status_in waiting
    Node.set_node_state
settles e = cc

-- Two events that wait, and a receiver that takes all it is sent.
abbrev waits : String → OutboxRow
waits name = record {
  event = record {
    id = name;
    event_type = "transfer.settled";
    payload = "{}";
    attempts = 0;
    next_attempt_at = pos 1;
  };
  delivered_at = none;
}

abbrev two_wait : Outgoing ℕ
two_wait = record { db = record one_db { outbox = waits "e1" ∷ waits "e2" ∷ [] }; hook = 0 }

abbrev taker : HookClient ℕ
taker = record receiver { send = λ req n. (some 204, n + 1) }

abbrev hook_round : HookRound ℕ
hook_round = record { slept = λ w. w; now = pos 9 }

run-Settled_example : All (Settled 10) (run taker hook_cfg (hook_round ∷ []) two_wait).1.db.outbox
run-Settled_example =
    run-Settled taker hook_cfg hook_round two_wait (λ ev h. (204, refl, omega arith, omega arith))
      (refl, (refl, tt)) (omega arith)

-- The world once the node is marked unlocked.
abbrev opened : World ℕ
opened = record world { db = (Node.set_node_state NodeState.unlocked (pos 2) one_db).1 }

opened-Valid : Valid opened.db
opened-Valid = (set_node_state-Stays NodeState.unlocked (pos 2)).at one_db one_db-Valid

marked_unlocked : (Node.node_state opened.db).0 ≡ ok NodeState.unlocked
unfolding Node.node_state Node.set_node_state node_state_from_str
marked_unlocked = refl

synced_once :
    (sync env node sync_cfg Scope.full (pos 9) opened).0
    ≡ ok (record { assets = 1; transfers = 1; transitions = 1 })
unfolding sync Node.set_node_state transfer_try_from status_from_str
synced_once = refl

run_full_sync_timer-AllMirrored_example :
    AllMirrored [] (run_full_sync_timer engine (wakeup ∷ []) opened).1.db
    × All
        (λ (a : String × String).
          AllMirrored (seen ∷ []) (run_full_sync_timer engine (wakeup ∷ []) opened).1.db)
        (("A", "NIA") ∷ [])
    × ((run_full_sync_timer engine (wakeup ∷ []) opened).1.db.node_state.last_full_sync_at
        ≡ some (pos 9))
unfolding page_size_for
run_full_sync_timer-AllMirrored_example =
    run_full_sync_timer-AllMirrored engine wakeup opened (("A", "NIA") ∷ []) [] (λ a. seen ∷ [])
      (record { assets = 1; transfers = 1; transitions = 1 }) marked_unlocked steady opened-Valid
      synced_once
