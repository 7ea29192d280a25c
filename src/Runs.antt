-- ===== src/Runs.antt =====
-- The whole companion as one machine: an operation of any part, at any time, is a step. Here an
-- operation runs from its start to its end.
use rln_companion.Webhook.Dispatch.{HookClient, dispatch_due, Outgoing}
use rln_companion.Base.Int.{ℤ}
use rln_companion.Engine.Reap.{reap}
use rln_companion.Engine.Reconcile.{one_round}
use rln_companion.Engine.State.{Engine, probe, classify}
use rln_companion.Engine.Tick.{tick, payments_tick, full_sync, sync_assets_locked}
use rln_companion.Intercept.Bodies.{Json}
use rln_companion.Intercept.Exchange.{forward_then}
use rln_companion.Intercept.Routes.{Route, Times, hook_of}
use rln_companion.Proxy.Fallback.{fallback}
use rln_companion.Proxy.Forward.{Parts, Wire, Proxy}
use rln_companion.Webhook.Backoff.{WebhookConfig}
use rln_companion.World.{World}
use rln_companion.Base.{ℕ, String, Option, List}
use rln_companion.Engine.Forward.{
  tick-Forward, payments_tick-Forward, full_sync-Forward, reap-Forward, classify-Forward,
  sync_assets_locked-Forward,
}
use rln_companion.Engine.Asking.{probe-Forward, one_round-Forward}
use rln_companion.Intercept.Keeps.{fallback-Forward, requests-Forward}
use rln_companion.Store.Types.{TransferStatus, PaymentStatus}
use rln_companion.Store.Valid.{Valid}
use rln_companion.Store.Valid.Reads.{ReadsReturn, reads-Valid}
use rln_companion.Webhook.Keeps.{Lasts}
use rln_companion.Webhook.Interleaved.{
  Schedule, Schedule-order, Schedule-Lasts, Statements-Schedule, dispatch_due-Schedule, no_write,
}
use rln_companion.Engine.Fault.{EngineError}

-- The database and the node, and the receiver of the events.
pub record Companion (N H : Type 0) : Type 0 where
  pub world : World N
  pub hook : H

-- The parts, as main.rs puts them together, and the crates they use.
pub record Wiring (N H B : Type 0) : Type 0 where
  pub engine : Engine N
  pub wire : Wire N B
  pub proxy : Proxy
  pub json : Json
  pub client : HookClient H
  pub hook_cfg : WebhookConfig

module _ {N H B : Type 0} (c : Wiring N H B) where
  -- The companion after an operation on the database and the node.
  abbrev pub moved_to : Companion N H → World N → Companion N H
  moved_to s w = record s { world = w }

  -- The companion after a run of the dispatcher.
  abbrev pub sent_by : Companion N H → Outgoing H → Companion N H
  sent_by s out = record { world = record s.world { db = out.db }; hook = out.hook }

  abbrev pub outgoing : Companion N H → Outgoing H
  outgoing s = record { db = s.world.db; hook = s.hook }

  -- One operation: of a background loop, of a reconcile, a request, a sync that a request has
  -- spawned, or a run of the dispatcher. In the last step the node does something by itself, as when a counterparty settles a transfer.
  pub data Step : Companion N H → Companion N H → Type 0 where
    refreshed :
        (now noted : ℤ) (s : Companion N H)
        → Step s (moved_to s (tick c.engine now noted s.world).1)
    paid :
        (now noted : ℤ) (s : Companion N H)
        → Step s (moved_to s (payments_tick c.engine now noted s.world).1)
    reaped :
        (now noted : ℤ) (s : Companion N H)
        → Step s (moved_to s (reap c.engine now noted s.world).1)
    synced : (now : ℤ) (s : Companion N H) → Step s (moved_to s (full_sync c.engine now s.world).1)
    reconciled :
        (now noted : ℤ) (s : Companion N H)
        → Step s (moved_to s (one_round c.engine now noted s.world).1)
    probed : (now : ℤ) (s : Companion N H) → Step s (moved_to s (probe c.engine now s.world).1)
    classified :
        (e : EngineError) (noted : ℤ) (s : Companion N H)
        → Step s (moved_to s (classify c.engine e noted s.world).1)
    synced_assets :
        (ids : List String) (now noted : ℤ) (s : Companion N H)
        → Step s (moved_to s (sync_assets_locked c.engine ids now noted s.world).1)
    intercepted :
        (route : Route) (times : Times) (parts : Parts) (b : B) (s : Companion N H)
        → Step s (
            moved_to s
              (forward_then c.engine c.wire c.proxy
                (hook_of c.engine c.json route times)
                parts
                b
                times.now
                s.world).2)
    proxied :
        (parts : Parts) (b : B) (now : ℤ) (s : Companion N H)
        → Step s (moved_to s (fallback c.engine c.wire c.proxy parts b now s.world).1)
    dispatched :
        (now : ℤ) (s : Companion N H)
        → Step s (sent_by s (dispatch_due c.client c.hook_cfg now (outgoing s)).1)
    node_acts : (n : N) (s : Companion N H) → Step s (moved_to s (record s.world { node = n }))

  pub data Steps : Companion N H → Companion N H → Type 0 where
    no_step : (s : Companion N H) → Steps s s
    then_step : {s t u : Companion N H} → Steps s t → Step t u → Steps s u

  -- The statements of one operation.
  Step-Schedule : {s t : Companion N H} → Step s t → Schedule s.world.db t.world.db
  Step-Schedule (refreshed now noted s) =
      Statements-Schedule ((tick-Forward c.engine now noted).at s.world)
  Step-Schedule (paid now noted s) =
      Statements-Schedule ((payments_tick-Forward c.engine now noted).at s.world)
  Step-Schedule (reaped now noted s) =
      Statements-Schedule ((reap-Forward c.engine now noted).at s.world)
  Step-Schedule (synced now s) = Statements-Schedule ((full_sync-Forward c.engine now).at s.world)
  Step-Schedule (reconciled now noted s) =
      Statements-Schedule ((one_round-Forward c.engine now noted).at s.world)
  Step-Schedule (probed now s) = Statements-Schedule ((probe-Forward c.engine now).at s.world)
  Step-Schedule (classified e noted s) =
      Statements-Schedule ((classify-Forward c.engine e noted).at s.world)
  Step-Schedule (synced_assets ids now noted s) =
      Statements-Schedule ((sync_assets_locked-Forward c.engine ids now noted).at s.world)
  Step-Schedule (intercepted route times parts b s) =
      Statements-Schedule
        (requests-Forward c.engine c.wire c.proxy c.json route times parts b s.world).0
  Step-Schedule (proxied parts b now s) =
      Statements-Schedule (fallback-Forward c.engine c.wire c.proxy parts b now s.world)
  Step-Schedule (dispatched now s) = (dispatch_due-Schedule c.client c.hook_cfg now).at (outgoing s)
  Step-Schedule (node_acts n s) = no_write s.world.db

  -- Whatever sequence of operations runs, in any order and whatever the node and the receiver answer,
  -- all that it does to the database is a sequence of statements of the kinds that `Write` lists: it
  -- plans no transition but from a status that is not terminal to one of a higher rank, and no payment
  -- transition from `Succeeded`.
  pub Steps-Schedule : {s t : Companion N H} → Steps s t → Schedule s.world.db t.world.db
  Steps-Schedule (no_step s) = no_write s.world.db
  Steps-Schedule (then_step {s} {t} {u} run last) =
      Schedule-order.onwards s.world.db t.world.db u.world.db (Steps-Schedule run)
        (Step-Schedule last)

  pub Steps-Lasts : {s t : Companion N H} → Steps s t → Lasts s.world.db t.world.db
  Steps-Lasts run = Schedule-Lasts (Steps-Schedule run)

  -- Whatever has happened since the database was valid, in any order, no read of the store fails: each
  -- stored value decodes, and the two lists return no more entries than their limits.
  pub Steps-ReadsReturn :
      {s t : Companion N H} (id hash : String) (status : Option TransferStatus)
      (asset_id : Option String) (payment_status : Option PaymentStatus) (limit : ℕ) (now : ℤ)
      → Valid s.world.db
      → Steps s t
      → ReadsReturn t.world.db id hash status asset_id payment_status limit now
  Steps-ReadsReturn id hash status asset_id payment_status limit now v run =
      reads-Valid _ id hash status asset_id payment_status limit now ((Steps-Lasts run).valid v)
