-- ===== src/Tests/Runs.antt =====
-- The whole companion at concrete inputs: from the database that the migrations leave, with one
-- invoice, through a sequence of operations.
use rln_companion.Intercept.Routes.{to_rgbinvoice}
use rln_companion.Tests.Sample.{
  invoice, engine, empty_db, one_db, env, seen, node, sync_cfg, world, hook_cfg, receiver,
}
use rln_companion.Sync.Run.{sync, Scope, observed_of}
use rln_companion.Tests.Requests.{wire, proxy, json, parts, times, invoice_hook, invoice_hook}
use rln_companion.Runs.{
  then_step, no_step, intercepted, synced, dispatched, Steps, Companion, Wiring, sent_by, outgoing,
  Steps-Schedule, Steps-ReadsReturn,
}
use rln_companion.Store.Codec.{node_state_to_str, status_from_str, transfer_try_from}
use rln_companion.Base.{ℕ, String, refl, none, [], ◌∷◌, arith, All, some}
use rln_companion.Base.Int.{pos}
use rln_companion.Engine.Tick.{full_sync}
use rln_companion.Intercept.Exchange.{forward_then}
use rln_companion.Store.Transfers.{insert_transfer}
use rln_companion.Store.Types.{NodeState, TransferStatus, terminal}
use rln_companion.Store.Valid.{Valid}
use rln_companion.Store.Valid.Inserts.{insert_transfer-Stays}
use rln_companion.Store.Valid.Reads.{ReadsReturn}
use rln_companion.Sync.Complete.{Steady, full_sync-AllMirrored}
use rln_companion.Webhook.Dispatch.{dispatch_due}
use rln_companion.Webhook.Keeps.{Lasts}
use rln_companion.Store.Pins.{Pins}
use rln_companion.Store.Pins.Statements.{upsert_observed-Pins}
use rln_companion.Store.Upsert.{upsert_observed, apply_transition}
use rln_companion.Store.Rows.{Db}
use rln_companion.Store.Outbox.{mark_delivered}
use rln_companion.Sync.Plan.{rank}
use rln_companion.Sync.Statements.{runs_apply_transition}
use rln_companion.Webhook.Interleaved.{
  Schedule, no_write, then_write, of_part, of_mark_delivered, Schedule-Lasts,
}
use rln_companion.Sync.Lasting.{AllMirrored}

-- The tables after the migrations are valid.
pub empty_db-Valid : Valid empty_db
unfolding node_state_to_str
empty_db-Valid = record {
  ids = λ k. omega arith;
  idxs = λ k. omega arith;
  recipients = λ k. omega arith;
  transfers_ok = tt;
  hashes = λ k. omega arith;
  payments_ok = tt;
  event_ids = λ k. omega arith;
  asset_ids = λ k. omega arith;
  state_ok = (NodeState.unknown, refl);
}

-- And so they are after the invoice has been inserted.
pub one_db-Valid : Valid one_db
unfolding insert_transfer transfer_try_from status_from_str
one_db-Valid = (insert_transfer-Stays "t1" invoice (pos 1)).at empty_db empty_db-Valid

pub steady : Steady node 1000 (("A", "NIA") ∷ []) [] (λ a. seen ∷ [])
steady = record { assets = λ n. refl; assetless = λ n. refl; transfers = λ a n. refl }

full_sync-AllMirrored_example :
    AllMirrored [] (sync env node sync_cfg Scope.full (pos 9) world).1.db
    × All
        (λ (a : String × String).
          AllMirrored (seen ∷ []) (sync env node sync_cfg Scope.full (pos 9) world).1.db)
        (("A", "NIA") ∷ [])
unfolding sync transfer_try_from status_from_str
full_sync-AllMirrored_example =
    full_sync-AllMirrored env node sync_cfg (("A", "NIA") ∷ []) [] (λ a. seen ∷ [])
      (record { assets = 1; transfers = 1; transitions = 1 }) (pos 9) world steady one_db-Valid refl

upsert_observed-Pins_example :
    Pins one_db.transfers
      (upsert_observed "u0" (observed_of (some "A") seen) (pos 9) one_db).1.transfers
upsert_observed-Pins_example =
    upsert_observed-Pins "u0" (observed_of (some "A") seen) (pos 9) one_db one_db-Valid.ids

abbrev pub wiring : Wiring ℕ ℕ String
wiring = record {
  engine = engine;
  wire = wire;
  proxy = proxy;
  json = json;
  client = receiver;
  hook_cfg = hook_cfg;
}

abbrev start : Companion ℕ ℕ
start = record { world = world; hook = 0 }

abbrev with_invoice : Companion ℕ ℕ
with_invoice = record start {
  world = (forward_then engine wire proxy invoice_hook parts "" (pos 9) world).2;
}

abbrev synced_up : Companion ℕ ℕ
synced_up = record with_invoice { world = (full_sync engine (pos 9) with_invoice.world).1 }

-- A request for an invoice, a full sync, and a run of the dispatcher.
three-Steps : Steps wiring start (
    sent_by wiring synced_up (dispatch_due receiver hook_cfg (pos 9) (outgoing wiring synced_up)).1)
three-Steps =
    then_step
      (then_step (then_step (no_step start) (intercepted to_rgbinvoice times parts "" start))
        (synced (pos 9) with_invoice))
      (dispatched (pos 9) synced_up)

Steps-Schedule_example :
    Schedule one_db (dispatch_due receiver hook_cfg (pos 9) (outgoing wiring synced_up)).1.db
Steps-Schedule_example = Steps-Schedule wiring three-Steps

-- What two observers and the dispatcher leave: both observers plan the same transition from the row as
-- the first of them finds it.
abbrev raced : Db
raced =
    let moved = λ (d : Db).
      (apply_transition "t1" TransferStatus.waiting_counterparty TransferStatus.settled none (pos 9)
        d).1 in
    moved (mark_delivered "u1" (pos 9) (moved one_db)).1

race : Schedule one_db raced
unfolding rank terminal
race =
    then_write
      (then_write
        (then_write (no_write one_db) (
          of_part (
            runs_apply_transition "t1" TransferStatus.waiting_counterparty TransferStatus.settled
              none (pos 9) _ refl (omega arith))))
        (of_mark_delivered "u1" (pos 9) _))
      (of_part (
        runs_apply_transition "t1" TransferStatus.waiting_counterparty TransferStatus.settled none
          (pos 9) _ refl (omega arith)))

Schedule-Lasts_example : Lasts one_db raced
Schedule-Lasts_example = Schedule-Lasts race

Steps-ReadsReturn_example :
    ReadsReturn
      (dispatch_due receiver hook_cfg (pos 9) (outgoing wiring synced_up)).1.db
      "t1"
      "h1"
      none
      none
      none
      50
      (pos 9)
Steps-ReadsReturn_example =
    Steps-ReadsReturn wiring "t1" "h1" none none none 50 (pos 9) one_db-Valid three-Steps
