-- ===== src/Tests/Sample.antt =====
-- A node, an environment and a database for the tests.
use rln_companion.Base.{ℕ, zero, suc, ◌+◌, none, some, [], ◌∷◌, ok}
use rln_companion.Base.Int.{pos}
use rln_companion.Engine.State.{Engine}
use rln_companion.Rln.Api.{RlnApi}
use rln_companion.Rln.Types.{RlnTransfer, RlnPayment, inbound_auto_claim}
use rln_companion.Store.Outbox.{Event}
use rln_companion.Store.Rows.{TransferRow, Db}
use rln_companion.Store.Transfers.{inserted_row}
use rln_companion.Store.Types.{
  TransferStatus, Transfer, NewTransfer, waiting_counterparty, succeeded,
}
use rln_companion.Sync.Run.{SyncConfig}
use rln_companion.Webhook.Backoff.{WebhookConfig}
use rln_companion.Webhook.Dispatch.{HookClient}
use rln_companion.World.{World, Env}
use rln_companion.Config.Settings.{default_engine}

abbrev pub empty_db : Db
empty_db = record {
  transfers = [];
  assets = [];
  node_state = record {
    state = "Unknown";
    updated_at = pos 0;
    last_full_sync_at = none;
    payments_baseline_at = none;
  };
  outbox = [];
  payments = [];
}

abbrev pub invoice : NewTransfer
invoice = record {
  asset_id = some "A";
  kind = some "ReceiveBlind";
  status = waiting_counterparty;
  recipient_id = some "r";
  txid = none;
  batch_transfer_idx = some (pos 7);
  invoice = some "rgb:inv";
  expiration_timestamp = some 1700;
}

-- The database after `insert_transfer` of the invoice at time 1, under the id "t1".
abbrev pub one_row : TransferRow
one_row = inserted_row "t1" invoice (some (pos 1700)) (pos 1)

abbrev pub one_db : Db
one_db = record empty_db { transfers = one_row ∷ [] }

abbrev pub stored : Transfer
stored = record {
  id = "t1";
  rln_idx = none;
  asset_id = some "A";
  kind = some "ReceiveBlind";
  status = waiting_counterparty;
  recipient_id = some "r";
  txid = none;
  batch_transfer_idx = some (pos 7);
  invoice = some "rgb:inv";
  expiration_timestamp = some 1700;
  created_at = pos 1;
  updated_at = pos 1;
  last_seen_at = none;
  settled_at = none;
}

abbrev pub settled_event : Event
settled_event = record { event_id = "e1"; event_type = "transfer.settled"; payload = "{}" }

abbrev pub env : Env
env = record {
  uuid = λ n. elim n [ zero ↦ "u0" | suc k ↦ elim k [ zero ↦ "u1" | suc j ↦ "u2" ] ];
  to_string = λ v. some "{}";
}

-- A node that lists one settled transfer of the asset A, and counts the refreshes.
abbrev pub seen : RlnTransfer
seen = record {
  idx = pos 1;
  status = TransferStatus.settled;
  kind = "ReceiveBlind";
  recipient_id = some "r";
  txid = none;
  expiration_timestamp = none;
}

abbrev pub paid : RlnPayment
paid = record {
  amt_msat = some 3000;
  asset_amount = none;
  asset_id = none;
  payment_hash = "h1";
  payment_type = inbound_auto_claim;
  status = succeeded;
  payee_pubkey = "02aa";
}

abbrev pub node : RlnApi ℕ
node = record {
  refresh = λ skip n. (ok tt, n + 1);
  list_transfers = λ asset_id size n. (ok (seen ∷ []), n);
  list_assetless_transfers = λ size n. (ok [], n);
  list_payments = λ size n. (ok (paid ∷ []), n);
  decode_ln_invoice = λ invoice n. (ok "h1", n);
  list_assets = λ n. (ok (("A", "NIA") ∷ []), n);
  fail_transfer = λ idx n. (ok tt, n);
  node_info = λ n. (ok tt, n);
  network = λ n. (ok "Regtest", n);
}

abbrev pub sync_cfg : SyncConfig
sync_cfg = record { full_interval_secs = 600; page_size = 100 }

abbrev pub engine : Engine ℕ
engine = record {
  api = node;
  env = env;
  cfg = default_engine;
  sync_cfg = sync_cfg;
  expected_network = some "regtest";
}

abbrev pub world : World ℕ
world = record { db = one_db; node = 0; drawn = 0 }

-- The same with the node marked unlocked.
abbrev pub open_world : World ℕ
open_world = record world {
  db = record one_db { node_state = record one_db.node_state { state = "Unlocked" } };
}

abbrev pub hook_cfg : WebhookConfig
hook_cfg = record {
  url = "http://127.0.0.1:9000/hook";
  secret = "s";
  max_attempts = 10;
  backoff_base_secs = 2;
  backoff_cap_secs = 300;
  dispatch_interval_secs = 2;
}

-- A receiver that answers 200 to its first request and 500 to the others.
abbrev pub receiver : HookClient ℕ
receiver = record {
  send = λ req n. (elim n [ zero ↦ some 200 | suc k ↦ some 500 ], n + 1);
  hmac_sha256 = λ secret body. [];
  hex_encode = λ bytes. "00";
}
