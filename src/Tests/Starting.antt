-- ===== src/Tests/Starting.antt =====
-- The program started at concrete inputs.
use rln_companion.Tests.Sample.{node, env, empty_db, receiver, engine}
use rln_companion.Tests.Settings.{parsers, with_hook}
use rln_companion.Tests.Requests.{wire, json}
use rln_companion.Assembly.{Host, Crates, App, Running, start, openapi_error}
use rln_companion.Assembly.Started.{start-Started, Started}
use rln_companion.Base.{ℕ, String, ◌≡◌, refl, true, none, some, ok, err}
use rln_companion.Base.Int.{pos}
use rln_companion.Config.Settings.{Config, Args}
use rln_companion.Engine.State.{probe}
use rln_companion.Store.Codec.{node_state_from_str}
use rln_companion.Store.Node

abbrev host : Host
host = record {
  load = λ path. ok with_hook;
  read_file = λ path. none;
  open_store = λ path. ok empty_db;
  http_client = λ timeout. true;
  bind = λ port. true;
}

abbrev crates : Crates ℕ ℕ String
crates = record {
  host = host;
  parsers = parsers;
  env = env;
  wire = wire;
  json = json;
  hook = receiver;
  rln_api = λ client. node;
}

abbrev no_args : Args
no_args = record {
  config = none;
  listen_port = none;
  rln_url = some "http://10.0.0.1:3001/";
  db_path = none;
  openapi = none;
}

abbrev settings : Config
settings = record with_hook { rln = record with_hook.rln { base_url = "http://10.0.0.1:3001/" } }

abbrev app : App ℕ ℕ String
app = record {
  parts = record {
    engine = record engine { expected_network = none };
    wire = wire;
    proxy = record { base_url = "http://10.0.0.1:3001"; max_body = 67108864 };
    json = json;
    client = receiver;
    hook_cfg = with_hook.webhook;
  };
  state = record { openapi = none; auth_token = none; webhook_max_attempts = 10 };
  db = empty_db;
}

abbrev running : Running ℕ ℕ String
running = record {
  cfg = settings;
  app = app;
  world = (probe app.parts.engine (pos 5) (record { db = empty_db; node = 0; drawn = 0 })).1;
}

starts : start crates no_args 0 (pos 5) ≡ ok running
unfolding start node_state_from_str Node.set_node_state
starts = refl

start-Started_example : Started crates no_args 0 running
start-Started_example = start-Started crates no_args 0 (pos 5) running starts

-- A document that cannot be read stops the program.
stops :
    start crates (record no_args { openapi = some "rln.yaml" }) 0 (pos 5)
    ≡ err (openapi_error "rln.yaml")
unfolding start
stops = refl
