-- ===== src/Assembly.antt =====
-- The program from its command line to the listening socket: build_app of app.rs and run of main.rs up
-- to the spawning of the tasks.
pub mod Started
use rln_companion.Api.Handlers.{ApiState}
use rln_companion.Base.{
  ℕ, ◌-◌, ◌*◌, ◌^◌, min, String, Bool, Option, none, some, Result, map_err, and_then, ok, err,
  if◌then◌else◌,
}
use rln_companion.Base.Int.{ℤ}
use rln_companion.Config.Hosts.{trim_end_matches}
use rln_companion.Config.Settings.{RlnConfig, Config, Args, apply_overrides}
use rln_companion.Config.Validate.{ConfigError, Parsers, validate}
use rln_companion.Engine.Fault.{EngineError}
use rln_companion.Engine.State.{Engine, probe}
use rln_companion.Intercept.Bodies.{Json}
use rln_companion.Proxy.Forward.{Wire, Proxy}
use rln_companion.Rln.Api.{RlnApi}
use rln_companion.Rln.Client.{HttpRlnClient}
use rln_companion.Rln.Types.{RlnError, api, transport}
use rln_companion.Runs.{Wiring}
use rln_companion.Store.Rows.{Db}
use rln_companion.Store.Types.{NodeState, StoreError}
use rln_companion.Webhook.Backoff.{WebhookConfig}
use rln_companion.Webhook.Dispatch.{HookClient}
use rln_companion.World.{World, Env}

-- What starting takes from the system and the crates: `Config::load`, reading a file, `Store::open` with
-- the migrations, whether `reqwest` builds a client for a timeout, and whether a port can be bound.
pub record Host : Type 0 where
  pub load : Option String → Result ConfigError Config
  pub read_file : String → Option String
  pub open_store : String → Result StoreError Db
  pub http_client : ℕ → Bool
  pub bind : ℕ → Bool

pub data AppError : Type 0 where
  config_error : ConfigError → AppError
  store_error : StoreError → AppError
  rln_error : RlnError → AppError
  engine_error : EngineError → AppError
  http_error : AppError
  openapi_error : String → AppError
  bind_error : ℕ → AppError

-- `saturating_mul`, and the conversion of a `u64` to a `usize` of 64 bits
abbrev pub saturated : ℕ → ℕ
saturated n = min n (2 ^ 64 - 1)

-- HttpRlnClient::new
unfoldable pub new_client : Host → RlnConfig → Result RlnError HttpRlnClient
unfolding trim_end_matches
new_client host cfg =
    if host.http_client cfg.request_timeout_secs
    then ok (record { base_url = trim_end_matches b'/' cfg.base_url; token = cfg.token })
    else err transport

-- Proxy::new
unfoldable pub new_proxy : Host → RlnConfig → Result AppError Proxy
unfolding trim_end_matches
new_proxy host cfg =
    if host.http_client cfg.proxy_timeout_secs
    then ok (record {
      base_url = trim_end_matches b'/' cfg.base_url;
      max_body = saturated (cfg.proxy_max_body_mb * (1024 * 1024));
    })
    else err http_error

-- Dispatcher::new, whose client has a timeout of 30 seconds
unfoldable pub new_dispatcher : Host → WebhookConfig → Result AppError WebhookConfig
new_dispatcher host cfg = if host.http_client 30 then ok cfg else err http_error

-- The crates that the parts call, and the client as the trait object that the engine holds.
pub record Crates (N H B : Type 0) : Type 0 where
  pub host : Host
  pub parsers : Parsers
  pub env : Env
  pub wire : Wire N B
  pub json : Json
  pub hook : HookClient H
  pub rln_api : HttpRlnClient → RlnApi N

pub record App (N H B : Type 0) : Type 0 where
  pub parts : Wiring N H B
  pub state : ApiState
  pub db : Db

pub record Running (N H B : Type 0) : Type 0 where
  pub cfg : Config
  pub app : App N H B
  pub world : World N

module _ {N H B : Type 0} (crates : Crates N H B) where
  -- Engine::new
  abbrev pub new_engine : HttpRlnClient → Config → Engine N
  new_engine client cfg = record {
    api = crates.rln_api client;
    env = crates.env;
    cfg = cfg.engine;
    sync_cfg = cfg.sync;
    expected_network = cfg.rln.network;
  }

  unfoldable pub build_app : Config → Option String → Result AppError (App N H B)
  unfolding map_err new_client new_proxy new_dispatcher
  build_app cfg openapi =
      and_then (map_err store_error (crates.host.open_store cfg.database.path)) λ db.
        and_then (map_err rln_error (new_client crates.host cfg.rln)) λ client.
          and_then (new_proxy crates.host cfg.rln) λ proxy.
            and_then (new_dispatcher crates.host cfg.webhook) λ hook_cfg. ok (record {
              parts = record {
                engine = new_engine client cfg;
                wire = crates.wire;
                proxy = proxy;
                json = crates.json;
                client = crates.hook;
                hook_cfg = hook_cfg;
              };
              state = record {
                openapi = openapi;
                auth_token = cfg.service.auth_token;
                webhook_max_attempts = cfg.webhook.max_attempts;
              };
              db = db;
            })

  -- The document to serve, if one is asked for.
  unfoldable pub read_openapi : Option String → Result AppError (Option String)
  read_openapi none = ok none
  read_openapi (some path) = elim (crates.host.read_file path) [
    | some text ↦ ok (some text)
    | none ↦ err (openapi_error path)
  ]

  -- What `?` leaves of a probe, and then the socket.
  abbrev pub listening :
      Config → App N H B → Result EngineError NodeState × World N → Result AppError (Running N H B)
  listening cfg app (err e, w) = err (engine_error e)
  listening cfg app (ok state, w) =
      if crates.host.bind cfg.service.listen_port
      then ok (record { cfg = cfg; app = app; world = w })
      else err (bind_error cfg.service.listen_port)

  -- `run` of main.rs, from the arguments to the socket; `node` and `now` are what the probe meets.
  unfoldable pub start : Args → N → ℤ → Result AppError (Running N H B)
  unfolding map_err apply_overrides validate read_openapi build_app probe
  start args node now = and_then (map_err config_error (crates.host.load args.config)) λ loaded.
      let cfg = apply_overrides loaded args in
      and_then (map_err config_error (validate crates.parsers cfg)) λ _.
        and_then (read_openapi args.openapi) λ openapi. and_then (build_app cfg openapi) λ app.
          listening cfg app
            (probe app.parts.engine now (record { db = app.db; node = node; drawn = 0 }))
