-- ===== src/Config/Settings.antt =====
-- The settings of config.rs with their defaults, and how main.rs puts the command line over them.
-- `u16`, `u32` and `u64` are numbers.
use rln_companion.Base.{ℕ, String, Bool, false, Option, none, some}
use rln_companion.Engine.State.{EngineConfig}
use rln_companion.Sync.Run.{SyncConfig}
use rln_companion.Webhook.Backoff.{WebhookConfig}

pub record Service : Type 0 where
  pub listen_port : ℕ
  pub auth_token : Option String

pub record RlnConfig : Type 0 where
  pub base_url : String
  pub token : Option String
  pub network : Option String
  pub request_timeout_secs : ℕ
  pub proxy_timeout_secs : ℕ
  pub proxy_max_body_mb : ℕ
  pub allow_public_url : Bool

pub record Database : Type 0 where
  pub path : String

pub record Config : Type 0 where
  pub service : Service
  pub rln : RlnConfig
  pub engine : EngineConfig
  pub sync : SyncConfig
  pub webhook : WebhookConfig
  pub database : Database

abbrev pub default_service : Service
default_service = record { listen_port = 3101; auth_token = none }

abbrev pub default_rln : RlnConfig
default_rln = record {
  base_url = "http://127.0.0.1:3001";
  token = none;
  network = none;
  request_timeout_secs = 120;
  proxy_timeout_secs = 600;
  proxy_max_body_mb = 64;
  allow_public_url = false;
}

abbrev pub default_engine : EngineConfig
default_engine = record {
  refresh_interval_secs = 10;
  skip_sync = false;
  reap_interval_secs = 300;
  payments_poll_interval_secs = 3;
  reconcile_backoff_secs = 5;
  reconcile_max_wait_secs = 600;
}

abbrev pub default_sync : SyncConfig
default_sync = record { full_interval_secs = 600; page_size = 100 }

abbrev pub default_webhook : WebhookConfig
default_webhook = record {
  url = "";
  secret = "";
  max_attempts = 10;
  backoff_base_secs = 2;
  backoff_cap_secs = 300;
  dispatch_interval_secs = 2;
}

abbrev pub default_config : Config
default_config = record {
  service = default_service;
  rln = default_rln;
  engine = default_engine;
  sync = default_sync;
  webhook = default_webhook;
  database = record { path = "companion.sqlite" };
}

pub record Args : Type 0 where
  pub config : Option String
  pub listen_port : Option ℕ
  pub rln_url : Option String
  pub db_path : Option String
  pub openapi : Option String

abbrev pub given : {A : Type 0} → Option A → A → A
given none old = old
given (some new) old = new

unfoldable pub apply_overrides : Config → Args → Config
apply_overrides cfg args = record cfg {
  service = record cfg.service { listen_port = given args.listen_port cfg.service.listen_port };
  rln = record cfg.rln { base_url = given args.rln_url cfg.rln.base_url };
  database = record { path = given args.db_path cfg.database.path };
}
