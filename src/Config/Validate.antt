-- ===== src/Config/Validate.antt =====
-- Config::validate: the checks in their order, the first that fails is the error.
use Prim.Native.String.{◌++◌}
use rln_companion.Api.Token.{is_empty}
use rln_companion.Base.{
  ℕ, String, Bool, not, ◌&&◌, ◌||◌, Option, none, some, List, [], ◌∷◌, Result, and_then, ok, err,
  nat_eq, if◌then◌else◌, ◌==◌, Eq_String,
}
use rln_companion.Config.Hosts.{IpAddr, is_private_host}
use rln_companion.Config.Settings.{Service, RlnConfig, Config}
use rln_companion.Webhook.Backoff.{WebhookConfig}

-- What the code reads of a parsed `Url`.
pub record Url : Type 0 where
  pub scheme : String
  pub host_str : Option String

pub data ConfigError : Type 0 where
  io_error parse_error missing_webhook invalid_port : ConfigError
  invalid_webhook_url public_rln_url invalid_rln_url zero_interval : String → ConfigError

-- The crate `url` and the addresses of `std`: `Url::parse`, with the text of its error, and
-- `parse::<IpAddr>`.
pub record Parsers : Type 0 where
  pub parse_url : String → Result String Url
  pub parse_ip : String → Option IpAddr

abbrev pub is_http : Url → Bool
is_http url = url.scheme == "http" || url.scheme == "https"

abbrev pub intervals : Config → List (String × ℕ)
intervals cfg =
    ("engine.refresh_interval_secs", cfg.engine.refresh_interval_secs)
    ∷ ("engine.reap_interval_secs", cfg.engine.reap_interval_secs)
    ∷ ("engine.payments_poll_interval_secs", cfg.engine.payments_poll_interval_secs)
    ∷ ("engine.reconcile_backoff_secs", cfg.engine.reconcile_backoff_secs)
    ∷ ("sync.full_interval_secs", cfg.sync.full_interval_secs)
    ∷ ("webhook.dispatch_interval_secs", cfg.webhook.dispatch_interval_secs)
    ∷ []

unfoldable pub check_intervals : List (String × ℕ) → Result ConfigError Unit
check_intervals [] = ok tt
check_intervals ((name, value) ∷ more) =
    let rest = check_intervals more in if nat_eq value 0 then err (zero_interval name) else rest

module _ (parsers : Parsers) where
  -- `Url::parse` and the check of the scheme
  unfoldable pub http_url : (String → ConfigError) → String → Result ConfigError Url
  http_url invalid text = elim (parsers.parse_url text) [
    | ok url ↦ if is_http url then ok url else err (invalid text)
    | err e ↦ err (invalid (text ++ ": " ++ e))
  ]

  unfoldable pub check_webhook : WebhookConfig → Result ConfigError Unit
  unfolding http_url
  check_webhook hook =
      if is_empty hook.url || is_empty hook.secret
      then err missing_webhook
      else and_then (http_url invalid_webhook_url hook.url) (λ url. ok tt)

  unfoldable pub check_port : Service → Result ConfigError Unit
  check_port service = if nat_eq service.listen_port 0 then err invalid_port else ok tt

  unfoldable pub check_host : RlnConfig → Option String → Result ConfigError Unit
  unfolding is_private_host
  check_host cfg none = err (invalid_rln_url cfg.base_url)
  check_host cfg (some host) =
      if not cfg.allow_public_url && not (is_private_host parsers.parse_ip host)
      then err (public_rln_url cfg.base_url)
      else ok tt

  unfoldable pub check_rln : RlnConfig → Result ConfigError Unit
  unfolding http_url check_host
  check_rln cfg =
      and_then (http_url invalid_rln_url cfg.base_url) λ url. check_host cfg url.host_str

  unfoldable pub validate : Config → Result ConfigError Unit
  unfolding check_webhook check_port check_intervals check_rln
  validate cfg = and_then (check_webhook cfg.webhook) λ _.
      and_then (check_port cfg.service)
        λ _. and_then (check_intervals (intervals cfg)) λ _. check_rln cfg.rln
