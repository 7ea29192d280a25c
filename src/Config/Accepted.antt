-- ===== src/Config/Accepted.antt =====
-- Which configurations validate.
use rln_companion.Config.Hosts.{is_private_host}
use rln_companion.Api.Token.{is_empty}
use rln_companion.Base.{
  ℕ, ◌≤◌, String, ◌≡◌, refl, ◌↔◌, ◌⊎◌, inl, inr, true, false, ◌||◌, Option, none, some, List, [],
  ◌∷◌, arith, eq_iff, All, Result, and_then, ok, err, Bool-cases, nat_eq, ◌≢◌,
}
use rln_companion.Config.Settings.{RlnConfig, Config}
use rln_companion.Config.Validate.{
  Url, ConfigError, Parsers, is_http, intervals, check_intervals, http_url, check_webhook,
  check_port, check_host, check_rln, validate, invalid_rln_url, invalid_webhook_url,
}
use rln_companion.Intercept.Exchange.{hooked}
use rln_companion.Store.Valid.Reads.{Result-cases}
use mathlib.Core.Path.{subst}
use rln_companion.Webhook.Backoff.{WebhookConfig}

-- A text that parses as a URL of the scheme http or https.
abbrev pub HttpUrl : Parsers → String → Url → Type 0
HttpUrl parsers text url =
    (parsers.parse_url text ≡ ok url) × ((url.scheme ≡ "http") ⊎ (url.scheme ≡ "https"))

-- What the code means a configuration to be: the webhook has a secret and a URL, the port and the six
-- intervals are not zero, and the node is at a URL whose host `is_private_host` takes for private, if no
-- other is allowed.
pub record Accepted (parsers : Parsers) (cfg : Config) : Type 0 where
  pub hook : Url
  pub hook_url : HttpUrl parsers cfg.webhook.url hook
  pub url_given : cfg.webhook.url ≢ ""
  pub secret_given : cfg.webhook.secret ≢ ""
  pub port : 1 ≤ cfg.service.listen_port
  pub refresh : 1 ≤ cfg.engine.refresh_interval_secs
  pub reap : 1 ≤ cfg.engine.reap_interval_secs
  pub payments_poll : 1 ≤ cfg.engine.payments_poll_interval_secs
  pub backoff : 1 ≤ cfg.engine.reconcile_backoff_secs
  pub full_sync : 1 ≤ cfg.sync.full_interval_secs
  pub dispatch : 1 ≤ cfg.webhook.dispatch_interval_secs
  pub node : Url
  pub node_url : HttpUrl parsers cfg.rln.base_url node
  pub host : String
  pub hosted : node.host_str ≡ some host
  pub private : (cfg.rln.allow_public_url ≡ true) ⊎ (is_private_host parsers.parse_ip host ≡ true)

empty_not : (s : String) → is_empty s ≡ false → s ≢ ""
empty_not s h e = cc (rw e at h)

not_empty : (s : String) → s ≢ "" → is_empty s ≡ false
not_empty String.[] h = absurd (h refl)
not_empty (String.◌∷◌ c s) h = refl

is_http_iff : (url : Url) → (is_http url ≡ true) ↔ ((url.scheme ≡ "http") ⊎ (url.scheme ≡ "https"))
is_http_iff url = ground (arith, eq_iff url.scheme "http", eq_iff url.scheme "https")

check_intervals_iff :
    (rows : List (String × ℕ)) → (check_intervals rows ≡ ok tt) ↔ All (λ i. 1 ≤ i.1) rows
unfolding check_intervals
check_intervals_iff [] = (λ e. tt, λ h. refl)
check_intervals_iff ((name, value) ∷ more) = elim (Bool-cases (nat_eq value 0)) [
  | inl none_at_all ↦
      (λ e. cc (rw (check_intervals, none_at_all) at e), λ (h, hs). absurd (ground arith))
  | inr some_time ↦ (
    λ e. (ground arith, (check_intervals_iff more).0 (rw (check_intervals, some_time) at e)),
    λ (h, hs). rw (check_intervals, some_time) ((check_intervals_iff more).1 hs),
  )
]

-- A first check and the rest of the checks.
and_then_ok :
    {A B : Type 0} (r : Result ConfigError A) (f : A → Result ConfigError B) (b : B)
    → and_then r f ≡ ok b
    → (a : A) × (r ≡ ok a) × (f a ≡ ok b)
and_then_ok (ok a) f b h = (a, refl, h)
and_then_ok (err e) f b h = cc

module _ (parsers : Parsers) where
  http_url-ok :
      (invalid : String → ConfigError) (text : String) (url : Url)
      → http_url parsers invalid text ≡ ok url
      → HttpUrl parsers text url
  unfolding http_url
  http_url-ok invalid text url h = elim (Result-cases (parsers.parse_url text)) [
    | inl (u, parsed) ↦ elim (Bool-cases (is_http u)) [
      | inl web ↦
          let same : u ≡ url = cc (rw (http_url, parsed, web) at h) in
          subst (HttpUrl parsers text) same (parsed, (is_http_iff u).0 web)
      | inr other ↦ cc (rw (http_url, parsed, other) at h)
    ]
    | inr (e, failed) ↦ cc (rw (http_url, failed) at h)
  ]

  ok-http_url :
      (invalid : String → ConfigError) (text : String) (url : Url)
      → HttpUrl parsers text url
      → http_url parsers invalid text ≡ ok url
  unfolding http_url
  ok-http_url invalid text url (parsed, web) = rw (http_url, parsed, (is_http_iff url).1 web) refl

  check_host-ok :
      (cfg : RlnConfig) (host_str : Option String)
      → check_host parsers cfg host_str ≡ ok tt
      → (host : String) × (host_str ≡ some host)
        × ((cfg.allow_public_url ≡ true) ⊎ (is_private_host parsers.parse_ip host ≡ true))
  unfolding check_host
  check_host-ok cfg none h = cc
  check_host-ok cfg (some host) h = (host, refl, ground arith)

  ok-check_host :
      (cfg : RlnConfig) (host : String)
      → (cfg.allow_public_url ≡ true) ⊎ (is_private_host parsers.parse_ip host ≡ true)
      → check_host parsers cfg (some host) ≡ ok tt
  unfolding check_host
  ok-check_host cfg host why = ground arith

  check_webhook-ok :
      (hook : WebhookConfig)
      → check_webhook parsers hook ≡ ok tt
      → (url : Url) × HttpUrl parsers hook.url url × (hook.url ≢ "") × (hook.secret ≢ "")
  unfolding check_webhook
  check_webhook-ok hook h = elim (Bool-cases (is_empty hook.url || is_empty hook.secret)) [
    | inl missing ↦ cc (rw (check_webhook, missing) at h)
    | inr present ↦
        let (url, parsed, _) =
          and_then_ok (http_url parsers invalid_webhook_url hook.url) (λ url. ok tt) tt
            (rw (check_webhook, present) at h) in
        (
          url,
          http_url-ok invalid_webhook_url hook.url url parsed,
          empty_not hook.url (ground arith),
          empty_not hook.secret (ground arith),
        )
  ]

  validate-ok : (cfg : Config) → validate parsers cfg ≡ ok tt → Accepted parsers cfg
  unfolding validate check_port check_rln
  validate-ok cfg h =
      let (_, hooked, after_hook) = and_then_ok (check_webhook parsers cfg.webhook) _ tt h in
      let (_, ported, after_port) = and_then_ok (check_port parsers cfg.service) _ tt after_hook in
      let (_, timed, noded) = and_then_ok (check_intervals (intervals cfg)) _ tt after_port in
      let (node, parsed, private) =
        and_then_ok (http_url parsers invalid_rln_url cfg.rln.base_url) _ tt noded in
      let (host, hosted, why) = check_host-ok cfg.rln node.host_str private in
      let (hook, hook_url, url_given, secret_given) = check_webhook-ok cfg.webhook hooked in
      let (refresh, (reap, (poll, (backoff, (full, (dispatch, rest)))))) =
        (check_intervals_iff (intervals cfg)).0 timed in
      record {
        hook = hook;
        hook_url = hook_url;
        url_given = url_given;
        secret_given = secret_given;
        port = ground arith;
        refresh = refresh;
        reap = reap;
        payments_poll = poll;
        backoff = backoff;
        full_sync = full;
        dispatch = dispatch;
        node = node;
        node_url = http_url-ok invalid_rln_url cfg.rln.base_url node parsed;
        host = host;
        hosted = hosted;
        private = why;
      }

  ok-validate : (cfg : Config) → Accepted parsers cfg → validate parsers cfg ≡ ok tt
  unfolding validate check_webhook check_port check_rln
  ok-validate cfg a =
      let ported : nat_eq cfg.service.listen_port 0 ≡ false = let p = a.port in ground arith in
      rw
        (
          not_empty cfg.webhook.url a.url_given,
          not_empty cfg.webhook.secret a.secret_given,
          ok-http_url invalid_webhook_url cfg.webhook.url a.hook a.hook_url,
          ported,
          (check_intervals_iff (intervals cfg)).1 (
            a.refresh,
            (a.reap, (a.payments_poll, (a.backoff, (a.full_sync, (a.dispatch, tt))))),
          ),
          ok-http_url invalid_rln_url cfg.rln.base_url a.node a.node_url,
          a.hosted,
        )
        (ok-check_host cfg.rln a.host a.private)

  -- A configuration validates exactly if its webhook has a secret and a URL of the scheme http or https,
  -- its port and its six intervals are not zero, and its node is at such a URL too, with a host, which
  -- `is_private_host` takes for private unless public ones are allowed.
  pub validate_iff : (cfg : Config) → (validate parsers cfg ≡ ok tt) ↔ Accepted parsers cfg
  validate_iff cfg = (validate-ok cfg, ok-validate cfg)
