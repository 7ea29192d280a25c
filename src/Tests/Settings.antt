-- ===== src/Tests/Settings.antt =====
-- Configurations at concrete values.
use rln_companion.Config.Hosts.{is_private_host, v4}
use rln_companion.Base.{◌≡◌, refl, ◌↔◌, true, none, some, ok, err}
use rln_companion.Config.Accepted.{Accepted, validate_iff}
use rln_companion.Config.Settings.{Config, default_webhook, default_config, apply_overrides}
use rln_companion.Config.Validate.{Parsers, validate, missing_webhook, invalid_port}

-- Two URLs, and the address 10.0.0.1.
abbrev pub parsers : Parsers
parsers = record {
  parse_url = λ text. ok (record { scheme = "http"; host_str = some "10.0.0.1" });
  parse_ip = λ host. some (v4 (record { a = 10; b = 0; c = 0; d = 1 }));
}

abbrev pub with_hook : Config
with_hook = record default_config {
  webhook = record default_webhook { url = "http://127.0.0.1:9000/hook"; secret = "s" };
}

validate_iff_example : (validate parsers with_hook ≡ ok tt) ↔ Accepted parsers with_hook
validate_iff_example = validate_iff parsers with_hook

accepts : validate parsers with_hook ≡ ok tt
unfolding validate
accepts = refl

rejects_default : validate parsers default_config ≡ err missing_webhook
unfolding validate
rejects_default = refl

rejects_port :
    validate parsers (
      apply_overrides with_hook (record {
        config = none;
        openapi = none;
        listen_port = some 0;
        rln_url = none;
        db_path = none;
      }))
    ≡ err invalid_port
unfolding validate apply_overrides
rejects_port = refl

-- A host name in brackets is not an address, and has no dot.
names_local : is_private_host (λ host. none) "[rln]" ≡ true
unfolding is_private_host
names_local = refl
