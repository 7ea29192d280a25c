-- ===== src/Webhook/Backoff.antt =====
-- The retry delay of webhook.rs. A `u64` saturates at `u64_max`.
use rln_companion.Base.{ℕ, ◌-◌, ◌*◌, ◌^◌, min, String, ltb, leb, if◌then◌else◌}
use rln_companion.Base.Int.{ℤ, ◌+ℤ◌, ltb_ℤ, i64_max, pos, negsuc}

-- `config::Webhook`
pub record WebhookConfig : Type 0 where
  pub url : String
  pub secret : String
  pub max_attempts : ℕ
  pub backoff_base_secs : ℕ
  pub backoff_cap_secs : ℕ
  pub dispatch_interval_secs : ℕ

abbrev pub u64_max : ℕ
u64_max = 2 ^ 64 - 1

-- `1u64.checked_shl(exp).unwrap_or(u64::MAX)`: a shift by the width or more is refused.
unfoldable pub shl_one : ℕ → ℕ
shl_one exp = if ltb exp 64 then 2 ^ exp else u64_max

unfoldable pub saturating_mul : ℕ → ℕ → ℕ
saturating_mul a b = min (a * b) u64_max

unfoldable pub next_attempt_delay : ℕ → WebhookConfig → ℕ
unfolding shl_one saturating_mul
next_attempt_delay attempts_after cfg =
    let exp = attempts_after - 1 in
    let factor = shl_one exp in
    min cfg.backoff_cap_secs (saturating_mul cfg.backoff_base_secs factor)

-- `i64::saturating_add`
unfoldable pub saturating_add : ℤ → ℤ → ℤ
unfolding ◌+ℤ◌
saturating_add a b =
    let sum = a +ℤ b in
    if ltb_ℤ (pos i64_max) sum
    then pos i64_max
    else if ltb_ℤ sum (negsuc i64_max)
    then negsuc i64_max
    else sum

-- `now.saturating_add(i64::try_from(delay).unwrap_or(i64::MAX))`
unfoldable pub retry_at : ℤ → ℕ → ℤ
unfolding saturating_add
retry_at now delay = saturating_add now (pos (if leb delay i64_max then delay else i64_max))
