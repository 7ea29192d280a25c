-- ===== src/Webhook/BackoffLaws.antt =====
-- The retry delay is the documented one.
use rln_companion.Base.{
  ℕ, zero, suc, ◌-◌, ◌*◌, ◌^◌, ◌≤◌, min, ◌≡◌, arith, inl, inr, ltb, Bool-cases,
}
use rln_companion.Webhook.Backoff.{WebhookConfig, u64_max, next_attempt_delay}
use native.Mathlib.Nat.{pow-le-pow_right}

-- Past the largest shift both factors exceed every cap.
cap_of_large :
    (cap b f g : ℕ)
    → cap ≤ u64_max
    → u64_max ≤ f
    → u64_max ≤ g
    → min cap (min (b * f) u64_max) ≡ min cap (b * g)
cap_of_large cap zero f g h k l = omega arith
cap_of_large cap (suc b) f g h k l = omega arith

-- If `backoff_cap_secs` is a `u64`, the retry delay is `backoff_base_secs * 2^(attempts-1)` capped at
-- it, for every number of attempts: neither the refused shift nor the saturated product shows.
pub next_attempt_delay_exact :
    (attempts : ℕ) (cfg : WebhookConfig)
    → cfg.backoff_cap_secs ≤ u64_max
    → next_attempt_delay attempts cfg
      ≡ min cfg.backoff_cap_secs (cfg.backoff_base_secs * 2 ^ (attempts - 1))
unfolding next_attempt_delay
next_attempt_delay_exact attempts cfg h = elim (Bool-cases (ltb (attempts - 1) 64)) [
  | inl small ↦ rw small (omega arith)
  | inr large ↦
      let far : 64 ≤ attempts - 1 = ground arith in
      let power : 2 ^ 64 ≤ 2 ^ (attempts - 1) = pow-le-pow_right (omega arith) far in
      rw large (
        cap_of_large cfg.backoff_cap_secs cfg.backoff_base_secs u64_max (2 ^ (attempts - 1)) h
          (omega arith) (omega arith))
]
