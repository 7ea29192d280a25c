-- ===== src/Webhook/Loop.antt =====
-- The loop of webhook.rs. It has no end of its own; here it runs for a list of rounds.
use rln_companion.Base.{List, [], ◌∷◌, Exec, ok}
use rln_companion.Base.Int.{ℤ}
use rln_companion.Store.Types.{StoreError}
use rln_companion.Webhook.Backoff.{WebhookConfig}
use rln_companion.Webhook.Dispatch.{HookClient, Outgoing, dispatch_due}

-- What a round meets: the database and the receiver when the sleep ends, and the value of `now()`.
pub record HookRound (H : Type 0) : Type 0 where
  pub slept : Outgoing H → Outgoing H
  pub now : ℤ

module _ {H : Type 0} (client : HookClient H) (cfg : WebhookConfig) where
  -- The report and the errors are only logged.
  unfoldable pub run : List (HookRound H) → Exec (Outgoing H) StoreError Unit
  unfolding dispatch_due
  run [] w = (ok tt, w)
  run (r ∷ rs) w = run rs (dispatch_due client cfg r.now (r.slept w)).1
