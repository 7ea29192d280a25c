-- ===== src/Engine/Loops.antt =====
-- The four background loops of engine.rs. A loop has no end of its own; here it runs for a list of
-- rounds. A sleep ends with a world that the rest of the program and the node may have changed.
use rln_companion.Base.{not, List, [], ◌∷◌, Result, pure, ◌>>=◌, ◌>>◌, ok, err, if◌then◌else◌}
use rln_companion.Base.Int.{ℤ}
use rln_companion.Engine.Fault.{EngineError, Fault}
use rln_companion.Engine.Reap.{reap}
use rln_companion.Engine.State.{Engine, Action, catching, is_unlocked, probe, classify}
use rln_companion.Engine.Tick.{
  TickOutcome, PaymentsTickOutcome, tick, payments_tick, full_sync, refreshed,
}
use rln_companion.Sync.Run.{SyncReport}
use rln_companion.World.{World}

-- What one round of a loop meets: the world when the sleep before it ends, the values of `now()` in the
-- operation and where it notes the node state, the world when the sleep before a probe ends, and the
-- value of `now()` in the probe.
pub record Wakeup (N : Type 0) : Type 0 where
  pub slept : World N → World N
  pub now : ℤ
  pub noted : ℤ
  pub backed_off : World N → World N
  pub probed : ℤ

module _ {N : Type 0} (engine : Engine N) where
  -- Errors of the probe are only logged.
  unfoldable pub backoff_probe : Wakeup N → Action N Unit
  unfolding catching probe
  backoff_probe r w =
      (ok tt, (catching {F = EngineError} (probe engine r.probed) (r.backed_off w)).1)

  unfoldable pub after_tick : Wakeup N → Result EngineError TickOutcome → Action N Unit
  unfolding backoff_probe
  after_tick r (ok TickOutcome.paused) = backoff_probe r
  after_tick r (ok TickOutcome.locked) = backoff_probe r
  after_tick r (ok TickOutcome.unreachable) = backoff_probe r
  after_tick r (ok TickOutcome.idle) = pure tt
  after_tick r (ok (refreshed report)) = pure tt
  after_tick r (err e) = pure tt

  -- The sleep ends when its time is over or when the engine is woken.
  unfoldable pub refresh_round : Wakeup N → Action N Unit
  unfolding ◌>>=◌ catching tick after_tick
  refresh_round r = do outcome ← catching (tick engine r.now r.noted); after_tick r outcome

  unfoldable pub reaper_round : Wakeup N → Action N Unit
  unfolding ◌>>=◌ is_unlocked catching reap
  reaper_round r w =
      if not (is_unlocked engine w)
      then (ok tt, w)
      else (ok tt, (catching {F = EngineError} (reap engine r.now r.noted) w).1)

  unfoldable pub after_payments : Wakeup N → Result EngineError PaymentsTickOutcome → Action N Unit
  unfolding backoff_probe
  after_payments r (ok PaymentsTickOutcome.unreachable) = backoff_probe r
  after_payments r (ok PaymentsTickOutcome.paused) = pure tt
  after_payments r (ok PaymentsTickOutcome.locked) = pure tt
  after_payments r (ok (PaymentsTickOutcome.synced report)) = pure tt
  after_payments r (err e) = pure tt

  unfoldable pub payments_round : Wakeup N → Action N Unit
  unfolding ◌>>=◌ catching payments_tick after_payments
  payments_round r = do
    outcome ← catching (payments_tick engine r.now r.noted)
    after_payments r outcome

  unfoldable pub after_classify : Wakeup N → Result EngineError Fault → Action N Unit
  unfolding backoff_probe
  after_classify r (ok Fault.unreachable) = backoff_probe r
  after_classify r (ok Fault.locked) = pure tt
  after_classify r (err e) = pure tt

  unfoldable pub after_full_sync : Wakeup N → Result EngineError SyncReport → Action N Unit
  unfolding ◌>>=◌ catching classify after_classify
  after_full_sync r (ok report) = pure tt
  after_full_sync r (err e) = do f ← catching (classify engine e r.noted); after_classify r f

  unfoldable pub full_sync_round : Wakeup N → Action N Unit
  unfolding ◌>>=◌ is_unlocked catching full_sync after_full_sync
  full_sync_round r w =
      if not (is_unlocked engine w)
      then (ok tt, w)
      else (do result ← catching (full_sync engine r.now); after_full_sync r result) w

  -- `loop { sleep; body }`, for the rounds given.
  unfoldable pub looped : (Wakeup N → Action N Unit) → List (Wakeup N) → Action N Unit
  unfolding ◌>>=◌
  looped body [] w = (ok tt, w)
  looped body (r ∷ rs) w = (do body r; looped body rs) (r.slept w)

  unfoldable pub run_refresh_loop : List (Wakeup N) → Action N Unit
  unfolding looped refresh_round
  run_refresh_loop rs = looped refresh_round rs

  unfoldable pub run_reaper : List (Wakeup N) → Action N Unit
  unfolding looped reaper_round
  run_reaper rs = looped reaper_round rs

  unfoldable pub run_payments_loop : List (Wakeup N) → Action N Unit
  unfolding looped payments_round
  run_payments_loop rs = looped payments_round rs

  unfoldable pub run_full_sync_timer : List (Wakeup N) → Action N Unit
  unfolding looped full_sync_round
  run_full_sync_timer rs = looped full_sync_round rs
