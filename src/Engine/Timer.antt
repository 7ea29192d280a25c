-- ===== src/Engine/Timer.antt =====
-- What a round of the full sync timer of engine.rs leaves behind.
use rln_companion.Store.Node
use rln_companion.Sync.Run
use rln_companion.Base.{String, ◌≡◌, refl, true, some, List, [], ◌∷◌, All, ◌>>=◌, map_err, ok}
use rln_companion.Base.Int.{ℤ}
use rln_companion.Engine.Loops.{
  Wakeup, after_full_sync, full_sync_round, looped, run_full_sync_timer,
}
use rln_companion.Engine.State.{Engine, catching, is_unlocked}
use rln_companion.Engine.Tick.{raised, full_sync}
use rln_companion.Rln.Types.{RlnTransfer}
use rln_companion.Store.Equality.{node_eq_iff}
use rln_companion.Store.Node.{last_full_sync_at, set_last_full_sync_at}
use rln_companion.Store.Types.{NodeState}
use rln_companion.Store.Valid.{Valid}
use rln_companion.Sync.Complete.{Steady, full_sync-AllMirrored}
use rln_companion.Sync.Lasting.{AllMirrored}
use rln_companion.Sync.Run.{Scope, SyncReport, page_size_for}
use rln_companion.World.{World, on_db}

module _ {N : Type 0} (engine : Engine N) where
  -- The world once the time of a sync has been recorded.
  abbrev synced_at : ℤ → World N → World N
  synced_at now w = record w {
    db = record w.db { node_state = record w.db.node_state { last_full_sync_at = some now } };
  }

  full_sync_lem :
      (now : ℤ) (w : World N) (report : SyncReport)
      → (Run.sync engine.env engine.api engine.sync_cfg Scope.full now w).0 ≡ ok report
      → full_sync engine now w ≡ (
        ok report,
        synced_at now (Run.sync engine.env engine.api engine.sync_cfg Scope.full now w).1,
      )
  unfolding full_sync raised map_err on_db set_last_full_sync_at
  full_sync_lem now w report h = rw h refl

  unlocked_now :
      (w : World N) → (Node.node_state w.db).0 ≡ ok NodeState.unlocked → is_unlocked engine w ≡ true
  unfolding is_unlocked
  unlocked_now w h = rw h ((node_eq_iff NodeState.unlocked NodeState.unlocked).1 refl)

  -- A round of the full sync timer that finds the node marked unlocked and the database valid, and whose
  -- sync returns a report from a node that lists the same while it runs: after the round each transfer
  -- without an asset and each transfer of each listed asset is in the mirror, in a row with its index
  -- whose status is the listed one or has at least its rank, and the time of the sync is recorded.
  pub run_full_sync_timer-AllMirrored :
      (r : Wakeup N) (w : World N) (found : List (String × String)) (bare : List RlnTransfer)
      (listing : String → List RlnTransfer) (report : SyncReport)
      → (Node.node_state (r.slept w).db).0 ≡ ok NodeState.unlocked
      → Steady engine.api (page_size_for Scope.full engine.sync_cfg) found bare listing
      → Valid (r.slept w).db
      → (Run.sync engine.env engine.api engine.sync_cfg Scope.full r.now (r.slept w)).0 ≡ ok report
      → AllMirrored bare (run_full_sync_timer engine (r ∷ []) w).1.db
        × All (λ a. AllMirrored (listing a.0) (run_full_sync_timer engine (r ∷ []) w).1.db) found
        × ((run_full_sync_timer engine (r ∷ []) w).1.db.node_state.last_full_sync_at ≡ some r.now)
  unfolding run_full_sync_timer looped full_sync_round catching ◌>>=◌ after_full_sync
  run_full_sync_timer-AllMirrored r w found bare listing report open_now steady v h =
      let (loose, listed_ones) =
        full_sync-AllMirrored engine.env engine.api engine.sync_cfg found bare listing report r.now
          (r.slept w) steady v h in
      rw (unlocked_now (r.slept w) open_now, full_sync_lem r.now (r.slept w) report h)
        (loose, listed_ones, refl)
