-- ===== src/Sync/Complete.antt =====
-- After a full sync everything that the node lists is in the mirror.
use rln_companion.Base.{
  ℕ, String, ◌≡◌, refl, sym, ap, ◌∙◌, Option, some, List, [], ◌∷◌, All, ok, Bool, true, none, map,
  Exec, ◌>>=◌, map_err, eq_iff, length, distinct, str_le, ◌==◌, Eq_String,
}
use rln_companion.Base.Int.{ℤ}
use rln_companion.Base.Respects.{bind_ok}
use rln_companion.Base.Tables.{All-of_sort_by, All-of_distinct, All-of_map}
use rln_companion.Rln.Api.{RlnApi}
use rln_companion.Rln.Types.{RlnTransfer, RlnError}
use rln_companion.Store.Valid.{Valid}
use rln_companion.Sync.Mirror.{observe-Mirrored}
use rln_companion.Sync.Run.{
  sync, SyncReport, observe, observe_each, btree_set, fetch_assets, sync_each, scope_ids,
  sync_assetless, Scope, SyncConfig, page_size_for,
}
use rln_companion.Sync.Whole.{
  observe-Forward, observe_each-Forward, sync_each-Forward, scope_ids-Forward,
  sync_assetless-Forward,
}
use rln_companion.World.{World, Env, SyncError, on_node}
use rln_companion.Sync.Statements.{Statements-Progress}
use mathlib.Core.Path.{subst}
use rln_companion.Sync.Lasting.{Mirrored-Progress, AllMirrored, AllMirrored-Progress}

-- A node that lists the same whenever it is asked, while the sync runs.
pub record Steady {N : Type 0} (node : RlnApi N) (size : ℕ) (found : List (String × String))
    (bare : List RlnTransfer) (listing : String → List RlnTransfer) : Type 0 where
  pub assets : (n : N) → (node.list_assets n).0 ≡ ok found
  pub assetless : (n : N) → (node.list_assetless_transfers size n).0 ≡ ok bare
  pub transfers : (a : String) (n : N) → (node.list_transfers a size n).0 ≡ ok (listing a)

-- A set holds what was collected into it.
All-of_btree_set : (P : String → Type 0) (ids : List String) → All P (btree_set ids) → All P ids
unfolding btree_set
All-of_btree_set P ids h =
    All-of_distinct P (λ a b. a == b) ids (λ a b. (eq_iff a b).0)
      (All-of_sort_by P str_le (distinct (λ a b. a == b) ids) h)

module _ {N : Type 0} (env : Env) (node : RlnApi N) where
  observe_each-AllMirrored :
      (asset_id : Option String) (ts : List RlnTransfer) (report report' : SyncReport) (now : ℤ)
      (w : World N)
      → Valid w.db
      → (observe_each env node asset_id ts report now w).0 ≡ ok report'
      → AllMirrored ts (observe_each env node asset_id ts report now w).1.db
  unfolding observe_each
  observe_each-AllMirrored asset_id [] report report' now w v h = tt
  observe_each-AllMirrored asset_id (t ∷ ts) report report' now w v h =
      let next = λ (r : SyncReport). observe_each env node asset_id ts r now in
      let (r1, e1, after) = bind_ok (observe env node report asset_id t now) next w report' h in
      let w1 = (observe env node report asset_id t now w).1 in
      let v1 =
        (Statements-Progress ((observe-Forward env node report asset_id t now).at w)).valid v in
      let h1 : (next r1 w1).0 ≡ ok report' = sym (ap (λ x. x.0) after) ∙ h in
      subst (λ x. AllMirrored (t ∷ ts) x.1.db) (sym after)
        (
          Mirrored-Progress t.idx t.status w1.db (next r1 w1).1.db v1
              (Statements-Progress ((observe_each-Forward env node asset_id ts r1 now).at w1))
              (observe-Mirrored env node report r1 asset_id t now w e1),
          observe_each-AllMirrored asset_id ts r1 report' now w1 v1 h1,
        )

  -- What the node answered is what it lists, and the database is as it was.
  listed_by :
      {A : Type 0} (call : Exec N RlnError A) (answer a : A) (w : World N)
      → ((n : N) → (call n).0 ≡ ok answer)
      → (on_node SyncError.rln call w).0 ≡ ok a
      → answer ≡ a
  unfolding on_node map_err
  listed_by call answer a w steady h = cc (rw (steady w.node) at h)

  db-on_node :
      {A : Type 0} (call : Exec N RlnError A) (w : World N)
      → (on_node SyncError.rln call w).1.db ≡ w.db
  unfolding on_node
  db-on_node call w = refl

  module _ (size : ℕ) (found : List (String × String)) (bare : List RlnTransfer)
      (listing : String → List RlnTransfer) (steady : Steady node size found bare listing) where
    sync_each-AllMirrored :
        (ids : List String) (report report' : SyncReport) (now : ℤ) (w : World N)
        → Valid w.db
        → (sync_each env node size ids report now w).0 ≡ ok report'
        → All (λ a. AllMirrored (listing a) (sync_each env node size ids report now w).1.db) ids
    unfolding sync_each
    sync_each-AllMirrored [] report report' now w v h = tt
    sync_each-AllMirrored (a ∷ ids) report report' now w v h =
        let later = λ (r : SyncReport). sync_each env node size ids r now in
        let seen =
          λ (ts : List RlnTransfer). observe_each env node (some a) ts report now >>= later in
        let call = on_node SyncError.rln (node.list_transfers a size) in
        let (ts, e, after) = bind_ok call seen w report' h in
        let same = listed_by (node.list_transfers a size) (listing a) ts w (steady.transfers a) e in
        let w1 = (call w).1 in
        let v1 : Valid w1.db = subst Valid (sym (db-on_node (node.list_transfers a size) w)) v in
        let h1 : (seen ts w1).0 ≡ ok report' = sym (ap (λ x. x.0) after) ∙ h in
        let (r2, e2, after2) =
          bind_ok (observe_each env node (some a) ts report now) later w1 report' h1 in
        let w2 = (observe_each env node (some a) ts report now w1).1 in
        let v2 =
          (Statements-Progress ((observe_each-Forward env node (some a) ts report now).at w1)).valid
            v1 in
        let h2 : (later r2 w2).0 ≡ ok report' = sym (ap (λ x. x.0) after2) ∙ h1 in
        subst (λ x. AllMirrored (listing a) x.1.db × All (λ i. AllMirrored (listing i) x.1.db) ids)
          (sym (after ∙ after2))
          (
            subst (λ l. AllMirrored l (later r2 w2).1.db) (sym same)
                (AllMirrored-Progress ts w2.db (later r2 w2).1.db v2
                  (Statements-Progress ((sync_each-Forward env node size ids r2 now).at w2))
                  (observe_each-AllMirrored (some a) ts report r2 now w1 v1 e2)),
            sync_each-AllMirrored ids r2 report' now w2 v2 h2,
          )

    sync_assetless-AllMirrored :
        (report report' : SyncReport) (now : ℤ) (w : World N)
        → Valid w.db
        → (sync_assetless env node true size report now w).0 ≡ ok report'
        → AllMirrored bare (sync_assetless env node true size report now w).1.db
    unfolding sync_assetless
    sync_assetless-AllMirrored report report' now w v h =
        let call = on_node SyncError.rln (node.list_assetless_transfers size) in
        let seen = λ (ts : List RlnTransfer). observe_each env node none ts report now in
        let (ts, e, after) = bind_ok call seen w report' h in
        let same = listed_by (node.list_assetless_transfers size) bare ts w steady.assetless e in
        let w1 = (call w).1 in
        let v1 : Valid w1.db =
          subst Valid (sym (db-on_node (node.list_assetless_transfers size) w)) v in
        let h1 : (seen ts w1).0 ≡ ok report' = sym (ap (λ x. x.0) after) ∙ h in
        subst (λ x. AllMirrored bare x.1.db) (sym after)
          (subst (λ l. AllMirrored l (seen ts w1).1.db) (sym same)
            (observe_each-AllMirrored none ts report report' now w1 v1 h1))

    -- The assets of a full sync are those that the node lists.
    full_ids :
        (now : ℤ) (w : World N) (ids : List String × Bool)
        → (scope_ids env node Scope.full now w).0 ≡ ok ids
        → (btree_set (map (λ a. a.0) found), true) ≡ ids
    unfolding scope_ids fetch_assets
    full_ids now w ids h = cc (rw (steady.assets w.node) at h)

-- Whenever a full sync of a valid database returns a report, and the node lists the same while the sync
-- runs, each transfer without an asset and each transfer of each listed asset is in the mirror: in a
-- row with its index, whose status is the listed one or has at least its rank.
pub full_sync-AllMirrored :
    {N : Type 0} (env : Env) (node : RlnApi N) (cfg : SyncConfig) (found : List (String × String))
    (bare : List RlnTransfer) (listing : String → List RlnTransfer) (report : SyncReport) (now : ℤ)
    (w : World N)
    → Steady node (page_size_for Scope.full cfg) found bare listing
    → Valid w.db
    → (sync env node cfg Scope.full now w).0 ≡ ok report
    → AllMirrored bare (sync env node cfg Scope.full now w).1.db
      × All (λ a. AllMirrored (listing a.0) (sync env node cfg Scope.full now w).1.db) found
unfolding sync
full_sync-AllMirrored {N} env node cfg found bare listing report now w steady v h =
    let size = page_size_for Scope.full cfg in
    let start = λ (ids : List String × Bool).
      sync_assetless env node ids.1 size
        (record { assets = length ids.0; transfers = 0; transitions = 0 }) now in
    let later =
      λ (ids : List String × Bool) (r : SyncReport). sync_each env node size ids.0 r now in
    let rest = λ (ids : List String × Bool). start ids >>= later ids in
    let (ids', e, after) = bind_ok (scope_ids env node Scope.full now) rest w report h in
    let ids : List String × Bool = (btree_set (map (λ a. a.0) found), true) in
    let same = full_ids env node size found bare listing steady now w ids' e in
    let w1 = (scope_ids env node Scope.full now w).1 in
    let v1 = (Statements-Progress ((scope_ids-Forward env node Scope.full now).at w)).valid v in
    let after' : (scope_ids env node Scope.full now >>= rest) w ≡ rest ids w1 =
      after ∙ ap (λ i. rest i w1) (sym same) in
    let h1 : (rest ids w1).0 ≡ ok report = sym (ap (λ x. x.0) after') ∙ h in
    let (r2, e2, after2) = bind_ok (start ids) (later ids) w1 report h1 in
    let w2 = (start ids w1).1 in
    let v2 =
      (Statements-Progress ((sync_assetless-Forward env node true size _ now).at w1)).valid v1 in
    let h2 : (later ids r2 w2).0 ≡ ok report = sym (ap (λ x. x.0) after2) ∙ h1 in
    subst (λ x. AllMirrored bare x.1.db × All (λ a. AllMirrored (listing a.0) x.1.db) found)
      (sym (after' ∙ after2))
      (
        AllMirrored-Progress bare w2.db (later ids r2 w2).1.db v2
            (Statements-Progress ((sync_each-Forward env node size ids.0 r2 now).at w2))
            (sync_assetless-AllMirrored env node size found bare listing steady _ r2 now w1 v1 e2),
        All-of_map (λ a. AllMirrored (listing a) (later ids r2 w2).1.db) (λ a. a.0) found
            (All-of_btree_set _ (map (λ a. a.0) found) (
              sync_each-AllMirrored env node size found bare listing steady ids.0 r2 report now w2
                v2 h2)),
      )
