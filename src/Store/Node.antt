-- ===== src/Store/Node.antt =====
-- The statements of store.rs over the tables `assets` and `node_state`.
use rln_companion.Base.{
  String, List, Option, ok, ◌∷◌, Bool, some, [], ◌++◌, any, update_rows, if◌then◌else◌, ◌==◌,
  Eq_String,
}
use rln_companion.Base.Int.{ℤ}
use rln_companion.Store.Transaction.{Query}
use rln_companion.Store.Types.{NodeState}
use rln_companion.Store.Rows.{AssetRow}
use rln_companion.Store.Codec.{node_state_from_str, node_state_to_str}

abbrev pub has_asset : String → AssetRow → Bool
has_asset asset_id r = r.asset_id == asset_id

-- One `INSERT … ON CONFLICT (asset_id) DO UPDATE` of the loop of `upsert_assets`.
unfoldable pub upsert_asset : String × String → ℤ → List AssetRow → List AssetRow
upsert_asset (asset_id, schema) now rows =
    if any (has_asset asset_id) rows
    then update_rows (has_asset asset_id)
        (λ r. record r { schema = schema; last_synced_at = some now }) rows
    else rows ++ record { asset_id = asset_id; schema = schema; last_synced_at = some now } ∷ []

unfoldable pub upsert_each : List (String × String) → ℤ → List AssetRow → List AssetRow
unfolding upsert_asset
upsert_each [] now rows = rows
upsert_each (a ∷ more) now rows = upsert_each more now (upsert_asset a now rows)

-- No statement of the loop can violate a constraint, so the transaction always commits.
unfoldable pub upsert_assets : List (String × String) → ℤ → Query Unit
unfolding upsert_each
upsert_assets new now d = (ok tt, record d { assets = upsert_each new now d.assets })

unfoldable pub node_state : Query NodeState
node_state d = (node_state_from_str d.node_state.state, d)

unfoldable pub set_node_state : NodeState → ℤ → Query Unit
set_node_state state now d = (
  ok tt,
  record d {
    node_state = record d.node_state { state = node_state_to_str state; updated_at = now };
  },
)

unfoldable pub last_full_sync_at : Query (Option ℤ)
last_full_sync_at d = (ok d.node_state.last_full_sync_at, d)

unfoldable pub set_last_full_sync_at : ℤ → Query Unit
set_last_full_sync_at now d =
    (ok tt, record d { node_state = record d.node_state { last_full_sync_at = some now } })

unfoldable pub payments_baseline_at : Query (Option ℤ)
payments_baseline_at d = (ok d.node_state.payments_baseline_at, d)

unfoldable pub set_payments_baseline_at : ℤ → Query Unit
set_payments_baseline_at now d =
    (ok tt, record d { node_state = record d.node_state { payments_baseline_at = some now } })
