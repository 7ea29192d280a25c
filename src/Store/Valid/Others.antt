-- ===== src/Store/Valid/Others.antt =====
-- The statements over the assets, the node state and the outbox keep the database valid.
use rln_companion.Store.Node.{
  set_node_state, has_asset, upsert_asset, upsert_each, upsert_assets, set_last_full_sync_at,
  set_payments_baseline_at,
}
use rln_companion.Base.{
  String, ◌≡◌, refl, inl, inr, false, some, List, [], ◌∷◌, eq_iff, any, Bool-cases,
}
use rln_companion.Base.Int.{ℤ}
use rln_companion.Base.Respects.{Respects}
use rln_companion.Store.Codec.{node_state_to_str}
use rln_companion.Store.Outbox.{
  has_event_id, attempted_row, record_attempt, delivered_row, mark_delivered,
}
use rln_companion.Store.Rows.{OutboxRow, AssetRow, NodeRow, Db}
use rln_companion.Store.Types.{NodeState}
use rln_companion.Store.Valid.{Unique, Valid, Stays, Unique-update, Unique-append}
use mathlib.Core.Path.{subst}

-- A change of those three tables.
Valid-others :
    (d : Db) (assets : List AssetRow) (state : NodeRow) (outbox : List OutboxRow)
    → Unique has_asset assets
    → ((s : NodeState) × (state.state ≡ node_state_to_str s))
    → Unique has_event_id outbox
    → Valid d
    → Valid (record d { assets = assets; node_state = state; outbox = outbox })
Valid-others d assets state outbox asset_ids state_ok event_ids v = record {
  ids = v.ids;
  idxs = v.idxs;
  recipients = v.recipients;
  transfers_ok = v.transfers_ok;
  hashes = v.hashes;
  payments_ok = v.payments_ok;
  event_ids = event_ids;
  asset_ids = asset_ids;
  state_ok = state_ok;
}

upsert_asset-Unique :
    (a : String × String) (now : ℤ) (rows : List AssetRow)
    → Unique has_asset rows
    → Unique has_asset (upsert_asset a now rows)
unfolding upsert_asset
upsert_asset-Unique (asset_id, schema) now rows h =
    elim (Bool-cases (any (has_asset asset_id) rows)) [
      | inl there ↦ rw there (
          Unique-update has_asset (has_asset asset_id)
            (λ r. record r { schema = schema; last_synced_at = some now }) rows (λ k r e. e) h)
      | inr absent ↦ rw absent (
          Unique-append has_asset rows _
            (λ k e. subst (λ i. any (has_asset i) rows ≡ false) ((eq_iff asset_id k).0 e) absent) h)
    ]

upsert_each-Unique :
    (new : List (String × String)) (now : ℤ) (rows : List AssetRow)
    → Unique has_asset rows
    → Unique has_asset (upsert_each new now rows)
unfolding upsert_each
upsert_each-Unique [] now rows h = h
upsert_each-Unique (a ∷ more) now rows h =
    upsert_each-Unique more now (upsert_asset a now rows) (upsert_asset-Unique a now rows h)

pub upsert_assets-Stays :
    (new : List (String × String)) (now : ℤ) → Respects Stays (upsert_assets new now)
unfolding upsert_assets
upsert_assets-Stays new now = record {
  at = λ d v.
      Valid-others d _ d.node_state d.outbox (upsert_each-Unique new now d.assets v.asset_ids)
        v.state_ok v.event_ids v;
}

pub set_node_state-Stays : (state : NodeState) (now : ℤ) → Respects Stays (set_node_state state now)
unfolding set_node_state
set_node_state-Stays state now = record {
  at = λ d v. Valid-others d d.assets _ d.outbox v.asset_ids (state, refl) v.event_ids v;
}

pub set_last_full_sync_at-Stays : (now : ℤ) → Respects Stays (set_last_full_sync_at now)
unfolding set_last_full_sync_at
set_last_full_sync_at-Stays now = record {
  at = λ d v. Valid-others d d.assets _ d.outbox v.asset_ids v.state_ok v.event_ids v;
}

pub set_payments_baseline_at-Stays : (now : ℤ) → Respects Stays (set_payments_baseline_at now)
unfolding set_payments_baseline_at
set_payments_baseline_at-Stays now = record {
  at = λ d v. Valid-others d d.assets _ d.outbox v.asset_ids v.state_ok v.event_ids v;
}

pub record_attempt-Stays : (id : String) (next : ℤ) → Respects Stays (record_attempt id next)
unfolding record_attempt
record_attempt-Stays id next = record {
  at = λ d v.
      Valid-others d d.assets d.node_state _ v.asset_ids v.state_ok
        (Unique-update has_event_id (has_event_id id) (attempted_row next) d.outbox (λ k r h. h)
          v.event_ids)
        v;
}

pub mark_delivered-Stays : (id : String) (now : ℤ) → Respects Stays (mark_delivered id now)
unfolding mark_delivered
mark_delivered-Stays id now = record {
  at = λ d v.
      Valid-others d d.assets d.node_state _ v.asset_ids v.state_ok
        (Unique-update has_event_id (has_event_id id) (delivered_row now) d.outbox (λ k r h. h)
          v.event_ids)
        v;
}
