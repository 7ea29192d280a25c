-- ===== src/Api/Health.antt =====
-- What the health route says of a valid database.
use rln_companion.Store.Node.{node_state, last_full_sync_at}
use rln_companion.Api.Handlers.{from_pool, ApiState, Health, node_name, health}
use rln_companion.Base.{
  ℕ, ◌≡◌, ◌∙◌, ◌↔◌, not, ◌&&◌, List, length, where_rows, count, ok, nat_eq, if◌then◌else◌, ◌==◌,
  String, refl, Bool, arith, true, false,
}
use rln_companion.Base.Tables.{length-where_rows, length-sort_by}
use rln_companion.Store.Outbox.{is_parked, parked_events_count}
use rln_companion.Store.Payments.{payments_by_age, payment_status_in, pending_payments}
use rln_companion.Store.Rows.{TransferRow, PaymentRow, Db}
use rln_companion.Store.Transfers.{by_age, status_in, pending_transfers}
use rln_companion.Store.Types.{waiting, payment_terminal, NodeState, Transfer, Payment}
use rln_companion.Store.Valid.{Valid}
use rln_companion.Store.Valid.Reads.{
  collect_transfers-ok, collect_payments-ok, selected-ok, selected_payments-ok, node_state-ok,
}
use rln_companion.Store.Equality.{Eq_NodeState, node_eq_iff}

pending_transfers-count :
    (d : Db)
    → Valid d
    → (ts : List Transfer) × ((pending_transfers d).0 ≡ ok ts)
      × (length ts ≡ count (λ r. status_in waiting r.status) d.transfers)
unfolding pending_transfers
pending_transfers-count d v =
    let p = λ (r : TransferRow). status_in waiting r.status in
    let (ts, e, same) =
      collect_transfers-ok (by_age (where_rows p d.transfers)) (selected-ok p d v) in
    (ts, e, same ∙ length-sort_by _ (where_rows p d.transfers) ∙ length-where_rows p d.transfers)

pending_payments-count :
    (d : Db)
    → Valid d
    → (ps : List Payment) × ((pending_payments d).0 ≡ ok ps)
      × (length ps
          ≡ count (λ r. payment_status_in (λ s. not (payment_terminal s)) r.status) d.payments)
unfolding pending_payments
pending_payments-count d v =
    let p = λ (r : PaymentRow). payment_status_in (λ s. not (payment_terminal s)) r.status in
    let (ps, e, same) =
      collect_payments-ok (payments_by_age (where_rows p d.payments))
        (selected_payments-ok p d v) in
    (ps, e, same ∙ length-sort_by _ (where_rows p d.payments) ∙ length-where_rows p d.payments)

-- The answer of the health route, by what the tables hold.
pub record Healthy (state : ApiState) (d : Db) (h : Health) : Type 0 where
  pub marked : NodeState
  pub reads : (node_state d).0 ≡ ok marked
  pub node : h.node ≡ node_name marked
  pub transfers : h.pending_transfers ≡ count (λ r. status_in waiting r.status) d.transfers
  pub payments :
      h.pending_payments
      ≡ count (λ r. payment_status_in (λ s. not (payment_terminal s)) r.status) d.payments
  pub parked : h.parked_events ≡ count (is_parked state.webhook_max_attempts) d.outbox
  pub status : (h.status ≡ "ok") ↔ (
      (marked ≡ NodeState.unlocked) × (count (is_parked state.webhook_max_attempts) d.outbox ≡ 0))

abbrev status_text : Bool → String
status_text healthy = if healthy then "ok" else "degraded"

status_text_iff : (b : Bool) → (status_text b ≡ "ok") ↔ (b ≡ true)
status_text_iff true = (λ e. refl, λ e. refl)
status_text_iff false = (λ e. cc, λ e. cc)

both_iff :
    (s : NodeState) (n m : ℕ)
    → n ≡ m
    → ((s == NodeState.unlocked && nat_eq n 0) ≡ true) ↔ ((s ≡ NodeState.unlocked) × (m ≡ 0))
both_iff s n m h = (
  λ e. ground (arith, (node_eq_iff s NodeState.unlocked).0),
  λ (e, z). ground (arith, (node_eq_iff s NodeState.unlocked).1 e),
)

status_iff :
    (s : NodeState) (n m : ℕ)
    → n ≡ m
    → (status_text (s == NodeState.unlocked && nat_eq n 0) ≡ "ok")
      ↔ ((s ≡ NodeState.unlocked) × (m ≡ 0))
status_iff s n m h =
    let text = status_text_iff (s == NodeState.unlocked && nat_eq n 0) in
    let both = both_iff s n m h in (λ e. both.0 (text.0 e), λ e. text.1 (both.1 e))

-- The health route of a valid database always answers, and changes nothing: with the name of the node's
-- state, how many transfers wait, how many payments are not terminal and how many events are parked, and
-- it is ok exactly if the node is marked unlocked and no event is parked.
pub health-Healthy :
    (state : ApiState) (d : Db)
    → Valid d
    → (h : Health) × (health state d ≡ (ok h, d)) × Healthy state d h
unfolding health from_pool parked_events_count last_full_sync_at
health-Healthy state d v =
    let (s, read) = node_state-ok d v in
    let (ts, e, n) = pending_transfers-count d v in
    let (ps, e', m) = pending_payments-count d v in
    let parked = length (where_rows (is_parked state.webhook_max_attempts) d.outbox) in
    let h : Health = record {
      status = status_text (s == NodeState.unlocked && nat_eq parked 0);
      node = node_name s;
      pending_transfers = length ts;
      pending_payments = length ps;
      parked_events = parked;
      last_full_sync_at = d.node_state.last_full_sync_at;
    } in
    (
      h,
      rw (health, read, e, e') refl,
      record {
        marked = s;
        reads = read;
        node = refl;
        transfers = n;
        payments = m;
        parked = length-where_rows _ d.outbox;
        status = status_iff s _ _ (length-where_rows _ d.outbox);
      },
    )
