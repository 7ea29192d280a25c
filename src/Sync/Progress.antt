-- ===== src/Sync/Progress.antt =====
-- All that an operation keeps of the mirror: what `Evolves` promises, and of a valid database the
-- validity and the rows bound to an index.
use rln_companion.Store.Node.{
  set_node_state, upsert_assets, set_last_full_sync_at, set_payments_baseline_at,
}
use rln_companion.Base.{◌<◌, String, ◌≡◌, refl, sym, ◌≢◌, false, Option, some, List}
use rln_companion.Base.Int.{ℤ}
use rln_companion.Base.Respects.{Respects}
use rln_companion.Store.Outbox.{Event}
use rln_companion.Store.Payments.{upsert_payment, apply_payment_transition}
use rln_companion.Store.Pins.{idx_at, Pins, Pinned}
use rln_companion.Store.Pins.Statements.{
  insert_transfer-Pinned, apply_transition-Pinned, upsert_payment-Pinned,
  apply_payment_transition-Pinned, upsert_observed-Pins,
}
use rln_companion.Store.Rows.{Db}
use rln_companion.Store.Transaction.{Query}
use rln_companion.Store.Transfers.{insert_transfer}
use rln_companion.Store.Types.{
  TransferStatus, terminal, PaymentStatus, NodeState, NewTransfer, Observed, NewPayment, succeeded,
}
use rln_companion.Store.Upsert.{upsert_observed, apply_transition}
use rln_companion.Store.Valid.{Valid, Stays}
use rln_companion.Store.Valid.Inserts.{insert_transfer-Stays, apply_transition-Stays}
use rln_companion.Store.Valid.Others.{
  upsert_assets-Stays, set_node_state-Stays, set_last_full_sync_at-Stays,
  set_payments_baseline_at-Stays,
}
use rln_companion.Store.Valid.Payments.{upsert_payment-Stays, apply_payment_transition-Stays}
use rln_companion.Store.Valid.Transfers.{upsert_observed-Stays}
use rln_companion.Sync.Evolve.{Evolves, Evolves-refl, Evolves-trans}
use rln_companion.Sync.Moves.{
  apply_transition-Evolves, upsert_payment-Evolves, apply_payment_transition-Evolves,
}
use rln_companion.Sync.Plan.{rank}
use rln_companion.Sync.Steps.{
  upsert_observed-Evolves, insert_transfer-Evolves, upsert_assets-Evolves, set_node_state-Evolves,
  set_last_full_sync_at-Evolves, set_payments_baseline_at-Evolves,
}
use mathlib.Core.Path.{subst}

pub record Progress (d d' : Db) : Type 0 where
  pub evolves : Evolves d d'
  pub valid : Valid d → Valid d'
  pub pins : Valid d → Pins d.transfers d'.transfers

pub Progress-refl : (d : Db) → Progress d d
Progress-refl d = record { evolves = Evolves-refl d; valid = λ v. v; pins = λ v id idx h. h }

pub Progress-trans : (d e f : Db) → Progress d e → Progress e f → Progress d f
Progress-trans d e f h k = record {
  evolves = Evolves-trans d e f h.evolves k.evolves;
  valid = λ v. k.valid (h.valid v);
  pins = λ v id idx b. k.pins (h.valid v) id idx (h.pins v id idx b);
}

-- A statement that keeps the rows bound whatever the database.
progress :
    {A : Type 0} {q : Query A}
    → Respects Evolves q
    → Respects Stays q
    → Respects Pinned q
    → Respects Progress q
progress e s p = record {
  at = λ d. record { evolves = e.at d; valid = s.at d; pins = λ v. p.at d };
}

-- A statement on other tables than `transfers`.
same_transfers :
    {A : Type 0} {q : Query A} → ((d : Db) → (q d).1.transfers ≡ d.transfers) → Respects Pinned q
same_transfers same = record {
  at = λ d id idx h. subst (λ rows. idx_at id rows ≡ some (some idx)) (sym (same d)) h;
}

pub upsert_observed-Progress :
    (fresh : String) (o : Observed) (now : ℤ) → Respects Progress (upsert_observed fresh o now)
upsert_observed-Progress fresh o now = record {
  at = λ d. record {
    evolves = (upsert_observed-Evolves fresh o now).at d;
    valid = (upsert_observed-Stays fresh o now).at d;
    pins = λ v. upsert_observed-Pins fresh o now d v.ids;
  };
}

pub insert_transfer-Progress :
    (fresh : String) (t : NewTransfer) (now : ℤ) → Respects Progress (insert_transfer fresh t now)
insert_transfer-Progress fresh t now =
    progress (insert_transfer-Evolves fresh t now) (insert_transfer-Stays fresh t now)
      (insert_transfer-Pinned fresh t now)

pub apply_transition-Progress :
    (id : String) (from to : TransferStatus) (event : Option Event) (now : ℤ)
    → terminal from ≡ false
    → rank from < rank to
    → Respects Progress (apply_transition id from to event now)
apply_transition-Progress id from to event now open_from less =
    progress (apply_transition-Evolves id from to event now open_from less)
      (apply_transition-Stays id from to event now) (apply_transition-Pinned id from to event now)

pub upsert_payment-Progress :
    (p : NewPayment) (seen : Option ℤ) (now : ℤ) → Respects Progress (upsert_payment p seen now)
upsert_payment-Progress p seen now =
    progress (upsert_payment-Evolves p seen now) (upsert_payment-Stays p seen now)
      (upsert_payment-Pinned p seen now)

pub apply_payment_transition-Progress :
    (hash : String) (from to : PaymentStatus) (event : Option Event) (now : ℤ)
    → from ≢ succeeded
    → Respects Progress (apply_payment_transition hash from to event now)
apply_payment_transition-Progress hash from to event now open_from =
    progress (apply_payment_transition-Evolves hash from to event now open_from)
      (apply_payment_transition-Stays hash from to event now)
      (apply_payment_transition-Pinned hash from to event now)

pub upsert_assets-Progress :
    (new : List (String × String)) (now : ℤ) → Respects Progress (upsert_assets new now)
unfolding upsert_assets
upsert_assets-Progress new now =
    progress (upsert_assets-Evolves new now) (upsert_assets-Stays new now)
      (same_transfers (λ d. refl))

pub set_node_state-Progress :
    (state : NodeState) (now : ℤ) → Respects Progress (set_node_state state now)
unfolding set_node_state
set_node_state-Progress state now =
    progress (set_node_state-Evolves state now) (set_node_state-Stays state now)
      (same_transfers (λ d. refl))

pub set_last_full_sync_at-Progress : (now : ℤ) → Respects Progress (set_last_full_sync_at now)
unfolding set_last_full_sync_at
set_last_full_sync_at-Progress now =
    progress (set_last_full_sync_at-Evolves now) (set_last_full_sync_at-Stays now)
      (same_transfers (λ d. refl))

pub set_payments_baseline_at-Progress : (now : ℤ) → Respects Progress (set_payments_baseline_at now)
unfolding set_payments_baseline_at
set_payments_baseline_at-Progress now =
    progress (set_payments_baseline_at-Evolves now) (set_payments_baseline_at-Stays now)
      (same_transfers (λ d. refl))
