-- ===== src/Sync/Forward.antt =====
-- A sync, whatever the node answers and wherever it stops, moves the mirror only forward.
use rln_companion.Base.{
  ◌<◌, ◌≡◌, refl, Bool, false, Option, none, some, Result, Exec, pure, raise, lift, ◌>>=◌,
  if◌then◌else◌, ◌≢◌,
}
use rln_companion.Base.Int.{ℤ}
use rln_companion.Base.Respects.{
  Preorder, Respects, Respects-pure, Respects-raise, Respects-lift, Respects-bind, Respects-if,
}
use rln_companion.Rln.Types.{RlnError}
use rln_companion.Store.Outbox.{Event}
use rln_companion.Store.Rows.{Db}
use rln_companion.Store.Transaction.{Query}
use rln_companion.Store.Types.{
  TransferStatus, terminal, Transfer, StoreError, PaymentStatus, Payment, succeeded,
}
use rln_companion.Sync.Apply.{carry_out, apply_observed, carry_out_payment, apply_payment_observed}
use rln_companion.Sync.Plan.{
  Transition, rank, plan_transition, PaymentTransition, plan_payment_transition,
}
use rln_companion.World.{World, Env, on_db, on_node, draw}
use rln_companion.Sync.Plan.Laws.{from_ne_succeeded, planned_forward}
use rln_companion.Sync.Statements.{
  Statements, Statements-order, apply_transition-Statements, apply_payment_transition-Statements,
}

abbrev pub Forward : {N : Type 0} → World N → World N → Type 0
Forward w w' = Statements w.db w'.db

pub Forward-order : {N : Type 0} → Preorder (Forward {N = N})
Forward-order = record {
  here = λ w. Statements-order.here w.db;
  onwards = λ s t u. Statements-order.onwards s.db t.db u.db;
}

module _ {N E : Type 0} where
  pub pure-Forward : {A : Type 0} (a : A) → Respects {E = E} (Forward {N = N}) (pure a)
  pure-Forward a = Respects-pure Forward-order a

  pub raise-Forward : {A : Type 0} (e : E) → Respects {A = A} (Forward {N = N}) (raise e)
  raise-Forward e = Respects-raise Forward-order e

  pub lift-Forward : {A : Type 0} (r : Result E A) → Respects (Forward {N = N}) (lift r)
  lift-Forward r = Respects-lift Forward-order r

  pub bind-Forward :
      {A B : Type 0} (m : Exec (World N) E A) (f : A → Exec (World N) E B)
      → Respects Forward m
      → ((a : A) → Respects Forward (f a))
      → Respects Forward (m >>= f)
  bind-Forward m f h k = Respects-bind Forward-order m f h k

  pub if-Forward :
      {A : Type 0} (b : Bool) (m n : Exec (World N) E A)
      → Respects Forward m
      → Respects Forward n
      → Respects Forward (if b then m else n)
  if-Forward b m n h k = Respects-if Forward-order b m n h k

  pub on_db-Forward :
      {A : Type 0} (from : StoreError → E) (q : Query A)
      → Respects Statements q
      → Respects (Forward {N = N}) (on_db from q)
  unfolding on_db
  on_db-Forward from q h = record { at = λ w. h.at w.db }

  pub on_node-Forward :
      {A : Type 0} (from : RlnError → E) (call : Exec N RlnError A)
      → Respects Forward (on_node from call)
  unfolding on_node
  on_node-Forward from call = record { at = λ w. Statements-order.here w.db }

  pub draw-Forward : (env : Env) → Respects {E = E} (Forward {N = N}) (draw env)
  unfolding draw
  draw-Forward env = record { at = λ w. Statements-order.here w.db }

  -- A query that only reads.
  pub read-Forward :
      {A : Type 0} (from : StoreError → E) (q : Query A)
      → ((d : Db) → (q d).1 ≡ d)
      → Respects (Forward {N = N}) (on_db from q)
  unfolding on_db
  read-Forward from q h = record { at = λ w. rw h (Statements-order.here w.db) }

pub ruleset forward_rules = (
  pure-Forward, raise-Forward, lift-Forward, bind-Forward, if-Forward, on_node-Forward,
  draw-Forward, on_db-Forward,
)

module _ {N : Type 0} (env : Env) where
  carry_out-Forward :
      (row : Transfer) (tr : Option Transition) (now : ℤ)
      → ((t : Transition) → tr ≡ some t → (terminal t.from ≡ false) × (rank t.from < rank t.to))
      → Respects (Forward {N = N}) (carry_out env row tr now)
  unfolding carry_out
  carry_out-Forward row none now h = pure-Forward false
  carry_out-Forward row (some tr) now h =
      let (open_from, less) = h tr refl in
      let moves = λ (event : Option Event).
        apply_transition-Statements tr.transfer_id tr.from tr.to event now open_from less in
      search (forward_rules, moves)

  pub apply_observed-Forward :
      (row : Transfer) (observed : TransferStatus) (now : ℤ)
      → Respects (Forward {N = N}) (apply_observed env row observed now)
  unfolding apply_observed
  apply_observed-Forward row observed now =
      carry_out-Forward row (plan_transition row observed) now (planned_forward row observed)

  carry_out_payment-Forward :
      (row : Payment) (tr : Option PaymentTransition) (now : ℤ)
      → ((t : PaymentTransition) → tr ≡ some t → t.from ≢ succeeded)
      → Respects (Forward {N = N}) (carry_out_payment env row tr now)
  unfolding carry_out_payment
  carry_out_payment-Forward row none now h = pure-Forward false
  carry_out_payment-Forward row (some tr) now h =
      let moves = λ (event : Option Event).
        apply_payment_transition-Statements tr.payment_hash tr.from tr.to event now (h tr refl) in
      search (forward_rules, moves)

  pub apply_payment_observed-Forward :
      (row : Payment) (observed : PaymentStatus) (now : ℤ)
      → Respects (Forward {N = N}) (apply_payment_observed env row observed now)
  unfolding apply_payment_observed
  apply_payment_observed-Forward row observed now =
      carry_out_payment-Forward row (plan_payment_transition row observed) now
        (from_ne_succeeded row observed)
