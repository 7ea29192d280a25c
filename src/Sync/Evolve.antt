-- ===== src/Sync/Evolve.antt =====
-- How the mirror may change: what a sync, or any part of it, does to the rows that are there.
use mathlib.Core.Option
use rln_companion.Base.{
  ◌<◌, String, ◌≡◌, refl, sym, ap, ◌∙◌, ◌⊎◌, inl, inr, false, Option, some, List, [], ◌++◌, arith,
  find, Bool, true, update_rows, Option-cases, none, Bool-cases, ◌==◌, Eq_String,
}
use rln_companion.Base.Respects.{Preorder}
use rln_companion.Store.Codec.{status_to_str, payment_status_to_str}
use rln_companion.Store.Names.{status_to_str-injective}
use rln_companion.Store.Payments.{has_hash}
use rln_companion.Store.Rows.{TransferRow, PaymentRow, OutboxRow, Db}
use rln_companion.Store.Transfers.{has_id}
use rln_companion.Store.Types.{TransferStatus, terminal, succeeded}
use rln_companion.Sync.Plan.{rank}
use mathlib.Core.List.{append-nil, append_assoc}
use rln_companion.Base.Tables.{find-append, find-update_rows}
use mathlib.Core.Option.{some-injective}
use mathlib.Core.Path.{subst}

-- The text of the status of the first row with the id.
abbrev pub status_at : String → List TransferRow → Option String
status_at id rows = Option.map (λ r. r.status) (find (has_id id) rows)

abbrev pub payment_status_at : String → List PaymentRow → Option String
payment_status_at hash rows = Option.map (λ r. r.status) (find (has_hash hash) rows)

-- The same status, or a later one reached from a status that is not terminal.
abbrev pub Onward : String → String → Type 0
Onward s t =
    (s ≡ t)
    ⊎ ((a : TransferStatus) × (b : TransferStatus) × (s ≡ status_to_str a)
        × (t ≡ status_to_str b)
        × (terminal a ≡ false)
        × (rank a < rank b))

-- No transfer is lost or goes back, a payment that succeeded stays so, and a queued event stays as
-- it is, in its place.
pub record Evolves (d d' : Db) : Type 0 where
  pub transfers :
      (id s : String)
      → status_at id d.transfers ≡ some s
      → (t : String) × (status_at id d'.transfers ≡ some t) × Onward s t
  pub payments :
      (hash : String)
      → payment_status_at hash d.payments ≡ some (payment_status_to_str succeeded)
      → payment_status_at hash d'.payments ≡ some (payment_status_to_str succeeded)
  pub outbox : (more : List OutboxRow) × (d'.outbox ≡ d.outbox ++ more)

pub Onward-trans : (s t u : String) → Onward s t → Onward t u → Onward s u
Onward-trans s t u (inl e) k = rw e k
Onward-trans s t u (inr h) (inl e) = inr (rw e at h)
Onward-trans s t u (inr (a, b, sa, tb, open_a, ab)) (inr (c, e, tc, ue, open_c, ce)) =
    let same : b ≡ c = status_to_str-injective b c (sym tb ∙ tc) in
    inr (a, e, sa, ue, open_a, omega (arith, ap rank same))

pub Evolves-refl : (d : Db) → Evolves d d
Evolves-refl d = record {
  transfers = λ id s h. (s, h, inl refl);
  payments = λ hash h. h;
  outbox = ([], sym (append-nil d.outbox));
}

pub Evolves-trans : (d e f : Db) → Evolves d e → Evolves e f → Evolves d f
Evolves-trans d e f h k = record {
  transfers = λ id s at.
      let (t, at', st) = h.transfers id s at in
      let (u, at'', tu) = k.transfers id t at' in (u, at'', Onward-trans s t u st tu);
  payments = λ hash at. k.payments hash (h.payments hash at);
  outbox =
      let (more, e1) = h.outbox in
      let (later, e2) = k.outbox in
      (more ++ later, e2 ∙ ap (λ rows. rows ++ later) e1 ∙ append_assoc d.outbox more later);
}

pub Evolves-order : Preorder Evolves
Evolves-order = record { here = Evolves-refl; onwards = Evolves-trans }

-- The part of `Evolves` on the table `transfers`.
abbrev pub Keeps : List TransferRow → List TransferRow → Type 0
Keeps rows rows' =
    (id s : String)
    → status_at id rows ≡ some s
    → (t : String) × (status_at id rows' ≡ some t) × Onward s t

status_of_found :
    (id s : String) (rows : List TransferRow) (r : TransferRow)
    → status_at id rows ≡ some s
    → find (has_id id) rows ≡ some r
    → r.status ≡ s
status_of_found id s rows r h hit = let e : some r.status ≡ some s = rw hit at h in cc

not_missing :
    (id s : String) (rows : List TransferRow)
    → status_at id rows ≡ some s
    → find (has_id id) rows ≡ none
    → ⊥
not_missing id s rows h miss = cc (rw miss at h)

pub Keeps-append : (rows more : List TransferRow) → Keeps rows (rows ++ more)
Keeps-append rows more id s h = elim (Option-cases (find (has_id id) rows)) [
  | inl miss ↦ absurd (not_missing id s rows h miss)
  | inr (r, hit) ↦ (
    s,
    rw (find-append (has_id id) rows more r hit) (ap some (status_of_found id s rows r h hit)),
    inl refl,
  )
]

pub Keeps-update :
    (p : TransferRow → Bool) (f : TransferRow → TransferRow) (rows : List TransferRow)
    → ((r : TransferRow) → (f r).id ≡ r.id)
    → ((r : TransferRow) → p r ≡ true → Onward r.status (f r).status)
    → Keeps rows (update_rows p f rows)
Keeps-update p f rows same on id s h = elim (Option-cases (find (has_id id) rows)) [
  | inl miss ↦ absurd (not_missing id s rows h miss)
  | inr (r, hit) ↦
      let after = find-update_rows (has_id id) p f rows (λ x. ap (λ i. i == id) (same x)) in
      let e = status_of_found id s rows r h hit in
      elim (Bool-cases (p r)) [
        | inl yes_p ↦ (
          (f r).status,
          rw (after, hit, yes_p),
          subst (λ x. Onward x (f r).status) e (on r yes_p),
        )
        | inr no_p ↦ (s, rw (after, hit, no_p) (ap some e), inl refl)
      ]
]
