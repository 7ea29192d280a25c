-- ===== src/Sync/Lasting.antt =====
-- What the mirror holds of an observation stays in it.
use rln_companion.Base.{
  ◌≡◌, refl, sym, ap, ◌∙◌, inl, inr, some, List, arith, All, find, Option-cases,
}
use rln_companion.Base.Int.{ℤ}
use rln_companion.Base.Tables.{All-map}
use rln_companion.Rln.Types.{RlnTransfer}
use rln_companion.Store.Names.{status_to_str-injective}
use rln_companion.Store.Rows.{Db}
use rln_companion.Store.Transfers.{has_id}
use rln_companion.Store.Types.{TransferStatus}
use rln_companion.Store.Valid.{Valid}
use rln_companion.Sync.Mirror.{Mirrored}
use rln_companion.Sync.Plan.{rank}
use rln_companion.Sync.Progress.{Progress}
use mathlib.Core.Option.{some-injective}

-- What the mirror holds of an observation stays.
pub Mirrored-Progress :
    (idx : ℤ) (observed : TransferStatus) (d d' : Db)
    → Valid d
    → Progress d d'
    → Mirrored idx observed d.transfers
    → Mirrored idx observed d'.transfers
Mirrored-Progress idx observed d d' v h m =
    let at_idx = h.pins v m.id idx (rw m.here (ap some m.bound)) in
    let (t, at_status, onward) = h.evolves.transfers m.id m.row.status (rw m.here refl) in
    elim (Option-cases (find (has_id m.id) d'.transfers)) [
      | inl miss ↦ cc (rw miss at at_idx)
      | inr (r, hit) ↦
          let bound : r.rln_idx ≡ some idx = some-injective _ _ (rw hit at at_idx) in
          let same : r.status ≡ t = some-injective _ _ (rw hit at at_status) in
          elim onward [
            | inl e ↦ record {
              id = m.id;
              row = r;
              here = hit;
              bound = bound;
              status = m.status;
              text = same ∙ sym e ∙ m.text;
              reached = m.reached;
            }
            | inr (a, b, ea, eb, _, less) ↦
                let from : m.status ≡ a = status_to_str-injective m.status a (sym m.text ∙ ea) in
                record {
                  id = m.id;
                  row = r;
                  here = hit;
                  bound = bound;
                  status = b;
                  text = same ∙ eb;
                  reached = omega (arith, m.reached, less, ap rank from);
                }
          ]
    ]

-- Each transfer of a listing is in the mirror.
abbrev pub AllMirrored : List RlnTransfer → Db → Type 0
AllMirrored ts d = All (λ t. Mirrored t.idx t.status d.transfers) ts

pub AllMirrored-Progress :
    (ts : List RlnTransfer) (d d' : Db)
    → Valid d
    → Progress d d'
    → AllMirrored ts d
    → AllMirrored ts d'
AllMirrored-Progress ts d d' v h = All-map _ _ ts (λ t. Mirrored-Progress t.idx t.status d d' v h)
