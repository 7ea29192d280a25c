-- ===== src/Store/Pins.antt =====
-- Which row upsert_observed takes, and that a row keeps the index it is bound to.
pub mod Statements
use mathlib.Core.Option
use rln_companion.Base.{
  String, ◌≡◌, refl, sym, ap, ◌∙◌, inl, inr, Bool, true, Option, some, List, [], ◌∷◌, ◌++◌, arith,
  eq_iff, All, where_rows, find, update_rows, sort_by, head?, leb, Bool-cases, Option-cases, ◌==◌,
  Eq_String,
}
use rln_companion.Base.Int.{ℤ}
use rln_companion.Base.Respects.{Preorder}
use rln_companion.Base.Tables.{
  find-update_rows, find-append, All-sort_by, All-map, All-where_rows-true, All-head,
  count_of_found,
}
use rln_companion.Store.Rows.{TransferRow, Db}
use rln_companion.Store.Transfers.{has_id}
use rln_companion.Store.Types.{Observed}
use rln_companion.Store.Upsert.{matches, match_order, existing_id}
use rln_companion.Store.Valid.{Unique}
use mathlib.Core.Option.{some-injective}
use mathlib.Core.Path.{subst}

-- Of distinct ids each row is the one found under its id.
found_under_id :
    (rows : List TransferRow)
    → Unique has_id rows
    → All (λ r. find (has_id r.id) rows ≡ some r) rows
found_under_id [] h = tt
found_under_id (x ∷ rows) h = (
  rw ((eq_iff x.id x.id).1 refl) refl,
  All-map _ _ rows
      (λ y found.
        let one = h y.id in let there = count_of_found (has_id y.id) rows y found in ground arith)
      (found_under_id rows (λ k. let one = h k in ground arith)),
)

-- The row that the lookup finds matches the observation.
pub existing_id-matches :
    (o : Observed) (rows : List TransferRow) (id : String) (r : TransferRow)
    → Unique has_id rows
    → existing_id o rows ≡ some id
    → find (has_id id) rows ≡ some r
    → matches o r ≡ true
unfolding existing_id
existing_id-matches o rows id r distinct_ids h hit =
    let le = λ (a b : TransferRow). leb (match_order o a) (match_order o b) in
    let sorted = sort_by le (where_rows (matches o) rows) in
    elim (Option-cases (head? sorted)) [
      | inl miss ↦ cc (rw (existing_id, miss) at h)
      | inr (r0, top) ↦
          let P = λ (x : TransferRow). (find (has_id x.id) rows ≡ some x) × (matches o x ≡ true) in
          let (found, fits) =
            All-head P sorted r0
              (All-sort_by P le (where_rows (matches o) rows)
                (All-where_rows-true _ (matches o) rows (found_under_id rows distinct_ids)))
              top in
          let same_id : r0.id ≡ id = some-injective _ _ (rw (existing_id, top) at h) in
          let found' : find (has_id id) rows ≡ some r0 =
            subst (λ i. find (has_id i) rows ≡ some r0) same_id found in
          let same : r0 ≡ r = some-injective _ _ (sym found' ∙ hit) in
          subst (λ x. matches o x ≡ true) same fits
    ]

-- The index of the row found under an id.
abbrev pub idx_at : String → List TransferRow → Option (Option ℤ)
idx_at id rows = Option.map (λ r. r.rln_idx) (find (has_id id) rows)

-- A row bound to an index stays under its id and bound to it.
abbrev pub Pins : List TransferRow → List TransferRow → Type 0
Pins rows rows' =
    (id : String) (idx : ℤ) → idx_at id rows ≡ some (some idx) → idx_at id rows' ≡ some (some idx)

abbrev pub Pinned : Db → Db → Type 0
Pinned d d' = Pins d.transfers d'.transfers

pub Pinned-order : Preorder Pinned
Pinned-order = record {
  here = λ d id idx h. h;
  onwards = λ s t u f g id idx h. g id idx (f id idx h);
}

pub Pins-append : (rows more : List TransferRow) → Pins rows (rows ++ more)
Pins-append rows more id idx h = elim (Option-cases (find (has_id id) rows)) [
  | inl miss ↦ cc (rw miss at h)
  | inr (r, hit) ↦ rw (find-append (has_id id) rows more r hit) (rw hit at h)
]

-- An update of the row found under an id that leaves its index.
pub Pins-update :
    (p : TransferRow → Bool) (f : TransferRow → TransferRow) (rows : List TransferRow)
    → ((r : TransferRow) → (f r).id ≡ r.id)
    → ((r : TransferRow) (id : String) (idx : ℤ)
        → find (has_id id) rows ≡ some r
        → p r ≡ true
        → r.rln_idx ≡ some idx
        → (f r).rln_idx ≡ some idx)
    → Pins rows (update_rows p f rows)
Pins-update p f rows same keep id idx h = elim (Option-cases (find (has_id id) rows)) [
  | inl miss ↦ cc (rw miss at h)
  | inr (r, hit) ↦
      let after = find-update_rows (has_id id) p f rows (λ x. ap (λ i. i == id) (same x)) in
      let at_idx : r.rln_idx ≡ some idx = some-injective _ _ (rw hit at h) in
      elim (Bool-cases (p r)) [
        | inl changed ↦ rw (after, hit, changed) (ap some (keep r id idx hit changed at_idx))
        | inr left ↦ rw (after, hit, left) (ap some at_idx)
      ]
]
