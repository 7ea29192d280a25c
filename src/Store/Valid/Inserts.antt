-- ===== src/Store/Valid/Inserts.antt =====
-- `insert_transfer` and `apply_transition` keep the database valid.
use rln_companion.Base.{
  String, ◌≡◌, refl, sym, inl, inr, true, false, Option, none, some, List, [], ◌∷◌, eq_iff, find,
  any, Bool-cases, Option-cases, sql_eq, Eq_String,
}
use rln_companion.Base.Int.{ℤ}
use rln_companion.Base.Respects.{Respects, Respects-bind, Respects-convert}
use rln_companion.Base.Tables.{All-update_rows, All-append, any_of_find}
use rln_companion.Store.Atomic.{apply_transition-all_or_nothing}
use rln_companion.Store.Codec.{ts_to_db}
use rln_companion.Store.Outbox.{Event}
use rln_companion.Store.Rows.{TransferRow}
use rln_companion.Store.Transfers.{
  has_id, merged_row, same_recipient, insert_returning_id, insert_transfer,
}
use rln_companion.Store.Types.{TransferStatus, NewTransfer}
use rln_companion.Store.Upsert.{stands_at, moved_row, apply_transition}
use rln_companion.Store.Valid.{
  InRange, TransferOk, has_idx, has_recipient, Stays, Stays-order, Unique-update, Unique-append,
  queued-Unique,
}
use rln_companion.Store.Valid.Transfers.{
  Valid-transfers, ts_to_db-InRange, coalesce-InRange, same_value, fetch_transfer-Stays,
}
use mathlib.Core.Path.{subst}

free_recipient :
    (t : NewTransfer) (k : String) (rows : List TransferRow)
    → sql_eq t.recipient_id (some k) ≡ true
    → find (same_recipient t.recipient_id) rows ≡ none
    → any (has_recipient k) rows ≡ false
free_recipient t k [] h miss = refl
free_recipient t k (r ∷ rows) h miss =
    let same = same_value t.recipient_id k h in
    let missed : find (has_recipient k) (r ∷ rows) ≡ none =
      subst (λ v. find (same_recipient v) (r ∷ rows) ≡ none) (sym same) miss in
    any_of_find (has_recipient k) (r ∷ rows) missed

pub insert_returning_id-Stays :
    (fresh : String) (t : NewTransfer) (expiration : Option ℤ) (now : ℤ)
    → InRange expiration
    → Respects Stays (insert_returning_id fresh t expiration now)
unfolding insert_returning_id
insert_returning_id-Stays fresh t expiration now fits = record {
  at = λ d v. elim (Bool-cases (any (has_id fresh) d.transfers)) [
    | inl taken ↦ rw taken v
    | inr free ↦ elim (Option-cases (find (same_recipient t.recipient_id) d.transfers)) [
      | inl miss ↦
          rw (free, miss)
            (Valid-transfers d _
              (Unique-append has_id d.transfers _
                (λ k h. subst (λ i. any (has_id i) d.transfers ≡ false) ((eq_iff fresh k).0 h) free)
                v.ids)
              (Unique-append has_idx d.transfers _ (λ k h. cc) v.idxs)
              (Unique-append has_recipient d.transfers _
                (λ k h. free_recipient t k d.transfers h miss) v.recipients)
              (All-append TransferOk d.transfers _ v.transfers_ok (((t.status, refl), fits), tt)) v)
      | inr (r, hit) ↦
          rw (free, hit)
            (Valid-transfers d _
              (Unique-update has_id (same_recipient t.recipient_id) (merged_row t expiration now)
                d.transfers (λ k r h. h) v.ids)
              (Unique-update has_idx (same_recipient t.recipient_id) (merged_row t expiration now)
                d.transfers (λ k r h. h) v.idxs)
              (Unique-update has_recipient (same_recipient t.recipient_id)
                (merged_row t expiration now) d.transfers (λ k r h. h) v.recipients)
              (All-update_rows TransferOk (same_recipient t.recipient_id)
                (merged_row t expiration now) d.transfers
                (λ r h (s, fits').
                  (s, coalesce-InRange expiration r.expiration_timestamp fits fits'))
                v.transfers_ok)
              v)
    ]
  ];
}

pub insert_transfer-Stays :
    (fresh : String) (t : NewTransfer) (now : ℤ) → Respects Stays (insert_transfer fresh t now)
unfolding insert_transfer
insert_transfer-Stays fresh t now =
    Respects-convert Stays-order (ts_to_db t.expiration_timestamp) _ λ expiration read.
      Respects-bind Stays-order _ _
        (insert_returning_id-Stays fresh t expiration now
          (ts_to_db-InRange t.expiration_timestamp expiration read))
        fetch_transfer-Stays

pub apply_transition-Stays :
    (id : String) (from to : TransferStatus) (event : Option Event) (now : ℤ)
    → Respects Stays (apply_transition id from to event now)
apply_transition-Stays id from to event now = record {
  at = λ d v. elim (apply_transition-all_or_nothing id from to event now d) [
    | inl (done, after, _, free) ↦ rw after (record {
      ids =
          Unique-update has_id (stands_at id from) (moved_row to now) d.transfers (λ k r h. h)
            v.ids;
      idxs =
          Unique-update has_idx (stands_at id from) (moved_row to now) d.transfers (λ k r h. h)
            v.idxs;
      recipients =
          Unique-update has_recipient (stands_at id from) (moved_row to now) d.transfers
            (λ k r h. h) v.recipients;
      transfers_ok =
          All-update_rows TransferOk (stands_at id from) (moved_row to now) d.transfers
            (λ r h (s, fits). ((to, refl), fits)) v.transfers_ok;
      hashes = v.hashes;
      payments_ok = v.payments_ok;
      event_ids = queued-Unique event now d.outbox free v.event_ids;
      asset_ids = v.asset_ids;
      state_ok = v.state_ok;
    })
    | inr (_, after) ↦ rw after v
  ];
}
