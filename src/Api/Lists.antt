-- ===== src/Api/Lists.antt =====
-- What the two lists and the one transfer of the API answer on a valid database.
use Prim.Native.String.{◌++◌}
use rln_companion.Api.Handlers.{
  ApiError, from_pool, ListQuery, PaymentListQuery, query_of, status_of, or_default, limit_of,
  invalid_request,
}
use rln_companion.Base.{
  ℕ, ◌≤◌, String, ◌≡◌, refl, sym, ap, ◌∙◌, ◌≢◌, ◌⊎◌, inl, inr, Option, none, some, List, arith,
  length, Result, ok, err,
}
use rln_companion.Proxy.Passed.{listed}
use rln_companion.Store.Codec.{
  status_to_str, payment_status_to_str, status_from_str, payment_status_from_str,
}
use rln_companion.Store.Names.{
  status_from_str-status_to_str, payment_status_from_str-payment_status_to_str,
  status_to_str-status_from_str, payment_status_to_str-payment_status_from_str,
}
use rln_companion.Store.Rows.{Db}
use rln_companion.Store.Transfers.{wanted}
use rln_companion.Store.Types.{StoreError}
use rln_companion.Store.Valid.{Valid}
use rln_companion.Store.Valid.Reads.{Result-cases, list_transfers-ok, list_payments-ok}
use mathlib.Core.Option
use rln_companion.Store.Transfers
use rln_companion.Api.Handlers
use rln_companion.Store.Payments

-- No more than the limit asked for, which is 100 if none is.
abbrev pub AtMost : ℕ → Option ℕ → Type 0
AtMost n none = n ≤ 100
AtMost n (some limit) = n ≤ limit

-- A query that is answered: the status wanted, if any, and no more rows than the limit asked for,
-- which is 100 if none is, or than 1000.
pub record Answered {S A : Type 0} (name : S → String) (wanted : Option String) (limit : Option ℕ)
    (r : Result ApiError (List A)) : Type 0 where
  pub status : Option S
  pub named : wanted ≡ Option.map name status
  pub found : List A
  pub answer : r ≡ ok found
  pub limited : AtMost (length found) limit
  pub capped : length found ≤ 1000

-- A query that is refused: what it wants is the name of no status.
pub record Refused {S A : Type 0} (name : S → String) (wanted : Option String)
    (r : Result ApiError (List A)) : Type 0 where
  pub text : String
  pub asked : wanted ≡ some text
  pub unknown_name : (s : S) → name s ≢ text
  pub answer : r ≡ err (invalid_request ("invalid status: " ++ text))

-- What a query leads to: one that cannot be parsed is refused with the text of the parser.
abbrev pub Responds :
    {Q S A : Type 0}
    → (S → String)
    → (Q → Option String)
    → (Q → Option ℕ)
    → Result String Q
    → Result ApiError (List A)
    → Type 0
Responds name status limit (err text) r = r ≡ err (invalid_request text)
Responds name status limit (ok q) r =
    Answered name (status q) (limit q) r ⊎ Refused name (status q) r

-- The name of a status that is read back, or of none.
status_of-cases :
    {S : Type 0} (name : S → String) (read : String → Result StoreError S) (asked : Option String)
    → ((s : S) → read (name s) ≡ ok s)
    → ((t : String) (s : S) → read t ≡ ok s → t ≡ name s)
    → ((status : Option S) × (asked ≡ Option.map name status) × (status_of read asked ≡ ok status))
      ⊎ ((t : String) × (asked ≡ some t)
          × ((s : S) → name s ≢ t)
          × (status_of read asked ≡ err (invalid_request ("invalid status: " ++ t))))
unfolding status_of
status_of-cases name read none back named = inl (none, refl, refl)
status_of-cases name read (some t) back named = elim (Result-cases (read t)) [
  | inl (s, hit) ↦ inl (some s, ap some (named t s hit), rw (status_of, hit) refl)
  | inr (e, miss) ↦
      inr (t, refl, λ s same. cc (sym (back s) ∙ ap read same ∙ miss), rw (status_of, miss) refl)
]

within : (n : ℕ) (limit : Option ℕ) → n ≤ limit_of limit → AtMost n limit × (n ≤ 1000)
unfolding limit_of
within n none h = (omega arith, omega arith)
within n (some limit) h = (omega arith, omega arith)

-- The list of transfers of a valid database is always answered or refused, and changes nothing. It is
-- refused if the query string is one that axum cannot parse, and else exactly if the status asked for is
-- the name of none; an answer has no more entries than were asked for, or than 100 if no limit was
-- given, and never more than 1000.
pub list_transfers-Answered :
    (query : Result String ListQuery) (d : Db)
    → Valid d
    → ((Handlers.list_transfers query d).1 ≡ d)
      × Responds status_to_str
          (λ q. q.status)
          (λ q. q.limit)
          query
          (Handlers.list_transfers query d).0
unfolding Handlers.list_transfers query_of from_pool Transfers.list_transfers
list_transfers-Answered (err text) d v = (refl, refl)
list_transfers-Answered (ok q) d v =
    elim (status_of-cases status_to_str status_from_str q.status status_from_str-status_to_str
      status_to_str-status_from_str) [
        | inl (status, named, e) ↦
            let (ts, listed, bound) = list_transfers-ok status q.asset_id (limit_of q.limit) d v in
            let (low, cap) = within (length ts) q.limit bound in
            rw (e, listed)
              (
                refl,
                inl (record {
                  status = status;
                  named = named;
                  found = ts;
                  answer = refl;
                  limited = low;
                  capped = cap;
                }),
              )
        | inr (t, asked, no_name, e) ↦
            rw e (
              refl,
              inr (record { text = t; asked = asked; unknown_name = no_name; answer = refl }),
            )
      ]

-- The list of payments, likewise.
pub list_payments-Answered :
    (query : Result String PaymentListQuery) (d : Db)
    → Valid d
    → ((Handlers.list_payments query d).1 ≡ d)
      × Responds payment_status_to_str
          (λ q. q.status)
          (λ q. q.limit)
          query
          (Handlers.list_payments query d).0
unfolding Handlers.list_payments query_of from_pool Payments.list_payments
list_payments-Answered (err text) d v = (refl, refl)
list_payments-Answered (ok q) d v =
    elim (status_of-cases payment_status_to_str payment_status_from_str q.status
      payment_status_from_str-payment_status_to_str payment_status_to_str-payment_status_from_str) [
        | inl (status, named, e) ↦
            let (ps, listed, bound) = list_payments-ok status (limit_of q.limit) d v in
            let (low, cap) = within (length ps) q.limit bound in
            rw (e, listed)
              (
                refl,
                inl (record {
                  status = status;
                  named = named;
                  found = ps;
                  answer = refl;
                  limited = low;
                  capped = cap;
                }),
              )
        | inr (t, asked, no_name, e) ↦
            rw e (
              refl,
              inr (record { text = t; asked = asked; unknown_name = no_name; answer = refl }),
            )
      ]
