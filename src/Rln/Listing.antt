-- ===== src/Rln/Listing.antt =====
-- What the listings and the errors of the client come to.
use rln_companion.Base.{
  ℕ, ◌<◌, max, String, ◌≡◌, ◌↔◌, ◌⊎◌, Option, none, some, List, [], arith, length, ok, eq_iff, refl,
  map,
}
use rln_companion.Rln.Client.{
  AssetFilter, RlnErrorBody, Http, HttpRlnClient, classify_error, fetch_transfers, list,
  fetch_payments, list_payments, named_error, error_of,
}
use rln_companion.Rln.Pages.Complete.{Numbered, Pages, follow-rest}
use rln_companion.Rln.Types.{RlnTransfer, RlnPayment, RlnError}

-- The body names one of the two errors of a node that cannot serve yet.
abbrev pub Named : Option RlnErrorBody → Type 0
Named none = ⊥
Named (some e) = (e.name ≡ "LockedNode") ⊎ (e.name ≡ "ChangingState")

named_error-locked :
    (status : ℕ) (e : RlnErrorBody)
    → (named_error status e ≡ RlnError.locked) ↔ ((status ≡ 403) × Named (some e))
unfolding named_error
named_error-locked status e =
    ground (arith, eq_iff e.name "LockedNode", eq_iff e.name "ChangingState")

error_of-locked :
    (status : ℕ) (body : String) (o : Option RlnErrorBody)
    → (error_of status body o ≡ RlnError.locked) ↔ ((status ≡ 403) × Named o)
error_of-locked status body none = ground arith
error_of-locked status body (some e) = named_error-locked status e

module _ {N : Type 0} (http : Http N) (client : HttpRlnClient) where
  -- If the node numbers its transfers, no two alike, and answers each request with as many as are asked
  -- for, while there are any, from behind the one whose number the request names, and with the number of
  -- the last of them, then `list` returns all of them in their order, within one request more than
  -- they are many, also when it is asked for pages of size 0.
  pub list_all :
      (filter : AssetFilter) (page_size pages : ℕ) (xs : List (ℕ × RlnTransfer)) (n : N)
      → Numbered xs
      → Pages (fetch_transfers http client filter (max page_size 1)) (max page_size 1) xs
      → length xs < pages
      → (list http client pages filter page_size n).0 ≡ ok (some (map (λ e. e.1) xs))
  unfolding list
  list_all filter page_size pages xs n numbered (other, serves) h =
      follow-rest (fetch_transfers http client filter (max page_size 1)) (max page_size 1) xs other
        serves numbered pages none [] n [] xs refl refl tt (omega arith) h

  -- If the node numbers its payments, no two alike, and answers each request with as many as are asked
  -- for, while there are any, from behind the one whose number the request names, and with the number of
  -- the last of them, then `list_payments` returns all of them in their order, within one request more than
  -- they are many, also when it is asked for pages of size 0.
  pub list_payments_all :
      (page_size pages : ℕ) (xs : List (ℕ × RlnPayment)) (n : N)
      → Numbered xs
      → Pages (fetch_payments http client (max page_size 1)) (max page_size 1) xs
      → length xs < pages
      → (list_payments http client pages page_size n).0 ≡ ok (some (map (λ e. e.1) xs))
  unfolding list_payments
  list_payments_all page_size pages xs n numbered (other, serves) h =
      follow-rest (fetch_payments http client (max page_size 1)) (max page_size 1) xs other serves
        numbered pages none [] n [] xs refl refl tt (omega arith) h

  -- An answer that is not a success is taken for a locked node exactly when its status is 403 and its
  -- body names LockedNode or ChangingState.
  pub classify_error-locked :
      (status : ℕ) (body : String)
      → (classify_error http status body ≡ RlnError.locked)
        ↔ ((status ≡ 403) × Named (http.error_body body))
  unfolding classify_error
  classify_error-locked status body = error_of-locked status body (http.error_body body)
