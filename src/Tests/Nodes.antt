-- ===== src/Tests/Nodes.antt =====
-- A node that pages through a list, and the client at it.
use rln_companion.Rln.Client
use rln_companion.Base.{
  ℕ, zero, suc, ◌+◌, String, ◌≡◌, refl, ◌↔◌, Option, none, some, List, [], ◌∷◌, arith, ok, map,
}
use rln_companion.Base.Int.{pos}
use rln_companion.Rln.Client.{
  Method, Answer, Http, HttpRlnClient, classify_error, send, fetch_transfers, fetch_payments,
  network, any_asset, list_transfers_request, post,
}
use rln_companion.Rln.Listing.{list_all, list_payments_all, classify_error-locked, Named}
use rln_companion.Rln.Pages.Complete.{page_of, Numbered}
use rln_companion.Rln.Types.{RlnTransfer, RlnPayment, RlnError}
use rln_companion.Tests.Sample.{seen, paid}

-- A text as long as a number, to carry an offset in the body of an answer.
abbrev tally : ℕ → String
tally zero = ""
tally (suc n) = String.◌∷◌ "x" (tally n)

abbrev count : String → ℕ
count String.[] = 0
count (String.◌∷◌ c s) = suc (count s)

count-tally : (n : ℕ) → count (tally n) ≡ n
count-tally zero = refl
count-tally (suc n) = omega (arith, count-tally n)

-- An offset, or that there is none, as a text, and back.
abbrev written : Option ℕ → String
written none = ""
written (some offset) = tally (suc offset)

abbrev read_offset : ℕ → Option ℕ
read_offset zero = none
read_offset (suc offset) = some offset

read_back : (offset : Option ℕ) → read_offset (count (written offset)) ≡ offset
read_back none = refl
read_back (some k) = rw (count-tally k) refl

-- Three transfers under the numbers that the tests of the client use.
abbrev mined : List (ℕ × RlnTransfer)
mined =
    (9, record seen { idx = pos 9 })
    ∷ (5, record seen { idx = pos 5 })
    ∷ (2, record seen { idx = pos 2 })
    ∷ []

abbrev offset_of : Option ℕ → Option Answer
offset_of offset = some (record { status = 200; text = some (written offset) })

abbrev reply : Method → Option Answer
reply (post (list_transfers_request r)) = offset_of r.index_offset
reply _ = some (record { status = 403; text = some "locked" })

-- Pages of two transfers each; any other request is refused, as by a locked node.
abbrev http : Http ℕ
http = record {
  send = λ req n. (reply req.method, n + 1);
  error_body = λ text. some (record { error = text; code = 403; name = "LockedNode" });
  transfers_page = λ text. some (page_of 0 2 mined (read_offset (count text)));
  payments_page = λ text. none;
  payment_hash = λ text. none;
  assets = λ text. none;
  transfers_changed = λ text. none;
  network = λ text. none;
  value = λ text. none;
}

abbrev client : HttpRlnClient
client = record { base_url = "http://rln:3001"; token = none }

serves :
    (offset : Option ℕ) (n : ℕ)
    → (fetch_transfers http client any_asset 2 offset n).0 ≡ ok (page_of 0 2 mined offset)
unfolding fetch_transfers
serves offset n = rw (read_back offset) refl

mined-Numbered : Numbered mined
mined-Numbered = ((refl, (refl, tt)), ((refl, tt), (tt, tt)))

list_all_example : (Client.list http client 4 any_asset 2 0).0 ≡ ok (some (map (λ e. e.1) mined))
list_all_example =
    list_all http client any_asset 2 4 mined 0 mined-Numbered (λ offset. 0, serves) (omega arith)

classify_error-locked_example :
    (classify_error http 403 "locked" ≡ RlnError.locked)
    ↔ ((◌≡◌ {A = ℕ} 403 403) × Named (http.error_body "locked"))
classify_error-locked_example = classify_error-locked http client 403 "locked"

-- The node that lists its payments from an offset that the query names.
abbrev payments : List (ℕ × RlnPayment)
payments = (9, paid) ∷ (5, record paid { payment_hash = "h2" }) ∷ []

abbrev queried : List (String × ℕ) → Option ℕ
queried (p ∷ (name, offset) ∷ rest) = some offset
queried _ = none

abbrev payer : Http ℕ
payer = record http {
  send =
      λ req n. (some (record { status = 200; text = some (written (queried req.query)) }), n + 1);
  payments_page = λ text. some (page_of 0 1 payments (read_offset (count text)));
}

serves_payments :
    (offset : Option ℕ) (n : ℕ)
    → (fetch_payments payer client 1 offset n).0 ≡ ok (page_of 0 1 payments offset)
unfolding fetch_payments
serves_payments none n = refl
serves_payments (some k) n = rw (count-tally k) refl

list_payments_all_example :
    (Client.list_payments payer client 3 0 0).0 ≡ ok (some (map (λ e. e.1) payments))
list_payments_all_example =
    list_payments_all payer client 0 3 payments 0 ((refl, tt), (tt, tt))
      (λ offset. 0, serves_payments) (omega arith)
