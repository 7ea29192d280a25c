-- ===== src/Tests/Calls.antt =====
-- The API at concrete inputs.
use rln_companion.Tests.Sample.{one_db}
use rln_companion.Tests.Runs.{one_db-Valid}
use rln_companion.Api.Bearer.{IsToken, serve-Bearer, serve_rejects}
use rln_companion.Api.Handlers.{
  ApiState, Health, health, ListQuery, PaymentListQuery, call_handler, serve, unauthorized,
  transfer_call, openapi,
}
use rln_companion.Api.Health.{Healthy, health-Healthy}
use rln_companion.Api.Lists.{Responds, list_transfers-Answered, list_payments-Answered}
use rln_companion.Api.Token.{trim_start, trim_end, bearer_token, all_visible, presented}
use rln_companion.Base.{◌≡◌, refl, ◌≢◌, inl, true, none, some, [], ◌∷◌, ok, err}
use rln_companion.Proxy.Headers.{HeaderMap}
use rln_companion.Store.Codec.{status_to_str, payment_status_to_str}
use rln_companion.Api.Handlers

abbrev guarded : ApiState
guarded = record { openapi = none; auth_token = some "s3cret"; webhook_max_attempts = 10 }

abbrev with_token : HeaderMap
with_token = ("authorization", "Bearer s3cret") ∷ []

is_token : IsToken "s3cret"
unfolding trim_start trim_end
is_token = record { starts = refl; ends = refl; something = refl }

visible : all_visible "s3cret" ≡ true
unfolding all_visible
visible = refl

serve-Bearer_example :
    serve guarded with_token (transfer_call "t1") one_db
    ≡ call_handler guarded (transfer_call "t1") one_db
serve-Bearer_example =
    serve-Bearer guarded "s3cret" "authorization" with_token (transfer_call "t1") one_db refl
      is_token visible refl

differs : presented [] ≢ some "s3cret"
unfolding presented
differs e = cc

serve_rejects_example : serve guarded [] (transfer_call "t1") one_db ≡ (err unauthorized, one_db)
serve_rejects_example =
    serve_rejects guarded "s3cret" [] (transfer_call "t1") one_db refl refl (inl differs)

-- Any case of the scheme, and white space around the token.
reads_token : bearer_token "  bEARER   s3cret " ≡ some "s3cret"
unfolding bearer_token
reads_token = refl

rejects_scheme : bearer_token "Basic s3cret" ≡ none
unfolding bearer_token
rejects_scheme = refl

health-Healthy_example :
    (h : Health) × (health guarded one_db ≡ (ok h, one_db)) × Healthy guarded one_db h
health-Healthy_example = health-Healthy guarded one_db one_db-Valid

abbrev waiting_ones : ListQuery
waiting_ones = record { status = some "WaitingCounterparty"; asset_id = none; limit = none }

list_transfers-Answered_example :
    ((Handlers.list_transfers (ok waiting_ones) one_db).1 ≡ one_db)
    × Responds status_to_str
        (λ (q : ListQuery). q.status)
        (λ q. q.limit)
        (ok waiting_ones)
        (Handlers.list_transfers (ok waiting_ones) one_db).0
list_transfers-Answered_example = list_transfers-Answered (ok waiting_ones) one_db one_db-Valid

abbrev unknown_payments : PaymentListQuery
unknown_payments = record { status = some "Paid"; limit = some 5 }

payments_refused :
    ((Handlers.list_payments (ok unknown_payments) one_db).1 ≡ one_db)
    × Responds payment_status_to_str
        (λ (q : PaymentListQuery). q.status)
        (λ q. q.limit)
        (ok unknown_payments)
        (Handlers.list_payments (ok unknown_payments) one_db).0
payments_refused = list_payments-Answered (ok unknown_payments) one_db one_db-Valid
