-- ===== src/Api/Handlers.antt =====
-- The handlers of api.rs and its table of routes. A body is the value that is serialized.
use rln_companion.Store.Transfers.{pending_transfers}
use rln_companion.Store.Payments.{pending_payments}
use rln_companion.Store.Node.{last_full_sync_at, node_state}
use Prim.Native.String.{◌++◌}
use rln_companion.Api.Token.{admits}
use rln_companion.Base.{
  ℕ, min, String, Bool, true, false, not, ◌&&◌, Option, none, some, List, length, Result, Exec,
  pure, raise, lift, ◌>>=◌, map_err, ok, err, nat_eq, if◌then◌else◌, ◌==◌, [], ◌∷◌,
}
use rln_companion.Base.Int.{ℤ}
use rln_companion.Proxy.Headers.{HeaderMap}
use rln_companion.Store.Codec.{status_from_str, payment_status_from_str}
use rln_companion.Store.Outbox.{parked_events_count}
use rln_companion.Store.Rows.{Db}
use rln_companion.Store.Transaction.{Query}
use rln_companion.Store.Types.{NodeState, Transfer, Payment, StoreError}
use rln_companion.Store.Equality.{Eq_NodeState}
use rln_companion.Proxy.Forward.{error_body, ProxyResponse, Wire, Proxy}
use rln_companion.Store.Payments
use rln_companion.Store.Transfers

abbrev pub default_limit : ℕ
default_limit = 100

abbrev pub max_limit : ℕ
max_limit = 1000

pub data ApiError : Type 0 where
  invalid_request : String → ApiError
  unauthorized not_found : ApiError
  stored : StoreError → ApiError

-- The status and the name of an error's answer.
unfoldable pub api_error_status : ApiError → ℕ × String
api_error_status (invalid_request message) = (400, "InvalidRequest")
api_error_status unauthorized = (401, "Unauthorized")
api_error_status not_found = (404, "NotFound")
api_error_status (stored e) = (500, "Internal")

abbrev pub Handler : Type 0 → Type 0
Handler A = Exec Db ApiError A

-- `?` on a `StoreError`
unfoldable pub from_pool : {A : Type 0} → Query A → Handler A
unfolding map_err
from_pool q d = let (r, d') = q d in (map_err stored r, d')

-- The settings of `AppState` that the handlers read.
pub record ApiState : Type 0 where
  pub openapi : Option String
  pub auth_token : Option String
  pub webhook_max_attempts : ℕ

pub record Health : Type 0 where
  pub status : String
  pub node : String
  pub pending_transfers : ℕ
  pub pending_payments : ℕ
  pub parked_events : ℕ
  pub last_full_sync_at : Option ℤ

unfoldable pub node_name : NodeState → String
node_name NodeState.unknown = "unknown"
node_name NodeState.locked = "locked"
node_name NodeState.unlocked = "unlocked"
node_name NodeState.down = "down"
node_name NodeState.misconfigured = "misconfigured"

unfoldable pub health : ApiState → Handler Health
unfolding ◌>>=◌ from_pool node_state pending_transfers pending_payments parked_events_count
    last_full_sync_at node_name
health state = do
  node ← from_pool node_state
  transfers ← from_pool pending_transfers
  payments ← from_pool pending_payments
  parked ← from_pool (parked_events_count state.webhook_max_attempts)
  synced_at ← from_pool last_full_sync_at
  pure (record {
    status = if node == NodeState.unlocked && nat_eq parked 0 then "ok" else "degraded";
    node = node_name node;
    pending_transfers = length transfers;
    pending_payments = length payments;
    parked_events = parked;
    last_full_sync_at = synced_at;
  })

pub record ListQuery : Type 0 where
  pub status : Option String
  pub asset_id : Option String
  pub limit : Option ℕ

pub record PaymentListQuery : Type 0 where
  pub status : Option String
  pub limit : Option ℕ

-- A query string that axum rejects comes with the text of its rejection.
unfoldable pub query_of : {Q : Type 0} → Result String Q → Result ApiError Q
unfolding map_err
query_of q = map_err invalid_request q

-- A status that is given must be the name of one.
unfoldable pub status_of :
    {A : Type 0} → (String → Result StoreError A) → Option String → Result ApiError (Option A)
status_of read none = ok none
status_of read (some s) = elim (read s) [
  | ok a ↦ ok (some a)
  | err e ↦ err (invalid_request ("invalid status: " ++ s))
]

abbrev pub or_default : Option ℕ → ℕ
or_default none = default_limit
or_default (some n) = n

unfoldable pub limit_of : Option ℕ → ℕ
limit_of limit = min (or_default limit) max_limit

unfoldable pub list_transfers : Result String ListQuery → Handler (List Transfer)
unfolding ◌>>=◌ query_of status_of status_from_str limit_of from_pool Transfers.list_transfers
list_transfers query = do
  q ← lift (query_of query)
  status ← lift (status_of status_from_str q.status)
  from_pool (Transfers.list_transfers status q.asset_id (limit_of q.limit))

unfoldable pub list_payments : Result String PaymentListQuery → Handler (List Payment)
unfolding ◌>>=◌ query_of status_of payment_status_from_str limit_of from_pool Payments.list_payments
list_payments query = do
  q ← lift (query_of query)
  status ← lift (status_of payment_status_from_str q.status)
  from_pool (Payments.list_payments status (limit_of q.limit))

abbrev pub or_not_found : Option Transfer → Result ApiError Transfer
or_not_found none = err not_found
or_not_found (some t) = ok t

unfoldable pub get_transfer : String → Handler Transfer
unfolding ◌>>=◌ from_pool Transfers.get_transfer
get_transfer id = do transfer ← from_pool (Transfers.get_transfer id); lift (or_not_found transfer)

-- A request that the router has matched to a route of `routes`, with what its extractors give.
pub data Call : Type 0 where
  transfers_call : Result String ListQuery → Call
  transfer_call : String → Call
  payments_call : Result String PaymentListQuery → Call
  openapi_call health_call rest_call : Call

pub data ApiReply : Type 0 where
  transfers_reply : List Transfer → ApiReply
  transfer_reply : Transfer → ApiReply
  payments_reply : List Payment → ApiReply
  openapi_reply : Option String → ApiReply
  health_reply : Health → ApiReply

-- The routes of the router that has `require_token` as its layer.
abbrev pub is_protected : Call → Bool
is_protected (transfers_call q) = true
is_protected (transfer_call id) = true
is_protected (payments_call q) = true
is_protected openapi_call = true
is_protected health_call = false
is_protected rest_call = false

unfoldable pub call_handler : ApiState → Call → Handler ApiReply
unfolding ◌>>=◌ list_transfers get_transfer list_payments health
call_handler state (transfers_call q) = do ts ← list_transfers q; pure (transfers_reply ts)
call_handler state (transfer_call id) = do t ← get_transfer id; pure (transfer_reply t)
call_handler state (payments_call q) = do ps ← list_payments q; pure (payments_reply ps)
call_handler state openapi_call = pure (openapi_reply state.openapi)
call_handler state health_call = do h ← health state; pure (health_reply h)
call_handler state rest_call = raise not_found

unfoldable pub serve : ApiState → HeaderMap → Call → Handler ApiReply
unfolding admits call_handler
serve state headers call =
    if is_protected call && not (admits state.auth_token headers)
    then raise unauthorized
    else call_handler state call

-- `to_string` of an error, for the errors whose text goes into the answer.
abbrev pub api_error_text : ApiError → String
api_error_text (invalid_request message) = message
api_error_text unauthorized = "missing or invalid bearer token"
api_error_text not_found = "transfer not found"
api_error_text (stored e) = "internal error"

-- The answer that the client gets; `json` is what `Json` writes for a body.
module _ {N B : Type 0} (wire : Wire N B) (proxy : Proxy) (json : ApiReply → String) where
  abbrev pub json_reply : ApiReply → ProxyResponse
  json_reply reply = record {
    status = 200;
    headers = ("content-type", "application/json") ∷ [];
    body = json reply;
  }

  -- `openapi` of proxy.rs
  unfoldable pub openapi : Option String → ProxyResponse
  unfolding error_body
  openapi (some spec) = record {
    status = 200;
    headers = ("content-type", "application/yaml") ∷ [];
    body = spec;
  }
  openapi none = error_body wire proxy 404 "NotFound" "openapi spec not available"

  unfoldable pub reply_response : Result ApiError ApiReply → ProxyResponse
  unfolding error_body api_error_status openapi
  reply_response (ok (openapi_reply spec)) = openapi spec
  reply_response (ok reply) = json_reply reply
  reply_response (err e) =
      let (status, name) = api_error_status e in
      error_body wire proxy status name (api_error_text e)
