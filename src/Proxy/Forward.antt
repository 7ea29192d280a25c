-- ===== src/Proxy/Forward.antt =====
-- The forwarding of proxy.rs: the request that reaches the node, and the answer that goes back.
use Prim.Native.String.{◌++◌ as str_append}
use rln_companion.Base.{
  ℕ, String, Option, none, some, [], ◌∷◌, Result, Exec, lift, ◌>>=◌, map_err, ok, err,
  if◌then◌else◌,
}
use rln_companion.Base.Text.{codes}
use rln_companion.Proxy.Headers.{HeaderMap, remove, strip_hop_by_hop}
use rln_companion.Proxy.Path.{path_ok}
use rln_companion.Rln.Client.{RlnErrorBody}

pub data ProxyError : Type 0 where
  unreachable timeout payload_too_large body path : ProxyError

-- Why axum did not read a body, and why reqwest got no answer.
pub data BodyFault : Type 0 where
  too_large unreadable : BodyFault

pub data SendFault : Type 0 where
  timed_out no_answer : SendFault

-- A request as it comes in, with a body of type `B` that has not been read.
pub record Parts : Type 0 where
  pub method : String
  pub path : String
  pub path_and_query : Option String
  pub headers : HeaderMap

pub record Upstream : Type 0 where
  pub method : String
  pub url : String
  pub headers : HeaderMap
  pub body : String

pub record Reply : Type 0 where
  pub status : ℕ
  pub headers : HeaderMap
  pub body : Result SendFault String

pub record ProxyResponse : Type 0 where
  pub status : ℕ
  pub headers : HeaderMap
  pub body : String

-- The crates axum, reqwest and serde_json, at a node with the states `N` and bodies `B`.
pub record Wire (N B : Type 0) : Type 0 where
  pub to_bytes : B → ℕ → Result BodyFault String
  pub send : Upstream → N → Result SendFault Reply × N
  pub error_body : String → Option RlnErrorBody
  pub error_json : String → ℕ → String → String

pub record Proxy : Type 0 where
  pub base_url : String
  pub max_body : ℕ

abbrev pub body_error : BodyFault → ProxyError
body_error too_large = payload_too_large
body_error unreadable = body

abbrev pub send_error : SendFault → ProxyError
send_error timed_out = timeout
send_error no_answer = unreachable

unfoldable pub check_path : String → Result ProxyError Unit
unfolding path_ok
check_path p = if path_ok (codes p) then ok tt else err path

abbrev url_of : Proxy → Option String → String
url_of proxy none = str_append proxy.base_url "/"
url_of proxy (some p) = str_append proxy.base_url p

unfoldable pub upstream_of : Proxy → Parts → String → Upstream
unfolding strip_hop_by_hop remove
upstream_of proxy parts text = record {
  method = parts.method;
  url = url_of proxy parts.path_and_query;
  headers = remove "content-length" (remove "host" (strip_hop_by_hop parts.headers));
  body = text;
}

abbrev pub response_of : ℕ → HeaderMap → Result SendFault String → Result ProxyError ProxyResponse
response_of status headers (err e) = err (send_error e)
response_of status headers (ok text) =
    ok (record { status = status; headers = headers; body = text })

unfoldable pub received : Result SendFault Reply → Result ProxyError ProxyResponse
unfolding strip_hop_by_hop remove
received (err e) = err (send_error e)
received (ok reply) =
    response_of reply.status (remove "content-length" (strip_hop_by_hop reply.headers)) reply.body

module _ {N B : Type 0} (wire : Wire N B) (proxy : Proxy) where
  unfoldable pub read_body : B → Result ProxyError String
  unfolding map_err
  read_body b = map_err body_error (wire.to_bytes b proxy.max_body)

  abbrev pub sent : Result ProxyError Unit → Upstream → Exec N ProxyError ProxyResponse
  sent (err e) req n = (err e, n)
  sent (ok u) req n = let (r, n') = wire.send req n in (received r, n')

  unfoldable pub forward_parts : Parts → String → Exec N ProxyError ProxyResponse
  unfolding check_path upstream_of received
  forward_parts parts text = sent (check_path parts.path) (upstream_of proxy parts text)

  unfoldable pub forward : Parts → B → Exec N ProxyError ProxyResponse
  unfolding ◌>>=◌ read_body forward_parts
  forward parts b = do text ← lift (read_body b); forward_parts parts text

  abbrev error_status : ProxyError → ℕ × String × String
  error_status unreachable = (502, "UpstreamUnreachable", "upstream unreachable")
  error_status timeout = (504, "UpstreamTimeout", "upstream timeout")
  error_status payload_too_large = (413, "PayloadTooLarge", "request body too large")
  error_status body = (400, "InvalidRequest", "request body: failed to read request body")
  error_status path = (400, "InvalidRequest", "invalid request path")

  unfoldable pub error_body : ℕ → String → String → ProxyResponse
  error_body status name message = record {
    status = status;
    headers = ("content-type", "application/json") ∷ [];
    body = wire.error_json message status name;
  }

  unfoldable pub into_response : ProxyError → ProxyResponse
  unfolding error_body
  into_response e = let (status, name, message) = error_status e in error_body status name message

  -- `Ok(resp) => resp.into_response(), Err(e) => e.into_response()`
  abbrev pub response : Result ProxyError ProxyResponse → ProxyResponse
  response (ok r) = r
  response (err e) = into_response e
