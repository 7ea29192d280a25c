-- ===== src/Proxy/Passed.antt =====
-- Which headers of a request reach the node.
use rln_companion.Base.{
  ℕ, ok, String, ◌≡◌, refl, inl, inr, Bool, List, [], ◌∷◌, arith, eq_iff, where_rows, any,
  if◌then◌else◌, Bool-cases, ◌==◌, Eq_String,
}
use rln_companion.Proxy.Forward.{Parts, Proxy, ProxyResponse, upstream_of, received}
use rln_companion.Proxy.Headers.{remove, HeaderMap, hop_by_hop, remove_each, strip_hop_by_hop}

abbrev pub has_name : String → String × String → Bool
has_name name h = h.0 == name

-- The values of a name, in their order.
abbrev pub values : String → HeaderMap → HeaderMap
values name headers = where_rows (has_name name) headers

values-remove :
    (name taken : String) (headers : HeaderMap)
    → values name (remove taken headers) ≡ (if name == taken then [] else values name headers)
unfolding remove
values-remove name taken [] = elim (Bool-cases (name == taken)) [
  | inl same ↦ rw same
  | inr differ ↦ rw differ
]
values-remove name taken (h ∷ headers) =
    ground (
      arith,
      values-remove name taken headers,
      eq_iff h.0 taken,
      eq_iff h.0 name,
      eq_iff name taken,
    )

abbrev pub listed : String → List String → Bool
listed name names = any (λ n. name == n) names

values-remove_each :
    (name : String) (names : List String) (headers : HeaderMap)
    → values name (remove_each names headers)
      ≡ (if listed name names then [] else values name headers)
unfolding remove_each
values-remove_each name [] headers = refl
values-remove_each name (n ∷ names) headers =
    ground (arith, values-remove_each name names (remove n headers), values-remove name n headers)

-- The names that do not pass: of the headers that RFC 7230 keeps to one connection, those that the proxy
-- knows, and the two that the client of the proxy sets anew.
abbrev pub held_back : List String
held_back =
    "host" ∷ "content-length" ∷ "connection" ∷ "keep-alive" ∷ "proxy-authenticate"
    ∷ "proxy-authorization" ∷ "te" ∷ "trailer" ∷ "transfer-encoding" ∷ "upgrade" ∷ []

abbrev pub dropped_from_answer : List String
dropped_from_answer =
    "content-length" ∷ "connection" ∷ "keep-alive" ∷ "proxy-authenticate" ∷ "proxy-authorization"
    ∷ "te" ∷ "trailer" ∷ "transfer-encoding" ∷ "upgrade" ∷ []

-- A request reaches the node with every value of every header that the client sent, in order, but for
-- `host`, `content-length`, `connection`, `keep-alive`, `proxy-authenticate`, `proxy-authorization`, `te`,
-- `trailer`, `transfer-encoding` and `upgrade`, of which none reaches it; and an answer whose body can be
-- read reaches the client with its status, its body and every value of every header, in order, but for
-- the same names without `host`.
pub values-upstream_of :
    (proxy : Proxy) (parts : Parts) (text name : String) (status : ℕ) (headers : HeaderMap)
    (body : String)
    → (values name (upstream_of proxy parts text).headers
        ≡ (if listed name held_back then [] else values name parts.headers))
      × ((given : ProxyResponse) × (received
              (ok (record { status = status; headers = headers; body = ok body }))
            ≡ ok given)
          × (given.status ≡ status)
          × (given.body ≡ body)
          × (values name given.headers
              ≡ (if listed name dropped_from_answer then [] else values name headers)))
unfolding upstream_of received
values-upstream_of proxy parts text name status headers body = (
  ground (
    arith,
    values-remove name "content-length" (remove "host" (strip_hop_by_hop parts.headers)),
    values-remove name "host" (strip_hop_by_hop parts.headers),
    values-remove_each name hop_by_hop parts.headers,
  ),
  (
    record {
      status = status;
      headers = remove "content-length" (strip_hop_by_hop headers);
      body = body;
    },
    refl,
    refl,
    refl,
    ground (
      arith,
      values-remove name "content-length" (strip_hop_by_hop headers),
      values-remove_each name hop_by_hop headers,
    ),
  ),
)
