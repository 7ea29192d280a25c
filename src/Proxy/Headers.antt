-- ===== src/Proxy/Headers.antt =====
-- The headers of proxy.rs, as the names and values of a `HeaderMap`; its names are in lower case.
use rln_companion.Base.{String, not, List, [], ◌∷◌, where_rows, ◌==◌, Eq_String}

abbrev pub HeaderMap : Type 0
HeaderMap = List (String × String)

abbrev pub hop_by_hop : List String
hop_by_hop =
    "connection" ∷ "keep-alive" ∷ "proxy-authenticate" ∷ "proxy-authorization" ∷ "te" ∷ "trailer"
    ∷ "transfer-encoding" ∷ "upgrade" ∷ []

-- `HeaderMap::remove` takes every value of the name.
unfoldable pub remove : String → HeaderMap → HeaderMap
remove name headers = where_rows (λ h. not (h.0 == name)) headers

unfoldable pub remove_each : List String → HeaderMap → HeaderMap
unfolding remove
remove_each [] headers = headers
remove_each (name ∷ names) headers = remove_each names (remove name headers)

unfoldable pub strip_hop_by_hop : HeaderMap → HeaderMap
unfolding remove_each
strip_hop_by_hop headers = remove_each hop_by_hop headers
