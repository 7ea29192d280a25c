-- ===== src/Api/Token.antt =====
-- The bearer token of api.rs. A header value is the text of its bytes.
use mathlib.Core.Option
use Prim.Native.Char.{code}
use rln_companion.Base.{
  ℕ, String, Bool, true, false, not, ◌&&◌, ◌||◌, Option, none, some, find, ltb, leb, nat_eq,
  if◌then◌else◌, ◌==◌, sql_eq, Eq_String,
}
use rln_companion.Base.Text.{eq_ignore_ascii_case}
use rln_companion.Proxy.Headers.{HeaderMap}

-- `char::is_whitespace`
abbrev pub is_white : ℕ → Bool
is_white c =
    (leb 9 c && leb c 13)
    || nat_eq c 32
    || nat_eq c 133
    || nat_eq c 160
    || nat_eq c 5760
    || (leb 8192 c && leb c 8202)
    || nat_eq c 8232
    || nat_eq c 8233
    || nat_eq c 8239
    || nat_eq c 8287
    || nat_eq c 12288

abbrev pub is_empty : String → Bool
is_empty String.[] = true
is_empty (String.◌∷◌ c s) = false

unfoldable pub trim_start : String → String
trim_start String.[] = ""
trim_start (String.◌∷◌ c s) =
    let rest = trim_start s in if is_white (code c) then rest else String.◌∷◌ c s

unfoldable pub trim_end : String → String
trim_end String.[] = ""
trim_end (String.◌∷◌ c s) =
    let rest = trim_end s in if is_empty rest && is_white (code c) then "" else String.◌∷◌ c rest

unfoldable pub trim : String → String
unfolding trim_start trim_end
trim s = trim_end (trim_start s)

-- `split_once(char::is_whitespace)`
unfoldable pub split_once_white : String → Option (String × String)
split_once_white String.[] = none
split_once_white (String.◌∷◌ c s) =
    let rest = split_once_white s in
    if is_white (code c) then some ("", s) else Option.map (λ p. (String.◌∷◌ c p.0, p.1)) rest

-- `then(…).filter(…)` on what has been split
abbrev pub token_of : Option (String × String) → Option String
token_of none = none
token_of (some (scheme, token)) =
    if eq_ignore_ascii_case scheme "bearer" && not (is_empty (trim token))
    then some (trim token)
    else none

unfoldable pub bearer_token : String → Option String
unfolding trim split_once_white eq_ignore_ascii_case
bearer_token header = token_of (split_once_white (trim header))

-- `HeaderValue::to_str`: visible ASCII and tabs.
abbrev pub is_visible : ℕ → Bool
is_visible c = (leb 32 c && ltb c 127) || nat_eq c 9

unfoldable pub all_visible : String → Bool
all_visible String.[] = true
all_visible (String.◌∷◌ c s) = is_visible (code c) && all_visible s

unfoldable pub to_str : String → Option String
unfolding all_visible
to_str s = if all_visible s then some s else none

abbrev pub presented_by : Option String → Option String
presented_by none = none
presented_by (some header) = bearer_token header

-- `headers().get(AUTHORIZATION).and_then(to_str).and_then(bearer_token)`: the first value of the name.
unfoldable pub presented : HeaderMap → Option String
unfolding to_str bearer_token
presented headers = elim (find (λ h. h.0 == "authorization") headers) [
  | none ↦ none
  | some (name, header) ↦ presented_by (to_str header)
]

-- Whether `require_token` runs what comes next; else it answers `Unauthorized`.
unfoldable pub admits : Option String → HeaderMap → Bool
unfolding presented
admits none headers = true
admits (some expected) headers = sql_eq (presented headers) (some expected)
