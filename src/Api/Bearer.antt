-- ===== src/Api/Bearer.antt =====
-- Which headers of a request let it through.
use Prim.Native.String.{◌++◌}
use rln_companion.Api.Token.{
  is_empty, trim_start, trim_end, trim, split_once_white, bearer_token, all_visible, to_str,
  presented, admits, token_of,
}
use rln_companion.Base.{
  String, ◌≡◌, refl, false, some, ◌≢◌, ◌⊎◌, Bool, true, not, ◌&&◌, eq_iff, find, err, if◌then◌else◌,
  ◌==◌, Eq_String, ap, inl, inr, Option, none, arith, Bool-cases, Option-cases, sql_eq,
}
use rln_companion.Base.Text.{same_ignoring_case, eq_ignore_ascii_case}
use Prim.Native.Char.{Char}
use rln_companion.Api.Handlers.{
  Handler, ApiState, Call, ApiReply, is_protected, call_handler, serve, unauthorized,
}
use rln_companion.Proxy.Headers.{HeaderMap}
use rln_companion.Store.Rows.{Db}
use mathlib.Core.Option.{some-injective}
use mathlib.Core.Path.{subst}
use Prim.Native.String.append

-- A token that `trim` leaves, and that is not empty.
pub record IsToken (t : String) : Type 0 where
  pub starts : trim_start t ≡ t
  pub ends : trim_end t ≡ t
  pub something : is_empty t ≡ false

-- The text `Bearer t`, letter by letter.
abbrev with_scheme : String → String
with_scheme t = String.◌∷◌ "B" (
    String.◌∷◌ "e"
      (String.◌∷◌ "a" (String.◌∷◌ "r" (String.◌∷◌ "e" (String.◌∷◌ "r" (String.◌∷◌ " " t))))))

cons_append : (c : Char) (s t : String) → String.◌∷◌ c s ++ t ≡ String.◌∷◌ c (s ++ t)
cons_append c s t i = append.cons c s t i

nil_append : (t : String) → "" ++ t ≡ t
nil_append t i = append.nil t i

with_scheme_append : (t : String) → "Bearer " ++ t ≡ with_scheme t
with_scheme_append t =
    rw
      (
        cons_append "B" "earer " t,
        cons_append "e" "arer " t,
        cons_append "a" "rer " t,
        cons_append "r" "er " t,
        cons_append "e" "r " t,
        cons_append "r" " " t,
        cons_append " " "" t,
        nil_append t,
      )
      refl

trim_header : (t : String) → IsToken t → trim (with_scheme t) ≡ with_scheme t
unfolding trim trim_start trim_end
trim_header t h = rw (h.ends, h.something) refl

bearer_token_lem : (t : String) → IsToken t → bearer_token (with_scheme t) ≡ some t
unfolding bearer_token split_once_white eq_ignore_ascii_case same_ignoring_case trim
bearer_token_lem t h = rw (trim_header t h, h.starts, h.ends, h.something) refl

with_scheme_visible : (t : String) → all_visible t ≡ true → all_visible (with_scheme t) ≡ true
unfolding all_visible
with_scheme_visible t h = h

-- The header names the token.
presented-Bearer :
    (t name : String) (headers : HeaderMap)
    → IsToken t
    → all_visible t ≡ true
    → find (λ h. h.0 == "authorization") headers ≡ some (name, "Bearer " ++ t)
    → presented headers ≡ some t
unfolding presented to_str
presented-Bearer t name headers h visible hit =
    rw (presented, hit, with_scheme_append t, with_scheme_visible t visible) (bearer_token_lem t h)

-- With a token configured, a request whose first authorization header is `Bearer` and that token gets
-- through to its handler, if the token is visible ASCII, is not empty and has no white space at its ends.
pub serve-Bearer :
    (state : ApiState) (t name : String) (headers : HeaderMap) (call : Call) (d : Db)
    → state.auth_token ≡ some t
    → IsToken t
    → all_visible t ≡ true
    → find (λ h. h.0 == "authorization") headers ≡ some (name, "Bearer " ++ t)
    → serve state headers call d ≡ call_handler state call d
unfolding serve admits
serve-Bearer state t name headers call d configured h visible hit =
    let shown = presented-Bearer t name headers h visible hit in
    let same : (t == t) ≡ true = (eq_iff t t).1 refl in
    rw (configured, admits, shown, same) (not_guarded (is_protected call) _ _ d)
  where
    not_guarded :
        (b : Bool) (m n : Handler ApiReply) (d : Db) → (if b && not true then m else n) d ≡ n d
    not_guarded true m n d = refl
    not_guarded false m n d = refl

-- What is presented is not empty.
token_of-something :
    (parts : Option (String × String)) (t : String) → token_of parts ≡ some t → is_empty t ≡ false
token_of-something none t h = cc
token_of-something (some (scheme, token)) t h =
    elim (Bool-cases (eq_ignore_ascii_case scheme "bearer" && not (is_empty (trim token)))) [
      | inl named ↦
          let same : trim token ≡ t = some-injective _ _ (rw named at h) in
          let full : is_empty (trim token) ≡ false = ground arith in
          subst (λ x. is_empty x ≡ false) same full
      | inr unnamed ↦ cc (rw unnamed at h)
    ]

bearer_token-something : (header t : String) → bearer_token header ≡ some t → is_empty t ≡ false
unfolding bearer_token
bearer_token-something header t h = token_of-something (split_once_white (trim header)) t h

presented-something :
    (headers : HeaderMap) (t : String) → presented headers ≡ some t → is_empty t ≡ false
unfolding presented to_str
presented-something headers t h = elim (Option-cases (find (λ h. h.0 == "authorization") headers)) [
  | inl miss ↦ cc (rw (presented, miss) at h)
  | inr ((name, header), hit) ↦ elim (Bool-cases (all_visible header)) [
    | inl seen_all ↦ bearer_token-something header t (rw (presented, hit, seen_all) at h)
    | inr hidden ↦ cc (rw (presented, hit, hidden) at h)
  ]
]

not_presented :
    (headers : HeaderMap) (t : String)
    → (presented headers ≢ some t) ⊎ (t ≡ "")
    → presented headers ≢ some t
not_presented headers t (inl differs) e = differs e
not_presented headers t (inr empty) e =
    let full = presented-something headers t e in cc (rw empty at full)

sql_eq_differs :
    (shown : Option String) (t : String) → shown ≢ some t → sql_eq shown (some t) ≡ false
sql_eq_differs none t h = refl
sql_eq_differs (some p) t h = elim (Bool-cases (p == t)) [
  | inl same ↦ absurd (h (ap some ((eq_iff p t).0 same)))
  | inr differ ↦ differ
]

-- With a token configured, a request to a protected route that does not present it is answered with
-- `Unauthorized`, whatever is asked, and reads nothing of the database. An empty token is presented by
-- no request.
pub serve_rejects :
    (state : ApiState) (t : String) (headers : HeaderMap) (call : Call) (d : Db)
    → state.auth_token ≡ some t
    → is_protected call ≡ true
    → (presented headers ≢ some t) ⊎ (t ≡ "")
    → serve state headers call d ≡ (err unauthorized, d)
unfolding serve admits
serve_rejects state t headers call d configured protected why =
    let closed = sql_eq_differs (presented headers) t (not_presented headers t why) in
    rw (configured, protected, admits, closed) refl
