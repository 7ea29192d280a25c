-- ===== src/Proxy/Path.antt =====
-- check_path of proxy.rs, on the code points of the path.
use rln_companion.Base.{ℕ, Bool, true, false, not, ◌&&◌, List, [], ◌∷◌, any, nat_eq, if◌then◌else◌}

abbrev pub slash : ℕ
slash = b'/'

abbrev pub percent : ℕ
percent = b'%'

abbrev pub dot : ℕ
dot = b'.'

-- `str::split`: a text without the separator is one piece.
abbrev pub push_first : {A : Type 0} → A → List (List A) → List (List A)
push_first c [] = (c ∷ []) ∷ []
push_first c (piece ∷ pieces) = (c ∷ piece) ∷ pieces

unfoldable pub split : ℕ → List ℕ → List (List ℕ)
split sep [] = [] ∷ []
split sep (c ∷ cs) =
    let rest = split sep cs in if nat_eq c sep then [] ∷ rest else push_first c rest

abbrev pub without_slash : List ℕ → List ℕ
without_slash [] = []
without_slash (c ∷ cs) = if nat_eq c slash then cs else c ∷ cs

-- `matches!(s, "" | "." | "..")`
abbrev pub normalized_away : List ℕ → Bool
normalized_away [] = true
normalized_away (a ∷ []) = nat_eq a dot
normalized_away (a ∷ b ∷ []) = nat_eq a dot && nat_eq b dot
normalized_away (a ∷ b ∷ c ∷ cs) = false

unfoldable pub path_ok : List ℕ → Bool
unfolding split
path_ok path =
    not (any (nat_eq percent) path) && not (any normalized_away (split slash (without_slash path)))
