-- ===== src/Base/Text.antt =====
-- Text as the code points that the program walks over.
use Prim.Native.Char.{code}
use rln_companion.Base.{
  ℕ, ◌+◌, String, Bool, true, false, ◌&&◌, List, [], ◌∷◌, leb, nat_eq, if◌then◌else◌, zero, suc,
}

abbrev pub codes : String → List ℕ
codes String.[] = []
codes (String.◌∷◌ c s) = code c ∷ codes s

-- `eq_ignore_ascii_case`
abbrev pub ascii_lower : ℕ → ℕ
ascii_lower c = if leb b'A' c && leb c b'Z' then c + 32 else c

unfoldable pub same_ignoring_case : List ℕ → List ℕ → Bool
same_ignoring_case [] [] = true
same_ignoring_case (a ∷ s) (b ∷ t) =
    nat_eq (ascii_lower a) (ascii_lower b) && same_ignoring_case s t
same_ignoring_case _ _ = false

unfoldable pub eq_ignore_ascii_case : String → String → Bool
unfolding same_ignoring_case
eq_ignore_ascii_case a b = same_ignoring_case (codes a) (codes b)

-- `chars().take(n).collect()`
abbrev pub take_chars : ℕ → String → String
take_chars zero s = ""
take_chars (suc n) String.[] = ""
take_chars (suc n) (String.◌∷◌ c s) = String.◌∷◌ c (take_chars n s)
