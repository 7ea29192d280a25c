-- ===== src/Rln/Pages/Complete.antt =====
-- A listing of a node that pages through a list brings back the whole list.
use rln_companion.Base.{
  ℕ, ◌<◌, ◌≡◌, false, Option, none, some, List, [], ◌∷◌, ◌++◌, map, All, length, take, nat_eq,
  if◌then◌else◌, zero, suc, ◌≤◌, refl, sym, ap, ◌∙◌, inl, inr, arith, drop, take-append-drop,
  length-take, length-drop, drop-all, Exec, ok, ltb, nat_eq_iff, Bool-cases, sql_eq, Eq_ℕ,
}
use rln_companion.Rln.Pages.{Page, follow}
use rln_companion.Rln.Types.{RlnError}
use mathlib.Core.List.{append_assoc, append-nil}
use mathlib.Core.Path.{subst}

-- A node numbers what it lists. What it still has to list after the one of a number is what comes
-- behind that.
abbrev pub behind : {A : Type 0} → ℕ → List (ℕ × A) → List (ℕ × A)
behind index [] = []
behind index ((i, x) ∷ xs) = let rest = behind index xs in if nat_eq i index then xs else rest

abbrev pub from_offset : {A : Type 0} → Option ℕ → List (ℕ × A) → List (ℕ × A)
from_offset none xs = xs
from_offset (some index) xs = behind index xs

-- The number of the last one on a page; of an empty page it is whatever the node says.
abbrev pub last_index : {A : Type 0} → ℕ → List (ℕ × A) → ℕ
last_index other [] = other
last_index other ((i, x) ∷ xs) = last_index i xs

-- The page that such a node gives, as the tests of rln.rs serve it (9 and 5, then 2): as many as are asked for, while there are any, from behind the one
-- that the request names, and the number of the last of them.
abbrev pub page_of : {A : Type 0} → ℕ → ℕ → List (ℕ × A) → Option ℕ → Page A
page_of other size xs offset =
    let items = take size (from_offset offset xs) in
    record { items = map (λ e. e.1) items; last_index_offset = last_index other items }

-- Nothing has the number.
abbrev pub Unnumbered : {A : Type 0} → ℕ → List (ℕ × A) → Type 0
Unnumbered index xs = All (λ e. nat_eq e.0 index ≡ false) xs

-- No two have the same number.
abbrev pub Numbered : {A : Type 0} → List (ℕ × A) → Type 0
Numbered [] = Unit
Numbered ((i, x) ∷ xs) = Unnumbered i xs × Numbered xs

length-map : {A B : Type 0} (f : A → B) (xs : List A) → length (map f xs) ≡ length xs
length-map f [] = refl
length-map f (x ∷ xs) = ap suc (length-map f xs)

map-append : {A B : Type 0} (f : A → B) (xs ys : List A) → map f (xs ++ ys) ≡ map f xs ++ map f ys
map-append f [] ys = refl
map-append f (x ∷ xs) ys = ap (◌∷◌ (f x)) (map-append f xs ys)

nat_eq_sym : (m n : ℕ) → nat_eq m n ≡ false → nat_eq n m ≡ false
nat_eq_sym m n h = ground arith

All-behind : {A : Type 0} (P : A → Type 0) (xs ys : List A) → All P (xs ++ ys) → All P ys
All-behind P [] ys h = h
All-behind P (x ∷ xs) ys (h, hs) = All-behind P xs ys hs

-- What holds of the numbers of all of a list holds of the last on a page of it.
of_last :
    {A : Type 0} (index other : ℕ) (chunk rest : List (ℕ × A))
    → 0 < length chunk
    → Unnumbered index (chunk ++ rest)
    → nat_eq (last_index other chunk) index ≡ false
of_last index other [] rest there h = absurd (omega arith)
of_last index other ((i, x) ∷ []) rest there (h, hs) = h
of_last index other ((i, x) ∷ e ∷ chunk) rest there (h, hs) =
    of_last index i (e ∷ chunk) rest (omega arith) hs

-- Behind the last on a first page there is what the page does not hold, and nothing there has the
-- number of that last one.
behind_first :
    {A : Type 0} (other : ℕ) (chunk rest : List (ℕ × A))
    → 0 < length chunk
    → Numbered (chunk ++ rest)
    → (behind (last_index other chunk) (chunk ++ rest) ≡ rest)
      × Unnumbered (last_index other chunk) rest
behind_first other [] rest there h = absurd (omega arith)
behind_first other ((i, x) ∷ []) rest there (h, hs) = (rw ((nat_eq_iff i i).1 refl) refl, h)
behind_first other ((i, x) ∷ e ∷ chunk) rest there (h, hs) =
    let (same, none_again) = behind_first i (e ∷ chunk) rest (omega arith) hs in
    let differ =
      nat_eq_sym (last_index i (e ∷ chunk)) i (of_last i i (e ∷ chunk) rest (omega arith) h) in
    (rw differ same, none_again)

-- The same of a page further on in the list.
behind_last :
    {A : Type 0} (other : ℕ) (pre chunk rest : List (ℕ × A))
    → 0 < length chunk
    → Numbered (pre ++ (chunk ++ rest))
    → (behind (last_index other chunk) (pre ++ (chunk ++ rest)) ≡ rest)
      × Unnumbered (last_index other chunk) rest
behind_last other [] chunk rest there h = behind_first other chunk rest there h
behind_last other ((i, x) ∷ pre) chunk rest there (h, hs) =
    let (same, none_again) = behind_last other pre chunk rest there hs in
    let differ =
      nat_eq_sym (last_index other chunk) i
        (of_last i other chunk rest there (All-behind _ pre (chunk ++ rest) h)) in
    (rw differ same, none_again)

short : {A : Type 0} (size : ℕ) (rest : List A) → length rest < size → take size rest ≡ rest
short size rest h =
    let e = drop-all size rest (omega arith) in
    sym (append-nil (take size rest)) ∙ rw e at (take-append-drop size rest)

-- A request does not name one that is still to be listed.
abbrev Past : {A : Type 0} → Option ℕ → List (ℕ × A) → Type 0
Past none rest = Unit
Past (some index) rest = Unnumbered index rest

not_again :
    {A : Type 0} (offset : Option ℕ) (other : ℕ) (chunk rest : List (ℕ × A))
    → 0 < length chunk
    → Past offset (chunk ++ rest)
    → sql_eq offset (some (last_index other chunk)) ≡ false
not_again none other chunk rest there h = refl
not_again (some index) other chunk rest there h =
    nat_eq_sym (last_index other chunk) index (of_last index other chunk rest there h)

-- A node that pages through a list as `page_of` says, whatever it says of an empty page.
abbrev pub Pages :
    {N A : Type 0} → (Option ℕ → Exec N RlnError (Page A)) → ℕ → List (ℕ × A) → Type 0
Pages {N} fetch size xs =
    (other : Option ℕ → ℕ) × ((offset : Option ℕ) (n : N)
      → (fetch offset n).0 ≡ ok (page_of (other offset) size xs offset))

module _ {N A : Type 0} (fetch : Option ℕ → Exec N RlnError (Page A)) (size : ℕ) (xs : List (ℕ × A))
    (other : Option ℕ → ℕ)
    (serves : (offset : Option ℕ) (n : N)
      → (fetch offset n).0 ≡ ok (page_of (other offset) size xs offset))
    (numbered : Numbered xs) where
  pub follow-rest :
      (more : ℕ) (offset : Option ℕ) (out : List A) (n : N) (pre rest : List (ℕ × A))
      → xs ≡ pre ++ rest
      → from_offset offset xs ≡ rest
      → Past offset rest
      → 0 < size
      → length rest < more
      → (follow fetch size more offset out n).0 ≡ ok (some (out ++ map (λ e. e.1) rest))
  unfolding follow
  follow-rest zero offset out n pre rest whole at_offset past pos_size h = absurd (omega arith)
  follow-rest (suc more) offset out n pre rest whole at_offset past pos_size h =
      elim (Bool-cases (ltb (length rest) size)) [
        | inl end ↦
            let all_of_it = short size rest (ground arith) in
            rw (serves offset n, at_offset, all_of_it, length-map (λ e. e.1) rest, end) refl
        | inr full ↦
            let chunk = take size rest in
            let enough : size ≤ length rest = ground arith in
            let len : length chunk ≡ size = omega (arith, length-take size rest, enough) in
            let there : 0 < length chunk = omega arith in
            let halves : chunk ++ drop size rest ≡ rest = take-append-drop size rest in
            let last = last_index (other offset) chunk in
            let pieces : xs ≡ pre ++ (chunk ++ drop size rest) =
              whole ∙ ap (λ r. pre ++ r) (sym halves) in
            let (same, none_again) =
              behind_last (other offset) pre chunk (drop size rest) there
                (subst Numbered pieces numbered) in
            let again =
              not_again offset (other offset) chunk (drop size rest) there
                (subst (Past offset) (sym halves) past) in
            let not_short : ltb (length (map (λ e. e.1) chunk)) size ≡ false =
              ground (arith, length-map (λ (e : ℕ × A). e.1) chunk) in
            let ih =
              follow-rest more (some last) (out ++ map (λ e. e.1) chunk) (fetch offset n).1
                (pre ++ chunk) (drop size rest)
                (pieces ∙ sym (append_assoc pre chunk (drop size rest)))
                (ap (behind last) pieces ∙ same) none_again pos_size
                (omega (arith, length-drop size rest, enough)) in
            rw (serves offset n, at_offset, not_short, again)
              (ih
                ∙ ap (λ r. ok (some r))
                    (append_assoc out (map (λ e. e.1) chunk) (map (λ e. e.1) (drop size rest))
                      ∙ ap (λ r. out ++ r)
                          (sym (map-append (λ e. e.1) chunk (drop size rest))
                            ∙ ap (map (λ e. e.1)) halves)))
      ]
