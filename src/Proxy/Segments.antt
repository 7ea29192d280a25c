-- ===== src/Proxy/Segments.antt =====
-- Which paths check_path lets through.
use rln_companion.Base.{
  ℕ, ◌≡◌, refl, ap, ◌∙◌, inl, inr, true, false, List, [], ◌∷◌, ◌++◌, arith, All, any, nat_eq,
  nat_eq_iff, Bool-cases, String, sym, ok, ◌≢◌,
}
use rln_companion.Proxy.Path.{split, slash, percent, push_first, normalized_away, path_ok}
use rln_companion.Base.Text.{codes}
use rln_companion.Proxy.Forward.{check_path}

-- A segment that no client of the node rewrites: not empty, `.` or `..`, and without `%` and `/`.
abbrev pub Segment : List ℕ → Type 0
Segment s =
    (s ≢ []) × (s ≢ b'.' ∷ []) × (s ≢ b'.' ∷ b'.' ∷ []) × All (λ c. (c ≢ b'%') × (c ≢ b'/')) s

-- Each segment behind a slash.
abbrev pub joined : List (List ℕ) → List ℕ
joined [] = []
joined (s ∷ segments) = slash ∷ (s ++ joined segments)

-- The text behind the first slash.
abbrev behind : List (List ℕ) → List ℕ
behind [] = []
behind (s ∷ segments) = s ++ joined segments

behind-push_first :
    (c : ℕ) (pieces : List (List ℕ)) → behind (push_first c pieces) ≡ c ∷ behind pieces
behind-push_first c [] = refl
behind-push_first c (s ∷ segments) = refl

nonempty : (cs : List ℕ) → joined (split slash cs) ≡ slash ∷ behind (split slash cs)
unfolding split
nonempty [] = refl
nonempty (c ∷ cs) = elim (Bool-cases (nat_eq c slash)) [
  | inl same ↦ rw same refl
  | inr differ ↦ rw differ (pushed (split slash cs))
]
  where
    pushed :
        (pieces : List (List ℕ))
        → joined (push_first c pieces) ≡ slash ∷ behind (push_first c pieces)
    pushed [] = refl
    pushed (s ∷ segments) = refl

behind-split : (cs : List ℕ) → behind (split slash cs) ≡ cs
unfolding split
behind-split [] = refl
behind-split (c ∷ cs) = elim (Bool-cases (nat_eq c slash)) [
  | inl same ↦
      let e : c ≡ slash = (nat_eq_iff c slash).0 same in
      rw same (nonempty cs ∙ rw (behind-split cs, e) refl)
  | inr differ ↦ rw differ (behind-push_first c (split slash cs) ∙ rw (behind-split cs) refl)
]

pushed-Segments :
    (c : ℕ) (pieces : List (List ℕ))
    → nat_eq percent c ≡ false
    → nat_eq slash c ≡ false
    → All (λ s. (any (nat_eq percent) s ≡ false) × (any (nat_eq slash) s ≡ false)) pieces
    → All
        (λ s. (any (nat_eq percent) s ≡ false) × (any (nat_eq slash) s ≡ false))
        (push_first c pieces)
pushed-Segments c [] p q h = ground arith
pushed-Segments c (s ∷ segments) p q ((a, b), h) = ((rw p a, rw q b), h)

plain_pieces :
    (cs : List ℕ)
    → any (nat_eq percent) cs ≡ false
    → All (λ s. (any (nat_eq percent) s ≡ false) × (any (nat_eq slash) s ≡ false)) (split slash cs)
unfolding split
plain_pieces [] h = ((refl, refl), tt)
plain_pieces (c ∷ cs) h =
    let free : any (nat_eq percent) cs ≡ false = ground arith in
    let mark : nat_eq percent c ≡ false = ground arith in
    let ih = plain_pieces cs free in
    elim (Bool-cases (nat_eq c slash)) [
      | inl same ↦ rw same ((refl, refl), ih)
      | inr differ ↦ rw differ (pushed-Segments c (split slash cs) mark (ground arith) ih)
    ]

-- No code of the text is that one.
without :
    (s : List ℕ)
    → any (nat_eq percent) s ≡ false
    → any (nat_eq slash) s ≡ false
    → All (λ c. (c ≢ b'%') × (c ≢ b'/')) s
without [] h k = tt
without (c ∷ s) h k = (
  (
    λ e. absurd (ground (arith, (nat_eq_iff percent c).1 (sym e))),
    λ e. absurd (ground (arith, (nat_eq_iff slash c).1 (sym e))),
  ),
  without s (ground arith) (ground arith),
)

-- What is not normalized away is none of the three.
kept_as_it_is :
    (s : List ℕ) → normalized_away s ≡ false → (s ≢ []) × (s ≢ b'.' ∷ []) × (s ≢ b'.' ∷ b'.' ∷ [])
kept_as_it_is s h = (λ e. cc (rw e at h), λ e. cc (rw e at h), λ e. cc (rw e at h))

good_pieces :
    (pieces : List (List ℕ))
    → any normalized_away pieces ≡ false
    → All (λ s. (any (nat_eq percent) s ≡ false) × (any (nat_eq slash) s ≡ false)) pieces
    → All Segment pieces
good_pieces [] h k = tt
good_pieces (s ∷ pieces) h ((a, b), k) =
    let (full, one, two) = kept_as_it_is s (ground arith) in
    ((full, one, two, without s a b), good_pieces pieces (ground arith) k)

path_ok-Segments :
    (cs : List ℕ)
    → path_ok (slash ∷ cs) ≡ true
    → (segments : List (List ℕ)) × (joined segments ≡ slash ∷ cs) × All Segment segments
unfolding path_ok
path_ok-Segments cs h = (
  split slash cs,
  nonempty cs ∙ ap (◌∷◌ slash) (behind-split cs),
  good_pieces (split slash cs) (ground arith) (plain_pieces cs (ground arith)),
)

-- A path that check_path lets through and that begins with a slash is made of segments behind a slash
-- each, none of them empty, `.` or `..`, and none with a `%` or a `/` in it.
pub check_path-Segments :
    (p : String) (cs : List ℕ)
    → codes p ≡ slash ∷ cs
    → check_path p ≡ ok tt
    → (segments : List (List ℕ)) × (joined segments ≡ codes p) × All Segment segments
unfolding check_path
check_path-Segments p cs begins h =
    let passes : path_ok (codes p) ≡ true = ground arith in
    let (segments, whole, good) = path_ok-Segments cs (rw begins at passes) in
    (segments, whole ∙ sym begins, good)
