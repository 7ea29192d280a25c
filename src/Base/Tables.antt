-- ===== src/Base/Tables.antt =====
-- What the statements do to the rows of a table: the first row of a condition after an update or an
-- insertion.
use mathlib.Core.Option
use mathlib.Core.List.{reverse-cons}
use rln_companion.Base.{
  ◌≡◌, refl, Bool, true, false, ◌||◌, none, some, List, [], ◌∷◌, ◌++◌, arith, find, any,
  update_rows, if◌then◌else◌, ℕ, zero, suc, ◌+◌, ◌≤◌, inl, inr, All, take, where_rows, count,
  insert_by, sort_by, Bool-cases, reverse, head?, sym, distinct, map, length,
}
use mathlib.Core.Path.{subst}
use mathlib.Core.Option.{some-injective}

module _ {ℓ} {A : Type ℓ} where
  -- An update of rows by a function that the condition `q` does not notice.
  pub find-update_rows :
      (q p : A → Bool) (f : A → A) (rows : List A)
      → ((r : A) → q (f r) ≡ q r)
      → find q (update_rows p f rows) ≡ Option.map (λ r. if p r then f r else r) (find q rows)
  find-update_rows q p f [] h = refl
  find-update_rows q p f (r ∷ rows) h = ground (arith, h r, find-update_rows q p f rows h)

  pub find-append :
      (q : A → Bool) (rows more : List A) (r : A)
      → find q rows ≡ some r
      → find q (rows ++ more) ≡ some r
  find-append q [] more r h = cc
  find-append q (x ∷ rows) more r h = ground (arith, find-append q rows more r)

  pub any-update_rows :
      (q p : A → Bool) (f : A → A) (rows : List A)
      → ((r : A) → q (f r) ≡ q r)
      → any q (update_rows p f rows) ≡ any q rows
  any-update_rows q p f [] h = refl
  any-update_rows q p f (r ∷ rows) h = ground (arith, h r, any-update_rows q p f rows h)

  pub any-append : (q : A → Bool) (xs ys : List A) → any q (xs ++ ys) ≡ (any q xs || any q ys)
  any-append q [] ys = refl
  any-append q (x ∷ xs) ys = ground (arith, any-append q xs ys)

  pub find-none_of_any : (q : A → Bool) (xs : List A) → any q xs ≡ false → find q xs ≡ none
  find-none_of_any q [] h = refl
  find-none_of_any q (x ∷ xs) h = ground (arith, find-none_of_any q xs)

  pub find-holds : (q : A → Bool) (xs : List A) (r : A) → find q xs ≡ some r → q r ≡ true
  find-holds q [] r h = cc
  find-holds q (x ∷ xs) r h = ground (arith, find-holds q xs r)

  -- An update that the test does not notice, or that it notices only to fail.
  pub count-update_rows :
      (q p : A → Bool) (f : A → A) (rows : List A)
      → ((r : A) → q (f r) ≡ true → q r ≡ true)
      → count q (update_rows p f rows) ≤ count q rows
  count-update_rows q p f [] h = omega arith
  count-update_rows q p f (r ∷ rows) h = ground (arith, h r, count-update_rows q p f rows h)

  pub count-append : (q : A → Bool) (xs ys : List A) → count q (xs ++ ys) ≡ count q xs + count q ys
  count-append q [] ys = omega arith
  count-append q (x ∷ xs) ys = omega (arith, count-append q xs ys)

  pub count_of_none : (q : A → Bool) (xs : List A) → any q xs ≡ false → count q xs ≡ 0
  count_of_none q [] h = refl
  count_of_none q (x ∷ xs) h = ground (arith, count_of_none q xs)

  pub All-update_rows :
      (P : A → Type 0) (p : A → Bool) (f : A → A) (rows : List A)
      → ((r : A) → p r ≡ true → P r → P (f r))
      → All P rows
      → All P (update_rows p f rows)
  All-update_rows P p f [] h k = tt
  All-update_rows P p f (r ∷ rows) h (k, ks) = elim (Bool-cases (p r)) [
    | inl holds ↦ rw holds (h r holds k, All-update_rows P p f rows h ks)
    | inr fails ↦ rw fails (k, All-update_rows P p f rows h ks)
  ]

  pub All-append : (P : A → Type 0) (xs ys : List A) → All P xs → All P ys → All P (xs ++ ys)
  All-append P [] ys h k = k
  All-append P (x ∷ xs) ys (h, hs) k = (h, All-append P xs ys hs k)

  pub All-find :
      (P : A → Type 0) (q : A → Bool) (xs : List A) (r : A) → All P xs → find q xs ≡ some r → P r
  All-find P q [] r h e = cc
  All-find P q (x ∷ xs) r (h, hs) e = elim (Bool-cases (q x)) [
    | inl holds ↦ let same : x ≡ r = cc (rw holds at e) in subst P same h
    | inr fails ↦ All-find P q xs r hs (rw fails at e)
  ]

  pub All-where_rows :
      (P : A → Type 0) (q : A → Bool) (xs : List A) → All P xs → All P (where_rows q xs)
  All-where_rows P q [] h = tt
  All-where_rows P q (x ∷ xs) (h, hs) = elim (Bool-cases (q x)) [
    | inl holds ↦ rw holds (h, All-where_rows P q xs hs)
    | inr fails ↦ rw fails (All-where_rows P q xs hs)
  ]

  pub All-take : (P : A → Type 0) (n : ℕ) (xs : List A) → All P xs → All P (take n xs)
  All-take P zero xs h = tt
  All-take P (suc n) [] h = tt
  All-take P (suc n) (x ∷ xs) (h, hs) = (h, All-take P n xs hs)

  All-insert_by :
      (P : A → Type 0) (le : A → A → Bool) (x : A) (ys : List A)
      → P x
      → All P ys
      → All P (insert_by le x ys)
  All-insert_by P le x [] h k = (h, tt)
  All-insert_by P le x (y ∷ ys) h (k, ks) = elim (Bool-cases (le x y)) [
    | inl holds ↦ rw holds (h, (k, ks))
    | inr fails ↦ rw fails (k, All-insert_by P le x ys h ks)
  ]

  pub All-sort_by :
      (P : A → Type 0) (le : A → A → Bool) (xs : List A) → All P xs → All P (sort_by le xs)
  All-sort_by P le [] h = tt
  All-sort_by P le (x ∷ xs) (h, hs) =
      All-insert_by P le x (sort_by le xs) h (All-sort_by P le xs hs)

  pub All-reverse : (P : A → Type 0) (xs : List A) → All P xs → All P (reverse xs)
  All-reverse P [] h = tt
  All-reverse P (x ∷ xs) (h, hs) =
      rw (reverse-cons x xs) (All-append P (reverse xs) (x ∷ []) (All-reverse P xs hs) (h, tt))

  pub any_of_find : (q : A → Bool) (xs : List A) → find q xs ≡ none → any q xs ≡ false
  any_of_find q [] h = refl
  any_of_find q (x ∷ xs) h = ground (arith, any_of_find q xs)

  pub All-map : (P Q : A → Type 0) (xs : List A) → ((x : A) → P x → Q x) → All P xs → All Q xs
  All-map P Q [] f h = tt
  All-map P Q (x ∷ xs) f (h, hs) = (f x h, All-map P Q xs f hs)

  pub All-where_rows-true :
      (P : A → Type 0) (q : A → Bool) (xs : List A)
      → All P xs
      → All (λ x. P x × (q x ≡ true)) (where_rows q xs)
  All-where_rows-true P q [] h = tt
  All-where_rows-true P q (x ∷ xs) (h, hs) = elim (Bool-cases (q x)) [
    | inl holds ↦ rw holds ((h, holds), All-where_rows-true P q xs hs)
    | inr fails ↦ rw fails (All-where_rows-true P q xs hs)
  ]

  pub All-head : (P : A → Type 0) (xs : List A) (r : A) → All P xs → head? xs ≡ some r → P r
  All-head P [] r h e = cc
  All-head P (x ∷ xs) r (h, hs) e = subst P (some-injective _ _ e) h

  pub count_of_found : (q : A → Bool) (xs : List A) (r : A) → find q xs ≡ some r → 1 ≤ count q xs
  count_of_found q [] r h = cc
  count_of_found q (x ∷ xs) r h = ground (arith, count_of_found q xs r)

  -- What holds of the sorted or the distinct elements holds of all.
  All-of_insert_by :
      (P : A → Type 0) (le : A → A → Bool) (x : A) (ys : List A)
      → All P (insert_by le x ys)
      → P x × All P ys
  All-of_insert_by P le x [] (h, _) = (h, tt)
  All-of_insert_by P le x (y ∷ ys) h = elim (Bool-cases (le x y)) [
    | inl holds ↦ (rw holds at h)
    | inr fails ↦
        let (first, rest) : P y × All P (insert_by le x ys) = rw fails at h in
        let (here, others) = All-of_insert_by P le x ys rest in (here, (first, others))
  ]

  pub All-of_sort_by :
      (P : A → Type 0) (le : A → A → Bool) (xs : List A) → All P (sort_by le xs) → All P xs
  All-of_sort_by P le [] h = tt
  All-of_sort_by P le (x ∷ xs) h =
      let (here, rest) = All-of_insert_by P le x (sort_by le xs) h in
      (here, All-of_sort_by P le xs rest)

  All-of_any :
      (P : A → Type 0) (same : A → A → Bool) (x : A) (xs : List A)
      → ((y : A) → same x y ≡ true → x ≡ y)
      → any (same x) xs ≡ true
      → All P xs
      → P x
  All-of_any P same x [] eq h k = cc
  All-of_any P same x (y ∷ ys) eq h (k, ks) = elim (Bool-cases (same x y)) [
    | inl holds ↦ subst P (sym (eq y holds)) k
    | inr fails ↦ All-of_any P same x ys eq (rw fails at h) ks
  ]

  pub All-of_distinct :
      (P : A → Type 0) (same : A → A → Bool) (xs : List A)
      → ((x y : A) → same x y ≡ true → x ≡ y)
      → All P (distinct same xs)
      → All P xs
  All-of_distinct P same [] eq h = tt
  All-of_distinct P same (x ∷ xs) eq h = elim (Bool-cases (any (same x) xs)) [
    | inl holds ↦
        let rest = All-of_distinct P same xs eq (rw holds at h) in
        (All-of_any P same x xs (eq x) holds rest, rest)
    | inr fails ↦
        let (here, others) : P x × All P (distinct same xs) = rw fails at h in
        (here, All-of_distinct P same xs eq others)
  ]

  pub length-where_rows : (q : A → Bool) (xs : List A) → length (where_rows q xs) ≡ count q xs
  length-where_rows q [] = refl
  length-where_rows q (x ∷ xs) = ground (arith, length-where_rows q xs)

  length-insert_by :
      (le : A → A → Bool) (x : A) (ys : List A) → length (insert_by le x ys) ≡ suc (length ys)
  length-insert_by le x [] = refl
  length-insert_by le x (y ∷ ys) = ground (arith, length-insert_by le x ys)

  pub length-sort_by : (le : A → A → Bool) (xs : List A) → length (sort_by le xs) ≡ length xs
  length-sort_by le [] = refl
  length-sort_by le (x ∷ xs) =
      omega (arith, length-insert_by le x (sort_by le xs), length-sort_by le xs)

pub All-of_map :
    {A B : Type 0} (P : B → Type 0) (f : A → B) (xs : List A)
    → All P (map f xs)
    → All (λ x. P (f x)) xs
All-of_map P f [] h = tt
All-of_map P f (x ∷ xs) (h, hs) = (h, All-of_map P f xs hs)
