-- ===== src/Base/Respects.antt =====
-- A relation between the states before and after an action, whatever the action returns: one rule
-- for each way to build an action.
use rln_companion.Base.{
  Bool, true, false, Result, Exec, pure, raise, lift, continue, ◌>>=◌, ok, err, if◌then◌else◌, ◌≡◌,
  refl,
}

pub record Preorder {S : Type 0} (R : S → S → Type 0) : Type 0 where
  pub here : (s : S) → R s s
  pub onwards : (s t u : S) → R s t → R t u → R s u

-- `m` leads from a state only to a state related to it, whether it returns or fails.
pub record Respects {S E A : Type 0} (R : S → S → Type 0) (m : Exec S E A) : Type 0 where
  pub at : (s : S) → R s (m s).1

module _ {S : Type 0} {R : S → S → Type 0} (order : Preorder R) where
  pub Respects-pure : {E A : Type 0} (a : A) → Respects {E = E} R (pure a)
  unfolding pure
  Respects-pure a = record { at = λ s. order.here s }

  pub Respects-raise : {E A : Type 0} (e : E) → Respects {A = A} R (raise e)
  unfolding raise
  Respects-raise e = record { at = λ s. order.here s }

  pub Respects-lift : {E A : Type 0} (r : Result E A) → Respects R (lift r)
  unfolding lift
  Respects-lift r = record { at = λ s. order.here s }

  pub Respects-continue :
      {E A B : Type 0} (r : Result E A) (f : A → Exec S E B) (s t : S)
      → R s t
      → ((a : A) → Respects R (f a))
      → R s (continue r f t).1
  Respects-continue (ok a) f s t h k = order.onwards s t (f a t).1 h ((k a).at t)
  Respects-continue (err e) f s t h k = h

  pub Respects-bind :
      {E A B : Type 0} (m : Exec S E A) (f : A → Exec S E B)
      → Respects R m
      → ((a : A) → Respects R (f a))
      → Respects R (m >>= f)
  unfolding ◌>>=◌
  Respects-bind m f h k = record { at = λ s. Respects-continue (m s).0 f s (m s).1 (h.at s) k }

  pub Respects-if :
      {E A : Type 0} (b : Bool) (m n : Exec S E A)
      → Respects R m
      → Respects R n
      → Respects R (if b then m else n)
  Respects-if true m n h k = h
  Respects-if false m n h k = k

  -- A conversion first: the rest runs on its value.
  pub Respects-convert :
      {E A B : Type 0} (r : Result E A) (f : A → Exec S E B)
      → ((a : A) → r ≡ ok a → Respects R (f a))
      → Respects R (lift r >>= f)
  unfolding lift ◌>>=◌
  Respects-convert (ok a) f h = record { at = λ s. (h a refl).at s }
  Respects-convert (err e) f h = record { at = λ s. order.here s }

-- A sequence that returns has gone on from the value of its first part.
pub bind_ok :
    {S E A B : Type 0} (m : Exec S E A) (f : A → Exec S E B) (s : S) (b : B)
    → ((m >>= f) s).0 ≡ ok b
    → (a : A) × ((m s).0 ≡ ok a) × ((m >>= f) s ≡ f a (m s).1)
unfolding ◌>>=◌
bind_ok {S} {E} {A} {B} m f s b h = go (m s).0 (m s).1 h
  where
    go :
        (r : Result E A) (t : S)
        → (continue r f t).0 ≡ ok b
        → (a : A) × (r ≡ ok a) × (continue r f t ≡ f a t)
    go (ok a) t k = (a, refl, refl)
    go (err e) t k = cc
