-- ===== src/Prelude/Results.antt =====
-- `Result`, its `?` as a bind, and what every successful result satisfies.
use hekate.Prelude.{
  ◌⊎◌, inl, inr, ◌++◌, ◌≡◌, refl, Bool, true, false, Option, none, some, List, [], ◌∷◌, subst,
}

pub data Result (E : Type 0) (A : Type 0) : Type 0 where
  ok : A → Result E A
  err : E → Result E A

module _ {E : Type 0} where
  infixl 5 ◌>>=◌ ◌>>◌
  abbrev pub ◌>>=◌ : {A B : Type 0} → Result E A → (A → Result E B) → Result E B
  err e >>= next = err e
  ok value >>= next = next value

  abbrev pub ◌>>◌ : {B : Type 0} → Result E (Unit {0}) → Result E B → Result E B
  m >> k = m >>= λ _. k

  -- `if b { return Err(e) }`
  abbrev pub reject_if : Bool → E → Result E (Unit {0})
  reject_if true e = err e
  reject_if false e = ok tt

  -- `let Some(a) = o else { return Err(e) }`
  abbrev pub ok_or : {A : Type 0} → Option A → E → Result E A
  ok_or none e = err e
  ok_or (some a) e = ok a

  -- `for a in xs { f(a)? }`
  unfoldable pub for_each : {A : Type 0} → (A → Result E (Unit {0})) → List A → Result E (Unit {0})
  for_each f [] = ok tt
  for_each f (x ∷ xs) = f x >> for_each f xs

  -- `for a in xs { f(&mut s, a)? }`
  unfoldable pub try_fold : {S A : Type 0} → (S → A → Result E S) → S → List A → Result E S
  try_fold f s [] = ok s
  try_fold f s (x ∷ xs) = f s x >>= λ s'. try_fold f s' xs

  abbrev pub is_err : {A : Type 0} → Result E A → Bool
  is_err (ok a) = false
  is_err (err e) = true

abbrev pub map_err : {E F A : Type 0} → (E → F) → Result E A → Result F A
map_err f (ok a) = ok a
map_err f (err e) = err (f e)

-- A successful `r` has a value that satisfies `P`.
pub record Ensures {E A : Type 0} (P : A → Type 0) (r : Result E A) : Type 0 where
  pub at : (a : A) → r ≡ ok a → P a

module _ {E : Type 0} where
  pub ok-injective : {A : Type 0} (a b : A) → (let r : Result E A = ok a in r) ≡ ok b → a ≡ b
  ok-injective a b e = cc

  pub Ensures-ok : {A : Type 0} (P : A → Type 0) (a : A) → P a → Ensures {E = E} P (ok a)
  Ensures-ok P a h = record { at = λ b e. subst P (ok-injective a b e) h }

  pub Ensures-err : {A : Type 0} (P : A → Type 0) (e : E) → Ensures P (err e)
  Ensures-err P e = record { at = λ b q. cc }

  pub Ensures-bind :
      {A B : Type 0} (P : B → Type 0) (m : Result E A) (f : A → Result E B)
      → ((a : A) → m ≡ ok a → Ensures P (f a))
      → Ensures P (m >>= f)
  Ensures-bind P (ok a) f h = h a refl
  Ensures-bind P (err e) f h = Ensures-err P e

  -- The rest runs only if the rejected test failed.
  pub Ensures-reject :
      {B : Type 0} (P : B → Type 0) (b : Bool) (e : E) (k : Result E B)
      → (b ≡ false → Ensures P k)
      → Ensures P (reject_if b e >> k)
  Ensures-reject P true e k h = Ensures-err P e
  Ensures-reject P false e k h = h refl

  pub Ensures-ok_or :
      {A B : Type 0} (P : B → Type 0) (o : Option A) (e : E) (f : A → Result E B)
      → ((a : A) → o ≡ some a → Ensures P (f a))
      → Ensures P (ok_or o e >>= f)
  Ensures-ok_or P none e f h = Ensures-err P e
  Ensures-ok_or P (some a) e f h = h a refl

  -- What every successful step preserves, the loop preserves.
  pub try_fold-keeps :
      {S A : Type 0} (P : S → Type 0) (f : S → A → Result E S)
      → ((s : S) (a : A) → P s → Ensures P (f s a))
      → (s : S) (xs : List A) → P s
      → Ensures P (try_fold f s xs)
  unfolding try_fold
  try_fold-keeps P f step s [] h = Ensures-ok P s h
  try_fold-keeps P f step s (x ∷ xs) h =
      Ensures-bind P (f s x) (λ s'. try_fold f s' xs)
        λ s' e. try_fold-keeps P f step s' xs ((step s x h).at s' e)

  pub try_fold-append :
      {S A : Type 0} (f : S → A → Result E S) (s : S) (xs ys : List A)
      → try_fold f s (xs ++ ys) ≡ (try_fold f s xs >>= λ t. try_fold f t ys)
  unfolding try_fold
  try_fold-append f s [] ys = refl
  try_fold-append {S} f s (x ∷ xs) ys = after (f s x) (λ t. try_fold-append f t xs ys)
    where
      after :
          (r : Result E S)
          → ((t : S) → try_fold f t (xs ++ ys) ≡ (try_fold f t xs >>= λ u. try_fold f u ys))
          → (r >>= λ t. try_fold f t (xs ++ ys))
            ≡ ((r >>= λ t. try_fold f t xs) >>= λ u. try_fold f u ys)
      after (ok t) ih = ih t
      after (err e) ih = refl

  pub >>=-cong :
      {A B : Type 0} (r : Result E A) (f g : A → Result E B)
      → ((a : A) → f a ≡ g a)
      → (r >>= f) ≡ (r >>= g)
  >>=-cong (ok a) f g h = h a
  >>=-cong (err e) f g h = refl

  -- The value that a successful bind hands on, with what the rest makes of it.
  pub >>=-eq-ok :
      {V W : Type 0} (first : Result E V) (rest : V → Result E W) {last : W}
      → (first >>= rest) ≡ ok last
      → (v : V) × (rest v ≡ ok last) × (first ≡ ok v)
  >>=-eq-ok (err e) rest q = cc
  >>=-eq-ok (ok v) rest q = (v, q, refl)

pub Result-cases :
    {E A : Type 0} (r : Result E A) → ((a : A) × (r ≡ ok a)) ⊎ ((e : E) × (r ≡ err e))
Result-cases (ok a) = inl (a, refl)
Result-cases (err e) = inr (e, refl)
