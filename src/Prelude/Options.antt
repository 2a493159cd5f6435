-- ===== src/Prelude/Options.antt =====
-- `Option` with its `?`, and the iterators that use it.
use hekate.Prelude.{◌≡◌, refl, Bool, true, false, Option, none, some, List, [], ◌∷◌}

infixl 5 ◌>>=◌ ◌>>◌
abbrev pub ◌>>=◌ : {A B : Type 0} → Option A → (A → Option B) → Option B
none >>= next = none
some a >>= next = next a

abbrev pub ◌>>◌ : {B : Type 0} → Option (Unit {0}) → Option B → Option B
m >> k = m >>= λ _. k

-- `if !b { return None }`
abbrev pub require : Bool → Option (Unit {0})
require true = some tt
require false = none

-- `Iterator::filter_map`
unfoldable pub filter_map : {A B : Type 0} → (A → Option B) → List A → List B
filter_map f [] = []
filter_map f (x ∷ xs) = let rest = filter_map f xs in elim (f x) [ none ↦ rest | some b ↦ b ∷ rest ]

-- The value that a successful bind hands on.
pub >>=-some :
    {A B : Type 0} (m : Option A) (next : A → Option B) {b : B}
    → (m >>= next) ≡ some b
    → (a : A) × (next a ≡ some b) × (m ≡ some a)
>>=-some none next q = cc
>>=-some (some a) next q = (a, q, refl)
