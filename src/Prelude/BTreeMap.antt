-- ===== src/Prelude/BTreeMap.antt =====
-- Rust's `BTreeMap` over the ids of the program: a list of entries in the order of their keys.
use hekate.Prelude.{
  ◌⊎◌, ◌≢◌, ℕ, ◌≡◌, Bool, false, Option, none, some, List, [], ◌∷◌, arith, ltb, nat_eq, any,
  is_some, if◌then◌else◌,
}

abbrev pub BTreeMap : Type 0 → Type 0
BTreeMap V = List (ℕ × V)

module _ {V : Type 0} where
  unfoldable pub get : BTreeMap V → ℕ → Option V
  get [] k = none
  get ((j, v) ∷ m) k = if nat_eq j k then some v else get m k

  abbrev pub contains_key : BTreeMap V → ℕ → Bool
  contains_key m k = is_some (get m k)

  unfoldable pub insert : BTreeMap V → ℕ → V → BTreeMap V
  insert [] k v = (k, v) ∷ []
  insert ((j, w) ∷ m) k v =
      if nat_eq j k
      then (k, v) ∷ m
      else if ltb k j
      then (k, v) ∷ (j, w) ∷ m
      else (j, w) ∷ insert m k v

  -- `if let Some(v) = m.get_mut(k) { *v = f(v) }`
  unfoldable pub modify : (V → V) → BTreeMap V → ℕ → BTreeMap V
  modify f [] k = []
  modify f ((j, w) ∷ m) k = if nat_eq j k then (j, f w) ∷ m else (j, w) ∷ modify f m k

  unfoldable pub values : BTreeMap V → List V
  values [] = []
  values ((j, w) ∷ m) = w ∷ values m

  unfoldable pub keys : BTreeMap V → List ℕ
  keys [] = []
  keys ((j, w) ∷ m) = j ∷ keys m

  -- `for v in m.values_mut() { *v = f(v) }`
  unfoldable pub map_values : (V → V) → BTreeMap V → BTreeMap V
  map_values f [] = []
  map_values f ((j, w) ∷ m) = (j, f w) ∷ map_values f m

  pub get-insert :
      (m : BTreeMap V) (k : ℕ) (v : V) (j : ℕ)
      → get (insert m k v) j ≡ (if nat_eq k j then some v else get m j)
  unfolding get insert
  get-insert [] k v j = ground arith
  get-insert ((i, w) ∷ m) k v j = ground (arith, get-insert m k v j)

  pub get-modify :
      (f : V → V) (m : BTreeMap V) (k j : ℕ)
      → get (modify f m k) j
        ≡ (if nat_eq k j then elim (get m j) [ none ↦ none | some v ↦ some (f v) ] else get m j)
  unfolding get modify
  get-modify f [] k j = ground arith
  get-modify f ((i, w) ∷ m) k j = ground (arith, get-modify f m k j)

  -- What no value satisfies, no stored value satisfies.
  pub any-values_get :
      (p : V → Bool) (m : BTreeMap V) (k : ℕ) (v : V)
      → any p (values m) ≡ false
      → get m k ≡ some v
      → p v ≡ false
  unfolding get values any
  any-values_get p [] k v h g = cc
  any-values_get p ((j, w) ∷ m) k v h g = ground (arith, any-values_get p m k v)

  -- An entry after an insertion is the new one or an old one under another key.
  pub get-insert_cases :
      (m : BTreeMap V) (k : ℕ) (v : V) (j : ℕ) (w : V)
      → get (insert m k v) j ≡ some w
      → ((k ≡ j) × (v ≡ w)) ⊎ ((k ≢ j) × (get m j ≡ some w))
  get-insert_cases m k v j w g = ground (arith, get-insert m k v j)

  -- An entry after a change in place is the changed one or an old one under another key.
  pub get-modify_cases :
      (f : V → V) (m : BTreeMap V) (k j : ℕ) (w : V)
      → get (modify f m k) j ≡ some w
      → ((k ≡ j) × ((v : V) × (get m j ≡ some v) × (w ≡ f v))) ⊎ ((k ≢ j) × (get m j ≡ some w))
  get-modify_cases f m k j w g = ground (arith, get-modify f m k j)

  -- A key has one entry.
  pub same_entry : (o : Option V) (v w : V) → o ≡ some v → o ≡ some w → v ≡ w
  same_entry o v w p q = cc
