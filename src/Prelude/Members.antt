-- ===== src/Prelude/Members.antt =====
-- Members of sorted, thinned and shortened lists come from the list.
use hekate.Prelude.{
  ℕ, zero, suc, ◌≤◌, ◌≡◌, refl, sym, ap, ◌∙◌, subst, Bool, true, false, Bool-cases, Option, none,
  some, Option-cases, inl, inr, ◌⊎◌, List, [], ◌∷◌, arith, length, take, nat_eq, ltb,
}
use hekate.Prelude.BTreeMap.{BTreeMap, get, insert, values}
use hekate.Prelude.Options.{filter_map}
use hekate.Prelude.Sort.{dedup_by, dedup_from, insert_sorted, sort}
use mathlib.Core.List.{Memᴰ}
use mathlib.Core.List.Memᴰ

module _ {A : Type 0} where
  pub take-member : (n : ℕ) (xs : List A) (x : A) → Memᴰ x (take n xs) → Memᴰ x xs
  unfolding take
  take-member zero xs x m = elim m [ ]
  take-member (suc n) [] x m = elim m [ ]
  take-member (suc n) (y ∷ ys) x m = elim (Memᴰ.cases_cons m) [
    | inl same ↦ Memᴰ.head same
    | inr later ↦ Memᴰ.tail (take-member n ys x later)
  ]

  pub length-take : (n : ℕ) (xs : List A) → length (take n xs) ≤ n
  unfolding take
  length-take zero xs = omega arith
  length-take (suc n) [] = omega arith
  length-take (suc n) (y ∷ ys) = omega (arith, length-take n ys)

  module _ (le : A → A → Bool) where
    insert_sorted-member :
        (a : A) (xs : List A) (x : A) → Memᴰ x (insert_sorted le a xs) → Memᴰ x (a ∷ xs)
    unfolding insert_sorted
    insert_sorted-member a [] x m = m
    insert_sorted-member a (y ∷ ys) x m = elim (Bool-cases (le a y)) [
      | inl before ↦ subst (Memᴰ x) (rw before refl) m
      | inr after ↦ elim (Memᴰ.cases_cons (subst (λ l. Memᴰ x l) (behind after) m)) [
        | inl same ↦ Memᴰ.tail (Memᴰ.head same)
        | inr later ↦ elim (Memᴰ.cases_cons (insert_sorted-member a ys x later)) [
          | inl same ↦ Memᴰ.head same
          | inr old ↦ Memᴰ.tail (Memᴰ.tail old)
        ]
      ]
    ]
      where
        behind : le a y ≡ false → insert_sorted le a (y ∷ ys) ≡ y ∷ insert_sorted le a ys
        behind after = rw after refl

    pub sort-member : (xs : List A) (x : A) → Memᴰ x (sort le xs) → Memᴰ x xs
    unfolding sort
    sort-member [] x m = m
    sort-member (y ∷ ys) x m = elim (Memᴰ.cases_cons (insert_sorted-member y (sort le ys) x m)) [
      | inl same ↦ Memᴰ.head same
      | inr later ↦ Memᴰ.tail (sort-member ys x later)
    ]

  module _ (same : A → A → Bool) where
    dedup_from-member :
        (kept : A) (xs : List A) (x : A) → Memᴰ x (dedup_from same kept xs) → Memᴰ x (kept ∷ xs)
    unfolding dedup_from
    dedup_from-member kept [] x m = m
    dedup_from-member kept (y ∷ ys) x m = elim (Bool-cases (same y kept)) [
      | inl drop ↦
          elim (Memᴰ.cases_cons
            (dedup_from-member kept ys x (subst (λ l. Memᴰ x l) (dropped drop) m))) [
              | inl e ↦ Memᴰ.head e
              | inr later ↦ Memᴰ.tail (Memᴰ.tail later)
            ]
      | inr keep ↦ elim (Memᴰ.cases_cons (subst (λ l. Memᴰ x l) (kept_both keep) m)) [
        | inl e ↦ Memᴰ.head e
        | inr later ↦ Memᴰ.tail (dedup_from-member y ys x later)
      ]
    ]
      where
        dropped : same y kept ≡ true → dedup_from same kept (y ∷ ys) ≡ dedup_from same kept ys
        dropped drop = rw drop refl

        kept_both :
            same y kept ≡ false → dedup_from same kept (y ∷ ys) ≡ kept ∷ dedup_from same y ys
        kept_both keep = rw keep refl

    pub dedup_by-member : (xs : List A) (x : A) → Memᴰ x (dedup_by same xs) → Memᴰ x xs
    unfolding dedup_by
    dedup_by-member [] x m = m
    dedup_by-member (y ∷ ys) x m = dedup_from-member y ys x m

pub filter_map-member :
    {A B : Type 0} (f : A → Option B) (xs : List A) (b : B)
    → Memᴰ b (filter_map f xs)
    → (a : A) × Memᴰ a xs × (f a ≡ some b)
unfolding filter_map
filter_map-member {B = B} f [] b m = elim m [ ]
filter_map-member {B = B} f (x ∷ xs) b m = elim (Option-cases (f x)) [
  | inl dropped ↦
      let (a, held, made) = filter_map-member f xs b (subst (λ l. Memᴰ b l) (skip dropped) m) in
      (a, Memᴰ.tail held, made)
  | inr (c, found) ↦ elim (Memᴰ.cases_cons (subst (λ l. Memᴰ b l) (keep c found) m)) [
    | inl same ↦ (x, Memᴰ.head refl, found ∙ ap some (sym same))
    | inr later ↦ let (a, held, made) = filter_map-member f xs b later in (a, Memᴰ.tail held, made)
  ]
]
  where
    skip : f x ≡ none → filter_map f (x ∷ xs) ≡ filter_map f xs
    skip dropped = rw (dropped, filter_map) refl

    keep : (c : B) → f x ≡ some c → filter_map f (x ∷ xs) ≡ c ∷ filter_map f xs
    keep c found = rw (found, filter_map) refl

-- Entries of an ordered map.
module _ {V : Type 0} where
  pub get-member : (m : BTreeMap V) (k : ℕ) (v : V) → get m k ≡ some v → Memᴰ (k, v) m
  unfolding get
  get-member [] k v g = cc
  get-member ((j, w) ∷ m) k v g = elim (Bool-cases (nat_eq j k)) [
    | inl same ↦ Memᴰ.head (pair_eq k j v w (ground (arith, same)) (ground (arith, same, g)))
    | inr other ↦ Memᴰ.tail (get-member m k v (ground (arith, other, g)))
  ]
    where
      pair_eq : (k j : ℕ) (v w : V) → k ≡ j → v ≡ w → (let p : ℕ × V = (k, v) in p) ≡ (j, w)
      pair_eq k j v w p q = cc

  pub values-member : (m : BTreeMap V) (v : V) → Memᴰ v (values m) → (k : ℕ) × Memᴰ (k, v) m
  unfolding values
  values-member [] v h = elim h [ ]
  values-member ((j, w) ∷ m) v h = elim (Memᴰ.cases_cons h) [
    | inl same ↦ (j, Memᴰ.head (ap (λ (x : V). (let p : ℕ × V = (j, x) in p)) same))
    | inr later ↦ let (k, held) = values-member m v later in (k, Memᴰ.tail held)
  ]

  pub insert-member :
      (m : BTreeMap V) (k : ℕ) (v : V) (entry : ℕ × V)
      → Memᴰ entry (insert m k v)
      → (entry ≡ (k, v)) ⊎ Memᴰ entry m
  unfolding insert
  insert-member [] k v entry h = elim (Memᴰ.cases_cons h) [
    | inl same ↦ inl same
    | inr later ↦ inr later
  ]
  insert-member ((j, w) ∷ m) k v entry h = elim (Bool-cases (nat_eq j k)) [
    | inl same ↦ elim (Memᴰ.cases_cons (subst (λ l. Memᴰ entry l) (replaced same) h)) [
      | inl e ↦ inl e
      | inr later ↦ inr (Memᴰ.tail later)
    ]
    | inr other ↦ elim (Bool-cases (ltb k j)) [
      | inl before ↦ elim (Memᴰ.cases_cons (subst (λ l. Memᴰ entry l) (in_front other before) h)) [
        | inl e ↦ inl e
        | inr later ↦ inr later
      ]
      | inr after ↦ elim (Memᴰ.cases_cons (subst (λ l. Memᴰ entry l) (behind other after) h)) [
        | inl e ↦ inr (Memᴰ.head e)
        | inr later ↦ elim (insert-member m k v entry later) [
          | inl new ↦ inl new
          | inr old ↦ inr (Memᴰ.tail old)
        ]
      ]
    ]
  ]
    where
      replaced : nat_eq j k ≡ true → insert ((j, w) ∷ m) k v ≡ (k, v) ∷ m
      replaced same = rw same refl

      in_front : nat_eq j k ≡ false → ltb k j ≡ true → insert ((j, w) ∷ m) k v ≡ (k, v) ∷ (j, w) ∷ m
      in_front other before = rw (other, before) refl

      behind :
          nat_eq j k ≡ false → ltb k j ≡ false → insert ((j, w) ∷ m) k v ≡ (j, w) ∷ insert m k v
      behind other after = rw (other, after) refl
