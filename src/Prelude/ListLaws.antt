-- ===== src/Prelude/ListLaws.antt =====
-- Lengths of lists, in native numbers.
use hekate.Prelude.{
  Bool, true, false, Bool-cases, inl, inr, subst, sym, filter, suc, ◌+◌, ◌≡◌, refl, ap, ◌∙◌, List,
  [], ◌∷◌, ◌++◌, length, arith,
}
use mathlib.Core.List.Memᴰ
use mathlib.Core.List.Memᴰ.{head, tail}
use mathlib.Core.List.{Memᴰ, reverse, reverse-cons}

module _ {A : Type 0} where
  pub length-++ : (xs ys : List A) → length (xs ++ ys) ≡ length xs + length ys
  length-++ [] ys = omega arith
  length-++ (x ∷ xs) ys = ap suc (length-++ xs ys) ∙ omega arith

  pub length-reverse : (xs : List A) → length (reverse xs) ≡ length xs
  length-reverse [] = refl
  length-reverse (x ∷ xs) =
      omega
        (arith, ap length (reverse-cons x xs), length-++ (reverse xs) (x ∷ []), length-reverse xs)

  pub filter-member :
      (p : A → Bool) (xs : List A) (x : A) → Memᴰ x (filter p xs) → Memᴰ x xs × (p x ≡ true)
  unfolding filter
  filter-member p [] x m = elim m [ ]
  filter-member p (y ∷ ys) x m = elim (Bool-cases (p y)) [
    | inr refused ↦
        let (below, kept) = filter-member p ys x (subst (Memᴰ x) (rw refused refl) m) in
        (Memᴰ.tail below, kept)
    | inl passed ↦ elim (Memᴰ.cases_cons (subst (λ l. Memᴰ x l) (kept_head passed) m)) [
      | inl same ↦ (Memᴰ.head same, ap p same ∙ passed)
      | inr later ↦ let (below, kept) = filter-member p ys x later in (Memᴰ.tail below, kept)
    ]
  ]
    where
      kept_head : p y ≡ true → filter p (y ∷ ys) ≡ y ∷ filter p ys
      kept_head passed = rw passed refl

  pub member-filter :
      (p : A → Bool) (xs : List A) (x : A) → Memᴰ x xs → p x ≡ true → Memᴰ x (filter p xs)
  unfolding filter
  member-filter p [] x m h = elim m [ ]
  member-filter p (y ∷ ys) x (head same) h = rw (sym (ap p same) ∙ h) (Memᴰ.head same)
  member-filter p (y ∷ ys) x (tail m) h = elim (Bool-cases (p y)) [
    | inl passed ↦ rw passed (Memᴰ.tail (member-filter p ys x m h))
    | inr refused ↦ rw refused (member-filter p ys x m h)
  ]

  -- What no member passes keeps nothing.
  pub filter-none :
      (p : A → Bool) (xs : List A) → ((x : A) → Memᴰ x xs → p x ≡ false) → filter p xs ≡ []
  unfolding filter
  filter-none p [] h = refl
  filter-none p (y ∷ ys) h = rw (h y (Memᴰ.head refl)) (filter-none p ys λ x m. h x (Memᴰ.tail m))
