-- ===== src/Prelude/SetLaws.antt =====
-- Lists of numbers as sets: sorting, removal of repetitions, membership.
use hekate.Prelude.{
  ℕ, ◌≡◌, refl, ap, Bool, true, ◌&&◌, ◌||◌, List, [], ◌∷◌, arith, contains, leb, ltb, nat_eq, ℕ_eq,
  sym, subst, ◌∙◌,
}
use hekate.Prelude.Sort.{dedup_by, dedup_from, insert_sorted, sort}

-- Not descending from `a`, and ascending from `a`.
unfoldable ordered_from : ℕ → List ℕ → Bool
ordered_from a [] = true
ordered_from a (x ∷ xs) = leb a x && ordered_from x xs

unfoldable strict_from : ℕ → List ℕ → Bool
strict_from a [] = true
strict_from a (x ∷ xs) = ltb a x && strict_from x xs

unfoldable ordered : List ℕ → Bool
unfolding ordered_from
ordered [] = true
ordered (x ∷ xs) = ordered_from x xs

unfoldable strict : List ℕ → Bool
unfolding strict_from
strict [] = true
strict (x ∷ xs) = strict_from x xs

insert_sorted-ordered_from :
    (a x : ℕ) (xs : List ℕ)
    → leb a x ≡ true
    → ordered_from a xs ≡ true
    → ordered_from a (insert_sorted leb x xs) ≡ true
unfolding insert_sorted ordered_from
insert_sorted-ordered_from a x [] h o = ground arith
insert_sorted-ordered_from a x (y ∷ ys) h o = ground (arith, insert_sorted-ordered_from y x ys)

insert_sorted-ordered :
    (x : ℕ) (xs : List ℕ) → ordered xs ≡ true → ordered (insert_sorted leb x xs) ≡ true
unfolding insert_sorted ordered
insert_sorted-ordered x [] o = refl
insert_sorted-ordered x (y ∷ ys) o = ground (arith, insert_sorted-ordered_from y x ys)

sort-ordered : (xs : List ℕ) → ordered (sort leb xs) ≡ true
unfolding sort ordered
sort-ordered [] = refl
sort-ordered (x ∷ xs) = insert_sorted-ordered x (sort leb xs) (sort-ordered xs)

dedup_from-strict_from :
    (a x : ℕ) (xs : List ℕ)
    → ltb a x ≡ true
    → ordered_from x xs ≡ true
    → strict_from a (dedup_from nat_eq x xs) ≡ true
unfolding dedup_from ordered_from strict_from
dedup_from-strict_from a x [] h o = ground arith
dedup_from-strict_from a x (y ∷ ys) h o =
    ground (arith, dedup_from-strict_from a x ys, dedup_from-strict_from x y ys)

dedup_from-strict :
    (x : ℕ) (xs : List ℕ) → ordered_from x xs ≡ true → strict (dedup_from nat_eq x xs) ≡ true
unfolding dedup_from ordered_from strict
dedup_from-strict x [] o = refl
dedup_from-strict x (y ∷ ys) o =
    ground (arith, dedup_from-strict x ys, dedup_from-strict_from x y ys)

dedup_by-strict : (xs : List ℕ) → ordered xs ≡ true → strict (dedup_by nat_eq xs) ≡ true
unfolding dedup_by ordered strict
dedup_by-strict [] o = refl
dedup_by-strict (x ∷ xs) o = dedup_from-strict x xs o

contains-insert_sorted :
    (x : ℕ) (xs : List ℕ) (b : ℕ)
    → contains (insert_sorted leb x xs) b ≡ (nat_eq x b || contains xs b)
unfolding insert_sorted contains
contains-insert_sorted x [] b = ground arith
contains-insert_sorted x (y ∷ ys) b = ground (arith, contains-insert_sorted x ys b)

contains-sort : (xs : List ℕ) (b : ℕ) → contains (sort leb xs) b ≡ contains xs b
unfolding sort contains
contains-sort [] b = refl
contains-sort (x ∷ xs) b =
    ground (arith, contains-insert_sorted x (sort leb xs) b, contains-sort xs b)

contains-dedup_from :
    (x : ℕ) (xs : List ℕ) (b : ℕ)
    → contains (dedup_from nat_eq x xs) b ≡ (nat_eq x b || contains xs b)
unfolding dedup_from contains
contains-dedup_from x [] b = ground arith
contains-dedup_from x (y ∷ ys) b =
    ground (arith, contains-dedup_from x ys b, contains-dedup_from y ys b)

contains-dedup_by : (xs : List ℕ) (b : ℕ) → contains (dedup_by nat_eq xs) b ≡ contains xs b
unfolding dedup_by contains
contains-dedup_by [] b = refl
contains-dedup_by (x ∷ xs) b = ground (arith, contains-dedup_from x xs b)

-- A member of an ascending list is above its bound.
member_above :
    (a : ℕ) (xs : List ℕ) (b : ℕ) → strict_from a xs ≡ true → contains xs b ≡ true → ltb a b ≡ true
unfolding strict_from contains
member_above a [] b s c = cc
member_above a (x ∷ xs) b s c = ground (arith, member_above x xs b)

-- Two ascending lists with the same members have the same head.
same_head :
    (x : ℕ) (xs : List ℕ) (y : ℕ) (ys : List ℕ)
    → strict_from x xs ≡ true
    → strict_from y ys ≡ true
    → contains (y ∷ ys) x ≡ true
    → contains (x ∷ xs) y ≡ true
    → x ≡ y
unfolding contains
same_head x xs y ys s t c d = ground (arith, member_above x xs y s, member_above y ys x t)

same_tail :
    (x : ℕ) (xs ys : List ℕ) (b : ℕ)
    → strict_from x xs ≡ true
    → strict_from x ys ≡ true
    → contains (x ∷ xs) b ≡ contains (x ∷ ys) b
    → contains xs b ≡ contains ys b
unfolding contains
same_tail x xs ys b s t e = ground (arith, member_above x xs b s, member_above x ys b t)

contains_head : (x : ℕ) (xs : List ℕ) → contains (x ∷ xs) x ≡ true
unfolding contains
contains_head x xs = ground arith

strict_tail : (x : ℕ) (xs : List ℕ) → strict_from x xs ≡ true → strict xs ≡ true
unfolding strict_from strict
strict_tail x [] s = refl
strict_tail x (y ∷ ys) s = ground arith

-- The empty list has no member.
not_empty : (x : ℕ) (xs : List ℕ) → contains (x ∷ xs) x ≡ contains [] x → ⊥
unfolding contains
not_empty x xs e = ground (arith, e)

strict-eq :
    (xs ys : List ℕ)
    → strict xs ≡ true
    → strict ys ≡ true
    → ((b : ℕ) → contains xs b ≡ contains ys b)
    → xs ≡ ys
unfolding strict
strict-eq [] [] s t e = refl
strict-eq [] (y ∷ ys) s t e = absurd (not_empty y ys (sym (e y)))
strict-eq (x ∷ xs) [] s t e = absurd (not_empty x xs (e x))
strict-eq (x ∷ xs) (y ∷ ys) s t e =
    let head : x ≡ y =
      same_head x xs y ys s t (sym (e x) ∙ contains_head x xs) (e y ∙ contains_head y ys) in
    let t' : strict_from x ys ≡ true = subst (λ z. strict_from z ys ≡ true) (sym head) t in
    let tail : xs ≡ ys =
      strict-eq xs ys (strict_tail x xs s) (strict_tail y ys t)
        λ b. same_tail x xs ys b s t' (e b ∙ ap (λ z. contains (z ∷ ys) b) (sym head)) in
    ap (λ z. z ∷ xs) head ∙ ap (λ zs. y ∷ zs) tail

-- The sorted list without repetitions depends on the members alone.
pub normal_set-eq :
    (xs ys : List ℕ)
    → ((b : ℕ) → contains xs b ≡ contains ys b)
    → dedup_by nat_eq (sort leb xs) ≡ dedup_by nat_eq (sort leb ys)
normal_set-eq xs ys e =
    strict-eq _ _ (dedup_by-strict (sort leb xs) (sort-ordered xs))
      (dedup_by-strict (sort leb ys) (sort-ordered ys)) λ b. members xs b ∙ e b ∙ sym (members ys b)
  where
    members : (zs : List ℕ) (b : ℕ) → contains (dedup_by nat_eq (sort leb zs)) b ≡ contains zs b
    members zs b = contains-dedup_by (sort leb zs) b ∙ contains-sort zs b
