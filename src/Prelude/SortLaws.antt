-- ===== src/Prelude/SortLaws.antt =====
-- The sort of a list of numbers, and permutations.
use mathlib.Core.List.{Permᴰ}
use hekate.Prelude.{ℕ, ◌≡◌, refl, ap, ◌∙◌, List, [], ◌∷◌, leb, arith}
use hekate.Prelude.Sort.{insert_sorted, sort}

insert_sorted_comm :
    (a b : ℕ) (xs : List ℕ)
    → insert_sorted leb a (insert_sorted leb b xs) ≡ insert_sorted leb b (insert_sorted leb a xs)
unfolding insert_sorted
insert_sorted_comm a b [] = ground arith
insert_sorted_comm a b (x ∷ xs) = ground (arith, insert_sorted_comm a b xs)

pub sort-Permᴰ : {xs ys : List ℕ} → Permᴰ xs ys → sort leb xs ≡ sort leb ys
unfolding sort
sort-Permᴰ Permᴰ.nil = refl
sort-Permᴰ (Permᴰ.cons {a = a} {l₂ = ys} e p) =
    ap (insert_sorted leb a) (sort-Permᴰ p) ∙ ap (λ x. insert_sorted leb x (sort leb ys)) e
sort-Permᴰ (Permᴰ.swap {a = a} {b = b} {a' = a'} {l = l} e f) =
    insert_sorted_comm a b (sort leb l)
    ∙ ap (λ x. insert_sorted leb x (insert_sorted leb a (sort leb l))) f
    ∙ ap (λ x. insert_sorted leb a' (insert_sorted leb x (sort leb l))) e
sort-Permᴰ (Permᴰ.trans p q) = sort-Permᴰ p ∙ sort-Permᴰ q
