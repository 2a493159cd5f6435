-- ===== src/Prelude/Sort.antt =====
-- The stable `sort` and `dedup_by` of the standard library, as an insertion sort and a scan.
use hekate.Prelude.{Bool, List, [], ◌∷◌, if◌then◌else◌}

module _ {A : Type 0} (le : A → A → Bool) where
  -- Puts `a` before the first item that it is at most.
  unfoldable pub insert_sorted : A → List A → List A
  insert_sorted a [] = a ∷ []
  insert_sorted a (x ∷ xs) = if le a x then a ∷ x ∷ xs else x ∷ insert_sorted a xs

  unfoldable pub sort : List A → List A
  unfolding insert_sorted
  sort [] = []
  sort (x ∷ xs) = insert_sorted x (sort xs)

-- Keeps an item unless it is the same as the one kept before it.
unfoldable pub dedup_from : {A : Type 0} → (A → A → Bool) → A → List A → List A
dedup_from same kept [] = kept ∷ []
dedup_from same kept (x ∷ xs) =
    let drop = dedup_from same kept xs in
    let keep = kept ∷ dedup_from same x xs in if same x kept then drop else keep

unfoldable pub dedup_by : {A : Type 0} → (A → A → Bool) → List A → List A
unfolding dedup_from
dedup_by same [] = []
dedup_by same (x ∷ xs) = dedup_from same x xs
