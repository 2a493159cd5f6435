-- ===== src/Prelude/Unique.antt =====
-- Maps in which no two entries have the same text.
use hekate.Prelude.{
  ℕ, refl, ◌≡◌, ◌≢◌, inl, inr, ap, ◌∙◌, sym, subst, true, false, some, any, ◌==◌, list_eq, ℕ_eq,
  eq_refl,
}
use hekate.Prelude.BTreeMap.{
  BTreeMap, any-values_get, get, get-insert_cases, get-modify_cases, insert, modify, values,
}
use hekate.Prelude.Text.{Text}
use mathlib.Core.Bool.{false≢true}

module _ {V : Type 0} (text : V → Text) where
  pub record IsUnique (m : BTreeMap V) : Type 0 where
    pub at : (j k : ℕ) (v w : V) → get m j ≡ some v → get m k ≡ some w → text v ≡ text w → j ≡ k

  -- A text that the test does not find is no stored text.
  not_found :
      (m : BTreeMap V) (x : Text) (k : ℕ) (v : V)
      → any (λ w. text w == x) (values m) ≡ false
      → get m k ≡ some v
      → text v ≢ x
  not_found m x k v missing g same = absurd (
      false≢true (
        sym (any-values_get (λ w. text w == x) m k v missing g)
        ∙ subst (λ y. (text v == y) ≡ true) same (eq_refl (text v))))

  pub insert-IsUnique :
      (m : BTreeMap V) (i : ℕ) (new : V)
      → any (λ w. text w == text new) (values m) ≡ false
      → IsUnique m
      → IsUnique (insert m i new)
  insert-IsUnique m i new missing h = record {
    at = λ j k v w p q same. elim (get-insert_cases m i new j v p) [
      | inl one ↦ elim (get-insert_cases m i new k w q) [
        | inl two ↦ sym one.0 ∙ two.0
        | inr two ↦
            absurd (not_found m (text new) k w missing two.1 (sym same ∙ ap text (sym one.1)))
      ]
      | inr one ↦ elim (get-insert_cases m i new k w q) [
        | inl two ↦ absurd (not_found m (text new) j v missing one.1 (same ∙ ap text (sym two.1)))
        | inr two ↦ h.at j k v w one.1 two.1 same
      ]
    ];
  }

  -- The entry before a change that keeps its text.
  before_change :
      (change : V → V) (m : BTreeMap V) (i k : ℕ) (w : V)
      → ((v : V) → text (change v) ≡ text v)
      → get (modify change m i) k ≡ some w
      → (v : V) × (get m k ≡ some v) × (text w ≡ text v)
  before_change change m i k w keeps g = elim (get-modify_cases change m i k w g) [
    | inl (same, (v, held, changed)) ↦ (v, held, ap text changed ∙ keeps v)
    | inr old ↦ (w, old.1, refl)
  ]

  pub modify-IsUnique :
      (change : V → V) (m : BTreeMap V) (i : ℕ)
      → ((v : V) → text (change v) ≡ text v)
      → IsUnique m
      → IsUnique (modify change m i)
  modify-IsUnique change m i keeps h = record {
    at = λ j k v w p q same.
        let (v', p', e) = before_change change m i j v keeps p in
        let (w', q', f) = before_change change m i k w keeps q in
        h.at j k v' w' p' q' (sym e ∙ same ∙ f);
  }
