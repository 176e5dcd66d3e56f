-- ===== src/Common/Sorting.antt =====
-- `sorted(xs, key=...)` and `ORDER BY` for a key that is a number: a stable insertion sort.
use ecommerce_after_sales_ag.Common.{
  ℕ, ◌<◌, List, [], ◌∷◌, ◌≡◌, refl, arith, leb, if◌then◌else◌, All, ap, ◌∙◌,
}

module _ {ℓ} {A : Type ℓ} (key : A → ℕ) where
  unfoldable pub insert_by : A → List A → List A
  insert_by x [] = x ∷ []
  insert_by x (y ∷ ys) =
      let rest = insert_by x ys in if leb (key x) (key y) then x ∷ y ∷ ys else y ∷ rest

  unfoldable pub sort_by : List A → List A
  sort_by [] = []
  sort_by (x ∷ xs) = insert_by x (sort_by xs)

  -- every key is below all that follow it
  abbrev pub IsAscending : List A → Type 0
  IsAscending [] = Unit
  IsAscending (x ∷ xs) = All (λ y. key x < key y) xs × IsAscending xs

  insert_by_below : (x : A) (ys : List A) → All (λ y. key x < key y) ys → insert_by x ys ≡ x ∷ ys
  unfolding insert_by
  insert_by_below x [] h = refl
  insert_by_below x (y ∷ ys) h = ground (arith, h.0)

  pub sort_by_of_IsAscending : (xs : List A) → IsAscending xs → sort_by xs ≡ xs
  unfolding sort_by
  sort_by_of_IsAscending [] h = refl
  sort_by_of_IsAscending (x ∷ xs) h =
      ap (insert_by x) (sort_by_of_IsAscending xs h.1) ∙ insert_by_below x xs h.0
