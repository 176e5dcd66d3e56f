-- ===== src/Common/Selections.antt =====
-- What the searches of Lists find in a list that has grown, and what holds of all elements.
use ecommerce_after_sales_ag.Common.{
  Bool, true, false, some, List, [], ◌∷◌, ◌++◌, ◌≡◌, refl, inl, inr, any, find, select, All,
  Bool-cases, ap, or-eq-false, ◌&&◌,
}

module _ {ℓ} {A : Type ℓ} where
  pub select-append :
      (p : A → Bool) (xs ys : List A) → select p (xs ++ ys) ≡ select p xs ++ select p ys
  select-append p [] ys = refl
  select-append p (x ∷ xs) ys = elim (Bool-cases (p x)) [
    | inl e ↦ rw e (ap (◌∷◌ x) (select-append p xs ys))
    | inr e ↦ rw e (select-append p xs ys)
  ]

  pub select-select :
      (p q : A → Bool)
      → ((a : A) → q a ≡ true → p a ≡ true)
      → (xs : List A) → select q (select p xs) ≡ select q xs
  select-select p q h [] = refl
  select-select p q h (x ∷ xs) = elim (Bool-cases (q x)) [
    | inl e ↦ rw (h x e, e) (ap (◌∷◌ x) (select-select p q h xs))
    | inr e ↦ elim (Bool-cases (p x)) [
      | inl f ↦ rw (f, e) (select-select p q h xs)
      | inr f ↦ rw (f, e) (select-select p q h xs)
    ]
  ]

  -- nothing passes a test that is false on all
  pub select-none : (p : A → Bool) (xs : List A) → All (λ a. p a ≡ false) xs → select p xs ≡ []
  select-none p [] h = refl
  select-none p (x ∷ xs) h = rw h.0 (select-none p xs h.1)

  pub select-all : (p : A → Bool) (xs : List A) → All (λ a. p a ≡ true) xs → select p xs ≡ xs
  select-all p [] h = refl
  select-all p (x ∷ xs) h = rw h.0 (ap (◌∷◌ x) (select-all p xs h.1))

  pub All-map {κ μ} :
      {P : A → Type κ} {Q : A → Type μ}
      → ((a : A) → P a → Q a)
      → (xs : List A) → All P xs
      → All Q xs
  All-map f [] h = tt
  All-map f (x ∷ xs) h = (f x h.0, All-map f xs h.1)

  pub All-append {κ} : (P : A → Type κ) (xs ys : List A) → All P xs → All P ys → All P (xs ++ ys)
  All-append P [] ys h k = k
  All-append P (x ∷ xs) ys h k = (h.0, All-append P xs ys h.1 k)

  pub All-select {κ} :
      (P : A → Type κ) (p : A → Bool) (xs : List A) → All P xs → All P (select p xs)
  All-select P p [] h = tt
  All-select P p (x ∷ xs) h = elim (Bool-cases (p x)) [
    | inl e ↦ rw e (h.0, All-select P p xs h.1)
    | inr e ↦ rw e (All-select P p xs h.1)
  ]

  -- what is selected passes the test
  pub select-All : (p : A → Bool) (xs : List A) → All (λ a. p a ≡ true) (select p xs)
  select-All p [] = tt
  select-All p (x ∷ xs) = elim (Bool-cases (p x)) [
    | inl e ↦ rw e (e, select-All p xs)
    | inr e ↦ rw e (select-All p xs)
  ]

  -- a new last element is found if no other is
  pub find-append_new :
      (p : A → Bool) (xs : List A) (y : A)
      → any p xs ≡ false
      → p y ≡ true
      → find p (xs ++ y ∷ []) ≡ some y
  find-append_new p [] y h k = rw k refl
  find-append_new p (x ∷ xs) y h k =
      let split = or-eq-false (p x) (any p xs) h in rw split.0 (find-append_new p xs y split.1 k)

  -- what was found is found in the longer list
  pub find-append_old :
      (p : A → Bool) (xs ys : List A) {a : A} → find p xs ≡ some a → find p (xs ++ ys) ≡ some a
  find-append_old p [] ys h = cc
  find-append_old p (x ∷ xs) ys h = elim (Bool-cases (p x)) [
    | inl e ↦ rw e (rw e at h)
    | inr e ↦ rw e (find-append_old p xs ys (rw e at h))
  ]

  -- two tests in one pass, or one after the other
  pub select-and :
      (p q : A → Bool) (xs : List A) → select (λ a. p a && q a) xs ≡ select q (select p xs)
  select-and p q [] = refl
  select-and p q (x ∷ xs) = elim (Bool-cases (p x)) [
    | inl e ↦ elim (Bool-cases (q x)) [
      | inl f ↦ rw (e, f) (ap (◌∷◌ x) (select-and p q xs))
      | inr f ↦ rw (e, f) (select-and p q xs)
    ]
    | inr e ↦ rw e (select-and p q xs)
  ]
