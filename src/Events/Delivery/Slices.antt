-- ===== src/Events/Delivery/Slices.antt =====
-- Slices of a list of events that are numbered without a gap.
use ecommerce_after_sales_ag.Common.{
  ℕ, zero, suc, ◌+◌, ◌≤◌, ◌<◌, false, List, [], ◌∷◌, ◌++◌, ◌≡◌, refl, ap, subst, ◌⊎◌, inl, inr,
  arith, select, ltb, All, length, lt→ltb, ltb→lt, map,
}
use ecommerce_after_sales_ag.Common.Selections.{select-all, select-select, All-map}
use ecommerce_after_sales_ag.Events.Models.{EventRow, EventEnvelope}
use ecommerce_after_sales_ag.Events.Log.{IsNumbered}
use ecommerce_after_sales_ag.Events.Replay.{first_rows}
use ecommerce_after_sales_ag.Events.Pages.{skip, view}

-- numbered onwards from k + 1
abbrev pub IsCounted : ℕ → List EventEnvelope → Type 0
IsCounted k [] = Unit
IsCounted k (e ∷ es) = (e.sequence ≡ suc k) × IsCounted (suc k) es

pub IsCounted-view : (k : ℕ) (rs : List EventRow) → IsNumbered k rs → IsCounted k (map view rs)
IsCounted-view k [] h = tt
IsCounted-view k (r ∷ rs) h = (h.0, IsCounted-view (suc k) rs h.1)

pub IsCounted-above :
    (k a : ℕ) (es : List EventEnvelope) → IsCounted k es → a ≤ k → All (λ e. a < e.sequence) es
IsCounted-above k a [] h l = tt
IsCounted-above k a (e ∷ es) h l =
    (omega (arith, h.0, l), IsCounted-above (suc k) a es h.1 (omega (arith, l)))

pub IsCounted-below :
    (k a : ℕ) (es : List EventEnvelope)
    → IsCounted k es
    → k + length es ≤ a
    → All (λ e. ltb a e.sequence ≡ false) es
IsCounted-below k a [] h l = tt
IsCounted-below k a (e ∷ es) h l =
    (ground (arith, h.0, l), IsCounted-below (suc k) a es h.1 (omega (arith, l)))

pub IsCounted-skip :
    (k j : ℕ) (es : List EventEnvelope) → IsCounted k es → IsCounted (k + j) (skip j es)
IsCounted-skip k zero es h = subst (λ n. IsCounted n es) (omega arith) h
IsCounted-skip k (suc j) [] h = tt
IsCounted-skip k (suc j) (e ∷ es) h =
    subst (λ n. IsCounted n (skip j es)) (omega arith) (IsCounted-skip (suc k) j es h.1)

-- the events past a number
abbrev pub past : ℕ → List EventEnvelope → List EventEnvelope
past n = select (λ e. ltb n e.sequence)

pub past_later : (m n : ℕ) (es : List EventEnvelope) → m ≤ n → past n (past m es) ≡ past n es
past_later m n es l =
    select-select (λ e. ltb m e.sequence) (λ e. ltb n e.sequence)
      (λ e h. lt→ltb m e.sequence (omega (arith, ltb→lt n e.sequence h, l))) es

pub past_all : (n : ℕ) (es : List EventEnvelope) → All (λ e. n < e.sequence) es → past n es ≡ es
past_all n es h =
    select-all (λ e. ltb n e.sequence) es (All-map (λ e l. lt→ltb n e.sequence l) es h)

module _ {A : Type 0} where
  -- the element that a slice starts with, and the slice after it
  pub skip-suc :
      (j : ℕ) (xs : List A) {x : A} {t : List A} → skip j xs ≡ x ∷ t → skip (suc j) xs ≡ t
  skip-suc zero [] h = cc
  skip-suc zero (y ∷ ys) h = cc
  skip-suc (suc j) [] h = cc
  skip-suc (suc j) (y ∷ ys) h = skip-suc j ys h

  -- a slice has what is left
  pub length-skip :
      (j : ℕ) (xs : List A)
      → ((j ≤ length xs) × (j + length (skip j xs) ≡ length xs))
        ⊎ ((length xs < j) × (skip j xs ≡ []))
  length-skip zero xs = inl (omega arith, omega arith)
  length-skip (suc j) [] = inr (omega arith, refl)
  length-skip (suc j) (x ∷ xs) = elim (length-skip j xs) [
    | inl h ↦ inl (omega (arith, h.0), omega (arith, h.1))
    | inr h ↦ inr (omega (arith, h.0), h.1)
  ]

  -- a slice of a longer list
  pub skip-snoc :
      (j : ℕ) (xs : List A) (x : A)
      → ((j ≤ length xs) × (skip j (xs ++ x ∷ []) ≡ skip j xs ++ x ∷ []))
        ⊎ ((length xs < j) × (skip j xs ≡ []) × (skip j (xs ++ x ∷ []) ≡ []))
  skip-snoc zero xs x = inl (omega arith, refl)
  skip-snoc (suc zero) [] x = inr (omega arith, refl, refl)
  skip-snoc (suc (suc j)) [] x = inr (omega arith, refl, refl)
  skip-snoc (suc j) (y ∷ ys) x = elim (skip-snoc j ys x) [
    | inl h ↦ inl (omega (arith, h.0), h.1)
    | inr h ↦ inr (omega (arith, h.0), h.1, h.2)
  ]

  -- a page starts a list, and is the whole of it if it is short
  pub first_rows-prefix : (n : ℕ) (xs : List A) → (t : List A) × (xs ≡ first_rows n xs ++ t)
  unfolding first_rows
  first_rows-prefix zero xs = (xs, refl)
  first_rows-prefix (suc n) [] = ([], refl)
  first_rows-prefix (suc n) (x ∷ xs) = let (t, h) = first_rows-prefix n xs in (t, ap (◌∷◌ x) h)

  pub first_rows-short : (n : ℕ) (xs : List A) → length (first_rows n xs) < n → first_rows n xs ≡ xs
  unfolding first_rows
  first_rows-short zero xs h = absurd (omega (arith, h))
  first_rows-short (suc n) [] h = refl
  first_rows-short (suc n) (x ∷ xs) h = ap (◌∷◌ x) (first_rows-short n xs (omega (arith, h)))
