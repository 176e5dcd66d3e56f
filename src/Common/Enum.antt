-- ===== src/Common/Enum.antt =====
-- Python's `StrEnum`: a finite type whose members are told apart by their text.
use Prim.Native.String.{String}
use mathlib.Core.Path.{◌≡◌, ap, sym, ◌∙◌}
use mathlib.Core.Logic.{◌↔◌, inl, inr}
use mathlib.Core.Bool.{Bool, true}
use mathlib.Core.Option.{Option, some}
use mathlib.Core.List.{List, [], ◌∷◌}
use text.Mathlib.TextEquality.{eq_iff}
use ecommerce_after_sales_ag.Common.Tests.{str_eq, Bool-cases}
use ecommerce_after_sales_ag.Common.Lists.{any, find}

pub some-injective : {A : Type 0} {a b : A} → some a ≡ some b → a ≡ b
some-injective h = cc

-- `looked_up` is the round trip of `Enum(member.value)`.
pub record StrEnum (A : Type 0) : Type 0 where
  pub members : List A
  pub value : A → String
  pub looked_up : (a : A) → find (λ m. str_eq (value m) (value a)) members ≡ some a

module _ {A : Type 0} ⦃e : StrEnum A⦄ where
  -- `Enum(text)`, which raises where this is `none`
  abbrev pub of_value : String → Option A
  of_value s = find (λ m. str_eq (e.value m) s) e.members

  abbrev pub value_of : A → String
  value_of a = e.value a

  -- `a is b`, and `a == b` on two members
  infix 50 ◌is◌
  abbrev pub ◌is◌ : A → A → Bool
  a is b = str_eq (e.value a) (e.value b)

  -- `a in {…}`
  infix 50 ◌is_in◌
  abbrev pub ◌is_in◌ : A → List A → Bool
  a is_in xs = any (λ x. a is x) xs

  pub value-injective : (a b : A) → e.value a ≡ e.value b → a ≡ b
  value-injective a b h = cc (
    e.looked_up a,
    e.looked_up b,
    ap {B = Option A} (λ s. find (λ m. str_eq (e.value m) s) e.members) h,
  )

  pub is_iff : (a b : A) → ((a is b) ≡ true) ↔ (a ≡ b)
  is_iff a b = (
    (λ h. value-injective a b ((eq_iff (e.value a) (e.value b)).0 h)),
    (λ h. (eq_iff (e.value a) (e.value b)).1 (ap e.value h)),
  )

  matches :
      (s : String) (xs : List A) {a : A}
      → find (λ m. str_eq (e.value m) s) xs ≡ some a
      → e.value a ≡ s
  matches s [] h = cc
  matches s (x ∷ xs) h = elim (Bool-cases (str_eq (e.value x) s)) [
    | inl f ↦ ap e.value (some-injective (sym (rw f at h))) ∙ (eq_iff (e.value x) s).0 f
    | inr f ↦ matches s xs (rw f at h)
  ]

  -- only a member's own text is looked up as the member
  pub of_value-eq-some : (s : String) {a : A} → of_value s ≡ some a → s ≡ e.value a
  of_value-eq-some s h = sym (matches s e.members h)
