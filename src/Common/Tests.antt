-- ===== src/Common/Tests.antt =====
-- Boolean tests on numbers, texts and optional texts, and the conditional.
use Prim.Native.Nat.{ℕ, ◌≤◌, ◌<◌, compare, Ordering}
use Prim.Native.String.{String}
use mathlib.Core.Path.{◌≡◌, refl, ap, sym}
use mathlib.Core.Logic.{◌⊎◌, ◌↔◌, ◌≢◌, inl, inr}
use text.Mathlib.TextEquality.{eq_iff}
use mathlib.Core.Bool.{Bool, true, false, not, ◌&&◌, ◌||◌}
use mathlib.Core.Option.{Option, none, some}
use native.Mathlib.Omega.{arith}
use text.Mathlib.Text.{find?, ◌==◌ as text_eq}

abbrev pub ltb : ℕ → ℕ → Bool
ltb a b = elim (compare a b) [ Ordering.lt ↦ true | _ ↦ false ]

abbrev pub leb : ℕ → ℕ → Bool
leb a b = elim (compare a b) [ Ordering.gt ↦ false | _ ↦ true ]

infix 50 ◌==◌
abbrev pub ◌==◌ : ℕ → ℕ → Bool
a == b = elim (compare a b) [ Ordering.eq ↦ true | _ ↦ false ]

infix 1 if◌then◌else◌
abbrev pub if◌then◌else◌ {ℓ} : {A : Type ℓ} → Bool → A → A → A
if true then x else y = x
if false then x else y = y

-- `s == t` on texts
abbrev pub str_eq : String → String → Bool
str_eq = text_eq

abbrev pub is_some {ℓ} : {A : Type ℓ} → Option A → Bool
is_some none = false
is_some (some a) = true

abbrev pub is_none {ℓ} : {A : Type ℓ} → Option A → Bool
is_none none = true
is_none (some a) = false

-- `==` on values that may be None
abbrev pub opt_eq : Option String → Option String → Bool
opt_eq none none = true
opt_eq (some a) (some b) = str_eq a b
opt_eq _ _ = false

-- the truth value of a text: it is not empty
abbrev pub non_empty : String → Bool
non_empty s = not (str_eq s "")

-- `bool(s)` for a text that may be None
abbrev pub truthy : Option String → Bool
truthy none = false
truthy (some s) = non_empty s

-- `part in text`, the substring test
unfoldable pub contains_text : String → String → Bool
contains_text part text = is_some (find? text part)

pub Bool-cases : (b : Bool) → (b ≡ true) ⊎ (b ≡ false)
Bool-cases true = inl refl
Bool-cases false = inr refl

pub not-eq-false : (b : Bool) → not b ≡ false → b ≡ true
not-eq-false true h = refl
not-eq-false false h = cc

pub not-eq-true : (b : Bool) → not b ≡ true → b ≡ false
not-eq-true true h = cc
not-eq-true false h = refl

pub Bool-ext : (a b : Bool) → (a ≡ true) ↔ (b ≡ true) → a ≡ b
Bool-ext true b h = sym (h.0 refl)
Bool-ext false true h = h.1 refl
Bool-ext false false h = refl

pub or_cases : (a b : Bool) → (a || b) ≡ true → (a ≡ true) ⊎ (b ≡ true)
or_cases true b h = inl refl
or_cases false b h = inr h

pub or-eq-false : (a b : Bool) → (a || b) ≡ false → (a ≡ false) × (b ≡ false)
or-eq-false true b h = cc
or-eq-false false b h = (refl, h)

pub and-eq-true : (a b : Bool) → (a && b) ≡ true → (a ≡ true) × (b ≡ true)
and-eq-true true b h = (refl, h)
and-eq-true false b h = cc

pub and_of_true : (a b : Bool) → a ≡ true → b ≡ true → (a && b) ≡ true
and_of_true a b h k = rw (h, k)

pub true-ne-false : true ≢ false
true-ne-false h = cc

pub or_left : (a b : Bool) → a ≡ true → (a || b) ≡ true
or_left a b h = rw h refl

pub or_right : (a b : Bool) → b ≡ true → (a || b) ≡ true
or_right true b h = refl
or_right false b h = h

pub or-true : (b : Bool) → (b || true) ≡ true
or-true true = refl
or-true false = refl

pub Option-cases {ℓ} : {A : Type ℓ} (o : Option A) → (o ≡ none) ⊎ ((a : A) × (o ≡ some a))
Option-cases none = inl refl
Option-cases (some a) = inr (a, refl)

pub ltb→lt : (a b : ℕ) → ltb a b ≡ true → a < b
ltb→lt a b h = ground arith

pub lt→ltb : (a b : ℕ) → a < b → ltb a b ≡ true
lt→ltb a b h = ground arith

pub leb→le : (a b : ℕ) → leb a b ≡ true → a ≤ b
leb→le a b h = ground arith

pub le→leb : (a b : ℕ) → a ≤ b → leb a b ≡ true
le→leb a b h = ground arith

pub ruleset tests = (arith, ltb→lt, lt→ltb, leb→le)

contains_text_test : contains_text "CONFLICT" "PERSISTENT_STRUCTURAL_CONFLICT" ≡ true
unfolding contains_text
contains_text_test = refl

contains_text_test_no : contains_text "CONFLICT" "WITHIN_TRACKING_SLA" ≡ false
unfolding contains_text
contains_text_test_no = refl

pub opt_eq_iff : (x : Option String) (s : String) → (opt_eq x (some s) ≡ true) ↔ (x ≡ some s)
opt_eq_iff none s = ((λ h. cc), (λ h. cc))
opt_eq_iff (some a) s = ((λ h. ap some ((eq_iff a s).0 h)), (λ h. (eq_iff a s).1 (cc)))

pub opt_eq-eq : (x y : Option String) → (opt_eq x y ≡ true) ↔ (x ≡ y)
opt_eq-eq none none = ((λ h. refl), (λ h. refl))
opt_eq-eq none (some b) = ((λ h. cc), (λ h. cc))
opt_eq-eq (some a) none = ((λ h. cc), (λ h. cc))
opt_eq-eq (some a) (some b) = ((λ h. ap some ((eq_iff a b).0 h)), (λ h. (eq_iff a b).1 (cc)))
