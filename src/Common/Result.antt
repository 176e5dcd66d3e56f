-- ===== src/Common/Result.antt =====
-- A call that may raise: the exception classes of the source are the constructors of `Error`.
use Prim.Native.String.{String}
use mathlib.Core.Path.{◌≡◌, refl}
use mathlib.Core.Option.{Option, none, some}
use mathlib.Core.Bool.{Bool, true, false}

pub data Error : Type 0 where
  -- IllegalStateTransition
  illegal_transition : String → Error
  -- ValueError of a model's field constraint or validator
  validation : String → Error
  -- ValueError of a plain function
  value_error : String → Error
  -- TypeError
  type_error : String → Error
  -- AuthorizationError
  authorization : Error
  -- ToolBudgetExceeded, with its code
  budget_exceeded : String → Error
  -- CaseFactError
  case_fact : String → Error
  -- CaseFactIntegrityError
  integrity : String → Error
  -- KeyError
  key_error : String → Error
  -- IntegrityError of the database
  storage_integrity : String → Error
  -- StorageNotFoundError
  not_found : String → Error

-- what a call leaves behind: a raised exception, or the value it returns
pub data Result {ℓ} (Value : Type ℓ) : Type ℓ where
  err : Error → Result Value
  ok : Value → Result Value

infixl 5 ◌>>◌ ◌>>=◌
-- a check in front of the rest of a body
abbrev pub ◌>>◌ {ℓ} : {V : Type ℓ} → Result (Unit {0}) → Result V → Result V
err raised >> rest = err raised
ok passed >> rest = rest

-- a call whose value the rest of the body uses
abbrev pub ◌>>=◌ {ℓ κ} : {V : Type ℓ} {W : Type κ} → Result V → (V → Result W) → Result W
err raised >>= rest = err raised
ok value >>= rest = rest value

-- `if b: raise e`
abbrev pub raise_if : Bool → Error → Result (Unit {0})
raise_if true e = err e
raise_if false e = ok tt

-- the value of a search, or the exception of one that found nothing
abbrev pub or_raise {ℓ} : {V : Type ℓ} → Option V → Error → Result V
or_raise none e = err e
or_raise (some v) e = ok v

pub or_raise-eq-ok {ℓ} :
    {V : Type ℓ} (o : Option V) (e : Error) {v : V} → or_raise o e ≡ ok v → o ≡ some v
or_raise-eq-ok none e h = cc
or_raise-eq-ok (some w) e h = cc

abbrev pub is_ok {ℓ} : {A : Type ℓ} → Result A → Bool
is_ok (ok a) = true
is_ok (err e) = false

pub ok-injective {ℓ} : {A : Type ℓ} {a b : A} → ok a ≡ ok b → a ≡ b
ok-injective h = cc

pub is_ok-eq-true {ℓ} : {A : Type ℓ} (m : Result A) → is_ok m ≡ true → (a : A) × (m ≡ ok a)
is_ok-eq-true (ok a) h = (a, refl)
is_ok-eq-true (err e) h = cc

-- A call and the body after it succeed with what the body gives for the value of the call.
pub >>=-eq-ok {ℓ κ} :
    {V : Type ℓ} {W : Type κ} (call : Result V) (rest : V → Result W) {w : W}
    → (call >>= rest) ≡ ok w
    → (v : V) × (call ≡ ok v) × (rest v ≡ ok w)
>>=-eq-ok (err raised) rest h = cc
>>=-eq-ok (ok v) rest h = (v, refl, h)

-- A sequence succeeds exactly if both parts do.
pub >>-eq-ok {ℓ} :
    {B : Type ℓ} (m : Result (Unit {0})) (k : Result B) {b : B}
    → (m >> k) ≡ ok b
    → (m ≡ ok tt) × (k ≡ ok b)
>>-eq-ok (ok tt) k h = (refl, h)
>>-eq-ok (err e) k h = cc

pub >>_of_ok {ℓ} :
    {B : Type ℓ} (m : Result (Unit {0})) (k : Result B) {r : Result B}
    → m ≡ ok tt
    → k ≡ r
    → (m >> k) ≡ r
>>_of_ok m k h e = rw h e

pub raise_if-eq-ok : (b : Bool) (e : Error) → raise_if b e ≡ ok tt → b ≡ false
raise_if-eq-ok true e h = cc
raise_if-eq-ok false e h = refl

pub raise_if_of_false : (b : Bool) (e : Error) → b ≡ false → raise_if b e ≡ ok tt
raise_if_of_false b e h = rw h refl
