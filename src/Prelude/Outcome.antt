-- ===== src/Prelude/Outcome.antt =====
-- What a C function that reads memory and loops can do: return, fault (a read or write outside an
-- object, or through NULL), or run past the rounds that the model grants it.
use mathlib.Core.Path.{◌≡◌, refl, ap}
use mathlib.Core.Option.{Option, none, some}

pub data Outcome {ℓ} (A : Type ℓ) : Type ℓ where
  ok : A → Outcome A
  fault : Outcome A
  out_of_fuel : Outcome A

-- What comes next is done with a value, and only with one.
infixl 5 ◌>>=◌
abbrev pub ◌>>=◌ {κ ℓ} : {B : Type κ} {A : Type ℓ} → Outcome A → (A → Outcome B) → Outcome B
fault >>= next = fault
out_of_fuel >>= next = out_of_fuel
ok value >>= next = next value

infixl 5 ◌>>◌
abbrev pub ◌>>◌ {κ ℓ} : {B : Type κ} {A : Type ℓ} → Outcome A → Outcome B → Outcome B
first >> second = first >>= λ _. second

-- A pointer that must not be NULL, or an index that must be in range.
abbrev pub need {ℓ} : {A : Type ℓ} → Option A → Outcome A
need none = fault
need (some a) = ok a

-- When two steps succeed, so has the first one, and the second one on its value.
pub >>=-eq-ok {κ ℓ} :
    {B : Type κ} {result : B} {A : Type ℓ} (first : Outcome A) (next : A → Outcome B)
    → (first >>= next) ≡ ok result
    → (value : A) × (first ≡ ok value) × (next value ≡ ok result)
>>=-eq-ok fault next e = absurd (cc)
>>=-eq-ok out_of_fuel next e = absurd (cc)
>>=-eq-ok (ok value) next e = (value, refl, e)

pub ok-inj {ℓ} : {A : Type ℓ} {a b : A} → ok a ≡ ok b → a ≡ b
ok-inj {A = A} {a = a} h = ap by_default h
  where
    by_default : Outcome A → A
    by_default (ok x) = x
    by_default fault = a
    by_default out_of_fuel = a

pub need-ok {ℓ} : {A : Type ℓ} (o : Option A) {a : A} → need o ≡ ok a → o ≡ some a
need-ok none h = absurd (cc)
need-ok (some b) h = ap some (ok-inj h)
