-- ===== src/Prelude/Effects.antt =====
-- Results of fallible code. `Result` is Rust's with an error that the code does not look into;
-- `Outcome` tells a return from a panic (`unwrap` of `None`, `panic!`, a failed `assert_eq!`).
use mathlib.Core.Path.{◌≡◌, refl, ap}
use mathlib.Core.Bool.{Bool, true, false}
use mathlib.Core.Option.{Option, none, some}

pub data Outcome {ℓ} (A : Type ℓ) : Type ℓ where
  returns : A → Outcome A
  panics : Outcome A

abbrev pub unwrap {ℓ} : {A : Type ℓ} → Option A → Outcome A
unwrap none = panics
unwrap (some a) = returns a

-- `o.and_then(f)`, the `?` and `match … None => return None` of the source
infixl 5 ◌>>=◌
abbrev pub ◌>>=◌ {ℓ κ} : {A : Type ℓ} {B : Type κ} → Option A → (A → Option B) → Option B
none >>= f = none
some a >>= f = f a

pub >>=-eq-some {ℓ κ} :
    {A : Type ℓ} {B : Type κ} (m : Option A) (f : A → Option B) {b : B}
    → (m >>= f) ≡ some b
    → (a : A) × (m ≡ some a) × (f a ≡ some b)
>>=-eq-some none f h = cc
>>=-eq-some (some a) f h = (a, refl, h)

pub some_eq {ℓ} : {A : Type ℓ} {a b : A} → some a ≡ some b → a ≡ b
some_eq {A = A} {a = a} h = ap (get_or_else a) h
  where
    get_or_else : A → Option A → A
    get_or_else d none = d
    get_or_else d (some x) = x

pub returns_eq {ℓ} : {A : Type ℓ} {a b : A} → returns a ≡ returns b → a ≡ b
returns_eq {A = A} {a = a} h = ap value_or_else h
  where
    value_or_else : Outcome A → A
    value_or_else (returns x) = x
    value_or_else panics = a

abbrev pub is_return {ℓ} : {A : Type ℓ} → Outcome A → Bool
is_return (returns a) = true
is_return panics = false
