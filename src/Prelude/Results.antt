-- ===== src/Prelude/Results.antt =====
-- Exceptions as values, and methods that change an object and may raise. What a method wrote
-- before it raised stays written, so an action gives the state back beside the exception too.
use mathlib.Core.Path.{◌≡◌, refl}
use mathlib.Core.Logic.{◌⊎◌, inl, inr}
use mathlib.Core.Option.{Option, none, some}

-- The exceptions that the program raises or lets through. `out_of_fuel` is no Python exception: it
-- marks a run of a `while` loop that was cut off by the bound of the model.
pub data Error : Type 0 where
  value_error assertion_error key_error index_error overflow_error : Error
  malformed_key file_not_found out_of_fuel : Error

-- What a method gives back: a value, or the exception that it raised.
pub data Result {ℓ} (V : Type ℓ) : Type ℓ where
  ok : (value : V) → Result V
  err : (raised : Error) → Result V

-- The rest of a method runs on the value; an exception goes through.
infixl 5 ◌>>=◌
abbrev pub ◌>>=◌ {ℓ κ} : {V : Type ℓ} {U : Type κ} → Result V → (V → Result U) → Result U
err x >>= k = err x
ok v >>= k = k v

-- A missing value raises.
abbrev pub or_raise {ℓ} : {V : Type ℓ} → Error → Option V → Result V
or_raise x none = err x
or_raise x (some v) = ok v

pub Result-cases {ℓ} :
    {V : Type ℓ} (r : Result V) → ((v : V) × (r ≡ ok v)) ⊎ ((x : Error) × (r ≡ err x))
Result-cases (err x) = inr (x, refl)
Result-cases (ok v) = inl (v, refl)

-- What returned is what the rest returned on some value.
pub returned_value {ℓ κ} :
    {V : Type ℓ} {U : Type κ} (r : Result V) (k : V → Result U) {u : U}
    → (r >>= k) ≡ ok u
    → (v : V) × (r ≡ ok v) × (k v ≡ ok u)
returned_value (err x) k p = cc
returned_value (ok v) k p = (v, refl, p)

-- Methods of an object with state `S`.
abbrev pub Action {ℓ κ} : Type ℓ → Type κ → Type (ℓ ⊔ κ)
Action S A = S → Result A × S
