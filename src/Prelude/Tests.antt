-- ===== src/Prelude/Tests.antt =====
-- Boolean tests on the native numbers, equality as an interface, and the conditional.
use Prim.Native.Nat.{ℕ, compare, Ordering}
use mathlib.Core.Path.{◌≡◌, refl}
use mathlib.Core.Logic.{◌≢◌, ◌↔◌, ◌⊎◌, inl, inr}
use mathlib.Core.Bool.{Bool, true, false, ◌&&◌}
use mathlib.Core.Option.{Option, none, some}
use mathlib.Core.List.{List, [], ◌∷◌}
use native.Mathlib.Omega.{arith}

abbrev pub ltb : ℕ → ℕ → Bool
ltb a b = elim (compare a b) [ Ordering.lt ↦ true | _ ↦ false ]

abbrev pub leb : ℕ → ℕ → Bool
leb a b = elim (compare a b) [ Ordering.gt ↦ false | _ ↦ true ]

abbrev pub nat_eq : ℕ → ℕ → Bool
nat_eq a b = elim (compare a b) [ Ordering.eq ↦ true | _ ↦ false ]

infix 1 if◌then◌else◌
abbrev pub if◌then◌else◌ {ℓ} : {A : Type ℓ} → Bool → A → A → A
if true then x else y = x
if false then x else y = y

pub Bool-cases : (b : Bool) → (b ≡ true) ⊎ (b ≡ false)
Bool-cases true = inl refl
Bool-cases false = inr refl

pub Option-cases {ℓ} : {A : Type ℓ} (o : Option A) → (o ≡ none) ⊎ ((a : A) × (o ≡ some a))
Option-cases none = inl refl
Option-cases (some a) = inr (a, refl)

-- Python's `==` on the values that the program compares: a test that decides equality.
pub record Eq {ℓ} (K : Type ℓ) : Type ℓ where
  pub test : K → K → Bool
  pub test_iff : (k j : K) → (test k j ≡ true) ↔ (k ≡ j)

infix 50 ◌==◌
abbrev pub ◌==◌ {ℓ} : {K : Type ℓ} → ⦃eq : Eq K⦄ → K → K → Bool
◌==◌ ⦃eq⦄ k j = eq.test k j

pub nat_eq_iff : (a b : ℕ) → (nat_eq a b ≡ true) ↔ (a ≡ b)
nat_eq_iff a b = ground arith

instance abbrev pub ℕ_eq : Eq ℕ
ℕ_eq = record { test = nat_eq; test_iff = nat_eq_iff }

-- Texts and byte strings are lists of numbers.
abbrev pub bytes_eq : List ℕ → List ℕ → Bool
bytes_eq [] [] = true
bytes_eq [] (b ∷ bs) = false
bytes_eq (a ∷ as') [] = false
bytes_eq (a ∷ as') (b ∷ bs) = nat_eq a b && bytes_eq as' bs

pub bytes_eq_iff : (a b : List ℕ) → (bytes_eq a b ≡ true) ↔ (a ≡ b)
bytes_eq_iff [] [] = ground arith
bytes_eq_iff [] (b ∷ bs) = ground arith
bytes_eq_iff (a ∷ as') [] = ground arith
bytes_eq_iff (a ∷ as') (b ∷ bs) = ground (arith, bytes_eq_iff as' bs)

instance abbrev pub Bytes_eq : Eq (List ℕ)
Bytes_eq = record { test = bytes_eq; test_iff = bytes_eq_iff }

module _ {ℓ} {A : Type ℓ} ⦃e : Eq A⦄ where
  pub ==_refl : (a : A) → (a == a) ≡ true
  ==_refl a = (e.test_iff a a).1 refl

  pub ==-cases : (a b : A) → ((a ≡ b) × ((a == b) ≡ true)) ⊎ ((a ≢ b) × ((a == b) ≡ false))
  ==-cases a b = elim (Bool-cases (a == b)) [
    | inl h ↦ inl ((e.test_iff a b).0 h, h)
    | inr h ↦ inr (λ p. ground (arith, e.test_iff a b), h)
  ]

-- Tuples are equal when their parts are.
abbrev pub pair_eq {ℓ κ} : {A : Type ℓ} {B : Type κ} → Eq A → Eq B → A × B → A × B → Bool
pair_eq e f p q = e.test p.0 q.0 && f.test p.1 q.1

pub pair_eq_iff {ℓ κ} :
    {A : Type ℓ} {B : Type κ} (e : Eq A) (f : Eq B) (p q : A × B)
    → (pair_eq e f p q ≡ true) ↔ (p ≡ q)
pair_eq_iff e f (a, b) (c, d) = (
  (λ h. ground (arith, e.test_iff a c, f.test_iff b d)),
  λ h. ground (arith, e.test_iff a c, f.test_iff b d),
)

instance abbrev pub pair_Eq {ℓ κ} : {A : Type ℓ} {B : Type κ} ⦃e : Eq A⦄ ⦃f : Eq B⦄ → Eq (A × B)
pair_Eq ⦃e⦄ ⦃f⦄ = record { test = pair_eq e f; test_iff = pair_eq_iff e f }
