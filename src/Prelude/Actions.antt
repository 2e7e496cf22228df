-- ===== src/Prelude/Actions.antt =====
-- The monad of methods: a state that is passed on, and exceptions.
use mathlib.Core.Path.{◌≡◌, refl, ap}
use blockchain_workshop.Prelude.Results.{Error, Result, ok, err, Action}

module _ {ℓ κ} {S : Type ℓ} {A : Type κ} where
  abbrev pub pure : A → Action S A
  pure a s = (ok a, s)

  abbrev pub raise : Error → Action S A
  raise e s = (err e, s)

  abbrev pub lift : Result A → Action S A
  lift r s = (r, s)

  abbrev pub gets : (S → A) → Action S A
  gets f s = (ok (f s), s)

  -- A read that may raise.
  abbrev pub reads : (S → Result A) → Action S A
  reads f s = (f s, s)

abbrev pub modify {ℓ} : {S : Type ℓ} → (S → S) → Action S (Unit {0})
modify f s = (ok tt, f s)

infixl 5 ◌>>=◌ ◌>>◌
abbrev pub ◌>>=◌ {ℓ κ μ} :
    {S : Type ℓ} {A : Type κ} {B : Type μ} → Action S A → (A → Action S B) → Action S B
◌>>=◌ m f s = let (r, s') = m s in elim r [ ok a ↦ f a s' | err e ↦ (err e, s') ]

abbrev pub ◌>>◌ {ℓ κ μ} :
    {S : Type ℓ} {A : Type κ} {B : Type μ} → Action S A → Action S B → Action S B
m >> k = m >>= λ _. k

-- A predicate on states that the first action keeps, and the second one from there.
module _ {ℓ κ μ ν} {S : Type ℓ} {A : Type κ} {B : Type μ} (P : S → Type ν)
    (f : A → Action S B) where
  keeps_rest :
      (r : Result A) (s : S)
      → P s
      → ((a : A) → r ≡ ok a → P (f a s).1)
      → P (((λ _. (r, s)) >>= f) s).1
  keeps_rest (ok a) s h k = k a refl
  keeps_rest (err e) s h k = h

  pub keeps_bind :
      (m : Action S A) (s : S)
      → P (m s).1
      → ((a : A) → (m s).0 ≡ ok a → P (f a (m s).1).1)
      → P ((m >>= f) s).1
  keeps_bind m s h k = keeps_rest (m s).0 (m s).1 h k

-- The second action runs from where the first one returned.
pub >>=-eq-returned {ℓ κ μ} :
    {S : Type ℓ} {A : Type κ} {B : Type μ} (m : Action S A) (f : A → Action S B) (s : S) {a : A}
    {s' : S}
    → m s ≡ (ok a, s')
    → (m >>= f) s ≡ f a s'
>>=-eq-returned {S = S} {A = A} m f s e = ap (λ (r : Result A × S). ((λ (x : S). r) >>= f) s) e

returned_result {ℓ κ μ} :
    {S : Type ℓ} {A : Type κ} {B : Type μ} (r : Result A) (s : S) (f : A → Action S B) {u : B}
    → (((λ (x : S). (r, s)) >>= f) s).0 ≡ ok u
    → (a : A) × (r ≡ ok a) × ((f a s).0 ≡ ok u)
returned_result (ok a) s f h = (a, refl, h)
returned_result (err x) s f h = cc h

-- When two actions return, the first one does, and the second one from where it ended.
pub returned_step {ℓ κ μ} :
    {S : Type ℓ} {A : Type κ} {B : Type μ} (m : Action S A) (f : A → Action S B) (s : S) {u : B}
    → ((m >>= f) s).0 ≡ ok u
    → (a : A) × ((m s).0 ≡ ok a) × ((f a (m s).1).0 ≡ ok u)
returned_step m f s h = returned_result (m s).0 (m s).1 f h
