-- ===== src/Prelude/Dict.antt =====
-- A Python dict as the list of its items in insertion order.

use mathlib.Core.Path.{◌≡◌, refl}
use mathlib.Core.Bool.{Bool, true, false}
use mathlib.Core.Option.{Option, none, some}
use mathlib.Core.List.{List, [], ◌∷◌}
use native.Mathlib.Omega.{arith}
use blockchain_workshop.Prelude.Tests.{Eq, ◌==◌, if◌then◌else◌}
use blockchain_workshop.Prelude.Results.{Result, ok, err, key_error}

abbrev pub Dict {ℓ κ} : Type ℓ → Type κ → Type (ℓ ⊔ κ)
Dict K V = List (K × V)

module _ {ℓ κ} {K : Type ℓ} {V : Type κ} where
  -- d.values()
  unfoldable pub values : Dict K V → List V
  values [] = []
  values ((k, v) ∷ d) = v ∷ values d

module _ {ℓ κ} {K : Type ℓ} {V : Type κ} ⦃e : Eq K⦄ where
  -- d.get(k)
  unfoldable pub lookup : K → Dict K V → Option V
  lookup k [] = none
  lookup k ((j, v) ∷ d) = if j == k then some v else lookup k d

  -- d.get(k, v)
  unfoldable pub get_or : K → V → Dict K V → V
  get_or k v d = elim (lookup k d) [ none ↦ v | some w ↦ w ]

  -- k in d
  unfoldable pub contains : K → Dict K V → Bool
  contains k d = elim (lookup k d) [ none ↦ false | some w ↦ true ]

  -- d[k]
  unfoldable pub subscript : K → Dict K V → Result V
  subscript k d = elim (lookup k d) [ none ↦ err key_error | some w ↦ ok w ]

  -- d[k] = v
  unfoldable pub insert : K → V → Dict K V → Dict K V
  insert k v [] = (k, v) ∷ []
  insert k v ((j, w) ∷ d) = if j == k then (j, v) ∷ d else (j, w) ∷ insert k v d

  -- d.setdefault(k, v)
  unfoldable pub setdefault : K → V → Dict K V → Dict K V
  setdefault k v d = elim (lookup k d) [ none ↦ insert k v d | some w ↦ d ]

  -- d.pop(k, None), for its effect; a key stands once, so every entry with it goes
  unfoldable pub remove : K → Dict K V → Dict K V
  remove k [] = []
  remove k ((j, w) ∷ d) = let rest = remove k d in if j == k then rest else (j, w) ∷ rest

  pub lookup-insert :
      (k j : K) (v : V) (d : Dict K V)
      → lookup j (insert k v d) ≡ (if k == j then some v else lookup j d)
  unfolding lookup insert
  lookup-insert k j v [] = refl
  lookup-insert k j v ((i, w) ∷ d) =
      ground (arith, e.test_iff k j, e.test_iff i k, e.test_iff i j, lookup-insert k j v d)

  pub lookup-remove :
      (k j : K) (d : Dict K V) → lookup j (remove k d) ≡ (if k == j then none else lookup j d)
  unfolding lookup remove
  lookup-remove k j [] = ground arith
  lookup-remove k j ((i, w) ∷ d) =
      ground (arith, e.test_iff k j, e.test_iff i k, e.test_iff i j, lookup-remove k j d)

  pub get_or-insert :
      (k j : K) (v z : V) (d : Dict K V)
      → get_or j z (insert k v d) ≡ (if k == j then v else get_or j z d)
  unfolding get_or
  get_or-insert k j v z d = ground (arith, lookup-insert k j v d)

  -- setdefault with the default that reads use is invisible to those reads.
  pub get_or-setdefault :
      (k j : K) (z : V) (d : Dict K V) → get_or j z (setdefault k z d) ≡ get_or j z d
  unfolding get_or setdefault
  get_or-setdefault k j z d = ground (arith, lookup-insert k j z d, e.test_iff k j)

  pub contains-insert :
      (k j : K) (v : V) (d : Dict K V)
      → contains j (insert k v d) ≡ (if k == j then true else contains j d)
  unfolding contains
  contains-insert k j v d = ground (arith, lookup-insert k j v d)

  pub contains-setdefault :
      (k j : K) (v : V) (d : Dict K V)
      → contains j (setdefault k v d) ≡ (if k == j then true else contains j d)
  unfolding contains setdefault
  contains-setdefault k j v d = ground (arith, lookup-insert k j v d, e.test_iff k j)

  pub contains-remove :
      (k j : K) (d : Dict K V) → contains j (remove k d) ≡ (if k == j then false else contains j d)
  unfolding contains
  contains-remove k j d = ground (arith, lookup-remove k j d)

  -- A key that is there is read as `get` reads it, whatever the default.
  pub subscript_of_contains :
      (k : K) (z : V) (d : Dict K V) → contains k d ≡ true → subscript k d ≡ ok (get_or k z d)
  unfolding contains subscript get_or
  subscript_of_contains k z d h = ground arith

  pub some_of_contains :
      (k : K) (d : Dict K V) → contains k d ≡ true → (v : V) × (lookup k d ≡ some v)
  unfolding contains
  some_of_contains k d h = ground arith
