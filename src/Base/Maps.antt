-- ===== src/Base/Maps.antt =====
-- Association lists with one entry for a key: Go's maps, and SQL tables by their key.
use mathlib.Core.Path.{◌≡◌, refl}
use mathlib.Core.Option.{Option, none, some}
use mathlib.Core.Option
use mathlib.Core.List.{List, [], ◌∷◌}
use native.Mathlib.Omega.{arith}
use monitor_backend.Base.Tests.{Equality, ◌==◌, if◌then◌else◌}

abbrev pub Map {ℓ κ} : Type ℓ → Type κ → Type (ℓ ⊔ κ)
Map K V = List (K × V)

module _ {ℓ κ} {K : Type ℓ} {V : Type κ} ⦃t : Equality K⦄ where
  unfoldable pub lookup : K → Map K V → Option V
  lookup key [] = none
  lookup key ((k, v) ∷ others) = if k == key then some v else lookup key others

  unfoldable pub erase : K → Map K V → Map K V
  erase key [] = []
  erase key ((k, v) ∷ others) =
      let rest = erase key others in if k == key then rest else (k, v) ∷ rest

  unfoldable pub insert : K → V → Map K V → Map K V
  insert key new [] = (key, new) ∷ []
  insert key new ((k, v) ∷ others) =
      if k == key then (key, new) ∷ others else (k, v) ∷ insert key new others

  pub lookup-erase :
      (erased key : K) (entries : Map K V)
      → lookup key (erase erased entries) ≡ (if erased == key then none else lookup key entries)
  unfolding lookup erase
  lookup-erase erased key [] = ground arith
  lookup-erase erased key ((k, v) ∷ entries) = ground (
    arith,
    lookup-erase erased key entries,
    t.same_iff k key,
    t.same_iff k erased,
    t.same_iff erased key,
  )

  pub lookup-insert :
      (written key : K) (new : V) (entries : Map K V)
      → lookup key (insert written new entries)
        ≡ (if written == key then some new else lookup key entries)
  unfolding lookup insert
  lookup-insert written key new [] = refl
  lookup-insert written key new ((k, v) ∷ entries) = ground (
    arith,
    lookup-insert written key new entries,
    t.same_iff k key,
    t.same_iff k written,
    t.same_iff written key,
  )

module _ {ℓ κ} {K : Type ℓ} {V W : Type κ} where
  -- A loop that replaces every value.
  unfoldable pub map_values : (V → W) → Map K V → Map K W
  map_values f [] = []
  map_values f ((k, v) ∷ m) = (k, f v) ∷ map_values f m

module _ {ℓ κ} {K : Type ℓ} {V W : Type κ} ⦃t : Equality K⦄ where
  pub lookup-map_values :
      (f : V → W) (k : K) (m : Map K V) → lookup k (map_values f m) ≡ Option.map f (lookup k m)
  unfolding lookup map_values
  lookup-map_values f k [] = refl
  lookup-map_values f k ((j, v) ∷ m) = ground (arith, lookup-map_values f k m)
