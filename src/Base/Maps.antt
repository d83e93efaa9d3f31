-- ===== src/Base/Maps.antt =====
-- A JavaScript `Map` with string keys, in insertion order: a write to a key that is there keeps
-- the key's place, a new key goes to the end.
use Prim.Native.String.{String}
use mathlib.Core.Path.{◌≡◌, refl}
use mathlib.Core.List.{List, [], ◌∷◌}
use mathlib.Core.Option.{Option, none, some}
use native.Mathlib.Omega.{arith}
use text.Mathlib.Text.{◌==◌}
use text.Mathlib.TextEquality.{eq_iff}
use text.Mathlib.TextPositions.{eq_refl}
use package.roj.Base.Tests.{if◌then◌else◌}

abbrev pub Dict {ℓ} : Type ℓ → Type ℓ
Dict V = List (String × V)

module _ {ℓ} {V : Type ℓ} where
  -- `map.get(key)`
  unfoldable pub lookup : String → Dict V → Option V
  lookup key [] = none
  lookup key ((here, value) ∷ rest) = if here == key then some value else lookup key rest

  -- `map.set(key, value)`
  unfoldable pub insert : String → V → Dict V → Dict V
  insert key value [] = (key, value) ∷ []
  insert key value ((here, old) ∷ rest) =
      if here == key then (here, value) ∷ rest else (here, old) ∷ insert key value rest

  -- `map.delete(key)`
  unfoldable pub remove : String → Dict V → Dict V
  remove key [] = []
  remove key ((here, old) ∷ rest) =
      let others = remove key rest in if here == key then others else (here, old) ∷ others

  -- `map.values()`
  abbrev pub values : Dict V → List V
  values [] = []
  values ((here, value) ∷ rest) = value ∷ values rest

  pub lookup-insert :
      (key asked : String) (value : V) (dict : Dict V)
      → lookup asked (insert key value dict)
        ≡ (if key == asked then some value else lookup asked dict)
  unfolding lookup insert
  lookup-insert key asked value [] = refl
  lookup-insert key asked value ((here, old) ∷ rest) =
      let ih = lookup-insert key asked value rest in
      ground (arith, ih, eq_iff here key, eq_iff here asked, eq_iff key asked)

  pub lookup-insert_self :
      (key : String) (value : V) (dict : Dict V) → lookup key (insert key value dict) ≡ some value
  lookup-insert_self key value dict = rw (lookup-insert key key value dict, eq_refl key)

  pub lookup-remove :
      (key asked : String) (dict : Dict V)
      → lookup asked (remove key dict) ≡ (if key == asked then none else lookup asked dict)
  unfolding lookup remove
  lookup-remove key asked [] = ground (arith, eq_iff key asked)
  lookup-remove key asked ((here, old) ∷ rest) =
      let ih = lookup-remove key asked rest in
      ground (arith, ih, eq_iff here key, eq_iff here asked, eq_iff key asked)
