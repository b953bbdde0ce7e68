-- ===== src/Prelude/Maps.antt =====
-- A JavaScript `Map` with text keys, as an association list in insertion order.
use Prim.Native.String.{String}
use mathlib.Core.Path.{◌≡◌, refl}
use mathlib.Core.Option.{Option, none, some}
use mathlib.Core.List.{List, [], ◌∷◌}
use native.Mathlib.Omega.{arith}
use text.Mathlib.Text.{◌==◌}
use text.Mathlib.TextEquality.{eq_iff}
use geofence_location.Prelude.Tests.{if◌then◌else◌}

abbrev pub Dict {ℓ} : Type ℓ → Type ℓ
Dict V = List (String × V)

-- `map.get(key)`, `map.set(key, value)`, which keeps the place of a key that is there, and
-- `map.delete(key)`.
module _ {ℓ} {V : Type ℓ} where
  unfoldable pub lookup : String → Dict V → Option V
  lookup key [] = none
  lookup key ((held, value) ∷ dict) =
      let later = lookup key dict in if held == key then some value else later

  unfoldable pub insert : String → V → Dict V → Dict V
  insert key value [] = (key, value) ∷ []
  insert key value ((held, old) ∷ dict) =
      let later = insert key value dict in
      if held == key then (held, value) ∷ dict else (held, old) ∷ later

  pub lookup-insert :
      (key asked : String) (value : V) (dict : Dict V)
      → lookup asked (insert key value dict)
        ≡ (if key == asked then some value else lookup asked dict)
  unfolding lookup insert
  lookup-insert key asked value [] = refl
  lookup-insert key asked value ((held, old) ∷ dict) = ground (
    arith,
    lookup-insert key asked value dict,
    eq_iff held key,
    eq_iff held asked,
    eq_iff key asked,
  )

  unfoldable pub delete : String → Dict V → Dict V
  delete k [] = []
  delete k ((j, w) ∷ m) = let rest = delete k m in if j == k then rest else (j, w) ∷ rest

  pub lookup-delete :
      (k j : String) (m : Dict V) → lookup j (delete k m) ≡ (if k == j then none else lookup j m)
  unfolding lookup delete
  lookup-delete k j [] = ground arith
  lookup-delete k j ((i, w) ∷ m) =
      ground (arith, eq_iff k j, eq_iff i k, eq_iff i j, lookup-delete k j m)
