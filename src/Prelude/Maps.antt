-- ===== src/Prelude/Maps.antt =====
-- Python's dict with text keys, where no caller depends on the order of its items.
use mathlib.Core.Path.{◌≡◌, refl}
use mathlib.Core.Option.{Option, none, some}
use mathlib.Core.List.{List, [], ◌∷◌}
use native.Mathlib.Omega.{arith}
use Prim.Native.String.{String}
use text.Mathlib.Text.{◌==◌ as str_eq}
use text.Mathlib.TextEquality.{eq_iff}
use factorial.Prelude.Tests.{if◌then◌else◌}

abbrev pub Map {ℓ} : Type ℓ → Type ℓ
Map V = List (String × V)

module _ {ℓ} {V : Type ℓ} where
  -- m.get(key)
  unfoldable pub lookup : String → Map V → Option V
  lookup key [] = none
  lookup key ((k, v) ∷ m) = if str_eq k key then some v else lookup key m

  -- m[key] = value
  unfoldable pub insert : String → V → Map V → Map V
  insert key value [] = (key, value) ∷ []
  insert key value ((k, v) ∷ m) =
      if str_eq k key then (k, value) ∷ m else (k, v) ∷ insert key value m

  pub lookup-insert :
      (written sought : String) (value : V) (m : Map V)
      → lookup sought (insert written value m)
        ≡ (if str_eq written sought then some value else lookup sought m)
  unfolding insert lookup
  lookup-insert written sought value [] = refl
  lookup-insert written sought value ((key, old) ∷ rest) = ground (
    lookup-insert written sought value rest,
    eq_iff key sought,
    eq_iff written sought,
    eq_iff key written,
    arith,
  )
