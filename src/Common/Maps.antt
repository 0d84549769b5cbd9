-- ===== src/Common/Maps.antt =====
-- Go's `map[string]V` as an association list. The order of the pairs stands for no order: the
-- program's results are read by `lookup`.
use Prim.Native.String.{String}
use mathlib.Core.Path.{◌≡◌, refl}
use mathlib.Core.Option.{Option, none, some}
use mathlib.Core.List.{List, [], ◌∷◌}
use native.Mathlib.Omega.{arith}
use text.Mathlib.Text.{◌==◌}
use text.Mathlib.TextEquality.{eq_iff}
use kubeslice_controller.Common.Tests.{if◌then◌else◌}

abbrev pub Map {ℓ} : Type ℓ → Type ℓ
Map V = List (String × V)

module _ {ℓ} {V : Type ℓ} where
  -- `v, ok := m[key]`
  unfoldable pub lookup : String → Map V → Option V
  lookup key [] = none
  lookup key ((k, v) ∷ m) = if k == key then some v else lookup key m

  -- `m[key] = v`
  unfoldable pub insert : String → V → Map V → Map V
  insert key v [] = (key, v) ∷ []
  insert key v ((k, w) ∷ m) = if k == key then (key, v) ∷ m else (k, w) ∷ insert key v m

  pub lookup-insert :
      (key k : String) (v : V) (m : Map V)
      → lookup k (insert key v m) ≡ (if key == k then some v else lookup k m)
  unfolding lookup insert
  lookup-insert key k v [] = refl
  lookup-insert key k v ((j, w) ∷ m) =
      ground (arith, eq_iff key k, eq_iff j key, eq_iff j k, lookup-insert key k v m)

-- `m[key]` of a map into texts or numbers: the zero value for a missing key.
abbrev pub get_or {ℓ} : {V : Type ℓ} → Option V → V → V
get_or none d = d
get_or (some v) d = v
