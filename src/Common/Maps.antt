-- ===== src/Common/Maps.antt =====
-- Go maps with string keys, as association lists. A list holds its pairs in the order in which one
-- run of a `range` loop meets them, which Go leaves open.
use Prim.Native.String.{String}
use mathlib.Core.Path.{◌≡◌, refl}
use mathlib.Core.Bool.{Bool, true, false}
use mathlib.Core.Option.{Option, none, some}
use mathlib.Core.List.{List, [], ◌∷◌}
use native.Mathlib.Omega.{arith}
use text.Mathlib.Text.{◌==◌}
use text.Mathlib.TextEquality.{eq_iff}
use tanugate.Common.Tests.{if◌then◌else◌}

-- `slices.Contains`, and a `map[string]bool` read as a set.
unfoldable pub contains : String → List String → Bool
contains wanted [] = false
contains wanted (held ∷ others) = if held == wanted then true else contains wanted others

module _ {κ} {Value : Type κ} where
  -- `value, ok := m[key]`.
  unfoldable pub lookup : String → List (String × Value) → Option Value
  lookup wanted [] = none
  lookup wanted ((key, value) ∷ others) = if key == wanted then some value else lookup wanted others

  -- `delete(m, key)`.
  unfoldable pub delete : String → List (String × Value) → List (String × Value)
  delete key [] = []
  delete key ((held, value) ∷ others) =
      let rest = delete key others in if held == key then rest else (held, value) ∷ rest

  -- `m[key] = value`.
  unfoldable pub insert : String → Value → List (String × Value) → List (String × Value)
  insert key value [] = (key, value) ∷ []
  insert key value ((held, old) ∷ others) =
      let rest = insert key value others in
      if held == key then (key, value) ∷ others else (held, old) ∷ rest

  pub lookup-delete :
      (key wanted : String) (m : List (String × Value))
      → lookup wanted (delete key m) ≡ (if key == wanted then none else lookup wanted m)
  unfolding delete lookup
  lookup-delete key wanted [] = ground arith
  lookup-delete key wanted ((held, _) ∷ others) =
      let ih = lookup-delete key wanted others in
      ground (arith, ih, eq_iff held wanted, eq_iff key wanted, eq_iff held key)

  pub lookup-insert :
      (key wanted : String) (value : Value) (m : List (String × Value))
      → lookup wanted (insert key value m) ≡ (if key == wanted then some value else lookup wanted m)
  unfolding insert lookup
  lookup-insert key wanted value [] = refl
  lookup-insert key wanted value ((held, _) ∷ others) =
      let ih = lookup-insert key wanted value others in
      ground (arith, ih, eq_iff held wanted, eq_iff key wanted, eq_iff held key)
