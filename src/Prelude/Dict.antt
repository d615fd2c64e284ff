-- ===== src/Prelude/Dict.antt =====
-- A table with a text key: `INSERT … ON CONFLICT(key) DO UPDATE`, `d[k] = v`, `d.get(k)`, `d.pop(k, None)`.
use text.Mathlib.TextPositions.{eq_refl}
use mathlib.Core.Path.{◌≡◌, refl}
use mathlib.Core.List.{List, [], ◌∷◌}
use mathlib.Core.Option.{Option, none, some}
use Prim.Native.String.{String}
use native.Mathlib.Omega.{arith}
use text.Mathlib.Text.{◌==◌}
use text.Mathlib.TextEquality.{eq_iff}
use testuder.Prelude.Tests.{if◌then◌else◌}

module _ {ℓ} {Row : Type ℓ} where
  unfoldable pub lookup : String → List (String × Row) → Option Row
  lookup key [] = none
  lookup key ((name, row) ∷ rows) = if name == key then some row else lookup key rows

  unfoldable pub insert : String → Row → List (String × Row) → List (String × Row)
  insert key new [] = (key, new) ∷ []
  insert key new ((name, row) ∷ rows) =
      let rest = insert key new rows in
      if name == key then (key, new) ∷ rows else (name, row) ∷ rest

  unfoldable pub remove : String → List (String × Row) → List (String × Row)
  remove key [] = []
  remove key ((name, row) ∷ rows) =
      let rest = remove key rows in if name == key then rest else (name, row) ∷ rest

  pub lookup-insert :
      (key name : String) (new : Row) (rows : List (String × Row))
      → lookup name (insert key new rows) ≡ (if key == name then some new else lookup name rows)
  unfolding insert lookup
  lookup-insert key name new [] = refl
  lookup-insert key name new ((first, row) ∷ rows) =
      ground (
        arith,
        lookup-insert key name new rows,
        eq_iff first name,
        eq_iff first key,
        eq_iff key name,
      )

  pub lookup-remove :
      (key name : String) (rows : List (String × Row))
      → lookup name (remove key rows) ≡ (if key == name then none else lookup name rows)
  unfolding remove lookup
  lookup-remove key name [] = ground arith
  lookup-remove key name ((first, row) ∷ rows) =
      ground
        (arith, lookup-remove key name rows, eq_iff first name, eq_iff first key, eq_iff key name)

  pub lookup-insert_self :
      (key : String) (new : Row) (rows : List (String × Row))
      → lookup key (insert key new rows) ≡ some new
  lookup-insert_self key new rows = simp (eq_refl, lookup-insert)
