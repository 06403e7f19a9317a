-- ===== src/Prelude/Dict.antt =====
-- A HashMap with text keys, as an association list whose keys stand once. The program never
-- depends on the order of entries.
use Prim.Native.String.{String}
use mathlib.Core.Path.{◌≡◌, refl}
use mathlib.Core.List.{List, [], ◌∷◌}
use mathlib.Core.Option.{Option, none, some}
use native.Mathlib.Omega.{arith}
use text.Mathlib.Text.{◌==◌}
use text.Mathlib.TextEquality.{eq_iff}
use dtcoder_test.Prelude.Tests.{if◌then◌else◌}

module _ {ℓ} {V : Type ℓ} where
  -- `get`
  unfoldable pub lookup : (key : String) (entries : List (String × V)) → Option V
  lookup key [] = none
  lookup key ((first, value) ∷ rest) = if first == key then some value else lookup key rest

  -- `insert`: the new value stands where the old one stood, or at the end.
  unfoldable pub insert : (key : String) (new : V) (entries : List (String × V)) → List (String × V)
  insert key new [] = (key, new) ∷ []
  insert key new ((first, value) ∷ rest) =
      let others = insert key new rest in
      if first == key then (key, new) ∷ rest else (first, value) ∷ others

  pub lookup-insert :
      (key other : String) (new : V) (entries : List (String × V))
      → lookup other (insert key new entries)
        ≡ (if key == other then some new else lookup other entries)
  unfolding lookup insert
  lookup-insert key other new [] = refl
  lookup-insert key other new ((first, value) ∷ rest) =
      let before = lookup-insert key other new rest in
      ground (arith, before, eq_iff first key, eq_iff first other, eq_iff key other)
