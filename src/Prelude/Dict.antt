-- ===== src/Prelude/Dict.antt =====
-- Go's maps with string keys, as association lists. Iteration order is never relied upon.
use Prim.Native.String.{String}
use mathlib.Core.Path.{◌≡◌}
use mathlib.Core.Option.{Option, none, some}
use mathlib.Core.List.{List, [], ◌∷◌}
use native.Mathlib.Omega.{arith}
use text.Mathlib.Text.{◌==◌}
use text.Mathlib.TextEquality.{eq_iff}
use skype7_reborn.Prelude.Core.{if◌then◌else◌}

module _ {ℓ} {Value : Type ℓ} where
  -- m[key]
  unfoldable pub lookup : String → List (String × Value) → Option Value
  lookup key [] = none
  lookup key (entry ∷ more) = if entry.0 == key then some entry.1 else lookup key more

  -- delete(m, key)
  unfoldable pub erase : String → List (String × Value) → List (String × Value)
  erase key [] = []
  erase key (entry ∷ more) =
      let kept = erase key more in if entry.0 == key then kept else entry ∷ kept

  -- m[key] = value
  unfoldable pub insert : String → Value → List (String × Value) → List (String × Value)
  unfolding erase
  insert key value entries = (key, value) ∷ erase key entries

  pub lookup-erase :
      (gone key : String) (entries : List (String × Value))
      → lookup key (erase gone entries) ≡ (if gone == key then none else lookup key entries)
  unfolding lookup erase
  lookup-erase gone key [] = ground arith
  lookup-erase gone key (entry ∷ more) =
      ground (
        arith,
        lookup-erase gone key more,
        eq_iff gone key,
        eq_iff entry.0 gone,
        eq_iff entry.0 key,
      )

  pub lookup-insert :
      (new key : String) (value : Value) (entries : List (String × Value))
      → lookup key (insert new value entries)
        ≡ (if new == key then some value else lookup key entries)
  unfolding lookup insert
  lookup-insert new key value entries = ground (arith, lookup-erase new key entries)
