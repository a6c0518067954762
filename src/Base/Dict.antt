-- ===== src/Base/Dict.antt =====
-- Go's `map[string]V`: an association list in which a key is written in place, or at the end.
use Prim.Native.String.{String}
use mathlib.Core.Path.{◌≡◌, refl}
use mathlib.Core.Bool.{Bool, false, ◌||◌}
use mathlib.Core.Option.{Option, none, some}
use mathlib.Core.List.{List, [], ◌∷◌}
use native.Mathlib.Omega.{arith}
use text.Mathlib.Text.{◌==◌}
use text.Mathlib.TextEquality.{eq_iff}
use askio_agent.Base.Tests.{if◌then◌else◌}

module _ {ℓ} {V : Type ℓ} where
  unfoldable pub lookup : String → List (String × V) → Option V
  lookup key [] = none
  lookup key ((name, value) ∷ entries) = if name == key then some value else lookup key entries

  -- A write keeps the place of an entry that is there.
  unfoldable pub insert : String → V → List (String × V) → List (String × V)
  insert key value [] = (key, value) ∷ []
  insert key value ((name, old) ∷ entries) =
      if name == key then (key, value) ∷ entries else (name, old) ∷ insert key value entries

  -- `delete(m, k)`.
  unfoldable pub remove : String → List (String × V) → List (String × V)
  remove k [] = []
  remove k ((j, w) ∷ m) = if j == k then remove k m else (j, w) ∷ remove k m

  -- A `range` loop that looks for an entry: the order of the entries does not matter.
  unfoldable pub any_entry : (String → V → Bool) → List (String × V) → Bool
  any_entry p [] = false
  any_entry p ((k, v) ∷ m) = p k v || any_entry p m

  pub lookup-insert :
      (key wanted : String) (value : V) (entries : List (String × V))
      → lookup wanted (insert key value entries)
        ≡ (if key == wanted then some value else lookup wanted entries)
  unfolding insert lookup
  lookup-insert key wanted value [] = refl
  lookup-insert key wanted value ((name, old) ∷ entries) = ground (
    arith,
    eq_iff name key,
    eq_iff name wanted,
    eq_iff key wanted,
    lookup-insert key wanted value entries,
  )

  pub lookup-remove :
      (k j : String) (m : List (String × V))
      → lookup j (remove k m) ≡ (if k == j then none else lookup j m)
  unfolding lookup remove
  lookup-remove k j [] = ground arith
  lookup-remove k j ((i, w) ∷ m) =
      ground (arith, eq_iff k j, eq_iff i k, eq_iff i j, lookup-remove k j m)

  -- An entry that can be looked up is among those that the loop visits.
  pub any_entry-lookup :
      (p : String → V → Bool) (k : String) (v : V) (m : List (String × V))
      → any_entry p m ≡ false
      → lookup k m ≡ some v
      → p k v ≡ false
  unfolding lookup any_entry
  any_entry-lookup p k v [] h e = ground arith
  any_entry-lookup p k v ((j, w) ∷ m) h e = ground (arith, eq_iff j k, any_entry-lookup p k v m)
