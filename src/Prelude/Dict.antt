-- ===== src/Prelude/Dict.antt =====
-- Python's `dict` with string keys, as an association list; its order is not modelled.
use Prim.Native.String.{String}
use mathlib.Core.Path.{◌≡◌}
use mathlib.Core.Bool.{Bool, false}
use mathlib.Core.Option.{Option, none, some}
use mathlib.Core.List.{List, [], ◌∷◌}
use native.Mathlib.Omega.{arith}
use text.Mathlib.Text.{◌==◌}
use text.Mathlib.TextEquality.{eq_iff}
use rxin_dexer.Prelude.Tests.{if◌then◌else◌}

abbrev pub Dict : Type 0 → Type 0
Dict V = List (String × V)

module _ {V : Type 0} where
  -- `d.get(key)`
  unfoldable pub lookup : String → Dict V → Option V
  lookup key [] = none
  lookup key ((first, value) ∷ rest) = if key == first then some value else lookup key rest

  -- `d[key] = value`
  unfoldable pub insert : String → V → Dict V → Dict V
  insert key value [] = (key, value) ∷ []
  insert key value ((first, old) ∷ rest) =
      let below = insert key value rest in
      if key == first then (first, value) ∷ rest else (first, old) ∷ below

  -- The entries whose value fails a test.
  unfoldable pub remove_if : (V → Bool) → Dict V → Dict V
  remove_if test [] = []
  remove_if test ((first, value) ∷ rest) =
      let below = remove_if test rest in if test value then below else (first, value) ∷ below

  pub lookup-insert :
      (key other : String) (value : V) (d : Dict V)
      → lookup other (insert key value d) ≡ (if key == other then some value else lookup other d)
  unfolding lookup insert
  lookup-insert key other value [] = ground (arith, eq_iff key other, eq_iff other key)
  lookup-insert key other value ((first, old) ∷ rest) = ground (
    arith,
    eq_iff other key,
    eq_iff key other,
    eq_iff key first,
    eq_iff other first,
    lookup-insert key other value rest,
  )

  -- An entry that is found and fails the test is kept.
  pub lookup-remove_if :
      (test : V → Bool) (key : String) (value : V) (d : Dict V)
      → lookup key d ≡ some value
      → test value ≡ false
      → lookup key (remove_if test d) ≡ some value
  unfolding lookup remove_if
  lookup-remove_if test key value [] found keep = found
  lookup-remove_if test key value ((first, old) ∷ rest) found keep =
      ground (arith, lookup-remove_if test key value rest)
