-- ===== src/Prelude/Map.antt =====
-- Go's `map[string]T` as an association list; a nil map and an empty one are both `[]`.
-- A loop over a map has no order in Go. Here it runs from the last entry to the first.
use mathlib.Core.Path.{◌≡◌, refl}
use mathlib.Core.Bool.{Bool}
use mathlib.Core.Option.{Option, none, some}
use mathlib.Core.List.{List, [], ◌∷◌}
use Prim.Native.String.{String}
use native.Mathlib.Omega.{arith}
use text.Mathlib.Text.{◌==◌}
use text.Mathlib.TextEquality.{eq_iff}
use clusterbook_operator.Prelude.Tests.{if◌then◌else◌, is_some, elem}

abbrev pub Map {ℓ} : Type ℓ → Type ℓ
Map V = List (String × V)

module _ {ℓ} {V : Type ℓ} where
  -- `v, ok := m[k]`
  unfoldable pub lookup : String → Map V → Option V
  lookup k [] = none
  lookup k ((j, v) ∷ m) = if j == k then some v else lookup k m

  -- `m[k] = v`
  unfoldable pub insert : String → V → Map V → Map V
  insert k v [] = (k, v) ∷ []
  insert k v ((j, w) ∷ m) = if j == k then (k, v) ∷ m else (j, w) ∷ insert k v m

  -- `delete(m, k)`
  unfoldable pub erase : String → Map V → Map V
  erase k [] = []
  erase k ((j, v) ∷ m) = let rest = erase k m in if j == k then rest else (j, v) ∷ rest

  unfoldable pub keys : Map V → List String
  keys [] = []
  keys ((j, v) ∷ m) = j ∷ keys m

  -- `for k, v := range new { m[k] = v }`
  unfoldable pub merge : Map V → Map V → Map V
  merge m [] = m
  merge m ((k, v) ∷ new) = insert k v (merge m new)

  -- `for k, v := range new { if _, ok := m[k]; !ok { m[k] = v } }`
  unfoldable pub merge_missing : Map V → Map V → Map V
  merge_missing m [] = m
  merge_missing m ((k, v) ∷ new) =
      let rest = merge_missing m new in if is_some (lookup k m) then rest else insert k v rest

  -- `for k := range m { if test(k) { delete(m, k) } }`
  unfoldable pub erase_where : (String → Bool) → Map V → Map V
  erase_where test [] = []
  erase_where test ((j, v) ∷ m) =
      let rest = erase_where test m in if test j then rest else (j, v) ∷ rest

  -- `for _, k := range ks { delete(m, k) }`
  unfoldable pub erase_all : List String → Map V → Map V
  erase_all [] m = m
  erase_all (k ∷ ks) m = erase_all ks (erase k m)

  abbrev pub or_else : Option V → Option V → Option V
  or_else (some v) o = some v
  or_else none o = o

  pub lookup-insert :
      (j k : String) (v : V) (m : Map V)
      → lookup j (insert k v m) ≡ (if k == j then some v else lookup j m)
  unfolding lookup insert
  lookup-insert j k v [] = refl
  lookup-insert j k v ((i, w) ∷ m) =
      ground (arith, eq_iff k j, eq_iff i k, eq_iff i j, lookup-insert j k v m)

  pub lookup-erase :
      (j k : String) (m : Map V) → lookup j (erase k m) ≡ (if k == j then none else lookup j m)
  unfolding lookup erase
  lookup-erase j k [] = ground arith
  lookup-erase j k ((i, w) ∷ m) =
      ground (arith, eq_iff k j, eq_iff i k, eq_iff i j, lookup-erase j k m)

  pub lookup-merge :
      (j : String) (m new : Map V) → lookup j (merge m new) ≡ or_else (lookup j new) (lookup j m)
  unfolding lookup merge
  lookup-merge j m [] = refl
  lookup-merge j m ((k, v) ∷ new) =
      ground (arith, lookup-insert j k v (merge m new), lookup-merge j m new)

  pub lookup-merge_missing :
      (j : String) (m new : Map V)
      → lookup j (merge_missing m new) ≡ or_else (lookup j m) (lookup j new)
  unfolding lookup merge_missing
  lookup-merge_missing j m [] = ground arith
  lookup-merge_missing j m ((k, v) ∷ new) =
      ground
        (arith, eq_iff k j, lookup-insert j k v (merge_missing m new), lookup-merge_missing j m new)

  pub lookup-erase_where :
      (j : String) (test : String → Bool) (m : Map V)
      → lookup j (erase_where test m) ≡ (if test j then none else lookup j m)
  unfolding lookup erase_where
  lookup-erase_where j test [] = ground arith
  lookup-erase_where j test ((i, w) ∷ m) = ground (arith, eq_iff i j, lookup-erase_where j test m)

  pub lookup-erase_all :
      (j : String) (ks : List String) (m : Map V)
      → lookup j (erase_all ks m) ≡ (if elem j ks then none else lookup j m)
  unfolding erase_all elem
  lookup-erase_all j [] m = refl
  lookup-erase_all j (k ∷ ks) m =
      ground (arith, lookup-erase_all j ks (erase k m), lookup-erase j k m)

  -- A key is listed exactly when it has a value.
  pub elem-keys : (j : String) (m : Map V) → elem j (keys m) ≡ is_some (lookup j m)
  unfolding elem keys lookup
  elem-keys j [] = refl
  elem-keys j ((i, v) ∷ m) = ground (arith, elem-keys j m)
