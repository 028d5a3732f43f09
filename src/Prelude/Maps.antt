-- ===== src/Prelude/Maps.antt =====
-- Go maps with string keys, as association lists. Where code depends on the order in which Go walks a
-- map, the order is a parameter of the model.
use mathlib.Core.Path.{◌≡◌, refl}
use mathlib.Core.List.{List, [], ◌∷◌}
use mathlib.Core.Option.{Option, none, some}
use native.Mathlib.Omega.{arith}
use addr_tools.Prelude.Tests.{if◌then◌else◌}
use addr_tools.Prelude.Text.{Bytes, bytes_eq, bytes_eq_iff}

abbrev pub Map {ℓ} : Type ℓ → Type ℓ
Map V = List (Bytes × V)

module _ {ℓ} {V : Type ℓ} where
  -- v, ok := m[k]
  unfoldable pub lookup : Bytes → Map V → Option V
  lookup key [] = none
  lookup key ((j, found) ∷ m) =
      let rest = lookup key m in if bytes_eq j key then some found else rest

  -- delete(m, k)
  unfoldable pub delete : Bytes → Map V → Map V
  delete k [] = []
  delete k ((j, v) ∷ m) = let rest = delete k m in if bytes_eq j k then rest else (j, v) ∷ rest

  -- m[k] = v
  unfoldable pub insert : Bytes → V → Map V → Map V
  insert k new [] = (k, new) ∷ []
  insert k new ((j, old) ∷ m) =
      let rest = insert k new m in if bytes_eq j k then (k, new) ∷ m else (j, old) ∷ rest

  -- No key stands twice.
  abbrev pub Unique : Map V → Type ℓ
  Unique [] = Unit
  Unique ((k, v) ∷ m) = (lookup k m ≡ none) × Unique m

  pub lookup-delete :
      (k j : Bytes) (m : Map V)
      → lookup j (delete k m) ≡ (if bytes_eq k j then none else lookup j m)
  unfolding lookup delete
  lookup-delete k j [] = ground arith
  lookup-delete k j ((i, v) ∷ m) =
      ground (arith, lookup-delete k j m, bytes_eq_iff i k, bytes_eq_iff i j, bytes_eq_iff k j)

  pub lookup-insert :
      (k j : Bytes) (new : V) (m : Map V)
      → lookup j (insert k new m) ≡ (if bytes_eq k j then some new else lookup j m)
  unfolding lookup insert
  lookup-insert k j new [] = refl
  lookup-insert k j new ((i, old) ∷ m) =
      ground (arith, bytes_eq_iff i k, bytes_eq_iff i j, bytes_eq_iff k j, lookup-insert k j new m)

  pub delete-Unique : (k : Bytes) (m : Map V) → Unique m → Unique (delete k m)
  unfolding delete
  delete-Unique k [] u = tt
  delete-Unique k ((j, v) ∷ m) u = ground (arith, delete-Unique k m, lookup-delete k j m)

  pub insert-Unique : (k : Bytes) (v : V) (m : Map V) → Unique m → Unique (insert k v m)
  unfolding insert lookup
  insert-Unique k v [] u = (refl, tt)
  insert-Unique k v ((j, w) ∷ m) u =
      ground (arith, insert-Unique k v m, lookup-insert k j v m, bytes_eq_iff j k, bytes_eq_iff k j)
