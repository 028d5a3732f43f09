-- ===== src/TtlStore/Simple/Size.antt =====
-- The number of values that a map of the store holds, under insertion and deletion of a key.
use addr_tools.Prelude.{
  ℕ, ◌+◌, ◌≤◌, ◌≡◌, refl, arith, List, [], ◌∷◌, Option, none, some, Map, lookup, insert, delete,
  Unique, bytes_eq_iff, length, Bytes,
}

module _ {V : Type 0} where
  -- The sum of len(rs) over the map.
  abbrev pub total : Map (List V) → ℕ
  total [] = 0
  total ((k, rs) ∷ m) = length rs + total m

  abbrev pub count_at : Option (List V) → ℕ
  count_at none = 0
  count_at (some rs) = length rs

  abbrev pub NoneEmpty : Map (List V) → Type 0
  NoneEmpty [] = Unit
  NoneEmpty ((k, rs) ∷ m) = (1 ≤ length rs) × NoneEmpty m

  delete_absent : (k : Bytes) (m : Map (List V)) → lookup k m ≡ none → delete k m ≡ m
  unfolding lookup delete
  delete_absent k [] h = refl
  delete_absent k ((j, rs) ∷ m) h = ground (arith, delete_absent k m)

  pub total-delete :
      (k : Bytes) (m : Map (List V))
      → Unique m
      → total (delete k m) + count_at (lookup k m) ≡ total m
  unfolding lookup delete
  total-delete k [] u = refl
  total-delete k ((j, rs) ∷ m) u =
      ground (arith, total-delete k m, bytes_eq_iff j k, delete_absent j m)

  pub total-insert :
      (k : Bytes) (rs : List V) (m : Map (List V))
      → total (insert k rs m) + count_at (lookup k m) ≡ total m + length rs
  unfolding lookup insert
  total-insert k rs [] = omega arith
  total-insert k rs ((j, ws) ∷ m) = ground (arith, total-insert k rs m)

  pub delete-NoneEmpty : (k : Bytes) (m : Map (List V)) → NoneEmpty m → NoneEmpty (delete k m)
  unfolding delete
  delete-NoneEmpty k [] h = tt
  delete-NoneEmpty k ((j, rs) ∷ m) h = ground (arith, delete-NoneEmpty k m)

  pub insert-NoneEmpty :
      (k : Bytes) (rs : List V) (m : Map (List V))
      → 1 ≤ length rs
      → NoneEmpty m
      → NoneEmpty (insert k rs m)
  unfolding insert
  insert-NoneEmpty k rs [] p h = (p, tt)
  insert-NoneEmpty k rs ((j, ws) ∷ m) p h = ground (arith, insert-NoneEmpty k rs m)

  pub count-le-total : (k : Bytes) (m : Map (List V)) → count_at (lookup k m) ≤ total m
  unfolding lookup
  count-le-total k [] = omega arith
  count-le-total k ((j, rs) ∷ m) = ground (arith, count-le-total k m)
