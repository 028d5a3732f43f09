-- ===== src/TtlStore/Simple/Limit.antt =====
-- When Set fails, and what it leaves.
use addr_tools.Prelude.{
  Option-cases, length, Bytes, bytes_eq_refl, Map, lookup, lookup-delete, ℕ, ◌+◌, ◌-◌, ◌≤◌, ◌<◌,
  ◌≡◌, inl, inr, none, some, List, [], ◌∷◌, arith,
}
use addr_tools.TtlStore.Simple.{
  ValueWithExpiration, SimpleTtlStore, Error, at_max_size, entry, add, set,
}
use addr_tools.TtlStore.Simple.Size.{NoneEmpty, count-le-total}
use addr_tools.TtlStore.Simple.Validity.{IsValid}
use addr_tools.TtlStore.Simple.Runs.{IsBounded}

count_pos :
    (k : Bytes) (m : Map (List ValueWithExpiration))
    → NoneEmpty m
    → (rs : List ValueWithExpiration) → lookup k m ≡ some rs
    → 1 ≤ length rs
unfolding lookup
count_pos k [] n rs e = cc
count_pos k ((j, ws) ∷ m) n rs e = ground (arith, count_pos k m n.1 rs)

-- In a valid store within its limit, a Set that fails found the store full and the key absent, and
-- leaves the store as it was.
pub set_error :
    (now ttl : ℕ) (k v : Bytes) (s s' : SimpleTtlStore) (e : Error)
    → IsValid s
    → IsBounded s
    → set now k v ttl s ≡ (some e, s')
    → (lookup k s.m ≡ none) × (s.size ≡ s.max_size) × (s' ≡ s)
unfolding set add
set_error now ttl k v s s' e valid bound h = elim (Option-cases (lookup k s.m)) [
  | inl absent ↦ (absent, ground (arith, absent), ground (arith, absent))
  | inr (rs, found) ↦
      absurd (ground (arith, found, count_pos k s.m valid.nonempty rs found, count-le-total k s.m))
]

-- On a store so far over its positive limit that it stays full without the values of a key that
-- it holds, a Set of this key fails, and the values of the key are lost while the dirty flag
-- stays as it was.
pub set_over_limit :
    (now ttl : ℕ) (k v : Bytes) (s : SimpleTtlStore) (rs : List ValueWithExpiration)
    → lookup k s.m ≡ some rs
    → 0 < s.max_size
    → s.max_size + length rs ≤ s.size
    → ((e : Error) × ((set now k v ttl s).0 ≡ some e))
      × (entry k (set now k v ttl s).1 ≡ [])
      × ((set now k v ttl s).1.dirty ≡ s.dirty)
unfolding set add entry
set_over_limit now ttl k v s rs found pos over = (
  (at_max_size (s.size - length rs), ground (arith, found)),
  ground (arith, found, lookup-delete k k s.m, bytes_eq_refl k),
  ground (arith, found),
)
