-- ===== src/Tests/Stores.antt =====
-- The stores on concrete keys and values.
use addr_tools.Prelude.{
  bytes, bytes_eq, has_prefix, Map, lookup, Unique, ok, ℕ, ◌≡◌, refl, inl, true, false, none, some,
  List, [], ◌∷◌, arith,
}
use addr_tools.TtlStore.Contract.{IsLawful}
use addr_tools.TtlStore.Simple.{
  ValueWithExpiration, SimpleTtlStore, Error, at_max_size, entry, add, set, list_keys, prune,
  simple,
}
use addr_tools.TtlStore.Simple.Size.{NoneEmpty}
use addr_tools.TtlStore.Simple.Validity.{IsValid}
use addr_tools.TtlStore.Simple.Runs.{
  Call, add_call, set_call, remove_call, delete_call, prune_call, run, run-IsValid,
}
use addr_tools.TtlStore.Simple.Limit.{set_over_limit}
use addr_tools.TtlStore.Simple.Lawful.{simple-IsLawful}
use addr_tools.TtlStore.Simple.Pruning.{values-prune}
use addr_tools.TtlStore.Prefixed.{prefixed, prefixed-IsLawful, prefixed_apart}

abbrev value_at : ℕ → ℕ → ValueWithExpiration
value_at e c = record { expires = e; value = c ∷ [] }

-- Two keys, one of them with a value that has expired at the time 10.
abbrev two_keys : Map (List ValueWithExpiration)
two_keys = (bytes "a", value_at 5 1 ∷ value_at 50 2 ∷ []) ∷ (bytes "b", value_at 30 3 ∷ []) ∷ []

abbrev pub store : SimpleTtlStore
store = record { max_size = 4; m = two_keys; size = 3; dirty = true }

store-Unique : Unique two_keys
unfolding lookup bytes_eq
store-Unique = (refl, (refl, tt))

store-NoneEmpty : NoneEmpty two_keys
store-NoneEmpty = (omega arith, (omega arith, tt))

pub store-IsValid : IsValid store
store-IsValid = record { unique = store-Unique; nonempty = store-NoneEmpty; counted = refl }

abbrev pub calls : List Call
calls =
    add_call 10 (bytes "b") (bytes "x") 60
    ∷ remove_call (bytes "a") (1 ∷ [])
    ∷ prune_call 40
    ∷ set_call 41 (bytes "c") (bytes "y") 5
    ∷ delete_call (bytes "a")
    ∷ []

run-IsValid_example : IsValid (run calls store)
run-IsValid_example = run-IsValid calls store-IsValid

abbrev full : SimpleTtlStore
full = record store { max_size = 3 }

full-IsValid : IsValid full
full-IsValid = record { unique = store-Unique; nonempty = store-NoneEmpty; counted = refl }

full_refuses : set 10 (bytes "c") (bytes "x") 5 full ≡ (some (at_max_size 3), full)
unfolding set lookup bytes_eq
full_refuses = refl

abbrev overfull : SimpleTtlStore
overfull = record store { max_size = 1; dirty = false }

found_a : lookup (bytes "a") two_keys ≡ some (value_at 5 1 ∷ value_at 50 2 ∷ [])
unfolding lookup bytes_eq
found_a = refl

set_over_limit_example :
    ((e : Error) × ((set 10 (bytes "a") (bytes "x") 5 overfull).0 ≡ some e))
    × (entry (bytes "a") (set 10 (bytes "a") (bytes "x") 5 overfull).1 ≡ [])
    × ((set 10 (bytes "a") (bytes "x") 5 overfull).1.dirty ≡ overfull.dirty)
set_over_limit_example =
    set_over_limit 10 5 (bytes "a") (bytes "x") overfull (value_at 5 1 ∷ value_at 50 2 ∷ []) found_a
      (omega arith) (omega arith)

values-prune_example :
    simple.values 20 (bytes "a") (prune 10 store) ≡ simple.values 20 (bytes "a") store
values-prune_example =
    values-prune 10 20 (bytes "a") store store-Unique store-NoneEmpty (omega arith)

prefixed-IsLawful_example : IsLawful (prefixed (bytes "dyn:") simple)
prefixed-IsLawful_example = prefixed-IsLawful (bytes "dyn:") simple simple-IsLawful

added_apart :
    (prefixed (bytes "x:") simple).add 10 (bytes "a") (bytes "v") 5 store
    ≡ (none, (add 10 (bytes "x:a") (bytes "v") 5 store).1)
unfolding add
added_apart = refl

prefixed_apart_example :
    (prefixed (bytes "y:") simple).values 12
      (bytes "a")
      (add 10 (bytes "x:a") (bytes "v") 5 store).1
    ≡ (prefixed (bytes "y:") simple).values 12 (bytes "a") store
prefixed_apart_example =
    prefixed_apart (bytes "x:") (bytes "y:") simple simple-IsLawful
      (unfold has_prefix in (refl, refl)) 12 10 5 (bytes "a") (bytes "a") (bytes "v") store
      (add 10 (bytes "x:a") (bytes "v") 5 store).1 (inl added_apart)

listed : (prefixed (bytes "a") simple).list [] store ≡ ok ([] ∷ [])
unfolding list_keys has_prefix
listed = refl
