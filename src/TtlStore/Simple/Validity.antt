-- ===== src/TtlStore/Simple/Validity.antt =====
-- The invariant of SimpleTtlStore, and that every method keeps it.
use addr_tools.Prelude.{
  Bool-cases, length, length-append, Bytes, bytes_eq, lookup, Unique, delete-Unique, insert-Unique,
  ℕ, ◌+◌, ◌≡◌, inl, inr, Bool, true, false, List, [], ◌∷◌, ◌++◌, arith,
}
use addr_tools.TtlStore.Contract.{expiry}
use addr_tools.TtlStore.Simple.{
  ValueWithExpiration, SimpleTtlStore, entry, add, drop_entry, set, sweep, store_entry, remove,
  delete, prune_loop, prune,
}
use addr_tools.TtlStore.Simple.Sweep.{sweep-kept, sweep_size, sweep_unchanged}
use addr_tools.TtlStore.Simple.Size.{
  total, count_at, NoneEmpty, total-delete, total-insert, delete-NoneEmpty, insert-NoneEmpty,
  count-le-total,
}
use addr_tools.TtlStore.Simple.Pruning.{
  pruned, prune_loop-pruned, prune_loop_size, pruned-Unique, pruned-NoneEmpty,
}

-- Every key stands once and has a value, and `size` counts all values.
pub record IsValid (s : SimpleTtlStore) : Type 0 where
  pub unique : Unique s.m
  pub nonempty : NoneEmpty s.m
  pub counted : s.size ≡ total s.m

module _ (now : ℕ) (key val : Bytes) (ttl : ℕ) where
  pub add-IsValid : {s : SimpleTtlStore} → IsValid s → IsValid (add now key val ttl s).1
  unfolding add entry
  add-IsValid {s} v =
      let rs : List ValueWithExpiration =
        entry key s ++ record { expires = expiry now ttl; value = val } ∷ [] in
      ground (
        arith,
        insert-Unique key rs s.m,
        insert-NoneEmpty key rs s.m,
        total-insert key rs s.m,
        length-append (entry key s) (record { expires = expiry now ttl; value = val } ∷ []),
      )

pub drop_entry-IsValid :
    (key : Bytes) {s : SimpleTtlStore} → IsValid s → IsValid (drop_entry key (lookup key s.m) s)
drop_entry-IsValid key {s} v =
    ground (arith, delete-Unique key s.m, delete-NoneEmpty key s.m, total-delete key s.m)

pub set-IsValid :
    (now : ℕ) (key val : Bytes) (ttl : ℕ) {s : SimpleTtlStore}
    → IsValid s
    → IsValid (set now key val ttl s).1
unfolding set
set-IsValid now key val ttl v = add-IsValid now key val ttl (drop_entry-IsValid key v)

pub delete-IsValid : (key : Bytes) {s : SimpleTtlStore} → IsValid s → IsValid (delete key s).1
unfolding delete
delete-IsValid key {s} v =
    ground (arith, delete-Unique key s.m, delete-NoneEmpty key s.m, total-delete key s.m)

-- What `remove` leaves of the entry is stored, or the key goes.
store_entry-IsValid :
    (key : Bytes) (rs : List ValueWithExpiration) {s : SimpleTtlStore} (size : ℕ) (d : Bool)
    → IsValid s
    → size + count_at (lookup key s.m) ≡ s.size + length rs
    → IsValid (record s { m = store_entry key rs s.m; size = size; dirty = d })
store_entry-IsValid key [] {s} size d v e =
    ground (arith, delete-Unique key s.m, delete-NoneEmpty key s.m, total-delete key s.m)
store_entry-IsValid key (r ∷ rs) {s} size d v e = ground (
  arith,
  insert-Unique key (r ∷ rs) s.m,
  insert-NoneEmpty key (r ∷ rs) s.m,
  total-insert key (r ∷ rs) s.m,
)

length-entry : (key : Bytes) (s : SimpleTtlStore) → length (entry key s) ≡ count_at (lookup key s.m)
unfolding entry
length-entry key s = ground arith

module _ (key val : Bytes) where
  abbrev same : ValueWithExpiration → Bool
  same r = bytes_eq r.value val

  remove_size :
      {s : SimpleTtlStore}
      → IsValid s
      → (sweep same (entry key s) s.size false).1 + count_at (lookup key s.m)
        ≡ s.size + length (sweep same (entry key s) s.size false).0
  remove_size {s} v = ground (
    arith,
    length-entry key s,
    count-le-total key s.m,
    sweep-kept same (entry key s) s.size false,
    sweep_size same (entry key s) s.size false,
  )

  pub remove-IsValid : {s : SimpleTtlStore} → IsValid s → IsValid (remove key val s).1
  unfolding remove
  remove-IsValid {s} v = elim (Bool-cases (sweep same (entry key s) s.size false).2) [
    | inl e ↦ rw e (store_entry-IsValid key _ _ true v (remove_size v))
    | inr e ↦ rw (e, (sweep_unchanged same (entry key s) s.size false e).2) v
  ]

pub prune-IsValid : (now : ℕ) {s : SimpleTtlStore} → IsValid s → IsValid (prune now s)
unfolding prune
prune-IsValid now {s} v =
    let same_map : (prune_loop now s.m s.size s.dirty).0 ≡ pruned now s.m =
      prune_loop-pruned now s.m s.size s.dirty v.nonempty in
    record {
      unique = rw same_map (pruned-Unique now s.m v.unique);
      nonempty = rw same_map (pruned-NoneEmpty now s.m);
      counted = rw same_map (omega (arith, v.counted, prune_loop_size now s.m s.size s.dirty));
    }
