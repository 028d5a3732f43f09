-- ===== src/TtlStore/Simple.antt =====
-- SimpleTtlStore, internal/ttlstore/simple.go. Each method is a function of the store; a method that
-- reads the clock takes the reading. The lock makes each method one step, so it is not modelled.
--
-- A nil map is the empty map, and `max_size` 0 stands for any MaxSize that is not positive. A
-- map entry that holds a nil slice, which no method writes, is not represented.
pub mod Sweep
pub mod Size
pub mod Validity
pub mod Runs
pub mod Limit
pub mod Files
pub mod Reload
pub mod Lawful
pub mod Pruning
use addr_tools.Prelude.{
  ℕ, ◌+◌, ◌-◌, Bytes, Option, none, some, List, [], ◌∷◌, ◌++◌, Bool, true, false, ◌&&◌, ◌||◌,
  Result, ok, Map, lookup, insert, delete as delete_key, bytes_eq, has_prefix, if◌then◌else◌, ltb,
  leb, ◌==◌, length,
}
use addr_tools.TtlStore.Contract.{TtlStore, expiry}

pub record ValueWithExpiration : Type 0 where
  pub expires : ℕ
  pub value : Bytes

pub record SimpleTtlStore : Type 0 where
  pub max_size : ℕ
  pub m : Map (List ValueWithExpiration)
  pub size : ℕ
  pub dirty : Bool

-- fmt.Errorf("at max size (%v)", s.size)
pub data Error : Type 0 where
  at_max_size : ℕ → Error

abbrev pub or_nil : Option (List ValueWithExpiration) → List ValueWithExpiration
or_nil none = []
or_nil (some rs) = rs

-- s.m[key]
unfoldable pub entry : Bytes → SimpleTtlStore → List ValueWithExpiration
entry key s = or_nil (lookup key s.m)

unfoldable pub add : ℕ → Bytes → Bytes → ℕ → SimpleTtlStore → Option Error × SimpleTtlStore
add now key val ttl s =
    if ltb 0 s.max_size && leb s.max_size s.size then (some (at_max_size s.size), s) else (
      none,
      record s {
        m = insert key (entry key s ++ record { expires = expiry now ttl; value = val } ∷ []) s.m;
        size = s.size + 1;
        dirty = true;
      },
    )

-- if s.m[key] != nil { s.size -= len(s.m[key]); delete(s.m, key) }
abbrev pub drop_entry : Bytes → Option (List ValueWithExpiration) → SimpleTtlStore → SimpleTtlStore
drop_entry key none s = s
drop_entry key (some rs) s = record s { m = delete_key key s.m; size = s.size - length rs }

unfoldable pub set : ℕ → Bytes → Bytes → ℕ → SimpleTtlStore → Option Error × SimpleTtlStore
unfolding add
set now key val ttl s = add now key val ttl (drop_entry key (lookup key s.m) s)

unfoldable pub list_keys : Bytes → Map (List ValueWithExpiration) → List Bytes
list_keys prefix [] = []
list_keys prefix ((key, rs) ∷ m) =
    let rest = list_keys prefix m in if has_prefix key prefix then key ∷ rest else rest

unfoldable pub exists_loop : ℕ → List ValueWithExpiration → Bool
exists_loop now [] = false
exists_loop now (r ∷ rs) = let rest = exists_loop now rs in if ltb now r.expires then true else rest

unfoldable pub values_loop : ℕ → List ValueWithExpiration → List Bytes
values_loop now [] = []
values_loop now (r ∷ rs) =
    let rest = values_loop now rs in if ltb now r.expires then r.value ∷ rest else rest

unfoldable pub get_loop : ℕ → List ValueWithExpiration → Option Bytes
get_loop now [] = none
get_loop now (r ∷ rs) =
    let rest = get_loop now rs in if ltb now r.expires then some r.value else rest

-- The loop that Remove and Prune share: it deletes the elements that pass a test, counts them off the
-- size, and notes that it deleted one. The elements that it has passed stay in front.
unfoldable pub sweep :
    (ValueWithExpiration → Bool)
    → List ValueWithExpiration
    → ℕ
    → Bool
    → List ValueWithExpiration × ℕ × Bool
sweep test [] size removed = ([], size, removed)
sweep test (r ∷ rs) size removed =
    let hit = test r in
    let (rest, size', removed') =
      sweep test rs (if hit then size - 1 else size) (if hit then true else removed) in
    (if hit then rest else r ∷ rest, size', removed')

-- if len(rs) == 0 { delete(s.m, key) } else { s.m[key] = rs }
abbrev pub store_entry :
    Bytes
    → List ValueWithExpiration
    → Map (List ValueWithExpiration)
    → Map (List ValueWithExpiration)
store_entry key [] m = delete_key key m
store_entry key (r ∷ rs) m = insert key (r ∷ rs) m

unfoldable pub remove : Bytes → Bytes → SimpleTtlStore → Option Error × SimpleTtlStore
unfolding sweep
remove key val s =
    let (rs, size, removed) = sweep (λ r. bytes_eq r.value val) (entry key s) s.size false in
    if removed
    then (none, record s { m = store_entry key rs s.m; size = size; dirty = true })
    else (none, record s { size = size })

abbrev pub mark_dirty : Option (List ValueWithExpiration) → SimpleTtlStore → SimpleTtlStore
mark_dirty none s = s
mark_dirty (some rs) s = record s { dirty = true }

unfoldable pub delete : Bytes → SimpleTtlStore → Option Error × SimpleTtlStore
delete key s = (none, mark_dirty (lookup key s.m) (drop_entry key (lookup key s.m) s))

-- The body of Prune's loop over the map: the entry with its expired values deleted, or nothing.
unfoldable pub prune_entry :
    Bytes
    → List ValueWithExpiration
    → Bool
    → Map (List ValueWithExpiration)
    → Map (List ValueWithExpiration)
prune_entry key [] pruned m = if pruned then m else (key, []) ∷ m
prune_entry key (r ∷ rs) pruned m = (key, r ∷ rs) ∷ m

unfoldable pub prune_loop :
    ℕ → Map (List ValueWithExpiration) → ℕ → Bool → Map (List ValueWithExpiration) × ℕ × Bool
unfolding sweep prune_entry
prune_loop now [] size dirty = ([], size, dirty)
prune_loop now ((key, rs) ∷ m) size dirty =
    let (rs', size', pruned) = sweep (λ r. leb r.expires now) rs size false in
    let (m', size'', dirty') = prune_loop now m size' (pruned || dirty) in
    (prune_entry key rs' pruned m', size'', dirty')

unfoldable pub prune : ℕ → SimpleTtlStore → SimpleTtlStore
unfolding prune_loop
prune now s =
    let (m, size, dirty) = prune_loop now s.m s.size s.dirty in
    record s { m = m; size = size; dirty = dirty }

-- SimpleTtlStore as a TtlStore.
abbrev pub simple : TtlStore SimpleTtlStore Error
simple = record {
  add = add;
  set = set;
  list = λ prefix s. ok (list_keys prefix s.m);
  has = λ now key s. ok (exists_loop now (entry key s));
  values = λ now key s. ok (values_loop now (entry key s));
  get = λ now key s. ok (get_loop now (entry key s));
  remove = remove;
  delete = delete;
}
