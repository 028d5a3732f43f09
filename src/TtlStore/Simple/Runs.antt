-- ===== src/TtlStore/Simple/Runs.antt =====
-- Any sequence of calls of Add, Set, Remove, Delete and Prune, the clock read anew by each: what holds of
-- the store throughout.
use addr_tools.Prelude.{
  leb, if◌then◌else◌, Bytes, bytes_eq, Map, ℕ, ◌-◌, ◌≤◌, ◌≡◌, refl, ◌∙◌, ◌≢◌, Bool, true, false,
  ◌||◌, List, [], ◌∷◌, arith,
}
use addr_tools.TtlStore.Simple.{
  ValueWithExpiration, SimpleTtlStore, entry, add, set, sweep, remove, delete, prune_loop, prune,
}
use addr_tools.TtlStore.Simple.Validity.{
  IsValid, add-IsValid, set-IsValid, delete-IsValid, remove-IsValid, prune-IsValid,
}

-- One call of Add, Set, Remove, Delete or Prune. LoadFile, which replaces the whole map, is not among
-- them; TtlStore.Simple.Files models it.
pub data Call : Type 0 where
  add_call set_call : ℕ → Bytes → Bytes → ℕ → Call
  remove_call : Bytes → Bytes → Call
  delete_call : Bytes → Call
  prune_call : ℕ → Call

unfoldable pub call : Call → SimpleTtlStore → SimpleTtlStore
call (add_call now key val ttl) s = (add now key val ttl s).1
call (set_call now key val ttl) s = (set now key val ttl s).1
call (remove_call key val) s = (remove key val s).1
call (delete_call key) s = (delete key s).1
call (prune_call now) s = prune now s

unfoldable pub run : List Call → SimpleTtlStore → SimpleTtlStore
unfolding call
run [] s = s
run (c ∷ cs) s = run cs (call c s)

pub call-IsValid : (c : Call) {s : SimpleTtlStore} → IsValid s → IsValid (call c s)
unfolding call
call-IsValid (add_call now key val ttl) v = add-IsValid now key val ttl v
call-IsValid (set_call now key val ttl) v = set-IsValid now key val ttl v
call-IsValid (remove_call key val) v = remove-IsValid key val v
call-IsValid (delete_call key) v = delete-IsValid key v
call-IsValid (prune_call now) v = prune-IsValid now v

-- Whatever calls of Add, Set, Remove, Delete and Prune are made on a valid store, the keys stay
-- distinct, no key is left without a value, and `size` stays the number of stored values.
pub run-IsValid : (cs : List Call) {s : SimpleTtlStore} → IsValid s → IsValid (run cs s)
unfolding run
run-IsValid [] v = v
run-IsValid (c ∷ cs) v = run-IsValid cs (call-IsValid c v)

-- The number of values never passes a positive MaxSize.
abbrev pub IsBounded : SimpleTtlStore → Type 0
IsBounded s = (s.max_size ≢ 0) → s.size ≤ s.max_size

sweep-le :
    (test : ValueWithExpiration → Bool) (rs : List ValueWithExpiration) (size : ℕ) (removed : Bool)
    → (sweep test rs size removed).1 ≤ size
unfolding sweep
sweep-le test [] size removed = omega arith
sweep-le test (r ∷ rs) size removed =
    ground (
      arith,
      sweep-le test rs (if test r then size - 1 else size) (if test r then true else removed),
    )

prune_loop-le :
    (now : ℕ) (m : Map (List ValueWithExpiration)) (size : ℕ) (dirty : Bool)
    → (prune_loop now m size dirty).1 ≤ size
unfolding prune_loop
prune_loop-le now [] size dirty = omega arith
prune_loop-le now ((key, rs) ∷ m) size dirty =
    let (rs', size', pruned) = sweep (λ r. leb r.expires now) rs size false in
    omega (
      arith,
      sweep-le (λ r. leb r.expires now) rs size false,
      prune_loop-le now m size' (pruned || dirty),
    )

pub call_limit : (c : Call) (s : SimpleTtlStore) → (call c s).max_size ≡ s.max_size
unfolding call add set remove delete prune
call_limit (add_call now key val ttl) s = ground arith
call_limit (set_call now key val ttl) s = ground arith
call_limit (remove_call key val) s = ground arith
call_limit (delete_call key) s = ground arith
call_limit (prune_call now) s = refl

-- A call does not bring the size above a limit that is at least MaxSize.
call_within :
    (c : Call) (s : SimpleTtlStore) (limit : ℕ)
    → s.max_size ≢ 0
    → s.max_size ≤ limit
    → s.size ≤ limit
    → (call c s).size ≤ limit
unfolding call add set remove delete prune
call_within (add_call now key val ttl) s limit given high h = ground arith
call_within (set_call now key val ttl) s limit given high h = ground arith
call_within (remove_call key val) s limit given high h =
    ground (arith, sweep-le (λ r. bytes_eq r.value val) (entry key s) s.size false)
call_within (delete_call key) s limit given high h = ground arith
call_within (prune_call now) s limit given high h =
    ground (arith, prune_loop-le now s.m s.size s.dirty)

pub call-IsBounded : (c : Call) (s : SimpleTtlStore) → IsBounded s → IsBounded (call c s)
call-IsBounded c s h given =
    let same = call_limit c s in
    let positive : s.max_size ≢ 0 = λ e. given (same ∙ e) in
    omega (arith, same, call_within c s s.max_size positive (omega arith) (h positive))
