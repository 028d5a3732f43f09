-- ===== src/TtlStore/Simple/Files.antt =====
-- WriteFile, WriteFilePeriodically and LoadFile of internal/ttlstore/simple.go. The JSON encoder and
-- decoder are parameters; the outcome of each file operation is an input.
use addr_tools.Prelude.{
  leb, if◌then◌else◌, Bytes, Map, Result, ok, err, ℕ, ◌≡◌, refl, ap, Bool, true, false, ◌||◌,
  Option, none, some, List, [], ◌∷◌, arith,
}
use addr_tools.TtlStore.Simple.{
  ValueWithExpiration, SimpleTtlStore, Error, add, set, sweep, remove, delete, prune_entry,
  prune_loop, prune,
}
use addr_tools.TtlStore.Simple.Sweep.{sweep-kept, sweep_unchanged}
use addr_tools.TtlStore.Simple.Size.{total}
use addr_tools.TtlStore.Simple.Validity.{IsValid}
use addr_tools.TtlStore.Simple.Runs.{
  call-IsValid, call-IsBounded, Call, add_call, set_call, remove_call, delete_call, prune_call,
  call, IsBounded,
}
use addr_tools.TtlStore.Simple.Limit.{set_error}

pub data FileError : Type 0 where
  io : ℕ → FileError

-- What os.CreateTemp, enc.Encode, f.Close and os.Rename return.
pub record Outcomes : Type 0 where
  pub create_temp : Option FileError
  pub encode_temp : Option FileError
  pub close_temp : Option FileError
  pub rename_temp : Option FileError

-- The store, and what the file at the path holds.
pub record Disk : Type 0 where
  pub store : SimpleTtlStore
  pub file : Option Bytes

abbrev or_else : Option FileError → Option FileError → Option FileError
or_else none b = b
or_else (some e) b = some e

-- The error after encoding and closing, and after the rename that follows success.
abbrev write_error : Outcomes → Option FileError
write_error o = or_else (or_else o.encode_temp o.close_temp) o.rename_temp

module _ (encode : Map (List ValueWithExpiration) → Bytes) where
  abbrev finish_write : Option FileError → Disk → Option FileError × Disk
  finish_write none d =
      (none, record { store = record d.store { dirty = false }; file = some (encode d.store.m) })
  finish_write (some e) d = (some e, d)

  abbrev open_temp : Option FileError → Outcomes → Disk → Option FileError × Disk
  open_temp (some e) o d = (some e, d)
  open_temp none o d = finish_write (write_error o) d

  unfoldable pub write_file : Outcomes → Disk → Option FileError × Disk
  write_file o d = open_temp o.create_temp o d

  -- One round of WriteFilePeriodically.
  unfoldable pub write_if_dirty : Outcomes → Disk → Option FileError × Disk
  unfolding write_file
  write_if_dirty o d = if d.store.dirty then write_file o d else (none, d)

module _ (decode : Bytes → Result FileError (Map (List ValueWithExpiration))) where
  abbrev install :
      Result FileError (Map (List ValueWithExpiration))
      → SimpleTtlStore
      → Option FileError × SimpleTtlStore
  install (err e) s = (some e, s)
  install (ok m) s = (none, record s { m = m; size = total m })

  -- os.Open returned the contents, or an error.
  unfoldable pub load_file :
      Result FileError Bytes → SimpleTtlStore → Option FileError × SimpleTtlStore
  load_file (err e) s = (some e, s)
  load_file (ok contents) s = install (decode contents) s

prune_entry_same :
    (key : Bytes) (rs : List ValueWithExpiration) (m : Map (List ValueWithExpiration))
    → prune_entry key rs false m ≡ (key, rs) ∷ m
unfolding prune_entry
prune_entry_same key [] m = refl
prune_entry_same key (r ∷ rs) m = refl

prune_loop_unchanged :
    (now : ℕ) (m : Map (List ValueWithExpiration)) (size : ℕ) (dirty : Bool)
    → (prune_loop now m size dirty).2 ≡ false
    → ((prune_loop now m size dirty).0 ≡ m) × (dirty ≡ false)
unfolding prune_loop
prune_loop_unchanged now [] size dirty h = (refl, h)
prune_loop_unchanged now ((key, rs) ∷ m) size dirty h =
    let test : ValueWithExpiration → Bool = λ r. leb r.expires now in
    let (rs', size', pruned) = sweep test rs size false in
    let (same, quiet) = prune_loop_unchanged now m size' (pruned || dirty) h in
    ground (
      arith,
      sweep-kept test rs size false,
      sweep_unchanged test rs size false,
      prune_entry_same key rs m,
    )

set_ok_dirty :
    (now ttl : ℕ) (k v : Bytes) (s s' : SimpleTtlStore)
    → set now k v ttl s ≡ (none, s')
    → s'.dirty ≡ true
unfolding set add
set_ok_dirty now ttl k v s s' e = ground arith

set_clean :
    (now ttl : ℕ) (k v : Bytes) (s : SimpleTtlStore)
    → IsValid s
    → IsBounded s
    → (p : Option Error × SimpleTtlStore) → set now k v ttl s ≡ p
    → p.1.dirty ≡ false
    → (p.1.m ≡ s.m) × (s.dirty ≡ false)
set_clean now ttl k v s valid bound (none, s') e h = absurd (cc (set_ok_dirty now ttl k v s s' e))
set_clean now ttl k v s valid bound (some x, s') e h =
    let (absent, full, same) = set_error now ttl k v s s' x valid bound e in
    (ap (λ (u : SimpleTtlStore). u.m) same, cc (ap (λ (u : SimpleTtlStore). u.dirty) same))

-- A call that leaves the store clean has left the map as it was.
call_clean :
    (c : Call) {s : SimpleTtlStore}
    → IsValid s
    → IsBounded s
    → (call c s).dirty ≡ false
    → ((call c s).m ≡ s.m) × (s.dirty ≡ false)
unfolding call
call_clean (add_call now key val ttl) {s} v b h = unfold add in ground arith
call_clean (set_call now key val ttl) {s} v b h =
    set_clean now ttl key val s v b (set now key val ttl s) refl h
call_clean (remove_call key val) {s} v b h = unfold remove in ground arith
call_clean (delete_call key) {s} v b h = unfold delete in ground arith
call_clean (prune_call now) {s} v b h =
    unfold prune in prune_loop_unchanged now s.m s.size s.dirty h

-- What may happen to a store that is written to a file now and then, after it was loaded.
pub data Event : Type 0 where
  called : Call → Event
  written : Outcomes → Event

module _ (encode : Map (List ValueWithExpiration) → Bytes) where
  pub happen : Event → Disk → Disk
  happen (called c) d = record d { store = call c d.store }
  happen (written o) d = (write_if_dirty encode o d).1

  unfoldable pub happen_all : List Event → Disk → Disk
  unfolding happen
  happen_all [] d = d
  happen_all (e ∷ es) d = happen_all es (happen e d)

module _ (encode : Map (List ValueWithExpiration) → Bytes) where
  -- A store that is not marked dirty has its map, as the encoder writes it, in its file.
  pub record IsSynced (d : Disk) : Type 0 where
    pub valid : IsValid d.store
    pub bounded : IsBounded d.store
    pub saved : d.store.dirty ≡ false → d.file ≡ some (encode d.store.m)

  finish_write-IsSynced :
      (e : Option FileError) {d : Disk} → IsSynced d → IsSynced (finish_write encode e d).1
  finish_write-IsSynced none {d} h = record {
    valid = record {
      unique = h.valid.unique;
      nonempty = h.valid.nonempty;
      counted = h.valid.counted;
    };
    bounded = h.bounded;
    saved = λ clean. refl;
  }
  finish_write-IsSynced (some e) h = h

  open_temp-IsSynced :
      (e : Option FileError) (o : Outcomes) {d : Disk}
      → IsSynced d
      → IsSynced (open_temp encode e o d).1
  open_temp-IsSynced none o h = finish_write-IsSynced (write_error o) h
  open_temp-IsSynced (some e) o h = h

  if-IsSynced :
      (b : Bool) (p q : Option FileError × Disk)
      → IsSynced p.1
      → IsSynced q.1
      → IsSynced (if b then p else q).1
  if-IsSynced true p q hp hq = hp
  if-IsSynced false p q hp hq = hq

  happen-IsSynced : (e : Event) {d : Disk} → IsSynced d → IsSynced (happen encode e d)
  unfolding happen write_if_dirty
  happen-IsSynced (called c) {d} h = record {
    valid = call-IsValid c h.valid;
    bounded = call-IsBounded c d.store h.bounded;
    saved = λ clean.
        let (same, quiet) = call_clean c h.valid h.bounded clean in rw same (h.saved quiet);
  }
  happen-IsSynced (written o) {d} h =
      if-IsSynced d.store.dirty (write_file encode o d) (none, d)
        (open_temp-IsSynced o.create_temp o h) h

  -- From a valid store within its limit that is marked dirty, or whose file holds its map as the encoder
  -- writes it, whatever calls of Add, Set, Remove, Delete and Prune and whatever rounds of
  -- WriteFilePeriodically happen, failed writes included: the same holds afterwards, so a store that is
  -- not marked dirty has no change that its file lacks.
  pub happen_all-IsSynced :
      (es : List Event) {d : Disk} → IsSynced d → IsSynced (happen_all encode es d)
  unfolding happen_all
  happen_all-IsSynced [] h = h
  happen_all-IsSynced (e ∷ es) h = happen_all-IsSynced es (happen-IsSynced e h)
