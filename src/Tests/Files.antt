-- ===== src/Tests/Files.antt =====
-- The files of a SimpleTtlStore, with an encoding of its map in place of encoding/json.
use addr_tools.Prelude.{
  ltb, all, Bytes, Map, Result, ok, ℕ, zero, suc, ◌≡◌, refl, ap, Bool, false, none, some, List, [],
  ◌∷◌, ◌++◌, map, append_assoc, arith,
}
use addr_tools.TtlStore.Simple.{ValueWithExpiration, SimpleTtlStore}
use addr_tools.TtlStore.Simple.Files.{
  FileError, io, Outcomes, Disk, write_file, load_file, Event, called, written, happen_all,
  IsSynced, happen_all-IsSynced,
}
use addr_tools.TtlStore.Simple.Reload.{IsReadBack, IsPlain, ReadsAlike, load-write}
use addr_tools.TtlStore.Simple.Validity.{IsValid}
use addr_tools.Tests.Stores.{store, store-IsValid, calls}

-- 0 stands before a value, its expiry first, 1 before a key, and the rest is moved up by two.
abbrev shift : Bytes → Bytes
shift = map (λ c. suc (suc c))

unfoldable encode_values : List ValueWithExpiration → Bytes
encode_values [] = []
encode_values (r ∷ rs) = 0 ∷ suc (suc r.expires) ∷ shift r.value ++ encode_values rs

unfoldable encode : Map (List ValueWithExpiration) → Bytes
encode [] = []
encode ((key, rs) ∷ m) = 1 ∷ shift key ++ (encode_values rs ++ encode m)

abbrev Reading : Type 0
Reading = Bytes × List ValueWithExpiration × Map (List ValueWithExpiration)

abbrev close_value : Reading → Reading
close_value ([], rs, m) = ([], rs, m)
close_value (e ∷ v, rs, m) = ([], record { expires = e; value = v } ∷ rs, m)

abbrev read_step : ℕ → Reading → Reading
read_step zero r = close_value r
read_step (suc zero) (key, rs, m) = ([], [], (key, rs) ∷ m)
read_step (suc (suc c)) (b, rs, m) = (c ∷ b, rs, m)

unfoldable read : Bytes → Reading
read [] = ([], [], [])
read (c ∷ b) = read_step c (read b)

abbrev decode : Bytes → Result FileError (Map (List ValueWithExpiration))
decode b = ok (read b).2

read-shift :
    (v b : Bytes) (rs : List ValueWithExpiration) (m : Map (List ValueWithExpiration))
    → read b ≡ ([], rs, m)
    → read (shift v ++ b) ≡ (v, rs, m)
unfolding read
read-shift [] b rs m e = e
read-shift (c ∷ v) b rs m e = rw (read-shift v b rs m e)

read-encode_values :
    (rs : List ValueWithExpiration) (b : Bytes) (m : Map (List ValueWithExpiration))
    → read b ≡ ([], [], m)
    → read (encode_values rs ++ b) ≡ ([], rs, m)
unfolding read encode_values
read-encode_values [] b m e = e
read-encode_values (r ∷ rs) b m e = rw (
  append_assoc (shift r.value) (encode_values rs) b,
  read-shift r.value (encode_values rs ++ b) rs m (read-encode_values rs b m e),
)

read-encode : (m : Map (List ValueWithExpiration)) → read (encode m) ≡ ([], [], m)
unfolding read encode
read-encode [] = refl
read-encode ((key, rs) ∷ m) = rw (
    read-shift key (encode_values rs ++ encode m) rs m
      (read-encode_values rs (encode m) m (read-encode m)))

decode-encode : (m : Map (List ValueWithExpiration)) → decode (encode m) ≡ ok m
decode-encode m = ap (λ (r : Reading). ok r.2) (read-encode m)

abbrev disk : Disk
disk = record { store = store; file = none }

disk-IsSynced : IsSynced encode disk
disk-IsSynced = record { valid = store-IsValid; bounded = λ h. omega arith; saved = λ e. cc }

abbrev succeeds : Outcomes
succeeds = record { create_temp = none; encode_temp = none; close_temp = none; rename_temp = none }

abbrev fails : Outcomes
fails = record succeeds { rename_temp = some (io 28) }

abbrev events : List Event
events = written fails ∷ map called calls ++ written succeeds ∷ []

happen_all-IsSynced_example : IsSynced encode (happen_all encode events disk)
happen_all-IsSynced_example = happen_all-IsSynced encode events disk-IsSynced

abbrev disk_written : Disk
disk_written = record { store = record store { dirty = false }; file = some (encode store.m) }

written_out : write_file encode succeeds disk ≡ (none, disk_written)
unfolding write_file
written_out = refl

-- Of UTF-8, the ASCII texts.
abbrev is_ascii : Bytes → Bool
is_ascii = all (λ c. ltb c 128)

decode-encode-IsReadBack : IsReadBack is_ascii encode decode
decode-encode-IsReadBack m u plain = (m, decode-encode m, u, λ key. refl)

store-IsPlain : IsPlain is_ascii encode decode store.m
store-IsPlain = ground arith

abbrev fresh : SimpleTtlStore
fresh = record { max_size = 9; m = []; size = 0; dirty = false }

load-write_example :
    let loaded = load_file decode (ok (encode store.m)) fresh in
    (loaded.0 ≡ none)
    × IsValid loaded.1
    × (loaded.1.size ≡ 3)
    × ReadsAlike store loaded.1
    × (loaded.1.max_size ≡ 9)
    × (loaded.1.dirty ≡ false)
load-write_example =
    load-write is_ascii encode decode succeeds disk disk_written fresh (encode store.m)
      decode-encode-IsReadBack store-IsValid store-IsPlain written_out refl
