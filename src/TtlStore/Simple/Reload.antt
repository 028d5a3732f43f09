-- ===== src/TtlStore/Simple/Reload.antt =====
-- WriteFile and then LoadFile of internal/ttlstore/simple.go. encoding/json may order the keys anew, and
-- reads back what it writes for keys that are valid UTF-8.
use addr_tools.Prelude.{
  length, All, Bytes, IsByte, bytes_eq_refl, bytes_eq_iff, Map, lookup, delete, Unique,
  lookup-delete, delete-Unique, Result, ok, ℕ, ◌^◌, ◌≤◌, ◌<◌, ◌≡◌, refl, sym, ap, ◌∙◌, Bool, true,
  Option, none, some, List, [], ◌∷◌, arith,
}
use addr_tools.TtlStore.Simple.{
  ValueWithExpiration, SimpleTtlStore, entry, or_nil, values_loop, get_loop, exists_loop, simple,
}
use addr_tools.TtlStore.Simple.Size.{total, count_at, NoneEmpty, total-delete, delete-NoneEmpty}
use addr_tools.TtlStore.Simple.Validity.{IsValid}
use addr_tools.TtlStore.Simple.Files.{FileError, Outcomes, Disk, write_file, load_file}

module _ {V : Type 0} where
  -- Two maps with the same value at each key.
  abbrev pub IsSameMap : Map (List V) → Map (List V) → Type 0
  IsSameMap m m' = (key : Bytes) → lookup key m' ≡ lookup key m

  abbrev no_values : Option (List V)
  no_values = none

  found_here : (k : Bytes) (rs : List V) (m : Map (List V)) → lookup k ((k, rs) ∷ m) ≡ some rs
  unfolding lookup
  found_here k rs m = ground (arith, bytes_eq_refl k)

  nothing_there : (k : Bytes) → lookup k [] ≡ no_values
  unfolding lookup
  nothing_there k = refl

  -- Without a key that stands first on one side, the maps stay the same.
  tail_same :
      (k : Bytes) (rs : List V) (m m' : Map (List V))
      → lookup k m ≡ none
      → IsSameMap ((k, rs) ∷ m) m'
      → IsSameMap m (delete k m')
  unfolding lookup
  tail_same k rs m m' absent same j = ground (arith, lookup-delete k j m', same j, bytes_eq_iff k j)

  total-same_map :
      (m m' : Map (List V)) → Unique m → Unique m' → IsSameMap m m' → total m' ≡ total m
  total-same_map [] [] u u' same = refl
  total-same_map [] ((k, rs) ∷ m') u u' same =
      absurd (cc (same k, found_here k rs m', nothing_there k))
  total-same_map ((k, rs) ∷ m) m' (absent, u) u' same =
      let here : lookup k m' ≡ some rs = same k ∙ found_here k rs m in
      let rest =
        total-same_map m (delete k m') u (delete-Unique k m' u')
          (tail_same k rs m m' absent same) in
      omega (arith, rest, total-delete k m' u', ap count_at here)

  lookup-NoneEmpty :
      (k : Bytes) (rs : List V) (m : Map (List V))
      → NoneEmpty m
      → lookup k m ≡ some rs
      → 1 ≤ length rs
  unfolding lookup
  lookup-NoneEmpty k rs [] h e = ground arith
  lookup-NoneEmpty k rs ((j, ws) ∷ m) h e = ground (arith, lookup-NoneEmpty k rs m)

  same_map-NoneEmpty :
      (m m' : Map (List V)) → NoneEmpty m → Unique m' → IsSameMap m m' → NoneEmpty m'
  same_map-NoneEmpty m [] h u same = tt
  same_map-NoneEmpty m ((k, rs) ∷ m') h (absent, u) same =
      let back : IsSameMap ((k, rs) ∷ m') m = λ j. sym (same j) in
      (
        lookup-NoneEmpty k rs m h (back k ∙ found_here k rs m'),
        same_map-NoneEmpty (delete k m) m' (delete-NoneEmpty k m h) u
            (λ j. sym (tail_same k rs m' m absent back j)),
      )

-- The reading methods tell the same of both stores, at any time and for any key.
abbrev pub ReadsAlike : SimpleTtlStore → SimpleTtlStore → Type 0
ReadsAlike s s' =
    (now : ℕ) (key : Bytes)
    → (simple.values now key s' ≡ simple.values now key s)
      × (simple.get now key s' ≡ simple.get now key s)
      × (simple.has now key s' ≡ simple.has now key s)

reads_alike : (s s' : SimpleTtlStore) → IsSameMap s.m s'.m → ReadsAlike s s'
unfolding entry
reads_alike s s' same now key =
    let at = same key in
    (
      ap (λ o. ok (values_loop now (or_nil o))) at,
      ap (λ o. ok (get_loop now (or_nil o))) at,
      ap (λ o. ok (exists_loop now (or_nil o))) at,
    )

module _
    -- utf8.ValidString
    (valid_utf8 : Bytes → Bool) (encode : Map (List ValueWithExpiration) → Bytes)
    (decode : Bytes → Result FileError (Map (List ValueWithExpiration))) where
  abbrev pub IsPlainValue : ValueWithExpiration → Type 0
  IsPlainValue r = (r.expires < 2 ^ 32) × All IsByte r.value

  -- Keys of valid UTF-8, values of bytes, times of 32 bits.
  abbrev pub IsPlain : Map (List ValueWithExpiration) → Type 0
  IsPlain m = All (λ e. (valid_utf8 e.0 ≡ true) × All IsPlainValue e.1) m

  -- What encoding/json documents of a map from strings to slices: the decoder makes a map with the same
  -- keys and values, in any order.
  abbrev pub IsReadBack : Type 0
  IsReadBack =
      (m : Map (List ValueWithExpiration))
      → Unique m
      → IsPlain m
      → (m' : Map (List ValueWithExpiration)) × (decode (encode m) ≡ ok m')
        × Unique m'
        × IsSameMap m m'

  file_written :
      (o : Outcomes) (d d' : Disk) (contents : Bytes)
      → write_file encode o d ≡ (none, d')
      → d'.file ≡ some contents
      → contents ≡ encode d.store.m
  unfolding write_file
  file_written o d d' contents w f = ground arith

  -- With a codec that makes of the encoding of a map with keys in UTF-8 a map with the same keys and
  -- values, in any order: after a write of a valid store with such keys, byte values and 32-bit times
  -- that succeeds, LoadFile of the file into any store succeeds and leaves a valid store with the number
  -- of values of the first, of which Values, Get and Exists tell the same at any time; MaxSize and the
  -- dirty mark of the store stay.
  pub load-write :
      (o : Outcomes) (d d' : Disk) (s : SimpleTtlStore) (contents : Bytes)
      → IsReadBack
      → IsValid d.store
      → IsPlain d.store.m
      → write_file encode o d ≡ (none, d')
      → d'.file ≡ some contents
      → let loaded = load_file decode (ok contents) s in
        (loaded.0 ≡ none)
        × IsValid loaded.1
        × (loaded.1.size ≡ d.store.size)
        × ReadsAlike d.store loaded.1
        × (loaded.1.max_size ≡ s.max_size)
        × (loaded.1.dirty ≡ s.dirty)
  unfolding load_file
  load-write o d d' s contents reading v plain w f =
      let (m, read, u, same) = reading d.store.m v.unique plain in
      let decoded : decode contents ≡ ok m = ap decode (file_written o d d' contents w f) ∙ read in
      let loaded : SimpleTtlStore = record s { m = m; size = total m } in
      let count = total-same_map d.store.m m v.unique u same in
      let valid : IsValid loaded = record {
        unique = u;
        nonempty = same_map-NoneEmpty d.store.m m v.nonempty u same;
        counted = refl;
      } in
      rw (decoded) (refl, valid, count ∙ sym v.counted, reads_alike d.store loaded same, refl, refl)
