-- ===== src/Zones/Myaddr.antt =====
-- internal/zones/myaddr/api.go: registrations and how they are stored.
pub mod Handlers
pub mod Generator
pub mod Admin
pub mod Owner
pub mod Suspension
pub mod Registrations
pub mod Names
pub mod Refused
pub mod Ownership
use addr_tools.Prelude.{
  ltb, leb, ◌==◌, if◌then◌else◌, ltb→lt, lt→ltb, leb→le, ==_iff, Bool-cases, Option-cases,
  &&-eq-true, length, length-append, take, drop, replicate, All, all, keep, head?, take-append-drop,
  length-take, length-drop, take-append, drop-append, length-map, length-replicate, length-keep,
  keep-append, take_all, Bytes, IsByte, bytes, bytes_eq, bytes_eq→eq, bytes_eq_refl, bytes_eq_iff,
  has_prefix, has_prefix-append, index_byte, or_here, last_index_byte, cons_first, split_byte, Map,
  lookup, insert, Unique, lookup-delete, lookup-insert, delete-Unique, insert-Unique, Result, ok,
  err, ◌>>=◌, map_ok, >>=-eq-ok, >>=-ok, map_ok-if, Result-cases, ℤ, pos, negsuc, negate, is_digit,
  decimal, unsigned, atoi, ℕ, zero, suc, ◌+◌, ◌-◌, ◌*◌, ◌/◌, ◌%◌, ◌^◌, ◌≤◌, ◌<◌, String, ◌≡◌, refl,
  sym, ap, ◌∙◌, subst, ◌≢◌, ◌↔◌, ◌⊎◌, inl, inr, Bool, true, false, not, ◌&&◌, ◌||◌, Option, none,
  some, List, [], ◌∷◌, ◌++◌, map, append-nil, append_assoc, arith,
}
use mathlib.Core.Option
use addr_tools.TtlStore.Contract.{TtlStore}
use addr_tools.Zones.Dyn.{uint32_bytes, uint32, LoadError, store_failed, invalid_length, load_data}

abbrev pub pending_ttl : ℕ
pending_ttl = 3600

abbrev pub registration_ttl : ℕ
registration_ttl = 120 * 86400

pub record RegistrationRecord : Type 0 where
  pub created : ℕ
  pub updated : ℕ
  pub hash : Bytes

-- Expires, on uint32
unfoldable pub expires : RegistrationRecord → ℕ
expires r =
    if r.created == r.updated
    then (r.updated + pending_ttl) % 2 ^ 32
    else (r.updated + registration_ttl) % 2 ^ 32

unfoldable pub marshal : RegistrationRecord → Bytes
unfolding uint32_bytes
marshal r = uint32_bytes r.created ++ (uint32_bytes r.updated ++ r.hash)

unfoldable pub unmarshal : {E : Type 0} → Bytes → Result (LoadError E) RegistrationRecord
unfolding uint32
unmarshal b =
    if ltb (length b) 8
    then err (invalid_length (length b))
    else ok (record { created = uint32 b; updated = uint32 (drop 4 b); hash = drop 8 b })

abbrev pub reg_key : Bytes → Bytes
reg_key name = name ++ bytes ":reg"

abbrev pub hash_key : Bytes → Bytes
hash_key hash = bytes "hash:" ++ hash

-- The error of UpdateRegistration.
abbrev pub store_error : {E S : Type 0} → Option E × S → Option (LoadError E) × S
store_error (e, s) = (Option.map store_failed e, s)

module _ {S E : Type 0} (T : TtlStore S E) where
  unfoldable pub load_registration :
      ℕ → Bytes → S → Result (LoadError E) (Option RegistrationRecord)
  load_registration now name s = load_data unmarshal (T.get now (reg_key name) s)

  -- The four readings of the clock: for the record, for Get, and for the two Sets.
  module _ (now now_get now_reg now_hash : ℕ) (hash name : Bytes) where
    abbrev pub set_hash : ℕ → Bytes → Option E × S → Option E × S
    set_hash ttl h (some e, s) = (some e, s)
    set_hash ttl [] (none, s) = (none, s)
    set_hash ttl (c ∷ h) (none, s) = T.set now_hash (hash_key (c ∷ h)) name ttl s

    abbrev pub store_registration : RegistrationRecord → ℕ → S → Option (LoadError E) × S
    store_registration r ttl s =
        store_error (set_hash ttl hash (T.set now_reg (reg_key name) (marshal r) ttl s))

    abbrev pub update_loaded :
        Result (LoadError E) (Option RegistrationRecord) → S → Option (LoadError E) × S
    update_loaded (err e) s = (some e, s)
    update_loaded (ok none) s =
        store_registration (record { created = now; updated = now; hash = hash }) pending_ttl s
    update_loaded (ok (some r)) s =
        store_registration (record { created = r.created; updated = now; hash = hash })
          registration_ttl s

    unfoldable pub update_registration : S → Option (LoadError E) × S
    unfolding load_registration
    update_registration s = update_loaded (load_registration now_get name s) s

-- The loop of IsValidName, with the index and the bytes that are left.
unfoldable pub name_loop : ℕ → Bytes → Bool
name_loop i [] = true
name_loop i (c ∷ s) =
    ((is_digit c && ltb 0 i)
      || (leb b'A' c && leb c b'Z')
      || (leb b'a' c && leb c b'z')
      || (c == b'-' && ltb 0 i && ltb 0 (length s)))
    && name_loop (suc i) s

unfoldable pub is_valid_name : Bytes → Bool
unfolding name_loop
is_valid_name s = if ltb (length s) 6 || ltb 40 (length s) then false else name_loop 0 s
