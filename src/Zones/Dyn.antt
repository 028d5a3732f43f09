-- ===== src/Zones/Dyn.antt =====
-- The address records of internal/zones/dyn/api.go, and how they are stored.
pub mod Handler
pub mod Generator
pub mod Addresses
pub mod Updates
use addr_tools.Prelude.{
  ltb, leb, ◌==◌, if◌then◌else◌, ltb→lt, lt→ltb, leb→le, ==_iff, Bool-cases, Option-cases,
  &&-eq-true, length, length-append, take, drop, replicate, All, all, keep, head?, take-append-drop,
  length-take, length-drop, take-append, drop-append, length-map, length-replicate, length-keep,
  keep-append, take_all, Bytes, IsByte, bytes, bytes_eq, bytes_eq→eq, bytes_eq_refl, bytes_eq_iff,
  has_prefix, has_prefix-append, index_byte, or_here, last_index_byte, cons_first, split_byte, Map,
  lookup, insert, Unique, lookup-delete, lookup-insert, delete-Unique, insert-Unique, Result, ok,
  err, ◌>>=◌, map_ok, >>=-eq-ok, >>=-ok, map_ok-if, ℤ, pos, negsuc, negate, is_digit, decimal,
  unsigned, atoi, ℕ, zero, suc, ◌+◌, ◌-◌, ◌*◌, ◌/◌, ◌%◌, ◌^◌, ◌≤◌, ◌<◌, String, ◌≡◌, refl, sym, ap,
  ◌∙◌, subst, ◌≢◌, ◌↔◌, ◌⊎◌, inl, inr, Bool, true, false, not, ◌&&◌, ◌||◌, Option, none, some, List,
  [], ◌∷◌, ◌++◌, map, append-nil, append_assoc, arith,
}
use addr_tools.TtlStore.Contract.{TtlStore}

abbrev pub address_ttl : ℕ
address_ttl = 90 * 86400

pub record AddressRecord : Type 0 where
  pub updated : ℕ
  pub ip : Bytes

-- binary.BigEndian.PutUint32 and Uint32
unfoldable pub uint32_bytes : ℕ → Bytes
uint32_bytes v = v / 2 ^ 24 % 256 ∷ v / 2 ^ 16 % 256 ∷ v / 256 % 256 ∷ v % 256 ∷ []

unfoldable pub uint32 : Bytes → ℕ
uint32 (a ∷ b ∷ c ∷ d ∷ rest) = a * 2 ^ 24 + b * 2 ^ 16 + c * 256 + d
uint32 (a ∷ b ∷ c ∷ []) = 0
uint32 (a ∷ b ∷ []) = 0
uint32 (a ∷ []) = 0
uint32 [] = 0

unfoldable pub marshal : AddressRecord → Bytes
unfolding uint32_bytes
marshal r = uint32_bytes r.updated ++ r.ip

-- Why a record cannot be loaded: the store failed, or the data has the wrong length.
pub data LoadError (E : Type 0) : Type 0 where
  store_failed : E → LoadError E
  invalid_length : ℕ → LoadError E

unfoldable pub unmarshal : {E : Type 0} → Bytes → Result (LoadError E) AddressRecord
unfolding uint32
unmarshal data' =
    if length data' == 8 || length data' == 20
    then ok (record { updated = uint32 data'; ip = drop 4 data' })
    else err (invalid_length (length data'))

abbrev pub load_data :
    {E R : Type 0}
    → (Bytes → Result (LoadError E) R)
    → Result E (Option Bytes)
    → Result (LoadError E) (Option R)
load_data read (err e) = err (store_failed e)
load_data read (ok none) = ok none
load_data read (ok (some b)) = map_ok some (read b)

abbrev pub ip4_key : Bytes → Bytes
ip4_key name = name ++ bytes ":ip4"

abbrev pub ip6_key : Bytes → Bytes
ip6_key name = name ++ bytes ":ip6"

module _ {S E : Type 0} (T : TtlStore S E) where
  unfoldable pub load_ipv4 : ℕ → Bytes → S → Result (LoadError E) (Option AddressRecord)
  load_ipv4 now name s = load_data unmarshal (T.get now (ip4_key name) s)

  unfoldable pub load_ipv6 : ℕ → Bytes → S → Result (LoadError E) (Option AddressRecord)
  load_ipv6 now name s = load_data unmarshal (T.get now (ip6_key name) s)

  -- `v4` is ip.To4(). The record takes one reading of the clock, the store the next.
  unfoldable pub update_ip : Option Bytes → ℕ → ℕ → Bytes → Bytes → S → Option E × S
  update_ip (some ip4) now now' name ip =
      T.set now' (ip4_key name) (marshal (record { updated = now; ip = ip4 })) address_ttl
  update_ip none now now' name ip =
      T.set now' (ip6_key name) (marshal (record { updated = now; ip = ip })) address_ttl
