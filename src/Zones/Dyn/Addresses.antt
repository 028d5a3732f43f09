-- ===== src/Zones/Dyn/Addresses.antt =====
-- An address that UpdateIP stores is what LoadIPv4 and LoadIPv6 give back.
use addr_tools.Prelude.{
  ltb, if◌then◌else◌, length, Bytes, bytes_eq, ok, ℕ, ◌^◌, ◌<◌, ◌≡◌, refl, ◌⊎◌, false, none, some,
  [], ◌∷◌, ◌++◌, arith,
}
use addr_tools.TtlStore.Contract.{TtlStore, IsLawful, expiry}
use addr_tools.Zones.Dyn.{AddressRecord, uint32_bytes, uint32, marshal, unmarshal, ip4_key, ip6_key}

uint32-bytes : (v : ℕ) (rest : Bytes) → v < 2 ^ 32 → uint32 (uint32_bytes v ++ rest) ≡ v
unfolding uint32 uint32_bytes
uint32-bytes v rest h = omega arith

-- UnmarshalBinary reads back what MarshalBinary wrote for an address of 4 or of 16 bytes.
pub unmarshal-marshal :
    {E : Type 0} (r : AddressRecord)
    → r.updated < 2 ^ 32
    → (length r.ip ≡ 4) ⊎ (length r.ip ≡ 16)
    → unmarshal {E = E} (marshal r) ≡ ok r
unfolding unmarshal marshal uint32_bytes uint32
unmarshal-marshal r h l = ground arith

-- What a Set leaves to be read by Get under the same key, and under another.
module _ {S E : Type 0} (T : TtlStore S E) (law : IsLawful T) where
  pub get-set :
      (t now ttl : ℕ) (k j v : Bytes) (s s' : S)
      → T.set now k v ttl s ≡ (none, s')
      → T.get t j s' ≡ (
          if bytes_eq k j
          then ok (if ltb t (expiry now ttl) then some v else none)
          else T.get t j s)
  get-set t now ttl k j v s s' e =
      ground (arith, law.get_lem t j s, law.get_lem t j s', law.values-set t now ttl k j v s s' e)

  pub get-delete :
      (t : ℕ) (k j : Bytes) (s s' : S)
      → T.delete k s ≡ (none, s')
      → T.get t j s' ≡ (if bytes_eq k j then ok none else T.get t j s)
  get-delete t k j s s' e =
      ground (arith, law.get_lem t j s, law.get_lem t j s', law.values-delete t k j s s' e)

-- The two keys of a name differ.
pub suffix-ne : (name : Bytes) → bytes_eq (ip4_key name) (ip6_key name) ≡ false
unfolding bytes_eq
suffix-ne [] = refl
suffix-ne (c ∷ name) = ground (arith, suffix-ne name)

pub suffix-ne' : (name : Bytes) → bytes_eq (ip6_key name) (ip4_key name) ≡ false
unfolding bytes_eq
suffix-ne' [] = refl
suffix-ne' (c ∷ name) = ground (arith, suffix-ne' name)
