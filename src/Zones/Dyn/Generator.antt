-- ===== src/Zones/Dyn/Generator.antt =====
-- RecordGenerator of internal/zones/dyn/generator.go.
use addr_tools.Prelude.{
  ◌==◌, if◌then◌else◌, length, take, drop, all, Bytes, bytes, bytes_eq, Result, ok, ◌>>=◌, map_ok,
  ℕ, ◌-◌, Bool, true, false, ◌&&◌, Option, none, some, List, [], ◌∷◌, ◌++◌, map,
}
use addr_tools.TtlStore.Contract.{TtlStore}
use addr_tools.Dnsutil.Strings.{to_lower_ascii, split_for_txt}
use addr_tools.Dnscheck.Options.{is_hex}
use addr_tools.Zones.Dyn.{AddressRecord, LoadError, load_ipv4, load_ipv6}

-- dns.A, dns.AAAA and dns.TXT: the name, the TTL and the data. The class is always IN.
pub data Record : Type 0 where
  a aaaa : Bytes → ℕ → Bytes → Record
  txt : Bytes → ℕ → List Bytes → Record

abbrev pub type_a : ℕ
type_a = 1

abbrev pub type_txt : ℕ
type_txt = 16

abbrev pub type_aaaa : ℕ
type_aaaa = 28

unfoldable pub is_valid_subdomain : Bytes → Bool
is_valid_subdomain sub =
    length sub == 57 && bytes_eq (drop 56 sub) (b'.' ∷ []) && all is_hex (take 56 sub)

-- q.Name[:len(q.Name)-len(zone)]
abbrev pub subdomain : Bytes → Bytes → Bytes
subdomain name zone = take (length name - length zone) name

abbrev pub one_record : (Bytes → Record) → Option AddressRecord → List Record
one_record make none = []
one_record make (some r) = make r.ip ∷ []

abbrev pub txt_records : Bytes → List Bytes → List Record
txt_records name = map (λ t. txt name 1 (split_for_txt t))

-- fmt.Sprintf("ipv4 last updated %s", …), where `utc` prints a Unix time.
abbrev pub updated_text : (ℕ → Bytes) → Bytes → Option AddressRecord → List Bytes
updated_text utc label none = []
updated_text utc label (some r) = (label ++ bytes " last updated " ++ utc r.updated) ∷ []

-- The two readings of the clock are `now` and `now'`.
module _ {S E : Type 0} (T : TtlStore S E) (utc : ℕ → Bytes) (now now' : ℕ) where
  abbrev pub Answer : Type 0
  Answer = Result (LoadError E) (List Record × Bool)

  unfoldable pub records_of : ℕ → Bytes → S → Result (LoadError E) (List Record)
  records_of qtype name s =
      if qtype == type_a
      then map_ok (one_record (a name 60)) (load_ipv4 T now (to_lower_ascii name) s)
      else if qtype == type_aaaa
      then map_ok (one_record (aaaa name 60)) (load_ipv6 T now (to_lower_ascii name) s)
      else if qtype == type_txt
      then (do
        ip4 ← load_ipv4 T now (to_lower_ascii name) s
        ip6 ← load_ipv6 T now' (to_lower_ascii name) s
        ok (
            txt_records name (
              bytes "v=spf1 -all" ∷ updated_text utc (bytes "ipv4") ip4
              ++ updated_text utc (bytes "ipv6") ip6)))
      else ok []

  -- The records and validName, or the error of the store.
  unfoldable pub generate_records : ℕ → Bytes → Bytes → S → Answer
  generate_records qtype name zone s =
      if is_valid_subdomain (subdomain name zone)
      then map_ok (λ rrs. (rrs, true)) (records_of qtype name s)
      else ok ([], false)
