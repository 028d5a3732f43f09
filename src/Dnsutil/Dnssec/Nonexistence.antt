-- ===== src/Dnsutil/Dnssec/Nonexistence.antt =====
-- The NSEC record by which Prove of internal/dnsutil/dnssec.go denies a name or a type.
use addr_tools.Prelude.{◌==◌, ℕ, ◌≡◌, Bool, true, false, not, ◌&&◌, ◌||◌, List, ◌∷◌}
use addr_tools.Dns.{
  Rr, nsec_data, Question, type_ns, type_soa, type_rrsig, type_nsec, type_dnskey, type_nxname,
  class_inet,
}
use addr_tools.Dnsutil.Strings.{equals_ascii_ignore_case, to_lower_ascii}
use addr_tools.Dnsutil.Dnssec.{DnssecProvider, mem_type, or_default}

-- Whether the record for the question may list the type: a name that does not exist has RRSIG, NSEC and
-- NXNAME only, and one that exists the types of the zone but for the queried one and, below the apex,
-- those that only an apex has.
abbrev pub may_list : {K : Type 0} → DnssecProvider K → Question → Bool → ℕ → Bool
may_list p q true t = t == type_rrsig || t == type_nsec || t == type_nxname
may_list p q false t =
    mem_type t (or_default p.nsec_types)
    && not (t == q.qtype)
    && (equals_ascii_ignore_case q.name p.key.name
        || not (t == type_ns || t == type_soa || t == type_dnskey))

-- A denial of the question: a record of the queried name itself, which says that nothing lies between it
-- and its first possible child, and lists the types that it may.
pub record IsDenial {K : Type 0} (p : DnssecProvider K) (q : Question) (missing : Bool) (rr : Rr)
    : Type 0 where
  pub owner : rr.name ≡ q.name
  pub owner_class : rr.class ≡ class_inet
  pub owner_ttl : rr.ttl ≡ p.key.ttl
  pub types : List ℕ
  pub next : rr.rdata ≡ nsec_data (92 ∷ 48 ∷ 48 ∷ 48 ∷ 46 ∷ to_lower_ascii q.name) types
  pub listed : (t : ℕ) → mem_type t types ≡ may_list p q missing t
