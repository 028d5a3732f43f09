-- ===== src/Dns.antt =====
-- The messages of github.com/miekg/dns as internal/dnsutil and internal/zones use them: data types for
-- what the code builds and reads, and a record of the library's functions that it calls.
use addr_tools.Prelude.{Bytes, ℕ, ◌≡◌, Bool, false, Option, none, some, List, []}

-- dns.EDNS0, for the options that the code looks at.
pub data EdnsOption : Type 0 where
  subnet : (family : ℕ) → (address : Bytes) → (source_netmask : ℕ) → (source_scope : ℕ) → EdnsOption
  padding : ℕ → EdnsOption
  extended_error : ℕ → Bytes → EdnsOption
  other_option : ℕ → EdnsOption

-- dns.OPT by its accessors
pub record Opt : Type 0 where
  pub version : ℕ
  pub udp_size : ℕ
  pub wants_dnssec : Bool
  pub compact : Bool
  pub options : List EdnsOption

-- The fields of dns.RRSIG, its header aside.
pub record Signature : Type 0 where
  pub type_covered : ℕ
  pub algorithm : ℕ
  pub expiration : ℕ
  pub inception : ℕ
  pub key_tag : ℕ
  pub signer_name : Bytes
  pub signature : Bytes

pub data Rdata : Type 0 where
  a_data aaaa_data ns_data cname_data : Bytes → Rdata
  soa_data : (ns : Bytes) → (mbox : Bytes) → (numbers : List ℕ) → Rdata
  txt_data : List Bytes → Rdata
  mx_data : ℕ → Bytes → Rdata
  hinfo_data : Bytes → Bytes → Rdata
  nsec_data : Bytes → List ℕ → Rdata
  rrsig_data : Signature → Rdata
  dnskey_data : (flags : ℕ) → (protocol : ℕ) → (algorithm : ℕ) → Bytes → Rdata
  https_data : ℕ → Bytes → Bytes → Rdata
  other_data : ℕ → Bytes → Rdata

abbrev pub type_a : ℕ
type_a = 1

abbrev pub type_ns : ℕ
type_ns = 2

abbrev pub type_cname : ℕ
type_cname = 5

abbrev pub type_soa : ℕ
type_soa = 6

abbrev pub type_hinfo : ℕ
type_hinfo = 13

abbrev pub type_mx : ℕ
type_mx = 15

abbrev pub type_txt : ℕ
type_txt = 16

abbrev pub type_aaaa : ℕ
type_aaaa = 28

abbrev pub type_opt : ℕ
type_opt = 41

abbrev pub type_rrsig : ℕ
type_rrsig = 46

abbrev pub type_nsec : ℕ
type_nsec = 47

abbrev pub type_dnskey : ℕ
type_dnskey = 48

abbrev pub type_https : ℕ
type_https = 65

abbrev pub type_nxname : ℕ
type_nxname = 128

abbrev pub type_any : ℕ
type_any = 255

abbrev pub class_inet : ℕ
class_inet = 1

-- Hdr.Rrtype: the code sets it to the type of the data.
unfoldable pub rrtype_of : Rdata → ℕ
rrtype_of (a_data ip) = type_a
rrtype_of (aaaa_data ip) = type_aaaa
rrtype_of (ns_data ns) = type_ns
rrtype_of (cname_data target) = type_cname
rrtype_of (soa_data ns mbox numbers) = type_soa
rrtype_of (txt_data strs) = type_txt
rrtype_of (mx_data preference mx) = type_mx
rrtype_of (hinfo_data cpu os) = type_hinfo
rrtype_of (nsec_data next types) = type_nsec
rrtype_of (rrsig_data sig) = type_rrsig
rrtype_of (dnskey_data flags protocol algorithm key) = type_dnskey
rrtype_of (https_data priority target value) = type_https
rrtype_of (other_data rrtype rest) = rrtype

pub record Rr : Type 0 where
  pub name : Bytes
  pub class : ℕ
  pub ttl : ℕ
  pub rdata : Rdata

abbrev pub rrtype : Rr → ℕ
rrtype rr = rrtype_of rr.rdata

pub record Question : Type 0 where
  pub name : Bytes
  pub qtype : ℕ
  pub qclass : ℕ

abbrev pub rcode_success : ℕ
rcode_success = 0

abbrev pub rcode_format_error : ℕ
rcode_format_error = 1

abbrev pub rcode_server_failure : ℕ
rcode_server_failure = 2

abbrev pub rcode_name_error : ℕ
rcode_name_error = 3

abbrev pub rcode_not_implemented : ℕ
rcode_not_implemented = 4

abbrev pub rcode_refused : ℕ
rcode_refused = 5

abbrev pub rcode_bad_vers : ℕ
rcode_bad_vers = 16

-- dns.Msg with one question; `opt` is the OPT record of the additional section, which holds no other.
pub record Msg : Type 0 where
  pub id : ℕ
  pub opcode : ℕ
  pub rcode : ℕ
  pub authoritative : Bool
  pub truncated : Bool
  pub compress : Bool
  pub question : Question
  pub answer : List Rr
  pub ns : List Rr
  pub opt : Option Opt

-- The functions of the library that compute: SetReply and SetRcode of a new message, Truncate, the
-- length of Pack (`none` if it fails) and CanonicalName.
pub record DnsLibrary : Type 0 where
  pub set_reply : Msg → Msg
  pub set_rcode : Msg → ℕ → Msg
  pub truncate : ℕ → Msg → Msg
  pub packed_length : Msg → Option ℕ
  pub canonical_name : Bytes → Bytes

-- What is documented of the replies: they carry the question and no records.
pub record IsReplying (L : DnsLibrary) : Type 0 where
  pub reply_rcode : (req : Msg) → (L.set_reply req).rcode ≡ rcode_success
  pub reply_answer : (req : Msg) → (L.set_reply req).answer ≡ []
  pub reply_ns : (req : Msg) → (L.set_reply req).ns ≡ []
  pub reply_opt : (req : Msg) → (L.set_reply req).opt ≡ none
  pub error_rcode : (req : Msg) (code : ℕ) → (L.set_rcode req code).rcode ≡ code
  pub error_answer : (req : Msg) (code : ℕ) → (L.set_rcode req code).answer ≡ []
  pub error_ns : (req : Msg) (code : ℕ) → (L.set_rcode req code).ns ≡ []

-- opt != nil && opt.Do()
unfoldable pub asks_dnssec : Msg → Bool
asks_dnssec req = elim req.opt [ none ↦ false | some opt ↦ opt.wants_dnssec ]
