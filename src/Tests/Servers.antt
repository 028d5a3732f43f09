-- ===== src/Tests/Servers.antt =====
-- The DNS handlers at concrete inputs: a small zone, a library that replies as documented, and
-- signatures that only tell what they cover.
use addr_tools.Prelude.{
  Bytes, bytes, Result, ok, err, ℕ, ◌+◌, ◌%◌, ◌≡◌, refl, true, false, Option, none, some, List, [],
  ◌∷◌, ◌++◌, arith,
}
use addr_tools.Dns.{
  EdnsOption, padding, subnet, extended_error, other_option, Opt, Signature, Rdata, a_data,
  rrsig_data, dnskey_data, Rr, rrtype_of, Msg, DnsLibrary, IsReplying, type_a, class_inet,
  rcode_success, rcode_not_implemented, asks_dnssec,
}
use addr_tools.Dnsutil.Strings.{
  equals_ascii_ignore_case, has_prefix_ascii_ignore_case, prefix_loop, same_letter,
}
use addr_tools.Dnsutil.Edns.{tcp, new_opt, add_padding}
use addr_tools.Dnsutil.Edns.Sizes.{IsAdditive, add_padding-multiple}
use addr_tools.Dnsutil.Records.{get_static}
use addr_tools.Dnsutil.Dnssec.{DnssecProvider, RrSet}
use addr_tools.Dnsutil.Dnssec.Covering.{head_type}
use addr_tools.Dnsutil.Simple.{SimpleHandler, Generated, resolve, serve_dns}
use addr_tools.Dnsutil.Simple.Answers.{resolve_lem}
use addr_tools.Dnsutil.Simple.Refusals.{serve_dns-refused, serve_dns-plain, started}
use addr_tools.Dnscheck.Texts.{Peer, Printers}
use addr_tools.Dnscheck.Answers.{answer}
use addr_tools.Dnscheck.Handler.Effects.{answer-resolve}

abbrev option_length : EdnsOption → ℕ
option_length (padding n) = 4 + n
option_length (subnet family address netmask scope) = 12
option_length (extended_error code text) = 6
option_length (other_option code) = 4

abbrev options_length : List EdnsOption → ℕ
options_length [] = 0
options_length (o ∷ os) = option_length o + options_length os

options_length-append :
    (os : List EdnsOption) (n : ℕ)
    → options_length (os ++ padding n ∷ []) ≡ options_length os + 4 + n
options_length-append [] n = omega arith
options_length-append (o ∷ os) n = omega (arith, options_length-append os n)

abbrev toy_length : Option Opt → Option ℕ
toy_length none = some 12
toy_length (some opt) = some (23 + options_length opt.options)

abbrev pub reply_to : Msg → ℕ → Msg
reply_to req code = record {
  id = req.id;
  opcode = 0;
  rcode = code;
  authoritative = false;
  truncated = false;
  compress = false;
  question = req.question;
  answer = [];
  ns = [];
  opt = none;
}

abbrev pub toy_dns : DnsLibrary
toy_dns = record {
  set_reply = λ req. reply_to req 0;
  set_rcode = reply_to;
  truncate = λ n msg. msg;
  packed_length = λ msg. toy_length msg.opt;
  canonical_name = λ name. name;
}

toy_dns-IsReplying : IsReplying toy_dns
toy_dns-IsReplying = record {
  reply_rcode = λ req. refl;
  reply_answer = λ req. refl;
  reply_ns = λ req. refl;
  reply_opt = λ req. refl;
  error_rcode = λ req code. refl;
  error_answer = λ req code. refl;
  error_ns = λ req code. refl;
}

toy_dns-IsAdditive : IsAdditive toy_dns
toy_dns-IsAdditive msg opt n m has packed fits = ground (arith, options_length-append opt.options m)

abbrev pub signature_of : ℕ → ℕ → Signature
signature_of covered tag = record {
  type_covered = covered;
  algorithm = 13;
  expiration = 2000;
  inception = 1000;
  key_tag = tag;
  signer_name = [];
  signature = [];
}

abbrev pub toy_sign : Option ℕ → Rr → List Rr → Result ℕ Rr
toy_sign none draft rrs = err 0
toy_sign (some k) draft rrs =
    ok (record draft { rdata = rrsig_data (signature_of (head_type rrs) 7) })

abbrev pub toy_walk : List RrSet → List RrSet
toy_walk sets = sets

abbrev pub zone : Bytes
zone = bytes "example."

abbrev pub www : Bytes
www = bytes "www.example."

abbrev pub rr_of : Bytes → Rdata → Rr
rr_of name rdata = record { name = name; class = class_inet; ttl = 60; rdata = rdata }

abbrev pub www_rr : Rr
www_rr = rr_of www (a_data (9 ∷ 8 ∷ 7 ∷ 6 ∷ []))

abbrev pub provider : DnssecProvider ℕ
provider = record {
  key = rr_of zone (dnskey_data 257 3 13 []);
  algorithm = 13;
  key_tag = 7;
  private_key = some 1;
  nsec_types = none;
}

abbrev pub handler : SimpleHandler ℕ
handler = record {
  provider = some provider;
  zone = zone;
  ns = bytes "ns1.example.";
  more_ns = [];
  host_master_mbox = bytes "hostmaster.example.";
  static_records = www_rr ∷ [];
  soa_sig = none;
}

abbrev pub ask : Bytes → ℕ → Option Opt → Msg
ask name qtype opt = record {
  id = 1;
  opcode = 0;
  rcode = 0;
  authoritative = false;
  truncated = false;
  compress = false;
  question = record { name = name; qtype = qtype; qclass = class_inet };
  answer = [];
  ns = [];
  opt = opt;
}

abbrev nothing_generated : Generated ℕ
nothing_generated = none

abbrev pub www_a : Msg
www_a = ask www type_a none

abbrev dnssec_opt : Opt
dnssec_opt = new_opt 1232 true

abbrev pub with_dnssec : Msg → Msg
with_dnssec msg = record msg { opt = some dnssec_opt }

resolve_lem_example :
    let resp = resolve toy_dns handler nothing_generated www_a (reply_to www_a 0) in
    (resp.rcode ≡ rcode_success) × (resp.answer ≡ www_rr ∷ []) × (resp.ns ≡ [])
unfolding get_static equals_ascii_ignore_case has_prefix_ascii_ignore_case prefix_loop same_letter
    rrtype_of
resolve_lem_example =
    resolve_lem handler nothing_generated www_a toy_dns (reply_to www_a 0) refl refl refl

abbrev notify : Msg
notify = record www_a { opcode = 4 }

serve_dns-refused_example :
    let resp = serve_dns toy_dns toy_sign toy_walk handler nothing_generated tcp 5000 notify in
    (resp.rcode ≡ rcode_not_implemented) × (resp.answer ≡ []) × (resp.ns ≡ [])
serve_dns-refused_example =
    serve_dns-refused toy_dns toy_sign toy_walk handler nothing_generated tcp 5000 notify
      toy_dns-IsReplying rcode_not_implemented refl

serve_dns-plain_example :
    serve_dns toy_dns toy_sign toy_walk handler nothing_generated tcp 5000 www_a
    ≡ resolve toy_dns handler nothing_generated www_a (
        started toy_dns toy_sign toy_walk handler nothing_generated tcp 5000 www_a
          toy_dns-IsReplying)
serve_dns-plain_example =
    serve_dns-plain toy_dns toy_sign toy_walk handler nothing_generated tcp 5000 www_a
      toy_dns-IsReplying refl refl (unfold asks_dnssec in refl) refl

-- A signed answer, with the record and its signature.
abbrev pub found : Msg
found = record (reply_to www_a 0) { answer = www_rr ∷ [] }

add_padding-multiple_example :
    (k : ℕ) × (toy_dns.packed_length (add_padding toy_dns (with_dnssec www_a) 468) ≡ some k)
    × (k % 468 ≡ 0)
add_padding-multiple_example =
    add_padding-multiple toy_dns (with_dnssec www_a) dnssec_opt 23 468 toy_dns-IsAdditive
      (omega arith) (omega arith) refl refl

abbrev pub printers : Printers
printers = record {
  itoa = λ n. (b'0' + n) ∷ [];
  printable = λ s. s;
  subnet_text = λ address n. address;
}

abbrev pub peer : Peer
peer = record { protocol = tcp; ip = bytes "192.0.2.1"; info = none; tls_state = none }

answer-resolve_example :
    let plain = answer printers handler peer true www_a none (reply_to www_a 0) in
    let resp = resolve toy_dns handler nothing_generated www_a (reply_to www_a 0) in
    (plain.rcode ≡ resp.rcode) × (plain.answer ≡ resp.answer) × (plain.ns ≡ resp.ns)
answer-resolve_example =
    answer-resolve toy_dns printers handler peer true www_a (reply_to www_a 0) ℕ refl
