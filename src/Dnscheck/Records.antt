-- ===== src/Dnscheck/Records.antt =====
-- What DnscheckHandler of internal/zones/dnscheck/handler.go has of its own beside SimpleHandler's code:
-- SOA, the records of the apex, the static records, and the deferred step that adds the SOA record. The
-- struct's fields that these read are those of SimpleHandler, so they take that record.
pub mod Copies
use addr_tools.Prelude.{
  ltb, leb, ◌==◌, if◌then◌else◌, ltb→lt, lt→ltb, leb→le, ==_iff, Bool-cases, Option-cases,
  &&-eq-true, length, length-append, take, drop, replicate, All, all, keep, head?, take-append-drop,
  length-take, length-drop, take-append, drop-append, length-map, length-replicate, length-keep,
  keep-append, take_all, Bytes, IsByte, bytes, bytes_eq, bytes_eq→eq, bytes_eq_refl, bytes_eq_iff,
  has_prefix, has_prefix-append, index_byte, or_here, last_index_byte, cons_first, split_byte, Map,
  lookup, delete, insert, Unique, lookup-delete, lookup-insert, delete-Unique, insert-Unique,
  Result, ok, err, ◌>>=◌, map_ok, >>=-eq-ok, map_ok-eq-ok, >>=-ok, map_ok-if, Result-cases, ℤ, pos,
  negsuc, negate, is_digit, decimal, unsigned, atoi, ℕ, zero, suc, ◌+◌, ◌-◌, ◌*◌, ◌/◌, ◌%◌, ◌^◌,
  ◌≤◌, ◌<◌, String, ◌≡◌, refl, sym, ap, ◌∙◌, subst, ◌≢◌, ◌↔◌, ◌⊎◌, inl, inr, Bool, true, false, not,
  ◌&&◌, ◌||◌, Option, none, some, List, [], ◌∷◌, ◌++◌, map, append-nil, append_assoc, arith,
}
use addr_tools.Dns.{
  Rr, soa_data, ns_data, rrtype, Question, Msg, type_soa, type_ns, class_inet, rcode_success,
  rcode_name_error, asks_dnssec,
}
use addr_tools.Dnsutil.Records.{get_static}
use addr_tools.Dnsutil.Simple.{SimpleHandler}

-- h.Zone, or as many bytes from the end of the name
abbrev owner_of : Bytes → Option Question → Bytes
owner_of zone none = zone
owner_of zone (some q) = drop (length q.name - length zone) q.name

abbrev pub zone_soa : {K : Type 0} → SimpleHandler K → Bytes → Rr
zone_soa h owner = record {
  name = owner;
  class = class_inet;
  ttl = 1800;
  rdata = soa_data h.ns h.host_master_mbox (1 ∷ 1800 ∷ 1800 ∷ 3600 ∷ 1800 ∷ []);
}

-- if sig := h.soaSig.Load(); sig != nil
abbrev loaded_signature : Bytes → Option Rr → List Rr
loaded_signature owner none = []
loaded_signature owner (some sig) = record sig { name = owner } ∷ []

unfoldable pub soa : {K : Type 0} → SimpleHandler K → Option Question → Bool → List Rr
soa h q include_sig =
    let owner = owner_of h.zone q in
    if include_sig
    then zone_soa h owner ∷ loaded_signature owner h.soa_sig
    else zone_soa h owner ∷ []

-- The loop over the name servers.
unfoldable pub ns_answers : Bytes → List Bytes → List Rr
ns_answers owner [] = []
ns_answers owner (ns ∷ rest) =
    record { name = owner; class = class_inet; ttl = 1800; rdata = ns_data ns }
    ∷ ns_answers owner rest

-- The apex block, on the response so far.
unfoldable pub apex_answer : {K : Type 0} → SimpleHandler K → Msg → Msg → Msg
unfolding soa ns_answers asks_dnssec
apex_answer h req resp =
    let q = req.question in
    let found = record resp { rcode = rcode_success } in
    if q.qtype == type_soa
    then record found { answer = found.answer ++ soa h (some q) (asks_dnssec req) }
    else if q.qtype == type_ns
    then record found { answer = found.answer ++ ns_answers q.name (h.ns ∷ h.more_ns) }
    else found

abbrev add_static : List Rr → Bool → Msg → Msg
add_static rrs true resp = record resp { answer = resp.answer ++ rrs; rcode = rcode_success }
add_static rrs false resp = record resp { answer = resp.answer ++ rrs }

-- From the name error that is assumed at first to the static records.
unfoldable pub static_answer : {K : Type 0} → SimpleHandler K → Msg → Msg → Msg
unfolding apex_answer get_static
static_answer h req resp =
    let q = req.question in
    let start = record resp { rcode = rcode_name_error } in
    let (rrs, valid_name) = get_static q h.static_records in
    add_static rrs valid_name
      (if length q.name == length h.zone then apex_answer h req start else start)

-- (resp.Rcode == Success && len(resp.Answer) == 0) || resp.Rcode == NameError
abbrev pub lacks_answer : Msg → Bool
lacks_answer resp =
    (resp.rcode == rcode_success && length resp.answer == 0) || resp.rcode == rcode_name_error

unfoldable pub with_soa : {K : Type 0} → SimpleHandler K → Msg → Msg → Msg
unfolding soa asks_dnssec
with_soa h req resp =
    if lacks_answer resp
    then record resp { ns = resp.ns ++ soa h (some req.question) (asks_dnssec req) }
    else resp
