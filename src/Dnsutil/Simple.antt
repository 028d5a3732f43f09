-- ===== src/Dnsutil/Simple.antt =====
-- SimpleHandler of internal/dnsutil/simple.go. ServeDNS defers its last steps; they run in the reverse
-- of their order in the source: the default for ANY, the SOA record, the proof, the size. A request's
-- name ends in the zone (the server's mux sees to that), and a handler has a name server.
pub mod Answers
pub mod Refusals
pub mod Startup
use addr_tools.Prelude.{
  ltb, leb, ◌==◌, if◌then◌else◌, ltb→lt, lt→ltb, leb→le, ==_iff, Bool-cases, Option-cases,
  &&-eq-true, length, length-append, take, drop, replicate, All, all, keep, head?, take-append-drop,
  length-take, length-drop, take-append, drop-append, length-map, length-replicate, length-keep,
  keep-append, take_all, Bytes, IsByte, bytes, bytes_eq, bytes_eq→eq, bytes_eq_refl, bytes_eq_iff,
  has_prefix, has_prefix-append, index_byte, or_here, last_index_byte, cons_first, split_byte, Map,
  lookup, delete, insert, Unique, lookup-delete, lookup-insert, delete-Unique, insert-Unique,
  Result, ok, err, ◌>>=◌, map_ok, >>=-eq-ok, map_ok-eq-ok, >>=-ok, map_ok-if, Result-cases, ℤ, pos,
  negsuc, negate, is_digit, decimal, unsigned, atoi, ℕ, zero, suc, ◌+◌, ◌-◌, ◌*◌, ◌/◌, ◌%◌, ◌^◌,
  ◌≤◌, ◌<◌, String, ◌≡◌, refl, sym, ap, ◌∙◌, subst, ◌≢◌, ◌↔◌, ◌⊎◌, inl, inr, Bool, true, false, not,
  ◌&&◌, ◌||◌, Option, none, some, List, [], ◌∷◌, ◌++◌, map, append-nil, append_assoc, arith,
}
use addr_tools.Dns.{
  Rr, Rdata, soa_data, ns_data, hinfo_data, dnskey_data, rrsig_data, rrtype, Question, Msg,
  DnsLibrary, type_soa, type_ns, type_any, type_opt, type_nxname, type_rrsig, type_nsec, class_inet,
  rcode_success, rcode_format_error, rcode_server_failure, rcode_name_error, rcode_not_implemented,
  rcode_refused, asks_dnssec,
}
use addr_tools.Dnsutil.Edns.{check_and_set_edns, Protocol, resize_for_transport}
use addr_tools.Dnsutil.Records.{get_static}
use addr_tools.Dnsutil.Dnssec.{DnssecProvider, SignError, RrSet, provide_keys, sign, prove}

-- `ns` and `more_ns` are the name servers, and `soa_sig` is the signature over the SOA record.
pub record SimpleHandler (K : Type 0) : Type 0 where
  pub provider : Option (DnssecProvider K)
  pub zone : Bytes
  pub ns : Bytes
  pub more_ns : List Bytes
  pub host_master_mbox : Bytes
  pub static_records : List Rr
  pub soa_sig : Option Rr

abbrev pub record_ttl : ℕ
record_ttl = 1800

-- The last bytes of the name, as many as the zone has: they keep the case of the question.
abbrev pub zone_suffix : Bytes → Bytes → Bytes
zone_suffix name zone = drop (length name - length zone) name

abbrev pub soa_name : Bytes → Option Question → Bytes
soa_name zone none = zone
soa_name zone (some q) = zone_suffix q.name zone

abbrev pub soa_rr : {K : Type 0} → SimpleHandler K → Bytes → Rr
soa_rr h owner = record {
  name = owner;
  class = class_inet;
  ttl = record_ttl;
  rdata = soa_data h.ns h.host_master_mbox (1 ∷ 1800 ∷ 1800 ∷ 3600 ∷ 1800 ∷ []);
}

abbrev pub soa_signature : Bytes → Bool → Option Rr → List Rr
soa_signature owner false sig = []
soa_signature owner true none = []
soa_signature owner true (some sig) = record sig { name = owner } ∷ []

unfoldable pub soa : {K : Type 0} → SimpleHandler K → Option Question → Bool → List Rr
soa h q include_sig =
    let owner = soa_name h.zone q in soa_rr h owner ∷ soa_signature owner include_sig h.soa_sig

abbrev pub ns_rr : Bytes → Bytes → Rr
ns_rr owner ns = record { name = owner; class = class_inet; ttl = record_ttl; rdata = ns_data ns }

-- The records of the apex, for the types SOA and NS.
unfoldable pub apex_records : {K : Type 0} → SimpleHandler K → Msg → List Rr
unfolding soa asks_dnssec
apex_records h req =
    let q = req.question in
    if q.qtype == type_soa
    then soa h (some q) (asks_dnssec req)
    else if q.qtype == type_ns
    then map (ns_rr q.name) (h.ns ∷ h.more_ns)
    else []

abbrev pub is_apex : {K : Type 0} → SimpleHandler K → Question → Bool
is_apex h q = length q.name == length h.zone

-- The records found, and a success if the name is valid.
abbrev pub add_found : List Rr × Bool → Msg → Msg
add_found (rrs, valid_name) resp = record resp {
  answer = resp.answer ++ rrs;
  rcode = if valid_name then rcode_success else resp.rcode;
}

unfoldable pub static_answer : {K : Type 0} → SimpleHandler K → Msg → Msg → Msg
unfolding apex_records get_static
static_answer h req resp =
    let q = req.question in
    let start = record resp { rcode = rcode_name_error } in
    let at_apex = if is_apex h q then add_found (apex_records h req, true) start else start in
    add_found (get_static q h.static_records) at_apex

-- GenerateRecords of the handler's generator, if it has one, with its result for this request.
abbrev pub Generated : Type 0 → Type 0
Generated G = Option (Result G (List Rr × Bool))

abbrev pub is_empty : List Rr → Bool
is_empty [] = true
is_empty (rr ∷ rrs) = false

abbrev pub hinfo_rr : Bytes → Rr
hinfo_rr owner = record {
  name = owner;
  class = class_inet;
  ttl = record_ttl;
  rdata = hinfo_data (bytes "RFC8482") [];
}

unfoldable pub with_default_any : Msg → Msg → Msg
with_default_any req resp =
    if req.question.qtype == type_any && resp.rcode == rcode_success && is_empty resp.answer
    then record resp { answer = resp.answer ++ hinfo_rr req.question.name ∷ [] }
    else resp

abbrev pub is_negative : Msg → Bool
is_negative resp =
    (resp.rcode == rcode_success && is_empty resp.answer) || resp.rcode == rcode_name_error

unfoldable pub with_soa : {K : Type 0} → SimpleHandler K → Msg → Msg → Msg
unfolding soa asks_dnssec
with_soa h req resp =
    if is_negative resp
    then record resp { ns = resp.ns ++ soa h (some req.question) (asks_dnssec req) }
    else resp

-- The rcode of the types that are not answered.
unfoldable pub refused_type : ℕ → Option ℕ
refused_type qtype =
    if qtype == type_opt || qtype == type_nxname
    then some rcode_format_error
    else if qtype == type_rrsig || qtype == type_nsec
    then some rcode_refused
    else if qtype == type_any
    then none
    else if (qtype / 128) % 2 == 0
    then none
    else some rcode_not_implemented

abbrev pub or_server_failure : {E : Type 0} → DnsLibrary → Msg → Result (SignError E) Msg → Msg
or_server_failure L req (ok resp) = resp
or_server_failure L req (err e) = L.set_rcode req rcode_server_failure

abbrev pub generated_answer : {G : Type 0} → DnsLibrary → Msg → Generated G → Msg → Msg
generated_answer L req none resp = resp
generated_answer L req (some (ok found)) resp = add_found found resp
generated_answer L req (some (err e)) resp = L.set_rcode req rcode_server_failure

-- The response before it is signed and made to fit.
unfoldable pub resolve :
    {K G : Type 0} → DnsLibrary → SimpleHandler K → Generated G → Msg → Msg → Msg
unfolding static_answer with_default_any with_soa
resolve L h found req resp =
    with_soa h req (with_default_any req (generated_answer L req found (static_answer h req resp)))

module _ (L : DnsLibrary) {K E G : Type 0} (sign_set : Option K → Rr → List Rr → Result E Rr)
    (walk : List RrSet → List RrSet) where
  module _ (h : SimpleHandler K) (found : Generated G) (protocol : Protocol) (now : ℕ) where
    abbrev pub finish : Msg → Msg → Msg
    finish req resp =
        resize_for_transport L protocol req
          (or_server_failure L req (prove sign_set walk h.provider now 0 0 req resp))

    abbrev pub answer_or_keys : Msg → Bool × Msg → Msg
    answer_or_keys req (true, resp) = finish req resp
    answer_or_keys req (false, resp) = finish req (resolve L h found req resp)

    abbrev pub after_type : Msg → Msg → Option ℕ → Msg
    after_type req resp (some code) = record resp { rcode = code }
    after_type req resp none = answer_or_keys req (provide_keys h.provider req resp)

    abbrev pub after_edns : Msg → Bool × Msg → Msg
    after_edns req (true, resp) = resp
    after_edns req (false, resp) =
        if req.question.qclass == class_inet
        then after_type req resp (refused_type req.question.qtype)
        else record resp { rcode = rcode_not_implemented }

    -- The one message that ServeDNS writes.
    unfoldable pub serve_dns : Msg → Msg
    unfolding resolve check_and_set_edns provide_keys prove refused_type resize_for_transport
    serve_dns req =
        if req.opcode == 0
        then after_edns req
            (check_and_set_edns req (record (L.set_reply req) { authoritative = true }))
        else L.set_rcode req rcode_not_implemented
