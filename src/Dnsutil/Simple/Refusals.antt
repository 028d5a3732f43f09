-- ===== src/Dnsutil/Simple/Refusals.antt =====
-- The requests that ServeDNS of internal/dnsutil/simple.go refuses, and what it does with the others.
use addr_tools.Prelude.{
  ltb, ◌==◌, if◌then◌else◌, Bool-cases, Result, ℕ, ◌%◌, ◌≡◌, refl, ap, ◌∙◌, inl, inr, Bool, true,
  false, not, ◌&&◌, ◌||◌, Option, none, some, List, [], arith,
}
use addr_tools.Dns.{
  Rr, Question, Msg, DnsLibrary, IsReplying, class_inet, type_dnskey, rcode_bad_vers,
  rcode_not_implemented, rcode_format_error, rcode_refused, asks_dnssec,
}
use addr_tools.Dnsutil.Strings.{equals_ascii_ignore_case}
use addr_tools.Dnsutil.Edns.{
  check_and_set_edns, check_opt, Protocol, udp, tcp, tls, quic, no_proto, resize_for_transport,
}
use addr_tools.Dnsutil.Dnssec.{DnssecProvider, RrSet, provide_keys, is_provable}
use addr_tools.Dnsutil.Dnssec.Denial.{prove-unasked}
use addr_tools.Dnsutil.Simple.{
  SimpleHandler, Generated, refused_type, resolve, serve_dns, finish, after_type, after_edns,
  or_server_failure,
}

abbrev pub has_bad_version : Msg → Bool
has_bad_version req = elim req.opt [ none ↦ false | some opt ↦ not (opt.version == 0) ]

-- The meta types are 128 to 255, ANY among them, and those whose bit of 128 is set.
abbrev pub type_rcode : ℕ → Option ℕ
type_rcode qtype =
    if qtype == 41 || qtype == 128
    then some rcode_format_error
    else if qtype == 46 || qtype == 47
    then some rcode_refused
    else if ltb (qtype % 256) 128 || qtype == 255
    then none
    else some rcode_not_implemented

-- The rcode of a request that is refused whatever the zone holds.
abbrev pub early_rcode : Msg → Option ℕ
early_rcode req =
    if not (req.opcode == 0)
    then some rcode_not_implemented
    else if has_bad_version req
    then some rcode_bad_vers
    else if not (req.question.qclass == class_inet)
    then some rcode_not_implemented
    else type_rcode req.question.qtype

refused_type-type_rcode : (qtype : ℕ) → refused_type qtype ≡ type_rcode qtype
unfolding refused_type
refused_type-type_rcode qtype = ground arith

check_and_set_edns_lem :
    (req resp : Msg)
    → let (failed, done) = check_and_set_edns req resp in
      (failed ≡ has_bad_version req)
      × (done.answer ≡ resp.answer)
      × (done.ns ≡ resp.ns)
      × (done.rcode ≡ (if has_bad_version req then rcode_bad_vers else resp.rcode))
unfolding check_and_set_edns check_opt
check_and_set_edns_lem req resp = ground arith

unprovable : (req resp : Msg) → asks_dnssec req ≡ false → is_provable req resp ≡ false
unprovable req resp plain = ground arith

abbrev pub is_key_question : {K : Type 0} → Option (DnssecProvider K) → Question → Bool
is_key_question none q = false
is_key_question (some p) q =
    q.qclass == class_inet && q.qtype == type_dnskey && equals_ascii_ignore_case q.name p.key.name

provide_keys-others :
    {K : Type 0} (p : Option (DnssecProvider K)) (req resp : Msg)
    → is_key_question p req.question ≡ false
    → provide_keys p req resp ≡ (false, resp)
unfolding provide_keys
provide_keys-others none req resp other = refl
provide_keys-others (some p) req resp other = ground arith

module _ (L : DnsLibrary) {K E G : Type 0} (sign_set : Option K → Rr → List Rr → Result E Rr)
    (walk : List RrSet → List RrSet) (h : SimpleHandler K) (found : Generated G)
    (protocol : Protocol) (now : ℕ) (req : Msg) (replying : IsReplying L) where
  abbrev pub served : Msg
  served = serve_dns L sign_set walk h found protocol now req

  abbrev pub start : Msg
  start = record (L.set_reply req) { authoritative = true }

  abbrev pub started : Msg
  started = (check_and_set_edns req start).1

  abbrev after_class : Msg → Option ℕ
  after_class resp =
      if req.question.qclass == class_inet
      then refused_type req.question.qtype
      else some rcode_not_implemented

  HasNothing : ℕ → Msg → Type 0
  HasNothing code resp = (resp.rcode ≡ code) × (resp.answer ≡ []) × (resp.ns ≡ [])

  after_type-refused :
      (resp : Msg) (refused : Option ℕ) (code : ℕ)
      → resp.answer ≡ []
      → resp.ns ≡ []
      → refused ≡ some code
      → HasNothing code (after_type L sign_set walk h found protocol now req resp refused)
  unfolding HasNothing
  after_type-refused resp none code no_answer no_ns e = ground arith
  after_type-refused resp (some other) code no_answer no_ns e = (ground arith, no_answer, no_ns)

  after_edns-refused :
      (b : Bool) (resp : Msg) (code : ℕ)
      → resp.answer ≡ []
      → resp.ns ≡ []
      → (if b then some resp.rcode else after_class resp) ≡ some code
      → HasNothing code (after_edns L sign_set walk h found protocol now req (b, resp))
  unfolding HasNothing
  after_edns-refused true resp code no_answer no_ns e = (ground arith, no_answer, no_ns)
  after_edns-refused false resp code no_answer no_ns e =
      elim (Bool-cases (req.question.qclass == class_inet)) [
        | inl inet ↦ rw (inet) (
            after_type-refused resp (refused_type req.question.qtype) code no_answer no_ns
              (ground arith))
        | inr other ↦ rw (other) (ground arith, no_answer, no_ns)
      ]

  after_edns-resolves :
      (b : Bool) (resp : Msg)
      → (if b then some resp.rcode else after_class resp) ≡ none
      → is_key_question h.provider req.question ≡ false
      → after_edns L sign_set walk h found protocol now req (b, resp)
        ≡ finish L sign_set walk h found protocol now req (resolve L h found req resp)
  after_edns-resolves true resp e other = ground arith
  after_edns-resolves false resp e other = elim (Bool-cases (req.question.qclass == class_inet)) [
    | inl inet ↦
        let open_type : refused_type req.question.qtype ≡ none = ground arith in
        rw (inet, open_type, provide_keys-others h.provider req resp other) refl
    | inr outside ↦ ground arith
  ]

  abbrev rejected : Bool
  rejected = (check_and_set_edns req start).0

  started-empty : (started.answer ≡ []) × (started.ns ≡ [])
  started-empty =
      let (failed, answer, ns, rcode) = check_and_set_edns_lem req start in
      (answer ∙ replying.reply_answer req, ns ∙ replying.reply_ns req)

  early_rcode-query :
      req.opcode == 0 ≡ true
      → (if rejected then some started.rcode else after_class started) ≡ early_rcode req
  early_rcode-query query =
      ground (arith, check_and_set_edns_lem req start, refused_type-type_rcode req.question.qtype)

  -- With a library that replies as documented, ServeDNS answers a request that is refused early
  -- with the rcode for its opcode, EDNS version, class or type and without records, whatever the
  -- zone holds.
  pub serve_dns-refused :
      (code : ℕ)
      → early_rcode req ≡ some code
      → (served.rcode ≡ code) × (served.answer ≡ []) × (served.ns ≡ [])
  unfolding serve_dns HasNothing
  serve_dns-refused code early = elim (Bool-cases (req.opcode == 0)) [
    | inl query ↦ rw (query) (
        after_edns-refused rejected started code started-empty.0 started-empty.1
          (early_rcode-query query ∙ early))
    | inr other ↦
        let only : rcode_not_implemented ≡ code = ground arith in
        rw (other) (
          replying.error_rcode req rcode_not_implemented ∙ only,
          replying.error_answer req rcode_not_implemented,
          replying.error_ns req rcode_not_implemented,
        )
  ]

  -- Every other request is answered from the zone, unless it asks for the keys.
  pub serve_dns-resolves :
      early_rcode req ≡ none
      → is_key_question h.provider req.question ≡ false
      → served ≡ finish L sign_set walk h found protocol now req (resolve L h found req started)
  unfolding serve_dns
  serve_dns-resolves early other = elim (Bool-cases (req.opcode == 0)) [
    | inl query ↦
        rw (query) (after_edns-resolves rejected started (early_rcode-query query ∙ early) other)
    | inr wrong ↦ ground arith
  ]

  finish-plain :
      (resp : Msg) (over : Protocol)
      → asks_dnssec req ≡ false
      → over ≡ tcp
      → finish L sign_set walk h found over now req resp ≡ resp
  unfolding resize_for_transport
  finish-plain resp tcp plain e =
      ap (or_server_failure L req)
        (prove-unasked sign_set walk now 0 0 req resp h.provider (inr (unprovable req resp plain)))
  finish-plain resp udp plain e = absurd (cc)
  finish-plain resp tls plain e = absurd (cc)
  finish-plain resp quic plain e = absurd (cc)
  finish-plain resp no_proto plain e = absurd (cc)

  -- With a library that replies as documented, ServeDNS answers a request over TCP, which is not
  -- refused early, does not ask for the zone's keys and has no DO flag, with what the zone's
  -- records give: nothing is signed, cut or padded.
  pub serve_dns-plain :
      early_rcode req ≡ none
      → is_key_question h.provider req.question ≡ false
      → asks_dnssec req ≡ false
      → protocol ≡ tcp
      → served ≡ resolve L h found req started
  serve_dns-plain early other plain over_tcp =
      serve_dns-resolves early other
      ∙ finish-plain (resolve L h found req started) protocol plain over_tcp
