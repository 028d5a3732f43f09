-- ===== src/Dnscheck/Handler.antt =====
-- DnscheckHandler and BadDnssecProvider of internal/zones/dnscheck/handler.go. Its deferred steps run in
-- the reverse of their order in the source. Init is the code of SimpleHandler's and not modelled again.
pub mod Signatures
pub mod Expiry
pub mod Effects
use addr_tools.Prelude.{
  ltb, leb, ◌==◌, if◌then◌else◌, ltb→lt, lt→ltb, leb→le, ==_iff, Bool-cases, Option-cases,
  &&-eq-true, length, length-append, take, drop, replicate, All, all, keep, head?, take-append-drop,
  length-take, length-drop, take-append, drop-append, length-map, length-replicate, length-keep,
  keep-append, take_all, Bytes, IsByte, bytes, bytes_eq, bytes_eq→eq, bytes_eq_refl, bytes_eq_iff,
  has_prefix, has_prefix-append, index_byte, or_here, last_index_byte, cons_first, split_byte, Map,
  lookup, delete, insert, Unique, lookup-delete, lookup-insert, delete-Unique, insert-Unique,
  Result, ok, err, ◌>>=◌, map_ok, >>=-eq-ok, map_ok-eq-ok, >>=-ok, map_ok-if, Result-cases, ℤ, pos,
  negsuc, negate, is_digit, decimal, unsigned, atoi, ℕ, zero, suc, ◌+◌, ◌-◌, ◌*◌, ◌/◌, ◌%◌, ◌^◌,
  ◌≤◌, ◌<◌, String, ◌≡◌, refl, sym, ap, ◌∙◌, subst, ◌≢◌, ◌↔◌, ◌⊎◌, inl, inr, Bool, true, false, not,
  ◌&&◌, ◌||◌, Option, none, some, List, [], ◌∷◌, ◌++◌, map, append-nil, append_assoc, arith,
}
use addr_tools.Dns.{
  EdnsOption, extended_error, Opt, Rr, Rdata, a_data, aaaa_data, mx_data, txt_data, rrsig_data,
  rrtype, Question, Msg, DnsLibrary, type_a, type_aaaa, type_https, type_txt, type_mx, type_any,
  class_inet, rcode_success, rcode_server_failure, rcode_name_error, rcode_not_implemented,
  rcode_refused,
}
use addr_tools.Dnsutil.Strings.{split_for_txt}
use addr_tools.Dnsutil.Edns.{
  check_and_set_edns, get_max_udp_size, Protocol, udp, tcp, tls, quic, no_proto, pad_if_asked,
  with_option,
}
use addr_tools.Dnsutil.Records.{get_static}
use addr_tools.Dnsutil.Dnssec.{DnssecProvider, SignError, RrSet, provide_keys, prove}
use addr_tools.Dnsutil.Simple.{SimpleHandler, is_empty, hinfo_rr, refused_type, or_server_failure}
use addr_tools.Dnscheck.Options.{Options, no_options, parse_options}
use addr_tools.Dnscheck.Answers.{answer}
use addr_tools.Dnscheck.Texts.{Peer, Printers, texts_of}
use addr_tools.Dnscheck.Watchers.{SimpleWatcherHub, get_watcher}

pub record BadDnssecProvider (K : Type 0) : Type 0 where
  pub key_tag_override : ℕ
  pub provider : DnssecProvider K

abbrev pub override_tag : ℕ → ℕ → Rdata → Rdata
override_tag ours override (rrsig_data sig) =
    if sig.key_tag == ours then rrsig_data (record sig { key_tag = override }) else rrsig_data sig
override_tag ours override other = other

abbrev pub override_rr : ℕ → ℕ → Rr → Rr
override_rr ours override rr = record rr { rdata = override_tag ours override rr.rdata }

-- The loop over the records of a section.
unfoldable pub override_tags : ℕ → ℕ → List Rr → List Rr
override_tags ours override [] = []
override_tags ours override (rr ∷ rrs) =
    override_rr ours override rr ∷ override_tags ours override rrs

abbrev pub override_msg : ℕ → ℕ → Msg → Msg
override_msg ours override resp = record resp {
  answer = override_tags ours override resp.answer;
  ns = override_tags ours override resp.ns;
}

-- The seconds between which the signatures of an expired answer are valid; 0 stands for "not given".
abbrev pub first_ttl : Msg → ℕ
first_ttl resp = elim (head? resp.answer) [
  | some rr ↦ rr.ttl
  | none ↦ elim (head? resp.ns) [ some rr ↦ rr.ttl | none ↦ 0 ]
]

unfoldable pub validity : ℕ → ℕ → Msg → ℕ × ℕ
validity now expired resp =
    if expired == 0
    then (0, 0)
    else (let until = (now + 2 ^ 32 - expired) % 2 ^ 32 in
        ((until + 2 ^ 32 - 7200 + 2 ^ 32 - first_ttl resp) % 2 ^ 32, until))

-- opts != nil && opts.X
abbrev pub or_none : Option Options → Options
or_none none = no_options
or_none (some o) = o

abbrev set_compressed : Bool → Msg → Msg
set_compressed true resp = record resp { compress = true }
set_compressed false resp = resp

-- The switch over the protocol, after the compress option.
unfoldable pub fit : DnsLibrary → Options → Protocol → Msg → Msg → Msg
fit L o protocol req resp =
    let first = set_compressed o.compress resp in
    elim protocol [
      | udp ↦
          if o.no_truncate
          then first
          else if o.truncate
          then record first { truncated = true; answer = []; ns = [] }
          else set_compressed o.compress (L.truncate (get_max_udp_size req) first)
      | tcp ↦ first
      | tls ↦ pad_if_asked L req first
      | quic ↦ pad_if_asked L req first
      | no_proto ↦ first
    ]

unfoldable pub bad_prove :
    {K E : Type 0}
    → (Option K → Rr → List Rr → Result E Rr)
    → (List RrSet → List RrSet)
    → Option (BadDnssecProvider K)
    → ℕ
    → ℕ
    → ℕ
    → Msg
    → Msg
    → Result (SignError E) Msg
unfolding prove override_tags
bad_prove sign_set walk none now valid_from valid_to req resp = ok resp
bad_prove sign_set walk (some p) now valid_from valid_to req resp =
    map_ok (override_msg p.provider.key_tag p.key_tag_override)
      (prove sign_set walk (some p.provider) now valid_from valid_to req resp)

module _ (L : DnsLibrary) (P : Printers) {K E : Type 0}
    (sign_set : Option K → Rr → List Rr → Result E Rr) (walk : List RrSet → List RrSet)
    (h : SimpleHandler K) (bad : Option (BadDnssecProvider K)) where
  unfoldable pub prove_options : Options → ℕ → Msg → Msg → Msg
  unfolding bad_prove validity
  prove_options o now req resp =
      if o.no_sig
      then resp
      else (let (from, until) = validity now o.expired_sig resp in
          or_server_failure L req (
            if o.bad_sig
            then bad_prove sign_set walk bad now from until req resp
            else prove sign_set walk h.provider now from until req resp))

  module _ (opts : Option Options) (peer : Peer) (allowed : Bool) (now : ℕ) where
    abbrev pub finish : Msg → Msg → Msg
    finish req resp =
        fit L (or_none opts) peer.protocol req (prove_options (or_none opts) now req resp)

    abbrev pub answer_or_keys : Msg → Bool × Msg → Msg
    answer_or_keys req (true, resp) = finish req resp
    answer_or_keys req (false, resp) = finish req (answer P h peer allowed req opts resp)

    abbrev pub after_type : Msg → Msg → Option ℕ → Msg
    after_type req resp (some code) = record resp { rcode = code }
    after_type req resp none = answer_or_keys req (provide_keys h.provider req resp)

    abbrev pub after_edns : Msg → Bool × Msg → Msg
    after_edns req (true, resp) = resp
    after_edns req (false, resp) =
        if req.question.qclass == class_inet
        then after_type req resp (refused_type req.question.qtype)
        else record resp { rcode = rcode_not_implemented }

    unfoldable pub respond : Msg → Msg
    unfolding answer prove_options fit check_and_set_edns provide_keys refused_type
    respond req =
        if req.opcode == 0
        then after_edns req
            (check_and_set_edns req (record (L.set_reply req) { authoritative = true }))
        else L.set_rcode req rcode_not_implemented

  abbrev pub subdomain_of : Msg → Bytes
  subdomain_of req = let name = req.question.name in take (length name - length h.zone) name

  abbrev pub watcher_for : {W : Type 0} → SimpleWatcherHub W → Option Options → Option W
  watcher_for hub none = none
  watcher_for hub (some o) = if ltb 0 (length o.random) then get_watcher o.random hub else none

  -- The watcher that the request is sent to, if there is one, and the message that is written.
  unfoldable pub serve_dns :
      {W : Type 0} → SimpleWatcherHub W → Peer → Bool → ℕ → Msg → Option W × Msg
  unfolding respond parse_options get_watcher
  serve_dns hub peer allowed now req =
      let opts = parse_options (subdomain_of req) in
      (watcher_for hub opts, respond opts peer allowed now req)
