-- ===== src/Dnsutil/Dnssec.antt =====
-- internal/dnsutil/dnssec.go: Sign, ProvideKeys and Prove. A provider whose signing key is missing,
-- which no constructor makes, is not represented. The order in which Go walks the map of record sets
-- is a parameter.
pub mod Covering
pub mod Denial
pub mod Signing
pub mod Times
pub mod Nonexistence
use addr_tools.Prelude.{
  ltb, leb, ◌==◌, if◌then◌else◌, ltb→lt, lt→ltb, leb→le, ==_iff, Bool-cases, Option-cases,
  &&-eq-true, length, length-append, take, drop, replicate, All, all, keep, head?, take-append-drop,
  length-take, length-drop, take-append, drop-append, length-map, length-replicate, length-keep,
  keep-append, take_all, Bytes, IsByte, bytes, bytes_eq, bytes_eq→eq, bytes_eq_refl, bytes_eq_iff,
  has_prefix, has_prefix-append, index_byte, or_here, last_index_byte, cons_first, split_byte, Map,
  lookup, delete, insert, Unique, lookup-delete, lookup-insert, delete-Unique, insert-Unique,
  Result, ok, err, ◌>>=◌, map_ok, >>=-eq-ok, >>=-ok, map_ok-if, Result-cases, ℤ, pos, negsuc,
  negate, is_digit, decimal, unsigned, atoi, ℕ, zero, suc, ◌+◌, ◌-◌, ◌*◌, ◌/◌, ◌%◌, ◌^◌, ◌≤◌, ◌<◌,
  String, ◌≡◌, refl, sym, ap, ◌∙◌, subst, ◌≢◌, ◌↔◌, ◌⊎◌, inl, inr, Bool, true, false, not, ◌&&◌,
  ◌||◌, Option, none, some, List, [], ◌∷◌, ◌++◌, map, append-nil, append_assoc, arith,
}
use addr_tools.Dns.{
  Signature, Rdata, nsec_data, rrsig_data, Rr, rrtype, Question, Msg, Opt, type_a, type_ns,
  type_soa, type_mx, type_txt, type_aaaa, type_rrsig, type_nsec, type_dnskey, type_https,
  type_nxname, class_inet, rcode_success, rcode_name_error, asks_dnssec,
}
use addr_tools.Dnsutil.Strings.{equals_ascii_ignore_case, to_lower_ascii}

abbrev pub default_nsec_types : List ℕ
default_nsec_types =
    type_a ∷ type_ns ∷ type_soa ∷ type_mx ∷ type_txt ∷ type_aaaa ∷ type_rrsig ∷ type_nsec
    ∷ type_dnskey ∷ type_https ∷ []

-- `key` is the DNSKEY record, `key_tag` its KeyTag(), and `private_key` what signs, if it is set.
pub record DnssecProvider (K : Type 0) : Type 0 where
  pub key : Rr
  pub algorithm : ℕ
  pub key_tag : ℕ
  pub private_key : Option K
  pub nsec_types : Option (List ℕ)

pub data SignError (E : Type 0) : Type 0 where
  missing_key : SignError E
  cannot_sign : E → SignError E

-- A record set under its type.
abbrev pub RrSet : Type 0
RrSet = ℕ × List Rr

-- rrsByType[rrtype] = append(rrsByType[rrtype], rr)
unfoldable pub add_rr : Rr → List RrSet → List RrSet
add_rr rr [] = (rrtype rr, rr ∷ []) ∷ []
add_rr rr ((t, rrs) ∷ sets) =
    let rest = add_rr rr sets in
    if t == rrtype rr then (t, rrs ++ rr ∷ []) ∷ sets else (t, rrs) ∷ rest

abbrev pub covered_type : Rdata → List ℕ
covered_type (rrsig_data sig) = sig.type_covered ∷ []
covered_type other = []

abbrev pub is_rrsig : Rr → Bool
is_rrsig rr = rrtype rr == type_rrsig

-- The types that an RRSIG record among the records covers.
unfoldable pub signed_types : List Rr → List ℕ
signed_types [] = []
signed_types (rr ∷ rrs) = covered_type rr.rdata ++ signed_types rrs

unfoldable pub rrs_by_type : List RrSet → List Rr → List RrSet
rrs_by_type sets [] = sets
rrs_by_type sets (rr ∷ rrs) = rrs_by_type (if is_rrsig rr then sets else add_rr rr sets) rrs

unfoldable pub mem_type : ℕ → List ℕ → Bool
mem_type t [] = false
mem_type t (u ∷ us) = u == t || mem_type t us

abbrev pub head_ttl : List Rr → ℕ
head_ttl [] = 0
head_ttl (rr ∷ rrs) = rr.ttl

-- validFrom and the expiration, 0 standing for "not given"
abbrev pub start_time : ℕ → ℕ → ℕ
start_time now valid_from = if valid_from == 0 then (now + 2 ^ 32 - 3600) % 2 ^ 32 else valid_from

abbrev pub end_time : ℕ → ℕ → ℕ → ℕ
end_time now ttl valid_to = if valid_to == 0 then (now + 3600 + ttl) % 2 ^ 32 else valid_to

abbrev pub template : {K : Type 0} → DnssecProvider K → ℕ → ℕ → ℕ → List Rr → Rr
template p now valid_from valid_to rrs = record {
  name = [];
  class = 0;
  ttl = head_ttl rrs;
  rdata = rrsig_data (record {
    type_covered = 0;
    algorithm = p.algorithm;
    expiration = end_time now (head_ttl rrs) valid_to;
    inception = start_time now valid_from;
    key_tag = p.key_tag;
    signer_name = p.key.name;
    signature = [];
  });
}

abbrev pub signing_error : {E A : Type 0} → Result E A → Result (SignError E) A
signing_error (ok a) = ok a
signing_error (err e) = err (cannot_sign e)

module _ {K E : Type 0}
    -- sig.Sign(p.PrivateKey, rrs) of miekg/dns, which completes the signature record
    (sign_set : Option K → Rr → List Rr → Result E Rr)
    -- the order in which Go walks the map
    (walk : List RrSet → List RrSet) where
  abbrev pub sign_one : DnssecProvider K → ℕ → ℕ → ℕ → List Rr → Result (SignError E) Rr
  sign_one p now valid_from valid_to rrs =
      signing_error (sign_set p.private_key (template p now valid_from valid_to rrs) rrs)

  unfoldable pub sign_loop :
      DnssecProvider K → ℕ → ℕ → ℕ → List ℕ → List RrSet → Result (SignError E) (List Rr)
  sign_loop p now valid_from valid_to signed [] = ok []
  sign_loop p now valid_from valid_to signed ((t, rrs) ∷ sets) =
      let rest = sign_loop p now valid_from valid_to signed sets in
      if mem_type t signed
      then rest
      else (sign_one p now valid_from valid_to rrs >>= λ sig. map_ok (λ sigs. sig ∷ sigs) rest)

  unfoldable pub sign :
      Option (DnssecProvider K) → ℕ → ℕ → ℕ → List Rr → Result (SignError E) (List Rr)
  sign none now valid_from valid_to rrs = err missing_key
  sign (some p) now valid_from valid_to [] = ok []
  sign (some p) now valid_from valid_to (rr ∷ rrs) =
      sign_loop p now valid_from valid_to (signed_types (rr ∷ rrs))
        (walk (rrs_by_type [] (rr ∷ rrs)))

-- The record with the name as it was asked for.
unfoldable pub provide_keys : {K : Type 0} → Option (DnssecProvider K) → Msg → Msg → Bool × Msg
provide_keys none req resp = (false, resp)
provide_keys (some p) req resp =
    if req.question.qclass == class_inet
      && req.question.qtype == type_dnskey
      && equals_ascii_ignore_case req.question.name p.key.name
    then (
      true,
      record resp { answer = resp.answer ++ record p.key { name = req.question.name } ∷ [] },
    )
    else (false, resp)

-- The loop that removes types from the bitmap of a name without the queried type.
unfoldable pub keep_types : ℕ → Bool → List ℕ → List ℕ
keep_types qtype is_apex [] = []
keep_types qtype is_apex (t ∷ ts) =
    let rest = keep_types qtype is_apex ts in
    if t == qtype || (not is_apex && (t == type_ns || t == type_soa || t == type_dnskey))
    then rest
    else t ∷ rest

abbrev pub or_default : Option (List ℕ) → List ℕ
or_default none = default_nsec_types
or_default (some ts) = ts

unfoldable pub nsec_types_for : {K : Type 0} → DnssecProvider K → Question → ℕ → List ℕ
nsec_types_for p q rcode =
    if rcode == rcode_name_error
    then type_rrsig ∷ type_nsec ∷ type_nxname ∷ []
    else keep_types q.qtype (equals_ascii_ignore_case q.name p.key.name) (or_default p.nsec_types)

unfoldable pub nsec_rr : {K : Type 0} → DnssecProvider K → Question → ℕ → Rr
unfolding nsec_types_for
nsec_rr p q rcode = record {
  name = q.name;
  class = class_inet;
  ttl = p.key.ttl;
  rdata = nsec_data (92 ∷ bytes "000." ++ to_lower_ascii q.name) (nsec_types_for p q rcode);
}

-- The proof that there is no answer. Without the CO flag a name error becomes a success.
unfoldable pub deny : {K : Type 0} → DnssecProvider K → Bool → Msg → Msg → Msg
unfolding nsec_rr
deny p compact req resp = record resp {
  rcode = if resp.rcode == rcode_name_error && not compact then rcode_success else resp.rcode;
  ns = resp.ns ++ nsec_rr p req.question resp.rcode ∷ [];
}

abbrev pub is_provable : Msg → Msg → Bool
is_provable req resp =
    (resp.rcode == rcode_success || resp.rcode == rcode_name_error)
    && req.question.qclass == class_inet
    && asks_dnssec req

abbrev pub wants_compact : Msg → Bool
wants_compact req = elim req.opt [ none ↦ false | some opt ↦ opt.compact ]

module _ {K E : Type 0} (sign_set : Option K → Rr → List Rr → Result E Rr)
    (walk : List RrSet → List RrSet) where
  module _ (p : DnssecProvider K) (now valid_from valid_to : ℕ) where
    abbrev pub sign_answer : Msg → Result (SignError E) Msg
    sign_answer resp =
        map_ok (λ sigs. record resp { answer = resp.answer ++ sigs })
          (sign sign_set walk (some p) now valid_from valid_to resp.answer)

    abbrev pub sign_ns : Msg → Result (SignError E) Msg
    sign_ns resp =
        map_ok (λ sigs. record resp { ns = resp.ns ++ sigs })
          (sign sign_set walk (some p) now valid_from valid_to resp.ns)

    -- The section of answers, or the proof that there are none.
    abbrev pub prove_answer : List Rr → Bool → Msg → Msg → Result (SignError E) Msg
    prove_answer [] compact req resp = ok (deny p compact req resp)
    prove_answer (rr ∷ rrs) compact req resp = sign_answer resp

    unfoldable pub prove_asked : Bool → Msg → Msg → Result (SignError E) Msg
    unfolding sign
    prove_asked compact req resp = prove_answer resp.answer compact req resp >>= sign_ns

  abbrev pub prove_with :
      DnssecProvider K → Option K → ℕ → ℕ → ℕ → Msg → Msg → Result (SignError E) Msg
  prove_with p none now valid_from valid_to req resp = ok resp
  prove_with p (some k) now valid_from valid_to req resp =
      if is_provable req resp
      then prove_asked p now valid_from valid_to (wants_compact req) req resp
      else ok resp

  unfoldable pub prove :
      Option (DnssecProvider K) → ℕ → ℕ → ℕ → Msg → Msg → Result (SignError E) Msg
  unfolding prove_asked asks_dnssec
  prove none now valid_from valid_to req resp = ok resp
  prove (some p) now valid_from valid_to req resp =
      prove_with p p.private_key now valid_from valid_to req resp
