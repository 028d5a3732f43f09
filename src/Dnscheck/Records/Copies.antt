-- ===== src/Dnscheck/Records/Copies.antt =====
-- The records of internal/zones/dnscheck/handler.go beside those of internal/dnsutil/simple.go.
use addr_tools.Prelude.{
  if◌then◌else◌, Option-cases, head?, Bytes, ◌≡◌, refl, ap, inl, inr, Bool, true, false, Option,
  none, some, List, [], ◌∷◌, ◌++◌, map, append-nil, arith,
}
use addr_tools.Dns.{Question, Msg, asks_dnssec}
use addr_tools.Dnsutil.Simple.{
  SimpleHandler, ns_rr, is_negative, apex_records, soa as simple_soa,
  static_answer as simple_answer, with_soa as simple_with_soa,
}
use addr_tools.Dnscheck.Records.{
  soa, ns_answers, apex_answer, static_answer, lacks_answer, with_soa,
}

module _ {K : Type 0} (h : SimpleHandler K) where
  pub soa_same : (q : Option Question) (asked : Bool) → soa h q asked ≡ simple_soa h q asked
  unfolding soa simple_soa
  soa_same none true = elim (Option-cases h.soa_sig) [ inl e ↦ ground arith | inr e ↦ ground arith ]
  soa_same none false = refl
  soa_same (some q) true = elim (Option-cases h.soa_sig) [
    | inl e ↦ ground arith
    | inr e ↦ ground arith
  ]
  soa_same (some q) false = refl

  ns_answers-map :
      (owner : Bytes) (names : List Bytes) → ns_answers owner names ≡ map (ns_rr owner) names
  unfolding ns_answers
  ns_answers-map owner [] = refl
  ns_answers-map owner (ns ∷ names) = ap (λ rrs. ns_rr owner ns ∷ rrs) (ns_answers-map owner names)

  pub lacks_answer_same : (resp : Msg) → lacks_answer resp ≡ is_negative resp
  lacks_answer_same resp = elim (Option-cases (head? resp.answer)) [
    | inl e ↦ ground arith
    | inr e ↦ ground arith
  ]

  pub with_soa_same : (req resp : Msg) → with_soa h req resp ≡ simple_with_soa h req resp
  unfolding with_soa simple_with_soa
  with_soa_same req resp =
      ground (arith, lacks_answer_same resp, soa_same (some req.question) (asks_dnssec req))

  pub static_answer_same : (req resp : Msg) → static_answer h req resp ≡ simple_answer h req resp
  unfolding static_answer simple_answer apex_answer apex_records
  static_answer_same req resp = ground (
    arith,
    append-nil resp.answer,
    soa_same (some req.question) (asks_dnssec req),
    ns_answers-map req.question.name (h.ns ∷ h.more_ns),
  )

  pub with_soa_lem :
      (req resp : Msg)
      → ((with_soa h req resp).rcode ≡ resp.rcode)
        × ((with_soa h req resp).answer ≡ resp.answer)
        × ((with_soa h req resp).ns
            ≡ resp.ns
              ++ (if lacks_answer resp then soa h (some req.question) (asks_dnssec req) else []))
  unfolding with_soa
  with_soa_lem req resp = ground (arith, append-nil resp.ns)
