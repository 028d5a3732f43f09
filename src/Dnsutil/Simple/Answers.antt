-- ===== src/Dnsutil/Simple/Answers.antt =====
-- The answers of ServeDNS of internal/dnsutil/simple.go before they are signed.
use addr_tools.Prelude.{
  ◌==◌, if◌then◌else◌, Bool-cases, Option-cases, head?, ok, err, ◌≡◌, refl, inl, inr, Bool, true,
  false, not, ◌&&◌, ◌||◌, none, some, List, [], ◌∷◌, ◌++◌, append-nil, arith,
}
use addr_tools.Dns.{
  Rr, Msg, DnsLibrary, IsReplying, type_any, rcode_success, rcode_name_error, rcode_server_failure,
  asks_dnssec,
}
use addr_tools.Dnsutil.Records.{get_static}
use addr_tools.Dnsutil.Simple.{
  SimpleHandler, Generated, is_apex, apex_records, static_answer, is_empty, is_negative, hinfo_rr,
  soa, with_default_any, with_soa, generated_answer, resolve,
}

-- Whether the name exists: it is the apex, a static record has it, or the generator knows it.
abbrev pub generator_knows : {G : Type 0} → Generated G → Bool
generator_knows none = false
generator_knows (some (ok (rrs, valid))) = valid
generator_knows (some (err e)) = false

abbrev pub generated_records : {G : Type 0} → Generated G → List Rr
generated_records none = []
generated_records (some (ok (rrs, valid))) = rrs
generated_records (some (err e)) = []

abbrev pub has_failed : {G : Type 0} → Generated G → Bool
has_failed (some (err e)) = true
has_failed none = false
has_failed (some (ok found)) = false

module _ {K G : Type 0} (h : SimpleHandler K) (found : Generated G) (req : Msg) where
  abbrev pub name_exists : Bool
  name_exists =
      is_apex h req.question
      || (get_static req.question h.static_records).1
      || generator_knows found

  -- The records that answer: those of the apex, the static ones, the generated ones.
  abbrev pub answers : List Rr
  answers =
      ((if is_apex h req.question then apex_records h req else [])
        ++ (get_static req.question h.static_records).0)
      ++ generated_records found

  static_answer_lem :
      (resp : Msg)
      → resp.answer ≡ []
      → ((static_answer h req resp).rcode ≡ (
          if is_apex h req.question || (get_static req.question h.static_records).1
          then rcode_success
          else rcode_name_error))
        × ((static_answer h req resp).answer
            ≡ (if is_apex h req.question then apex_records h req else [])
              ++ (get_static req.question h.static_records).0)
        × ((static_answer h req resp).ns ≡ resp.ns)
  unfolding static_answer
  static_answer_lem resp empty = elim (Bool-cases (is_apex h req.question)) [
    | inl apex ↦ ground arith
    | inr below ↦ ground arith
  ]

  default_any-answer :
      (resp : Msg)
      → ((with_default_any req resp).rcode ≡ resp.rcode)
        × ((with_default_any req resp).ns ≡ resp.ns)
        × ((with_default_any req resp).answer ≡ (
            if req.question.qtype == type_any && resp.rcode == rcode_success && is_empty resp.answer
            then hinfo_rr req.question.name ∷ []
            else resp.answer))
  unfolding with_default_any
  default_any-answer resp = elim (Option-cases (head? resp.answer)) [
    | inl e ↦ ground arith
    | inr e ↦ ground arith
  ]

  pub with_soa_lem :
      (resp : Msg)
      → ((with_soa h req resp).rcode ≡ resp.rcode)
        × ((with_soa h req resp).answer ≡ resp.answer)
        × ((with_soa h req resp).ns
            ≡ resp.ns
              ++ (if is_negative resp then soa h (some req.question) (asks_dnssec req) else []))
  unfolding with_soa
  with_soa_lem resp = ground (arith, append-nil resp.ns)

  module _ (L : DnsLibrary) where
    generated_answer_lem :
        (generated : Generated G) (resp : Msg)
        → has_failed generated ≡ false
        → ((generated_answer L req generated resp).rcode
            ≡ (if generator_knows generated then rcode_success else resp.rcode))
          × ((generated_answer L req generated resp).answer
              ≡ resp.answer ++ generated_records generated)
          × ((generated_answer L req generated resp).ns ≡ resp.ns)
    generated_answer_lem none resp ran = ground (arith, append-nil resp.answer)
    generated_answer_lem (some (ok (rrs, valid))) resp ran = ground arith
    generated_answer_lem (some (err e)) resp ran = ground arith

    generated_answer-failed :
        (generated : Generated G) (resp : Msg)
        → has_failed generated ≡ true
        → generated_answer L req generated resp ≡ L.set_rcode req rcode_server_failure
    generated_answer-failed none resp failed = ground arith
    generated_answer-failed (some (ok found)) resp failed = ground arith
    generated_answer-failed (some (err e)) resp failed = refl

    -- The response to a query that reaches the zone's records, from a reply without records and
    -- where the generator has not failed: the rcode tells whether the name is the apex, has a
    -- static record or is known to the generator; the answers are the records of these three, or
    -- HINFO for ANY of a name that exists without any; and the authority section is the SOA
    -- record if the name does not exist or, for a type other than ANY, has no records, and empty
    -- otherwise.
    pub resolve_lem :
        (resp : Msg)
        → has_failed found ≡ false
        → resp.answer ≡ []
        → resp.ns ≡ []
        → let none_found = is_empty (answers) in
          let any = req.question.qtype == type_any in
          ((resolve L h found req resp).rcode
            ≡ (if name_exists then rcode_success else rcode_name_error))
          × ((resolve L h found req resp).answer ≡ (
              if any && name_exists && none_found
              then hinfo_rr req.question.name ∷ []
              else answers))
          × ((resolve L h found req resp).ns ≡ (
              if not (name_exists) || (none_found && not any)
              then soa h (some req.question) (asks_dnssec req)
              else []))
    unfolding resolve
    resolve_lem resp ran empty no_ns =
        let fixed = static_answer h req resp in
        let all = generated_answer L req found fixed in
        let a = static_answer_lem resp empty in
        let b = generated_answer_lem found fixed ran in
        let c = default_any-answer all in
        let d = with_soa_lem (with_default_any req all) in ground (arith, a, b, c, d)

    -- Where the generator fails, the response is SERVFAIL, without records.
    pub resolve-failed :
        (resp : Msg)
        → IsReplying L
        → has_failed found ≡ true
        → ((resolve L h found req resp).rcode ≡ rcode_server_failure)
          × ((resolve L h found req resp).answer ≡ [])
          × ((resolve L h found req resp).ns ≡ [])
    unfolding resolve
    resolve-failed resp replying failed =
        let all = generated_answer L req found (static_answer h req resp) in
        let b : all ≡ L.set_rcode req rcode_server_failure =
          generated_answer-failed found (static_answer h req resp) failed in
        ground (
          arith,
          b,
          default_any-answer all,
          with_soa_lem (with_default_any req all),
          replying.error_rcode req rcode_server_failure,
          replying.error_answer req rcode_server_failure,
          replying.error_ns req rcode_server_failure,
        )
