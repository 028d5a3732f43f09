-- ===== src/Dnscheck/Answers.antt =====
-- The body of ServeDNS of internal/zones/dnscheck/handler.go: the answers that the options ask for.
use addr_tools.Prelude.{
  ltb, ◌==◌, if◌then◌else◌, length, take, replicate, keep, Bytes, bytes, Bool, true, false, not,
  ◌&&◌, Option, none, some, List, [], ◌∷◌, ◌++◌, map,
}
use addr_tools.Dns.{
  extended_error, Rr, Rdata, a_data, aaaa_data, mx_data, txt_data, rrtype, Question, Msg, type_a,
  type_aaaa, type_https, type_txt, type_mx, type_any, class_inet, rcode_success, rcode_name_error,
  rcode_refused,
}
use addr_tools.Dnsutil.Strings.{split_for_txt}
use addr_tools.Dnsutil.Edns.{with_option}
use addr_tools.Dnsutil.Records.{get_static}
use addr_tools.Dnsutil.Simple.{SimpleHandler, is_empty, hinfo_rr}
use addr_tools.Dnscheck.Records.{static_answer, with_soa}
use addr_tools.Dnscheck.Options.{Options}
use addr_tools.Dnscheck.Texts.{Peer, Printers, texts_of}

-- An EDE record with the code 0 in the OPT record of the response.
abbrev pub explain : Bytes → Msg → Msg
explain text resp = elim (resp.opt) [
  | none ↦ resp
  | some opt ↦ record resp { opt = some (with_option (extended_error 0 text) opt) }
]

abbrev pub add_answers : List Rr → Msg → Msg
add_answers rrs resp = record resp { answer = resp.answer ++ rrs }

abbrev short_rr : Bytes → Rdata → Rr
short_rr owner rdata = record { name = owner; class = class_inet; ttl = 1; rdata = rdata }

-- The zone's own records of a type, under another name.
abbrev pub zone_copies : {K : Type 0} → SimpleHandler K → Question → List Rr
zone_copies h q =
    if ltb (length h.zone) (length q.name)
    then map (λ rr. short_rr q.name rr.rdata)
        (keep (λ rr. rrtype rr == q.qtype)
          (get_static (record q { name = h.zone }) h.static_records).0)
    else []

abbrev null_or : Bool → Bytes → Rdata → List Rr → List Rr
null_or true owner null others = short_rr owner null ∷ []
null_or false owner null others = others

abbrev https_or : Bool → List Rr → List Rr
https_or true others = []
https_or false others = take 1 others

-- TXT records: `allowed` is the limiter's decision, which is asked for with the txtfill option only.
abbrev pub txt_answer : Bytes → List Bytes → Rr
txt_answer owner strs = short_rr owner (txt_data strs)

abbrev pub fill_answer : Options → Bool → Bytes → Msg → Msg
fill_answer o true owner resp =
    add_answers (txt_answer owner (split_for_txt (replicate o.txt_fill b'0')) ∷ []) resp
fill_answer o false owner resp = record (explain (bytes "too busy, try again later") resp) {
  rcode = rcode_refused;
}

module _ (P : Printers) {K : Type 0} (h : SimpleHandler K) (peer : Peer) (allowed : Bool)
    (req : Msg) where
  abbrev text_answers : Options → Msg → Msg
  text_answers o resp =
      let q = req.question in
      if o.txt_fill == 0
      then add_answers (map (λ txt. txt_answer q.name (split_for_txt txt)) (texts_of P peer req))
          resp
      else fill_answer o allowed q.name resp

  -- The switch over the types.
  unfoldable pub type_answers : Options → Msg → Msg
  unfolding get_static texts_of split_for_txt
  type_answers o resp =
      let q = req.question in
      if q.qtype == type_a
      then add_answers (null_or o.null_ip q.name (a_data (replicate 4 0)) (zone_copies h q)) resp
      else if q.qtype == type_aaaa
      then add_answers (null_or o.null_ip q.name (aaaa_data (replicate 16 0)) (zone_copies h q))
          resp
      else if q.qtype == type_https
      then add_answers (https_or o.null_ip (zone_copies h q)) resp
      else if q.qtype == type_txt
      then text_answers o resp
      else if q.qtype == type_mx
      then add_answers (short_rr q.name (mx_data 0 (b'.' ∷ [])) ∷ []) resp
      else resp

  abbrev option_answers : Options → Msg → Msg
  option_answers o resp =
      let q = req.question in
      if not (o.rcode == 0)
      then record resp { rcode = o.rcode }
      else if q.qtype == type_any && is_empty resp.answer
      then add_answers (hinfo_rr q.name ∷ []) resp
      else type_answers o resp

  abbrev pub answer_options : Option Options → Msg → Msg
  answer_options none resp =
      if resp.rcode == rcode_name_error
      then explain (bytes "invalid subdomain options") resp
      else resp
  answer_options (some o) resp = option_answers o (record resp { rcode = rcode_success })

  -- The response before it is signed and made to fit.
  unfoldable pub answer : Option Options → Msg → Msg
  unfolding type_answers static_answer with_soa
  answer opts resp = with_soa h req (answer_options opts (static_answer h req resp))
