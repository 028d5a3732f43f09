-- ===== src/Dnscheck/Handler/Effects.antt =====
-- What the options do to the response of internal/zones/dnscheck/handler.go.
use addr_tools.Prelude.{
  ◌==◌, Bytes, bytes, ◌≡◌, refl, sym, ap, ◌∙◌, ◌≢◌, Bool, true, false, not, none, some, [], arith,
}
use addr_tools.Dns.{Msg, DnsLibrary, type_any}
use addr_tools.Dnsutil.Edns.{udp}
use addr_tools.Dnsutil.Simple.{
  SimpleHandler, Generated, static_answer as simple_answer, with_default_any,
  with_soa as simple_with_soa, resolve,
}
use addr_tools.Dnscheck.Records.{static_answer, with_soa}
use addr_tools.Dnscheck.Records.Copies.{with_soa_lem, with_soa_same, static_answer_same}
use addr_tools.Dnscheck.Options.{Options}
use addr_tools.Dnscheck.Texts.{Peer, Printers}
use addr_tools.Dnscheck.Answers.{explain, answer_options, answer}
use addr_tools.Dnscheck.Handler.{fit}

explain_lem :
    (text : Bytes) (resp : Msg)
    → ((explain text resp).rcode ≡ resp.rcode)
      × ((explain text resp).answer ≡ resp.answer)
      × ((explain text resp).ns ≡ resp.ns)
explain_lem text resp = ground arith

with_default_any-other :
    (req resp : Msg) → req.question.qtype == type_any ≡ false → with_default_any req resp ≡ resp
unfolding with_default_any
with_default_any-other req resp other = rw (other) refl

module _ {K : Type 0} (L : DnsLibrary) (P : Printers) (h : SimpleHandler K) (peer : Peer)
    (allowed : Bool) (req resp : Msg) where
  -- Before they are signed and made to fit, the responses without options and for a type other than
  -- ANY have the rcode, the answers and the authority section of a SimpleHandler, without a
  -- generator, for the same zone.
  pub answer-resolve :
      (G : Type 0)
      → req.question.qtype == type_any ≡ false
      → let none_generated : Generated G = none in
        ((answer P h peer allowed req none resp).rcode
          ≡ (resolve L h none_generated req resp).rcode)
        × ((answer P h peer allowed req none resp).answer
            ≡ (resolve L h none_generated req resp).answer)
        × ((answer P h peer allowed req none resp).ns ≡ (resolve L h none_generated req resp).ns)
  unfolding answer resolve with_default_any
  answer-resolve G other =
      let fixed = static_answer h req resp in
      let no_records : Generated G = none in
      let explained = answer_options P h peer allowed req none fixed in
      let plain : resolve L h no_records req resp ≡ with_soa h req fixed =
        ap (simple_with_soa h req) (
          with_default_any-other req (simple_answer h req resp) other
          ∙ sym (static_answer_same h req resp))
        ∙ sym (with_soa_same h req fixed) in
      ground (
        arith,
        plain,
        with_soa_lem h req explained,
        with_soa_lem h req fixed,
        explain_lem (bytes "invalid subdomain options") fixed,
      )

  -- With an rcode option, the response has that rcode and no answer beside the zone's own records.
  pub answer-rcode :
      (o : Options)
      → o.rcode ≢ 0
      → ((answer P h peer allowed req (some o) resp).rcode ≡ o.rcode)
        × ((answer P h peer allowed req (some o) resp).answer ≡ (static_answer h req resp).answer)
  unfolding answer
  answer-rcode o given =
      let fixed = static_answer h req resp in
      let plain : not (o.rcode == 0) ≡ true = ground arith in
      ground (arith, with_soa_lem h req (answer_options P h peer allowed req (some o) fixed))

-- Over UDP, the truncate option leaves an empty message with the TC flag, and the notruncate option
-- leaves the message as it is, compression aside, whatever the size that the request announces.
pub fit-truncate :
    (L : DnsLibrary) (o : Options) (req resp : Msg)
    → ((o.no_truncate ≡ false)
        → (o.truncate ≡ true)
        → ((fit L o udp req resp).truncated ≡ true)
          × ((fit L o udp req resp).answer ≡ [])
          × ((fit L o udp req resp).ns ≡ []))
      × ((o.no_truncate ≡ true)
          → ((fit L o udp req resp).truncated ≡ resp.truncated)
            × ((fit L o udp req resp).answer ≡ resp.answer)
            × ((fit L o udp req resp).ns ≡ resp.ns)
            × ((fit L o udp req resp).rcode ≡ resp.rcode))
unfolding fit
fit-truncate L o req resp = (λ a b. ground arith, λ a. ground arith)
