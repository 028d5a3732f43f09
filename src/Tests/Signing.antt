-- ===== src/Tests/Signing.antt =====
-- Signed answers and denials of the small zone.
use addr_tools.Prelude.{
  All, bytes, Result, ok, ℕ, ◌≡◌, refl, sym, ap, ◌≢◌, ◌⊎◌, true, Option, none, some, List, [], ◌∷◌,
  arith,
}
use addr_tools.Dns.{
  rrsig_data, Rr, rrtype_of, Msg, type_a, rcode_success, rcode_name_error, asks_dnssec,
}
use addr_tools.Dnsutil.Dnssec.{
  covered_type, sign, sign_loop, rrs_by_type, add_rr, signed_types, mem_type, nsec_rr, prove,
  prove_asked,
}
use addr_tools.Dnsutil.Dnssec.Covering.{head_type, signatures_of, has_type, IsCovering, IsWalking}
use addr_tools.Dnsutil.Dnssec.Signing.{prove-covers}
use addr_tools.Dnsutil.Dnssec.Times.{times_of, IsKeepingTimes, HasGrown}
use addr_tools.Dnscheck.Handler.Expiry.{IsExpired, prove_options-IsExpired}
use addr_tools.Dnscheck.Handler.{BadDnssecProvider, bad_prove, override_tags}
use addr_tools.Dnscheck.Handler.Signatures.{bad_prove-other, tag_of}
use addr_tools.Dns.{type_soa, type_aaaa}
use addr_tools.Dnsutil.Simple.{SimpleHandler}
use addr_tools.Dnscheck.Options.{Options, no_options}
use addr_tools.Dnscheck.Answers.{answer}
use addr_tools.Dnscheck.Handler.{prove_options}
use addr_tools.Tests.Servers.{
  ask, found, handler, printers, provider, reply_to, rr_of, signature_of, toy_dns, toy_sign,
  toy_walk, with_dnssec, www, www_a, www_rr, zone,
}

toy_sign-IsCovering : IsCovering toy_sign
toy_sign-IsCovering none draft done rrs h = absurd (cc)
toy_sign-IsCovering (some k) draft done rrs h =
    let e : record draft { rdata = rrsig_data (signature_of (head_type rrs) 7) } ≡ done = cc in
    ap (λ rr. covered_type rr.rdata) (sym e)

toy_walk-IsWalking : IsWalking toy_walk
toy_walk-IsWalking which sets = refl

abbrev signed : Msg
signed = record found {
  answer = www_rr ∷ record (rr_of [] (rrsig_data (signature_of type_a 7))) { class = 0 } ∷ [];
}

signed-prove :
    prove toy_sign toy_walk (some provider) 5000 0 0 (with_dnssec www_a) found ≡ ok signed
unfolding prove prove_asked sign sign_loop rrs_by_type add_rr signed_types mem_type rrtype_of
    asks_dnssec
signed-prove = refl

prove-covers_example : signatures_of type_a signed.answer ≡ 1
unfolding signatures_of has_type mem_type rrtype_of
prove-covers_example =
    prove-covers toy_sign toy_walk toy_sign-IsCovering toy_walk-IsWalking 5000 0 0
      (with_dnssec www_a) found provider 1 signed type_a refl (unfold asks_dnssec in refl)
      (λ e. absurd (cc)) signed-prove

-- The denial of a name.
abbrev missing : Msg
missing = with_dnssec (ask (bytes "x.example.") type_a none)

abbrev denied : Msg
denied = reply_to missing rcode_name_error

abbrev nsec : Rr
nsec = nsec_rr provider missing.question rcode_name_error

abbrev proved : Msg
proved = record denied {
  rcode = rcode_success;
  ns = nsec ∷ record (rr_of [] (rrsig_data (signature_of 47 7))) { class = 0 } ∷ [];
}

abbrev bad : BadDnssecProvider ℕ
bad = record { key_tag_override = 9; provider = provider }

abbrev bad_signed : Msg
bad_signed = record found {
  answer = www_rr ∷ record (rr_of [] (rrsig_data (signature_of type_a 9))) { class = 0 } ∷ [];
}

bad_signed-prove :
    bad_prove toy_sign toy_walk (some bad) 5000 0 0 (with_dnssec www_a) found ≡ ok bad_signed
unfolding bad_prove override_tags prove prove_asked sign sign_loop rrs_by_type add_rr signed_types
    mem_type rrtype_of asks_dnssec
bad_signed-prove = refl

bad_prove-other_example :
    All (λ rr. tag_of rr.rdata ≢ some 7) bad_signed.answer
    × All (λ rr. tag_of rr.rdata ≢ some 7) bad_signed.ns
bad_prove-other_example =
    bad_prove-other toy_sign toy_walk bad 5000 0 0 (with_dnssec www_a) found bad_signed
      (λ e. absurd (omega arith)) bad_signed-prove

-- The option nosig, and a name that has no address of the type.
abbrev soa_signature_rr : Rr
soa_signature_rr = rr_of zone (rrsig_data (signature_of type_soa 7))

abbrev signed_handler : SimpleHandler ℕ
signed_handler = record handler { soa_sig = some soa_signature_rr }

abbrev no_sig : Options
no_sig = record no_options { no_sig = true }

abbrev aaaa_request : Msg
aaaa_request = with_dnssec (ask www type_aaaa none)

-- A library that completes the record with a signature of its own.
abbrev dated_sign : Option ℕ → Rr → List Rr → Result ℕ Rr
dated_sign key draft rrs = ok (record draft { name = zone })

dated_sign-IsKeepingTimes : IsKeepingTimes dated_sign
dated_sign-IsKeepingTimes key draft done rrs h =
    let e : record draft { name = zone } ≡ done = cc in ap (λ rr. times_of rr.rdata) (sym e)

abbrev day_ago : Options
day_ago = record no_options { expired_sig = 86400 }

abbrev expired_reply : Msg
expired_reply =
    prove_options toy_dns printers dated_sign toy_walk handler none day_ago 1000000
      (with_dnssec www_a) found

prove_options-IsExpired_example :
    (expired_reply ≡ toy_dns.set_rcode (with_dnssec www_a) 2)
    ⊎ HasGrown (IsExpired 1000000 86400 60) found expired_reply
prove_options-IsExpired_example =
    prove_options-IsExpired toy_dns printers dated_sign toy_walk handler none day_ago 1000000
      (with_dnssec www_a) found dated_sign-IsKeepingTimes refl refl (omega arith) (omega arith)
      (omega arith)
