-- ===== src/Dnscheck/Handler/Signatures.antt =====
-- The signatures of the bad provider of internal/zones/dnscheck/handler.go.
use addr_tools.Prelude.{
  All, Result, ok, map_ok-eq-ok, ℕ, ◌≡◌, ap, subst, ◌≢◌, Option, none, some, List, [], ◌∷◌, arith,
}
use addr_tools.Dns.{Rr, Rdata, rrsig_data, Msg}
use addr_tools.Dnsutil.Dnssec.{RrSet, prove}
use addr_tools.Dnscheck.Handler.{
  BadDnssecProvider, override_tag, override_tags, override_msg, bad_prove,
}

abbrev pub tag_of : Rdata → Option ℕ
tag_of (rrsig_data sig) = some sig.key_tag
tag_of other = none

override_tag-other :
    (ours override : ℕ) (rdata : Rdata)
    → override ≢ ours
    → tag_of (override_tag ours override rdata) ≢ some ours
override_tag-other ours override rdata differ = ground arith

override_tags-other :
    (ours override : ℕ) (rrs : List Rr)
    → override ≢ ours
    → All (λ rr. tag_of rr.rdata ≢ some ours) (override_tags ours override rrs)
unfolding override_tags
override_tags-other ours override [] differ = tt
override_tags-other ours override (rr ∷ rrs) differ =
    (override_tag-other ours override rr.rdata differ, override_tags-other ours override rrs differ)

-- Once Prove of the bad provider succeeds, where the tag that it writes is not that of its own
-- key, no signature in the answers or the authority section has the tag of that key.
pub bad_prove-other :
    {K E : Type 0} (sign_set : Option K → Rr → List Rr → Result E Rr)
    (walk : List RrSet → List RrSet) (p : BadDnssecProvider K) (now from until : ℕ)
    (req resp done : Msg)
    → p.key_tag_override ≢ p.provider.key_tag
    → bad_prove sign_set walk (some p) now from until req resp ≡ ok done
    → All (λ rr. tag_of rr.rdata ≢ some p.provider.key_tag) done.answer
      × All (λ rr. tag_of rr.rdata ≢ some p.provider.key_tag) done.ns
unfolding bad_prove
bad_prove-other sign_set walk p now from until req resp done differ h =
    let (mid, proved, e) =
      map_ok-eq-ok (override_msg p.provider.key_tag p.key_tag_override)
        (prove sign_set walk (some p.provider) now from until req resp) h in
    (
      subst (λ rrs. All (λ rr. tag_of rr.rdata ≢ some p.provider.key_tag) rrs)
          (ap (λ m. m.answer) e)
          (override_tags-other p.provider.key_tag p.key_tag_override mid.answer differ),
      subst (λ rrs. All (λ rr. tag_of rr.rdata ≢ some p.provider.key_tag) rrs) (ap (λ m. m.ns) e)
          (override_tags-other p.provider.key_tag p.key_tag_override mid.ns differ),
    )
