-- ===== src/Dnsutil/Dnssec/Denial.antt =====
-- What Prove of internal/dnsutil/dnssec.go does with a response without answers, and what it leaves alone.
use addr_tools.Prelude.{
  ◌==◌, Result, ok, ◌>>=◌, map_ok-eq-ok, ℕ, ◌≡◌, refl, sym, ap, ◌∙◌, ◌↔◌, ◌⊎◌, inl, inr, Bool, true,
  false, not, ◌&&◌, ◌||◌, Option, none, some, List, [], ◌∷◌, ◌++◌, arith,
}
use addr_tools.Dns.{Rr, Msg, type_ns, type_soa, type_dnskey, rcode_name_error}
use addr_tools.Dnsutil.Dnssec.{
  DnssecProvider, RrSet, mem_type, keep_types, deny, sign, sign_ns, prove_asked, prove_answer,
  is_provable, wants_compact, prove_with, prove,
}

-- A type stays in the bitmap just when it was in the list, is not the queried one and, below the apex,
-- is none of NS, SOA and DNSKEY.
pub mem_type-keep_types :
    (u qtype : ℕ) (is_apex : Bool) (ts : List ℕ)
    → mem_type u (keep_types qtype is_apex ts) ≡ (
        mem_type u ts
        && not (u == qtype)
        && (is_apex || not (u == type_ns || u == type_soa || u == type_dnskey)))
unfolding mem_type keep_types
mem_type-keep_types u qtype is_apex [] = refl
mem_type-keep_types u qtype is_apex (t ∷ ts) =
    ground (arith, mem_type-keep_types u qtype is_apex ts)

abbrev private_key_of : {K : Type 0} → Option (DnssecProvider K) → Option K
private_key_of none = none
private_key_of (some p) = p.private_key

module _ {K E : Type 0} (sign_set : Option K → Rr → List Rr → Result E Rr)
    (walk : List RrSet → List RrSet) (now valid_from valid_to : ℕ) (req resp : Msg) where
  prove_with-unasked :
      (p : DnssecProvider K) (key : Option K)
      → ((key ≡ none) ⊎ (is_provable req resp ≡ false))
      → prove_with sign_set walk p key now valid_from valid_to req resp ≡ ok resp
  prove_with-unasked p none h = refl
  prove_with-unasked p (some k) (inl e) = ground arith
  prove_with-unasked p (some k) (inr e) = rw (e) refl

  pub prove_with-asked :
      (p : DnssecProvider K) (k : K) (key : Option K)
      → key ≡ some k
      → is_provable req resp ≡ true
      → prove_with sign_set walk p key now valid_from valid_to req resp
        ≡ prove_asked sign_set walk p now valid_from valid_to (wants_compact req) req resp
  prove_with-asked p k none e asked = ground arith
  prove_with-asked p k (some k') e asked = rw (asked) refl

  -- A response that is neither a success nor a name error, or whose request does not ask for DNSSEC,
  -- stays as it is, and so does every response of a zone without a private key.
  pub prove-unasked :
      (p : Option (DnssecProvider K))
      → ((private_key_of p ≡ none) ⊎ (is_provable req resp ≡ false))
      → prove sign_set walk p now valid_from valid_to req resp ≡ ok resp
  unfolding prove
  prove-unasked none h = refl
  prove-unasked (some p) h = prove_with-unasked p p.private_key h

  pub deny-rcode :
      (p : DnssecProvider K) (compact : Bool)
      → ((deny p compact req resp).rcode ≡ rcode_name_error)
        ↔ ((resp.rcode ≡ rcode_name_error) × (compact ≡ true))
  unfolding deny
  deny-rcode p compact = (λ h. ground arith, λ h. ground arith)

  prove_answer-empty :
      (p : DnssecProvider K) (compact : Bool) (rrs : List Rr)
      → rrs ≡ []
      → prove_answer sign_set walk p now valid_from valid_to rrs compact req resp
        ≡ ok (deny p compact req resp)
  prove_answer-empty p compact [] e = refl
  prove_answer-empty p compact (rr ∷ rrs) e = ground arith

  -- Once Prove, with a private key, of a response without answers to a request for DNSSEC succeeds: the
  -- response is the denial, with what Sign makes over its authority section at the end of it.
  pub prove-denial :
      (p : DnssecProvider K) (k : K) (done : Msg)
      → p.private_key ≡ some k
      → is_provable req resp ≡ true
      → resp.answer ≡ []
      → prove sign_set walk (some p) now valid_from valid_to req resp ≡ ok done
      → (sigs : List Rr) × (sign sign_set walk
            (some p)
            now
            valid_from
            valid_to
            (deny p (wants_compact req) req resp).ns
          ≡ ok sigs)
        × (done ≡ record (deny p (wants_compact req) req resp) {
          ns = (deny p (wants_compact req) req resp).ns ++ sigs;
        })
  unfolding prove prove_asked
  prove-denial p k done key asked empty h =
      let denied : (prove_answer sign_set walk p now valid_from valid_to resp.answer
              (wants_compact req) req resp
            >>= sign_ns sign_set walk p now valid_from valid_to)
          ≡ ok done =
        sym (prove_with-asked p k p.private_key key asked) ∙ h in
      let signed : sign_ns sign_set walk p now valid_from valid_to
            (deny p (wants_compact req) req resp)
          ≡ ok done =
        sym (
          ap (λ r. r >>= sign_ns sign_set walk p now valid_from valid_to)
            (prove_answer-empty p (wants_compact req) resp.answer empty))
        ∙ denied in
      let (sigs, made, e) =
        map_ok-eq-ok
          (λ found. record (deny p (wants_compact req) req resp) {
            ns = (deny p (wants_compact req) req resp).ns ++ found;
          })
          (sign sign_set walk (some p) now valid_from valid_to
            (deny p (wants_compact req) req resp).ns)
          signed in
      (sigs, made, sym e)
