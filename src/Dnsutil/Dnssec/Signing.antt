-- ===== src/Dnsutil/Dnssec/Signing.antt =====
-- The signatures in the answers that Prove of internal/dnsutil/dnssec.go leaves.
use addr_tools.Prelude.{
  ltb, ◌==◌, if◌then◌else◌, Result, ok, ◌>>=◌, >>=-eq-ok, map_ok-eq-ok, ℕ, ◌+◌, ◌≡◌, refl, sym, ap,
  ◌∙◌, ◌≢◌, Bool, true, ◌&&◌, ◌||◌, Option, some, List, [], ◌∷◌, ◌++◌, arith,
}
use addr_tools.Dns.{Rr, Msg}
use addr_tools.Dnsutil.Dnssec.{
  DnssecProvider, SignError, RrSet, covered_type, signed_types, mem_type, sign, sign_answer,
  sign_ns, prove_asked, prove_answer, is_provable, wants_compact, prove,
}
use addr_tools.Dnsutil.Dnssec.Covering.{signatures_of, has_type, IsCovering, IsWalking, sign-covers}
use addr_tools.Dnsutil.Dnssec.Denial.{prove_with-asked}

signatures_of-append :
    (t : ℕ) (rrs more : List Rr)
    → signatures_of t (rrs ++ more) ≡ signatures_of t rrs + signatures_of t more
unfolding signatures_of
signatures_of-append t [] more = omega arith
signatures_of-append t (rr ∷ rrs) more = ground (arith, signatures_of-append t rrs more)

mem_type-append :
    (t : ℕ) (ts us : List ℕ) → mem_type t (ts ++ us) ≡ (mem_type t ts || mem_type t us)
unfolding mem_type
mem_type-append t [] us = refl
mem_type-append t (u ∷ ts) us = ground (arith, mem_type-append t ts us)

-- A type is signed just when a signature covers it.
signed_types-signatures_of :
    (t : ℕ) (rrs : List Rr) → mem_type t (signed_types rrs) ≡ ltb 0 (signatures_of t rrs)
unfolding signed_types signatures_of mem_type
signed_types-signatures_of t [] = ground arith
signed_types-signatures_of t (rr ∷ rrs) = ground (
  arith,
  mem_type-append t (covered_type rr.rdata) (signed_types rrs),
  signed_types-signatures_of t rrs,
)

module _ {K E : Type 0} (sign_set : Option K → Rr → List Rr → Result E Rr)
    (walk : List RrSet → List RrSet) (covering : IsCovering sign_set) (walking : IsWalking walk)
    (now valid_from valid_to : ℕ) (req resp : Msg) where
  abbrev new_signatures : ℕ → List Rr → ℕ
  new_signatures t rrs = if has_type t rrs && signatures_of t rrs == 0 then 1 else 0

  -- Sign makes one signature for each type of a record that has none.
  pub sign-new :
      (p : DnssecProvider K) (t : ℕ) (rrs sigs : List Rr)
      → rrs ≢ []
      → sign sign_set walk (some p) now valid_from valid_to rrs ≡ ok sigs
      → signatures_of t sigs ≡ new_signatures t rrs
  sign-new p t [] sigs filled h = absurd (filled refl)
  sign-new p t (rr ∷ rrs) sigs filled h = ground (
    arith,
    sign-covers sign_set walk covering p now valid_from valid_to t rr rrs sigs walking h,
    signed_types-signatures_of t (rr ∷ rrs),
  )

  prove_answer-filled :
      (p : DnssecProvider K) (compact : Bool) (rrs : List Rr)
      → rrs ≢ []
      → prove_answer sign_set walk p now valid_from valid_to rrs compact req resp
        ≡ sign_answer sign_set walk p now valid_from valid_to resp
  prove_answer-filled p compact [] filled = absurd (filled refl)
  prove_answer-filled p compact (rr ∷ rrs) filled = refl

  -- Once Prove, with a private key, of a response with answers to a request for DNSSEC succeeds,
  -- where the library's signature covers the type of the set and the walk over a map visits each
  -- entry once: each type has the signatures that the answers held, and one more just if it is
  -- the type of a record, no signature, and had none.
  pub prove-covers :
      (p : DnssecProvider K) (k : K) (done : Msg) (t : ℕ)
      → p.private_key ≡ some k
      → is_provable req resp ≡ true
      → resp.answer ≢ []
      → prove sign_set walk (some p) now valid_from valid_to req resp ≡ ok done
      → signatures_of t done.answer
        ≡ signatures_of t resp.answer
          + (if has_type t resp.answer && signatures_of t resp.answer == 0 then 1 else 0)
  unfolding prove prove_asked
  prove-covers p k done t key asked filled h =
      let signing = sign_answer sign_set walk p now valid_from valid_to resp in
      let last : Msg → Result (SignError E) Msg = sign_ns sign_set walk p now valid_from valid_to in
      let signed : (signing >>= last) ≡ ok done =
        sym (ap (λ r. r >>= last) (prove_answer-filled p (wants_compact req) resp.answer filled))
        ∙ sym (
            prove_with-asked sign_set walk now valid_from valid_to req resp p k p.private_key key
              asked)
        ∙ h in
      let (mid, first, rest) = >>=-eq-ok signing last signed in
      let (sigs, made, e) =
        map_ok-eq-ok (λ found. record resp { answer = resp.answer ++ found })
          (sign sign_set walk (some p) now valid_from valid_to resp.answer) first in
      let (more, made', e') =
        map_ok-eq-ok (λ found. record mid { ns = mid.ns ++ found })
          (sign sign_set walk (some p) now valid_from valid_to mid.ns) rest in
      let same : done.answer ≡ resp.answer ++ sigs =
        sym (ap (λ m. m.answer) e') ∙ sym (ap (λ m. m.answer) e) in
      ap (signatures_of t) same
      ∙ signatures_of-append t resp.answer sigs
      ∙ ap (λ n. signatures_of t resp.answer + n) (sign-new p t resp.answer sigs filled made)
