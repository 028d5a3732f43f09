-- ===== src/Dnscheck/Handler/Expiry.antt =====
-- The expired option of internal/zones/dnscheck/handler.go.
use addr_tools.Prelude.{
  All, Result, Result-cases, ℕ, ◌+◌, ◌-◌, ◌%◌, ◌^◌, ◌<◌, ◌≡◌, refl, sym, ap, ◌∙◌, subst, ◌⊎◌, inl,
  inr, false, Option, some, List, [], ◌∷◌, arith,
}
use addr_tools.Dns.{Rr, Msg, DnsLibrary, rcode_server_failure}
use addr_tools.Dnsutil.Dnssec.{RrSet, prove}
use addr_tools.Dnsutil.Dnssec.Times.{times_of, IsTimed, IsKeepingTimes, HasGrown, prove-grown}
use addr_tools.Dnsutil.Simple.{SimpleHandler, or_server_failure}
use addr_tools.Dnscheck.Options.{Options}
use addr_tools.Dnscheck.Texts.{Printers}
use addr_tools.Dnscheck.Handler.{BadDnssecProvider, first_ttl, validity, prove_options}

validity_lem :
    (now expired : ℕ) (resp : Msg)
    → 0 < expired
    → now < 2 ^ 32
    → expired + 7200 + first_ttl resp < now
    → validity now expired resp ≡ (now - expired - 7200 - first_ttl resp, now - expired)
unfolding validity
validity_lem now expired resp given clock past =
    let until = now - expired in
    let from = now - expired - 7200 - first_ttl resp in
    let a : (now + 2 ^ 32 - expired) % 2 ^ 32 ≡ until = omega arith in
    let b : (until + 2 ^ 32 - 7200 + 2 ^ 32 - first_ttl resp) % 2 ^ 32 ≡ from = omega arith in
    ground (arith, a, b)

-- A record that, if it is a signature, was valid until the given time ago, and from two hours and the TTL
-- before that.
abbrev pub IsExpired : ℕ → ℕ → ℕ → Rr → Type 0
IsExpired now expired ttl rr =
    (times : ℕ × ℕ)
    → times_of rr.rdata ≡ some times
    → (times.1 + expired ≡ now) × (times.0 + 7200 + ttl ≡ times.1)

All-IsExpired :
    (now expired ttl : ℕ) (rrs : List Rr)
    → expired + 7200 + ttl < now
    → All (IsTimed (now - expired - 7200 - ttl) (now - expired)) rrs
    → All (IsExpired now expired ttl) rrs
All-IsExpired now expired ttl [] past h = tt
All-IsExpired now expired ttl (rr ∷ rrs) past (timed, rest) = (
  (λ times e. let (a, b) = timed times e in (omega (arith, a, b), omega (arith, a, b))),
  All-IsExpired now expired ttl rrs past rest,
)

HasGrown-IsExpired :
    (now expired : ℕ) (resp done : Msg)
    → expired + 7200 + first_ttl resp < now
    → HasGrown (IsTimed (now - expired - 7200 - first_ttl resp) (now - expired)) resp done
    → HasGrown (IsExpired now expired (first_ttl resp)) resp done
HasGrown-IsExpired now expired resp done past (answers, authority, a, b, timed, timed') = (
  answers,
  authority,
  a,
  b,
  All-IsExpired now expired (first_ttl resp) answers past timed,
  All-IsExpired now expired (first_ttl resp) authority past timed',
)

module _ {K E : Type 0} (L : DnsLibrary) (P : Printers)
    (sign_set : Option K → Rr → List Rr → Result E Rr) (walk : List RrSet → List RrSet)
    (h : SimpleHandler K) (bad : Option (BadDnssecProvider K)) (o : Options) (now : ℕ)
    (req resp : Msg) where
  prove_options-proved :
      o.no_sig ≡ false
      → o.bad_sig ≡ false
      → prove_options L P sign_set walk h bad o now req resp
        ≡ or_server_failure L req (
            prove sign_set walk h.provider now
              (validity now o.expired_sig resp).0
              (validity now o.expired_sig resp).1
              req
              resp)
  unfolding prove_options
  prove_options-proved signs good = rw (signs, good) refl

  -- With the expired option and without nosig and badsig, where a signature that the library
  -- completes keeps its times, and the clock fits 32 bits and is past what is subtracted from it:
  -- the response is SERVFAIL, or it has grown at the end of its answers and of its authority
  -- section, and every signature among the records added was valid until the given time ago, from
  -- two hours and the TTL of the first record of the response before that. What the response held
  -- before, a stored SOA signature too, stays as it was.
  pub prove_options-IsExpired :
      IsKeepingTimes sign_set
      → o.no_sig ≡ false
      → o.bad_sig ≡ false
      → 0 < o.expired_sig
      → now < 2 ^ 32
      → o.expired_sig + 7200 + first_ttl resp < now
      → (prove_options L P sign_set walk h bad o now req resp
          ≡ L.set_rcode req rcode_server_failure)
        ⊎ HasGrown
            (IsExpired now o.expired_sig (first_ttl resp))
            resp
            (prove_options L P sign_set walk h bad o now req resp)
  prove_options-IsExpired keeping signs good given clock past =
      let from = now - o.expired_sig - 7200 - first_ttl resp in
      let until = now - o.expired_sig in
      let same : prove_options L P sign_set walk h bad o now req resp
          ≡ or_server_failure L req (prove sign_set walk h.provider now from until req resp) =
        prove_options-proved signs good
        ∙ ap
            (λ (v : ℕ × ℕ).
              or_server_failure L req (prove sign_set walk h.provider now v.0 v.1 req resp))
            (validity_lem now o.expired_sig resp given clock past) in
      elim (Result-cases (prove sign_set walk h.provider now from until req resp)) [
        | inl (e, failed) ↦ inl (same ∙ ap (or_server_failure L req) failed)
        | inr (done, proved) ↦
            let grown =
              prove-grown sign_set walk h.provider now from until req resp done keeping
                (omega arith) (omega arith) proved in
            let done_here : done ≡ prove_options L P sign_set walk h bad o now req resp =
              sym (same ∙ ap (or_server_failure L req) proved) in
            inr (
              subst (HasGrown (IsExpired now o.expired_sig (first_ttl resp)) resp) done_here
                (HasGrown-IsExpired now o.expired_sig resp done past grown))
      ]
