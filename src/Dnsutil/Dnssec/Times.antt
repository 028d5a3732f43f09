-- ===== src/Dnsutil/Dnssec/Times.antt =====
-- The times of the signatures that Prove of internal/dnsutil/dnssec.go adds.
use addr_tools.Prelude.{
  if◌then◌else◌, Bool-cases, All, Result, ok, err, ◌>>=◌, map_ok, >>=-eq-ok, map_ok-eq-ok, ℕ, ◌<◌,
  ◌≡◌, refl, sym, ap, ◌∙◌, subst, inl, inr, Bool, true, false, Option, none, some, List, [], ◌∷◌,
  ◌++◌, append-nil, append_assoc, arith,
}
use addr_tools.Dns.{Rr, Rdata, rrsig_data, Msg}
use addr_tools.Dnsutil.Dnssec.{
  DnssecProvider, SignError, RrSet, signed_types, rrs_by_type, mem_type, template, signing_error,
  sign_one, sign_loop, sign, nsec_rr, deny, sign_answer, sign_ns, prove_answer, prove_asked,
  is_provable, wants_compact, prove_with, prove,
}

-- Inception and expiration, of a signature.
abbrev pub times_of : Rdata → Option (ℕ × ℕ)
times_of (rrsig_data sig) = some (sig.inception, sig.expiration)
times_of other = none

-- A record that has these times if it is a signature.
abbrev pub IsTimed : ℕ → ℕ → Rr → Type 0
IsTimed from until rr =
    (times : ℕ × ℕ) → times_of rr.rdata ≡ some times → (times.0 ≡ from) × (times.1 ≡ until)

-- sig.Sign of miekg/dns leaves the times of the record that it completes.
abbrev pub IsKeepingTimes : {K E : Type 0} → (Option K → Rr → List Rr → Result E Rr) → Type 0
IsKeepingTimes {K} sign_set =
    (key : Option K) (draft done : Rr) (rrs : List Rr)
    → sign_set key draft rrs ≡ ok done
    → times_of done.rdata ≡ times_of draft.rdata

-- Both sections have grown at the end, by records that meet the predicate.
abbrev pub HasGrown : (Rr → Type 0) → Msg → Msg → Type 0
HasGrown Q resp done =
    (answers : List Rr) × (authority : List Rr) × (done.answer ≡ resp.answer ++ answers)
    × (done.ns ≡ resp.ns ++ authority)
    × All Q answers
    × All Q authority

All-append : (Q : Rr → Type 0) (rrs more : List Rr) → All Q rrs → All Q more → All Q (rrs ++ more)
All-append Q [] more h g = g
All-append Q (rr ∷ rrs) more h g = (h.0, All-append Q rrs more h.1 g)

not_grown : (Q : Rr → Type 0) (resp done : Msg) → resp ≡ done → HasGrown Q resp done
not_grown Q resp done e = (
  [],
  [],
  ap (λ m. m.answer) (sym e) ∙ sym (append-nil resp.answer),
  ap (λ m. m.ns) (sym e) ∙ sym (append-nil resp.ns),
  tt,
  tt,
)

module _ {K E : Type 0} (sign_set : Option K → Rr → List Rr → Result E Rr)
    (walk : List RrSet → List RrSet) (keeping : IsKeepingTimes sign_set) (p : DnssecProvider K)
    (now from until : ℕ) (after : 0 < from) (before : 0 < until) where
  abbrev one : List Rr → Result (SignError E) Rr
  one rrs = sign_one sign_set walk p now from until rrs

  abbrev loop : List ℕ → List RrSet → Result (SignError E) (List Rr)
  loop signed sets = sign_loop sign_set walk p now from until signed sets

  signing_error-ok : (done : Rr) (r : Result E Rr) → signing_error r ≡ ok done → r ≡ ok done
  signing_error-ok done (ok sig) h = cc
  signing_error-ok done (err e) h = absurd (cc)

  times_of-template :
      (rrs : List Rr) → times_of (template p now from until rrs).rdata ≡ some (from, until)
  times_of-template rrs = ground arith

  sign_one-IsTimed : (rrs : List Rr) (done : Rr) → one rrs ≡ ok done → IsTimed from until done
  sign_one-IsTimed rrs done h times e =
      let kept =
        keeping p.private_key (template p now from until rrs) done rrs
          (signing_error-ok done (sign_set p.private_key (template p now from until rrs) rrs) h) in
      ground (arith, sym e ∙ kept ∙ times_of-template rrs)

  loop_step :
      (signed : List ℕ) (rrs : List Rr) (sets : List RrSet) (sigs : List Rr) (b : Bool)
      → ((more : List Rr) → loop signed sets ≡ ok more → All (IsTimed from until) more)
      → (if b
          then loop signed sets
          else (one rrs >>= λ sig. map_ok (λ more. sig ∷ more) (loop signed sets)))
        ≡ ok sigs
      → All (IsTimed from until) sigs
  loop_step signed rrs sets sigs true ih h = ih sigs h
  loop_step signed rrs sets sigs false ih h =
      let (sig, first, both) =
        >>=-eq-ok (one rrs) (λ sig. map_ok (λ more. sig ∷ more) (loop signed sets)) h in
      let (more, rest, split) = map_ok-eq-ok (λ more. sig ∷ more) (loop signed sets) both in
      subst (All (IsTimed from until)) split (sign_one-IsTimed rrs sig first, ih more rest)

  loop-IsTimed :
      (signed : List ℕ) (sets : List RrSet) (sigs : List Rr)
      → loop signed sets ≡ ok sigs
      → All (IsTimed from until) sigs
  unfolding sign_loop
  loop-IsTimed signed [] sigs h = let e : [] ≡ sigs = cc in subst (All (IsTimed from until)) e tt
  loop-IsTimed signed ((t, rrs) ∷ sets) sigs h =
      loop_step signed rrs sets sigs (mem_type t signed) (loop-IsTimed signed sets) h

  sign-IsTimed :
      (rrs sigs : List Rr)
      → sign sign_set walk (some p) now from until rrs ≡ ok sigs
      → All (IsTimed from until) sigs
  unfolding sign
  sign-IsTimed [] sigs h = let e : [] ≡ sigs = cc in subst (All (IsTimed from until)) e tt
  sign-IsTimed (rr ∷ rrs) sigs h =
      loop-IsTimed (signed_types (rr ∷ rrs)) (walk (rrs_by_type [] (rr ∷ rrs))) sigs h

  sign_answer-grown :
      (resp mid : Msg)
      → sign_answer sign_set walk p now from until resp ≡ ok mid
      → HasGrown (IsTimed from until) resp mid
  sign_answer-grown resp mid h =
      let (sigs, made, e) =
        map_ok-eq-ok (λ found. record resp { answer = resp.answer ++ found })
          (sign sign_set walk (some p) now from until resp.answer) h in
      (
        sigs,
        [],
        sym (ap (λ m. m.answer) e),
        sym (ap (λ m. m.ns) e) ∙ sym (append-nil resp.ns),
        sign-IsTimed resp.answer sigs made,
        tt,
      )

  deny-grown :
      (compact : Bool) (req resp : Msg)
      → HasGrown (IsTimed from until) resp (deny p compact req resp)
  unfolding deny nsec_rr
  deny-grown compact req resp = (
    [],
    nsec_rr p req.question resp.rcode ∷ [],
    sym (append-nil resp.answer),
    refl,
    tt,
    ((λ times e. absurd (cc)), tt),
  )

  prove_answer-grown :
      (rrs : List Rr) (compact : Bool) (req resp mid : Msg)
      → prove_answer sign_set walk p now from until rrs compact req resp ≡ ok mid
      → HasGrown (IsTimed from until) resp mid
  prove_answer-grown [] compact req resp mid h =
      let e : deny p compact req resp ≡ mid = cc in
      subst (HasGrown (IsTimed from until) resp) e (deny-grown compact req resp)
  prove_answer-grown (rr ∷ rrs) compact req resp mid h = sign_answer-grown resp mid h

  prove_asked-grown :
      (compact : Bool) (req resp done : Msg)
      → prove_asked sign_set walk p now from until compact req resp ≡ ok done
      → HasGrown (IsTimed from until) resp done
  unfolding prove_asked
  prove_asked-grown compact req resp done h =
      let (mid, first, rest) =
        >>=-eq-ok (prove_answer sign_set walk p now from until resp.answer compact req resp)
          (sign_ns sign_set walk p now from until) h in
      let (answers, authority, a, b, timed, timed') =
        prove_answer-grown resp.answer compact req resp mid first in
      let (sigs, made, e) =
        map_ok-eq-ok (λ found. record mid { ns = mid.ns ++ found })
          (sign sign_set walk (some p) now from until mid.ns) rest in
      (
        answers,
        authority ++ sigs,
        sym (ap (λ m. m.answer) e) ∙ a,
        sym (ap (λ m. m.ns) e) ∙ ap (λ rrs. rrs ++ sigs) b ∙ append_assoc resp.ns authority sigs,
        timed,
        All-append (IsTimed from until) authority sigs timed' (sign-IsTimed mid.ns sigs made),
      )

  prove_with-grown :
      (key : Option K) (req resp done : Msg)
      → prove_with sign_set walk p key now from until req resp ≡ ok done
      → HasGrown (IsTimed from until) resp done
  prove_with-grown none req resp done h = not_grown (IsTimed from until) resp done (cc)
  prove_with-grown (some k) req resp done h = elim (Bool-cases (is_provable req resp)) [
    | inl asked ↦ prove_asked-grown (wants_compact req) req resp done (ground arith)
    | inr unasked ↦ not_grown (IsTimed from until) resp done (ground arith)
  ]

-- Once Prove with a beginning and an end for the signatures succeeds, each signature that it adds has them.
pub prove-grown :
    {K E : Type 0} (sign_set : Option K → Rr → List Rr → Result E Rr)
    (walk : List RrSet → List RrSet) (p : Option (DnssecProvider K)) (now from until : ℕ)
    (req resp done : Msg)
    → IsKeepingTimes sign_set
    → 0 < from
    → 0 < until
    → prove sign_set walk p now from until req resp ≡ ok done
    → HasGrown (IsTimed from until) resp done
unfolding prove
prove-grown sign_set walk none now from until req resp done keeping after before h =
    not_grown (IsTimed from until) resp done (cc)
prove-grown sign_set walk (some p) now from until req resp done keeping after before h =
    prove_with-grown sign_set walk keeping p now from until after before p.private_key req resp done
      h
