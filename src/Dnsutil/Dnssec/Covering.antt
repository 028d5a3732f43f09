-- ===== src/Dnsutil/Dnssec/Covering.antt =====
-- What Sign of internal/dnsutil/dnssec.go signs.
use addr_tools.Prelude.{
  ◌==◌, if◌then◌else◌, Bool-cases, length, keep, head?, Result, ok, err, ◌>>=◌, map_ok, >>=-eq-ok,
  map_ok-eq-ok, ℕ, suc, ◌≡◌, refl, sym, ap, ◌∙◌, ◌≢◌, inl, inr, Bool, true, false, not, ◌&&◌, ◌||◌,
  Option, none, some, List, [], ◌∷◌, ◌++◌, arith,
}
use addr_tools.Dns.{Rr, rrtype}
use addr_tools.Dnsutil.Dnssec.{
  DnssecProvider, SignError, RrSet, add_rr, is_rrsig, covered_type, signed_types, rrs_by_type,
  mem_type, sign_one, sign_loop, sign, template, signing_error,
}

abbrev pub head_type : List Rr → ℕ
head_type [] = 0
head_type (rr ∷ rrs) = rrtype rr

-- The number of signatures that cover the type.
unfoldable pub signatures_of : ℕ → List Rr → ℕ
signatures_of t [] = 0
signatures_of t (rr ∷ rrs) =
    if mem_type t (covered_type rr.rdata) then suc (signatures_of t rrs) else signatures_of t rrs

-- Whether a record, no signature, has the type.
unfoldable pub has_type : ℕ → List Rr → Bool
has_type t [] = false
has_type t (rr ∷ rrs) = (not (is_rrsig rr) && rrtype rr == t) || has_type t rrs

-- The sets to sign whose records have the type.
abbrev is_unsigned : ℕ → List ℕ → RrSet → Bool
is_unsigned t signed (key, rrs) = not (mem_type key signed) && head_type rrs == t

unfoldable keys : List RrSet → List ℕ
keys [] = []
keys ((key, rrs) ∷ sets) = key ∷ keys sets

-- Each set has records of its type, and its type only once.
unfoldable IsGrouped : List RrSet → Type 0
IsGrouped [] = Unit {0}
IsGrouped ((key, rrs) ∷ sets) =
    (head? rrs ≢ none) × (head_type rrs ≡ key) × (mem_type key (keys sets) ≡ false) × IsGrouped sets

keys-add_rr :
    (t : ℕ) (rr : Rr) (sets : List RrSet)
    → mem_type t (keys (add_rr rr sets)) ≡ (mem_type t (keys sets) || rrtype rr == t)
unfolding add_rr keys mem_type
keys-add_rr t rr [] = ground arith
keys-add_rr t rr ((key, rrs) ∷ sets) = ground (arith, keys-add_rr t rr sets)

head_type-append :
    (rrs : List Rr) (rr : Rr) → head? rrs ≢ none → head_type (rrs ++ rr ∷ []) ≡ head_type rrs
head_type-append [] rr h = ground arith
head_type-append (x ∷ rrs) rr h = refl

head-append : (rrs : List Rr) (rr : Rr) → head? (rrs ++ rr ∷ []) ≢ none
head-append [] rr h = ground arith
head-append (x ∷ rrs) rr h = ground arith

add_rr-IsGrouped : (rr : Rr) (sets : List RrSet) → IsGrouped sets → IsGrouped (add_rr rr sets)
unfolding add_rr IsGrouped keys mem_type
add_rr-IsGrouped rr [] h = ((λ e. ground arith), refl, refl, tt)
add_rr-IsGrouped rr ((key, rrs) ∷ sets) (filled, e, alone, rest) =
    elim (Bool-cases (key == rrtype rr)) [
      | inl here ↦ rw (here) (head-append rrs rr, head_type-append rrs rr filled ∙ e, alone, rest)
      | inr there ↦
          rw (there)
            (filled, e, (ground (arith, keys-add_rr key rr sets)), add_rr-IsGrouped rr sets rest)
    ]

rrs_by_type-IsGrouped :
    (sets : List RrSet) (rrs : List Rr) → IsGrouped sets → IsGrouped (rrs_by_type sets rrs)
unfolding rrs_by_type
rrs_by_type-IsGrouped sets [] h = h
rrs_by_type-IsGrouped sets (rr ∷ rrs) h = elim (Bool-cases (is_rrsig rr)) [
  | inl skip ↦ rw (skip) (rrs_by_type-IsGrouped sets rrs h)
  | inr keep ↦ rw (keep) (rrs_by_type-IsGrouped (add_rr rr sets) rrs (add_rr-IsGrouped rr sets h))
]

keys-rrs_by_type :
    (t : ℕ) (sets : List RrSet) (rrs : List Rr)
    → mem_type t (keys (rrs_by_type sets rrs)) ≡ (mem_type t (keys sets) || has_type t rrs)
unfolding rrs_by_type has_type
keys-rrs_by_type t sets [] = ground arith
keys-rrs_by_type t sets (rr ∷ rrs) = elim (Bool-cases (is_rrsig rr)) [
  | inl skip ↦ rw (skip) (keys-rrs_by_type t sets rrs)
  | inr keep ↦
      rw (keep, keys-rrs_by_type t (add_rr rr sets) rrs, keys-add_rr t rr sets) (ground arith)
]

-- A grouping has a set to sign of the type just when it has the type and no signature is there.
keep-IsGrouped :
    (t : ℕ) (signed : List ℕ) (sets : List RrSet)
    → IsGrouped sets
    → length (keep (is_unsigned t signed) sets)
      ≡ (if mem_type t (keys sets) && not (mem_type t signed) then 1 else 0)
unfolding IsGrouped keys mem_type
keep-IsGrouped t signed [] h = refl
keep-IsGrouped t signed ((key, rrs) ∷ sets) (filled, e, alone, rest) =
    elim (Bool-cases (key == t)) [
      | inl here ↦ ground (arith, keep-IsGrouped t signed sets rest)
      | inr there ↦ ground (arith, keep-IsGrouped t signed sets rest)
    ]

-- sig.Sign of miekg/dns covers the type of the first record.
abbrev pub IsCovering : {K E : Type 0} → (Option K → Rr → List Rr → Result E Rr) → Type 0
IsCovering {K} sign_set =
    (key : Option K) (draft done : Rr) (rrs : List Rr)
    → sign_set key draft rrs ≡ ok done
    → covered_type done.rdata ≡ head_type rrs ∷ []

-- Go walks each entry of a map once, in any order.
abbrev pub IsWalking : (List RrSet → List RrSet) → Type 0
IsWalking walk =
    (which : RrSet → Bool) (sets : List RrSet)
    → length (keep which (walk sets)) ≡ length (keep which sets)

module _ {K E : Type 0} (sign_set : Option K → Rr → List Rr → Result E Rr)
    (walk : List RrSet → List RrSet) (covering : IsCovering sign_set) (p : DnssecProvider K)
    (now valid_from valid_to t : ℕ) where
  abbrev signing : List Rr → Result E Rr
  signing rrs = sign_set p.private_key (template p now valid_from valid_to rrs) rrs

  abbrev loop : List ℕ → List RrSet → Result (SignError E) (List Rr)
  loop signed sets = sign_loop sign_set walk p now valid_from valid_to signed sets

  abbrev one : List Rr → Result (SignError E) Rr
  one rrs = sign_one sign_set walk p now valid_from valid_to rrs

  signing_error-ok : (done : Rr) (r : Result E Rr) → signing_error r ≡ ok done → r ≡ ok done
  signing_error-ok done (ok sig) h = cc
  signing_error-ok done (err e) h = absurd (cc)

  sign_one-covers :
      (rrs : List Rr) (done : Rr)
      → one rrs ≡ ok done
      → mem_type t (covered_type done.rdata) ≡ (head_type rrs == t)
  unfolding mem_type
  sign_one-covers rrs done h =
      ap (mem_type t) (
        covering p.private_key (template p now valid_from valid_to rrs) done rrs
          (signing_error-ok done (signing rrs) h))
      ∙ ground arith

  abbrev count : List ℕ → List RrSet → ℕ
  count signed sets = length (keep (is_unsigned t signed) sets)

  signatures_of-step :
      (signed : List ℕ) (key : ℕ) (rrs : List Rr) (sets : List RrSet) (sigs : List Rr) (b : Bool)
      → mem_type key signed ≡ b
      → ((more : List Rr) → loop signed sets ≡ ok more → signatures_of t more ≡ count signed sets)
      → (if b
          then loop signed sets
          else (one rrs >>= λ sig. map_ok (λ more. sig ∷ more) (loop signed sets)))
        ≡ ok sigs
      → signatures_of t sigs ≡ count signed ((key, rrs) ∷ sets)
  unfolding signatures_of
  signatures_of-step signed key rrs sets sigs true e ih h = ground (arith, ih sigs h)
  signatures_of-step signed key rrs sets sigs false e ih h =
      let (sig, first, both) =
        >>=-eq-ok (one rrs) (λ sig. map_ok (λ more. sig ∷ more) (loop signed sets)) h in
      let (more, rest, split) = map_ok-eq-ok (λ more. sig ∷ more) (loop signed sets) both in
      ap (signatures_of t) (sym split) ∙ ground (arith, sign_one-covers rrs sig first, ih more rest)

  -- The loop makes one signature for each set that is not signed yet.
  signatures_of-sign_loop :
      (signed : List ℕ) (sets : List RrSet) (sigs : List Rr)
      → loop signed sets ≡ ok sigs
      → signatures_of t sigs ≡ count signed sets
  unfolding sign_loop signatures_of
  signatures_of-sign_loop signed [] sigs h = ground arith
  signatures_of-sign_loop signed ((key, rrs) ∷ sets) sigs h =
      signatures_of-step signed key rrs sets sigs (mem_type key signed) refl
        (signatures_of-sign_loop signed sets) h

  -- Where Sign succeeds, each type of the records has one signature, whatever the order of the map: no
  -- new one if a signature among the records covered it, and one otherwise.
  pub sign-covers :
      (rr : Rr) (rrs sigs : List Rr)
      → IsWalking walk
      → sign sign_set walk (some p) now valid_from valid_to (rr ∷ rrs) ≡ ok sigs
      → signatures_of t sigs
        ≡ (if has_type t (rr ∷ rrs) && not (mem_type t (signed_types (rr ∷ rrs))) then 1 else 0)
  unfolding sign IsGrouped keys mem_type
  sign-covers rr rrs sigs walking h =
      signatures_of-sign_loop (signed_types (rr ∷ rrs)) (walk (rrs_by_type [] (rr ∷ rrs))) sigs h
      ∙ walking (is_unsigned t (signed_types (rr ∷ rrs))) (rrs_by_type [] (rr ∷ rrs))
      ∙ keep-IsGrouped t (signed_types (rr ∷ rrs)) (rrs_by_type [] (rr ∷ rrs))
          (rrs_by_type-IsGrouped [] (rr ∷ rrs) tt)
      ∙ ap (λ (b : Bool). if b && not (mem_type t (signed_types (rr ∷ rrs))) then 1 else 0)
          (keys-rrs_by_type t [] (rr ∷ rrs))
