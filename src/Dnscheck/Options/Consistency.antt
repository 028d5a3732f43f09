-- ===== src/Dnscheck/Options/Consistency.antt =====
-- The options that ParseOptions returns never contradict one another, and lie in range.
use addr_tools.Prelude.{
  ◌==◌, &&-eq-true, length, All, all, Bytes, ℕ, ◌+◌, ◌≤◌, ◌≡◌, refl, subst, ◌⊎◌, inl, inr, Bool,
  true, false, not, Option, none, some, List, [], ◌∷◌, map, arith,
}
use addr_tools.Dnsutil.Strings.Folding.{lower_byte, to_lower_ascii-map, length-to_lower_ascii}
use addr_tools.Dnscheck.Options.{
  part_cases, switch, Options, no_options, rcode_name_error, rcode_refused, set_compress,
  set_truncate, set_no_truncate, set_bad_sig, set_expired_sig, set_no_sig, set_rcode, set_null_ip,
  set_txt_fill, is_hex, set_random, parse_part, parse_parts, drop_last_dot, parse_label,
  parse_options,
}

abbrev one_if : Bool → ℕ
one_if true = 1
one_if false = 0

abbrev pub IsLowerHex : ℕ → Type 0
IsLowerHex c = (b'0' ≤ c) × (c ≤ b'9') ⊎ (b'a' ≤ c) × (c ≤ b'f')

-- What the rest of the handler may rely on: at most one option of each group, and the ranges that
-- the comments on the fields of Options state.
pub record IsConsistent (o : Options) : Type 0 where
  pub one_truncation : one_if o.truncate + one_if o.no_truncate ≤ 1
  pub one_signature : one_if o.bad_sig + one_if (not (o.expired_sig == 0)) + one_if o.no_sig ≤ 1
  pub one_answer :
      one_if (not (o.rcode == 0)) + one_if o.null_ip + one_if (not (o.txt_fill == 0)) ≤ 1
  pub expired_sig_range : o.expired_sig ≤ 99999999
  pub txt_fill_range : o.txt_fill ≤ 4096
  pub rcode_range : (o.rcode ≡ 0) ⊎ (o.rcode ≡ rcode_name_error) ⊎ (o.rcode ≡ rcode_refused)
  pub random_length : length o.random ≤ 8
  pub random_hex : All IsLowerHex o.random

-- A parser step whose successful result, if any, is consistent.
record Gives (x : Option Options) : Type 0 where
  at : (o : Options) → x ≡ some o → IsConsistent o

Gives-some : {o : Options} → IsConsistent o → Gives (some o)
Gives-some {o} c = record { at = λ o' e. subst IsConsistent (cc) c }

Gives-none : Gives none
Gives-none = record { at = λ o e. cc }

lower_hex : (c : ℕ) → is_hex c ≡ true → IsLowerHex (lower_byte c)
lower_hex c h = ground arith

all-IsLowerHex : (s : Bytes) → all is_hex s ≡ true → All IsLowerHex (map lower_byte s)
all-IsLowerHex [] h = tt
all-IsLowerHex (c ∷ s) h =
    let (a, b) = &&-eq-true (is_hex c) (all is_hex s) h in (lower_hex c a, all-IsLowerHex s b)

Gives-switch :
    (cases : List (Bool × Option Options)) (otherwise : Option Options)
    → All (λ p. Gives p.1) cases
    → Gives otherwise
    → Gives (switch cases otherwise)
Gives-switch [] otherwise h d = d
Gives-switch ((true, x) ∷ rest) otherwise h d = h.0
Gives-switch ((false, x) ∷ rest) otherwise h d = Gives-switch rest otherwise h.1 d

module _ {o : Options} (c : IsConsistent o) where
  set_compress-IsConsistent : Gives (set_compress o)
  unfolding set_compress
  set_compress-IsConsistent = record { at = λ o' e. ground arith }

  set_truncate-IsConsistent : Gives (set_truncate o)
  unfolding set_truncate
  set_truncate-IsConsistent = record { at = λ o' e. ground arith }

  set_no_truncate-IsConsistent : Gives (set_no_truncate o)
  unfolding set_no_truncate
  set_no_truncate-IsConsistent = record { at = λ o' e. ground arith }

  set_bad_sig-IsConsistent : Gives (set_bad_sig o)
  unfolding set_bad_sig
  set_bad_sig-IsConsistent = record { at = λ o' e. ground arith }

  set_no_sig-IsConsistent : Gives (set_no_sig o)
  unfolding set_no_sig
  set_no_sig-IsConsistent = record { at = λ o' e. ground arith }

  set_rcode-IsConsistent :
      (code : ℕ) → (code ≡ rcode_name_error) ⊎ (code ≡ rcode_refused) → Gives (set_rcode code o)
  unfolding set_rcode
  set_rcode-IsConsistent code k = record { at = λ o' e. ground arith }

  set_null_ip-IsConsistent : Gives (set_null_ip o)
  unfolding set_null_ip
  set_null_ip-IsConsistent = record { at = λ o' e. ground arith }

  set_expired_sig-IsConsistent : (s : Bytes) → Gives (set_expired_sig s o)
  unfolding set_expired_sig
  set_expired_sig-IsConsistent s = record { at = λ o' e. ground arith }

  set_txt_fill-IsConsistent : (s : Bytes) → Gives (set_txt_fill s o)
  unfolding set_txt_fill
  set_txt_fill-IsConsistent s = record { at = λ o' e. ground arith }

  set_random-IsConsistent : (s : Bytes) → Gives (set_random s o)
  unfolding set_random
  set_random-IsConsistent s = record {
    at = λ o' e. ground (arith, all-IsLowerHex s, to_lower_ascii-map s, length-to_lower_ascii s);
  }

parse_part-IsConsistent : (s : Bytes) {o : Options} → IsConsistent o → Gives (parse_part o s)
unfolding parse_part
parse_part-IsConsistent s {o} c =
    Gives-switch (part_cases o s) (set_random s o)
      (
        set_compress-IsConsistent c,
        (
          set_truncate-IsConsistent c,
          (
            set_no_truncate-IsConsistent c,
            (
              set_bad_sig-IsConsistent c,
              (
                set_expired_sig-IsConsistent c s,
                (
                  set_no_sig-IsConsistent c,
                  (
                    set_rcode-IsConsistent c rcode_name_error (inl refl),
                    (
                      set_rcode-IsConsistent c rcode_refused (inr refl),
                      (set_null_ip-IsConsistent c, (set_txt_fill-IsConsistent c s, tt)),
                    ),
                  ),
                ),
              ),
            ),
          ),
        ),
      )
      (set_random-IsConsistent c s)

Gives-parse_parts :
    (x : Option Options) (ss : List Bytes)
    → Gives x
    → ((o : Options) → IsConsistent o → Gives (parse_parts ss o))
    → Gives (elim x [ none ↦ none | some o' ↦ parse_parts ss o' ])
Gives-parse_parts none ss h k = Gives-none
Gives-parse_parts (some o) ss h k = k o (h.at o refl)

parse_parts-IsConsistent :
    (ss : List Bytes) (o : Options) → IsConsistent o → Gives (parse_parts ss o)
unfolding parse_parts
parse_parts-IsConsistent [] o c = Gives-some c
parse_parts-IsConsistent (s ∷ ss) o c =
    Gives-parse_parts (parse_part o s) ss (parse_part-IsConsistent s c)
      (parse_parts-IsConsistent ss)

no_options-IsConsistent : IsConsistent no_options
no_options-IsConsistent = record {
  one_truncation = omega arith;
  one_signature = omega arith;
  one_answer = omega arith;
  expired_sig_range = omega arith;
  txt_fill_range = omega arith;
  rcode_range = inl refl;
  random_length = omega arith;
  random_hex = tt;
}

parse_label-IsConsistent : (s : Bytes) → Gives (parse_label s)
parse_label-IsConsistent [] = Gives-some no_options-IsConsistent
parse_label-IsConsistent (c ∷ s) = parse_parts-IsConsistent _ no_options no_options-IsConsistent

-- Whatever the subdomain, the options that ParseOptions returns are consistent: at most one
-- truncation option, one signature option and one answer option, every number in its range, and
-- `random` at most eight lower-case hexadecimal digits.
pub parse_options-IsConsistent :
    (sub : Bytes) (o : Options) → parse_options sub ≡ some o → IsConsistent o
unfolding parse_options
parse_options-IsConsistent sub o e = (parse_label-IsConsistent (drop_last_dot sub)).at o e
