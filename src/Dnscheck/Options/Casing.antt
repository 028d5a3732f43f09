-- ===== src/Dnscheck/Options/Casing.antt =====
-- Resolvers may send a name with the case of its letters changed at random.
use mathlib.Core.Path.{ap₂}
use addr_tools.Prelude.{
  ◌==◌, if◌then◌else◌, drop, All, all, length-map, Bytes, IsByte, bytes, or_here, last_index_byte,
  cons_first, split_byte, is_digit, decimal, unsigned, atoi, ℕ, zero, suc, ◌+◌, ◌-◌, ◌*◌, ◌^◌, ◌≡◌,
  refl, ap, Bool, true, false, Option, none, some, List, [], ◌∷◌, map, arith,
}
use addr_tools.Dnsutil.Strings.{to_lower_ascii}
use addr_tools.Dnsutil.Strings.Folding.{
  lower_byte, to_lower_ascii-map, map-lower_byte_idem, has_prefix-lower, equals-lower,
}
use addr_tools.Dnscheck.Options.{
  Options, no_options, set_expired_sig, set_txt_fill, is_hex, set_random, parse_part, parse_parts,
  after, drop_last_dot, parse_label, parse_options,
}

abbrev lower : Bytes → Bytes
lower = map lower_byte

all-digit-lower : (s : Bytes) → all is_digit (lower s) ≡ all is_digit s
all-digit-lower [] = refl
all-digit-lower (c ∷ s) = ground (arith, all-digit-lower s)

decimal-lower :
    (acc : ℕ) (s : Bytes) → all is_digit s ≡ true → decimal acc (lower s) ≡ decimal acc s
unfolding decimal
decimal-lower acc [] h = refl
decimal-lower acc (c ∷ s) h = ground (arith, decimal-lower (acc * 10 + (c - b'0')) s)

unsigned-lower : (s : Bytes) (limit : ℕ) → unsigned (lower s) limit ≡ unsigned s limit
unfolding unsigned
unsigned-lower [] limit = refl
unsigned-lower (c ∷ s) limit = ground (arith, all-digit-lower (c ∷ s), decimal-lower 0 (c ∷ s))

atoi-lower : (s : Bytes) → atoi (lower s) ≡ atoi s
unfolding atoi
atoi-lower [] = refl
atoi-lower (c ∷ s) = ground (
  arith,
  unsigned-lower s (2 ^ 63),
  unsigned-lower s (2 ^ 63 - 1),
  unsigned-lower (c ∷ s) (2 ^ 63 - 1),
)

drop-lower : (n : ℕ) (s : Bytes) → drop n (lower s) ≡ lower (drop n s)
drop-lower zero s = refl
drop-lower (suc n) [] = refl
drop-lower (suc n) (c ∷ s) = drop-lower n s

all-hex-lower : (s : Bytes) → all is_hex (lower s) ≡ all is_hex s
all-hex-lower [] = refl
all-hex-lower (c ∷ s) = ground (arith, all-hex-lower s)

to_lower-lower : (s : Bytes) → to_lower_ascii (lower s) ≡ to_lower_ascii s
to_lower-lower s = rw (to_lower_ascii-map s, to_lower_ascii-map (lower s)) (map-lower_byte_idem s)

set_expired_sig-lower :
    (s : Bytes) (o : Options) → set_expired_sig (lower s) o ≡ set_expired_sig s o
unfolding set_expired_sig
set_expired_sig-lower s o = rw (length-map lower_byte s, drop-lower 10 s, atoi-lower (drop 10 s))

set_txt_fill-lower : (s : Bytes) (o : Options) → set_txt_fill (lower s) o ≡ set_txt_fill s o
unfolding set_txt_fill
set_txt_fill-lower s o = rw (drop-lower 7 s, atoi-lower (drop 7 s))

set_random-lower : (s : Bytes) (o : Options) → set_random (lower s) o ≡ set_random s o
unfolding set_random
set_random-lower s o = rw (length-map lower_byte s, all-hex-lower s, to_lower-lower s)

literal-IsByte :
    All IsByte (bytes "compress")
    × All IsByte (bytes "truncate")
    × All IsByte (bytes "notruncate")
    × All IsByte (bytes "badsig")
    × All IsByte (bytes "expiredsig")
    × All IsByte (bytes "nosig")
    × All IsByte (bytes "nxdomain")
    × All IsByte (bytes "refused")
    × All IsByte (bytes "nullip")
    × All IsByte (bytes "txtfill")
literal-IsByte = omega arith

parse_part-lower :
    (o : Options) (s : Bytes) → All IsByte s → parse_part o (lower s) ≡ parse_part o s
unfolding parse_part
parse_part-lower o s h = rw (
  equals-lower s (bytes "compress") h literal-IsByte.0,
  equals-lower s (bytes "truncate") h literal-IsByte.1,
  equals-lower s (bytes "notruncate") h literal-IsByte.2,
  equals-lower s (bytes "badsig") h literal-IsByte.3,
  has_prefix-lower s (bytes "expiredsig") h literal-IsByte.4,
  equals-lower s (bytes "nosig") h literal-IsByte.5,
  equals-lower s (bytes "nxdomain") h literal-IsByte.6,
  equals-lower s (bytes "refused") h literal-IsByte.7,
  equals-lower s (bytes "nullip") h literal-IsByte.8,
  has_prefix-lower s (bytes "txtfill") h literal-IsByte.9,
  set_expired_sig-lower s o,
  set_txt_fill-lower s o,
  set_random-lower s o,
)

parse_parts-lower :
    (ss : List Bytes) (o : Options)
    → All (All IsByte) ss
    → parse_parts (map lower ss) o ≡ parse_parts ss o
unfolding parse_parts
parse_parts-lower [] o h = refl
parse_parts-lower (s ∷ ss) o h =
    rw (parse_part-lower o s h.0, parse_parts)
      (then_parts (parse_part o s) (λ o'. parse_parts-lower ss o' h.1))
  where
    then_parts :
        (x : Option Options)
        → ((o' : Options) → parse_parts (map lower ss) o' ≡ parse_parts ss o')
        → ◌≡◌ {A = Option Options}
            (elim x [ none ↦ none | some o' ↦ parse_parts (map lower ss) o' ])
            (elim x [ none ↦ none | some o' ↦ parse_parts ss o' ])
    then_parts none ih = refl
    then_parts (some o') ih = ih o'

last_index_byte-lower : (s : Bytes) → last_index_byte b'.' (lower s) ≡ last_index_byte b'.' s
unfolding last_index_byte
last_index_byte-lower [] = refl
last_index_byte-lower (c ∷ s) = ap₂ or_here same_dot (last_index_byte-lower s)
  where
    same_dot : (lower_byte c == b'.') ≡ (c == b'.')
    same_dot = ground arith

drop_last_dot-lower : (s : Bytes) → drop_last_dot (lower s) ≡ lower (drop_last_dot s)
unfolding drop_last_dot
drop_last_dot-lower [] = refl
drop_last_dot-lower (c ∷ []) = ground arith
drop_last_dot-lower (c ∷ d ∷ s) = ap (λ (t : Bytes). lower_byte c ∷ t) (drop_last_dot-lower (d ∷ s))

split_byte-lower : (s : Bytes) → split_byte b'-' (lower s) ≡ map lower (split_byte b'-' s)
unfolding split_byte
split_byte-lower [] = refl
split_byte-lower (c ∷ s) =
    ground (arith, split_byte-lower s, cons_first-lower c (split_byte b'-' s))
  where
    cons_first-lower :
        (d : ℕ) (ss : List Bytes)
        → cons_first (lower_byte d) (map lower ss) ≡ map lower (cons_first d ss)
    cons_first-lower d [] = refl
    cons_first-lower d (t ∷ ss) = refl

after-lower : (i : Option ℕ) (s : Bytes) → after i (lower s) ≡ lower (after i s)
after-lower none s = refl
after-lower (some i) s = drop-lower (suc i) s

cons_first-IsByte :
    (c : ℕ) (ss : List Bytes) → IsByte c → All (All IsByte) ss → All (All IsByte) (cons_first c ss)
cons_first-IsByte c [] h k = ((h, tt), tt)
cons_first-IsByte c (s ∷ ss) h k = ((h, k.0), k.1)

split_byte-IsByte : (b : ℕ) (s : Bytes) → All IsByte s → All (All IsByte) (split_byte b s)
unfolding split_byte
split_byte-IsByte b [] h = (tt, tt)
split_byte-IsByte b (c ∷ s) h = step (c == b) (split_byte-IsByte b s h.1)
  where
    step :
        (x : Bool)
        → All (All IsByte) (split_byte b s)
        → All (All IsByte) (if x then [] ∷ split_byte b s else cons_first c (split_byte b s))
    step true rest = (tt, rest)
    step false rest = cons_first-IsByte c (split_byte b s) h.0 rest

drop-IsByte : (n : ℕ) (s : Bytes) → All IsByte s → All IsByte (drop n s)
drop-IsByte zero s h = h
drop-IsByte (suc n) [] h = tt
drop-IsByte (suc n) (c ∷ s) h = drop-IsByte n s h.1

after-IsByte : (i : Option ℕ) (s : Bytes) → All IsByte s → All IsByte (after i s)
after-IsByte none s h = h
after-IsByte (some i) s h = drop-IsByte (suc i) s h

drop_last_dot-IsByte : (s : Bytes) → All IsByte s → All IsByte (drop_last_dot s)
unfolding drop_last_dot
drop_last_dot-IsByte [] h = tt
drop_last_dot-IsByte (c ∷ []) h = ground arith
drop_last_dot-IsByte (c ∷ d ∷ s) h = (h.0, drop_last_dot-IsByte (d ∷ s) h.1)

parse_label-lower : (s : Bytes) → All IsByte s → parse_label (lower s) ≡ parse_label s
parse_label-lower [] h = refl
parse_label-lower (c ∷ s) h =
    rw
      (
        last_index_byte-lower (c ∷ s),
        after-lower (last_index_byte b'.' (c ∷ s)) (c ∷ s),
        split_byte-lower (after (last_index_byte b'.' (c ∷ s)) (c ∷ s)),
      )
      (parse_parts-lower (split_byte b'-' (after (last_index_byte b'.' (c ∷ s)) (c ∷ s))) no_options
        (split_byte-IsByte b'-' _ (after-IsByte (last_index_byte b'.' (c ∷ s)) (c ∷ s) h)))

-- The case of the letters of a query name, a string of bytes, does not change the options that
-- ParseOptions reads.
pub parse_options-to_lower :
    (sub : Bytes) → All IsByte sub → parse_options (to_lower_ascii sub) ≡ parse_options sub
unfolding parse_options
parse_options-to_lower sub h =
    rw (to_lower_ascii-map sub, drop_last_dot-lower sub)
      (parse_label-lower (drop_last_dot sub) (drop_last_dot-IsByte sub h))
