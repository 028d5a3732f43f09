-- ===== src/Dnsutil/Strings/Folding.antt =====
-- Comparison without case against lowering.
use mathlib.Core.Path.{ap₂}
use addr_tools.Prelude.{
  ◌==◌, if◌then◌else◌, length, All, length-map, Bytes, IsByte, bytes_eq, bytes_eq_iff, has_prefix,
  ℕ, ◌≤◌, ◌<◌, ◌≡◌, refl, ap, ◌↔◌, true, ◌&&◌, [], ◌∷◌, map, arith,
}
use addr_tools.Dnsutil.Strings.{
  is_upper, add_32, same_letter, prefix_loop, has_prefix_ascii_ignore_case,
  equals_ascii_ignore_case, lower_copy, to_lower_ascii,
}

abbrev pub lower_byte : ℕ → ℕ
lower_byte c = if is_upper c then add_32 c else c

pub to_lower_ascii-map : (s : Bytes) → to_lower_ascii s ≡ map lower_byte s
unfolding to_lower_ascii
to_lower_ascii-map [] = refl
to_lower_ascii-map (c ∷ s) = ground (arith, to_lower_ascii-map s, lower_copy-map s)
  where
    lower_copy-map : (t : Bytes) → lower_copy t ≡ map lower_byte t
    lower_copy-map [] = refl
    lower_copy-map (d ∷ t) = ap (λ (u : Bytes). lower_byte d ∷ u) (lower_copy-map t)

same_letter_lem : (c d : ℕ) → c < 256 → d < 256 → same_letter c d ≡ (lower_byte c == lower_byte d)
unfolding same_letter
same_letter_lem c d hc hd = ground arith

prefix_loop_lem :
    (s t : Bytes)
    → All IsByte s
    → All IsByte t
    → prefix_loop s t ≡ has_prefix (map lower_byte s) (map lower_byte t)
unfolding prefix_loop has_prefix
prefix_loop_lem s [] hs ht = refl
prefix_loop_lem [] (d ∷ t) hs ht = refl
prefix_loop_lem (c ∷ s) (d ∷ t) hs ht =
    rw (same_letter_lem c d hs.0 ht.0, prefix_loop_lem s t hs.1 ht.1)

has_prefix-length : (s p : Bytes) → has_prefix s p ≡ true → length p ≤ length s
unfolding has_prefix
has_prefix-length s [] h = omega arith
has_prefix-length [] (d ∷ p) h = cc
has_prefix-length (c ∷ s) (d ∷ p) h = ground (arith, has_prefix-length s p)

-- On byte strings, the prefix test without case is the prefix test of the lowered strings.
pub has_prefix_ascii_ignore_case_lem :
    (s t : Bytes)
    → All IsByte s
    → All IsByte t
    → has_prefix_ascii_ignore_case s t ≡ has_prefix (to_lower_ascii s) (to_lower_ascii t)
unfolding has_prefix_ascii_ignore_case
has_prefix_ascii_ignore_case_lem s t hs ht =
    rw (to_lower_ascii-map s, to_lower_ascii-map t)
      (ground (
        arith,
        prefix_loop_lem s t hs ht,
        has_prefix-length (map lower_byte s) (map lower_byte t),
        length-map lower_byte s,
        length-map lower_byte t,
      ))

prefix-eq : (s t : Bytes) → length s ≡ length t → has_prefix s t ≡ bytes_eq s t
unfolding has_prefix bytes_eq
prefix-eq [] [] h = refl
prefix-eq [] (d ∷ t) h = absurd (omega arith)
prefix-eq (c ∷ s) [] h = absurd (omega arith)
prefix-eq (c ∷ s) (d ∷ t) h = ground (arith, prefix-eq s t)

equals_unfolded :
    (s t : Bytes)
    → equals_ascii_ignore_case s t ≡ (length s == length t && has_prefix_ascii_ignore_case s t)
unfolding equals_ascii_ignore_case
equals_unfolded s t = refl

pub length-to_lower_ascii : (s : Bytes) → length (to_lower_ascii s) ≡ length s
length-to_lower_ascii s = rw (to_lower_ascii-map s) (length-map lower_byte s)

-- On byte strings, EqualsAsciiIgnoreCase holds exactly when ToLowerAscii makes the two equal.
pub equals_ascii_ignore_case_iff :
    (s t : Bytes)
    → All IsByte s
    → All IsByte t
    → (equals_ascii_ignore_case s t ≡ true) ↔ (to_lower_ascii s ≡ to_lower_ascii t)
equals_ascii_ignore_case_iff s t hs ht = (
  λ e. ground (
    arith,
    equals_unfolded s t,
    has_prefix_ascii_ignore_case_lem s t hs ht,
    length-to_lower_ascii s,
    length-to_lower_ascii t,
    prefix-eq (to_lower_ascii s) (to_lower_ascii t),
    bytes_eq_iff (to_lower_ascii s) (to_lower_ascii t),
  ),
  λ e. ground (
    arith,
    equals_unfolded s t,
    has_prefix_ascii_ignore_case_lem s t hs ht,
    length-to_lower_ascii s,
    length-to_lower_ascii t,
    ap (λ (u : Bytes). length u) e,
    prefix-eq (to_lower_ascii s) (to_lower_ascii t),
    bytes_eq_iff (to_lower_ascii s) (to_lower_ascii t),
  ),
)

pub lower_byte_idem : (c : ℕ) → lower_byte (lower_byte c) ≡ lower_byte c
lower_byte_idem c = ground arith

pub lower_byte-IsByte : (c : ℕ) → IsByte c → IsByte (lower_byte c)
lower_byte-IsByte c h = ground arith

pub map-lower_byte-IsByte : (s : Bytes) → All IsByte s → All IsByte (map lower_byte s)
map-lower_byte-IsByte [] h = tt
map-lower_byte-IsByte (c ∷ s) h = (lower_byte-IsByte c h.0, map-lower_byte-IsByte s h.1)

pub map-lower_byte_idem : (s : Bytes) → map lower_byte (map lower_byte s) ≡ map lower_byte s
map-lower_byte_idem [] = refl
map-lower_byte_idem (c ∷ s) =
    ap₂ (λ (d : ℕ) (t : Bytes). d ∷ t) (lower_byte_idem c) (map-lower_byte_idem s)

-- Lowering is idempotent.
pub to_lower_ascii_idem : (s : Bytes) → to_lower_ascii (to_lower_ascii s) ≡ to_lower_ascii s
to_lower_ascii_idem s =
    rw (to_lower_ascii-map s, to_lower_ascii-map (map lower_byte s)) (map-lower_byte_idem s)

module _ (s t : Bytes) (hs : All IsByte s) (ht : All IsByte t) where
  -- The case of the letters of a name makes no difference to either test.
  pub has_prefix-lower :
      has_prefix_ascii_ignore_case (map lower_byte s) t ≡ has_prefix_ascii_ignore_case s t
  has_prefix-lower = rw (
    has_prefix_ascii_ignore_case_lem s t hs ht,
    has_prefix_ascii_ignore_case_lem (map lower_byte s) t (map-lower_byte-IsByte s hs) ht,
    to_lower_ascii-map s,
    to_lower_ascii-map (map lower_byte s),
    map-lower_byte_idem s,
  )

  pub equals-lower : equals_ascii_ignore_case (map lower_byte s) t ≡ equals_ascii_ignore_case s t
  equals-lower = ground (
    arith,
    equals_unfolded s t,
    equals_unfolded (map lower_byte s) t,
    has_prefix-lower,
    length-map lower_byte s,
  )
