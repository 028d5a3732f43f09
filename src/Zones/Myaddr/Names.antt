-- ===== src/Zones/Myaddr/Names.antt =====
-- The rule for names that the comment in IsValidName states.
use addr_tools.Prelude.{
  leb, ◌==◌, length, all, Bytes, is_digit, ℕ, suc, ◌≡◌, refl, Bool, true, false, ◌&&◌, ◌||◌, [],
  ◌∷◌, arith,
}
use addr_tools.Zones.Myaddr.{name_loop, is_valid_name}

abbrev pub is_letter : ℕ → Bool
is_letter c = (leb b'A' c && leb c b'Z') || (leb b'a' c && leb c b'z')

abbrev pub is_name_byte : ℕ → Bool
is_name_byte c = is_letter c || is_digit c || c == b'-'

abbrev pub starts_with_letter : Bytes → Bool
starts_with_letter [] = false
starts_with_letter (c ∷ s) = is_letter c

abbrev pub ends_with_alphanumeric : Bytes → Bool
ends_with_alphanumeric [] = true
ends_with_alphanumeric (c ∷ []) = is_letter c || is_digit c
ends_with_alphanumeric (c ∷ d ∷ s) = ends_with_alphanumeric (d ∷ s)

name_loop_lem :
    (i : ℕ) (s : Bytes) → name_loop (suc i) s ≡ (all is_name_byte s && ends_with_alphanumeric s)
unfolding name_loop
name_loop_lem i [] = refl
name_loop_lem i (c ∷ []) = ground arith
name_loop_lem i (c ∷ d ∷ s) = ground (arith, name_loop_lem (suc i) (d ∷ s))

-- IsValidName accepts exactly what its comment says: 6 to 40 bytes, all of them letters, digits or
-- hyphens, of which the first is a letter and the last a letter or a digit.
pub is_valid_name_lem :
    (s : Bytes)
    → is_valid_name s ≡ (
        leb 6 (length s)
        && leb (length s) 40
        && starts_with_letter s
        && all is_name_byte s
        && ends_with_alphanumeric s)
unfolding is_valid_name name_loop
is_valid_name_lem [] = refl
is_valid_name_lem (c ∷ []) = ground arith
is_valid_name_lem (c ∷ d ∷ s) = ground (arith, name_loop_lem 0 (d ∷ s))
