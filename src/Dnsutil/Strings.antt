-- ===== src/Dnsutil/Strings.antt =====
-- internal/dnsutil/strings.go: ASCII comparison and lowering of names, and the pieces of a TXT record.
-- ToPrintableAscii only calls golang.org/x/text and is not modelled.
pub mod Folding
pub mod Splitting
use addr_tools.Prelude.{
  ltb, leb, ◌==◌, if◌then◌else◌, ltb→lt, lt→ltb, leb→le, ==_iff, Bool-cases, Option-cases,
  &&-eq-true, length, length-append, take, drop, replicate, All, all, keep, head?, take-append-drop,
  length-take, length-drop, take-append, drop-append, length-map, length-replicate, length-keep,
  keep-append, Bytes, IsByte, bytes, bytes_eq, bytes_eq→eq, bytes_eq_refl, bytes_eq_iff, has_prefix,
  has_prefix-append, Map, lookup, delete, insert, Unique, lookup-delete, lookup-insert,
  delete-Unique, insert-Unique, Result, ok, err, ◌>>=◌, map_ok, >>=-eq-ok, ℕ, zero, suc, ◌+◌, ◌-◌,
  ◌*◌, ◌/◌, ◌%◌, ◌^◌, ◌≤◌, ◌<◌, String, ◌≡◌, refl, sym, ap, ◌∙◌, subst, ◌≢◌, ◌↔◌, ◌⊎◌, inl, inr,
  Bool, true, false, not, ◌&&◌, ◌||◌, Option, none, some, List, [], ◌∷◌, ◌++◌, map, append-nil,
  append_assoc, arith,
}

abbrev pub max_txt_string_size : ℕ
max_txt_string_size = 255

-- c >= 'A' && c <= 'Z'
abbrev pub is_upper : ℕ → Bool
is_upper c = leb b'A' c && leb c b'Z'

-- c + 32 on a byte
abbrev pub add_32 : ℕ → ℕ
add_32 c = (c + 32) % 256

-- One round of the loop of HasPrefixAsciiIgnoreCase: whether it goes on.
unfoldable pub same_letter : ℕ → ℕ → Bool
same_letter c d =
    if c == d
    then true
    else if ltb d c
    then (is_upper d && c == add_32 d)
    else (is_upper c && d == add_32 c)

unfoldable pub prefix_loop : Bytes → Bytes → Bool
unfolding same_letter
prefix_loop s [] = true
prefix_loop [] (d ∷ prefix) = false
prefix_loop (c ∷ s) (d ∷ prefix) = same_letter c d && prefix_loop s prefix

unfoldable pub has_prefix_ascii_ignore_case : Bytes → Bytes → Bool
unfolding prefix_loop
has_prefix_ascii_ignore_case s prefix =
    if ltb (length s) (length prefix) then false else prefix_loop s prefix

unfoldable pub equals_ascii_ignore_case : Bytes → Bytes → Bool
unfolding has_prefix_ascii_ignore_case
equals_ascii_ignore_case s t = length s == length t && has_prefix_ascii_ignore_case s t

-- The second loop of ToLowerAscii, over the copy.
unfoldable pub lower_copy : Bytes → Bytes
lower_copy [] = []
lower_copy (c ∷ s) = (if is_upper c then add_32 c else c) ∷ lower_copy s

-- The first loop looks for an upper-case letter; what it passes stays as it is.
unfoldable pub to_lower_ascii : Bytes → Bytes
unfolding lower_copy
to_lower_ascii [] = []
to_lower_ascii (c ∷ s) = if is_upper c then add_32 c ∷ lower_copy s else c ∷ to_lower_ascii s

-- if len(s) > 0 { strs = append(strs, s) }
abbrev pub last_piece : Bytes → List Bytes
last_piece [] = []
last_piece (c ∷ s) = (c ∷ s) ∷ []

-- The loop on fuel; `length s` rounds are enough, as `split_for_txt_lem` shows.
unfoldable pub split_loop : ℕ → Bytes → List Bytes
split_loop zero s = []
split_loop (suc fuel) s =
    let rest = take 255 s ∷ split_loop fuel (drop 255 s) in
    if ltb max_txt_string_size (length s) then rest else last_piece s

unfoldable pub split_for_txt : Bytes → List Bytes
unfolding split_loop
split_for_txt s = if leb (length s) max_txt_string_size then s ∷ [] else split_loop (length s) s
