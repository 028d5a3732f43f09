-- ===== src/Odoh/Plaintexts.antt =====
-- Plaintext of internal/odoh/odoh.go: a DNS message and its padding.
pub mod RoundTrip
use addr_tools.Prelude.{
  ltb, leb, ◌==◌, if◌then◌else◌, ltb→lt, lt→ltb, leb→le, ==_iff, Bool-cases, Option-cases,
  &&-eq-true, length, length-append, take, drop, replicate, All, all, keep, head?, take-append-drop,
  length-take, length-drop, take-append, drop-append, length-map, length-replicate, length-keep,
  keep-append, take_all, Bytes, IsByte, bytes, bytes_eq, bytes_eq→eq, bytes_eq_refl, bytes_eq_iff,
  has_prefix, has_prefix-append, index_byte, or_here, last_index_byte, cons_first, split_byte, Map,
  lookup, delete, insert, Unique, lookup-delete, lookup-insert, delete-Unique, insert-Unique,
  Result, ok, err, ◌>>=◌, map_ok, >>=-eq-ok, ℤ, pos, negsuc, negate, is_digit, decimal, unsigned,
  atoi, ℕ, zero, suc, ◌+◌, ◌-◌, ◌*◌, ◌/◌, ◌%◌, ◌^◌, ◌≤◌, ◌<◌, String, ◌≡◌, refl, sym, ap, ◌∙◌,
  subst, ◌≢◌, ◌↔◌, ◌⊎◌, inl, inr, Bool, true, false, not, ◌&&◌, ◌||◌, Option, none, some, List, [],
  ◌∷◌, ◌++◌, map, append-nil, append_assoc, arith,
}
use addr_tools.Odoh.Wire.{
  Error, unsupported_suite, key_id_mismatch, malformed, too_long, nil_context, crypto, stuck,
  max_field, wire_len, append_uint16, uint16, field_bytes, uint16-append, drop-append_uint16,
  length-append_uint16, append_uint16_lem, wire_len_id, wire_len-lt,
}

pub record Plaintext : Type 0 where
  pub dns_message : Bytes
  pub padding : Bytes

unfoldable pub marshal : Plaintext → Bytes
marshal p =
    append_uint16 (append_uint16 [] (wire_len (length p.dns_message)) ++ p.dns_message)
      (wire_len (length p.padding))
    ++ p.padding

-- for _, c := range b { if c != 0 { return … } }
abbrev pub is_zeros : Bytes → Bool
is_zeros = all (λ c. c == 0)

unfoldable pub parse_padding : Bytes → Bytes → Result Error Plaintext
parse_padding dns_message b =
    if ltb (length b) 2
    then err malformed
    else if not (uint16 b == length (drop 2 b))
    then err malformed
    else if is_zeros (drop 2 b)
    then ok (record { dns_message = dns_message; padding = drop 2 b })
    else err malformed

unfoldable pub parse_plaintext : Bytes → Result Error Plaintext
parse_plaintext b =
    let dlen = uint16 b in
    if ltb (length b) 2
    then err malformed
    else if dlen == 0
    then err malformed
    else if ltb (length (drop 2 b)) dlen
    then err malformed
    else parse_padding (take dlen (drop 2 b)) (drop dlen (drop 2 b))
