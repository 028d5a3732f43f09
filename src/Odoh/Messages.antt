-- ===== src/Odoh/Messages.antt =====
-- Message of internal/odoh/odoh.go: the frame of a query or a response.
pub mod RoundTrip
use addr_tools.Prelude.{
  ltb, leb, ◌==◌, if◌then◌else◌, ltb→lt, lt→ltb, leb→le, ==_iff, Bool-cases, Option-cases,
  &&-eq-true, length, length-append, take, drop, replicate, All, all, keep, head?, take-append-drop,
  length-take, length-drop, take-append, drop-append, length-map, length-replicate, length-keep,
  keep-append, take_all, Bytes, IsByte, bytes, bytes_eq, bytes_eq→eq, bytes_eq_refl, bytes_eq_iff,
  has_prefix, has_prefix-append, index_byte, or_here, last_index_byte, cons_first, split_byte, Map,
  lookup, delete, insert, Unique, lookup-delete, lookup-insert, delete-Unique, insert-Unique,
  Result, ok, err, ◌>>=◌, map_ok, >>=-eq-ok, ℤ, pos, negsuc, negate, is_digit, decimal, unsigned,
  atoi, ℕ, zero, suc, ◌+◌, ◌-◌, ◌*◌, ◌/◌, ◌%◌, ◌^◌, ◌≤◌, ◌<◌, String, ◌≡◌, refl, sym, ap, ◌∙◌,
  subst, ◌≢◌, ◌↔◌, ◌⊎◌, inl, inr, Bool, true, false, not, ◌&&◌, ◌||◌, Option, none, some, List, [],
  ◌∷◌, ◌++◌, map, append-nil, append_assoc, arith,
}
use addr_tools.Odoh.Wire.{
  Error, unsupported_suite, key_id_mismatch, malformed, too_long, nil_context, crypto, stuck,
  max_field, wire_len, append_uint16, uint16, field_bytes, uint16-append, drop-append_uint16,
  length-append_uint16, append_uint16_lem, wire_len_id, wire_len-lt,
}

pub record Message : Type 0 where
  pub kind : ℕ
  pub key_id : Bytes
  pub encrypted : Bytes

-- MessageTypeQuery and MessageTypeResponse
abbrev pub message_type_query : ℕ
message_type_query = 1

abbrev pub message_type_response : ℕ
message_type_response = 2

unfoldable pub marshal : Message → Bytes
marshal m =
    append_uint16 (append_uint16 (m.kind ∷ []) (wire_len (length m.key_id)) ++ m.key_id)
      (wire_len (length m.encrypted))
    ++ m.encrypted

-- The part of ParseMessage behind the key id.
unfoldable pub parse_encrypted : ℕ → Bytes → Bytes → Result Error Message
parse_encrypted kind key_id b =
    if ltb (length b) 2
    then err malformed
    else if not (uint16 b == length (drop 2 b))
    then err malformed
    else if uint16 b == 0
    then err malformed
    else ok (record { kind = kind; key_id = key_id; encrypted = drop 2 b })

-- The part behind the type.
unfoldable pub parse_key_id : ℕ → Bytes → Result Error Message
parse_key_id kind b =
    if ltb (length b) 2
    then err malformed
    else if ltb (length (drop 2 b)) (uint16 b)
    then err malformed
    else parse_encrypted kind (take (uint16 b) (drop 2 b)) (drop (uint16 b) (drop 2 b))

unfoldable pub parse_message : Bytes → Result Error Message
parse_message [] = err malformed
parse_message (kind ∷ b) = parse_key_id kind b
