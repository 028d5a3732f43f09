-- ===== src/Odoh/Configs.antt =====
-- ConfigContents of internal/odoh/odoh.go: its encodings, and ParseConfigs.
pub mod RoundTrip
use addr_tools.Prelude.{
  ltb, leb, ◌==◌, if◌then◌else◌, ltb→lt, lt→ltb, leb→le, ==_iff, Bool-cases, Option-cases,
  &&-eq-true, length, length-append, take, drop, replicate, All, all, keep, head?, take-append-drop,
  length-take, length-drop, take-append, drop-append, length-map, length-replicate, length-keep,
  keep-append, Bytes, IsByte, bytes, bytes_eq, bytes_eq→eq, bytes_eq_refl, bytes_eq_iff, has_prefix,
  has_prefix-append, index_byte, or_here, last_index_byte, cons_first, split_byte, Map, lookup,
  delete, insert, Unique, lookup-delete, lookup-insert, delete-Unique, insert-Unique, Result, ok,
  err, ◌>>=◌, map_ok, >>=-eq-ok, ℤ, pos, negsuc, negate, is_digit, decimal, unsigned, atoi, ℕ, zero,
  suc, ◌+◌, ◌-◌, ◌*◌, ◌/◌, ◌%◌, ◌^◌, ◌≤◌, ◌<◌, String, ◌≡◌, refl, sym, ap, ◌∙◌, subst, ◌≢◌, ◌↔◌,
  ◌⊎◌, inl, inr, Bool, true, false, not, ◌&&◌, ◌||◌, Option, none, some, List, [], ◌∷◌, ◌++◌, map,
  append-nil, append_assoc, arith,
}
use addr_tools.Odoh.Wire.{
  Error, unsupported_suite, key_id_mismatch, malformed, too_long, nil_context, crypto, stuck,
  max_field, wire_len, append_uint16, uint16, field_bytes, uint16-append, drop-append_uint16,
  length-append_uint16, append_uint16_lem, wire_len_id, wire_len-lt,
}

pub record ConfigContents : Type 0 where
  pub kem_id : ℕ
  pub kdf_id : ℕ
  pub aead_id : ℕ
  pub public_key : Bytes

-- KEMX25519HKDFSHA256, KDFHKDFSHA256, AEADAES128GCM and ConfigVersion
abbrev pub kem_x25519 : ℕ
kem_x25519 = 0x20

abbrev pub kdf_sha256 : ℕ
kdf_sha256 = 1

abbrev pub aead_aes128gcm : ℕ
aead_aes128gcm = 1

abbrev pub config_version : ℕ
config_version = 1

unfoldable pub marshal : ConfigContents → Bytes
marshal c =
    append_uint16 (append_uint16 (append_uint16 (append_uint16 [] c.kem_id) c.kdf_id) c.aead_id)
      (wire_len (length c.public_key))
    ++ c.public_key

unfoldable pub marshal_config : ConfigContents → Bytes
marshal_config c =
    let contents = marshal c in
    append_uint16 (append_uint16 [] config_version) (wire_len (length contents)) ++ contents

unfoldable pub marshal_configs : ConfigContents → Bytes
marshal_configs c = let cfg = marshal_config c in append_uint16 [] (wire_len (length cfg)) ++ cfg

-- The fields that the first eight bytes announce, once these are there.
parse_key : Bytes → Bytes → Result Error ConfigContents
parse_key header b =
    let klen = uint16 (drop 6 header) in
    if klen == 0
    then err malformed
    else if ltb (length b) klen
    then err malformed
    else ok (record {
      kem_id = uint16 header;
      kdf_id = uint16 (drop 2 header);
      aead_id = uint16 (drop 4 header);
      public_key = take klen b;
    })

unfoldable pub parse_config_contents : Bytes → Result Error ConfigContents
unfolding parse_key
parse_config_contents b =
    if ltb (length b) 8 then err malformed else parse_key (take 8 b) (drop 8 b)

abbrev pub is_supported : ConfigContents → Bool
is_supported c = c.kem_id == kem_x25519 && c.kdf_id == kdf_sha256 && c.aead_id == aead_aes128gcm

-- What the loop of ParseConfigs does with one config of the right version: return it, return an
-- error, or go on to the rest.
abbrev pub take_config :
    Result Error ConfigContents → Result Error ConfigContents → Result Error ConfigContents
take_config (err e) rest = err e
take_config (ok c) rest = if is_supported c then ok c else rest

-- A round takes four bytes at least, so as many rounds as there are bytes are enough.
unfoldable pub configs_loop : ℕ → Bytes → Result Error ConfigContents
configs_loop fuel [] = err unsupported_suite
configs_loop zero (c ∷ cs) = err stuck
configs_loop (suc fuel) (c ∷ cs) =
    let b = drop 4 (c ∷ cs) in
    let version = uint16 (c ∷ cs) in
    let len = uint16 (drop 2 (c ∷ cs)) in
    let body = take len b in
    let rest = configs_loop fuel (drop len b) in
    if ltb (length (c ∷ cs)) 4
    then err malformed
    else if ltb (length b) len
    then err malformed
    else if version == config_version
    then take_config (parse_config_contents body) rest
    else rest

unfoldable pub parse_configs : Bytes → Result Error ConfigContents
parse_configs b =
    if ltb (length b) 2
    then err malformed
    else if uint16 b == length (drop 2 b)
    then configs_loop (length (drop 2 b)) (drop 2 b)
    else err malformed
