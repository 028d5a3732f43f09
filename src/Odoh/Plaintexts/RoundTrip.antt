-- ===== src/Odoh/Plaintexts/RoundTrip.antt =====
-- ParsePlaintext on what Marshal writes.
use addr_tools.Prelude.{
  ltb, if◌then◌else◌, length, length-append, take-append, drop-append, Bytes, ok, err, ◌≤◌, ◌≡◌,
  ◌&&◌, [], ◌++◌, append_assoc, arith,
}
use addr_tools.Odoh.Wire.{
  malformed, wire_len, append_uint16, uint16-append, drop-append_uint16, length-append_uint16,
  wire_len_id,
}
use addr_tools.Odoh.Plaintexts.{Plaintext, marshal, is_zeros, parse_padding, parse_plaintext}

marshal_lem :
    (p : Plaintext)
    → marshal p
      ≡ append_uint16 [] (wire_len (length p.dns_message))
        ++ (p.dns_message ++ (append_uint16 [] (wire_len (length p.padding)) ++ p.padding))
unfolding marshal append_uint16
marshal_lem p = simp append_assoc

parse_padding_framed :
    (dns_message padding : Bytes)
    → length padding ≤ 65535
    → parse_padding dns_message (append_uint16 [] (length padding) ++ padding) ≡ (
        if is_zeros padding
        then ok (record { dns_message = dns_message; padding = padding })
        else err malformed)
unfolding parse_padding
parse_padding_framed dns_message padding h =
    rw
      (
        uint16-append (length padding) padding (omega arith),
        drop-append_uint16 (length padding) padding,
        length-append_uint16 (length padding) padding,
      )
      (ground arith)

-- A plaintext whose parts fit their length prefixes is read back exactly if its DNS message is not
-- empty and its padding is all zeros. Any other is refused.
pub parse_plaintext-marshal :
    (p : Plaintext)
    → length p.dns_message ≤ 65535
    → length p.padding ≤ 65535
    → parse_plaintext (marshal p)
      ≡ (if ltb 0 (length p.dns_message) && is_zeros p.padding then ok p else err malformed)
unfolding parse_plaintext
parse_plaintext-marshal p hd hp =
    let rest : Bytes = append_uint16 [] (length p.padding) ++ p.padding in
    rw
      (
        marshal_lem p,
        wire_len_id (length p.dns_message) hd,
        wire_len_id (length p.padding) hp,
        uint16-append (length p.dns_message) (p.dns_message ++ rest) (omega arith),
        drop-append_uint16 (length p.dns_message) (p.dns_message ++ rest),
        length-append_uint16 (length p.dns_message) (p.dns_message ++ rest),
        length-append p.dns_message rest,
        take-append p.dns_message rest,
        drop-append p.dns_message rest,
        parse_padding_framed p.dns_message p.padding hp,
      )
      (ground arith)
