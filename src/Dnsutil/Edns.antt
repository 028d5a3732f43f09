-- ===== src/Dnsutil/Edns.antt =====
-- internal/dnsutil/edns.go
pub mod Sizes
use addr_tools.Prelude.{
  ltb, leb, ◌==◌, if◌then◌else◌, ltb→lt, lt→ltb, leb→le, ==_iff, Bool-cases, Option-cases,
  &&-eq-true, length, length-append, take, drop, replicate, All, all, keep, head?, take-append-drop,
  length-take, length-drop, take-append, drop-append, length-map, length-replicate, length-keep,
  keep-append, take_all, Bytes, IsByte, bytes, bytes_eq, bytes_eq→eq, bytes_eq_refl, bytes_eq_iff,
  has_prefix, has_prefix-append, index_byte, or_here, last_index_byte, cons_first, split_byte, Map,
  lookup, delete, insert, Unique, lookup-delete, lookup-insert, delete-Unique, insert-Unique,
  Result, ok, err, ◌>>=◌, map_ok, >>=-eq-ok, >>=-ok, map_ok-if, Result-cases, ℤ, pos, negsuc,
  negate, is_digit, decimal, unsigned, atoi, ℕ, zero, suc, ◌+◌, ◌-◌, ◌*◌, ◌/◌, ◌%◌, ◌^◌, ◌≤◌, ◌<◌,
  String, ◌≡◌, refl, sym, ap, ◌∙◌, subst, ◌≢◌, ◌↔◌, ◌⊎◌, inl, inr, Bool, true, false, not, ◌&&◌,
  ◌||◌, Option, none, some, List, [], ◌∷◌, ◌++◌, map, append-nil, append_assoc, arith,
}
use addr_tools.Dns.{
  EdnsOption, subnet, padding, extended_error, other_option, Opt, Msg, DnsLibrary, rcode_bad_vers,
}

abbrev pub min_msg_size : ℕ
min_msg_size = 512

abbrev pub max_udp_msg_size : ℕ
max_udp_msg_size = 1400

abbrev pub response_padding_block_length : ℕ
response_padding_block_length = 468

-- resp.SetEdns0(size, do)
abbrev pub new_opt : ℕ → Bool → Opt
new_opt size wants = record {
  version = 0;
  udp_size = size;
  wants_dnssec = wants;
  compact = false;
  options = [];
}

-- The loop over the options of the request: the first client subnet, with the scope 0.
unfoldable pub echo_subnet : List EdnsOption → List EdnsOption
echo_subnet [] = []
echo_subnet (subnet family address netmask scope ∷ os) = subnet family address netmask 0 ∷ []
echo_subnet (padding n ∷ os) = echo_subnet os
echo_subnet (extended_error code text ∷ os) = echo_subnet os
echo_subnet (other_option code ∷ os) = echo_subnet os

-- The error of CheckAndSetEdns is `true`.
unfoldable pub check_opt : Opt → Msg → Bool × Msg
unfolding echo_subnet
check_opt opt resp =
    if opt.version == 0
    then (
      false,
      record resp {
        opt = some (record (new_opt max_udp_msg_size opt.wants_dnssec) {
          compact = opt.compact;
          options = echo_subnet opt.options;
        });
      },
    )
    else (true, record resp { opt = some (new_opt max_udp_msg_size false); rcode = rcode_bad_vers })

unfoldable pub check_and_set_edns : Msg → Msg → Bool × Msg
unfolding check_opt
check_and_set_edns req resp = elim req.opt [ none ↦ (false, resp) | some opt ↦ check_opt opt resp ]

unfoldable pub get_max_udp_size : Msg → ℕ
get_max_udp_size req = elim req.opt [
  | none ↦ min_msg_size
  | some opt ↦
      if ltb opt.udp_size min_msg_size
      then min_msg_size
      else if ltb max_udp_msg_size opt.udp_size
      then max_udp_msg_size
      else opt.udp_size
]

abbrev is_padding : EdnsOption → Bool
is_padding (padding n) = true
is_padding (subnet family address netmask scope) = false
is_padding (extended_error code text) = false
is_padding (other_option code) = false

unfoldable pub any_padding : List EdnsOption → Bool
any_padding [] = false
any_padding (o ∷ os) = is_padding o || any_padding os

unfoldable pub has_padding : Msg → Bool
unfolding any_padding
has_padding msg = elim msg.opt [ none ↦ false | some opt ↦ any_padding opt.options ]

-- The length of the padding for a message of `n` bytes with the option's header.
unfoldable pub padding_length : ℕ → ℕ → ℕ
padding_length n block = if ltb 0 (n % block) then block - n % block else n % block

abbrev pub with_option : EdnsOption → Opt → Opt
with_option o opt = record opt { options = opt.options ++ o ∷ [] }

abbrev pub pad_opt : Option ℕ → ℕ → Opt → Msg → Msg
pad_opt none block opt msg = msg
pad_opt (some packed) block opt msg = record msg {
  opt = some (with_option (padding (padding_length (packed + 4) block)) opt);
}

-- GetProtocol of proto.go, whose result the code switches on; the empty string is `no_proto`.
pub data Protocol : Type 0 where
  udp tcp tls quic no_proto : Protocol

module _ (L : DnsLibrary) where
  unfoldable pub add_padding : Msg → ℕ → Msg
  unfolding padding_length
  add_padding msg block = elim msg.opt [
    | none ↦ msg
    | some opt ↦ pad_opt (L.packed_length msg) block opt msg
  ]

  abbrev pub pad_if_asked : Msg → Msg → Msg
  pad_if_asked req resp =
      if has_padding req then add_padding resp response_padding_block_length else resp

  abbrev pub truncate_udp : Msg → Msg → Msg
  truncate_udp req resp =
      let cut = L.truncate (get_max_udp_size req) resp in
      if resp.compress then record cut { compress = true } else cut

  unfoldable pub resize_for_transport : Protocol → Msg → Msg → Msg
  resize_for_transport udp req resp = truncate_udp req resp
  resize_for_transport tcp req resp = resp
  resize_for_transport tls req resp = pad_if_asked req resp
  resize_for_transport quic req resp = pad_if_asked req resp
  resize_for_transport no_proto req resp = resp
