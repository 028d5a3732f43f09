-- ===== src/Dnsutil/Edns/Sizes.antt =====
-- The sizes of responses.
use addr_tools.Prelude.{
  ltb, if◌then◌else◌, ℕ, ◌+◌, ◌-◌, ◌%◌, ◌≤◌, ◌<◌, ◌≡◌, refl, sym, ap, ◌∙◌, Bool, true, false, none,
  some, arith,
}
use native.Mathlib.Nat.{mod-add-mod, mod-lt, mod_self, zero-mod}
use addr_tools.Dns.{padding, Opt, Msg, DnsLibrary}
use addr_tools.Dnsutil.Edns.{
  min_msg_size, max_udp_msg_size, get_max_udp_size, padding_length, add_padding, with_option,
  pad_opt,
}

-- Whatever size a request announces, the limit for its response over UDP lies between 512 and 1400,
-- and it is the announced size where this lies between them.
pub get_max_udp_size_bounds :
    (req : Msg)
    → (min_msg_size ≤ get_max_udp_size req)
      × (get_max_udp_size req ≤ max_udp_msg_size)
      × ((opt : Opt)
          → req.opt ≡ some opt
          → min_msg_size ≤ opt.udp_size
          → opt.udp_size ≤ max_udp_msg_size
          → get_max_udp_size req ≡ opt.udp_size)
unfolding get_max_udp_size
get_max_udp_size_bounds req = (ground arith, ground arith, λ opt e low high. ground arith)

-- RFC 7830: an option of `m` bytes of padding takes 4 + m bytes of a message that has an OPT record, and
-- the message can be packed up to the 65535 bytes of a DNS message.
abbrev pub IsAdditive : DnsLibrary → Type 0
IsAdditive L =
    (msg : Msg) (opt : Opt) (n m : ℕ)
    → msg.opt ≡ some opt
    → L.packed_length msg ≡ some n
    → n + 4 + m ≤ 65535
    → L.packed_length (record msg { opt = some (with_option (padding m) opt) }) ≡ some (n + 4 + m)

rounds_up :
    (n block : ℕ) (more : Bool)
    → 0 < block
    → ltb 0 (n % block) ≡ more
    → (n + (if more then block - n % block else n % block)) % block ≡ 0
rounds_up n block true h e =
    let filled : n % block + (block - n % block) ≡ block = omega (arith, mod-lt n h) in
    sym (mod-add-mod n block (block - n % block)) ∙ ap (λ k. k % block) filled ∙ mod_self block
rounds_up n block false h e =
    let none_left : n % block + n % block ≡ 0 = ground arith in
    sym (mod-add-mod n block (n % block)) ∙ ap (λ k. k % block) none_left ∙ zero-mod block

padding_length_lem : (n block : ℕ) → 0 < block → (n + padding_length n block) % block ≡ 0
unfolding padding_length
padding_length_lem n block h = rounds_up n block (ltb 0 (n % block)) h refl

padding_length-bound : (n block : ℕ) → 0 < block → padding_length n block ≤ block
unfolding padding_length
padding_length-bound n block h = ground (arith, mod-lt n h)

add_padding-some :
    (L : DnsLibrary) (msg : Msg) (opt : Opt) (n block : ℕ)
    → msg.opt ≡ some opt
    → L.packed_length msg ≡ some n
    → add_padding L msg block
      ≡ record msg { opt = some (with_option (padding (padding_length (n + 4) block)) opt) }
unfolding add_padding
add_padding-some L msg opt n block has packed =
    ap (λ o. elim o [ none ↦ msg | some found ↦ pad_opt (L.packed_length msg) block found msg ]) has
    ∙ ap (λ k. pad_opt k block opt msg) packed

-- Where padding takes its four bytes and its length of a packed message, AddPadding makes the length of a
-- message that has an OPT record and can be packed a multiple of a positive block length, if 4 bytes and a
-- block more than the message has are within 65535 bytes.
pub add_padding-multiple :
    (L : DnsLibrary) (msg : Msg) (opt : Opt) (n block : ℕ)
    → IsAdditive L
    → 0 < block
    → n + 4 + block ≤ 65535
    → msg.opt ≡ some opt
    → L.packed_length msg ≡ some n
    → (k : ℕ) × (L.packed_length (add_padding L msg block) ≡ some k) × (k % block ≡ 0)
add_padding-multiple L msg opt n block add positive fits has packed = (
  n + 4 + padding_length (n + 4) block,
  ap L.packed_length (add_padding-some L msg opt n block has packed)
      ∙ add msg opt n (padding_length (n + 4) block) has packed
          (omega (arith, padding_length-bound (n + 4) block positive)),
  padding_length_lem (n + 4) block positive,
)
