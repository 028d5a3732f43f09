-- ===== src/Probes/Queries.antt =====
-- synthesize, queryName and remoteAddr of internal/probewatch/probewatch.go. An address that is nil is
-- the empty list of bytes.
use addr_tools.Prelude.{
  ◌==◌, if◌then◌else◌, Bytes, bytes, bytes_eq, split_byte, ℕ, ◌<◌, ◌≡◌, ◌≢◌, ◌↔◌, Bool, true, false,
  not, ◌&&◌, ◌||◌, Option, none, some, List, [], ◌∷◌, ◌++◌, arith,
}
use addr_tools.Dns.{EdnsOption, subnet, Opt}
use addr_tools.Dnsutil.Edns.{new_opt, with_option}
use addr_tools.Probes.{Observation}

-- What the code calls: dns.Fqdn, strings.TrimSpace, dns.StringToType, net.ParseCIDR, net.ParseIP and
-- whether To4 finds an IPv4 address.
pub record Library : Type 0 where
  pub fqdn : Bytes → Bytes
  pub trim_space : Bytes → Bytes
  pub string_to_type : Bytes → Option ℕ
  pub parse_cidr : Bytes → Option Bytes
  pub parse_ip : Bytes → Bytes
  pub is_ip4 : Bytes → Bool

pub data Addr : Type 0 where
  udp_addr tcp_addr : Bytes → Addr

abbrev pub is_none_given : Bytes → Bool
is_none_given [] = true
is_none_given (c ∷ s) = false

unfoldable pub join_dots : List Bytes → Bytes
join_dots [] = []
join_dots (l ∷ []) = l
join_dots (l ∷ m ∷ ls) = l ++ b'.' ∷ join_dots (m ∷ ls)

abbrev pub type_null : ℕ
type_null = 10

-- What Watcher.Send is called with, the TLS state aside, which is nil.
pub record Query : Type 0 where
  pub name : Bytes
  pub qtype : ℕ
  pub opt : Option Opt
  pub protocol : Bytes
  pub remote : Addr

module _ (N : Library) where
  -- The loop over the modifiers.
  unfoldable pub mod_labels : List Bytes → List Bytes
  mod_labels [] = []
  mod_labels (m ∷ ms) =
      let rest = mod_labels ms in
      let label = N.trim_space m in if is_none_given label then rest else (b'_' ∷ label) ∷ rest

  unfoldable pub labels_of : Observation → List Bytes
  unfolding mod_labels
  labels_of o =
      (if not (is_none_given o.mods) && not (bytes_eq o.mods (bytes "none"))
        then mod_labels (split_byte b',' o.mods)
        else [])
      ++ (if is_none_given o.token then [] else o.token ∷ [])

  abbrev pub with_zone : Bytes → Bytes → Bytes
  with_zone name [] = name
  with_zone [] (c ∷ zone) = c ∷ zone
  with_zone (d ∷ name) (c ∷ zone) = (d ∷ name) ++ b'.' ∷ N.fqdn (c ∷ zone)

  abbrev pub or_root : Bytes → Bytes
  or_root [] = b'.' ∷ []
  or_root (c ∷ name) = N.fqdn (c ∷ name)

  unfoldable pub query_name : Observation → Bytes → Bytes
  unfolding labels_of join_dots
  query_name o zone = or_root (with_zone (join_dots (labels_of o)) zone)

  unfoldable pub remote_addr : Observation → Addr
  remote_addr o =
      if bytes_eq o.transport (bytes "udp") || bytes_eq o.transport (bytes "quic")
      then udp_addr (N.parse_ip o.resolver_addr)
      else tcp_addr (N.parse_ip o.resolver_addr)

  abbrev cidr_address : Option Bytes → Bytes
  cidr_address none = []
  cidr_address (some ip) = ip

  abbrev pub subnet_address : Bytes → Bytes
  subnet_address [] = []
  subnet_address (c ∷ prefix) = cidr_address (N.parse_cidr (c ∷ prefix))

  abbrev pub subnet_family : ℕ → Bytes → ℕ
  subnet_family family address =
      if not (family == 0)
      then family
      else if N.is_ip4 address
      then 1
      else if is_none_given address
      then 0
      else 2

  abbrev pub subnet_option : Observation → EdnsOption
  subnet_option o =
      let address = subnet_address o.ecs_prefix in
      subnet (subnet_family o.ecs_family address) address o.ecs_scope 0

  abbrev pub opt_of : Observation → Option Opt
  opt_of o =
      if o.edns
      then (let opt = new_opt (if o.udp_size == 0 then 512 else o.udp_size) o.wants_dnssec in
          some (if o.ecs then with_option (subnet_option o) opt else opt))
      else none

  abbrev or_null : Option ℕ → ℕ
  or_null none = type_null
  or_null (some t) = t

  unfoldable pub synthesize : Observation → Bytes → Query
  unfolding query_name remote_addr
  synthesize o zone = record {
    name = query_name o zone;
    qtype = or_null (N.string_to_type o.qtype);
    opt = opt_of o;
    protocol = o.transport;
    remote = remote_addr o;
  }

  or_root-named : (name : Bytes) → ((n : Bytes) → n ≢ [] → N.fqdn n ≢ []) → or_root name ≢ []
  or_root-named [] named = ground arith
  or_root-named (c ∷ name) named = named (c ∷ name) (ground arith)

  -- Where Fqdn of a name that is not empty is not empty, the synthesized query has a name,
  -- whatever the observation holds. It has an OPT record just if the observation saw one, with
  -- its DO flag and a size that is not 0, and with an option just if the observation saw a client
  -- subnet.
  pub synthesize_lem :
      (o : Observation) (zone : Bytes)
      → ((name : Bytes) → name ≢ [] → N.fqdn name ≢ [])
      → ((synthesize o zone).name ≢ [])
        × (((synthesize o zone).opt ≢ none) ↔ (o.edns ≡ true))
        × ((opt : Opt)
            → (synthesize o zone).opt ≡ some opt
            → (opt.wants_dnssec ≡ o.wants_dnssec)
              × (0 < opt.udp_size)
              × ((opt.options ≡ []) ↔ (o.ecs ≡ false)))
  unfolding synthesize query_name
  synthesize_lem o zone named = (
    or_root-named (with_zone (join_dots (labels_of o)) zone) named,
    (λ some_opt. ground arith, λ edns. ground arith),
    λ opt e. ground arith,
  )
