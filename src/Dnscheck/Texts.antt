-- ===== src/Dnscheck/Texts.antt =====
-- The TXT strings of ServeDNS of internal/zones/dnscheck/handler.go, and GeoString of
-- internal/httputil/ipinfo.go.
use addr_tools.Prelude.{Bytes, bytes, ℕ, Bool, true, false, Option, none, some, List, [], ◌∷◌, ◌++◌}
use addr_tools.Dns.{EdnsOption, subnet, padding, extended_error, other_option, Opt, Msg}
use addr_tools.Dnsutil.Edns.{Protocol, udp, tcp, tls, quic, no_proto}

pub record IpInfo : Type 0 where
  pub city : Bytes
  pub region : Bytes
  pub country : Bytes
  pub org : Bytes

abbrev comma_if : Bytes → Bytes
comma_if [] = []
comma_if (c ∷ s) = (c ∷ s) ++ bytes ", "

abbrev with_part : Bytes → Bytes → Bytes
with_part str [] = str
with_part str (c ∷ part) = comma_if str ++ c ∷ part

unfoldable pub geo_string : IpInfo → Bytes
geo_string i = with_part (with_part i.city i.region) i.country

-- What the handler reads of a TLS connection: the names of the version, the cipher suite and the curve,
-- if it is known.
pub record TlsState : Type 0 where
  pub version : Bytes
  pub cipher_suite : Bytes
  pub curve : Option Bytes
  pub server_name : Bytes
  pub negotiated_protocol : Bytes
  pub did_resume : Bool

-- The connection of a request: `ip` is the remote address, and `info` what GetIPInfo returns for it,
-- `none` without a client too.
pub record Peer : Type 0 where
  pub protocol : Protocol
  pub ip : Bytes
  pub info : Option IpInfo
  pub tls_state : Option TlsState

-- strconv.Itoa, ToPrintableAscii and a client subnet as "<address>/<netmask>".
pub record Printers : Type 0 where
  pub itoa : ℕ → Bytes
  pub printable : Bytes → Bytes
  pub subnet_text : Bytes → ℕ → Bytes

abbrev pub protocol_name : Protocol → Bytes
protocol_name udp = bytes "UDP"
protocol_name tcp = bytes "TCP"
protocol_name tls = bytes "TLS"
protocol_name quic = bytes "QUIC"
protocol_name no_proto = []

abbrev text_if : Bool → Bytes → List Bytes
text_if true text = text ∷ []
text_if false text = []

abbrev is_given : Bytes → Bool
is_given [] = false
is_given (c ∷ s) = true

module _ (P : Printers) where
  abbrev labelled : Bytes → Bytes → List Bytes
  labelled label text = text_if (is_given text) (label ++ P.printable text)

  abbrev info_texts : Option IpInfo → List Bytes
  info_texts none = []
  info_texts (some info) =
      labelled (bytes "resolverGeo: ") (geo_string info)
      ++ labelled (bytes "resolverOrg: ") info.org

  abbrev flag : Bool → Bytes → Bytes
  flag true text = text
  flag false text = []

  unfoldable pub subnet_texts : List EdnsOption → List Bytes
  subnet_texts [] = []
  subnet_texts (subnet family address netmask scope ∷ os) =
      (bytes "clientSubnet: " ++ P.subnet_text address netmask) ∷ []
  subnet_texts (padding n ∷ os) = subnet_texts os
  subnet_texts (extended_error code text ∷ os) = subnet_texts os
  subnet_texts (other_option code ∷ os) = subnet_texts os

  abbrev edns_texts : Option Opt → List Bytes
  edns_texts none = []
  edns_texts (some opt) =
      (bytes "edns0: flags:"
        ++ flag opt.wants_dnssec (bytes " do")
        ++ flag opt.compact (bytes " co")
        ++ bytes "; udp: "
        ++ P.itoa opt.udp_size)
      ∷ subnet_texts opt.options

  abbrev curve_texts : Option Bytes → List Bytes
  curve_texts none = []
  curve_texts (some curve) = (bytes "tlsNamedGroup: " ++ curve) ∷ []

  abbrev tls_texts : Option TlsState → List Bytes
  tls_texts none = []
  tls_texts (some s) =
      (bytes "tlsVersion: " ++ s.version)
        ∷ (bytes "tlsCipherSuite: " ++ s.cipher_suite)
        ∷ curve_texts s.curve
      ++ labelled (bytes "tlsServerName: ") s.server_name
      ++ labelled (bytes "tlsNegotiatedProtocol: ") s.negotiated_protocol
      ++ text_if s.did_resume (bytes "tlsDidResume: true")

  unfoldable pub texts_of : Peer → Msg → List Bytes
  unfolding geo_string subnet_texts
  texts_of peer req =
      (bytes "id: " ++ P.itoa req.id)
        ∷ (bytes "proto: " ++ protocol_name peer.protocol)
        ∷ (bytes "resolver: " ++ peer.ip)
        ∷ info_texts peer.info
      ++ edns_texts req.opt
      ++ tls_texts peer.tls_state
