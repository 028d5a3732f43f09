-- ===== src/Zones/Myaddr/Owner.antt =====
-- The whole of RegistrationHandler of internal/zones/myaddr/api.go; its GET and DELETE need the key.
use addr_tools.Prelude.{Bytes, bytes, Result, ok, err, ◌>>=◌, ℕ, Bool, Option, none, some}
use addr_tools.TtlStore.Contract.{TtlStore}
use addr_tools.Httputil.{
  Method, get_method, post_method, put_method, delete_method, other_method, Request, Response,
  plain, no_content, not_allowed,
}
use addr_tools.Zones.Replies.{server_error, reply}
use addr_tools.Zones.Dyn.{AddressRecord, LoadError, load_ipv4, load_ipv6}
use addr_tools.Zones.Dyn.Handler.{Calls}
use addr_tools.Zones.Myaddr.{RegistrationRecord, expires, hash_key, load_registration}
use addr_tools.Zones.Myaddr.Handlers.{key_field, found_name, unregister_name, register_name}

-- The JSON object of GET.
pub record Details : Type 0 where
  pub name : Bytes
  pub registered : ℕ
  pub updated : ℕ
  pub expiry_time : ℕ
  pub ip4 : Option Bytes
  pub ip6 : Option Bytes

abbrev ip_of : Option AddressRecord → Option Bytes
ip_of none = none
ip_of (some r) = some r.ip

unfoldable pub details_of :
    Bytes → Option RegistrationRecord → Option AddressRecord → Option AddressRecord → Details
details_of name none ip4 ip6 = record {
  name = name;
  registered = 0;
  updated = 0;
  expiry_time = 0;
  ip4 = ip_of ip4;
  ip6 = ip_of ip6;
}
details_of name (some reg) ip4 ip6 = record {
  name = name;
  registered = reg.created;
  updated = reg.updated;
  expiry_time = expires reg;
  ip4 = ip_of ip4;
  ip6 = ip_of ip6;
}

module _ (C : Calls) (sum256_hex : Bytes → Bytes) {S E : Type 0}
    (data_store challenge_store : TtlStore S E) (clock : ℕ → ℕ) where
  unfoldable pub load_details : Bytes → S → Result (LoadError E) Details
  unfolding details_of
  load_details name s = do
    reg ← load_registration data_store (clock 1) name s
    ip4 ← load_ipv4 data_store (clock 2) name s
    ip6 ← load_ipv6 data_store (clock 3) name s
    ok (details_of name reg ip4 ip6)

  abbrev shown : (Details → Bytes) → Result (LoadError E) Details → Response
  shown print (err e) = server_error
  shown print (ok d) = plain 200 (print d)

  -- What follows once the key has led to a name.
  abbrev pub act_owner :
      (Details → Bytes) → Method → Bytes → Result Response Bytes → S → Response × S
  act_owner print method hash (err r) s = (r, s)
  act_owner print delete_method hash (ok name) s =
      reply no_content (unregister_name C sum256_hex data_store challenge_store clock hash name s)
  act_owner print get_method hash (ok name) s = (shown print (load_details name s), s)
  act_owner print post_method hash (ok name) s = (shown print (load_details name s), s)
  act_owner print put_method hash (ok name) s = (shown print (load_details name s), s)
  act_owner print (other_method m) hash (ok name) s = (shown print (load_details name s), s)

  abbrev pub on_key : (Details → Bytes) → Method → Result Response Bytes → S → Response × S
  on_key print method (err r) s = (r, s)
  on_key print method (ok key) s =
      act_owner print method (sum256_hex key)
        (found_name (data_store.get (clock 0) (hash_key (sum256_hex key)) s)) s

  unfoldable pub serve_owner : (Details → Bytes) → Request → S → Response × S
  unfolding load_details
  serve_owner print req s = on_key print req.method (key_field C.parsers req) s

  -- `verify` is Turnstile, `print_key` the reply of POST, and `new_key` what the random bytes print as.
  abbrev pub serve_method :
      Method
      → (Details → Bytes)
      → (Bytes → Result ℕ Bool)
      → (Bytes → Bytes → Bytes)
      → Bytes
      → Request
      → S
      → Response × S
  serve_method get_method print verify print_key new_key req s = serve_owner print req s
  serve_method delete_method print verify print_key new_key req s = serve_owner print req s
  serve_method post_method print verify print_key new_key req s =
      register_name C sum256_hex data_store challenge_store clock verify print_key new_key req s
  serve_method put_method print verify print_key new_key req s =
      (not_allowed (bytes "GET, POST, DELETE"), s)
  serve_method (other_method m) print verify print_key new_key req s =
      (not_allowed (bytes "GET, POST, DELETE"), s)

  unfoldable pub serve_registration :
      (Details → Bytes)
      → (Bytes → Result ℕ Bool)
      → (Bytes → Bytes → Bytes)
      → Bytes
      → Request
      → S
      → Response × S
  unfolding serve_owner
  serve_registration print verify print_key new_key req s =
      serve_method req.method print verify print_key new_key req s
