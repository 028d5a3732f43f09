-- ===== src/Zones/Dyn/Handler.antt =====
-- HTTPHandler.ServeHTTP of internal/zones/dyn/api.go. Log lines are left out.
use addr_tools.Prelude.{
  if◌then◌else◌, Bytes, bytes, bytes_eq, Result, ok, err, ◌>>=◌, ℕ, Bool, ◌||◌, Option, none, some,
  [], ◌∷◌, ◌++◌,
}
use addr_tools.TtlStore.Contract.{TtlStore}
use addr_tools.Httputil.{
  Method, get_method, post_method, put_method, delete_method, other_method, Request, Parsers,
  Response, plain, no_content, not_allowed, get_string, has_body, is_get,
}
use addr_tools.Zones.Replies.{
  bad_request, optional, required, invalid_value, domain_of, ◌then_call◌, reply,
}
use addr_tools.Zones.Dyn.{ip4_key, ip6_key, update_ip}

-- The functions of other packages that the handler calls.
pub record Calls : Type 0 where
  pub parsers : Parsers
  pub parse_ip : Bytes → Option Bytes
  pub to4 : Bytes → Option Bytes
  pub sum224_hex : Bytes → Bytes

abbrev pub is_allowed : Method → Bool
is_allowed m = is_get m || has_body m

-- if ipStr == "self" { ipStr = req.Header.Get("X-Real-IP") }
abbrev pub resolve_self : Request → Bytes → Bytes
resolve_self req s = if bytes_eq s (bytes "self") then req.real_ip else s

module _ (C : Calls) where
  abbrev found_ip : Option Bytes → Result Response (Option Bytes)
  found_ip none = err (invalid_value (bytes "ip"))
  found_ip (some ip) = ok (some ip)

  -- The value of "ip" as an address, if there is one.
  abbrev pub ip_field : Request → Bytes → Result Response (Option Bytes)
  ip_field req [] = ok none
  ip_field req (c ∷ s) = found_ip (C.parse_ip (resolve_self req (c ∷ s)))

  -- Where "ip" is missing, the body may be the address.
  abbrev ip_or_body : Request → Option Bytes → Option Bytes
  ip_or_body req (some ip) = some ip
  ip_or_body req none = if is_get req.method then none else C.parse_ip (resolve_self req req.body)

  -- Everything in front of the store: the secret and the address, or the reply that ends it.
  unfoldable pub read_request : Request → Result Response (Bytes × Option Bytes)
  read_request req =
      if is_allowed req.method
      then (do
        secret ← required (bytes "secret") (get_string C.parsers req (bytes "secret"))
        ip_str ← optional (bytes "ip") (get_string C.parsers req (bytes "ip"))
        ip ← ip_field req ip_str
        ok (secret, ip_or_body req ip))
      else err (not_allowed (bytes "GET, POST, PUT, DELETE"))

  module _ {S E : Type 0} (T : TtlStore S E) (now now' : ℕ) where
    abbrev pub delete_addresses : Bytes → S → Option E × S
    delete_addresses name s = T.delete (ip4_key name) s then_call T.delete (ip6_key name)

    abbrev serve_delete : Bytes → Option Bytes → S → Response × S
    serve_delete domain (some ip) s = (
      bad_request
          (bytes "delete removes all addresses, do not specify " ++ 34 ∷ bytes "ip" ++ 34 ∷ []),
      s,
    )
    serve_delete domain none s = reply no_content (delete_addresses domain s)

    abbrev serve_update : Bytes → Option Bytes → S → Response × S
    serve_update domain none s = (plain 200 (domain ++ 10 ∷ []), s)
    serve_update domain (some ip) s =
        reply (plain 200 (bytes "OK" ++ 10 ∷ [])) (update_ip T (C.to4 ip) now now' domain ip s)

    abbrev pub act : Method → Bytes → Option Bytes → S → Response × S
    act delete_method domain ip s = serve_delete domain ip s
    act get_method domain ip s = serve_update domain ip s
    act post_method domain ip s = serve_update domain ip s
    act put_method domain ip s = serve_update domain ip s
    act (other_method m) domain ip s = serve_update domain ip s

    abbrev pub act_on : Bytes → Request → Result Response (Bytes × Option Bytes) → S → Response × S
    act_on zone req (err r) s = (r, s)
    act_on zone req (ok (secret, ip)) s = act req.method (domain_of C.sum224_hex zone secret) ip s

    unfoldable pub serve_http : Bytes → Request → S → Response × S
    unfolding read_request
    serve_http zone req s = act_on zone req (read_request req) s
