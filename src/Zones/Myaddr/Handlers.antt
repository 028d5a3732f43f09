-- ===== src/Zones/Myaddr/Handlers.antt =====
-- UpdateHandler, RegistrationHandler and AdminHandler of internal/zones/myaddr/api.go. Log lines are
-- left out; `clock` gives the readings of the clock in the order of the calls that take one.
use addr_tools.Prelude.{
  ◌==◌, if◌then◌else◌, length, Bytes, bytes, Result, ok, err, ◌>>=◌, ℕ, Bool, true, false, Option,
  none, some, [], ◌∷◌, ◌++◌,
}
use addr_tools.TtlStore.Contract.{TtlStore}
use addr_tools.Dnsutil.Strings.{to_lower_ascii}
use addr_tools.Httputil.{
  Method, get_method, post_method, put_method, delete_method, other_method, Request, Parsers,
  Response, http_error, plain, no_content, not_allowed, get_string,
}
use addr_tools.Zones.Replies.{
  bad_request, server_error, optional, required, invalid_value, quoted, ◌then_call◌, reply,
}
use addr_tools.Zones.Dyn.{ip4_key, ip6_key, update_ip}
use addr_tools.Zones.Dyn.Handler.{Calls, is_allowed, ip_field, delete_addresses}
use addr_tools.Zones.Challenges.{is_valid_challenge, challenge_ttl}
use addr_tools.Zones.Myaddr.{reg_key, hash_key, update_registration, is_valid_name}

-- Requires "key": 64 bytes.
abbrev pub key_field : Parsers → Request → Result Response Bytes
key_field P req = do
  key ← required (bytes "key") (get_string P req (bytes "key"))
  if length key == 64 then ok key else err (invalid_value (bytes "key"))

abbrev challenge_field : Bytes → Result Response Bytes
challenge_field [] = ok []
challenge_field (c ∷ s) =
    if is_valid_challenge (c ∷ s) then ok (c ∷ s) else err (invalid_value (bytes "acme_challenge"))

-- The key, the address and the challenge of an update, or the reply that ends it.
unfoldable pub read_update : Calls → Request → Result Response (Bytes × Option Bytes × Bytes)
read_update C req =
    if is_allowed req.method
    then (do
      key ← key_field C.parsers req
      ip_str ← optional (bytes "ip") (get_string C.parsers req (bytes "ip"))
      ip ← ip_field C req ip_str
      given ← optional (bytes "acme_challenge") (get_string C.parsers req (bytes "acme_challenge"))
      challenge ← challenge_field given
      ok (key, ip, challenge))
    else err (not_allowed (bytes "GET, POST, PUT, DELETE"))

-- What the store says of a hash: the name, or the reply.
abbrev pub found_name : {E : Type 0} → Result E (Option Bytes) → Result Response Bytes
found_name (err e) = err server_error
found_name (ok none) = err (invalid_value (bytes "key"))
found_name (ok (some name)) = ok name

abbrev pub ok_reply : Response
ok_reply = plain 200 (bytes "OK" ++ 10 ∷ [])

-- The data store and the challenge store may share their state, as two prefixed stores do.
module _ (C : Calls) (sum256_hex : Bytes → Bytes) {S E : Type 0}
    (data_store challenge_store : TtlStore S E) (clock : ℕ → ℕ) where
  -- The address or the challenge of an update is stored first; where that fails, nothing follows.
  abbrev pub store_update : Bytes → Option Bytes → Bytes → S → Option E × S
  store_update name (some ip) challenge s =
      update_ip data_store (C.to4 ip) (clock 1) (clock 2) name ip s
  store_update name none challenge s = challenge_store.add (clock 2) name challenge challenge_ttl s

  abbrev pub then_register : Bytes → Bytes → Option E × S → Response × S
  then_register hash name (some e, s) = (server_error, s)
  then_register hash name (none, s) =
      reply ok_reply
        (update_registration data_store (clock 3) (clock 4) (clock 5) (clock 6) hash name s)

  abbrev either_or : Response
  either_or = bad_request (
      bytes "must specify either "
      ++ quoted (bytes "ip")
      ++ bytes " or "
      ++ quoted (bytes "acme_challenge"))

  abbrev pub update_name : Bytes → Bytes → Option Bytes → Bytes → S → Response × S
  update_name hash name none [] s = (either_or, s)
  update_name hash name none (c ∷ t) s = then_register hash name (store_update name none (c ∷ t) s)
  update_name hash name (some ip) [] s = then_register hash name (store_update name (some ip) [] s)
  update_name hash name (some ip) (c ∷ t) s = (either_or, s)

  abbrev no_fields : Response
  no_fields = bad_request (
      bytes "delete removes all ip addresses, do not specify "
      ++ quoted (bytes "ip")
      ++ bytes " or "
      ++ quoted (bytes "acme_challenge"))

  abbrev pub delete_name : Bytes → Option Bytes → Bytes → S → Response × S
  delete_name name none [] s = reply no_content (delete_addresses C data_store 0 0 name s)
  delete_name name none (c ∷ t) s = (no_fields, s)
  delete_name name (some ip) challenge s = (no_fields, s)

  abbrev pub act_update : Method → Bytes → Bytes → Option Bytes → Bytes → S → Response × S
  act_update delete_method hash name ip challenge s = delete_name name ip challenge s
  act_update get_method hash name ip challenge s = update_name hash name ip challenge s
  act_update post_method hash name ip challenge s = update_name hash name ip challenge s
  act_update put_method hash name ip challenge s = update_name hash name ip challenge s
  act_update (other_method m) hash name ip challenge s = update_name hash name ip challenge s

  abbrev pub on_name :
      Request → Bytes → Option Bytes → Bytes → Result Response Bytes → S → Response × S
  on_name req hash ip challenge (err r) s = (r, s)
  on_name req hash ip challenge (ok name) s = act_update req.method hash name ip challenge s

  abbrev pub on_update : Request → Result Response (Bytes × Option Bytes × Bytes) → S → Response × S
  on_update req (err r) s = (r, s)
  on_update req (ok (key, ip, challenge)) s =
      on_name req (sum256_hex key) ip challenge
        (found_name (data_store.get (clock 0) (hash_key (sum256_hex key)) s)) s

  -- UpdateHandler.ServeHTTP
  unfoldable pub serve_update : Request → S → Response × S
  unfolding read_update
  serve_update req s = on_update req (read_update C req) s

  -- DELETE of RegistrationHandler
  unfoldable pub unregister_name : Bytes → Bytes → S → Option E × S
  unregister_name hash name s =
      data_store.delete (ip4_key name) s
      then_call data_store.delete (ip6_key name)
      then_call data_store.delete (reg_key name)
      then_call data_store.delete (hash_key hash)
      then_call challenge_store.delete name

  -- The end of POST: the name is free, and `key` is the new key. The reply is JSON with both.
  abbrev pub register_free :
      (Bytes → Bytes → Bytes) → Bytes → Bytes → Result E Bool → S → Response × S
  register_free print key name (err e) s = (server_error, s)
  register_free print key name (ok true) s = (http_error 409 (bytes "name already exists"), s)
  register_free print key name (ok false) s = reply (plain 200 (print name key)) (
      update_registration data_store (clock 1) (clock 2) (clock 3) (clock 4) (sum256_hex key) name
        s)

  -- The fields of POST: a valid name and a challenge that Turnstile verified.
  unfoldable pub read_registration : (Bytes → Result ℕ Bool) → Request → Result Response Bytes
  read_registration verify req = do
    name ← required (bytes "name") (get_string C.parsers req (bytes "name"))
    _ ← if is_valid_name name then ok name else err (invalid_value (bytes "name"))
    challenge ← required (bytes "challenge") (get_string C.parsers req (bytes "challenge"))
    verified ← elim (verify challenge) [ err e ↦ err server_error | ok b ↦ ok b ]
    if verified then ok (to_lower_ascii name) else err (invalid_value (bytes "challenge"))

  abbrev pub on_registration :
      (Bytes → Bytes → Bytes) → Bytes → Result Response Bytes → S → Response × S
  on_registration print key (err r) s = (r, s)
  on_registration print key (ok name) s =
      register_free print key name (data_store.has (clock 0) (reg_key name) s) s

  -- POST of RegistrationHandler; `key` is what the random bytes print as.
  unfoldable pub register_name :
      (Bytes → Result ℕ Bool) → (Bytes → Bytes → Bytes) → Bytes → Request → S → Response × S
  unfolding read_registration
  register_name verify print key req s = on_registration print key (read_registration verify req) s
