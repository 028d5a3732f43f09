-- ===== src/Zones/Replies.antt =====
-- What the HTTP handlers of internal/zones share: the replies to a bad field, and calls of a store one
-- after the other up to the first error.
use addr_tools.Prelude.{Bytes, bytes, Result, ok, err, Option, none, some, [], ◌∷◌, ◌++◌}
use addr_tools.Httputil.{
  FormError, ambiguous_values, unexpected_type, read_error, Response, http_error,
}

abbrev pub server_error : Response
server_error = http_error 500 (bytes "server error")

abbrev pub bad_request : Bytes → Response
bad_request text = http_error 400 text

abbrev pub quoted : Bytes → Bytes
quoted name = 34 ∷ name ++ 34 ∷ []

unfoldable pub value_error : Bytes → FormError → Response
value_error name ambiguous_values = bad_request (bytes "multiple values found for " ++ quoted name)
value_error name unexpected_type = bad_request (quoted name ++ bytes " must be a string")
value_error name (read_error e) = server_error

-- A field that may be missing, and one that may not.
abbrev pub optional : Bytes → Bytes × Option FormError → Result Response Bytes
optional name (val, some e) = err (value_error name e)
optional name (val, none) = ok val

abbrev pub required : Bytes → Bytes × Option FormError → Result Response Bytes
required name (val, some e) = err (value_error name e)
required name ([], none) = err (bad_request (bytes "must specify " ++ quoted name))
required name (c ∷ val, none) = ok (c ∷ val)

abbrev pub invalid_value : Bytes → Response
invalid_value name = bad_request (bytes "invalid value for " ++ quoted name)

-- The domain of a secret: fmt.Sprintf("%x.%s", sha256.Sum224([]byte(secret)), h.Zone)
abbrev pub domain_of : (Bytes → Bytes) → Bytes → Bytes → Bytes
domain_of sum224_hex zone secret = sum224_hex secret ++ b'.' ∷ zone

module _ {S E : Type 0} where
  infixl 5 ◌then_call◌
  -- if err == nil { err = … }
  abbrev pub ◌then_call◌ : Option E × S → (S → Option E × S) → Option E × S
  (none, s) then_call f = f s
  (some e, s) then_call f = (some e, s)

  -- if err != nil { http.Error(w, "server error", …); return }
  abbrev pub reply : Response → Option E × S → Response × S
  reply r (none, s) = (r, s)
  reply r (some e, s) = (server_error, s)
