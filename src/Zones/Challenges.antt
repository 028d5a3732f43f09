-- ===== src/Zones/Challenges.antt =====
-- internal/zones/challenges: ACME challenges by secret (api.go) and their TXT records (generator.go).
pub mod Records
use addr_tools.Prelude.{
  ltb, leb, ◌==◌, if◌then◌else◌, ltb→lt, lt→ltb, leb→le, ==_iff, Bool-cases, Option-cases,
  &&-eq-true, length, length-append, take, drop, replicate, All, all, keep, head?, take-append-drop,
  length-take, length-drop, take-append, drop-append, length-map, length-replicate, length-keep,
  keep-append, take_all, Bytes, IsByte, bytes, bytes_eq, bytes_eq→eq, bytes_eq_refl, bytes_eq_iff,
  has_prefix, has_prefix-append, index_byte, or_here, last_index_byte, cons_first, split_byte, Map,
  lookup, insert, Unique, lookup-delete, lookup-insert, delete-Unique, insert-Unique, Result, ok,
  err, ◌>>=◌, map_ok, >>=-eq-ok, >>=-ok, map_ok-if, Result-cases, ℤ, pos, negsuc, negate, is_digit,
  decimal, unsigned, atoi, ℕ, zero, suc, ◌+◌, ◌-◌, ◌*◌, ◌/◌, ◌%◌, ◌^◌, ◌≤◌, ◌<◌, String, ◌≡◌, refl,
  sym, ap, ◌∙◌, subst, ◌≢◌, ◌↔◌, ◌⊎◌, inl, inr, Bool, true, false, not, ◌&&◌, ◌||◌, Option, none,
  some, List, [], ◌∷◌, ◌++◌, map, append-nil, append_assoc, arith,
}
use addr_tools.TtlStore.Contract.{TtlStore}
use addr_tools.Dnsutil.Strings.{to_lower_ascii, split_for_txt}
use addr_tools.Httputil.{
  Method, get_method, post_method, put_method, delete_method, other_method, Request, Parsers,
  Response, http_error, plain, no_content, not_allowed, get_string, has_body, is_get,
}
use addr_tools.Zones.Replies.{
  bad_request, value_error, optional, required, invalid_value, domain_of, reply, quoted,
}
use addr_tools.Zones.Dyn.Handler.{is_allowed}
use addr_tools.Zones.Dyn.Generator.{Record, txt_records, type_txt, is_valid_subdomain, subdomain}

abbrev pub challenge_ttl : ℕ
challenge_ttl = 120

-- The bytes that a challenge may have; '=' is not one of them.
abbrev pub is_challenge_byte : ℕ → Bool
is_challenge_byte c =
    is_digit c || (leb b'A' c && leb c b'Z') || (leb b'a' c && leb c b'z') || c == b'-' || c == b'_'

unfoldable pub is_valid_challenge : Bytes → Bool
is_valid_challenge s =
    if ltb (length s) 1 || ltb 255 (length s) then false else all is_challenge_byte s

abbrev pub checked_txt : Bytes → Result Response Bytes
checked_txt [] = ok []
checked_txt (c ∷ s) =
    if is_valid_challenge (c ∷ s) then ok (c ∷ s) else err (invalid_value (bytes "txt"))

-- Where "txt" is missing, the body may be the challenge.
abbrev pub txt_or_body : Request → Bytes → Bytes
txt_or_body req (c ∷ s) = c ∷ s
txt_or_body req [] =
    if is_get req.method then [] else if is_valid_challenge req.body then req.body else []

-- The secret and the challenge, or the reply that ends the request.
unfoldable pub read_fields : Parsers → Request → Result Response (Bytes × Bytes)
unfolding is_valid_challenge
read_fields P req = do
  secret ← required (bytes "secret") (get_string P req (bytes "secret"))
  given ← optional (bytes "txt") (get_string P req (bytes "txt"))
  checked ← checked_txt given
  ok (secret, txt_or_body req checked)

unfoldable pub read_request : Parsers → Request → Result Response (Bytes × Bytes)
unfolding read_fields
read_request P req =
    if is_allowed req.method
    then read_fields P req
    else err (not_allowed (bytes "GET, POST, PUT, DELETE"))

module _ {S E : Type 0} (T : TtlStore S E) (now : ℕ) where
  abbrev serve_delete : Bytes → Bytes → S → Response × S
  serve_delete domain [] s = (bad_request (bytes "must specify " ++ quoted (bytes "txt")), s)
  serve_delete domain (c ∷ txt) s = reply no_content (T.remove domain (c ∷ txt) s)

  abbrev serve_add : Bytes → Bytes → S → Response × S
  serve_add domain [] s = (plain 200 (domain ++ 10 ∷ []), s)
  serve_add domain (c ∷ txt) s =
      reply (plain 201 (bytes "OK" ++ 10 ∷ [])) (T.add now domain (c ∷ txt) challenge_ttl s)

  abbrev pub act : Method → Bytes → Bytes → S → Response × S
  act delete_method domain txt s = serve_delete domain txt s
  act get_method domain txt s = serve_add domain txt s
  act post_method domain txt s = serve_add domain txt s
  act put_method domain txt s = serve_add domain txt s
  act (other_method m) domain txt s = serve_add domain txt s

  module _ (P : Parsers) (sum224_hex : Bytes → Bytes) (zone : Bytes) where
    abbrev pub act_on : Request → Result Response (Bytes × Bytes) → S → Response × S
    act_on req (err r) s = (r, s)
    act_on req (ok (secret, txt)) s = act req.method (domain_of sum224_hex zone secret) txt s

    unfoldable pub serve_http : Request → S → Response × S
    unfolding read_request
    serve_http req s = act_on req (read_request P req) s

  -- The generator's answer: the records and validName, or the error of the store.
  unfoldable pub generate_records : ℕ → Bytes → Bytes → S → Result E (List Record × Bool)
  generate_records qtype name zone s =
      if is_valid_subdomain (subdomain name zone)
      then if qtype == type_txt
        then map_ok (λ vals. (txt_records name vals, true)) (T.values now (to_lower_ascii name) s)
        else ok ([], true)
      else ok ([], false)
