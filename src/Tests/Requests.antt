-- ===== src/Tests/Requests.antt =====
-- Requests to the zones' APIs over an empty SimpleTtlStore, with toys in place of net/url, mime,
-- encoding/json, net and crypto/sha256.
use addr_tools.Prelude.{
  ◌==◌, if◌then◌else◌, length, replicate, Bytes, bytes, bytes_eq, lookup, ok, ◌≡◌, refl, true,
  false, none, some, List, [], ◌∷◌, ◌++◌, arith,
}
use addr_tools.TtlStore.Contract.{fresh}
use addr_tools.TtlStore.Simple.{values_loop, entry, SimpleTtlStore, simple, set, add, delete}
use addr_tools.TtlStore.Simple.Lawful.{simple-IsLawful}
use addr_tools.Dnsutil.Strings.{to_lower_ascii}
use addr_tools.Httputil.{Request, put_method, delete_method, Parsers, plain, no_content, get_string}
use addr_tools.Zones.Dyn.{update_ip}
use addr_tools.Zones.Dyn.Handler.{Calls, read_request, serve_http}
use addr_tools.Zones.Dyn.Generator.{
  a, type_a, type_txt, txt_records, generate_records, is_valid_subdomain,
}
use addr_tools.Zones.Dyn.Updates.{generate_records-serve_http}
use addr_tools.Zones.Challenges
use addr_tools.Zones.Challenges.{is_valid_challenge, challenge_ttl}
use addr_tools.Zones.Challenges.Records.{generate_records-put}

-- A query is one field, "s=v" giving "v" under every key whose name begins with the letter s.
abbrev field_of : Bytes → Bytes → List Bytes
field_of (c ∷ e ∷ v) (k ∷ key) = if c == k then v ∷ [] else []
field_of (c ∷ e ∷ v) [] = []
field_of (c ∷ []) key = []
field_of [] key = []

abbrev toy_parsers : Parsers
toy_parsers = record { media_type = λ t. t; parse_query = field_of; json_field = λ b key. none }

abbrev pub toy : Calls
toy = record {
  parsers = toy_parsers;
  parse_ip = λ b. if length b == 4 then some b else none;
  to4 = λ b. some b;
  sum224_hex = λ b. replicate 56 b'a';
}

abbrev zone : Bytes
zone = bytes "x."

-- The secret stands in the URL and the address in the body.
abbrev pub put_request : Request
put_request = record {
  method = put_method;
  content_type = bytes "text/plain";
  body = 9 ∷ 8 ∷ 7 ∷ 6 ∷ [];
  body_error = none;
  raw_query = bytes "s=abc";
  real_ip = [];
}

abbrev delete_request : Request
delete_request = record put_request { method = delete_method; body = [] }

abbrev pub empty : SimpleTtlStore
empty = record { max_size = 0; m = []; size = 0; dirty = false }

abbrev name : Bytes
name = replicate 56 b'A' ++ bytes ".X."

abbrev domain : Bytes
domain = replicate 56 b'a' ++ bytes ".x."

put_read : read_request toy put_request ≡ ok (bytes "abc", some (9 ∷ 8 ∷ 7 ∷ 6 ∷ []))
unfolding read_request get_string bytes_eq
put_read = refl

delete_read : read_request toy delete_request ≡ ok (bytes "abc", none)
unfolding read_request get_string bytes_eq
delete_read = refl

abbrev after_put : SimpleTtlStore
after_put = (update_ip simple (some (9 ∷ 8 ∷ 7 ∷ 6 ∷ [])) 100 100 domain [] empty).1

abbrev ok_text : Bytes
ok_text = bytes "OK" ++ 10 ∷ []

put_served : serve_http toy simple 100 100 zone put_request empty ≡ (plain 200 ok_text, after_put)
unfolding serve_http read_request get_string bytes_eq update_ip set lookup
put_served = refl

generate_records-serve_http_example :
    generate_records simple (λ u. []) 500 500 type_a name zone after_put
    ≡ ok (a name 60 (9 ∷ 8 ∷ 7 ∷ 6 ∷ []) ∷ [], true)
generate_records-serve_http_example =
    generate_records-serve_http toy simple 100 100 zone simple-IsLawful (λ u. []) 500 500
      put_request (bytes "abc") (9 ∷ 8 ∷ 7 ∷ 6 ∷ []) (9 ∷ 8 ∷ 7 ∷ 6 ∷ []) name empty after_put
      (omega arith) refl refl refl put_read put_served (unfold to_lower_ascii in refl)
      (unfold is_valid_subdomain bytes_eq in refl) (omega arith)

abbrev after_delete : SimpleTtlStore
after_delete = (serve_http toy simple 100 100 zone delete_request empty).1

delete_served : serve_http toy simple 100 100 zone delete_request empty ≡ (no_content, after_delete)
unfolding serve_http read_request get_string bytes_eq delete lookup
delete_served = refl

abbrev bare_request : Request
bare_request = record put_request { raw_query = [] }

abbrev after_put6 : SimpleTtlStore
after_put6 = (update_ip simple none 100 100 domain (replicate 16 1) empty).1

abbrev two_values : Request
two_values = record put_request { content_type = []; body = bytes "s=abc" }

string_read : get_string toy_parsers two_values (bytes "secret") ≡ (bytes "abc", none)
unfolding get_string bytes_eq
string_read = refl

-- The challenge in the body.
abbrev challenge_request : Request
challenge_request = record put_request { body = bytes "token-1" }

challenge_read :
    Challenges.read_request toy_parsers challenge_request ≡ ok (bytes "abc", bytes "token-1")
unfolding Challenges.read_request get_string bytes_eq
challenge_read = refl

abbrev after_challenge : SimpleTtlStore
after_challenge = (add 100 domain (bytes "token-1") challenge_ttl empty).1

challenge_served :
    Challenges.serve_http simple 100 toy_parsers toy.sum224_hex zone challenge_request empty
    ≡ (plain 201 ok_text, after_challenge)
unfolding Challenges.serve_http Challenges.read_request get_string bytes_eq add lookup
challenge_served = refl

generate_records-put_example :
    Challenges.generate_records simple 150 type_txt name zone after_challenge
    ≡ ok (txt_records name ([] ++ fresh 150 100 (bytes "token-1") challenge_ttl), true)
generate_records-put_example =
    generate_records-put simple 100 toy_parsers toy.sum224_hex zone simple-IsLawful 150
      challenge_request (bytes "abc") (bytes "token-1") name [] empty after_challenge refl
      challenge_read challenge_served (unfold to_lower_ascii in refl)
      (unfold is_valid_subdomain bytes_eq in refl) (unfold values_loop entry lookup in refl)
