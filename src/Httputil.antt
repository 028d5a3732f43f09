-- ===== src/Httputil.antt =====
-- RequestValues of internal/httputil/request.go. The body is read once, so the lazily filled fields
-- are functions of the request.
use addr_tools.Prelude.{
  ltb, leb, ◌==◌, if◌then◌else◌, ltb→lt, lt→ltb, leb→le, ==_iff, Bool-cases, Option-cases,
  &&-eq-true, length, length-append, take, drop, replicate, All, all, keep, head?, take-append-drop,
  length-take, length-drop, take-append, drop-append, length-map, length-replicate, length-keep,
  keep-append, take_all, Bytes, IsByte, bytes, bytes_eq, bytes_eq→eq, bytes_eq_refl, bytes_eq_iff,
  has_prefix, has_prefix-append, index_byte, or_here, last_index_byte, cons_first, split_byte, Map,
  lookup, delete, insert, Unique, lookup-delete, lookup-insert, delete-Unique, insert-Unique,
  Result, ok, err, ◌>>=◌, map_ok, >>=-eq-ok, >>=-ok, map_ok-if, ℤ, pos, negsuc, negate, is_digit,
  decimal, unsigned, atoi, ℕ, zero, suc, ◌+◌, ◌-◌, ◌*◌, ◌/◌, ◌%◌, ◌^◌, ◌≤◌, ◌<◌, String, ◌≡◌, refl,
  sym, ap, ◌∙◌, subst, ◌≢◌, ◌↔◌, ◌⊎◌, inl, inr, Bool, true, false, not, ◌&&◌, ◌||◌, Option, none,
  some, List, [], ◌∷◌, ◌++◌, map, append-nil, append_assoc, arith,
}
pub mod Values

pub data Method : Type 0 where
  get_method post_method put_method delete_method : Method
  other_method : Bytes → Method

pub data FormError : Type 0 where
  ambiguous_values unexpected_type : FormError
  read_error : ℕ → FormError

-- A value of a form or of a JSON object: a string or something else.
pub data Value : Type 0 where
  text : Bytes → Value
  not_text : Value

-- `body` is what io.ReadAll read, and `body_error` its error, if any; `read_error` carries it on.
pub record Request : Type 0 where
  pub method : Method
  pub content_type : Bytes
  pub body : Bytes
  pub body_error : Option ℕ
  pub raw_query : Bytes
  pub real_ip : Bytes

-- mime.ParseMediaType, url.ParseQuery and json.Unmarshal, as far as the package uses their results.
pub record Parsers : Type 0 where
  pub media_type : Bytes → Bytes
  pub parse_query : Bytes → Bytes → List Bytes
  pub json_field : Bytes → Bytes → Option Value

-- What is written to the client: http.Error, a text, a status alone, or a refusal of the method with
-- the methods that are allowed.
pub data Response : Type 0 where
  http_error plain : ℕ → Bytes → Response
  no_content : Response
  not_allowed : Bytes → Response

abbrev pub has_body : Method → Bool
has_body get_method = false
has_body post_method = true
has_body put_method = true
has_body delete_method = true
has_body (other_method m) = false

abbrev pub is_get : Method → Bool
is_get get_method = true
is_get post_method = false
is_get put_method = false
is_get delete_method = false
is_get (other_method m) = false

abbrev pub option_list : Option Value → List Value
option_list none = []
option_list (some v) = v ∷ []

abbrev pub unless_error : Option ℕ → List Value → Result FormError (List Value)
unless_error none vs = ok vs
unless_error (some e) vs = err (read_error e)

-- The loop of GetString: what it returns at the end or at its break.
unfoldable pub string_loop : List Value → Option Bytes → Option FormError → Bytes × Option FormError
string_loop [] none e = ([], e)
string_loop [] (some str) e = (str, e)
string_loop (text s ∷ vs) none none = string_loop vs (some s) none
string_loop (text s ∷ vs) none (some e) = (s, some e)
string_loop (text s ∷ vs) (some str) e =
    let rest = string_loop vs (some str) none in
    if bytes_eq s str
    then elim e [ none ↦ rest | some x ↦ (str, some x) ]
    else (str, some ambiguous_values)
string_loop (not_text ∷ vs) none e = string_loop vs none (some unexpected_type)
string_loop (not_text ∷ vs) (some str) e = (str, some unexpected_type)

abbrev pub string_of : Result FormError (List Value) → Bytes × Option FormError
string_of (err e) = ([], some e)
string_of (ok vs) = string_loop vs none none

module _ (P : Parsers) where
  unfoldable pub media_type_of : Bytes → Bytes
  media_type_of [] = []
  media_type_of (c ∷ t) = P.media_type (c ∷ t)

  unfoldable pub query_values : Request → Bytes → List Value
  query_values req key = map text (P.parse_query req.raw_query key)

  -- The values in the body, by its type.
  unfoldable pub body_values : Bytes → Request → Bytes → Result FormError (List Value)
  body_values type req key =
      if bytes_eq type (bytes "application/x-www-form-urlencoded") || bytes_eq type []
      then unless_error req.body_error (map text (P.parse_query req.body key))
      else if bytes_eq type (bytes "application/json")
      then unless_error req.body_error (option_list (P.json_field req.body key))
      else ok []

  unfoldable pub values : Request → Bytes → Result FormError (List Value)
  unfolding body_values media_type_of query_values
  values req key =
      if has_body req.method
      then map_ok (λ vs. vs ++ query_values req key)
          (body_values (media_type_of req.content_type) req key)
      else if is_get req.method
      then ok (query_values req key)
      else ok []

  unfoldable pub get_string : Request → Bytes → Bytes × Option FormError
  unfolding values string_loop
  get_string req key = string_of (values req key)
