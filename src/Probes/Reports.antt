-- ===== src/Probes/Reports.antt =====
-- Store.Get and the HTTP handler of internal/probereport/report.go. Reads of the Valkey client and
-- json.Unmarshal are parameters, and the counter is not negative.
pub mod Contents
use addr_tools.Prelude.{
  ltb, leb, ◌==◌, if◌then◌else◌, ltb→lt, lt→ltb, leb→le, ==_iff, Bool-cases, Option-cases,
  &&-eq-true, length, length-append, take, drop, replicate, All, all, keep, head?, take-append-drop,
  length-take, length-drop, take-append, drop-append, length-map, length-replicate, length-keep,
  keep-append, take_all, Bytes, IsByte, bytes, bytes_eq, bytes_eq→eq, bytes_eq_refl, bytes_eq_iff,
  has_prefix, has_prefix-append, index_byte, or_here, last_index_byte, cons_first, split_byte, Map,
  lookup, delete, insert, Unique, lookup-delete, lookup-insert, delete-Unique, insert-Unique,
  Result, ok, err, ◌>>=◌, map_ok, >>=-eq-ok, map_ok-eq-ok, >>=-ok, map_ok-if, Result-cases, ℤ, pos,
  negsuc, negate, is_digit, decimal, unsigned, atoi, ℕ, zero, suc, ◌+◌, ◌-◌, ◌*◌, ◌/◌, ◌%◌, ◌^◌,
  ◌≤◌, ◌<◌, String, ◌≡◌, refl, sym, ap, ◌∙◌, subst, ◌≢◌, ◌↔◌, ◌⊎◌, inl, inr, Bool, true, false, not,
  ◌&&◌, ◌||◌, Option, none, some, List, [], ◌∷◌, ◌++◌, map, append-nil, append_assoc, arith,
}
use addr_tools.Httputil.{
  Method, get_method, post_method, put_method, delete_method, other_method, Request, Response,
  http_error, not_allowed,
}
use addr_tools.Probes.{Observation}
use addr_tools.Zones.Replies.{quoted}

-- The reply of the store to a read: a value, valkey's nil, or an error.
pub data Reply (E A : Type 0) : Type 0 where
  found : A → Reply E A
  nothing : Reply E A
  failed : E → Reply E A

-- GET of a counter and LRANGE of the whole of a list, by key.
pub record Client (E : Type 0) : Type 0 where
  pub get_int : Bytes → Reply E ℕ
  pub list_range : Bytes → Reply E (List Bytes)

pub record Decoders (R : Type 0) : Type 0 where
  pub observation : Bytes → Option Observation
  pub error_report : Bytes → Option R

pub data StoreError (E : Type 0) : Type 0 where
  no_store : StoreError E
  store_failed : E → StoreError E

pub record Report (R : Type 0) : Type 0 where
  pub token : Bytes
  pub queries : ℕ
  pub observations : List Observation
  pub resolvers : List Bytes
  pub error_reports : List R

abbrev pub seen_key : Bytes → Bytes
seen_key token = bytes "probe:seen:" ++ token

abbrev pub obs_key : Bytes → Bytes
obs_key token = bytes "probe:obs:" ++ token

abbrev pub reports_key : Bytes → Bytes
reports_key token = bytes "probe:reports:" ++ token

-- nil reads as nothing found.
abbrev pub or_default : {E A : Type 0} → A → Reply E A → Result (StoreError E) A
or_default default (found a) = ok a
or_default default nothing = ok default
or_default default (failed e) = err (store_failed e)

abbrev pub add_decoded : {A : Type 0} → Option A → List A → List A
add_decoded none rest = rest
add_decoded (some a) rest = a ∷ rest

-- The entries that can be decoded, in their order.
unfoldable pub decode_all : {A : Type 0} → (Bytes → Option A) → List Bytes → List A
decode_all decode [] = []
decode_all decode (v ∷ vs) = add_decoded (decode v) (decode_all decode vs)

unfoldable pub mem_bytes : Bytes → List Bytes → Bool
mem_bytes b [] = false
mem_bytes b (c ∷ cs) = bytes_eq c b || mem_bytes b cs

-- The map seenResolver holds the addresses that report.Resolvers lists.
unfoldable pub add_resolvers : List Bytes → List Observation → List Bytes
add_resolvers seen [] = seen
add_resolvers seen (o ∷ os) =
    add_resolvers
      (if not (bytes_eq o.resolver_addr []) && not (mem_bytes o.resolver_addr seen)
        then seen ++ o.resolver_addr ∷ []
        else seen)
      os

abbrev pub at_least : ℕ → ℕ → ℕ
at_least low n = if ltb n low then low else n

abbrev hex_digit : ℕ → Bool
hex_digit c = (leb b'0' c && leb c b'9') || (leb b'a' c && leb c b'f')

unfoldable pub valid_token : Bytes → Bool
valid_token s = if ltb (length s) 8 || ltb 32 (length s) then false else all hex_digit s

module _ {R : Type 0} (D : Decoders R) where
  unfoldable pub report_of : Bytes → ℕ → List Bytes → List Bytes → Report R
  unfolding decode_all add_resolvers
  report_of token n vals reports =
      let observations = decode_all D.observation vals in
      record {
        token = token;
        queries = at_least (length observations) n;
        observations = observations;
        resolvers = add_resolvers [] observations;
        error_reports = decode_all D.error_report reports;
      }

  unfoldable pub get : {E : Type 0} → Option (Client E) → Bytes → Result (StoreError E) (Report R)
  unfolding report_of
  get none token = err no_store
  get (some c) token = do
    n ← or_default 0 (c.get_int (seen_key token))
    vals ← or_default [] (c.list_range (obs_key token))
    reports ← or_default [] (c.list_range (reports_key token))
    ok (report_of token n vals reports)

-- A report is served as JSON.
pub data Served (R : Type 0) : Type 0 where
  replied : Response → Served R
  reported : Report R → Served R

abbrev pub served : {E R : Type 0} → Result (StoreError E) (Report R) → Served R
served (ok report) = reported report
served (err no_store) = replied (http_error 503 (bytes "reporting is not configured"))
served (err (store_failed e)) = replied (http_error 500 (bytes "server error"))

abbrev pub is_reading : Method → Bool
is_reading get_method = true
is_reading (other_method m) = bytes_eq m (bytes "HEAD")
is_reading post_method = false
is_reading put_method = false
is_reading delete_method = false

-- `query_token` is req.URL.Query().Get("token").
unfoldable pub serve_http :
    {E R : Type 0} → Decoders R → Option (Client E) → Method → Bytes → Served R
unfolding get valid_token
serve_http D client method query_token =
    if not (is_reading method)
    then replied (not_allowed (bytes "GET, HEAD"))
    else if not (valid_token query_token)
    then replied (http_error 400 (bytes "invalid or missing " ++ quoted (bytes "token")))
    else served (get D client query_token)
