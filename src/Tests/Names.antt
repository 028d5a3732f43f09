-- ===== src/Tests/Names.antt =====
-- Registrations and watchers on concrete names.
use addr_tools.TtlStore.Contract.{IsLawful, TtlStore}
use addr_tools.TtlStore.Prefixed.{prefixed, prefixed-IsLawful, prefixed_apart}
use addr_tools.TtlStore.Simple.{delete, Error}
use addr_tools.Zones.Myaddr.{marshal, unmarshal}
use addr_tools.Zones.Dyn.{uint32, uint32_bytes}
use addr_tools.Zones.Myaddr.Generator.{generate_records}
use addr_tools.Zones.Myaddr.Generator.Answers.{generate_records-add}
use addr_tools.Zones.Dyn.Generator.{type_txt, txt_records}
use addr_tools.TtlStore.Simple.{add, values_loop}
use addr_tools.Zones.Myaddr.Admin.{end_registration}
use addr_tools.Zones.Myaddr.Suspension.{suspended_key}
use addr_tools.Httputil.{no_content}
use addr_tools.Zones.Myaddr.Ownership.{register_name-owner}
use addr_tools.Zones.Myaddr.Handlers.{read_registration, register_name}
use addr_tools.Zones.Myaddr.{reg_key, hash_key, pending_ttl}
use addr_tools.Zones.Dyn.Handler.{Calls}
use addr_tools.Httputil.{plain}
use addr_tools.Dnsutil.Strings.{to_lower_ascii}
use addr_tools.TtlStore.Simple.{exists_loop}
use addr_tools.TtlStore.Contract.{expiry}
use addr_tools.Prelude.{
  ltb, leb, ◌==◌, if◌then◌else◌, ltb→lt, lt→ltb, leb→le, ==_iff, Bool-cases, Option-cases,
  &&-eq-true, length, length-append, take, drop, replicate, All, all, keep, head?, take-append-drop,
  length-take, length-drop, take-append, drop-append, length-map, length-replicate, length-keep,
  keep-append, take_all, Bytes, IsByte, bytes, bytes_eq, bytes_eq→eq, bytes_eq_refl, bytes_eq_iff,
  has_prefix, has_prefix-append, index_byte, or_here, last_index_byte, cons_first, split_byte, Map,
  lookup, insert, Unique, lookup-delete, lookup-insert, delete-Unique, insert-Unique, Result, ok,
  err, ◌>>=◌, map_ok, >>=-eq-ok, map_ok-eq-ok, >>=-ok, map_ok-if, Result-cases, ℤ, pos, negsuc,
  negate, is_digit, decimal, unsigned, atoi, ℕ, zero, suc, ◌+◌, ◌-◌, ◌*◌, ◌/◌, ◌%◌, ◌^◌, ◌≤◌, ◌<◌,
  String, ◌≡◌, refl, sym, ap, ◌∙◌, subst, ◌≢◌, ◌↔◌, ◌⊎◌, inl, inr, Bool, true, false, not, ◌&&◌,
  ◌||◌, Option, none, some, List, [], ◌∷◌, ◌++◌, map, append-nil, append_assoc, arith,
}
use addr_tools.TtlStore.Simple.{SimpleTtlStore, simple, set, get_loop, entry}
use addr_tools.TtlStore.Simple.Lawful.{simple-IsLawful}
use addr_tools.Httputil.{Request, post_method, get_string}
use addr_tools.Dnscheck.Watchers.{SimpleWatcherHub, HubIsValid}
use addr_tools.Zones.Myaddr.{expires, load_registration, update_registration, is_valid_name}
use addr_tools.Zones.Myaddr.Handlers.{serve_update}
use addr_tools.Zones.Myaddr.Registrations.{renewed, load-update_registration}
use addr_tools.Zones.Myaddr.Refused.{serve_update-refused}
use addr_tools.Tests.Requests.{toy, empty, put_request}

abbrev registered : SimpleTtlStore
registered = (update_registration simple 100 100 100 100 (bytes "abcd") (bytes "my-host1") empty).1

nothing_loaded : load_registration simple 100 (bytes "my-host1") empty ≡ ok none
unfolding load_registration entry lookup get_loop
nothing_loaded = refl

valid : is_valid_name (bytes "my-host1") ≡ true
unfolding is_valid_name
valid = refl

registration_stored :
    update_registration simple 100 100 100 100 (bytes "abcd") (bytes "my-host1") empty
    ≡ (none, registered)
unfolding update_registration set lookup get_loop entry insert bytes_eq
registration_stored = refl

load-update_registration_example :
    load_registration simple 200 (bytes "my-host1") registered
    ≡ ok (
        if ltb 200 (expires (renewed none 100 (bytes "abcd")))
        then some (renewed none 100 (bytes "abcd"))
        else none)
load-update_registration_example =
    load-update_registration simple simple-IsLawful 200 100 (bytes "abcd") (bytes "my-host1") none
      empty registered (omega arith) valid nothing_loaded tt registration_stored

-- The key is too short.
serve_update-refused_example :
    (serve_update toy (λ k. k) simple simple (λ i. 100) put_request empty).1 ≡ empty
serve_update-refused_example =
    serve_update-refused toy (λ k. k) simple simple (λ i. 100) put_request empty
      (unfold serve_update get_string bytes_eq in refl)

abbrev hub : SimpleWatcherHub ℕ
hub = record { max_size = 1; m = [] }

hub-IsValid : HubIsValid hub
hub-IsValid = record { unique = tt; bounded = λ h. omega arith }

abbrev one_watcher : SimpleWatcherHub ℕ
one_watcher = record { max_size = 1; m = (bytes "a", 1) ∷ [] }

-- Every field is in the URL: "my-host1" for each key that begins with n or c.
abbrev post_calls : Calls
post_calls = record toy {
  parsers = record {
    media_type = λ t. t;
    parse_query = λ q key.
        if bytes_eq key (bytes "name") || bytes_eq key (bytes "challenge") then q ∷ [] else [];
    json_field = λ b key. none;
  };
}

abbrev post_request : Request
post_request = record put_request { method = post_method; raw_query = bytes "My-Host1" }

post_read :
    read_registration post_calls (λ k. k) simple simple (λ i. 100) (λ c. ok true) post_request
    ≡ ok (bytes "my-host1")
unfolding read_registration get_string bytes_eq is_valid_name to_lower_ascii
post_read = refl

abbrev after_post : SimpleTtlStore
after_post =
    (register_name post_calls (λ k. k) simple simple (λ i. 100) (λ c. ok true) (λ n k. n)
      (bytes "abcd") post_request empty).1

post_served :
    register_name post_calls
      (λ k. k)
      simple
      simple
      (λ i. 100)
      (λ c. ok true)
      (λ n k. n)
      (bytes "abcd")
      post_request
      empty
    ≡ (plain 200 (bytes "my-host1"), after_post)
unfolding register_name get_string bytes_eq is_valid_name to_lower_ascii update_registration set
    lookup get_loop exists_loop entry insert
post_served = refl

register_name-owner_example :
    (simple.has 100 (reg_key (bytes "my-host1")) empty ≡ ok false)
    × (simple.get 200 (hash_key (bytes "abcd")) after_post
        ≡ ok (if ltb 200 (expiry 100 pending_ttl) then some (bytes "my-host1") else none))
register_name-owner_example =
    register_name-owner post_calls (λ k. k) simple simple 100 simple-IsLawful (λ c. ok true)
      (λ n k. n) 200 b'a' (bytes "bcd") (bytes "abcd") (bytes "my-host1") (bytes "my-host1")
      post_request empty after_post refl post_read post_served

-- The stores of the program: two prefixes of one store.
abbrev data_store : TtlStore SimpleTtlStore Error
data_store = prefixed (bytes "d:") simple

abbrev challenge_store : TtlStore SimpleTtlStore Error
challenge_store = prefixed (bytes "c:") simple

data_store-IsLawful : IsLawful data_store
data_store-IsLawful = prefixed-IsLawful (bytes "d:") simple simple-IsLawful

stores_apart :
    (t : ℕ) (k j : Bytes) (s s' : SimpleTtlStore)
    → challenge_store.delete k s ≡ (none, s')
    → data_store.get t j s' ≡ data_store.get t j s
unfolding has_prefix
stores_apart t k j s s' e =
    data_store-IsLawful.get_lem t j s'
    ∙ ap (map_ok head?) (
        prefixed_apart (bytes "c:") (bytes "d:") simple simple-IsLawful (refl, refl) t 0 0 k j [] s
          s' (inr (inr (inr e))))
    ∙ sym (data_store-IsLawful.get_lem t j s)

abbrev known : SimpleTtlStore
known = (update_registration data_store 100 100 100 100 (bytes "abcd") (bytes "my-host1") empty).1

known_loaded :
    load_registration data_store 100 (bytes "my-host1") known
    ≡ ok (some (renewed none 100 (bytes "abcd")))
unfolding update_registration load_registration marshal unmarshal set lookup get_loop entry insert
    bytes_eq uint32 uint32_bytes
known_loaded = refl

abbrev suspended : SimpleTtlStore
suspended =
    (end_registration data_store challenge_store (λ e. []) (λ r. []) (λ n. []) (λ i. 100) true
      (bytes "my-host1") known).1

suspended_served :
    end_registration data_store challenge_store
      (λ e. [])
      (λ r. [])
      (λ n. [])
      (λ i. 100)
      true
      (bytes "my-host1")
      known
    ≡ (no_content, suspended)
unfolding addr_tools.Prelude.delete end_registration update_registration load_registration marshal
    unmarshal delete set lookup get_loop entry insert bytes_eq uint32 uint32_bytes
suspended_served = refl

suspended_key_example : data_store.get 200 (hash_key (bytes "abcd")) suspended ≡ ok none
suspended_key_example =
    suspended_key data_store challenge_store data_store-IsLawful stores_apart (λ e. []) (λ r. [])
      (λ n. []) 200 100 b'a' b'm' (bytes "y-host1") (bytes "bcd") (renewed none 100 (bytes "abcd"))
      known suspended valid known_loaded refl suspended_served

abbrev challenge_name : Bytes
challenge_name = bytes "_Acme-Challenge.a.My-Host1.ex."

abbrev with_challenge : SimpleTtlStore
with_challenge = (challenge_store.add 100 (bytes "my-host1") (bytes "token") 600 empty).1

challenge_added :
    challenge_store.add 100 (to_lower_ascii (bytes "My-Host1")) (bytes "token") 600 empty
    ≡ (none, with_challenge)
unfolding add insert lookup bytes_eq to_lower_ascii
challenge_added = refl

generate_records-add_example :
    generate_records data_store challenge_store
      (λ u. [])
      (λ i. 200)
      type_txt
      challenge_name
      (bytes "ex.")
      with_challenge
    ≡ ok (txt_records challenge_name ([] ++ bytes "token" ∷ []), true)
generate_records-add_example =
    generate_records-add data_store challenge_store (λ u. []) (λ i. 200) 100 600
      (bytes "_Acme-Challenge") (bytes "a.") (bytes "_Acme-Challenge.a") (bytes "My-Host1")
      (bytes "ex.") (bytes "token") [] empty with_challenge
      (prefixed-IsLawful (bytes "c:") simple simple-IsLawful) (unfold to_lower_ascii in refl) refl
      (unfold is_valid_name in refl) (unfold values_loop lookup entry to_lower_ascii in refl)
      challenge_added (omega arith)
