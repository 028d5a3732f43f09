-- ===== src/Zones/Myaddr/Admin.antt =====
-- AdminHandler of internal/zones/myaddr/api.go. The replies in JSON and the texts of errors are printed by
-- parameters, and `query_name` is the name in the query of the URL.
use addr_tools.Prelude.{
  leb, if◌then◌else◌, length, take, drop, Bytes, bytes, bytes_eq, Result, ok, err, ℕ, ◌-◌, Bool,
  true, false, ◌&&◌, Option, none, some, List, [], ◌∷◌, ◌++◌,
}
use addr_tools.TtlStore.Contract.{TtlStore}
use addr_tools.Httputil.{
  Method, get_method, post_method, put_method, delete_method, other_method, Response, http_error,
  plain, no_content, not_allowed,
}
use addr_tools.Zones.Replies.{bad_request, quoted}
use addr_tools.Zones.Dyn.{LoadError, store_failed, ip4_key, ip6_key}
use addr_tools.Zones.Myaddr.{
  RegistrationRecord, reg_key, hash_key, store_error, load_registration, update_registration,
}

-- if err == nil { err = … }, where the calls fail with different errors
abbrev pub next_call :
    {S E : Type 0} → Option (LoadError E) × S → (S → Option E × S) → Option (LoadError E) × S
next_call (some e, s) call = (some e, s)
next_call (none, s) call = store_error (call s)

abbrev pub load_call :
    {S E : Type 0}
    → Option (LoadError E) × S
    → (S → Option (LoadError E) × S)
    → Option (LoadError E) × S
load_call (some e, s) call = (some e, s)
load_call (none, s) call = call s

unfoldable pub has_suffix : Bytes → Bytes → Bool
has_suffix s suffix =
    leb (length suffix) (length s) && bytes_eq (drop (length s - length suffix) s) suffix

unfoldable pub registered_names : List Bytes → List Bytes
unfolding has_suffix
registered_names [] = []
registered_names (key ∷ keys) =
    let rest = registered_names keys in
    if has_suffix key (bytes ":reg") then take (length key - 4) key ∷ rest else rest

module _ {S E : Type 0} (data_store challenge_store : TtlStore S E) (text_of : LoadError E → Bytes)
    (print_record : Option RegistrationRecord → Bytes) (print_names : List Bytes → Bytes)
    (clock : ℕ → ℕ) where
  abbrev pub failure : LoadError E → Response
  failure e = http_error 500 (text_of e)

  abbrev shown_record : Result (LoadError E) (Option RegistrationRecord) → Response
  shown_record (err e) = failure e
  shown_record (ok reg) = plain 200 (print_record reg)

  abbrev shown_names : Result E (List Bytes) → Response
  shown_names (err e) = failure (store_failed e)
  shown_names (ok keys) = plain 200 (print_names (registered_names keys))

  unfoldable pub show : Bytes → S → Response
  unfolding registered_names
  show [] s = shown_names (data_store.list [] s)
  show (c ∷ name) s = shown_record (load_registration data_store (clock 0) (c ∷ name) s)

  -- The key of the name is deleted, if there is one.
  abbrev pub delete_hash : Bytes → S → Option (LoadError E) × S
  delete_hash [] s = (none, s)
  delete_hash (c ∷ hash) s = next_call (none, s) (data_store.delete (hash_key (c ∷ hash)))

  abbrev pub clear : Bytes → Bytes → S → Option (LoadError E) × S
  clear name hash s =
      next_call
        (next_call (next_call (delete_hash hash s) (data_store.delete (ip4_key name)))
          (data_store.delete (ip6_key name)))
        (challenge_store.delete name)

  abbrev pub settle : Bool → Bytes → Option (LoadError E) × S → Option (LoadError E) × S
  settle true name r =
      load_call r (update_registration data_store (clock 1) (clock 2) (clock 3) (clock 4) [] name)
  settle false name r = next_call r (data_store.delete (reg_key name))

  abbrev pub admin_reply : Option (LoadError E) × S → Response × S
  admin_reply (none, s) = (no_content, s)
  admin_reply (some e, s) = (failure e, s)

  abbrev pub end_loaded :
      Bool → Bytes → Result (LoadError E) (Option RegistrationRecord) → S → Response × S
  end_loaded suspend name (err e) s = (failure e, s)
  end_loaded suspend name (ok none) s = (bad_request (bytes "registration not found"), s)
  end_loaded suspend name (ok (some reg)) s =
      admin_reply (settle suspend name (clear name reg.hash s))

  -- DELETE, and SUSPEND if `suspend`.
  unfoldable pub end_registration : Bool → Bytes → S → Response × S
  unfolding update_registration
  end_registration suspend [] s = (bad_request (bytes "missing " ++ quoted (bytes "name")), s)
  end_registration suspend (c ∷ name) s =
      end_loaded suspend (c ∷ name) (load_registration data_store (clock 0) (c ∷ name) s) s

  abbrev pub admin_other : Bytes → Response × S → S → Response × S
  admin_other m suspended s =
      if bytes_eq m (bytes "SUSPEND")
      then suspended
      else (not_allowed (bytes "GET, DELETE, SUSPEND"), s)

  unfoldable pub serve_admin : Method → Bytes → S → Response × S
  unfolding show end_registration
  serve_admin get_method query_name s = (show query_name s, s)
  serve_admin delete_method query_name s = end_registration false query_name s
  serve_admin (other_method m) query_name s = admin_other m (end_registration true query_name s) s
  serve_admin post_method query_name s = (not_allowed (bytes "GET, DELETE, SUSPEND"), s)
  serve_admin put_method query_name s = (not_allowed (bytes "GET, DELETE, SUSPEND"), s)
