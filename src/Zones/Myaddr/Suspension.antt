-- ===== src/Zones/Myaddr/Suspension.antt =====
-- What SUSPEND of AdminHandler in internal/zones/myaddr/api.go leaves.
use addr_tools.Prelude.{
  Bytes, bytes_eq, bytes_eq_refl, bytes_eq_iff, Result, ok, err, ℕ, ◌≡◌, refl, sym, ap, ◌∙◌, true,
  false, Option, none, some, List, [], ◌∷◌, arith,
}
use addr_tools.TtlStore.Contract.{TtlStore, IsLawful}
use addr_tools.Httputil.{Response, no_content}
use addr_tools.Zones.Dyn.{LoadError, ip4_key, ip6_key}
use addr_tools.Zones.Dyn.Addresses.{get-set, get-delete}
use addr_tools.Zones.Myaddr.{
  RegistrationRecord, marshal, pending_ttl, registration_ttl, reg_key, hash_key, load_registration,
  store_error, set_hash, store_registration, update_loaded, update_registration, is_valid_name,
}
use addr_tools.Zones.Myaddr.Registrations.{valid-keys, store_error-none}
use addr_tools.Zones.Myaddr.Admin.{
  next_call, load_call, clear, admin_reply, end_loaded, end_registration,
}

-- A step after which a key without a value is still without one.
next_call-none :
    {S E : Type 0} (r : Option (LoadError E) × S) (call : S → Option E × S) (s' : S)
    → next_call r call ≡ (none, s')
    → (m : S) × (r ≡ (none, m)) × (call m ≡ (none, s'))
next_call-none (some e, m) call s' h = absurd (cc (ap (λ (q : Option _ × _). q.0) h))
next_call-none (none, m) call s' h = (m, refl, store_error-none (call m) s' h)

module _ {S E : Type 0} (data_store challenge_store : TtlStore S E) (law : IsLawful data_store)
    -- What is deleted in the challenge store is not seen in the data store, as with two prefixes.
    (apart : (t : ℕ) (k j : Bytes) (s s' : S)
      → challenge_store.delete k s ≡ (none, s')
      → data_store.get t j s' ≡ data_store.get t j s)
    (text_of : LoadError E → Bytes) (print_record : Option RegistrationRecord → Bytes)
    (print_names : List Bytes → Bytes) (t : ℕ) where
  still-none :
      (k j : Bytes) (s s' : S)
      → data_store.delete k s ≡ (none, s')
      → data_store.get t j s ≡ ok none
      → data_store.get t j s' ≡ ok none
  still-none k j s s' e absent = ground (arith, get-delete data_store law t k j s s' e)

  abbrev cleared : Bytes → Bytes → S → Option (LoadError E) × S
  cleared name hash s =
      clear data_store challenge_store text_of print_record print_names (λ i. 0) name hash s

  cleared-hash :
      (name : Bytes) (c : ℕ) (hash : Bytes) (s s' : S)
      → cleared name (c ∷ hash) s ≡ (none, s')
      → data_store.get t (hash_key (c ∷ hash)) s' ≡ ok none
  cleared-hash name c hash s s' h =
      let key = hash_key (c ∷ hash) in
      let first : Option (LoadError E) × S = next_call (none, s) (data_store.delete key) in
      let second : Option (LoadError E) × S = next_call first (data_store.delete (ip4_key name)) in
      let third : Option (LoadError E) × S = next_call second (data_store.delete (ip6_key name)) in
      let (s3, e3, h4) = next_call-none third (challenge_store.delete name) s' h in
      let (s2, e2, h3) = next_call-none second (data_store.delete (ip6_key name)) s3 e3 in
      let (s1, e1, h2) = next_call-none first (data_store.delete (ip4_key name)) s2 e2 in
      let (s0, e0, h1) = next_call-none (none, s) (data_store.delete key) s1 e1 in
      let gone : data_store.get t key s1 ≡ ok none =
        get-delete data_store law t key key s0 s1 h1 ∙ rw (bytes_eq_refl key) refl in
      apart t name key s3 s' h4
      ∙ still-none (ip6_key name) key s2 s3 h3 (still-none (ip4_key name) key s1 s2 h2 gone)

  set_hash-nil :
      (now ttl : ℕ) (name : Bytes) (p : Option E × S)
      → set_hash data_store now now now now [] name ttl [] p ≡ p
  set_hash-nil now ttl name (some e, m) = refl
  set_hash-nil now ttl name (none, m) = refl

  keys_apart :
      (name hash : Bytes)
      → is_valid_name name ≡ true
      → bytes_eq (reg_key name) (hash_key hash) ≡ false
  keys_apart name hash valid = ground (
    arith,
    valid-keys name hash valid,
    bytes_eq_iff (reg_key name) (hash_key hash),
    bytes_eq_iff (hash_key hash) (reg_key name),
  )

  stored-hash :
      (now ttl : ℕ) (name hash : Bytes) (r : RegistrationRecord) (s s' : S)
      → is_valid_name name ≡ true
      → store_registration data_store now now now now [] name r ttl s ≡ (none, s')
      → data_store.get t (hash_key hash) s ≡ ok none
      → data_store.get t (hash_key hash) s' ≡ ok none
  stored-hash now ttl name hash r s s' valid h absent =
      let put : data_store.set now (reg_key name) (marshal r) ttl s ≡ (none, s') =
        store_error-none (data_store.set now (reg_key name) (marshal r) ttl s) s' (
          ap store_error
            (sym (set_hash-nil now ttl name (data_store.set now (reg_key name) (marshal r) ttl s)))
          ∙ h) in
      get-set data_store law t now ttl (reg_key name) (hash_key hash) (marshal r) s s' put
      ∙ rw (keys_apart name hash valid) absent

  -- UpdateRegistration without a hash touches the registration only.
  updated-hash :
      (now : ℕ) (name : Bytes) (hash : Bytes) (r : Result (LoadError E) (Option RegistrationRecord))
      (s s' : S)
      → is_valid_name name ≡ true
      → update_loaded data_store now now now now [] name r s ≡ (none, s')
      → data_store.get t (hash_key hash) s ≡ ok none
      → data_store.get t (hash_key hash) s' ≡ ok none
  updated-hash now name hash (err e) s s' valid h absent =
      absurd (cc (ap (λ (q : Option (LoadError E) × S). q.0) h))
  updated-hash now name hash (ok none) s s' valid h absent =
      stored-hash now pending_ttl name hash (record { created = now; updated = now; hash = [] }) s
        s' valid h absent
  updated-hash now name hash (ok (some r)) s s' valid h absent =
      stored-hash now registration_ttl name hash
        (record { created = r.created; updated = now; hash = [] }) s s' valid h absent

  load_call-none :
      (r : Option (LoadError E) × S) (call : S → Option (LoadError E) × S) (s' : S)
      → load_call r call ≡ (none, s')
      → (m : S) × (r ≡ (none, m)) × (call m ≡ (none, s'))
  load_call-none (some e, m) call s' h = absurd (cc (ap (λ (q : Option (LoadError E) × S). q.0) h))
  load_call-none (none, m) call s' h = (m, refl, h)

  replied :
      (r : Option (LoadError E) × S) (s' : S)
      → admin_reply data_store challenge_store text_of print_record print_names (λ i. 0) r
        ≡ (no_content, s')
      → r ≡ (none, s')
  replied (none, m) s' h = ap (λ (q : Response × S). (none, q.1)) h
  replied (some e, m) s' h = absurd (cc (ap (λ (q : Response × S). q.0) h))

  -- Over a store that keeps the contract, whose keys the challenge store does not touch: once a
  -- SUSPEND of a valid name, whose registration has a hash, is answered with 204, that hash leads
  -- to no name, so that nobody can update the name with its key. Every reading of the clock is
  -- `now`.
  pub suspended_key :
      (now c : ℕ) (d : ℕ) (name hash : Bytes) (reg : RegistrationRecord) (s s' : S)
      → is_valid_name (d ∷ name) ≡ true
      → load_registration data_store now (d ∷ name) s ≡ ok (some reg)
      → reg.hash ≡ c ∷ hash
      → end_registration data_store challenge_store text_of print_record print_names
          (λ i. now)
          true
          (d ∷ name)
          s
        ≡ (no_content, s')
      → data_store.get t (hash_key (c ∷ hash)) s' ≡ ok none
  unfolding end_registration update_registration
  suspended_key now c d name hash reg s s' valid loaded hashed h =
      let all : Response × S =
        end_loaded data_store challenge_store text_of print_record print_names (λ i. now) true
          (d ∷ name) (ok (some reg)) s in
      let went : all ≡ (no_content, s') =
        sym (
          ap
            (λ r.
              end_loaded data_store challenge_store text_of print_record print_names (λ i. now) true
                (d ∷ name) r s)
            loaded)
        ∙ h in
      let before = cleared (d ∷ name) reg.hash s in
      let update = update_registration data_store now now now now [] (d ∷ name) in
      let (m, emptied, updated) =
        load_call-none before update s' (replied (load_call before update) s' went) in
      let same : cleared (d ∷ name) (c ∷ hash) s ≡ (none, m) =
        ap (λ key. cleared (d ∷ name) key s) (sym hashed) ∙ emptied in
      updated-hash now (d ∷ name) (c ∷ hash) (load_registration data_store now (d ∷ name) m) m s'
        valid updated (cleared-hash (d ∷ name) c hash s m same)
