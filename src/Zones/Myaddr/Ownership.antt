-- ===== src/Zones/Myaddr/Ownership.antt =====
-- A new registration gives its key to its name.
use addr_tools.Prelude.{
  ltb, if◌then◌else◌, Bytes, bytes_eq_refl, Result, ok, err, ℕ, ◌≡◌, refl, sym, ap, ◌∙◌, Bool, true,
  false, Option, none, some, ◌∷◌, arith,
}
use addr_tools.TtlStore.Contract.{TtlStore, IsLawful, expiry}
use addr_tools.Httputil.{Request, Response, plain}
use addr_tools.Zones.Replies.{reply}
use addr_tools.Zones.Dyn.{LoadError}
use addr_tools.Zones.Dyn.Addresses.{get-set}
use addr_tools.Zones.Dyn.Handler.{Calls}
use addr_tools.Zones.Myaddr.{
  pending_ttl, RegistrationRecord, marshal, reg_key, hash_key, load_registration, update_loaded,
  update_registration, store_error, set_hash, store_registration,
}
use addr_tools.Zones.Myaddr.Registrations.{store_error-none, renewed}
use addr_tools.Zones.Myaddr.Handlers.{
  read_registration, register_free, on_registration, register_name,
}

module _ {S E : Type 0} (T : TtlStore S E) (law : IsLawful T) where
  -- A registration that Exists does not see is not loaded either.
  load-has :
      (now : ℕ) (name : Bytes) (s : S)
      → T.has now (reg_key name) s ≡ ok false
      → load_registration T now name s ≡ ok none
  unfolding load_registration
  load-has now name s h =
      ground (arith, law.has_lem now (reg_key name) s, law.get_lem now (reg_key name) s)

  hash-stored :
      (t now ttl c : ℕ) (h name : Bytes) (r : RegistrationRecord) (s s' : S)
      → store_registration T now now now now (c ∷ h) name r ttl s ≡ (none, s')
      → T.get t (hash_key (c ∷ h)) s' ≡ ok (if ltb t (expiry now ttl) then some name else none)
  hash-stored t now ttl c h name r s s' e = step (T.set now (reg_key name) (marshal r) ttl s) e
    where
      step :
          (p : Option E × S)
          → store_error (set_hash T now now now now (c ∷ h) name ttl (c ∷ h) p) ≡ (none, s')
          → T.get t (hash_key (c ∷ h)) s' ≡ ok (if ltb t (expiry now ttl) then some name else none)
      step (some x, m) k = absurd (cc (ap (λ (q : Option (LoadError E) × S). q.0) k))
      step (none, m) k =
          get-set T law t now ttl (hash_key (c ∷ h)) (hash_key (c ∷ h)) name m s'
            (store_error-none (T.set now (hash_key (c ∷ h)) name ttl m) s' k)
          ∙ rw (bytes_eq_refl (hash_key (c ∷ h)))

reply-plain :
    {S E : Type 0} (a b : Bytes) (p : Option E × S) (s : S)
    → reply (plain 200 a) p ≡ (plain 200 b, s)
    → p ≡ (none, s)
reply-plain a b (none, s') s h = ap (λ (q : Response × _). (none, q.1)) h
reply-plain a b (some e, s') s h = absurd (cc (ap (λ (q : Response × _). q.0) h))

module _ (C : Calls) (sum256_hex : Bytes → Bytes) {S E : Type 0}
    (data_store challenge_store : TtlStore S E) (now : ℕ) where
  free_registered :
      (print : Bytes → Bytes → Bytes) (key name text : Bytes) (r : Result E Bool) (s s' : S)
      → register_free C sum256_hex data_store challenge_store (λ i. now) print key name r s
        ≡ (plain 200 text, s')
      → (r ≡ ok false)
        × (update_registration data_store now now now now (sum256_hex key) name s ≡ (none, s'))
  free_registered print key name text (err e) s s' h = cc (ap (λ (q : Response × S). q.0) h)
  free_registered print key name text (ok true) s s' h = cc (ap (λ (q : Response × S). q.0) h)
  free_registered print key name text (ok false) s s' h = (refl, reply-plain _ text _ s' h)

  registered :
      IsLawful data_store
      → (t c : ℕ) (h key name : Bytes) (s s' : S) → sum256_hex key ≡ c ∷ h
      → data_store.has now (reg_key name) s ≡ ok false
      → update_registration data_store now now now now (sum256_hex key) name s ≡ (none, s')
      → data_store.get t (hash_key (c ∷ h)) s'
        ≡ ok (if ltb t (expiry now pending_ttl) then some name else none)
  registered law t c h key name s s' hk free updated =
      hash-stored data_store law t now pending_ttl c h name (renewed none now (c ∷ h)) s s' (
        ap (λ x. update_loaded data_store now now now now (c ∷ h) name x s)
          (sym (load-has data_store law now name s free))
        ∙ ap
            (λ (x : Bytes).
              update_loaded data_store now now now now x name
                (load_registration data_store now name s) s)
            (sym hk)
        ∙ (unfold update_registration in updated))

  -- Over a store that keeps the contract: once a POST of RegistrationHandler whose fields are
  -- accepted for a name is answered with 200, the name had no registration before, and the hash
  -- of the new key leads to the name until the hour of a pending registration is over. Every
  -- reading of the clock is `now`, and the hash is not empty.
  pub register_name-owner :
      IsLawful data_store
      → (verify : Bytes → Result ℕ Bool) (print : Bytes → Bytes → Bytes) (t c : ℕ)
        (h key name text : Bytes) (req : Request) (s s' : S)
      → sum256_hex key ≡ c ∷ h
      → read_registration C sum256_hex data_store challenge_store (λ i. now) verify req ≡ ok name
      → register_name C sum256_hex data_store challenge_store (λ i. now) verify print key req s
        ≡ (plain 200 text, s')
      → (data_store.has now (reg_key name) s ≡ ok false)
        × (data_store.get t (hash_key (sum256_hex key)) s'
            ≡ ok (if ltb t (expiry now pending_ttl) then some name else none))
  register_name-owner law verify print t c h key name text req s s' hk read e =
      let went : on_registration C sum256_hex data_store challenge_store (λ i. now) print key
            (ok name) s
          ≡ (plain 200 text, s') =
        ap (λ r. on_registration C sum256_hex data_store challenge_store (λ i. now) print key r s)
          (sym read)
        ∙ (unfold register_name in e) in
      let (free, updated) =
        free_registered print key name text (data_store.has now (reg_key name) s) s s' went in
      (free, rw (hk) (registered law t c h key name s s' hk free updated))
