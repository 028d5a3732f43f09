-- ===== src/Zones/Myaddr/Registrations.antt =====
-- What UpdateRegistration leaves in the store, and for how long.
use addr_tools.Prelude.{
  ltb, if◌then◌else◌, length, All, Bytes, bytes_eq, bytes_eq_refl, ok, ℕ, suc, ◌^◌, ◌≤◌, ◌<◌, ◌≡◌,
  refl, sym, ap, ◌∙◌, ◌≢◌, Bool, true, false, Option, none, some, [], ◌∷◌, arith,
}
use addr_tools.TtlStore.Contract.{TtlStore, IsLawful, expiry}
use addr_tools.Zones.Dyn.{uint32_bytes, uint32, LoadError, load_data}
use addr_tools.Zones.Dyn.Addresses.{get-set}
use addr_tools.Zones.Myaddr.{
  pending_ttl, registration_ttl, RegistrationRecord, expires, marshal, unmarshal, reg_key, hash_key,
  store_error, load_registration, set_hash, store_registration, update_loaded, update_registration,
  name_loop, is_valid_name,
}

unmarshal-marshal :
    {E : Type 0} (r : RegistrationRecord)
    → r.created < 2 ^ 32
    → r.updated < 2 ^ 32
    → unmarshal {E = E} (marshal r) ≡ ok r
unfolding unmarshal marshal uint32_bytes uint32
unmarshal-marshal r hc hu = ground arith

-- A valid name has no ':', so its registration is not stored under the key of a hash.
name_loop-no_colon : (i : ℕ) (s : Bytes) → name_loop i s ≡ true → All (λ c. c ≢ b':') s
unfolding name_loop
name_loop-no_colon i [] h = tt
name_loop-no_colon i (c ∷ s) h = (λ e. ground arith, name_loop-no_colon (suc i) s (ground arith))

keys_differ :
    (name hash : Bytes)
    → 6 ≤ length name
    → All (λ c. c ≢ b':') name
    → bytes_eq (hash_key hash) (reg_key name) ≡ false
unfolding bytes_eq
keys_differ [] hash h k = absurd (omega arith)
keys_differ (a ∷ []) hash h k = absurd (omega arith)
keys_differ (a ∷ b ∷ []) hash h k = absurd (omega arith)
keys_differ (a ∷ b ∷ c ∷ []) hash h k = absurd (omega arith)
keys_differ (a ∷ b ∷ c ∷ d ∷ []) hash h k = absurd (omega arith)
keys_differ (a ∷ b ∷ c ∷ d ∷ x ∷ name) hash h k = let e : x ≢ b':' = k.1.1.1.1.0 in ground arith

pub valid-keys :
    (name hash : Bytes)
    → is_valid_name name ≡ true
    → bytes_eq (hash_key hash) (reg_key name) ≡ false
valid-keys name hash h =
    unfold is_valid_name in
    keys_differ name hash (ground arith) (name_loop-no_colon 0 name (ground arith))

-- The record that an update stores.
abbrev pub renewed : Option RegistrationRecord → ℕ → Bytes → RegistrationRecord
renewed none now hash = record { created = now; updated = now; hash = hash }
renewed (some r) now hash = record { created = r.created; updated = now; hash = hash }

pub store_error-none :
    {S E : Type 0} (p : Option E × S) (s : S) → store_error p ≡ (none, s) → p ≡ (none, s)
store_error-none (none, s') s e = ap (λ (q : Option (LoadError _) × _). (none, q.1)) e
store_error-none (some x, s') s e = absurd (cc (ap (λ (q : Option (LoadError _) × _). q.0) e))

load_data-if :
    {E : Type 0} (b : Bool) (r : RegistrationRecord)
    → r.created < 2 ^ 32
    → r.updated < 2 ^ 32
    → load_data {E = E} unmarshal (ok (if b then some (marshal r) else none))
      ≡ ok (if b then some r else none)
load_data-if true r hc hu = rw (unmarshal-marshal r hc hu)
load_data-if false r hc hu = refl

expires_new : (now : ℕ) (hash : Bytes) → expires (renewed none now hash) ≡ expiry now pending_ttl
unfolding expires
expires_new now hash = ground arith

expires_old :
    (now : ℕ) (hash : Bytes) (r : RegistrationRecord)
    → r.created ≢ now
    → expires (renewed (some r) now hash) ≡ expiry now registration_ttl
unfolding expires
expires_old now hash r h = ground arith

-- Whether the registration is new, or was created at another time and fits its encoding.
abbrev pub IsOlder : ℕ → Option RegistrationRecord → Type 0
IsOlder now none = Unit {0}
IsOlder now (some r) = (r.created < 2 ^ 32) × (r.created ≢ now)

module _ {S E : Type 0} (T : TtlStore S E) (law : IsLawful T) where
  get-set_hash :
      (t now ttl : ℕ) (h hash name : Bytes) (m s' : S)
      → is_valid_name name ≡ true
      → set_hash T now now now now hash name ttl h (none, m) ≡ (none, s')
      → T.get t (reg_key name) s' ≡ T.get t (reg_key name) m
  get-set_hash t now ttl [] hash name m s' v e =
      ap (λ (p : Option E × S). T.get t (reg_key name) p.1) (sym e)
  get-set_hash t now ttl (c ∷ h) hash name m s' v e =
      get-set T law t now ttl (hash_key (c ∷ h)) (reg_key name) name m s' e
      ∙ rw (valid-keys name (c ∷ h) v)

  stored :
      (t now ttl : ℕ) (hash name : Bytes) (r : RegistrationRecord) (s s' : S)
      → is_valid_name name ≡ true
      → r.created < 2 ^ 32
      → r.updated < 2 ^ 32
      → store_registration T now now now now hash name r ttl s ≡ (none, s')
      → load_registration T t name s' ≡ ok (if ltb t (expiry now ttl) then some r else none)
  stored t now ttl hash name r s s' v hc hu e =
      step (T.set now (reg_key name) (marshal r) ttl s) refl e
    where
      step :
          (p : Option E × S)
          → T.set now (reg_key name) (marshal r) ttl s ≡ p
          → store_error (set_hash T now now now now hash name ttl hash p) ≡ (none, s')
          → load_registration T t name s' ≡ ok (if ltb t (expiry now ttl) then some r else none)
      step (some x, m) set_reg k =
          absurd (cc (ap (λ (q : Option E × S). q.0) (store_error-none (some x, m) s' k)))
      step (none, m) set_reg k =
          unfold load_registration in
          rw
            (
              get-set_hash t now ttl hash hash name m s' v (store_error-none _ s' k),
              get-set T law t now ttl (reg_key name) (reg_key name) (marshal r) s m set_reg,
              bytes_eq_refl (reg_key name),
            )
            (load_data-if (ltb t (expiry now ttl)) r hc hu)

  -- Over a store that keeps the contract: after UpdateRegistration of a valid name succeeds, with
  -- every reading of the clock `now` and less than 2 ^ 32, LoadRegistration gives the record with
  -- its new hash and `updated`, up to the time that its Expires states. This holds of a new
  -- registration, and of one whose time of creation fits 32 bits and is not `now`.
  pub load-update_registration :
      (t now : ℕ) (hash name : Bytes) (old : Option RegistrationRecord) (s s' : S)
      → now < 2 ^ 32
      → is_valid_name name ≡ true
      → load_registration T now name s ≡ ok old
      → IsOlder now old
      → update_registration T now now now now hash name s ≡ (none, s')
      → load_registration T t name s'
        ≡ ok (if ltb t (expires (renewed old now hash)) then some (renewed old now hash) else none)
  load-update_registration t now hash name none s s' hn v h older e = rw (expires_new now hash) (
      stored t now pending_ttl hash name (renewed none now hash) s s' v hn hn (
        ap (λ x. update_loaded T now now now now hash name x s) (sym h)
        ∙ (unfold update_registration in e)))
  load-update_registration t now hash name (some r) s s' hn v h older e =
      rw (expires_old now hash r older.1) (
        stored t now registration_ttl hash name (renewed (some r) now hash) s s' v older.0 hn (
          ap (λ x. update_loaded T now now now now hash name x s) (sym h)
          ∙ (unfold update_registration in e)))
