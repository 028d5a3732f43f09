-- ===== src/TtlStore/Contract.antt =====
-- The interface TtlStore of internal/ttlstore/ttlstore.go, and what its comments promise.
--
-- A store is a value of `TtlStore S E` over a state `S` and errors `E`. An operation that reads the
-- clock takes the reading, `uint32(time.Now().Unix())`, as its argument `now`. Two stores over one
-- state may share their keys, as two `Prefixed` stores do.
use addr_tools.Prelude.{
  ℕ, ◌+◌, ◌%◌, ◌^◌, Bytes, Option, none, List, [], ◌∷◌, ◌++◌, Bool, true, false, ◌≡◌, not, Result,
  map_ok, bytes_eq, if◌then◌else◌, ltb, keep, head?,
}

pub record TtlStore (S E : Type 0) : Type 0 where
  pub add : ℕ → Bytes → Bytes → ℕ → S → Option E × S
  pub set : ℕ → Bytes → Bytes → ℕ → S → Option E × S
  pub list : Bytes → S → Result E (List Bytes)
  pub has : ℕ → Bytes → S → Result E Bool
  pub values : ℕ → Bytes → S → Result E (List Bytes)
  pub get : ℕ → Bytes → S → Result E (Option Bytes)
  pub remove : Bytes → Bytes → S → Option E × S
  pub delete : Bytes → S → Option E × S

-- uint32(time.Now().Unix()) + ttl
abbrev pub expiry : ℕ → ℕ → ℕ
expiry now ttl = (now + ttl) % 2 ^ 32

-- What a value added at `now` contributes to the values at the time `t`.
abbrev pub fresh : ℕ → ℕ → Bytes → ℕ → List Bytes
fresh t now val ttl = if ltb t (expiry now ttl) then val ∷ [] else []

abbrev pub is_nonempty : List Bytes → Bool
is_nonempty [] = false
is_nonempty (v ∷ vs) = true

-- The documented behaviour: every other operation is determined by what `values` returns.
pub record IsLawful {S E : Type 0} (T : TtlStore S E) : Type 0 where
  pub get_lem : (t : ℕ) (k : Bytes) (s : S) → T.get t k s ≡ map_ok head? (T.values t k s)
  pub has_lem : (t : ℕ) (k : Bytes) (s : S) → T.has t k s ≡ map_ok is_nonempty (T.values t k s)
  pub values-add :
      (t now ttl : ℕ) (k j v : Bytes) (s s' : S)
      → T.add now k v ttl s ≡ (none, s')
      → T.values t j s' ≡ (
          if bytes_eq k j
          then map_ok (λ vs. vs ++ fresh t now v ttl) (T.values t j s)
          else T.values t j s)
  pub values-set :
      (t now ttl : ℕ) (k j v : Bytes) (s s' : S)
      → T.set now k v ttl s ≡ (none, s')
      → T.values t j s' ≡ (if bytes_eq k j then Result.ok (fresh t now v ttl) else T.values t j s)
  pub values-remove :
      (t : ℕ) (k j v : Bytes) (s s' : S)
      → T.remove k v s ≡ (none, s')
      → T.values t j s' ≡ (
          if bytes_eq k j
          then map_ok (keep (λ w. not (bytes_eq w v))) (T.values t j s)
          else T.values t j s)
  pub values-delete :
      (t : ℕ) (k j : Bytes) (s s' : S)
      → T.delete k s ≡ (none, s')
      → T.values t j s' ≡ (if bytes_eq k j then Result.ok [] else T.values t j s)
