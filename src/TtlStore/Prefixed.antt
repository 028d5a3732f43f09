-- ===== src/TtlStore/Prefixed.antt =====
-- Prefixed of internal/ttlstore/ttlstore.go: a store seen through a key prefix.
use addr_tools.Prelude.{
  if◌then◌else◌, length, drop, Bytes, bytes_eq, bytes_eq_iff, has_prefix, has_prefix-append, Map,
  ok, map_ok, ℕ, suc, ◌≡◌, refl, ◌∙◌, ◌⊎◌, inl, inr, true, false, none, List, [], ◌∷◌, ◌++◌, map,
  arith,
}
use addr_tools.TtlStore.Contract.{TtlStore, IsLawful}
use addr_tools.TtlStore.Simple.{ValueWithExpiration, SimpleTtlStore, list_keys, simple}

-- keys[i] = v[len(p.Prefix):]
abbrev strip : Bytes → List Bytes → List Bytes
strip p = map (drop (length p))

module _ {S E : Type 0} where
  abbrev pub prefixed : Bytes → TtlStore S E → TtlStore S E
  prefixed p T = record {
    add = λ now key. T.add now (p ++ key);
    set = λ now key. T.set now (p ++ key);
    list = λ prefix s. map_ok (strip p) (T.list (p ++ prefix) s);
    has = λ now key. T.has now (p ++ key);
    values = λ now key. T.values now (p ++ key);
    get = λ now key. T.get now (p ++ key);
    remove = λ key. T.remove (p ++ key);
    delete = λ key. T.delete (p ++ key);
  }

bytes_eq-append : (p k j : Bytes) → bytes_eq (p ++ k) (p ++ j) ≡ bytes_eq k j
unfolding bytes_eq
bytes_eq-append [] k j = refl
bytes_eq-append (c ∷ p) k j = ground (arith, bytes_eq-append p k j)

module _ {S E : Type 0} (p : Bytes) (T : TtlStore S E) (law : IsLawful T) where
  -- A store behind a prefix keeps the contract that the store itself keeps.
  pub prefixed-IsLawful : IsLawful (prefixed p T)
  prefixed-IsLawful = record {
    get_lem = λ t k s. law.get_lem t (p ++ k) s;
    has_lem = λ t k s. law.has_lem t (p ++ k) s;
    values-add = λ t now ttl k j v s s' e.
        rw (← bytes_eq-append p k j) (law.values-add t now ttl (p ++ k) (p ++ j) v s s' e);
    values-set = λ t now ttl k j v s s' e.
        rw (← bytes_eq-append p k j) (law.values-set t now ttl (p ++ k) (p ++ j) v s s' e);
    values-remove = λ t k j v s s' e.
        rw (← bytes_eq-append p k j) (law.values-remove t (p ++ k) (p ++ j) v s s' e);
    values-delete =
        λ t k j s s' e. rw (← bytes_eq-append p k j) (law.values-delete t (p ++ k) (p ++ j) s s' e);
  }

-- Neither prefix begins the other.
abbrev pub Apart : Bytes → Bytes → Type 0
Apart p q = (has_prefix p q ≡ false) × (has_prefix q p ≡ false)

bytes_eq-Apart : (p q k j : Bytes) → Apart p q → bytes_eq (p ++ k) (q ++ j) ≡ false
unfolding bytes_eq has_prefix
bytes_eq-Apart [] q k j (a, b) = cc
bytes_eq-Apart (c ∷ p) [] k j (a, b) = cc
bytes_eq-Apart (c ∷ p) (d ∷ q) k j (a, b) = ground (arith, bytes_eq-Apart p q k j)

module _ {S E : Type 0} (p q : Bytes) (T : TtlStore S E) (law : IsLawful T)
    (apart : Apart p q) where
  -- Over a store that keeps the contract, two prefixes, neither a beginning of the other, do not
  -- meet: a change made through the one, by an Add, Set, Remove or Delete that succeeds, leaves
  -- every value seen through the other as it was.
  pub prefixed_apart :
      (t now ttl : ℕ) (k j v : Bytes) (s s' : S)
      → ((prefixed p T).add now k v ttl s ≡ (none, s'))
        ⊎ ((prefixed p T).set now k v ttl s ≡ (none, s'))
        ⊎ ((prefixed p T).remove k v s ≡ (none, s'))
        ⊎ ((prefixed p T).delete k s ≡ (none, s'))
      → (prefixed q T).values t j s' ≡ (prefixed q T).values t j s
  prefixed_apart t now ttl k j v s s' (inl e) =
      law.values-add t now ttl (p ++ k) (q ++ j) v s s' e ∙ rw (bytes_eq-Apart p q k j apart)
  prefixed_apart t now ttl k j v s s' (inr (inl e)) =
      law.values-set t now ttl (p ++ k) (q ++ j) v s s' e ∙ rw (bytes_eq-Apart p q k j apart)
  prefixed_apart t now ttl k j v s s' (inr (inr (inl e))) =
      law.values-remove t (p ++ k) (q ++ j) v s s' e ∙ rw (bytes_eq-Apart p q k j apart)
  prefixed_apart t now ttl k j v s s' (inr (inr (inr e))) =
      law.values-delete t (p ++ k) (q ++ j) s s' e ∙ rw (bytes_eq-Apart p q k j apart)

has_prefix-split :
    (s p q : Bytes)
    → has_prefix s (p ++ q) ≡ true
    → (p ++ drop (length p) s ≡ s) × (has_prefix (drop (length p) s) q ≡ true)
unfolding has_prefix
has_prefix-split s [] q h = (refl, h)
has_prefix-split [] (c ∷ p) q h = cc
has_prefix-split (d ∷ s) (c ∷ p) q h = ground (arith, has_prefix-split s p q)

has_prefix_nil : (s : Bytes) → has_prefix s [] ≡ true
unfolding has_prefix
has_prefix_nil s = refl

-- How often a key stands in a list of keys.
unfoldable pub count_key : Bytes → List Bytes → ℕ
count_key k [] = 0
count_key k (j ∷ js) = let rest = count_key k js in if bytes_eq j k then suc rest else rest

count_key-strip :
    (p q k : Bytes) (m : Map (List ValueWithExpiration))
    → count_key k (strip p (list_keys (p ++ q) m))
      ≡ (if has_prefix k q then count_key (p ++ k) (list_keys [] m) else 0)
unfolding count_key list_keys
count_key-strip p q k [] = ground arith
count_key-strip p q k ((j, rs) ∷ m) = ground (
  arith,
  count_key-strip p q k m,
  has_prefix_nil j,
  has_prefix-split j p q,
  bytes_eq-append p (drop (length p) j) k,
  bytes_eq_iff (drop (length p) j) k,
  bytes_eq_iff j (p ++ k),
  has_prefix-append p k q,
)

-- List through a prefix on a SimpleTtlStore gives exactly the keys that begin as asked and stand
-- behind the prefix in the store, without the prefix, each as often as it stands there.
pub list-prefixed :
    (p q k : Bytes) (s : SimpleTtlStore) (keys : List Bytes)
    → (prefixed p simple).list q s ≡ ok keys
    → count_key k keys ≡ (if has_prefix k q then count_key (p ++ k) (list_keys [] s.m) else 0)
list-prefixed p q k s keys e = ground (arith, count_key-strip p q k s.m)
