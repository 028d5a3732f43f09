-- ===== src/TtlStore/Simple/Lawful.antt =====
-- SimpleTtlStore does what the comments of the interface TtlStore promise.
use addr_tools.Prelude.{
  if◌then◌else◌, Bool-cases, keep, head?, Bytes, bytes_eq, bytes_eq_refl, bytes_eq_iff, lookup,
  lookup-delete, lookup-insert, Result, ok, ℕ, ◌≡◌, refl, sym, ap, ◌∙◌, inl, inr, Bool, true, false,
  not, Option, none, List, [], ◌∷◌, ◌++◌, arith,
}
use addr_tools.TtlStore.Contract.{expiry, fresh, is_nonempty, IsLawful}
use addr_tools.TtlStore.Simple.{
  ValueWithExpiration, SimpleTtlStore, Error, entry, add, drop_entry, set, exists_loop, values_loop,
  get_loop, sweep, store_entry, remove, delete, simple,
}
use addr_tools.TtlStore.Simple.Sweep.{kept, sweep-kept, sweep_unchanged}

get_loop-values : (t : ℕ) (rs : List ValueWithExpiration) → get_loop t rs ≡ head? (values_loop t rs)
unfolding get_loop values_loop
get_loop-values t [] = refl
get_loop-values t (r ∷ rs) = ground (arith, get_loop-values t rs)

exists_loop-values :
    (t : ℕ) (rs : List ValueWithExpiration) → exists_loop t rs ≡ is_nonempty (values_loop t rs)
unfolding exists_loop values_loop
exists_loop-values t [] = refl
exists_loop-values t (r ∷ rs) = ground (arith, exists_loop-values t rs)

values_loop-append :
    (t : ℕ) (rs ws : List ValueWithExpiration)
    → values_loop t (rs ++ ws) ≡ values_loop t rs ++ values_loop t ws
unfolding values_loop
values_loop-append t [] ws = refl
values_loop-append t (r ∷ rs) ws = ground (arith, values_loop-append t rs ws)

values_loop-remove :
    (t : ℕ) (v : Bytes) (rs : List ValueWithExpiration)
    → values_loop t (kept (λ r. bytes_eq r.value v) rs)
      ≡ keep (λ w. not (bytes_eq w v)) (values_loop t rs)
unfolding values_loop
values_loop-remove t v [] = refl
values_loop-remove t v (r ∷ rs) = ground (arith, values_loop-remove t v rs)

-- The entry of a key after each method.
entry-add :
    (now ttl : ℕ) (k j v : Bytes) (s s' : SimpleTtlStore)
    → add now k v ttl s ≡ (none, s')
    → entry j s' ≡ (
        if bytes_eq k j
        then entry k s ++ record { expires = expiry now ttl; value = v } ∷ []
        else entry j s)
unfolding add entry
entry-add now ttl k j v s s' e =
    let rs : List ValueWithExpiration =
      entry k s ++ record { expires = expiry now ttl; value = v } ∷ [] in
    ground (arith, lookup-insert k j rs s.m, bytes_eq_iff k j)

entry-drop_entry :
    (k j : Bytes) (s : SimpleTtlStore)
    → entry j (drop_entry k (lookup k s.m) s) ≡ (if bytes_eq k j then [] else entry j s)
unfolding entry
entry-drop_entry k j s = ground (arith, lookup-delete k j s.m, bytes_eq_iff k j)

entry-store_entry :
    (k j : Bytes) (rs : List ValueWithExpiration) (s : SimpleTtlStore) (size : ℕ) (d : Bool)
    → entry j (record s { m = store_entry k rs s.m; size = size; dirty = d })
      ≡ (if bytes_eq k j then rs else entry j s)
unfolding entry
entry-store_entry k j [] s size d = ground (arith, lookup-delete k j s.m)
entry-store_entry k j (r ∷ rs) s size d = ground (arith, lookup-insert k j (r ∷ rs) s.m)

entry_resized :
    (j : Bytes) (s : SimpleTtlStore) (size : ℕ) → entry j (record s { size = size }) ≡ entry j s
unfolding entry
entry_resized j s size = refl

entry-remove :
    (k j v : Bytes) (s : SimpleTtlStore)
    → entry j (remove k v s).1
      ≡ (if bytes_eq k j then kept (λ r. bytes_eq r.value v) (entry k s) else entry j s)
unfolding remove
entry-remove k j v s = elim (Bool-cases (sweep test (entry k s) s.size false).2) [
  | inl e ↦ rw e (
      entry-store_entry k j _ s _ true
      ∙ ap (λ (ws : List ValueWithExpiration). if bytes_eq k j then ws else entry j s)
          (sweep-kept test (entry k s) s.size false))
  | inr e ↦ rw e (
      ground (
        arith,
        entry_resized j s (sweep test (entry k s) s.size false).1,
        sweep_unchanged test (entry k s) s.size false e,
        bytes_eq_iff k j,
      ))
]
  where
    test : ValueWithExpiration → Bool
    test r = bytes_eq r.value v

entry-set :
    (now ttl : ℕ) (k j v : Bytes) (s s' : SimpleTtlStore)
    → set now k v ttl s ≡ (none, s')
    → entry j s'
      ≡ (if bytes_eq k j then record { expires = expiry now ttl; value = v } ∷ [] else entry j s)
unfolding set
entry-set now ttl k j v s s' e = ground (
  arith,
  entry-add now ttl k j v (drop_entry k (lookup k s.m) s) s' e,
  entry-drop_entry k j s,
  entry-drop_entry k k s,
  bytes_eq_refl k,
)

entry-delete :
    (k j : Bytes) (s : SimpleTtlStore)
    → entry j (delete k s).1 ≡ (if bytes_eq k j then [] else entry j s)
unfolding delete entry
entry-delete k j s = ground (arith, lookup-delete k j s.m, bytes_eq_iff k j)

values_loop_one :
    (t now ttl : ℕ) (v : Bytes)
    → values_loop t (record { expires = expiry now ttl; value = v } ∷ []) ≡ fresh t now v ttl
unfolding values_loop
values_loop_one t now ttl v = ground arith

values_loop_none : (t : ℕ) → values_loop t [] ≡ []
unfolding values_loop
values_loop_none t = refl

-- The values that `values` reads are those of an entry chosen by a test.
values_loop-if :
    (t : ℕ) (b : Bool) (rs ws : List ValueWithExpiration) (us : List Bytes)
    → values_loop t rs ≡ us
    → ◌≡◌ {A = Result Error (List Bytes)}
        (ok (values_loop t (if b then rs else ws)))
        (if b then ok us else ok (values_loop t ws))
values_loop-if t true rs ws us e = ap ok e
values_loop-if t false rs ws us e = refl

-- SimpleTtlStore keeps the contract of TtlStore: Get and Exists agree with Values, and Values
-- after a call of Add, Set, Remove or Delete that succeeds is what the contract says, at every
-- time and for every key.
pub simple-IsLawful : IsLawful simple
simple-IsLawful = record {
  get_lem = λ t k s. ap ok (get_loop-values t (entry k s));
  has_lem = λ t k s. ap ok (exists_loop-values t (entry k s));
  values-add = λ t now ttl k j v s s' e. ground (
    arith,
    entry-add now ttl k j v s s' e,
    values_loop-append t (entry k s) (record { expires = expiry now ttl; value = v } ∷ []),
    values_loop_one t now ttl v,
    bytes_eq_iff k j,
  );
  values-set = λ t now ttl k j v s s' e.
      rw (entry-set now ttl k j v s s' e)
        (values_loop-if t (bytes_eq k j) _ (entry j s) _ (values_loop_one t now ttl v));
  values-remove = λ t k j v s s' e. ground (
    arith,
    ap (λ (p : Option Error × SimpleTtlStore). entry j p.1) e,
    entry-remove k j v s,
    values_loop-remove t v (entry k s),
    bytes_eq_iff k j,
  );
  values-delete = λ t k j s s' e.
      rw (ap (λ (p : Option Error × SimpleTtlStore). entry j p.1) (sym e) ∙ entry-delete k j s)
        (values_loop-if t (bytes_eq k j) [] (entry j s) [] (values_loop_none t));
}
