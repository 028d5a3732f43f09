-- ===== src/TtlStore/Simple/Pruning.antt =====
-- What Prune leaves in the map.
use addr_tools.Prelude.{
  leb, if◌then◌else◌, Bool-cases, length, All, length-keep, Bytes, bytes_eq, bytes_eq_iff, Map,
  lookup, Unique, ok, ℕ, ◌+◌, ◌≤◌, ◌<◌, ◌≡◌, refl, ap, inl, inr, Bool, true, false, not, ◌||◌, none,
  List, [], ◌∷◌, arith,
}
use addr_tools.TtlStore.Simple.{
  ValueWithExpiration, SimpleTtlStore, or_nil, entry, values_loop, sweep, prune_entry, prune_loop,
  prune, simple,
}
use addr_tools.TtlStore.Simple.Sweep.{kept, sweep-kept, sweep_size, sweep_unchanged}
use addr_tools.TtlStore.Simple.Size.{total, NoneEmpty}

module _ (now : ℕ) where
  abbrev pub is_expired : ValueWithExpiration → Bool
  is_expired r = leb r.expires now

  abbrev keep_entry :
      Bytes
      → List ValueWithExpiration
      → Map (List ValueWithExpiration)
      → Map (List ValueWithExpiration)
  keep_entry k [] m = m
  keep_entry k (r ∷ rs) m = (k, r ∷ rs) ∷ m

  -- The unexpired values of each key, without the keys that have none.
  pub pruned : Map (List ValueWithExpiration) → Map (List ValueWithExpiration)
  pruned [] = []
  pruned ((k, rs) ∷ m) = keep_entry k (kept is_expired rs) (pruned m)

  prune_entry-kept :
      (k : Bytes) (rs : List ValueWithExpiration) (size : ℕ) (m : Map (List ValueWithExpiration))
      → 1 ≤ length rs
      → prune_entry k (sweep is_expired rs size false).0 (sweep is_expired rs size false).2 m
        ≡ keep_entry k (kept is_expired rs) m
  unfolding prune_entry
  prune_entry-kept k rs size m h = elim (Bool-cases (sweep is_expired rs size false).2) [
    | inl e ↦ rw (e, sweep-kept is_expired rs size false) (shape (kept is_expired rs))
    | inr e ↦
        ground
          (arith, sweep-kept is_expired rs size false, sweep_unchanged is_expired rs size false e)
  ]
    where
      shape : (ws : List ValueWithExpiration) → prune_entry k ws true m ≡ keep_entry k ws m
      shape [] = refl
      shape (w ∷ ws) = refl

  pub prune_loop-pruned :
      (m : Map (List ValueWithExpiration)) (size : ℕ) (dirty : Bool)
      → NoneEmpty m
      → (prune_loop now m size dirty).0 ≡ pruned m
  unfolding prune_loop pruned
  prune_loop-pruned [] size dirty h = refl
  prune_loop-pruned ((k, rs) ∷ m) size dirty h =
      let (rs', size', gone) = sweep is_expired rs size false in
      rw (prune_loop-pruned m size' (gone || dirty) h.1) (prune_entry-kept k rs size (pruned m) h.0)

  total-keep_entry :
      (k : Bytes) (rs : List ValueWithExpiration) (m : Map (List ValueWithExpiration))
      → total (keep_entry k rs m) ≡ length rs + total m
  total-keep_entry k [] m = omega arith
  total-keep_entry k (r ∷ rs) m = refl

  pub prune_loop_size :
      (m : Map (List ValueWithExpiration)) (size : ℕ) (dirty : Bool)
      → total m ≤ size
      → (prune_loop now m size dirty).1 + total m ≡ size + total (pruned m)
  unfolding prune_loop pruned
  prune_loop_size [] size dirty h = refl
  prune_loop_size ((k, rs) ∷ m) size dirty h =
      let (rs', size', gone) = sweep is_expired rs size false in
      omega (
        arith,
        sweep_size is_expired rs size false,
        prune_loop_size m size' (gone || dirty),
        total-keep_entry k (kept is_expired rs) (pruned m),
      )

  lookup-keep_entry :
      (k j : Bytes) (rs : List ValueWithExpiration) (m : Map (List ValueWithExpiration))
      → lookup k m ≡ none
      → or_nil (lookup j (keep_entry k rs m)) ≡ (if bytes_eq k j then rs else or_nil (lookup j m))
  unfolding lookup
  lookup-keep_entry k j [] m h = ground (arith, bytes_eq_iff k j)
  lookup-keep_entry k j (r ∷ rs) m h = ground arith

  pub lookup-pruned-none :
      (j : Bytes) (m : Map (List ValueWithExpiration))
      → lookup j m ≡ none
      → lookup j (pruned m) ≡ none
  unfolding lookup pruned
  lookup-pruned-none j [] h = refl
  lookup-pruned-none j ((k, rs) ∷ m) h =
      step (kept is_expired rs) (lookup-pruned-none j m (ground arith))
    where
      step :
          (ws : List ValueWithExpiration)
          → lookup j (pruned m) ≡ none
          → lookup j (keep_entry k ws (pruned m)) ≡ none
      step [] e = e
      step (w ∷ ws) e = ground (arith, bytes_eq_iff k j)

  -- A key keeps its unexpired values.
  pub lookup-pruned :
      (j : Bytes) (m : Map (List ValueWithExpiration))
      → Unique m
      → or_nil (lookup j (pruned m)) ≡ kept is_expired (or_nil (lookup j m))
  unfolding lookup pruned
  lookup-pruned j [] u = refl
  lookup-pruned j ((k, rs) ∷ m) u =
      rw (lookup-keep_entry k j (kept is_expired rs) (pruned m) (lookup-pruned-none k m u.0))
        (ground (arith, lookup-pruned j m))

  keep_entry-Unique :
      (k : Bytes) (rs : List ValueWithExpiration) (m : Map (List ValueWithExpiration))
      → lookup k m ≡ none
      → Unique m
      → Unique (keep_entry k rs m)
  keep_entry-Unique k [] m h u = u
  keep_entry-Unique k (r ∷ rs) m h u = (h, u)

  pub pruned-Unique : (m : Map (List ValueWithExpiration)) → Unique m → Unique (pruned m)
  unfolding pruned
  pruned-Unique [] u = tt
  pruned-Unique ((k, rs) ∷ m) u =
      keep_entry-Unique k (kept is_expired rs) (pruned m) (lookup-pruned-none k m u.0)
        (pruned-Unique m u.1)

  keep_entry-NoneEmpty :
      (k : Bytes) (rs : List ValueWithExpiration) (m : Map (List ValueWithExpiration))
      → NoneEmpty m
      → NoneEmpty (keep_entry k rs m)
  keep_entry-NoneEmpty k [] m h = h
  keep_entry-NoneEmpty k (r ∷ rs) m h = (omega arith, h)

  pub pruned-NoneEmpty : (m : Map (List ValueWithExpiration)) → NoneEmpty (pruned m)
  unfolding pruned
  pruned-NoneEmpty [] = tt
  pruned-NoneEmpty ((k, rs) ∷ m) =
      keep_entry-NoneEmpty k (kept is_expired rs) (pruned m) (pruned-NoneEmpty m)

  pub total-pruned-le : (m : Map (List ValueWithExpiration)) → total (pruned m) ≤ total m
  unfolding pruned
  total-pruned-le [] = omega arith
  total-pruned-le ((k, rs) ∷ m) = omega (
    arith,
    total-keep_entry k (kept is_expired rs) (pruned m),
    total-pruned-le m,
    length-keep (λ r. not (is_expired r)) rs,
  )

  -- What is read at the time of the pruning or later does not depend on it.
  pub values_loop-kept :
      (t : ℕ) (rs : List ValueWithExpiration)
      → now ≤ t
      → values_loop t (kept is_expired rs) ≡ values_loop t rs
  unfolding values_loop
  values_loop-kept t [] h = refl
  values_loop-kept t (r ∷ rs) h = ground (arith, values_loop-kept t rs)

-- Prune at `now` of a store with distinct keys and no empty entries changes no answer of Values
-- at that time or later.
pub values-prune :
    (now t : ℕ) (key : Bytes) (s : SimpleTtlStore)
    → Unique s.m
    → NoneEmpty s.m
    → now ≤ t
    → simple.values t key (prune now s) ≡ simple.values t key s
unfolding prune entry
values-prune now t key s u n h =
    rw (prune_loop-pruned now s.m s.size s.dirty n, lookup-pruned now key s.m u)
      (ap ok (values_loop-kept now t (or_nil (lookup key s.m)) h))

abbrev pub AllFresh : ℕ → Map (List ValueWithExpiration) → Type 0
AllFresh now [] = Unit
AllFresh now ((k, rs) ∷ m) = All (λ r. now < r.expires) rs × AllFresh now m

kept-fresh :
    (now : ℕ) (rs : List ValueWithExpiration)
    → All (λ r. now < r.expires) (kept (is_expired now) rs)
kept-fresh now [] = tt
kept-fresh now (r ∷ rs) = ground (arith, kept-fresh now rs)

keep_entry-AllFresh :
    (now : ℕ) (k : Bytes) (rs : List ValueWithExpiration) (m : Map (List ValueWithExpiration))
    → All (λ r. now < r.expires) rs
    → AllFresh now m
    → AllFresh now (keep_entry now k rs m)
keep_entry-AllFresh now k [] m h f = f
keep_entry-AllFresh now k (r ∷ rs) m h f = (h, f)

pruned-AllFresh : (now : ℕ) (m : Map (List ValueWithExpiration)) → AllFresh now (pruned now m)
unfolding pruned
pruned-AllFresh now [] = tt
pruned-AllFresh now ((k, rs) ∷ m) =
    keep_entry-AllFresh now k (kept (is_expired now) rs) (pruned now m) (kept-fresh now rs)
      (pruned-AllFresh now m)

-- After Prune at `now` on a store without empty entries, every stored value expires later than `now`.
pub prune-AllFresh : (now : ℕ) (s : SimpleTtlStore) → NoneEmpty s.m → AllFresh now (prune now s).m
unfolding prune
prune-AllFresh now s n = rw (prune_loop-pruned now s.m s.size s.dirty n) (pruned-AllFresh now s.m)
