-- ===== src/TtlStore/Simple/Sweep.antt =====
-- What the deleting loop of Remove and Prune leaves, how it counts, and when it reports a deletion.
use addr_tools.Prelude.{
  ℕ, ◌+◌, ◌-◌, ◌≤◌, ◌≡◌, refl, arith, List, [], ◌∷◌, Bool, true, false, not, keep, length,
  if◌then◌else◌,
}
use addr_tools.TtlStore.Simple.{ValueWithExpiration, sweep}

module _ (test : ValueWithExpiration → Bool) where
  abbrev pub kept : List ValueWithExpiration → List ValueWithExpiration
  kept = keep (λ r. not (test r))

  pub sweep-kept :
      (rs : List ValueWithExpiration) (size : ℕ) (removed : Bool)
      → (sweep test rs size removed).0 ≡ kept rs
  unfolding sweep
  sweep-kept [] size removed = refl
  sweep-kept (r ∷ rs) size removed =
      ground (
        arith,
        sweep-kept rs (if test r then size - 1 else size) (if test r then true else removed),
      )

  -- The count goes down by one for each deleted element; with room for them it does not stop at 0.
  pub sweep_size :
      (rs : List ValueWithExpiration) (size : ℕ) (removed : Bool)
      → length rs ≤ size
      → (sweep test rs size removed).1 + length rs ≡ size + length (kept rs)
  unfolding sweep
  sweep_size [] size removed h = refl
  sweep_size (r ∷ rs) size removed h =
      ground (
        arith,
        sweep_size rs (if test r then size - 1 else size) (if test r then true else removed),
      )

  -- It reports nothing exactly when it deleted nothing, and nothing was reported before.
  pub sweep_unchanged :
      (rs : List ValueWithExpiration) (size : ℕ) (removed : Bool)
      → (sweep test rs size removed).2 ≡ false
      → (kept rs ≡ rs) × (removed ≡ false) × ((sweep test rs size removed).1 ≡ size)
  unfolding sweep
  sweep_unchanged [] size removed h = (refl, h, refl)
  sweep_unchanged (r ∷ rs) size removed h = ground (
    arith,
    sweep_unchanged rs (if test r then size - 1 else size) (if test r then true else removed),
  )
