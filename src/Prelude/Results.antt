-- ===== src/Prelude/Results.antt =====
-- Go's (value, error) pairs.
use mathlib.Core.Path.{◌≡◌, refl}
use mathlib.Core.Logic.{◌⊎◌, inl, inr}
use mathlib.Core.Bool.{Bool, true, false}
use addr_tools.Prelude.Tests.{if◌then◌else◌}

pub data Result (E : Type 0) (A : Type 0) : Type 0 where
  ok : A → Result E A
  err : E → Result E A

module _ {E A B : Type 0} where
  infixl 5 ◌>>=◌
  abbrev pub ◌>>=◌ : Result E A → (A → Result E B) → Result E B
  err why >>= next = err why
  ok val >>= next = next val

  abbrev pub map_ok : (A → B) → Result E A → Result E B
  map_ok f (err why) = err why
  map_ok f (ok val) = ok (f val)

  -- A chain that succeeds succeeded at its first link, and the rest of it from there.
  pub >>=-eq-ok :
      (first : Result E A) (next : A → Result E B) {end : B}
      → (first >>= next) ≡ ok end
      → (val : A) × (first ≡ ok val) × (next val ≡ ok end)
  >>=-eq-ok (err why) next done = cc
  >>=-eq-ok (ok val) next done = (val, refl, done)

  pub map_ok-eq-ok :
      (f : A → B) (m : Result E A) {end : B}
      → map_ok f m ≡ ok end
      → (val : A) × (m ≡ ok val) × (f val ≡ end)
  map_ok-eq-ok f (err why) done = cc
  map_ok-eq-ok f (ok val) done = (val, refl, cc)

pub >>=-ok : {E A B : Type 0} (f : A → B) (m : Result E A) → (m >>= (λ a. ok (f a))) ≡ map_ok f m
>>=-ok f (ok a) = refl
>>=-ok f (err e) = refl

pub map_ok-if :
    {E A B : Type 0} (f : A → B) (b : Bool) (a : A) (e : E)
    → map_ok f (if b then ok a else err e) ≡ (if b then ok (f a) else err e)
map_ok-if f true a e = refl
map_ok-if f false a e = refl

pub Result-cases :
    {E A : Type 0} (r : Result E A) → ((why : E) × (r ≡ err why)) ⊎ ((val : A) × (r ≡ ok val))
Result-cases (err why) = inl (why, refl)
Result-cases (ok val) = inr (val, refl)
