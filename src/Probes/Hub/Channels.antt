-- ===== src/Probes/Hub/Channels.antt =====
-- The channels of the tails of internal/probewatch/probewatch.go.
use addr_tools.Prelude.{
  ltb, ◌==◌, if◌then◌else◌, Bool-cases, Bytes, bytes_eq, bytes_eq→eq, Map, lookup, delete, insert,
  Unique, delete-Unique, insert-Unique, ℕ, ◌+◌, ◌≤◌, ◌<◌, ◌≡◌, refl, subst, inl, inr, Bool, false,
  Option, none, some, List, [], ◌∷◌, ◌++◌, arith,
}
use addr_tools.Dnscheck.Watchers.{SimpleWatcherHub, HubError, register}
use addr_tools.Probes.Hub.{
  Hub, close_found, start_tail, after_register, register_tail, stop_tail, unregister_tail, hub_step,
  run_hub, new_hub,
}

abbrev pub one_if : Bool → ℕ
one_if b = if b then 1 else 0

abbrev pub is_some : Option ℕ → ℕ → Bool
is_some none k = false
is_some (some j) k = j == k

-- How often the channel was closed, and how many tails run on it.
unfoldable pub closings : ℕ → List ℕ → ℕ
closings k [] = 0
closings k (j ∷ js) = one_if (j == k) + closings k js

unfoldable pub running : ℕ → Map ℕ → ℕ
running k [] = 0
running k ((id, j) ∷ m) = one_if (j == k) + running k m

closings-append :
    (k : ℕ) (js : List ℕ) (stop : ℕ)
    → closings k (js ++ stop ∷ []) ≡ closings k js + one_if (stop == k)
unfolding closings
closings-append k [] stop = omega arith
closings-append k (j ∷ js) stop = omega (arith, closings-append k js stop)

closings-close_found :
    (k : ℕ) (at : Option ℕ) (js : List ℕ)
    → closings k (close_found at js) ≡ closings k js + one_if (is_some at k)
closings-close_found k none js = omega arith
closings-close_found k (some stop) js = closings-append k js stop

running-absent :
    (k : ℕ) (id : Bytes) (m : Map ℕ) → lookup id m ≡ none → (running k (delete id m) ≡ running k m)
unfolding running delete lookup
running-absent k id [] h = refl
running-absent k id ((i, j) ∷ m) h = ground (arith, running-absent k id m)

running-delete :
    (k : ℕ) (id : Bytes) (m : Map ℕ)
    → Unique m
    → running k m ≡ running k (delete id m) + one_if (is_some (lookup id m) k)
unfolding running delete lookup
running-delete k id [] u = refl
running-delete k id ((i, j) ∷ m) (alone, u) = elim (Bool-cases (bytes_eq i id)) [
  | inl here ↦
      let same : i ≡ id = bytes_eq→eq i id here in
      let absent : lookup id m ≡ none = subst (λ x. lookup x m ≡ none) same alone in
      rw (here) (omega (arith, running-absent k id m absent))
  | inr there ↦ rw (there) (omega (arith, running-delete k id m u))
]

running-insert :
    (k : ℕ) (id : Bytes) (new : ℕ) (m : Map ℕ)
    → running k (insert id new m) + one_if (is_some (lookup id m) k)
      ≡ running k m + one_if (new == k)
unfolding running insert lookup
running-insert k id new [] = omega arith
running-insert k id new ((i, j) ∷ m) = elim (Bool-cases (bytes_eq i id)) [
  | inl here ↦ rw (here) (omega arith)
  | inr there ↦ rw (there) (omega (arith, running-insert k id new m))
]

module _ {W : Type 0} where
  -- Each channel that was made is either closed, once, or that of one running tail.
  pub record IsBalanced (h : Hub W) : Type 0 where
    pub unique : Unique h.tails
    pub accounted : (k : ℕ) → closings k h.closed + running k h.tails ≡ one_if (ltb k h.made)

  start_tail-IsBalanced : (id : Bytes) (h : Hub W) → IsBalanced h → IsBalanced (start_tail id h)
  unfolding start_tail
  start_tail-IsBalanced id h b = record {
    unique = insert-Unique id h.made h.tails b.unique;
    accounted = λ k. ground (
      arith,
      closings-close_found k (lookup id h.tails) h.closed,
      running-insert k id h.made h.tails,
      b.accounted k,
    );
  }

  stop_tail-IsBalanced : (id : Bytes) (h : Hub W) → IsBalanced h → IsBalanced (stop_tail id h)
  unfolding stop_tail
  stop_tail-IsBalanced id h b = record {
    unique = delete-Unique id h.tails b.unique;
    accounted = λ k. omega (
      arith,
      closings-close_found k (lookup id h.tails) h.closed,
      running-delete k id h.tails b.unique,
      b.accounted k,
    );
  }

  after_register-IsBalanced :
      (id : Bytes) (r : Option HubError × SimpleWatcherHub W) (h : Hub W)
      → IsBalanced h
      → IsBalanced (after_register id r h).1
  after_register-IsBalanced id (some e, inner) h b = record {
    unique = b.unique;
    accounted = b.accounted;
  }
  after_register-IsBalanced id (none, inner) h b =
      start_tail-IsBalanced id (record h { inner = inner })
        (record { unique = b.unique; accounted = b.accounted })

  hub_step-IsBalanced :
      (c : Bytes × Option W) (h : Hub W) → IsBalanced h → IsBalanced (hub_step c h)
  unfolding hub_step register_tail unregister_tail
  hub_step-IsBalanced (id, some w) h b = after_register-IsBalanced id (register id w h.inner) h b
  hub_step-IsBalanced (id, none) h b =
      let s = stop_tail-IsBalanced id h b in record { unique = s.unique; accounted = s.accounted }

  run_hub-IsBalanced :
      (cs : List (Bytes × Option W)) (h : Hub W) → IsBalanced h → IsBalanced (run_hub cs h)
  unfolding run_hub
  run_hub-IsBalanced [] h b = b
  run_hub-IsBalanced (c ∷ cs) h b = run_hub-IsBalanced cs (hub_step c h) (hub_step-IsBalanced c h b)

  -- Whatever pages come and go, also twice under one id, no channel is closed twice, which would stop
  -- the program, and one that is not closed is that of exactly one tail that Unregister can stop.
  pub run_hub-accounted :
      (cs : List (Bytes × Option W)) (inner : SimpleWatcherHub W) (k : ℕ)
      → let h = run_hub cs (new_hub inner) in
        (k < h.made → closings k h.closed + running k h.tails ≡ 1)
        × (h.made ≤ k → closings k h.closed + running k h.tails ≡ 0)
  unfolding closings running
  run_hub-accounted cs inner k =
      let start : IsBalanced (new_hub inner) = record {
        unique = tt;
        accounted = λ j. ground arith;
      } in
      let all = (run_hub-IsBalanced cs (new_hub inner) start).accounted k in
      (λ lt. ground (arith, all), λ ge. ground (arith, all))
