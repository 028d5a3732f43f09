-- ===== src/Probes/Hub.antt =====
-- Hub of internal/probewatch/probewatch.go over the watcher hub. Its channels are numbers in the order
-- in which they are made, and `closed` lists those that were closed. The lock makes the part that
-- touches the tails one step; `register` and `unregister` of the inner hub are steps of their own.
use addr_tools.Prelude.{
  ltb, leb, ◌==◌, if◌then◌else◌, ltb→lt, lt→ltb, leb→le, ==_iff, Bool-cases, Option-cases,
  &&-eq-true, length, length-append, take, drop, replicate, All, all, keep, head?, take-append-drop,
  length-take, length-drop, take-append, drop-append, length-map, length-replicate, length-keep,
  keep-append, take_all, Bytes, IsByte, bytes, bytes_eq, bytes_eq→eq, bytes_eq_refl, bytes_eq_iff,
  has_prefix, has_prefix-append, index_byte, or_here, last_index_byte, cons_first, split_byte, Map,
  lookup, delete, insert, Unique, lookup-delete, lookup-insert, delete-Unique, insert-Unique,
  Result, ok, err, ◌>>=◌, map_ok, >>=-eq-ok, map_ok-eq-ok, >>=-ok, map_ok-if, Result-cases, ℤ, pos,
  negsuc, negate, is_digit, decimal, unsigned, atoi, ℕ, zero, suc, ◌+◌, ◌-◌, ◌*◌, ◌/◌, ◌%◌, ◌^◌,
  ◌≤◌, ◌<◌, String, ◌≡◌, refl, sym, ap, ◌∙◌, subst, ◌≢◌, ◌↔◌, ◌⊎◌, inl, inr, Bool, true, false, not,
  ◌&&◌, ◌||◌, Option, none, some, List, [], ◌∷◌, ◌++◌, map, append-nil, append_assoc, arith,
}
pub mod Channels
use addr_tools.Dnscheck.Watchers.{SimpleWatcherHub, HubError, register, unregister}

pub record Hub (W : Type 0) : Type 0 where
  pub inner : SimpleWatcherHub W
  pub tails : Map ℕ
  pub made : ℕ
  pub closed : List ℕ

abbrev pub close_found : Option ℕ → List ℕ → List ℕ
close_found none closed = closed
close_found (some stop) closed = closed ++ stop ∷ []

module _ {W : Type 0} where
  -- The locked part of Register: a tail that the id had is stopped.
  unfoldable pub start_tail : Bytes → Hub W → Hub W
  start_tail id h = record h {
    tails = insert id h.made h.tails;
    made = suc h.made;
    closed = close_found (lookup id h.tails) h.closed;
  }

  abbrev pub after_register :
      Bytes → Option HubError × SimpleWatcherHub W → Hub W → Option HubError × Hub W
  after_register id (some e, inner) h = (some e, record h { inner = inner })
  after_register id (none, inner) h = (none, start_tail id (record h { inner = inner }))

  unfoldable pub register_tail : Bytes → W → Hub W → Option HubError × Hub W
  unfolding start_tail register
  register_tail id w h = after_register id (register id w h.inner) h

  -- The locked part of Unregister.
  unfoldable pub stop_tail : Bytes → Hub W → Hub W
  stop_tail id h = record h {
    tails = delete id h.tails;
    closed = close_found (lookup id h.tails) h.closed;
  }

  unfoldable pub unregister_tail : Bytes → Hub W → Hub W
  unfolding stop_tail unregister
  unregister_tail id h = let h' = stop_tail id h in record h' { inner = unregister id h'.inner }

  -- A page that comes or goes.
  unfoldable pub hub_step : Bytes × Option W → Hub W → Hub W
  unfolding register_tail unregister_tail
  hub_step (id, some w) h = (register_tail id w h).1
  hub_step (id, none) h = unregister_tail id h

  unfoldable pub run_hub : List (Bytes × Option W) → Hub W → Hub W
  unfolding hub_step
  run_hub [] h = h
  run_hub (c ∷ cs) h = run_hub cs (hub_step c h)

  abbrev pub new_hub : SimpleWatcherHub W → Hub W
  new_hub inner = record { inner = inner; tails = []; made = 0; closed = [] }
