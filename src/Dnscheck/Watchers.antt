-- ===== src/Dnscheck/Watchers.antt =====
-- SimpleWatcherHub of internal/zones/dnscheck/watcher.go. The lock makes each method one step.
use addr_tools.Prelude.{
  delete, ltb, leb, if◌then◌else◌, length, Bytes, bytes_eq, Map, lookup, insert, Unique,
  lookup-insert, delete-Unique, insert-Unique, ℕ, ◌+◌, ◌≤◌, ◌<◌, ◌≡◌, refl, ◌⊎◌, Bool, true, false,
  not, ◌&&◌, Option, none, some, List, [], ◌∷◌, arith,
}

-- `max_size` 0 stands for any MaxSize that is not positive.
pub record SimpleWatcherHub (W : Type 0) : Type 0 where
  pub max_size : ℕ
  pub m : Map W

-- fmt.Errorf("at max size (%v)", len(s.m))
pub data HubError : Type 0 where
  at_max_size : ℕ → HubError

abbrev pub is_present : {W : Type 0} → Option W → Bool
is_present none = false
is_present (some w) = true

pub data HubCall (W : Type 0) : Type 0 where
  register_call : Bytes → W → HubCall W
  unregister_call : Bytes → HubCall W

module _ {W : Type 0} where
  unfoldable pub get_watcher : Bytes → SimpleWatcherHub W → Option W
  get_watcher id s = lookup id s.m

  unfoldable pub is_registered : Bytes → SimpleWatcherHub W → Bool
  is_registered id s = is_present (lookup id s.m)

  unfoldable pub register : Bytes → W → SimpleWatcherHub W → Option HubError × SimpleWatcherHub W
  register id w s =
      if ltb 0 s.max_size && leb s.max_size (length s.m) && not (is_present (lookup id s.m))
      then (some (at_max_size (length s.m)), s)
      else (none, record s { m = insert id w s.m })

  unfoldable pub unregister : Bytes → SimpleWatcherHub W → SimpleWatcherHub W
  unregister id s = record s { m = delete id s.m }

  unfoldable pub hub_call : HubCall W → SimpleWatcherHub W → SimpleWatcherHub W
  hub_call (register_call id w) s = (register id w s).1
  hub_call (unregister_call id) s = unregister id s

  unfoldable pub hub_run : List (HubCall W) → SimpleWatcherHub W → SimpleWatcherHub W
  hub_run [] s = s
  hub_run (c ∷ cs) s = hub_run cs (hub_call c s)

  length-insert :
      (id : Bytes) (w : W) (m : Map W)
      → length (insert id w m) ≡ (if is_present (lookup id m) then length m else length m + 1)
  unfolding insert lookup
  length-insert id w [] = refl
  length-insert id w ((j, v) ∷ m) = ground (arith, length-insert id w m)

  length-delete : (id : Bytes) (m : Map W) → length (delete id m) ≤ length m
  unfolding delete
  length-delete id [] = omega arith
  length-delete id ((j, v) ∷ m) = ground (arith, length-delete id m)

  -- The keys are distinct, and their number respects a positive limit.
  pub record HubIsValid (s : SimpleWatcherHub W) : Type 0 where
    pub unique : Unique s.m
    pub bounded : 0 < s.max_size → length s.m ≤ s.max_size

  hub_call-HubIsValid :
      (c : HubCall W) {s : SimpleWatcherHub W} → HubIsValid s → HubIsValid (hub_call c s)
  unfolding hub_call register unregister
  hub_call-HubIsValid (register_call id w) {s} v =
      ground (arith, insert-Unique id w s.m, length-insert id w s.m)
  hub_call-HubIsValid (unregister_call id) {s} v = record {
    unique = delete-Unique id s.m v.unique;
    bounded = λ h. omega (arith, length-delete id s.m, v.bounded h);
  }

  -- From a valid hub, whatever watchers come and go, the ids stay distinct and their number never
  -- passes a positive MaxSize.
  pub hub_run-HubIsValid :
      (cs : List (HubCall W)) {s : SimpleWatcherHub W} → HubIsValid s → HubIsValid (hub_run cs s)
  unfolding hub_run
  hub_run-HubIsValid [] v = v
  hub_run-HubIsValid (c ∷ cs) v = hub_run-HubIsValid cs (hub_call-HubIsValid c v)

  -- Register fails only in a full hub and for an id that it does not hold. Otherwise Get gives the
  -- new watcher for the id and what it gave before for any other.
  pub register_lem :
      (id j : Bytes) (w : W) (s s' : SimpleWatcherHub W) (e : Option HubError)
      → register id w s ≡ (e, s')
      → ((e ≡ none) × (get_watcher j s' ≡ (if bytes_eq id j then some w else get_watcher j s)))
        ⊎ ((0 < s.max_size) × (s.max_size ≤ length s.m) × (is_registered id s ≡ false) × (s' ≡ s))
  unfolding register get_watcher is_registered
  register_lem id j w s s' e h = ground (arith, lookup-insert id j w s.m)
