-- ===== src/Probes/Tails.antt =====
-- tail and fetch of internal/probewatch/probewatch.go: the loop that forwards the observations of a
-- token. The list in the store only grows, json.Unmarshal is a parameter, and what a watcher is sent
-- stands for the observation that synthesize turns into a query.
use addr_tools.Prelude.{
  ltb, leb, ◌==◌, if◌then◌else◌, ltb→lt, lt→ltb, leb→le, ==_iff, Bool-cases, Option-cases,
  &&-eq-true, length, length-append, take, drop, replicate, All, all, keep, head?, take-append-drop,
  length-take, length-drop, take-append, drop-append, length-map, length-replicate, length-keep,
  keep-append, take_all, Bytes, IsByte, bytes, bytes_eq, bytes_eq→eq, bytes_eq_refl, bytes_eq_iff,
  has_prefix, has_prefix-append, index_byte, or_here, last_index_byte, cons_first, split_byte, Map,
  lookup, delete, insert, Unique, lookup-delete, lookup-insert, delete-Unique, insert-Unique,
  Result, ok, err, ◌>>=◌, map_ok, >>=-eq-ok, map_ok-eq-ok, >>=-ok, map_ok-if, Result-cases, ℤ, pos,
  negsuc, negate, is_digit, decimal, unsigned, atoi, ℕ, zero, suc, ◌+◌, ◌-◌, ◌*◌, ◌/◌, ◌%◌, ◌^◌,
  ◌≤◌, ◌<◌, String, ◌≡◌, refl, sym, ap, ◌∙◌, subst, ◌≢◌, ◌↔◌, ◌⊎◌, inl, inr, Bool, true, false, not,
  ◌&&◌, ◌||◌, Option, none, some, List, [], ◌∷◌, ◌++◌, map, append-nil, append_assoc, arith,
}
pub mod Safety
pub mod Stopping
pub mod Liveness
use addr_tools.Probes.{Observation}
use addr_tools.Probes.Reports.{Reply, found, nothing, failed, decode_all}

abbrev pub max_per_poll : ℕ
max_per_poll = 64

-- LRANGE cursor, cursor + maxPerPoll - 1
abbrev pub window : ℕ → List Bytes → List Bytes
window cursor log = take max_per_poll (drop cursor log)

-- The observations that fetch returns, and how many entries it consumed.
abbrev pub fetched :
    {E : Type 0}
    → (Bytes → Option Observation)
    → Reply E (List Bytes)
    → Result E (List Observation × ℕ)
fetched decode (found vals) = ok (decode_all decode vals, length vals)
fetched decode nothing = ok ([], 0)
fetched decode (failed e) = err e

-- Without a client, fetch finds nothing. `ask` is the read of the store at a cursor.
unfoldable pub fetch :
    {E : Type 0}
    → (Bytes → Option Observation)
    → Option (ℕ → Reply E (List Bytes))
    → ℕ
    → Result E (List Observation × ℕ)
unfolding decode_all
fetch decode none cursor = ok ([], 0)
fetch decode (some ask) cursor = fetched decode (ask cursor)

-- One pass of the loop of tail that is not stopped: the cursor and what was sent.
abbrev pub pass :
    {E : Type 0} → Result E (List Observation × ℕ) → ℕ × List Observation → ℕ × List Observation
pass (ok (obs, consumed)) (cursor, sent) = (cursor + consumed, sent ++ obs)
pass (err e) (cursor, sent) = (cursor, sent)

-- The passes over a list that stays as it is; `works` tells which of the reads succeed.
unfoldable pub run_tail :
    {E : Type 0}
    → (Bytes → Option Observation)
    → E
    → List Bytes
    → List Bool
    → ℕ × List Observation
    → ℕ × List Observation
unfolding fetch
run_tail decode e log [] at = at
run_tail decode e log (works ∷ rest) at =
    run_tail decode e log rest
      (pass (fetch decode (some (λ k. if works then found (window k log) else failed e)) at.0) at)

-- Where the loop of tail stands: before its check of `stop`, in its read, in the loop over the
-- observations that were read, or in the select at the end.
pub data Phase : Type 0 where
  checking reading : Phase
  sending : List Observation → ℕ → Phase
  waiting finished : Phase

-- The list in the store, whether `stop` is closed, and the tail with what it has sent.
pub record System : Type 0 where
  pub log : List Bytes
  pub stopped : Bool
  pub phase : Phase
  pub cursor : ℕ
  pub sent : List Observation

abbrev pub start : List Bytes → System
start log = record { log = log; stopped = false; phase = checking; cursor = 0; sent = [] }

abbrev pub after_read : {E : Type 0} → Result E (List Observation × ℕ) → Bool → Phase
after_read (ok (obs, consumed)) stopped = sending obs consumed
after_read (err e) stopped = if stopped then finished else waiting

module _ (E : Type 0) (decode : Bytes → Option Observation) where
  -- What the plugin, the hub and the tail do. A read returns the window of the list or fails.
  pub data Step : System → System → Type 0 where
    pushed :
        (v : Bytes) (log : List Bytes) (stopped : Bool) (phase : Phase) (cursor : ℕ)
        (sent : List Observation)
        → Step
            (record { log = log; stopped = stopped; phase = phase; cursor = cursor; sent = sent })
            (record {
              log = log ++ v ∷ [];
              stopped = stopped;
              phase = phase;
              cursor = cursor;
              sent = sent;
            })
    stop_closed :
        (log : List Bytes) (stopped : Bool) (phase : Phase) (cursor : ℕ) (sent : List Observation)
        → Step
            (record { log = log; stopped = stopped; phase = phase; cursor = cursor; sent = sent })
            (record { log = log; stopped = true; phase = phase; cursor = cursor; sent = sent })
    checked :
        (log : List Bytes) (stopped : Bool) (cursor : ℕ) (sent : List Observation)
        → Step
            (record {
              log = log;
              stopped = stopped;
              phase = checking;
              cursor = cursor;
              sent = sent;
            })
            (record {
              log = log;
              stopped = stopped;
              phase = if stopped then finished else reading;
              cursor = cursor;
              sent = sent;
            })
    read :
        (log : List Bytes) (stopped : Bool) (cursor : ℕ) (sent : List Observation)
        (reply : Reply E (List Bytes))
        → ((vals : List Bytes) → reply ≡ found vals → vals ≡ window cursor log)
        → Step
            (record { log = log; stopped = stopped; phase = reading; cursor = cursor; sent = sent })
            (record {
              log = log;
              stopped = stopped;
              phase = after_read (fetch decode (some (λ k. reply)) cursor) stopped;
              cursor = cursor;
              sent = sent;
            })
    sent_one :
        (log : List Bytes) (stopped : Bool) (o : Observation) (todo : List Observation)
        (consumed cursor : ℕ) (sent : List Observation)
        → Step
            (record {
              log = log;
              stopped = stopped;
              phase = sending (o ∷ todo) consumed;
              cursor = cursor;
              sent = sent;
            })
            (record {
              log = log;
              stopped = stopped;
              phase = sending todo consumed;
              cursor = cursor;
              sent = sent ++ o ∷ [];
            })
    sent_all :
        (log : List Bytes) (stopped : Bool) (consumed cursor : ℕ) (sent : List Observation)
        → Step
            (record {
              log = log;
              stopped = stopped;
              phase = sending [] consumed;
              cursor = cursor;
              sent = sent;
            })
            (record {
              log = log;
              stopped = stopped;
              phase = waiting;
              cursor = cursor + consumed;
              sent = sent;
            })
    stop_seen :
        (log : List Bytes) (cursor : ℕ) (sent : List Observation)
        → Step
            (record { log = log; stopped = true; phase = waiting; cursor = cursor; sent = sent })
            (record { log = log; stopped = true; phase = finished; cursor = cursor; sent = sent })
    ticked :
        (log : List Bytes) (stopped : Bool) (cursor : ℕ) (sent : List Observation)
        → Step
            (record { log = log; stopped = stopped; phase = waiting; cursor = cursor; sent = sent })
            (record {
              log = log;
              stopped = stopped;
              phase = checking;
              cursor = cursor;
              sent = sent;
            })

  pub data Reach : System → System → Type 0 where
    done : {s : System} → Reach s s
    more : {r s t : System} → Reach r s → Step s t → Reach r t
