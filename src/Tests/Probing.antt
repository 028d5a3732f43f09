-- ===== src/Tests/Probing.antt =====
-- Probe reports and the tails at concrete inputs: an entry of the list that starts with a letter decodes
-- to an observation with it as the token.
use addr_tools.Prelude.{
  Bytes, bytes, ok, ℕ, ◌+◌, ◌≤◌, ◌<◌, ◌≡◌, refl, ◌↔◌, true, false, Option, none, some, List, [],
  ◌∷◌, ◌++◌, arith,
}
use addr_tools.Dnscheck.Watchers.{SimpleWatcherHub}
use addr_tools.Probes.{
  Observation, qmin_unknown, qmin_observed, qmin_absent, qname_minimisation, qname_minimisation_lem,
  any, is_modified, asks_plain_ns,
}
use addr_tools.Probes.Reports.{
  found, Client, Decoders, Report, or_default, decode_all, get, report_of, seen_key, obs_key,
}
use addr_tools.Probes.Reports.Contents.{get_lem, IsReportOf}
use addr_tools.Probes.Tails.{
  System, start, Reach, done, more, checked, pushed, read, sent_one, run_tail, sending, waiting,
  fetch,
}
use addr_tools.Probes.Tails.Safety.{Reach-sent}
use addr_tools.Probes.Tails.Stopping.{Reach-silent}
use addr_tools.Probes.Tails.Liveness.{run_tail-sends_all}
use addr_tools.Probes.Hub.{new_hub, run_hub}
use addr_tools.Probes.Hub.Channels.{run_hub-accounted, closings, running}

abbrev observed : Bytes → Observation
observed token = record {
  token = token;
  seen_at = 0;
  resolver_addr = bytes "192.0.2.1";
  resolver_prefix = [];
  transport = bytes "udp";
  ipv6 = false;
  qtype = bytes "NS";
  mods = bytes "none";
  wants_dnssec = true;
  edns = true;
  udp_size = 0;
  cookie = false;
  ecs = true;
  ecs_scope = 24;
  ecs_family = 1;
  ecs_prefix = [];
  compact_aware = false;
  deleg_aware = false;
  key_tags = [];
  knows_zone_key = false;
  zone_version_asked = false;
  tls = none;
  case_randomized = false;
  seen = 1;
}

abbrev toy_decode : Bytes → Option Observation
toy_decode [] = none
toy_decode (c ∷ s) = some (observed (c ∷ s))

abbrev store_error : ℕ
store_error = 5

-- Two entries, the first of which cannot be decoded.
abbrev entries : List Bytes
entries = [] ∷ bytes "b" ∷ []

run_tail-sends_all_example :
    run_tail toy_decode store_error entries (false ∷ true ∷ []) (0, [])
    ≡ (2, decode_all toy_decode entries)
run_tail-sends_all_example =
    run_tail-sends_all toy_decode store_error entries (false ∷ true ∷ []) (omega arith)

-- The tail reads, then a third entry comes, then it sends.
abbrev after_sending : System
after_sending = record {
  log = entries ++ bytes "c" ∷ [];
  stopped = false;
  phase = sending [] 2;
  cursor = 0;
  sent = observed (bytes "b") ∷ [];
}

sending_run : Reach ℕ toy_decode (start entries) after_sending
unfolding fetch decode_all
sending_run =
    more
      (more
        (more (more done (checked entries false 0 []))
          (read entries false 0 [] (found entries) (λ vals e. cc)))
        (pushed (bytes "c") entries false (sending (observed (bytes "b") ∷ []) 2) 0 []))
      (sent_one (entries ++ bytes "c" ∷ []) false (observed (bytes "b")) [] 2 0 [])

Reach-sent_example :
    (rest : List Observation) × ((observed (bytes "b") ∷ []) ++ rest
      ≡ decode_all toy_decode (entries ++ bytes "c" ∷ []))
Reach-sent_example = Reach-sent ℕ toy_decode sending_run

abbrev stopped_tail : System
stopped_tail = record { log = entries; stopped = true; phase = waiting; cursor = 0; sent = [] }

abbrev pushed_tail : System
pushed_tail = record stopped_tail { log = entries ++ bytes "c" ∷ [] }

stopped_run : Reach ℕ toy_decode stopped_tail pushed_tail
stopped_run = more done (pushed (bytes "c") entries true waiting 0 [])

Reach-silent_example : pushed_tail.sent ≡ stopped_tail.sent
Reach-silent_example = Reach-silent refl refl stopped_run

abbrev no_watchers : SimpleWatcherHub ℕ
no_watchers = record { max_size = 0; m = [] }

-- A page under an id, a second under the same id, and the first one goes.
abbrev visits : List (Bytes × Option ℕ)
visits = (bytes "a", some 1) ∷ (bytes "a", some 2) ∷ (bytes "a", none) ∷ []

run_hub-accounted_example :
    let h = run_hub visits (new_hub no_watchers) in
    ((1 < h.made) → (closings 1 h.closed + running 1 h.tails ≡ 1))
    × ((h.made ≤ 1) → (closings 1 h.closed + running 1 h.tails ≡ 0))
run_hub-accounted_example = run_hub-accounted visits no_watchers 1

abbrev toy_client : Client ℕ
toy_client = record { get_int = λ key. found 1; list_range = λ key. found entries }

abbrev toy_decoders : Decoders ℕ
toy_decoders = record { observation = toy_decode; error_report = λ s. none }

abbrev toy_report : Report ℕ
toy_report = report_of toy_decoders (bytes "t") 1 entries entries

toy_report-get : get toy_decoders (some toy_client) (bytes "t") ≡ ok toy_report
unfolding get
toy_report-get = refl

get_lem_example :
    (n : ℕ) × (vals : List Bytes) × (or_default 0 (toy_client.get_int (seen_key (bytes "t")))
      ≡ ok n)
    × (or_default [] (toy_client.list_range (obs_key (bytes "t"))) ≡ ok vals)
    × IsReportOf toy_decoders n vals toy_report
get_lem_example = get_lem toy_decoders toy_client (bytes "t") toy_report toy_report-get

abbrev walk : List Observation
walk = observed (bytes "b") ∷ []

qname_minimisation_lem_example :
    ((qname_minimisation walk ≡ qmin_observed) ↔ (any asks_plain_ns walk ≡ true))
    × ((qname_minimisation walk ≡ qmin_unknown)
        ↔ ((any asks_plain_ns walk ≡ false) × (any is_modified walk ≡ false)))
    × ((qname_minimisation walk ≡ qmin_absent)
        ↔ ((any asks_plain_ns walk ≡ false) × (any is_modified walk ≡ true)))
qname_minimisation_lem_example = qname_minimisation_lem walk
