-- ===== src/Probes.antt =====
-- internal/probereport: the observations of a resolver's queries and what they tell. The strings are
-- bytes, and the time of an observation is a Unix time.
pub mod Tails
pub mod Queries
pub mod Hub
pub mod Reports
use addr_tools.Prelude.{
  ltb, leb, ◌==◌, if◌then◌else◌, ltb→lt, lt→ltb, leb→le, ==_iff, Bool-cases, Option-cases,
  &&-eq-true, length, length-append, take, drop, replicate, All, all, keep, head?, take-append-drop,
  length-take, length-drop, take-append, drop-append, length-map, length-replicate, length-keep,
  keep-append, take_all, Bytes, IsByte, bytes, bytes_eq, bytes_eq→eq, bytes_eq_refl, bytes_eq_iff,
  has_prefix, has_prefix-append, index_byte, or_here, last_index_byte, cons_first, split_byte, Map,
  lookup, delete, insert, Unique, lookup-delete, lookup-insert, delete-Unique, insert-Unique,
  Result, ok, err, ◌>>=◌, map_ok, >>=-eq-ok, map_ok-eq-ok, >>=-ok, map_ok-if, Result-cases, ℤ, pos,
  negsuc, negate, is_digit, decimal, unsigned, atoi, ℕ, zero, suc, ◌+◌, ◌-◌, ◌*◌, ◌/◌, ◌%◌, ◌^◌,
  ◌≤◌, ◌<◌, String, ◌≡◌, refl, sym, ap, ◌∙◌, subst, ◌≢◌, ◌↔◌, ◌⊎◌, inl, inr, Bool, true, false, not,
  ◌&&◌, ◌||◌, Option, none, some, List, [], ◌∷◌, ◌++◌, map, append-nil, append_assoc, arith,
}

pub record TlsInfo : Type 0 where
  pub version : Bytes
  pub cipher_suite : Bytes
  pub named_group : Bytes
  pub server_name : Bytes
  pub did_resume : Bool

pub record Observation : Type 0 where
  pub token : Bytes
  pub seen_at : ℕ
  pub resolver_addr : Bytes
  pub resolver_prefix : Bytes
  pub transport : Bytes
  pub ipv6 : Bool
  pub qtype : Bytes
  pub mods : Bytes
  pub wants_dnssec : Bool
  pub edns : Bool
  pub udp_size : ℕ
  pub cookie : Bool
  pub ecs : Bool
  pub ecs_scope : ℕ
  pub ecs_family : ℕ
  pub ecs_prefix : Bytes
  pub compact_aware : Bool
  pub deleg_aware : Bool
  pub key_tags : List ℕ
  pub knows_zone_key : Bool
  pub zone_version_asked : Bool
  pub tls : Option TlsInfo
  pub case_randomized : Bool
  pub seen : ℕ

unfoldable pub encrypted : Observation → Bool
encrypted o =
    bytes_eq o.transport (bytes "tls")
    || bytes_eq o.transport (bytes "quic")
    || bytes_eq o.transport (bytes "https")

pub data TrustAnchorReading : Type 0 where
  trust_anchor_silent trust_anchor_ours trust_anchor_other : TrustAnchorReading

pub data EcsDisclosure : Type 0 where
  ecs_silent ecs_declined ecs_disclosed : EcsDisclosure

pub data DelegReading : Type 0 where
  deleg_unknown deleg_unaware deleg_aware_reading : DelegReading

unfoldable pub trust_anchor_reading : Observation → TrustAnchorReading
trust_anchor_reading o =
    if length o.key_tags == 0
    then trust_anchor_silent
    else if o.knows_zone_key
    then trust_anchor_ours
    else trust_anchor_other

unfoldable pub ecs_disclosure : Observation → EcsDisclosure
ecs_disclosure o =
    if not o.ecs then ecs_silent else if o.ecs_scope == 0 then ecs_declined else ecs_disclosed

unfoldable pub deleg_reading : Observation → DelegReading
deleg_reading o =
    if not o.edns
    then deleg_unknown
    else if o.deleg_aware
    then deleg_aware_reading
    else deleg_unaware

pub data QnameMinimisation : Type 0 where
  qmin_unknown qmin_observed qmin_absent : QnameMinimisation

abbrev pub is_modified : Observation → Bool
is_modified o = not (bytes_eq o.mods []) && not (bytes_eq o.mods (bytes "none"))

-- The loop of QNAMEMinimisation over sawModified and sawIntermediateNS.
unfoldable pub scan_walk : Bool × Bool → List Observation → Bool × Bool
scan_walk saw [] = saw
scan_walk (modified, ns) (o ∷ os) =
    scan_walk
      (if is_modified o then (true, ns) else (modified, ns || bytes_eq o.qtype (bytes "NS"))) os

unfoldable pub qname_minimisation : List Observation → QnameMinimisation
unfolding scan_walk
qname_minimisation os =
    let (modified, ns) = scan_walk (false, false) os in
    if ns then qmin_observed else if modified then qmin_absent else qmin_unknown

-- Whether some observation passes the test.
unfoldable pub any : {A : Type 0} → (A → Bool) → List A → Bool
any p [] = false
any p (x ∷ xs) = p x || any p xs

abbrev pub asks_plain_ns : Observation → Bool
asks_plain_ns o = not (is_modified o) && bytes_eq o.qtype (bytes "NS")

or-step :
    (modified ns b c m n : Bool)
    → ◌≡◌ {A = Bool × Bool}
        (if b then (true || m, ns || n) else (modified || m, (ns || c) || n))
        (modified || (b || m), ns || ((not b && c) || n))
or-step modified ns b c m n = ground arith

scan_walk-step :
    (modified ns b c : Bool) (os : List Observation)
    → ((modified ns : Bool)
        → scan_walk (modified, ns) os
          ≡ (modified || any is_modified os, ns || any asks_plain_ns os))
    → scan_walk (if b then (true, ns) else (modified, ns || c)) os
      ≡ (modified || (b || any is_modified os), ns || ((not b && c) || any asks_plain_ns os))
scan_walk-step modified ns true c os ih =
    ih true ns ∙ or-step modified ns true c (any is_modified os) (any asks_plain_ns os)
scan_walk-step modified ns false c os ih =
    ih modified (ns || c) ∙ or-step modified ns false c (any is_modified os) (any asks_plain_ns os)

scan_walk_lem :
    (modified ns : Bool) (os : List Observation)
    → scan_walk (modified, ns) os ≡ (modified || any is_modified os, ns || any asks_plain_ns os)
unfolding scan_walk any
scan_walk_lem modified ns [] = ground arith
scan_walk_lem modified ns (o ∷ os) =
    scan_walk-step modified ns (is_modified o) (bytes_eq o.qtype (bytes "NS")) os
      (λ m n. scan_walk_lem m n os)

-- A resolver's minimisation is observed just if it asked for NS of a name without modifiers. It is
-- unknown just if there is no such query and none for a modified name. Queries for other types of a
-- name without modifiers do not count, so a walk with A beside modified names reads as absent.
pub qname_minimisation_lem :
    (os : List Observation)
    → ((qname_minimisation os ≡ qmin_observed) ↔ (any asks_plain_ns os ≡ true))
      × ((qname_minimisation os ≡ qmin_unknown)
          ↔ ((any asks_plain_ns os ≡ false) × (any is_modified os ≡ false)))
      × ((qname_minimisation os ≡ qmin_absent)
          ↔ ((any asks_plain_ns os ≡ false) × (any is_modified os ≡ true)))
unfolding qname_minimisation
qname_minimisation_lem os =
    rw (scan_walk_lem false false os) (ground arith, ground arith, ground arith)
