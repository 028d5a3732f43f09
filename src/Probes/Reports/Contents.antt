-- ===== src/Probes/Reports/Contents.antt =====
-- What a report of internal/probereport/report.go contains.
use addr_tools.Prelude.{
  Bool-cases, length, Bytes, bytes_eq, bytes_eq→eq, bytes_eq_iff, Result, ok, ◌>>=◌, >>=-eq-ok,
  map_ok-eq-ok, >>=-ok, ℕ, ◌≤◌, ◌≡◌, refl, sym, ap, ◌∙◌, subst, ◌⊎◌, inl, inr, Bool, true, false,
  not, ◌&&◌, ◌||◌, some, List, [], ◌∷◌, ◌++◌, arith,
}
use addr_tools.Probes.{Observation, any}
use addr_tools.Probes.Reports.{
  Client, Decoders, StoreError, Report, or_default, decode_all, mem_bytes, add_resolvers, report_of,
  get, seen_key, obs_key, reports_key,
}

-- No address stands twice in the list.
unfoldable pub Distinct : List Bytes → Type 0
Distinct [] = Unit {0}
Distinct (b ∷ bs) = (mem_bytes b bs ≡ false) × Distinct bs

abbrev has_addr : Bytes → Observation → Bool
has_addr b o = bytes_eq o.resolver_addr b

mem_bytes-append :
    (b : Bytes) (bs cs : List Bytes) → mem_bytes b (bs ++ cs) ≡ (mem_bytes b bs || mem_bytes b cs)
unfolding mem_bytes
mem_bytes-append b [] cs = refl
mem_bytes-append b (c ∷ bs) cs = ground (arith, mem_bytes-append b bs cs)

bytes_eq_sym : (a b : Bytes) → bytes_eq a b ≡ bytes_eq b a
bytes_eq_sym a b = ground (arith, bytes_eq_iff a b, bytes_eq_iff b a)

Distinct-append :
    (bs : List Bytes) (b : Bytes) → mem_bytes b bs ≡ false → Distinct bs → Distinct (bs ++ b ∷ [])
unfolding Distinct mem_bytes
Distinct-append [] b new h = (refl, tt)
Distinct-append (c ∷ bs) b new (alone, rest) = (
  mem_bytes-append c bs (b ∷ []) ∙ ground (arith, bytes_eq_sym b c),
  Distinct-append bs b (ground arith) rest,
)

add_resolvers-Distinct :
    (seen : List Bytes) (os : List Observation) → Distinct seen → Distinct (add_resolvers seen os)
unfolding add_resolvers
add_resolvers-Distinct seen [] h = h
add_resolvers-Distinct seen (o ∷ os) h =
    elim (Bool-cases (not (bytes_eq o.resolver_addr []) && not (mem_bytes o.resolver_addr seen))) [
      | inl new ↦ rw (new) (
          add_resolvers-Distinct (seen ++ o.resolver_addr ∷ []) os
            (Distinct-append seen o.resolver_addr (ground arith) h))
      | inr old ↦ rw (old) (add_resolvers-Distinct seen os h)
    ]

mem_bytes_same :
    (a b : Bytes) (bs : List Bytes)
    → bytes_eq a b ≡ true
    → (mem_bytes a bs ≡ mem_bytes b bs) × (bytes_eq a [] ≡ bytes_eq b [])
mem_bytes_same a b bs e =
    let same : a ≡ b = bytes_eq→eq a b e in
    (ap (λ x. mem_bytes x bs) same, ap (λ x. bytes_eq x []) same)

add_resolvers_lem :
    (b : Bytes) (seen : List Bytes) (os : List Observation)
    → mem_bytes b (add_resolvers seen os)
      ≡ (mem_bytes b seen || (not (bytes_eq b []) && any (has_addr b) os))
unfolding add_resolvers any mem_bytes
add_resolvers_lem b seen [] = ground arith
add_resolvers_lem b seen (o ∷ os) =
    elim (Bool-cases (not (bytes_eq o.resolver_addr []) && not (mem_bytes o.resolver_addr seen))) [
      | inl new ↦ rw (new) (
          add_resolvers_lem b (seen ++ o.resolver_addr ∷ []) os
          ∙ ground (
            arith,
            mem_bytes-append b seen (o.resolver_addr ∷ []),
            mem_bytes_same o.resolver_addr b seen,
          ))
      | inr old ↦
          rw (old)
            (add_resolvers_lem b seen os ∙ ground (arith, mem_bytes_same o.resolver_addr b seen))
    ]

-- A report with the decodable entries, at least as many queries as the counter `n` says and as there are
-- observations, and the addresses of the observations, each once, without the empty one.
abbrev pub IsReportOf : {R : Type 0} → Decoders R → ℕ → List Bytes → Report R → Type 0
IsReportOf D n vals report =
    (report.observations ≡ decode_all D.observation vals)
    × ((n ≤ report.queries)
        × (length report.observations ≤ report.queries)
        × ((report.queries ≡ n) ⊎ (report.queries ≡ length report.observations)))
    × Distinct report.resolvers
    × ((b : Bytes)
        → mem_bytes b report.resolvers
          ≡ (not (bytes_eq b []) && any (has_addr b) report.observations))

report_of-IsReportOf :
    {R : Type 0} (D : Decoders R) (token : Bytes) (n : ℕ) (vals reports : List Bytes)
    → IsReportOf D n vals (report_of D token n vals reports)
unfolding report_of Distinct mem_bytes
report_of-IsReportOf D token n vals reports =
    let os = decode_all D.observation vals in
    (
      refl,
      (ground arith, ground arith, ground arith),
      add_resolvers-Distinct [] os tt,
      λ b. add_resolvers_lem b [] os,
    )

-- A report that Get returns is that of its reads: it has the observations that can be decoded in
-- their order, it counts as many queries as the counter says, or as there are observations if
-- these are more, and its resolvers are the addresses of the observations that are not empty,
-- each once.
pub get_lem :
    {E R : Type 0} (D : Decoders R) (c : Client E) (token : Bytes) (report : Report R)
    → get D (some c) token ≡ ok report
    → (n : ℕ) × (vals : List Bytes) × (or_default 0 (c.get_int (seen_key token)) ≡ ok n)
      × (or_default [] (c.list_range (obs_key token)) ≡ ok vals)
      × IsReportOf D n vals report
unfolding get
get_lem {E = E} D c token report h =
    let reports : Result (StoreError E) (List Bytes) =
      or_default [] (c.list_range (reports_key token)) in
    let (n, counted, h1) =
      >>=-eq-ok (or_default 0 (c.get_int (seen_key token)))
        (λ n. or_default [] (c.list_range (obs_key token)) >>= λ vals.
          reports >>= λ rs. ok (report_of D token n vals rs))
        h in
    let (vals, listed, h2) =
      >>=-eq-ok (or_default [] (c.list_range (obs_key token)))
        (λ vals. reports >>= λ rs. ok (report_of D token n vals rs)) h1 in
    let (rs, told, same) =
      map_ok-eq-ok (report_of D token n vals) reports
        (sym (>>=-ok (report_of D token n vals) reports) ∙ h2) in
    (
      n,
      vals,
      counted,
      listed,
      subst (IsReportOf D n vals) same (report_of-IsReportOf D token n vals rs),
    )
