-- ===== src/Dnsutil/Records.antt =====
-- StaticRecords.Get of internal/dnsutil/collections.go.
use addr_tools.Prelude.{
  ◌==◌, if◌then◌else◌, All, ◌≡◌, refl, ◌⊎◌, Bool, true, false, ◌&&◌, ◌||◌, List, [], ◌∷◌, arith,
}
use addr_tools.Dns.{Rr, Question, rrtype, type_cname}
use addr_tools.Dnsutil.Strings.{equals_ascii_ignore_case}

abbrev is_for : Question → Rr → Bool
is_for q rr = rr.class == q.qclass && equals_ascii_ignore_case rr.name q.name

abbrev answers : Question → Rr → Bool
answers q rr = rrtype rr == q.qtype || rrtype rr == type_cname

-- The records, with the name as it was asked for, and whether the name exists.
unfoldable pub get_static : Question → List Rr → List Rr × Bool
get_static q [] = ([], false)
get_static q (rr ∷ rrs) =
    let (found, exists) = get_static q rrs in
    if is_for q rr
    then (if answers q rr then record rr { name = q.name } ∷ found else found, true)
    else (found, exists)

-- Every record that Get returns has the name of the question, its class, and its type or CNAME, and
-- with a record the name exists.
pub get_static_lem :
    (q : Question) (rrs : List Rr)
    → All
        (λ rr.
          (rr.name ≡ q.name)
          × (rr.class ≡ q.qclass)
          × ((rrtype rr ≡ q.qtype) ⊎ (rrtype rr ≡ type_cname)))
        (get_static q rrs).0
      × (((get_static q rrs).1 ≡ false) → (get_static q rrs).0 ≡ [])
unfolding get_static
get_static_lem q [] = (tt, λ e. refl)
get_static_lem q (rr ∷ rrs) = ground (arith, get_static_lem q rrs)
