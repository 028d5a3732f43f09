-- ===== src/Zones/Myaddr/Generator.antt =====
-- RecordGenerator of internal/zones/myaddr/generator.go.
pub mod Labels
pub mod Answers
use addr_tools.Prelude.{
  ltb, leb, ◌==◌, if◌then◌else◌, ltb→lt, lt→ltb, leb→le, ==_iff, Bool-cases, Option-cases,
  &&-eq-true, length, length-append, take, drop, replicate, All, all, keep, head?, take-append-drop,
  length-take, length-drop, take-append, drop-append, length-map, length-replicate, length-keep,
  keep-append, take_all, Bytes, IsByte, bytes, bytes_eq, bytes_eq→eq, bytes_eq_refl, bytes_eq_iff,
  has_prefix, has_prefix-append, index_byte, or_here, last_index_byte, cons_first, split_byte, Map,
  lookup, delete, insert, Unique, lookup-delete, lookup-insert, delete-Unique, insert-Unique,
  Result, ok, err, ◌>>=◌, map_ok, >>=-eq-ok, map_ok-eq-ok, >>=-ok, map_ok-if, Result-cases, ℤ, pos,
  negsuc, negate, is_digit, decimal, unsigned, atoi, ℕ, zero, suc, ◌+◌, ◌-◌, ◌*◌, ◌/◌, ◌%◌, ◌^◌,
  ◌≤◌, ◌<◌, String, ◌≡◌, refl, sym, ap, ◌∙◌, subst, ◌≢◌, ◌↔◌, ◌⊎◌, inl, inr, Bool, true, false, not,
  ◌&&◌, ◌||◌, Option, none, some, List, [], ◌∷◌, ◌++◌, map, append-nil, append_assoc, arith,
}
use addr_tools.TtlStore.Contract.{TtlStore}
use addr_tools.Dnsutil.Strings.{to_lower_ascii, has_prefix_ascii_ignore_case}
use addr_tools.Zones.Dyn.{LoadError, store_failed, load_ipv4, load_ipv6}
use addr_tools.Zones.Dyn.Generator.{
  Record, a, aaaa, type_a, type_aaaa, type_txt, one_record, txt_records, updated_text,
}
use addr_tools.Zones.Myaddr.{RegistrationRecord, expires, load_registration, is_valid_name}

-- q.Name[:len(q.Name)-len(zone)-1]
abbrev labels_before : Bytes → Bytes → Bytes
labels_before name zone = take (length name - length zone - 1) name

abbrev from_dot : Option ℕ → Bytes → Bytes
from_dot none name = name
from_dot (some i) name = drop (i + 1) name

-- The label before the zone.
unfoldable pub last_label : Bytes → Bytes → Bytes
last_label name zone =
    let labels = labels_before name zone in from_dot (last_index_byte b'.' labels) labels

abbrev registered_texts : (ℕ → Bytes) → Option RegistrationRecord → List Bytes
registered_texts utc none = []
registered_texts utc (some r) =
    (bytes "registered " ++ utc r.created) ∷ (bytes "expires " ++ utc (expires r)) ∷ []

abbrev pub store_failure : {E A : Type 0} → Result E A → Result (LoadError E) A
store_failure (ok found) = ok found
store_failure (err e) = err (store_failed e)

module _ {S E : Type 0} (data_store challenge_store : TtlStore S E) (utc : ℕ → Bytes)
    (clock : ℕ → ℕ) where
  -- The texts of the name itself.
  abbrev pub own_texts : Bytes → S → Result (LoadError E) (List Bytes)
  own_texts name s = do
    reg ← load_registration data_store (clock 0) name s
    ip4 ← load_ipv4 data_store (clock 1) name s
    ip6 ← load_ipv6 data_store (clock 2) name s
    ok (
        bytes "v=spf1 -all" ∷ registered_texts utc reg
        ++ updated_text utc (bytes "ipv4") ip4
        ++ updated_text utc (bytes "ipv6") ip6)

  unfoldable pub texts_for : Bytes → Bytes → Bytes → S → Result (LoadError E) (List Bytes)
  texts_for name qname zone s =
      if length qname == length name + 1 + length zone
      then own_texts (to_lower_ascii name) s
      else if has_prefix_ascii_ignore_case qname (bytes "_acme-challenge.")
      then store_failure (challenge_store.values (clock 0) (to_lower_ascii name) s)
      else ok []

  unfoldable pub records_for : ℕ → Bytes → Bytes → Bytes → S → Result (LoadError E) (List Record)
  unfolding texts_for
  records_for qtype name qname zone s =
      if qtype == type_a
      then map_ok (one_record (a qname 60)) (load_ipv4 data_store (clock 0) (to_lower_ascii name) s)
      else if qtype == type_aaaa
      then map_ok (one_record (aaaa qname 60))
          (load_ipv6 data_store (clock 0) (to_lower_ascii name) s)
      else if qtype == type_txt
      then map_ok (txt_records qname) (texts_for name qname zone s)
      else ok []

  -- The records and validName, or the error of the store.
  unfoldable pub generate_records :
      ℕ → Bytes → Bytes → S → Result (LoadError E) (List Record × Bool)
  unfolding records_for last_label
  generate_records qtype qname zone s =
      if length qname == length zone
      then ok ([], false)
      else (let name = last_label qname zone in
          if is_valid_name name
          then map_ok (λ rrs. (rrs, true)) (records_for qtype name qname zone s)
          else ok ([], false))
