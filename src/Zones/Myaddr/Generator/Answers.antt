-- ===== src/Zones/Myaddr/Generator/Answers.antt =====
-- What the records of internal/zones/myaddr/generator.go show of the stores.
use addr_tools.Prelude.{
  ◌==◌, lt→ltb, length, length-append, Bytes, bytes, bytes_eq_refl, ok, map_ok, ℕ, ◌+◌, ◌<◌, ◌≡◌,
  refl, sym, ap, ◌∙◌, true, false, none, List, [], ◌∷◌, ◌++◌, append_assoc, arith,
}
use addr_tools.TtlStore.Contract.{TtlStore, IsLawful, expiry}
use addr_tools.Dnsutil.Strings.{to_lower_ascii, has_prefix_ascii_ignore_case}
use addr_tools.Zones.Dyn.Generator.{type_txt, txt_records}
use addr_tools.Zones.Myaddr.{is_valid_name}
use addr_tools.Zones.Myaddr.Generator.Labels.{last_label_lem, has_prefix_label}
use addr_tools.Zones.Myaddr.Generator.{
  last_label, store_failure, texts_for, records_for, generate_records,
}

module _ {S E : Type 0} (data_store challenge_store : TtlStore S E) (utc : ℕ → Bytes)
    (clock : ℕ → ℕ) where
  generate_records-texts :
      (name qname zone : Bytes) (s : S)
      → length qname == length zone ≡ false
      → last_label qname zone ≡ name
      → is_valid_name name ≡ true
      → length qname == length name + 1 + length zone ≡ false
      → has_prefix_ascii_ignore_case qname (bytes "_acme-challenge.") ≡ true
      → generate_records data_store challenge_store utc clock type_txt qname zone s
        ≡ map_ok
            (λ rrs. (rrs, true))
            (map_ok
              (txt_records qname)
              (store_failure (challenge_store.values (clock 0) (to_lower_ascii name) s)))
  unfolding generate_records records_for texts_for
  generate_records-texts name qname zone s below label valid sub prefix =
      rw (below, label, valid, sub, prefix) refl

  -- The query for a challenge: the label, any labels, the name, the zone.
  generate_records-query :
      (label more front name zone : Bytes) (s : S)
      → to_lower_ascii label ≡ bytes "_acme-challenge"
      → front ++ b'.' ∷ [] ≡ label ++ b'.' ∷ more
      → is_valid_name name ≡ true
      → let qname = front ++ b'.' ∷ (name ++ b'.' ∷ zone) in
        generate_records data_store challenge_store utc clock type_txt qname zone s
        ≡ map_ok
            (λ rrs. (rrs, true))
            (map_ok
              (txt_records qname)
              (store_failure (challenge_store.values (clock 0) (to_lower_ascii name) s)))
  generate_records-query label more front name zone s low begins valid =
      let rest = name ++ b'.' ∷ zone in
      let size : length (front ++ b'.' ∷ rest) ≡ length front + 1 + length name + 1 + length zone =
        omega (arith, length-append front (b'.' ∷ rest), length-append name (b'.' ∷ zone)) in
      let split : front ++ b'.' ∷ rest ≡ label ++ b'.' ∷ (more ++ rest) =
        sym (append_assoc front (b'.' ∷ []) rest)
        ∙ ap (λ x. x ++ rest) begins
        ∙ append_assoc label (b'.' ∷ more) rest in
      let prefix : has_prefix_ascii_ignore_case (front ++ b'.' ∷ rest) (bytes "_acme-challenge.")
          ≡ true =
        ap (λ x. has_prefix_ascii_ignore_case x (bytes "_acme-challenge.")) split
        ∙ has_prefix_label label (bytes "_acme-challenge") (more ++ rest) low in
      generate_records-texts name (front ++ b'.' ∷ rest) zone s (ground (arith, size))
        (last_label_lem front name zone valid) valid (ground (arith, size)) prefix

  -- Over a store that keeps the contract: after an Add of a challenge under the lower-case form of a valid
  -- name succeeds, a TXT query for any name that ends in this name, a dot and the zone, and whose first
  -- label, of those before that, is _acme-challenge in any case, is answered with the challenges that were
  -- there and the new one last, until it expires.
  pub generate_records-add :
      (now ttl : ℕ) (label more front name zone challenge : Bytes) (vs : List Bytes) (s s' : S)
      → IsLawful challenge_store
      → to_lower_ascii label ≡ bytes "_acme-challenge"
      → front ++ b'.' ∷ [] ≡ label ++ b'.' ∷ more
      → is_valid_name name ≡ true
      → challenge_store.values (clock 0) (to_lower_ascii name) s ≡ ok vs
      → challenge_store.add now (to_lower_ascii name) challenge ttl s ≡ (none, s')
      → clock 0 < expiry now ttl
      → let qname = front ++ b'.' ∷ (name ++ b'.' ∷ zone) in
        generate_records data_store challenge_store utc clock type_txt qname zone s'
        ≡ ok (txt_records qname (vs ++ challenge ∷ []), true)
  generate_records-add now ttl label more front name zone challenge vs s s' law low begins valid
        before added time =
      let key = to_lower_ascii name in
      let after : challenge_store.values (clock 0) key s' ≡ ok (vs ++ challenge ∷ []) =
        law.values-add (clock 0) now ttl key key challenge s s' added
        ∙ rw (bytes_eq_refl key, before, lt→ltb (clock 0) (expiry now ttl) time) refl in
      generate_records-query label more front name zone s' low begins valid ∙ rw (after) refl
