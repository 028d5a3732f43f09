-- ===== src/Zones/Dyn/Updates.antt =====
-- What requests to the dyn API do to the addresses of a domain, and what its records then say.
use addr_tools.Prelude.{
  ltb, if◌then◌else◌, lt→ltb, length, Bytes, bytes, bytes_eq_refl, Result, ok, err, ℕ, ◌^◌, ◌<◌,
  ◌≡◌, refl, sym, ap, ◌∙◌, inl, inr, Bool, true, false, Option, none, some, [], ◌∷◌, ◌++◌,
}
use addr_tools.TtlStore.Contract.{TtlStore, IsLawful, expiry}
use addr_tools.Httputil.{
  Method, get_method, post_method, put_method, delete_method, other_method, Request, Response,
  plain, no_content,
}
use addr_tools.Dnsutil.Strings.{to_lower_ascii}
use addr_tools.Zones.Refusals.{is_refusal, reply-refused, reply-done}
use addr_tools.Zones.Replies.{domain_of, ◌then_call◌}
use addr_tools.Zones.Dyn.{
  AddressRecord, address_ttl, marshal, unmarshal, load_data, ip4_key, ip6_key, load_ipv4, load_ipv6,
  update_ip,
}
use addr_tools.Zones.Dyn.Addresses.{unmarshal-marshal, get-set, get-delete, suffix-ne, suffix-ne'}
use addr_tools.Zones.Dyn.Handler.{act_on, Calls, read_request, delete_addresses, act, serve_http}
use addr_tools.Zones.Dyn.Generator.{
  a, type_a, is_valid_subdomain, subdomain, generate_records, records_of,
}

abbrev pub if_fresh : ℕ → ℕ → AddressRecord → Option AddressRecord
if_fresh t now r = if ltb t (expiry now address_ttl) then some r else none

module _ {S E : Type 0} (T : TtlStore S E) (law : IsLawful T) where
  load_data-fresh :
      (b : Bool) (r : AddressRecord)
      → unmarshal {E = E} (marshal r) ≡ ok r
      → load_data {E = E} unmarshal (ok (if b then some (marshal r) else none))
        ≡ ok (if b then some r else none)
  load_data-fresh true r h = rw h
  load_data-fresh false r h = refl

  -- Over a store that keeps the contract: after UpdateIP of an IPv4 address succeeds, with `now`,
  -- less than 2 ^ 32, the reading for the record and `now'` the store's, LoadIPv4 gives the
  -- address and `now` until its 90 days are over, and LoadIPv6 what it gave before.
  pub load-update_ip4 :
      (t now now' : ℕ) (name ip ip4 : Bytes) (s s' : S)
      → now < 2 ^ 32
      → length ip4 ≡ 4
      → update_ip T (some ip4) now now' name ip s ≡ (none, s')
      → (load_ipv4 T t name s' ≡ ok (if_fresh t now' (record { updated = now; ip = ip4 })))
        × (load_ipv6 T t name s' ≡ load_ipv6 T t name s)
  unfolding update_ip load_ipv4 load_ipv6
  load-update_ip4 t now now' name ip ip4 s s' hn hl e =
      let r : AddressRecord = record { updated = now; ip = ip4 } in
      (
        rw
            (
              get-set T law t now' address_ttl (ip4_key name) (ip4_key name) (marshal r) s s' e,
              bytes_eq_refl (ip4_key name),
            )
            (load_data-fresh (ltb t (expiry now' address_ttl)) r (unmarshal-marshal r hn (inl hl))),
        rw (
          get-set T law t now' address_ttl (ip4_key name) (ip6_key name) (marshal r) s s' e,
          suffix-ne name,
        ),
      )

  -- Over a store that keeps the contract: after UpdateIP of an address of 16 bytes that is not
  -- IPv4 succeeds, with `now`, less than 2 ^ 32, the reading for the record and `now'` the
  -- store's, LoadIPv6 gives the address and `now` until its 90 days are over, and LoadIPv4 what
  -- it gave before.
  pub load-update_ip6 :
      (t now now' : ℕ) (name ip : Bytes) (s s' : S)
      → now < 2 ^ 32
      → length ip ≡ 16
      → update_ip T none now now' name ip s ≡ (none, s')
      → (load_ipv6 T t name s' ≡ ok (if_fresh t now' (record { updated = now; ip = ip })))
        × (load_ipv4 T t name s' ≡ load_ipv4 T t name s)
  unfolding update_ip load_ipv4 load_ipv6
  load-update_ip6 t now now' name ip s s' hn hl e =
      let r : AddressRecord = record { updated = now; ip = ip } in
      (
        rw
            (
              get-set T law t now' address_ttl (ip6_key name) (ip6_key name) (marshal r) s s' e,
              bytes_eq_refl (ip6_key name),
            )
            (load_data-fresh (ltb t (expiry now' address_ttl)) r (unmarshal-marshal r hn (inr hl))),
        rw (
          get-set T law t now' address_ttl (ip6_key name) (ip4_key name) (marshal r) s s' e,
          suffix-ne' name,
        ),
      )

  delete_addresses_inv :
      (C : Calls) (now now' : ℕ) (name : Bytes) (s s' : S)
      → delete_addresses C T now now' name s ≡ (none, s')
      → (m : S) × (T.delete (ip4_key name) s ≡ (none, m)) × (T.delete (ip6_key name) m ≡ (none, s'))
  delete_addresses_inv C now now' name s s' e = step (T.delete (ip4_key name) s) refl e
    where
      step :
          (p : Option E × S)
          → T.delete (ip4_key name) s ≡ p
          → (p then_call T.delete (ip6_key name)) ≡ (none, s')
          → (m : S) × (T.delete (ip4_key name) s ≡ (none, m))
            × (T.delete (ip6_key name) m ≡ (none, s'))
      step (none, m) h k = (m, h, k)
      step (some x, m) h k = cc

module _ (C : Calls) {S E : Type 0} (T : TtlStore S E) (now now' : ℕ) (zone : Bytes) where
  update-refused :
      (domain : Bytes) (ip : Option Bytes) (s : S)
      → is_refusal (act C T now now' put_method domain ip s).0 ≡ true
      → (act C T now now' put_method domain ip s).1 ≡ s
  update-refused domain none s h = cc
  update-refused domain (some ip) s h =
      reply-refused _ (update_ip T (C.to4 ip) now now' domain ip s) s refl h

  act-refused :
      (m : Method) (domain : Bytes) (ip : Option Bytes) (s : S)
      → is_refusal (act C T now now' m domain ip s).0 ≡ true
      → (act C T now now' m domain ip s).1 ≡ s
  act-refused delete_method domain (some ip) s h = refl
  act-refused delete_method domain none s h =
      reply-refused _ (delete_addresses C T now now' domain s) s refl h
  act-refused get_method domain ip s h = update-refused domain ip s h
  act-refused post_method domain ip s h = update-refused domain ip s h
  act-refused put_method domain ip s h = update-refused domain ip s h
  act-refused (other_method m) domain ip s h = update-refused domain ip s h

  act_on-refused :
      (req : Request) (r : Result Response (Bytes × Option Bytes)) (s : S)
      → is_refusal (act_on C T now now' zone req r s).0 ≡ true
      → (act_on C T now now' zone req r s).1 ≡ s
  act_on-refused req (err r) s h = refl
  act_on-refused req (ok (secret, ip)) s h =
      act-refused req.method (domain_of C.sum224_hex zone secret) ip s h

  -- A request to the dyn API that is answered with the status 400 or 405 leaves the store as it was.
  pub serve_http-refused :
      (req : Request) (s : S)
      → is_refusal (serve_http C T now now' zone req s).0 ≡ true
      → (serve_http C T now now' zone req s).1 ≡ s
  unfolding serve_http
  serve_http-refused req s h = act_on-refused req (read_request C req) s h

  served :
      (req : Request) (secret : Bytes) (ip : Option Bytes) (s : S)
      → read_request C req ≡ ok (secret, ip)
      → serve_http C T now now' zone req s
        ≡ act C T now now' req.method (domain_of C.sum224_hex zone secret) ip s
  unfolding serve_http
  served req secret ip s h = ap (λ r. act_on C T now now' zone req r s) h

  deleted :
      IsLawful T
      → (t : ℕ) (name : Bytes) (s m s' : S) → T.delete (ip4_key name) s ≡ (none, m)
      → T.delete (ip6_key name) m ≡ (none, s')
      → (load_ipv4 T t name s' ≡ ok none) × (load_ipv6 T t name s' ≡ ok none)
  unfolding load_ipv4 load_ipv6
  deleted law t name s m s' e4 e6 = (
    rw (
      get-delete T law t (ip6_key name) (ip4_key name) m s' e6,
      suffix-ne' name,
      get-delete T law t (ip4_key name) (ip4_key name) s m e4,
      bytes_eq_refl (ip4_key name),
    ),
    rw (get-delete T law t (ip6_key name) (ip6_key name) m s' e6, bytes_eq_refl (ip6_key name)),
  )

  -- Over a store that keeps the contract, a DELETE that the dyn API answers with 204 leaves the
  -- domain of its secret without addresses.
  pub serve_http-delete :
      IsLawful T
      → (t : ℕ) (req : Request) (secret : Bytes) (s s' : S) → req.method ≡ delete_method
      → read_request C req ≡ ok (secret, none)
      → serve_http C T now now' zone req s ≡ (no_content, s')
      → (load_ipv4 T t (domain_of C.sum224_hex zone secret) s' ≡ ok none)
        × (load_ipv6 T t (domain_of C.sum224_hex zone secret) s' ≡ ok none)
  serve_http-delete law t req secret s s' hm hr e =
      let domain = domain_of C.sum224_hex zone secret in
      let acted : act C T now now' delete_method domain none s ≡ (no_content, s') =
        ap (λ m. act C T now now' m domain none s) (sym hm)
        ∙ sym (served req secret none s hr)
        ∙ e in
      let (m, e4, e6) =
        delete_addresses_inv T law C now now' domain s s'
          (reply-done no_content (delete_addresses C T now now' domain s) s' (λ x. cc) acted) in
      deleted law t domain s m s' e4 e6

  -- Over a store that keeps the contract: once a PUT to the dyn API with an IPv4 address is
  -- answered with OK, an A query for any spelling of the secret's domain is answered with one
  -- record that holds this address, as long as it has not expired. Here the domain is a valid
  -- name of the zone, and the clock reads less than 2 ^ 32.
  pub generate_records-serve_http :
      IsLawful T
      → (utc : ℕ → Bytes) (t t' : ℕ) (req : Request) (secret ip ip4 name : Bytes) (s s' : S)
      → now < 2 ^ 32
      → length ip4 ≡ 4
      → C.to4 ip ≡ some ip4
      → req.method ≡ put_method
      → read_request C req ≡ ok (secret, some ip)
      → serve_http C T now now' zone req s ≡ (plain 200 (bytes "OK" ++ 10 ∷ []), s')
      → to_lower_ascii name ≡ domain_of C.sum224_hex zone secret
      → is_valid_subdomain (subdomain name zone) ≡ true
      → t < expiry now' address_ttl
      → generate_records T utc t t' type_a name zone s' ≡ ok (a name 60 ip4 ∷ [], true)
  generate_records-serve_http law utc t t' req secret ip ip4 name s s' hn hl h4 hm hr e hd hv ht =
      let domain = domain_of C.sum224_hex zone secret in
      let acted : act C T now now' put_method domain (some ip) s
          ≡ (plain 200 (bytes "OK" ++ 10 ∷ []), s') =
        ap (λ m. act C T now now' m domain (some ip) s) (sym hm)
        ∙ sym (served req secret (some ip) s hr)
        ∙ e in
      let stored = reply-done _ (update_ip T (C.to4 ip) now now' domain ip s) s' (λ x. cc) acted in
      let loaded =
        load-update_ip4 T law t now now' domain ip ip4 s s' hn hl
          (ap (λ v. update_ip T v now now' domain ip s) (sym h4) ∙ stored) in
      unfold generate_records records_of in
      rw (hv, hd, loaded.0, lt→ltb t (expiry now' address_ttl) ht)
