-- ===== src/Dnsutil/Simple/Startup.antt =====
-- Init and initSoaSig of internal/dnsutil/simple.go. Later signatures over the SOA record, which a
-- background loop makes, are not modelled.
use addr_tools.Prelude.{
  head?, Bytes, bytes, Result, ok, err, ℕ, ◌+◌, ◌-◌, ◌*◌, ◌%◌, ◌^◌, false, Option, none, some, List,
  [], ◌∷◌, ◌++◌, map,
}
use addr_tools.Dns.{Rr, Rdata, dnskey_data, class_inet}
use addr_tools.Dnsutil.Dnssec.{DnssecProvider, SignError, RrSet, sign}
use addr_tools.Dnsutil.Simple.{SimpleHandler, record_ttl, soa}

abbrev or_hostmaster : (Bytes → Bytes) → Bytes → Bytes → Bytes
or_hostmaster canonical zone [] = bytes "hostmaster." ++ zone
or_hostmaster canonical zone (c ∷ cs) = canonical (c ∷ cs)

-- The names as Init makes them.
unfoldable pub init_names : {K : Type 0} → (Bytes → Bytes) → SimpleHandler K → SimpleHandler K
init_names canonical h = record h {
  zone = canonical h.zone;
  ns = canonical h.ns;
  more_ns = map canonical h.more_ns;
  host_master_mbox = or_hostmaster canonical (canonical h.zone) h.host_master_mbox;
}

abbrev secure_entry_point : Rdata → Rdata
secure_entry_point (dnskey_data flags protocol algorithm key) = dnskey_data 257 3 algorithm key
secure_entry_point other = other

-- The signing key as Init makes it, the record of the zone's apex.
abbrev pub init_key : {K : Type 0} → (Rr → ℕ) → Bytes → DnssecProvider K → DnssecProvider K
init_key tag zone p =
    let key : Rr = record {
      name = zone;
      class = class_inet;
      ttl = record_ttl;
      rdata = secure_entry_point p.key.rdata;
    } in
    record p { key = key; key_tag = tag key }

-- What stops the program when it starts.
pub data InitError (E : Type 0) : Type 0 where
  bad_private_key : InitError E
  cannot_sign_soa : SignError E → InitError E

-- Init, with CanonicalName, KeyTag and SetPrivKeyBytes as parameters, and the clock at `now`.
module _ {K E : Type 0} (sign_set : Option K → Rr → List Rr → Result E Rr)
    (walk : List RrSet → List RrSet) (canonical : Bytes → Bytes) (tag : Rr → ℕ)
    (set_private_key : Rr → Bytes → Option K) (now : ℕ) where
  abbrev soa_sigs : SimpleHandler K → DnssecProvider K → Result (SignError E) (List Rr)
  soa_sigs h p =
      sign sign_set walk (some p) now ((now + 2 ^ 32 - 3600) % 2 ^ 32)
        ((now + 3600 + 2 * record_ttl) % 2 ^ 32) (soa h none false)

  abbrev init_soa_sig :
      SimpleHandler K
      → DnssecProvider K
      → Result (SignError E) (List Rr)
      → Result (InitError E) (SimpleHandler K)
  init_soa_sig h p (err e) = err (cannot_sign_soa e)
  init_soa_sig h p (ok sigs) = ok (record h { provider = some p; soa_sig = head? sigs })

  abbrev with_private_key :
      SimpleHandler K → DnssecProvider K → Option K → Result (InitError E) (SimpleHandler K)
  with_private_key h p none = err bad_private_key
  with_private_key h p (some k) =
      let p' = record p { private_key = some k } in init_soa_sig h p' (soa_sigs h p')

  abbrev init_provider :
      SimpleHandler K → Option (DnssecProvider K) → Bytes → Result (InitError E) (SimpleHandler K)
  init_provider h none key_bytes = ok h
  init_provider h (some p) key_bytes =
      let p' = init_key tag h.zone p in with_private_key h p' (set_private_key p'.key key_bytes)

  unfoldable pub init : SimpleHandler K → Bytes → Result (InitError E) (SimpleHandler K)
  unfolding init_names soa sign
  init h key_bytes = init_provider (init_names canonical h) h.provider key_bytes
