-- ===== src/Odoh/Exchange/RoundTrip.antt =====
-- A query from the client through the target.
use addr_tools.Prelude.{
  length, length-append, take, drop, take-append, drop-append, Bytes, bytes, bytes_eq_iff, Result,
  ok, >>=-eq-ok, ℕ, ◌≤◌, ◌≡◌, refl, sym, ap, ◌∙◌, true, ◌++◌, arith,
}
use addr_tools.Odoh.Wire.{Error}
use addr_tools.Odoh.Configs.{ConfigContents}
use addr_tools.Odoh.Messages.{Message, message_type_query}
use addr_tools.Odoh.Plaintexts
use addr_tools.Odoh.Plaintexts.{parse_plaintext, is_zeros}
use addr_tools.Odoh.Plaintexts.RoundTrip.{parse_plaintext-marshal}
use addr_tools.Odoh.Exchange.{
  Crypto, x25519_enc_len, check_field, query_aad, QueryContext, PendingQuery, Target, Client,
  derive_key_id, new_target_from_key, open_query, decrypt_query, new_client, seal_query,
  encrypt_query, IsCorrect,
}

pub check_field_inv : (n : ℕ) (u : Unit {0}) → check_field n ≡ ok u → n ≤ 65535
unfolding check_field
check_field_inv n u e = ground arith

module _ {Priv HpkePriv Pub Sender Recipient : Type 0}
    (C : Crypto Priv HpkePriv Pub Sender Recipient) where
  new_target_inv :
      (priv : Priv) (t : Target HpkePriv)
      → new_target_from_key C priv ≡ ok t
      → (C.wrap_private priv ≡ ok t.hpke_priv)
        × (derive_key_id C t.contents ≡ ok t.key_id)
        × (t.contents.public_key ≡ C.public_bytes priv)
  unfolding new_target_from_key
  new_target_inv priv t e = (ground arith, ground arith, ground arith)

  new_client_inv :
      (config : ConfigContents) (c : Client)
      → new_client C config ≡ ok c
      → (c.config ≡ config) × (derive_key_id C config ≡ ok c.key_id)
  unfolding new_client
  new_client_inv config c e = (ground arith, ground arith)

  -- What a successful EncryptQuery did.
  record Sealed (c : Client) (seed query padding : Bytes) (msg : Message) (pq : PendingQuery Sender)
      : Type 0 where
    pk : Pub
    enc : Bytes
    ct : Bytes
    keyed : C.new_public_key c.config.public_key ≡ ok pk
    sent : C.new_sender seed pk (bytes "odoh query") ≡ ok (enc, pq.sender)
    plain : pq.query_plain ≡ Plaintexts.marshal (record { dns_message = query; padding = padding })
    sealed : C.hpke_seal pq.sender (query_aad c.key_id) pq.query_plain ≡ ok ct
    framed : msg ≡ record { kind = message_type_query; key_id = c.key_id; encrypted = enc ++ ct }
    query_some : 1 ≤ length query
    query_fits : length query ≤ 65535
    padding_fits : length padding ≤ 65535

  intro-Sealed :
      (c : Client) (seed query padding : Bytes) (msg : Message) (pq : PendingQuery Sender)
      (pk : Pub) (sent : Bytes × Sender) (ct : Bytes)
      → 1 ≤ length query
      → length query ≤ 65535
      → length padding ≤ 65535
      → C.new_public_key c.config.public_key ≡ ok pk
      → C.new_sender seed pk (bytes "odoh query") ≡ ok sent
      → C.hpke_seal sent.1
          (query_aad c.key_id)
          (Plaintexts.marshal (record { dns_message = query; padding = padding }))
        ≡ ok ct
      → ◌≡◌ {A = Result Error (Message × PendingQuery Sender)}
          (ok (
            record { kind = message_type_query; key_id = c.key_id; encrypted = sent.0 ++ ct },
            record {
              sender = sent.1;
              query_plain = Plaintexts.marshal (record { dns_message = query; padding = padding });
            },
          ))
          (ok (msg, pq))
      → Sealed c seed query padding msg pq
  intro-Sealed c seed query padding msg pq pk (enc, snd) ct q1 q2 p2 e1 e2 e3 e4 = record {
    pk = pk;
    enc = enc;
    ct = ct;
    keyed = e1;
    sent = cc;
    plain = cc;
    sealed = cc;
    framed = cc;
    query_some = q1;
    query_fits = q2;
    padding_fits = p2;
  }

  seal_query_inv :
      (c : Client) (seed query padding : Bytes) (msg : Message) (pq : PendingQuery Sender)
      → 1 ≤ length query
      → seal_query C c seed query padding ≡ ok (msg, pq)
      → Sealed c seed query padding msg pq
  unfolding seal_query
  seal_query_inv c seed query padding msg pq some_query e =
      let (u, e1, k1) = >>=-eq-ok (check_field (length query)) _ e in
      let (v, e2, k2) = >>=-eq-ok (check_field (length padding)) _ k1 in
      let (pk, e3, k3) = >>=-eq-ok (C.new_public_key c.config.public_key) _ k2 in
      let (sent, e4, k4) = >>=-eq-ok (C.new_sender seed pk (bytes "odoh query")) _ k3 in
      let (ct, e5, k5) = >>=-eq-ok (C.hpke_seal sent.1 (query_aad c.key_id) _) _ k4 in
      intro-Sealed c seed query padding msg pq pk sent ct some_query
        (check_field_inv (length query) u e1) (check_field_inv (length padding) v e2) e3 e4 e5 k5

  encrypt_query_inv :
      (c : Client) (seed query padding : Bytes) (msg : Message) (pq : PendingQuery Sender)
      → encrypt_query C c seed query padding ≡ ok (msg, pq)
      → Sealed c seed query padding msg pq
  unfolding encrypt_query
  encrypt_query_inv c seed query padding msg pq e =
      seal_query_inv c seed query padding msg pq (ground arith) (ground arith)

  abbrev pub Agrees : PendingQuery Sender → QueryContext Recipient → Type 0
  Agrees pq qc =
      (qc.query_plain ≡ pq.query_plain)
      × ((label : Bytes) (n : ℕ)
          → C.sender_export pq.sender label n ≡ C.recipient_export qc.recipient label n)

  -- The checks of DecryptQuery pass on what the client framed.
  decrypt_query_framed :
      (t : Target HpkePriv) (key_id enc ct : Bytes)
      → key_id ≡ t.key_id
      → length enc ≡ 32
      → 1 ≤ length ct
      → decrypt_query C t
          (record { kind = message_type_query; key_id = key_id; encrypted = enc ++ ct })
        ≡ open_query C t
            (record { kind = message_type_query; key_id = key_id; encrypted = enc ++ ct })
  unfolding decrypt_query
  decrypt_query_framed t key_id enc ct e he hc =
      ground (arith, length-append enc ct, bytes_eq_iff key_id t.key_id)

  open_query_framed :
      (t : Target HpkePriv) (key_id enc ct plain : Bytes) (rcp : Recipient)
      (p : Plaintexts.Plaintext)
      → length enc ≡ 32
      → C.new_recipient enc t.hpke_priv (bytes "odoh query") ≡ ok rcp
      → C.hpke_open rcp (query_aad key_id) ct ≡ ok plain
      → parse_plaintext plain ≡ ok p
      → open_query C t
          (record { kind = message_type_query; key_id = key_id; encrypted = enc ++ ct })
        ≡ ok (p.dns_message, record { recipient = rcp; query_plain = plain })
  unfolding open_query
  open_query_framed t key_id enc ct plain rcp p he e1 e2 e3 =
      let front : take x25519_enc_len (enc ++ ct) ≡ enc =
        ap (λ (n : ℕ). take n (enc ++ ct)) (sym he) ∙ take-append enc ct in
      let back : drop x25519_enc_len (enc ++ ct) ≡ ct =
        ap (λ (n : ℕ). drop n (enc ++ ct)) (sym he) ∙ drop-append enc ct in
      rw (front, back, e1, e2, e3)

  record Opened (t : Target HpkePriv) (query : Bytes) (msg : Message) (pq : PendingQuery Sender)
      : Type 0 where
    pub qc : QueryContext Recipient
    pub opens : decrypt_query C t msg ≡ ok (query, qc)
    pub agrees : Agrees pq qc

  decrypt_query-Sealed :
      IsCorrect C
      → (priv : Priv) (t : Target HpkePriv) (c : Client) (seed query padding : Bytes)
        (msg : Message) (pq : PendingQuery Sender)
      → C.wrap_private priv ≡ ok t.hpke_priv
      → c.config.public_key ≡ C.public_bytes priv
      → c.key_id ≡ t.key_id
      → is_zeros padding ≡ true
      → Sealed c seed query padding msg pq
      → Opened t query msg pq
  decrypt_query-Sealed law priv t c seed query padding msg pq hw hk hid hz s =
      let pair =
        law.hpke_pair priv t.hpke_priv s.pk seed (bytes "odoh query") s.enc pq.sender hw
          (ap (λ b. C.new_public_key b) (sym hk) ∙ s.keyed) s.sent in
      let opened = pair.2 (query_aad c.key_id) pq.query_plain s.ct s.sealed in
      let len = law.enc_length s.pk seed (bytes "odoh query") s.enc pq.sender s.sent in
      let p : Plaintexts.Plaintext = record { dns_message = query; padding = padding } in
      let parsed : parse_plaintext pq.query_plain ≡ ok p =
        ap parse_plaintext s.plain
        ∙ parse_plaintext-marshal p s.query_fits s.padding_fits
        ∙ (let q = s.query_some in ground arith) in
      record {
        qc = record { recipient = pair.0; query_plain = pq.query_plain };
        opens =
            ap (decrypt_query C t) s.framed
            ∙ decrypt_query_framed t c.key_id s.enc s.ct hid len opened.1
            ∙ open_query_framed t c.key_id s.enc s.ct pq.query_plain pair.0 p len pair.1 opened.0
                parsed;
        agrees = (refl, pair.3);
      }

  -- A target made from a private key and a client made from its configuration agree: what the client
  -- encrypts with padding of zeros, the target decrypts to the same query. The two sides then hold the
  -- same query plaintext and export the same secrets. The cryptographic libraries are correct.
  pub query_round_trip :
      IsCorrect C
      → (priv : Priv) (t : Target HpkePriv) (c : Client) (seed query padding : Bytes)
        (msg : Message) (pq : PendingQuery Sender)
      → new_target_from_key C priv ≡ ok t
      → new_client C t.contents ≡ ok c
      → encrypt_query C c seed query padding ≡ ok (msg, pq)
      → is_zeros padding ≡ true
      → (qc : QueryContext Recipient) × (decrypt_query C t msg ≡ ok (query, qc)) × Agrees pq qc
  query_round_trip law priv t c seed query padding msg pq ht hc he hz =
      let (wrapped, target_id, key) = new_target_inv priv t ht in
      let (config, client_id) = new_client_inv t.contents c hc in
      let o =
        decrypt_query-Sealed law priv t c seed query padding msg pq wrapped
          (ap (λ (d : ConfigContents). d.public_key) config ∙ key) (ground arith) hz
          (encrypt_query_inv c seed query padding msg pq he) in
      (o.qc, o.opens, o.agrees)
