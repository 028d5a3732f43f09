-- ===== src/Odoh/Exchange/Responses.antt =====
-- A response from the target back to the client.
use mathlib.Core.Path.{fun_ext}
use addr_tools.Prelude.{
  ltb, if◌then◌else◌, length, Bytes, ok, err, map_ok, >>=-eq-ok, >>=-ok, map_ok-if, ◌≤◌, ◌≡◌, sym,
  ap, ◌∙◌, ◌&&◌, some,
}
use addr_tools.Odoh.Wire.{malformed}
use addr_tools.Odoh.Messages.{Message, message_type_response}
use addr_tools.Odoh.Plaintexts
use addr_tools.Odoh.Plaintexts.{parse_plaintext, is_zeros}
use addr_tools.Odoh.Plaintexts.RoundTrip.{parse_plaintext-marshal}
use addr_tools.Odoh.Exchange.{
  Crypto, resp_nonce_len, check_field, response_aad, QueryContext, PendingQuery,
  derive_response_secrets, encrypt_response, decrypt_response, IsCorrect,
}
use addr_tools.Odoh.Exchange.RoundTrip.{check_field_inv, Agrees}

module _ {Priv HpkePriv Pub Sender Recipient : Type 0}
    (C : Crypto Priv HpkePriv Pub Sender Recipient) where
  -- What a successful EncryptResponse did.
  record Answered (qc : QueryContext Recipient) (response padding nonce : Bytes) (m : Message)
      : Type 0 where
    secrets : Bytes × Bytes
    ct : Bytes
    derived :
        derive_response_secrets C (C.recipient_export qc.recipient) qc.query_plain nonce
        ≡ ok secrets
    sealed :
        C.gcm_seal secrets.0 secrets.1
          (response_aad nonce)
          (Plaintexts.marshal (record { dns_message = response; padding = padding }))
        ≡ ok ct
    framed : m ≡ record { kind = message_type_response; key_id = nonce; encrypted = ct }
    response_fits : length response ≤ 65535
    padding_fits : length padding ≤ 65535

  encrypt_response_inv :
      (qc : QueryContext Recipient) (response padding nonce : Bytes) (m : Message)
      → encrypt_response C (some qc) response padding (ok nonce) ≡ ok m
      → Answered qc response padding nonce m
  unfolding encrypt_response
  encrypt_response_inv qc response padding nonce m e =
      let (u, e1, k1) = >>=-eq-ok (check_field (length response)) _ e in
      let (v, e2, k2) = >>=-eq-ok (check_field (length padding)) _ k1 in
      let (secrets, e4, k4) =
        >>=-eq-ok (derive_response_secrets C (C.recipient_export qc.recipient) qc.query_plain nonce)
          _ k2 in
      let (ct, e5, k5) = >>=-eq-ok (C.gcm_seal secrets.0 secrets.1 (response_aad nonce) _) _ k4 in
      record {
        secrets = secrets;
        ct = ct;
        derived = e4;
        sealed = e5;
        framed = cc;
        response_fits = check_field_inv (length response) u e1;
        padding_fits = check_field_inv (length padding) v e2;
      }

  decrypt_response_framed :
      (pq : PendingQuery Sender) (nonce ct plain : Bytes) (secrets : Bytes × Bytes)
      → length nonce ≡ resp_nonce_len
      → derive_response_secrets C (C.sender_export pq.sender) pq.query_plain nonce ≡ ok secrets
      → C.gcm_open secrets.0 secrets.1 (response_aad nonce) ct ≡ ok plain
      → decrypt_response C
          (some pq)
          (record { kind = message_type_response; key_id = nonce; encrypted = ct })
        ≡ map_ok (λ p. p.dns_message) (parse_plaintext plain)
  unfolding decrypt_response
  decrypt_response_framed pq nonce ct plain secrets hn e1 e2 =
      rw (hn, e1, e2) (>>=-ok (λ p. p.dns_message) (parse_plaintext plain))

  -- The client reads what the target answered, on a nonce of 16 bytes, if the two sides hold the
  -- same query and export the same secrets and the cryptographic libraries are correct. It gets
  -- the response back if the response is not empty and its padding is zeros, and the error for a
  -- malformed message otherwise.
  pub response_round_trip :
      IsCorrect C
      → (pq : PendingQuery Sender) (qc : QueryContext Recipient) (response padding nonce : Bytes)
        (m : Message)
      → Agrees C pq qc
      → length nonce ≡ resp_nonce_len
      → encrypt_response C (some qc) response padding (ok nonce) ≡ ok m
      → decrypt_response C (some pq) m
        ≡ (if ltb 0 (length response) && is_zeros padding then ok response else err malformed)
  response_round_trip law pq qc response padding nonce m (plain, export) hn e =
      let a = encrypt_response_inv qc response padding nonce m e in
      let p : Plaintexts.Plaintext = record { dns_message = response; padding = padding } in
      let same = fun_ext (λ label. fun_ext (λ n. export label n)) in
      let derived =
        ap (λ f. derive_response_secrets C f pq.query_plain nonce) same
        ∙ ap (λ b. derive_response_secrets C (C.recipient_export qc.recipient) b nonce) (sym plain)
        ∙ a.derived in
      ap (decrypt_response C (some pq)) a.framed
      ∙ decrypt_response_framed pq nonce a.ct (Plaintexts.marshal p) a.secrets hn derived (
          law.gcm a.secrets.0 a.secrets.1 (response_aad nonce) (Plaintexts.marshal p) a.ct a.sealed)
      ∙ ap (map_ok (λ q. q.dns_message)) (parse_plaintext-marshal p a.response_fits a.padding_fits)
      ∙ map_ok-if (λ q. q.dns_message) (ltb 0 (length response) && is_zeros padding) p malformed
