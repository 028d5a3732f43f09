-- ===== src/Odoh/Exchange.antt =====
-- The target and the client of internal/odoh (odoh.go, client.go, crypto.go). The cryptographic
-- libraries are a parameter; random bytes are inputs.
pub mod RoundTrip
pub mod Responses
use addr_tools.Prelude.{
  ltb, leb, ◌==◌, if◌then◌else◌, ltb→lt, lt→ltb, leb→le, ==_iff, Bool-cases, Option-cases,
  &&-eq-true, length, length-append, take, drop, replicate, All, all, keep, head?, take-append-drop,
  length-take, length-drop, take-append, drop-append, length-map, length-replicate, length-keep,
  keep-append, take_all, Bytes, IsByte, bytes, bytes_eq, bytes_eq→eq, bytes_eq_refl, bytes_eq_iff,
  has_prefix, has_prefix-append, index_byte, or_here, last_index_byte, cons_first, split_byte, Map,
  lookup, delete, insert, Unique, lookup-delete, lookup-insert, delete-Unique, insert-Unique,
  Result, ok, err, ◌>>=◌, map_ok, >>=-eq-ok, ℤ, pos, negsuc, negate, is_digit, decimal, unsigned,
  atoi, ℕ, zero, suc, ◌+◌, ◌-◌, ◌*◌, ◌/◌, ◌%◌, ◌^◌, ◌≤◌, ◌<◌, String, ◌≡◌, refl, sym, ap, ◌∙◌,
  subst, ◌≢◌, ◌↔◌, ◌⊎◌, inl, inr, Bool, true, false, not, ◌&&◌, ◌||◌, Option, none, some, List, [],
  ◌∷◌, ◌++◌, map, append-nil, append_assoc, arith,
}
use addr_tools.Odoh.Wire.{
  Error, unsupported_suite, key_id_mismatch, malformed, too_long, nil_context, crypto, stuck,
  max_field, wire_len, append_uint16, uint16, field_bytes, uint16-append, drop-append_uint16,
  length-append_uint16, append_uint16_lem, wire_len_id, wire_len-lt,
}
use addr_tools.Odoh.Configs
use addr_tools.Odoh.Configs.{ConfigContents, kem_x25519, kdf_sha256, aead_aes128gcm, is_supported}
use addr_tools.Odoh.Messages
use addr_tools.Odoh.Messages.{Message, message_type_query, message_type_response}
use addr_tools.Odoh.Plaintexts
use addr_tools.Odoh.Plaintexts.{parse_plaintext}

-- crypto/hkdf, crypto/ecdh, crypto/hpke and AES-128-GCM, as far as the package calls them. `Priv` and
-- `Pub` are X25519 keys, `HpkePriv` a private key wrapped for HPKE.
pub record Crypto (Priv HpkePriv Pub Sender Recipient : Type 0) : Type 0 where
  pub extract : Bytes → Bytes → Result Error Bytes
  pub expand : Bytes → Bytes → ℕ → Result Error Bytes
  pub public_bytes : Priv → Bytes
  pub wrap_private : Priv → Result Error HpkePriv
  pub new_public_key : Bytes → Result Error Pub
  pub new_sender : Bytes → Pub → Bytes → Result Error (Bytes × Sender)
  pub hpke_seal : Sender → Bytes → Bytes → Result Error Bytes
  pub sender_export : Sender → Bytes → ℕ → Result Error Bytes
  pub new_recipient : Bytes → HpkePriv → Bytes → Result Error Recipient
  pub hpke_open : Recipient → Bytes → Bytes → Result Error Bytes
  pub recipient_export : Recipient → Bytes → ℕ → Result Error Bytes
  pub gcm_seal : Bytes → Bytes → Bytes → Bytes → Result Error Bytes
  pub gcm_open : Bytes → Bytes → Bytes → Bytes → Result Error Bytes

-- nh, nk, nn, respNonceLen and x25519EncLen
abbrev pub nh : ℕ
nh = 32

abbrev pub nk : ℕ
nk = 16

abbrev pub nn : ℕ
nn = 12

abbrev pub resp_nonce_len : ℕ
resp_nonce_len = 16

abbrev pub x25519_enc_len : ℕ
x25519_enc_len = 32

-- checkField
unfoldable pub check_field : ℕ → Result Error (Unit {0})
check_field n = if ltb max_field n then err too_long else ok tt

-- aadLen
unfoldable pub aad_len : ℕ → ℕ
aad_len n = if ltb 65535 n then 65535 else n

unfoldable pub query_aad : Bytes → Bytes
query_aad key_id = append_uint16 (message_type_query ∷ []) (aad_len (length key_id)) ++ key_id

unfoldable pub response_aad : Bytes → Bytes
response_aad nonce = append_uint16 (message_type_response ∷ []) (aad_len (length nonce)) ++ nonce

pub record QueryContext (Recipient : Type 0) : Type 0 where
  pub recipient : Recipient
  pub query_plain : Bytes

pub record PendingQuery (Sender : Type 0) : Type 0 where
  pub sender : Sender
  pub query_plain : Bytes

pub record Target (HpkePriv : Type 0) : Type 0 where
  pub hpke_priv : HpkePriv
  pub contents : ConfigContents
  pub key_id : Bytes

pub record Client : Type 0 where
  pub config : ConfigContents
  pub key_id : Bytes

module _ {Priv HpkePriv Pub Sender Recipient : Type 0}
    (C : Crypto Priv HpkePriv Pub Sender Recipient) where
  -- ConfigContents.KeyID: the config is the secret, and the salt is empty.
  unfoldable pub derive_key_id : ConfigContents → Result Error Bytes
  derive_key_id c =
      if c.kdf_id == kdf_sha256
      then (do prk ← C.extract (Configs.marshal c) []; C.expand prk (bytes "odoh key id") nh)
      else err unsupported_suite

  unfoldable pub new_target_from_key : Priv → Result Error (Target HpkePriv)
  new_target_from_key priv = do
    hp ← C.wrap_private priv
    let contents : ConfigContents = record {
      kem_id = kem_x25519;
      kdf_id = kdf_sha256;
      aead_id = aead_aes128gcm;
      public_key = C.public_bytes priv;
    }
    key_id ← derive_key_id contents
    ok (record { hpke_priv = hp; contents = contents; key_id = key_id })

  -- deriveResponseSecrets, with the exporter of either side.
  unfoldable pub derive_response_secrets :
      (Bytes → ℕ → Result Error Bytes) → Bytes → Bytes → Result Error (Bytes × Bytes)
  derive_response_secrets export query_plain nonce = do
    secret ← export (bytes "odoh response") nk
    let salt : Bytes = append_uint16 query_plain (aad_len (length nonce)) ++ nonce
    prk ← C.extract secret salt
    key ← C.expand prk (bytes "odoh key") nk
    iv ← C.expand prk (bytes "odoh nonce") nn
    ok (key, iv)

  -- The part of DecryptQuery behind the checks on the message.
  unfoldable pub open_query :
      Target HpkePriv → Message → Result Error (Bytes × QueryContext Recipient)
  open_query t msg = do
    recipient ← C.new_recipient (take x25519_enc_len msg.encrypted) t.hpke_priv (bytes "odoh query")
    plain ← C.hpke_open recipient (query_aad msg.key_id) (drop x25519_enc_len msg.encrypted)
    p ← parse_plaintext plain
    ok (p.dns_message, record { recipient = recipient; query_plain = plain })

  unfoldable pub decrypt_query :
      Target HpkePriv → Message → Result Error (Bytes × QueryContext Recipient)
  decrypt_query t msg =
      if not (msg.kind == message_type_query)
      then err malformed
      else if not (length msg.key_id == length t.key_id) || not (bytes_eq msg.key_id t.key_id)
      then err key_id_mismatch
      else if leb (length msg.encrypted) x25519_enc_len
      then err malformed
      else open_query t msg

  -- EncryptResponse; `nonce` is what rand.Read filled in, or its error.
  unfoldable pub encrypt_response :
      Option (QueryContext Recipient) → Bytes → Bytes → Result Error Bytes → Result Error Message
  encrypt_response none response padding nonce = err nil_context
  encrypt_response (some qc) response padding nonce = do
    _ ← check_field (length response)
    _ ← check_field (length padding)
    n ← nonce
    secrets ← derive_response_secrets (C.recipient_export qc.recipient) qc.query_plain n
    ct ←
        C.gcm_seal secrets.0 secrets.1 (response_aad n)
          (Plaintexts.marshal (record { dns_message = response; padding = padding }))
    ok (record { kind = message_type_response; key_id = n; encrypted = ct })

  unfoldable pub new_client : ConfigContents → Result Error Client
  new_client config =
      if not (is_supported config)
      then err unsupported_suite
      else if length config.public_key == 0
      then err malformed
      else (do key_id ← derive_key_id config; ok (record { config = config; key_id = key_id }))

  -- EncryptQuery behind its first check; `seed` is the randomness of the HPKE sender.
  unfoldable pub seal_query :
      Client → Bytes → Bytes → Bytes → Result Error (Message × PendingQuery Sender)
  seal_query c seed query padding = do
    _ ← check_field (length query)
    _ ← check_field (length padding)
    pub_key ← C.new_public_key c.config.public_key
    sent ← C.new_sender seed pub_key (bytes "odoh query")
    let plain : Bytes = Plaintexts.marshal (record { dns_message = query; padding = padding })
    ct ← C.hpke_seal sent.1 (query_aad c.key_id) plain
    ok (
      record { kind = message_type_query; key_id = c.key_id; encrypted = sent.0 ++ ct },
      record { sender = sent.1; query_plain = plain },
    )

  unfoldable pub encrypt_query :
      Client → Bytes → Bytes → Bytes → Result Error (Message × PendingQuery Sender)
  encrypt_query c seed query padding =
      if length query == 0 then err malformed else seal_query c seed query padding

  unfoldable pub decrypt_response : Option (PendingQuery Sender) → Message → Result Error Bytes
  decrypt_response none msg = err nil_context
  decrypt_response (some pq) msg =
      if not (msg.kind == message_type_response)
      then err malformed
      else if not (length msg.key_id == resp_nonce_len)
      then err malformed
      else (do
        secrets ← derive_response_secrets (C.sender_export pq.sender) pq.query_plain msg.key_id
        plain ← C.gcm_open secrets.0 secrets.1 (response_aad msg.key_id) msg.encrypted
        p ← parse_plaintext plain
        ok p.dns_message)

-- What the documentation of the libraries promises: a recipient set up from what a sender
-- encapsulated opens what the sender seals and exports the same secrets, and GCM opens what it sealed.
pub record IsCorrect {Priv HpkePriv Pub Sender Recipient : Type 0}
    (C : Crypto Priv HpkePriv Pub Sender Recipient) : Type 0 where
  pub hpke_pair :
      (priv : Priv) (hp : HpkePriv) (pk : Pub) (seed info enc : Bytes) (snd : Sender)
      → C.wrap_private priv ≡ ok hp
      → C.new_public_key (C.public_bytes priv) ≡ ok pk
      → C.new_sender seed pk info ≡ ok (enc, snd)
      → (rcp : Recipient) × (C.new_recipient enc hp info ≡ ok rcp)
        × ((aad pt ct : Bytes)
            → C.hpke_seal snd aad pt ≡ ok ct
            → (C.hpke_open rcp aad ct ≡ ok pt) × (1 ≤ length ct))
        × ((label : Bytes) (n : ℕ) → C.sender_export snd label n ≡ C.recipient_export rcp label n)
  pub enc_length :
      (pk : Pub) (seed info enc : Bytes) (snd : Sender)
      → C.new_sender seed pk info ≡ ok (enc, snd)
      → length enc ≡ x25519_enc_len
  pub gcm :
      (key nonce aad pt ct : Bytes)
      → C.gcm_seal key nonce aad pt ≡ ok ct
      → C.gcm_open key nonce aad ct ≡ ok pt
