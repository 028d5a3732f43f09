-- ===== src/Tests/Oblivious.antt =====
-- internal/odoh on concrete messages, with a toy in place of the cryptographic libraries.
use addr_tools.Prelude.{drop, replicate, Bytes, ok, err, ◌≡◌, refl, ◌≢◌, some, [], ◌∷◌, ◌++◌, arith}
use addr_tools.Odoh.Wire.{stuck, wire_len, append_uint16, uint16}
use addr_tools.Odoh.Configs
use addr_tools.Odoh.Configs.{ConfigContents, kem_x25519, kdf_sha256, aead_aes128gcm, is_supported}
use addr_tools.Odoh.Configs.RoundTrip.{parse_configs-marshal_configs, parse_configs-ne-stuck}
use addr_tools.Odoh.Messages
use addr_tools.Odoh.Messages.{Message, message_type_query, message_type_response}
use addr_tools.Odoh.Messages.RoundTrip.{parse_message-marshal, marshal-parse_message}
use addr_tools.Odoh.Plaintexts
use addr_tools.Odoh.Plaintexts.{Plaintext, parse_plaintext, is_zeros}
use addr_tools.Odoh.Exchange.{
  Crypto, check_field, QueryContext, PendingQuery, Target, Client, derive_key_id,
  new_target_from_key, derive_response_secrets, decrypt_query, encrypt_response, new_client,
  seal_query, encrypt_query, decrypt_response, IsCorrect,
}
use addr_tools.Odoh.Exchange.Responses.{response_round_trip}
use addr_tools.Odoh.Exchange.RoundTrip.{query_round_trip, Agrees}

abbrev U : Type 0
U = Unit {0}

-- Sealing puts a byte in front; nothing is secret.
abbrev toy : Crypto U U U U U
toy = record {
  extract = λ secret salt. ok secret;
  expand = λ prk info n. ok (replicate n 9);
  public_bytes = λ priv. 4 ∷ 2 ∷ [];
  wrap_private = λ priv. ok tt;
  new_public_key = λ b. ok tt;
  new_sender = λ seed pk info. ok (replicate 32 7, tt);
  hpke_seal = λ snd aad pt. ok (1 ∷ pt);
  sender_export = λ snd label n. ok (replicate n 5);
  new_recipient = λ enc hp info. ok tt;
  hpke_open = λ rcp aad ct. ok (drop 1 ct);
  recipient_export = λ rcp label n. ok (replicate n 5);
  gcm_seal = λ key nonce aad pt. ok pt;
  gcm_open = λ key nonce aad ct. ok ct;
}

toy-IsCorrect : IsCorrect toy
toy-IsCorrect = record {
  hpke_pair = λ priv hp pk seed info enc snd e1 e2 e3.
      (tt, refl, (λ aad pt ct e. (ground arith, ground arith)), (λ label n. refl));
  enc_length = λ pk seed info enc snd e. ground arith;
  gcm = λ key nonce aad pt ct e. ground arith;
}

abbrev contents : ConfigContents
contents = record {
  kem_id = kem_x25519;
  kdf_id = kdf_sha256;
  aead_id = aead_aes128gcm;
  public_key = 4 ∷ 2 ∷ [];
}

abbrev target : Target U
target = record { hpke_priv = tt; contents = contents; key_id = replicate 32 9 }

abbrev client : Client
client = record { config = contents; key_id = replicate 32 9 }

abbrev query : Bytes
query = 10 ∷ 20 ∷ []

abbrev zeros : Bytes
zeros = 0 ∷ 0 ∷ 0 ∷ []

abbrev query_plain : Bytes
query_plain = 0 ∷ 2 ∷ 10 ∷ 20 ∷ 0 ∷ 3 ∷ 0 ∷ 0 ∷ 0 ∷ []

abbrev sent : Message
sent = record {
  kind = message_type_query;
  key_id = replicate 32 9;
  encrypted = replicate 32 7 ++ 1 ∷ query_plain;
}

abbrev pending : PendingQuery U
pending = record { sender = tt; query_plain = query_plain }

abbrev context : QueryContext U
context = record { recipient = tt; query_plain = query_plain }

target_made : new_target_from_key toy tt ≡ ok target
unfolding new_target_from_key derive_key_id
target_made = refl

client_made : new_client toy contents ≡ ok client
unfolding new_client derive_key_id
client_made = refl

query_sent : encrypt_query toy client [] query zeros ≡ ok (sent, pending)
unfolding encrypt_query seal_query check_field Plaintexts.marshal append_uint16 wire_len
query_sent = refl

query_round_trip_example :
    (qc : QueryContext U) × (decrypt_query toy target sent ≡ ok (query, qc)) × Agrees toy pending qc
query_round_trip_example =
    query_round_trip toy toy-IsCorrect tt target client [] query zeros sent pending target_made
      client_made query_sent refl

abbrev answered : Message
answered = record {
  kind = message_type_response;
  key_id = replicate 16 3;
  encrypted = 0 ∷ 1 ∷ 77 ∷ 0 ∷ 1 ∷ 0 ∷ [];
}

response_sent :
    encrypt_response toy (some context) (77 ∷ []) (0 ∷ []) (ok (replicate 16 3)) ≡ ok answered
unfolding encrypt_response derive_response_secrets check_field Plaintexts.marshal append_uint16
    wire_len
response_sent = refl

response_round_trip_example : decrypt_response toy (some pending) answered ≡ ok (77 ∷ [])
response_round_trip_example =
    response_round_trip toy toy-IsCorrect pending context (77 ∷ []) (0 ∷ []) (replicate 16 3)
      answered (refl, λ label n. refl) refl response_sent

abbrev message : Message
message = record { kind = 1; key_id = 1 ∷ 2 ∷ []; encrypted = 3 ∷ [] }

parse_message-marshal_example : Messages.parse_message (Messages.marshal message) ≡ ok message
parse_message-marshal_example = parse_message-marshal message (omega arith) (omega arith)

message_parsed :
    Messages.parse_message (1 ∷ 0 ∷ 1 ∷ 9 ∷ 0 ∷ 1 ∷ 7 ∷ [])
    ≡ ok (record { kind = 1; key_id = 9 ∷ []; encrypted = 7 ∷ [] })
unfolding Messages.parse_message Messages.parse_key_id Messages.parse_encrypted uint16
message_parsed = refl

marshal-parse_message_example :
    Messages.marshal (record { kind = 1; key_id = 9 ∷ []; encrypted = 7 ∷ [] })
    ≡ 1 ∷ 0 ∷ 1 ∷ 9 ∷ 0 ∷ 1 ∷ 7 ∷ []
marshal-parse_message_example =
    marshal-parse_message (1 ∷ 0 ∷ 1 ∷ 9 ∷ 0 ∷ 1 ∷ 7 ∷ [])
      (record { kind = 1; key_id = 9 ∷ []; encrypted = 7 ∷ [] }) (omega arith) message_parsed

abbrev plaintext : Plaintext
plaintext = record { dns_message = 5 ∷ []; padding = 0 ∷ 0 ∷ [] }

parse_configs-marshal_configs_example :
    Configs.parse_configs (Configs.marshal_configs contents) ≡ ok contents
parse_configs-marshal_configs_example =
    parse_configs-marshal_configs contents
      (record {
        kem = omega arith;
        kdf = omega arith;
        aead = omega arith;
        some_key = omega arith;
        key_fits = omega arith;
      })
      refl

parse_configs-ne-stuck_example : Configs.parse_configs (0 ∷ 4 ∷ 0 ∷ 2 ∷ 0 ∷ 9 ∷ []) ≢ err stuck
parse_configs-ne-stuck_example = parse_configs-ne-stuck (0 ∷ 4 ∷ 0 ∷ 2 ∷ 0 ∷ 9 ∷ [])
