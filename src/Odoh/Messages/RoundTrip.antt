-- ===== src/Odoh/Messages/RoundTrip.antt =====
-- ParseMessage on what Marshal writes, and on anything that it accepts.
use native.Mathlib.Nat.{min-eq_left}
use addr_tools.Prelude.{
  leb, if◌then◌else◌, length, length-append, take, drop, All, take-append-drop, length-take,
  take-append, drop-append, Bytes, IsByte, ok, err, ℕ, zero, suc, ◌+◌, ◌*◌, ◌≤◌, ◌≡◌, ap, [], ◌∷◌,
  ◌++◌, append_assoc, arith,
}
use addr_tools.Odoh.Wire.{
  malformed, wire_len, append_uint16, uint16, uint16-append, drop-append_uint16,
  length-append_uint16, wire_len_id, wire_len-lt,
}
use addr_tools.Odoh.Messages.{Message, marshal, parse_encrypted, parse_key_id, parse_message}

pub marshal_lem :
    (m : Message)
    → marshal m
      ≡ m.kind ∷ append_uint16 [] (wire_len (length m.key_id))
        ++ (m.key_id ++ (append_uint16 [] (wire_len (length m.encrypted)) ++ m.encrypted))
unfolding marshal append_uint16
marshal_lem m = simp append_assoc

parse_key_id_framed :
    (kind : ℕ) (key_id b : Bytes)
    → length key_id ≤ 65535
    → parse_key_id kind (append_uint16 [] (length key_id) ++ (key_id ++ b))
      ≡ parse_encrypted kind key_id b
unfolding parse_key_id
parse_key_id_framed kind key_id b h =
    rw
      (
        uint16-append (length key_id) (key_id ++ b) (omega arith),
        drop-append_uint16 (length key_id) (key_id ++ b),
        length-append_uint16 (length key_id) (key_id ++ b),
        length-append key_id b,
        take-append key_id b,
        drop-append key_id b,
      )
      (ground arith)

-- The frame of the encrypted part is read back exactly if its length fits; else it is refused.
parse_encrypted_framed :
    (kind : ℕ) (key_id b : Bytes)
    → 1 ≤ length b
    → parse_encrypted kind key_id (append_uint16 [] (wire_len (length b)) ++ b) ≡ (
        if leb (length b) 65535
        then ok (record { kind = kind; key_id = key_id; encrypted = b })
        else err malformed)
unfolding parse_encrypted
parse_encrypted_framed kind key_id b h =
    rw
      (
        uint16-append (wire_len (length b)) b (wire_len-lt (length b)),
        drop-append_uint16 (wire_len (length b)) b,
        length-append_uint16 (wire_len (length b)) b,
      )
      (unfold wire_len in ground arith)

-- ParseMessage reads back a message with a key id of at most 65535 bytes that Marshal wrote, if its
-- encrypted part is not empty and has at most 65535 bytes. A longer encrypted part is cut in its
-- prefix only, and ParseMessage refuses the bytes.
pub parse_message-marshal :
    (m : Message)
    → length m.key_id ≤ 65535
    → 1 ≤ length m.encrypted
    → parse_message (marshal m) ≡ (if leb (length m.encrypted) 65535 then ok m else err malformed)
unfolding parse_message
parse_message-marshal m hk he =
    rw
      (
        marshal_lem m,
        wire_len_id (length m.key_id) hk,
        parse_key_id_framed m.kind m.key_id
            (append_uint16 [] (wire_len (length m.encrypted)) ++ m.encrypted) hk,
      )
      (parse_encrypted_framed m.kind m.key_id m.encrypted he)

append_uint16_bytes :
    (hi lo : ℕ) → IsByte hi → IsByte lo → append_uint16 [] (hi * 256 + lo) ≡ hi ∷ lo ∷ []
unfolding append_uint16
append_uint16_bytes hi lo hh hl = ground arith

uint16-split :
    (b : Bytes)
    → All IsByte b
    → 2 ≤ length b
    → (append_uint16 [] (uint16 b) ++ drop 2 b ≡ b) × (uint16 b ≤ 65535)
unfolding uint16
uint16-split [] h l = absurd (omega arith)
uint16-split (hi ∷ []) h l = absurd (omega arith)
uint16-split (hi ∷ lo ∷ b) h l =
    (rw (append_uint16_bytes hi lo h.0 h.1.0), omega (arith, h.0, h.1.0))

framed-split :
    (b : Bytes)
    → All IsByte b
    → 2 ≤ length b
    → uint16 b ≡ length (drop 2 b)
    → append_uint16 [] (wire_len (length (drop 2 b))) ++ drop 2 b ≡ b
framed-split b h l e =
    rw (wire_len_id (length (drop 2 b)) (omega (arith, e, uint16-split b h l)), ← e)
      (uint16-split b h l).0

parse_encrypted_inv :
    (kind : ℕ) (key_id b : Bytes) (m : Message)
    → All IsByte b
    → parse_encrypted kind key_id b ≡ ok m
    → (m.kind ≡ kind)
      × (m.key_id ≡ key_id)
      × (append_uint16 [] (wire_len (length m.encrypted)) ++ m.encrypted ≡ b)
unfolding parse_encrypted
parse_encrypted_inv kind key_id b m h e =
    (ground arith, ground arith, ground (arith, framed-split b h))

drop-IsByte : (n : ℕ) (b : Bytes) → All IsByte b → All IsByte (drop n b)
drop-IsByte zero b h = h
drop-IsByte (suc n) [] h = tt
drop-IsByte (suc n) (c ∷ b) h = drop-IsByte n b h.1

key_id-split :
    (b : Bytes)
    → All IsByte b
    → 2 ≤ length b
    → uint16 b ≤ length (drop 2 b)
    → append_uint16 [] (wire_len (length (take (uint16 b) (drop 2 b))))
        ++ (take (uint16 b) (drop 2 b) ++ drop (uint16 b) (drop 2 b))
      ≡ b
key_id-split b h l e =
    rw
      (
        take-append-drop (uint16 b) (drop 2 b),
        length-take (uint16 b) (drop 2 b),
        min-eq_left e,
        wire_len_id (uint16 b) (uint16-split b h l).1,
      )
      (uint16-split b h l).0

parse_key_id_inv :
    (kind : ℕ) (b : Bytes) (m : Message)
    → parse_key_id kind b ≡ ok m
    → (2 ≤ length b)
      × (uint16 b ≤ length (drop 2 b))
      × (parse_encrypted kind (take (uint16 b) (drop 2 b)) (drop (uint16 b) (drop 2 b)) ≡ ok m)
unfolding parse_key_id
parse_key_id_inv kind b m e = (ground arith, ground arith, ground arith)

-- ParseMessage accepts no other encoding than the one that Marshal writes: a string of bytes that
-- it accepts is exactly the encoding of the message that it returns.
pub marshal-parse_message :
    (b : Bytes) (m : Message) → All IsByte b → parse_message b ≡ ok m → marshal m ≡ b
marshal-parse_message [] m h e = unfold parse_message in cc
marshal-parse_message (kind ∷ b) m h e =
    let b' : Bytes = drop (uint16 b) (drop 2 b) in
    let (long, fits, r) = parse_key_id_inv kind b m (unfold parse_message in e) in
    let (k, i, f) =
      parse_encrypted_inv kind (take (uint16 b) (drop 2 b)) b' m
        (drop-IsByte (uint16 b) (drop 2 b) (drop-IsByte 2 b h.1)) r in
    rw (marshal_lem m, k, i, f) (ap (λ (t : Bytes). kind ∷ t) (key_id-split b h.1 long fits))
