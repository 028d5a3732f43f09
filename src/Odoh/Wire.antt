-- ===== src/Odoh/Wire.antt =====
-- The 16-bit length prefixes that every encoding of internal/odoh/odoh.go is made of.
use addr_tools.Prelude.{
  ltb, if◌then◌else◌, length, drop, Bytes, ℕ, ◌+◌, ◌*◌, ◌/◌, ◌%◌, ◌≤◌, ◌<◌, ◌≡◌, refl, [], ◌∷◌,
  ◌++◌, arith,
}

-- The kinds of error, without their texts; `crypto` stands for an error of a cryptographic library, and
-- `stuck` is no Go value: a loop ran out of fuel.
pub data Error : Type 0 where
  unsupported_suite key_id_mismatch malformed too_long nil_context crypto stuck : Error

abbrev pub max_field : ℕ
max_field = 65535

-- `wireLen`; a Go length is never negative.
unfoldable pub wire_len : ℕ → ℕ
wire_len n = if ltb max_field n then max_field else n

-- binary.BigEndian.AppendUint16
unfoldable pub append_uint16 : Bytes → ℕ → Bytes
append_uint16 b v = b ++ v / 256 % 256 ∷ v % 256 ∷ []

-- binary.BigEndian.Uint16 of the first two bytes; the callers check that they are there.
unfoldable pub uint16 : Bytes → ℕ
uint16 [] = 0
uint16 (hi ∷ []) = 0
uint16 (hi ∷ lo ∷ b) = hi * 256 + lo

-- A field with its length in front, as every Marshal writes it.
abbrev pub field_bytes : Bytes → Bytes
field_bytes v = append_uint16 [] (wire_len (length v)) ++ v

pub uint16-append : (v : ℕ) (rest : Bytes) → v < 65536 → uint16 (append_uint16 [] v ++ rest) ≡ v
unfolding uint16 append_uint16
uint16-append v rest h = omega arith

pub drop-append_uint16 : (v : ℕ) (rest : Bytes) → drop 2 (append_uint16 [] v ++ rest) ≡ rest
unfolding append_uint16
drop-append_uint16 v rest = refl

pub length-append_uint16 :
    (v : ℕ) (rest : Bytes) → length (append_uint16 [] v ++ rest) ≡ length rest + 2
unfolding append_uint16
length-append_uint16 v rest = omega arith

pub append_uint16_lem : (b : Bytes) (v : ℕ) → append_uint16 b v ≡ b ++ append_uint16 [] v
unfolding append_uint16
append_uint16_lem b v = refl

pub wire_len_id : (n : ℕ) → n ≤ 65535 → wire_len n ≡ n
unfolding wire_len
wire_len_id n h = ground arith

pub wire_len-lt : (n : ℕ) → wire_len n < 65536
unfolding wire_len
wire_len-lt n = ground arith
