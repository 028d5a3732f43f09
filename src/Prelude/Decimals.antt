-- ===== src/Prelude/Decimals.antt =====
-- Integers, and strconv.Atoi.
use Prim.Native.Nat.{ℕ, zero, suc, ◌+◌, ◌-◌, ◌*◌, ◌^◌}
use mathlib.Core.Bool.{Bool, ◌&&◌}
use mathlib.Core.List.{[], ◌∷◌}
use addr_tools.Prelude.Tests.{ltb, leb, ◌==◌, if◌then◌else◌}
use addr_tools.Prelude.Lists.{all}
use addr_tools.Prelude.Text.{Bytes}

-- `negsuc n` is -(n + 1).
pub data ℤ : Type 0 where
  pos : ℕ → ℤ
  negsuc : ℕ → ℤ

abbrev pub negate : ℕ → ℤ
negate zero = pos 0
negate (suc n) = negsuc n

abbrev pub is_digit : ℕ → Bool
is_digit c = leb b'0' c && leb c b'9'

unfoldable pub decimal : ℕ → Bytes → ℕ
decimal acc [] = acc
decimal acc (c ∷ s) = decimal (acc * 10 + (c - b'0')) s

-- The value that Atoi returns beside its error: 0 for a syntax error, the nearest int64 out of range.
unfoldable pub unsigned : Bytes → ℕ → ℕ
unsigned [] limit = 0
unsigned (c ∷ s) limit =
    if all is_digit (c ∷ s)
    then (let n = decimal 0 (c ∷ s) in if ltb limit n then limit else n)
    else 0

unfoldable pub atoi : Bytes → ℤ
atoi [] = pos 0
atoi (c ∷ s) =
    if c == b'-'
    then negate (unsigned s (2 ^ 63))
    else if c == b'+'
    then pos (unsigned s (2 ^ 63 - 1))
    else pos (unsigned (c ∷ s) (2 ^ 63 - 1))
