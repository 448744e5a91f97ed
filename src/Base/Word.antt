-- ===== src/Base/Word.antt =====
-- `int` and `size_t` on the 32-bit ARM board: both are bit patterns below 2 ^ 32, so that the
-- conversions between them are the identity, and only the order of `int` looks at the sign.
use Prim.Native.Nat.{ℕ, ◌+◌, ◌-◌, ◌*◌, ◌/◌, ◌%◌, ◌^◌}
use mathlib.Core.Bool.{Bool}
use fagprojekt.Base.Tests.{ltb}

abbrev pub add32 : ℕ → ℕ → ℕ
add32 a b = (a + b) % 2 ^ 32

abbrev pub sub32 : ℕ → ℕ → ℕ
sub32 a b = (a + 2 ^ 32 - b) % 2 ^ 32

-- a < b, read as two's complement numbers.
abbrev pub int_lt : ℕ → ℕ → Bool
int_lt a b = ltb (add32 a (2 ^ 31)) (add32 b (2 ^ 31))

-- A port in network order: the two low bytes, the high one first in memory.
abbrev pub htons : ℕ → ℕ
htons n = n % 256 * 256 + n / 256 % 256
