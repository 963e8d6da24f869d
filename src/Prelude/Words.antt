-- ===== src/Prelude/Words.antt =====
-- Machine words of an LP64 target (the Makefiles build with ARCH=arm64) as native numbers: a value
-- of a signed type is its two's complement bit pattern.
use Prim.Native.Nat.{ℕ, ◌+◌, ◌-◌, ◌/◌, ◌%◌, ◌^◌}
use mathlib.Core.Bool.{Bool}
use mad_devicedriver.Prelude.Tests.{ltb, leb, ◌==◌, if◌then◌else◌}

-- `loff_t`, `long`, `size_t`: addition and subtraction wrap (the kernel is built with
-- -fno-strict-overflow, so this holds of the signed types too).
abbrev pub add64 : ℕ → ℕ → ℕ
add64 a b = (a + b) % 2 ^ 64

abbrev pub sub64 : ℕ → ℕ → ℕ
sub64 a b = (a + (2 ^ 64 - b)) % 2 ^ 64

-- `(long long)x` of an `int` or of an `unsigned` assigned to one.
abbrev pub sext32 : ℕ → ℕ
sext32 w = if ltb w (2 ^ 31) then w else w + (2 ^ 64 - 2 ^ 32)

-- `x < 0` of a signed 64-bit pattern.
abbrev pub is_neg64 : ℕ → Bool
is_neg64 a = leb (2 ^ 63) a

-- `a > b`, signed.
abbrev pub sgt64 : ℕ → ℕ → Bool
sgt64 a b = ltb (add64 b (2 ^ 63)) (add64 a (2 ^ 63))

-- `x & (1 << k)`, as a truth value.
abbrev pub test_bit : ℕ → ℕ → Bool
test_bit k x = x / 2 ^ k % 2 == 1
