-- ===== src/Base/Int64.antt =====
-- int64 and uint64 values as bit patterns below 2 ^ 64. Conversions between the two types keep the
-- pattern; sums and differences wrap; signed order is the order of the patterns with the sign bit
-- flipped.
use cloudpebble.Base.Tests.{ltb, if◌then◌else◌}
use Prim.Native.Nat.{ℕ, ◌+◌, ◌-◌, ◌%◌, ◌^◌, ◌<◌}
use mathlib.Core.Bool.{Bool}

abbrev pub word : ℕ
word = 2 ^ 64

-- `math.MaxInt64`
abbrev pub max_int64 : ℕ
max_int64 = 2 ^ 63 - 1

-- the pattern of -1
abbrev pub minus_one : ℕ
minus_one = 2 ^ 64 - 1

abbrev pub add64 : ℕ → ℕ → ℕ
add64 a b = (a + b) % 2 ^ 64

abbrev pub sub64 : ℕ → ℕ → ℕ
sub64 a b = (a + 2 ^ 64 - b) % 2 ^ 64

-- the pattern with its sign bit flipped
abbrev pub biased : ℕ → ℕ
biased a = (a + 2 ^ 63) % 2 ^ 64

-- `a < b` at int64
abbrev pub lt_int64 : ℕ → ℕ → Bool
lt_int64 a b = ltb (biased a) (biased b)

-- A pattern as an integer: non-negative, or a magnitude below zero.
pub data ℤ : Type 0 where
  pos : ℕ → ℤ
  negsuc : ℕ → ℤ

unfoldable pub signed : ℕ → ℤ
signed a = if ltb a (2 ^ 63) then pos a else negsuc (2 ^ 64 - a - 1)

abbrev pub ◌<ℤ◌ : ℤ → ℤ → Type 0
◌<ℤ◌ (pos a) (pos b) = a < b
◌<ℤ◌ (pos a) (negsuc b) = ⊥
◌<ℤ◌ (negsuc a) (pos b) = Unit
◌<ℤ◌ (negsuc a) (negsuc b) = b < a
