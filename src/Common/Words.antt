-- ===== src/Common/Words.antt =====
-- 32-bit machine integers. An `int32_t` is its bit pattern, a number below 2 ^ 32; sums wrap.
use Prim.Native.Nat.{ℕ, ◌+◌, ◌-◌, ◌%◌, ◌<◌}
use mathlib.Core.Path.{◌≡◌}
use mathlib.Core.Bool.{Bool, true, false, ◌&&◌}
use native.Mathlib.Omega.{arith}
use sakura_mqtt.Common.Tests.{ltb, leb, if◌then◌else◌}

abbrev pub u8_mod : ℕ
u8_mod = 256

abbrev pub u16_mod : ℕ
u16_mod = 65536

abbrev pub u64_mod : ℕ
u64_mod = 18446744073709551616

abbrev pub u32_mod : ℕ
u32_mod = 4294967296

abbrev pub i32_bound : ℕ
i32_bound = 2147483648

abbrev pub add32 : ℕ → ℕ → ℕ
add32 a b = (a + b) % u32_mod

-- The pattern of -n.
abbrev pub minus : ℕ → ℕ
minus n = u32_mod - n

abbrev pub is_neg : ℕ → Bool
is_neg w = leb i32_bound w

abbrev pub is_positive : ℕ → Bool
is_positive w = ltb 0 w && ltb w i32_bound

-- `a < b` on int32_t: adding 2 ^ 31 turns the signed order into the unsigned one.
abbrev pub slt : ℕ → ℕ → Bool
slt a b = ltb ((a + i32_bound) % u32_mod) ((b + i32_bound) % u32_mod)

-- Signed integers, for values that leave a function: `negsuc n` is -(n + 1).
pub data ℤ : Type 0 where
  pos : ℕ → ℤ
  negsuc : ℕ → ℤ

abbrev pub is_negative : ℤ → Bool
is_negative (pos n) = false
is_negative (negsuc n) = true

-- The sign extension of an `int8_t`.
abbrev pub signed8 : ℕ → ℤ
signed8 b = if ltb b 128 then pos b else negsuc (255 - b)

-- On non-negative values the signed order is the usual one.
pub slt-ltb : (a b : ℕ) → a < i32_bound → b < i32_bound → slt a b ≡ ltb a b
slt-ltb a b ha hb = ground arith
