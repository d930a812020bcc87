-- ===== src/Common/Word.antt =====
-- Go's int64 arithmetic: an int64 is the integer that it stands for, and every operation wraps
-- its result to 64 bits in two's complement.
use Prim.Native.Nat.{ℕ, ◌+◌, ◌-◌, ◌*◌, ◌/◌, ◌%◌, ◌^◌, ◌<◌}
use mathlib.Core.Path.{◌≡◌}
use native.Mathlib.Nat.{add-zero, div-le_self, mod-le}
use native.Mathlib.Omega.{arith}
use adserver.Common.Tests.{ltb, if◌then◌else◌}
use adserver.Common.Int.{ℤ, pos, negsuc, ◌+ℤ◌, ◌*ℤ◌, ◌≤ℤ◌, quot_ℤ, rem_ℤ}

-- The integer that a pattern of 64 bits stands for.
abbrev signed64 : ℕ → ℤ
signed64 n = if ltb n (2 ^ 63) then pos n else negsuc (2 ^ 64 - 1 - n)

unfoldable pub to_int64 : ℤ → ℤ
to_int64 (pos n) = signed64 (n % 2 ^ 64)
to_int64 (negsuc n) = signed64 (2 ^ 64 - 1 - n % 2 ^ 64)

unfoldable pub add64 : ℤ → ℤ → ℤ
add64 a b = to_int64 (a +ℤ b)

unfoldable pub mul64 : ℤ → ℤ → ℤ
mul64 a b = to_int64 (a *ℤ b)

unfoldable pub quot64 : ℤ → ℤ → ℤ
quot64 a b = to_int64 (quot_ℤ a b)

unfoldable pub rem64 : ℤ → ℤ → ℤ
rem64 a b = to_int64 (rem_ℤ a b)

abbrev pub max_int64 : ℤ
max_int64 = pos (2 ^ 63 - 1)

abbrev pub min_int64 : ℤ
min_int64 = negsuc (2 ^ 63 - 1)

-- The integers that an int64 can hold.
abbrev pub IsInt64 : ℤ → Type 0
IsInt64 a = (min_int64 ≤ℤ a) × (a ≤ℤ max_int64)

pub to_int64_id : (a : ℤ) → IsInt64 a → to_int64 a ≡ a
unfolding to_int64
to_int64_id (pos n) h = ground arith
to_int64_id (negsuc n) h = ground arith

pub to_int64-IsInt64 : (a : ℤ) → IsInt64 (to_int64 a)
unfolding to_int64
to_int64-IsInt64 (pos n) = ground arith
to_int64-IsInt64 (negsuc n) = ground arith

pub to_int64-pos : (n : ℕ) → n < 2 ^ 63 → to_int64 (pos n) ≡ pos n
to_int64-pos n h = to_int64_id (pos n) (omega arith)

pub mul64-pos : (a b : ℕ) → a * b < 2 ^ 63 → mul64 (pos a) (pos b) ≡ pos (a * b)
unfolding mul64 ◌*ℤ◌
mul64-pos a b h = ground (arith, to_int64-pos (a * b) h)

pub add64-pos : (a b : ℕ) → a + b < 2 ^ 63 → add64 (pos a) (pos b) ≡ pos (a + b)
unfolding add64 ◌+ℤ◌
add64-pos a b h = ground (arith, to_int64-pos (a + b) h)

pub quot64-pos : (a b : ℕ) → a < 2 ^ 63 → quot64 (pos a) (pos b) ≡ pos (a / b)
unfolding quot64 quot_ℤ
quot64-pos a b h = rw add-zero (to_int64-pos (a / b) (grind (arith, div-le_self)))

pub rem64-pos : (a b : ℕ) → a < 2 ^ 63 → rem64 (pos a) (pos b) ≡ pos (a % b)
unfolding rem64 rem_ℤ
rem64-pos a b h = simp add-zero (to_int64-pos (a % b) (grind (arith, mod-le)))

-- One step of an atomic uint64 counter.
unfoldable pub inc64 : ℕ → ℕ
inc64 n = (n + 1) % 2 ^ 64
