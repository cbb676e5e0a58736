-- ===== src/Shared/Int.antt =====
-- The signed 32-bit integers of the program (`c_int`), as integers over the native numbers.
use Prim.Native.Nat.{ℕ, zero, suc, ◌<◌}
use ptraf.Shared.Tests.{◌==◌, if◌then◌else◌}

-- `negsuc n` is -(n + 1).
pub data ℤ : Type 0 where
  pos : ℕ → ℤ
  negsuc : ℕ → ℤ

-- 2 ^ 31 and 2 ^ 32.
abbrev pub i32_min_abs : ℕ
i32_min_abs = 2147483648

abbrev pub u32_mod : ℕ
u32_mod = 4294967296

-- The range of an `i32`.
abbrev pub IsI32 : ℤ → Type 0
IsI32 (pos n) = n < i32_min_abs
IsI32 (negsuc n) = n < i32_min_abs

-- `-x` on an `i32`, which wraps at the least value.
unfoldable pub neg_i32 : ℤ → ℤ
neg_i32 (pos n) = elim n [ zero ↦ pos 0 | suc m ↦ negsuc m ]
neg_i32 (negsuc n) = if suc n == i32_min_abs then negsuc n else pos (suc n)
