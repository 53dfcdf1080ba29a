-- ===== src/Common/Int.antt =====
-- Signed integers over the native numbers (Go's `int` and `time.Duration`), under the library's
-- names.
use Prim.Native.Nat.{ℕ, zero, suc, ◌+◌, ◌-◌, min}
use mathlib.Core.Bool.{Bool, not}
use llm_agent_memory.Common.Tests.{ltb, leb, if◌then◌else◌}

-- `negsuc n` is -(n + 1).
pub data ℤ : Type 0 where
  pos : ℕ → ℤ
  negsuc : ℕ → ℤ

abbrev pos_part : ℤ → ℕ
pos_part (pos n) = n
pos_part (negsuc n) = 0

abbrev neg_part : ℤ → ℕ
neg_part (pos n) = 0
neg_part (negsuc n) = suc n

abbrev pub sub_ℕ : ℕ → ℕ → ℤ
sub_ℕ a b = if leb b a then pos (a - b) else negsuc (b - a - 1)

abbrev pub ltb_ℤ : ℤ → ℤ → Bool
ltb_ℤ a b = ltb (pos_part a + neg_part b) (pos_part b + neg_part a)

abbrev pub leb_ℤ : ℤ → ℤ → Bool
leb_ℤ a b = not (ltb_ℤ b a)

-- `if k <= 0 { k = d }`, after which `k` is a positive number.
abbrev pub positive_or : ℕ → ℤ → ℕ
positive_or d (pos zero) = d
positive_or d (pos (suc n)) = suc n
positive_or d (negsuc n) = d

-- A time difference that does not fit an int64 is cut off at the nearest end (`time.Time.Sub`).
unfoldable pub saturated : ℤ → ℤ
saturated (pos n) = pos (min n 0x7fffffffffffffff)
saturated (negsuc n) = negsuc (min n 0x7fffffffffffffff)

-- `now.Sub(then)`
unfoldable pub time_sub : ℕ → ℕ → ℤ
unfolding saturated
time_sub now then' = saturated (sub_ℕ now then')
