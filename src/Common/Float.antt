-- ===== src/Common/Float.antt =====
-- Go's `float64` by its 64 bits: the order of IEEE 754 is defined here; arithmetic is a parameter
-- (`Runtime`).
use Prim.Native.Nat.{ℕ, ◌+◌, ◌-◌, ◌%◌}
use mathlib.Core.Path.{◌≡◌, refl}
use mathlib.Core.Bool.{Bool, true, false, not, ◌&&◌}
use native.Mathlib.Omega.{arith}
use llm_agent_memory.Common.Tests.{ltb, leb, ◌==◌, if◌then◌else◌}

abbrev pub Float64 : Type 0
Float64 = ℕ

-- The bits of 0, of 1 and of the weights in the score formulas.
abbrev pub zero_float : Float64
zero_float = 0

abbrev pub one_float : Float64
one_float = 0x3ff0000000000000

abbrev pub float_0_7 : Float64
float_0_7 = 0x3fe6666666666666

abbrev pub float_0_3 : Float64
float_0_3 = 0x3fd3333333333333

abbrev pub float_0_8 : Float64
float_0_8 = 0x3fe999999999999a

abbrev pub float_0_2 : Float64
float_0_2 = 0x3fc999999999999a

abbrev pub float_0_4 : Float64
float_0_4 = 0x3fd999999999999a

unfoldable pub is_nan : Float64 → Bool
is_nan a = ltb 0x7ff0000000000000 (a % 0x8000000000000000)

-- The place of a number that is no NaN among all such; the two zeros share one place.
unfoldable pub float_rank : Float64 → ℕ
float_rank a =
    let magnitude = a % 0x8000000000000000 in
    if leb 0x8000000000000000 a
    then 0x8000000000000000 - magnitude
    else 0x8000000000000000 + magnitude

-- `a < b` and `a == b`, which fail at a NaN.
unfoldable pub float_lt : Float64 → Float64 → Bool
float_lt a b = not (is_nan a) && not (is_nan b) && ltb (float_rank a) (float_rank b)

unfoldable pub float_eq : Float64 → Float64 → Bool
float_eq a b = not (is_nan a) && not (is_nan b) && float_rank a == float_rank b

-- `a <= b`
unfoldable pub float_le : Float64 → Float64 → Bool
float_le a b = not (is_nan a) && not (is_nan b) && leb (float_rank a) (float_rank b)

-- `-a`, by the sign bit.
unfoldable pub float_neg : Float64 → Float64
float_neg a = if leb 0x8000000000000000 a then a - 0x8000000000000000 else a + 0x8000000000000000

pub float_lt_irrefl : (a : Float64) → float_lt a a ≡ false
unfolding float_lt
float_lt_irrefl a = ground arith

pub float_lt_asym : (a b : Float64) → float_lt a b ≡ true → float_lt b a ≡ false
unfolding float_lt
float_lt_asym a b h = ground arith

pub float_lt_trans :
    (a b c : Float64) → float_lt a b ≡ true → float_lt b c ≡ true → float_lt a c ≡ true
unfolding float_lt
float_lt_trans a b c h k = ground arith

-- Among numbers that are no NaN, "not less" is transitive.
pub float_lt_incomp_trans :
    (a b c : Float64)
    → is_nan b ≡ false
    → float_lt b a ≡ false
    → float_lt c b ≡ false
    → float_lt c a ≡ false
unfolding float_lt
float_lt_incomp_trans a b c n h k = ground arith

pub float_eq_of_not_lt :
    (a b : Float64)
    → is_nan a ≡ false
    → is_nan b ≡ false
    → float_lt a b ≡ false
    → float_lt b a ≡ false
    → float_eq a b ≡ true
unfolding float_lt float_eq
float_eq_of_not_lt a b n m h k = ground arith

-- `if x < 0 { x = 0 }; if x > 1 { x = 1 }`
unfoldable pub clamp_unit : Float64 → Float64
clamp_unit x =
    let x' = if float_lt x zero_float then zero_float else x in
    if float_lt one_float x' then one_float else x'

pub zero-lt-one : float_lt zero_float one_float ≡ true
unfolding float_lt is_nan float_rank
zero-lt-one = refl

-- No clamped number lies outside the unit interval (a NaN lies nowhere).
pub clamp_unit_bounds :
    (x : Float64)
    → (float_lt (clamp_unit x) zero_float ≡ false) × (float_lt one_float (clamp_unit x) ≡ false)
unfolding clamp_unit
clamp_unit_bounds x = ground (
  arith,
  float_lt_irrefl zero_float,
  float_lt_irrefl one_float,
  zero-lt-one,
  float_lt_asym zero_float one_float zero-lt-one,
)

-- Clamping again changes nothing.
pub clamp_unit_idem : (x : Float64) → clamp_unit (clamp_unit x) ≡ clamp_unit x
unfolding clamp_unit
clamp_unit_idem x = ground (
  arith,
  float_lt_irrefl zero_float,
  float_lt_irrefl one_float,
  zero-lt-one,
  float_lt_asym zero_float one_float zero-lt-one,
)
