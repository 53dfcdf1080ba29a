-- ===== src/Common/Environment.antt =====
-- What the code takes from the Go runtime and is not defined here: the order of `range` over a map,
-- the order in which `sort.Slice` leaves elements that compare alike, the case mapping of Unicode,
-- and floating-point arithmetic. The fields after the operations state what Go documents of them.
use Prim.Native.Nat.{ℕ}
use mathlib.Core.Bool.{Bool}
use mathlib.Core.List.{List, Permᴰ}
use llm_agent_memory.Common.Lists.{All}
use llm_agent_memory.Common.Sort.{IsSorted, IsStrictWeak}
use llm_agent_memory.Common.Int.{ℤ}
use llm_agent_memory.Common.Float.{Float64}

pub record Runtime : Type 1 where
  -- `for k, v := range m`
  pub range : {K V : Type 0} → List (K × V) → List (K × V)
  -- the order in which goroutines that run at once take their turns, and in which their answers
  -- arrive in a channel
  pub interleave : {K V : Type 0} → List (K × V) → List (K × V)
  -- `sort.Slice`
  pub sort : {A : Type 0} → (A → A → Bool) → List A → List A
  -- `unicode.ToLower`
  pub lower : ℕ → ℕ
  -- `+`, `*`, `/` on float64, and the conversions from int, from float32 and from Duration
  pub fadd : Float64 → Float64 → Float64
  pub fmul : Float64 → Float64 → Float64
  pub fdiv : Float64 → Float64 → Float64
  pub of_int : ℤ → Float64
  pub of_float32 : ℕ → Float64
  pub to_duration : Float64 → ℤ
  -- `math.Exp` and `math.Sqrt`
  pub exp : Float64 → Float64
  pub sqrt : Float64 → Float64

-- A range visits every entry once and every goroutine runs once; a sort permutes its input, and
-- sorts it where the test is a strict weak order.
pub record IsLawful (rt : Runtime) : Type 1 where
  pub range-perm : {K V : Type 0} (m : List (K × V)) → Permᴰ (rt.range m) m
  pub interleave-perm : {K V : Type 0} (m : List (K × V)) → Permᴰ (rt.interleave m) m
  pub sort-perm : {A : Type 0} (less : A → A → Bool) (xs : List A) → Permᴰ (rt.sort less xs) xs
  pub sort-IsSorted :
      {A : Type 0} (P : A → Type 0) (less : A → A → Bool)
      → IsStrictWeak P less
      → (xs : List A) → All P xs
      → IsSorted less (rt.sort less xs)
