-- ===== src/Store/Decimal.antt =====
-- The decimal digits that `%d` prints, for a number that is not negative.
use llm_agent_memory.Common.{
  ℕ, zero, suc, ◌+◌, ◌/◌, ◌%◌, ◌≡◌, [], ◌∷◌, ◌++◌, Text, ltb, refl, if◌then◌else◌,
}

-- On fuel: the number of digits left to print is below it.
unfoldable pub digits_from : ℕ → ℕ → Text
digits_from zero n = []
digits_from (suc f) n =
    let rest = digits_from f (n / 10) in
    if ltb n 10 then (48 + n) ∷ [] else rest ++ (48 + n % 10) ∷ []

-- A Go int has at most nineteen digits.
unfoldable pub decimal : ℕ → Text
unfolding digits_from
decimal n = digits_from 20 n

decimal_1234 : decimal 1234 ≡ 49 ∷ 50 ∷ 51 ∷ 52 ∷ []
unfolding decimal
decimal_1234 = refl
