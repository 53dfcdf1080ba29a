-- ===== src/Scoring/Tokens.antt =====
-- What the tokens of a text are.
use llm_agent_memory.Common.{◌≡◌, refl, ℕ, true, false, List, [], ◌∷◌, ◌++◌, Text, text_eq, All}
use llm_agent_memory.Scoring.{is_token_char, flush}

-- A token: not empty, and of letters and digits only.
abbrev pub IsWord : Text → Type 0
IsWord = All (λ r. is_token_char r ≡ true)

abbrev pub IsToken : Text → Type 0
IsToken t = (text_eq t [] ≡ false) × IsWord t

abbrev pub joined : List Text → Text
joined [] = []
joined (t ∷ ts) = t ++ joined ts

-- The words of a text, from its first character on: a word ends where the text does or at a
-- character that is no letter or digit, and such a character belongs to no word.
pub data IsSplit : Text → List Text → Type 0 where
  over : IsSplit [] []
  last : {t : Text} → IsToken t → IsSplit t (t ∷ [])
  skip :
      {r : ℕ} {s : Text} {ts : List Text}
      → is_token_char r ≡ false
      → IsSplit s ts
      → IsSplit (r ∷ s) ts
  next :
      (r : ℕ) (t s : Text) {ts : List Text}
      → IsToken t
      → is_token_char r ≡ false
      → IsSplit s ts
      → IsSplit (t ++ r ∷ s) (t ∷ ts)

split_at :
    (r : ℕ) (s cur : Text) (ts : List Text)
    → IsWord cur
    → is_token_char r ≡ false
    → IsSplit s ts
    → IsSplit (cur ++ r ∷ s) (flush cur [] ++ ts)
unfolding text_eq
split_at r s [] ts h e rest = skip e rest
split_at r s (c ∷ cs) ts h e rest = next r (c ∷ cs) s (refl, h) e rest
