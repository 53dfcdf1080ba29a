-- ===== src/Engines/Ranking.antt =====
-- What the end of a search keeps of the scored items.
use llm_agent_memory.Common.{
  ℕ, ◌≡◌, refl, Bool, false, List, ◌++◌, Permᴰ, All, length, take, drop, min, length-take,
  length-perm, take-append-drop, take_of_length-le, ltb, ltb-false→le, Bool-cases, inl, inr, arith,
  IsSorted, IsStrictWeak, insertion_sort-perm, insertion_sort-IsSorted, float_lt, is_nan,
  float_lt_asym, float_lt_incomp_trans, sym,
}
use llm_agent_memory.Contract.{SearchResult}
use llm_agent_memory.Engines.{sort_desc, best}

abbrev pub higher : SearchResult → SearchResult → Bool
higher a b = float_lt b.score a.score

-- The score is a number.
abbrev pub IsNumber : SearchResult → Type 0
IsNumber r = is_nan r.score ≡ false

higher-IsStrictWeak : IsStrictWeak IsNumber higher
higher-IsStrictWeak = record {
  asym = λ x y px py h. float_lt_asym y.score x.score h;
  incomp_trans = λ x y z px py pz h k. float_lt_incomp_trans z.score y.score x.score py k h;
}

pub sort_desc-perm : (rs : List SearchResult) → Permᴰ (sort_desc rs) rs
unfolding sort_desc
sort_desc-perm rs = insertion_sort-perm higher rs

sort_desc-IsSorted : (rs : List SearchResult) → All IsNumber rs → IsSorted higher (sort_desc rs)
unfolding sort_desc
sort_desc-IsSorted rs n = insertion_sort-IsSorted higher-IsStrictWeak rs n

pub best-take : (top_k : ℕ) (rs : List SearchResult) → best top_k rs ≡ take top_k (sort_desc rs)
unfolding best
best-take top_k rs = elim (Bool-cases (ltb top_k (length (sort_desc rs)))) [
  | inl h ↦ rw (best, h) refl
  | inr h ↦ rw (best, h) (sym (take_of_length-le top_k (sort_desc rs) (ltb-false→le top_k _ h)))
]

-- A search ends with the `topK` best of the scored items, or all if there are fewer: they come with
-- descending scores, and none of the items left out has a higher score than one kept (no score
-- being NaN).
pub best_lem :
    (top_k : ℕ) (rs : List SearchResult)
    → All IsNumber rs
    → (left_out : List SearchResult) × Permᴰ (best top_k rs ++ left_out) rs
      × IsSorted higher (best top_k rs ++ left_out)
      × (length (best top_k rs) ≡ min top_k (length rs))
best_lem top_k rs n =
    let whole = take-append-drop top_k (sort_desc rs) in
    rw (best-take top_k rs) (
      drop top_k (sort_desc rs),
      rw whole (sort_desc-perm rs),
      rw whole (sort_desc-IsSorted rs n),
      omega (arith, length-take top_k (sort_desc rs), length-perm (sort_desc-perm rs)),
    )
