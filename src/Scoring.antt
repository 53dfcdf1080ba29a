-- ===== src/Scoring.antt =====
-- memory/engine_scored_store.go: the score helpers that the engines share, over the runtime's
-- floating-point arithmetic.
pub mod Tokens
use llm_agent_memory.Common.{
  ℕ, suc, pos, Bool, true, false, not, ◌&&◌, ◌||◌, List, [], ◌∷◌, ◌++◌, map, some, none, Text,
  text_eq, text_in, contains_text, Float64, zero_float, one_float, float_0_8, float_0_4, float_le,
  float_eq, float_neg, Runtime, leb, ◌==◌, leb_ℤ, time_sub, length, if◌then◌else◌,
}
use llm_agent_memory.Contract.{Time, Duration, Vector, MemoryItem, Contract}

-- `strings.ToLower`
abbrev pub to_lower : Runtime → Text → Text
to_lower rt = map rt.lower

-- The characters of a token.
unfoldable pub is_token_char : ℕ → Bool
is_token_char r = (leb b'a' r && leb r b'z') || (leb b'0' r && leb r b'9')

-- `flush`
abbrev pub flush : Text → List Text → List Text
flush cur out = if text_eq cur [] then out else out ++ cur ∷ []

-- The loop of `splitTokens`.
unfoldable pub split_loop : Text → Text → List Text → List Text
split_loop [] cur out = flush cur out
split_loop (r ∷ rs) cur out = elim (is_token_char r) [
  | true ↦ split_loop rs (cur ++ r ∷ []) out
  | false ↦ split_loop rs [] (flush cur out)
]

unfoldable pub split_tokens : Runtime → Text → List Text
split_tokens rt s = split_loop (to_lower rt s) [] []

-- The loop of `keywordScore`: each token counts at its first occurrence only.
unfoldable pub keyword_loop : Text → List Text → List Text → ℕ → ℕ × List Text
keyword_loop c [] seen hits = (hits, seen)
keyword_loop c (t ∷ ts) seen hits = elim (text_in t seen) [
  | true ↦ keyword_loop c ts seen hits
  | false ↦ keyword_loop c ts (t ∷ seen) (if contains_text c t then suc hits else hits)
]

module _ (rt : Runtime) where
  unfoldable pub keyword_score : Text → Text → Float64
  keyword_score query content =
      let tokens = split_tokens rt (to_lower rt query) in
      let (hits, seen) = keyword_loop (to_lower rt content) tokens [] 0 in
      elim tokens [
        | [] ↦ zero_float
        | _ ∷ _ ↦ rt.fdiv (rt.of_int (pos hits)) (rt.of_int (pos (length seen)))
      ]

  -- The query tags that the item has, case ignored; a tag given twice counts twice.
  unfoldable pub tag_hits : List Text → List Text → ℕ
  tag_hits item_tags [] = 0
  tag_hits item_tags (t ∷ ts) =
      let rest = tag_hits item_tags ts in
      if text_in (to_lower rt t) (map (to_lower rt) item_tags) then suc rest else rest

  unfoldable pub tag_overlap : List Text → List Text → Float64
  tag_overlap [] item_tags = zero_float
  tag_overlap (t ∷ ts) item_tags =
      rt.fdiv (rt.of_int (pos (tag_hits item_tags (t ∷ ts)))) (rt.of_int (pos (length (t ∷ ts))))

  unfoldable pub importance_multiplier : Float64 → Float64
  importance_multiplier imp = rt.fadd float_0_8 (rt.fmul imp float_0_4)

  unfoldable pub time_decay : Time → Time → Duration → Float64
  time_decay now created half_life =
      let age = time_sub now created in
      if leb_ℤ age (pos 0) || leb_ℤ half_life (pos 0)
      then one_float
      else rt.exp (rt.fdiv (float_neg (rt.of_int age)) (rt.of_int half_life))

  unfoldable pub cosine_loop :
      List ℕ → List ℕ → Float64 → Float64 → Float64 → Float64 × Float64 × Float64
  cosine_loop [] bs dot norm_a norm_b = (dot, norm_a, norm_b)
  cosine_loop (a ∷ as') [] dot norm_a norm_b = (dot, norm_a, norm_b)
  cosine_loop (a ∷ as') (b ∷ bs) dot norm_a norm_b =
      let af = rt.of_float32 a in
      let bf = rt.of_float32 b in
      cosine_loop as' bs (rt.fadd dot (rt.fmul af bf)) (rt.fadd norm_a (rt.fmul af af))
        (rt.fadd norm_b (rt.fmul bf bf))

  unfoldable pub cosine_similarity : List ℕ → List ℕ → Float64
  cosine_similarity a b =
      if length a == 0 || not (length a == length b)
      then zero_float
      else let (dot, norm_a, norm_b) = cosine_loop a b zero_float zero_float zero_float in
        if float_eq norm_a zero_float || float_eq norm_b zero_float
        then zero_float
        else rt.fdiv dot (rt.fmul (rt.sqrt norm_a) (rt.sqrt norm_b))

  -- The elements of a vector; a nil one has none.
  abbrev pub elements : Vector → List ℕ
  elements none = []
  elements (some v) = v

  unfoldable pub vector_score : Vector → Vector → Float64
  vector_score qv iv =
      if length (elements qv) == 0 || length (elements iv) == 0
      then zero_float
      else cosine_similarity (elements qv) (elements iv)

unfoldable pub saved_boost_multiplier : Contract → MemoryItem → Float64 → Float64
saved_boost_multiplier c it boost =
    let boost' = if float_le boost zero_float then one_float else boost in
    if c.is_pinned it || text_eq (c.get_source it) c.user_saved then boost' else one_float
