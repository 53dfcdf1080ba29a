-- ===== src/Engines/Semantic.antt =====
-- memory/engine_semantic.go: the semantic memory, searched through a vector backend and by tags.
use llm_agent_memory.Common.{
  ℤ, Bool, not, ◌&&◌, none, some, Option, List, [], map, Text, codes, text_eq, text_in, has_prefix,
  drop, length, trim_space, split_at, cut, any_by, keep_if, Float64, float_0_3, float_0_7, Runtime,
  ltb, positive_or, if◌then◌else◌,
}
use llm_agent_memory.Errors.{Result, ok, err, embedder_required, empty_query, ◌>>=◌}
use llm_agent_memory.Contract.{SearchResult, Contract}
use llm_agent_memory.Store.{Store, Embedder, new_store, snapshot_vectors}
use llm_agent_memory.Scoring.{to_lower, tag_overlap, importance_multiplier, saved_boost_multiplier}
use llm_agent_memory.Engines.{VectorCandidate, VectorBackend, in_memory_candidates, best}

pub record SemanticOptions : Type 0 where
  pub saved_boost : Float64
  pub vector_backend : Option VectorBackend

pub record SemanticMemory : Type 0 where
  pub store : Store
  pub saved_boost : Float64
  pub vector_backend : VectorBackend

-- The backend given, or the default one.
abbrev pub backend_or_default : Runtime → Option VectorBackend → VectorBackend
backend_or_default rt none = in_memory_candidates rt
backend_or_default rt (some b) = b

unfoldable pub new_semantic : Runtime → Option Embedder → SemanticOptions → Result SemanticMemory
new_semantic rt none opts = err embedder_required
new_semantic rt (some e) opts = ok (record {
  store = new_store (codes "sem");
  saved_boost = opts.saved_boost;
  vector_backend = backend_or_default rt opts.vector_backend;
})

unfoldable pub split_csv : Text → List Text
unfolding split_at trim_space
split_csv s = keep_if (λ p. not (text_eq p [])) (map trim_space (split_at b',' s))

-- The text to search for, and the tags of a query that begins with `tag:`.
unfoldable pub parse_tag_prefix : Text → Text × List Text
unfolding has_prefix cut split_csv
parse_tag_prefix query =
    let q = trim_space query in
    let rest = drop 4 q in
    if not (has_prefix (codes "tag:") q) then (query, []) else elim (cut b' ' rest) [
      | none ↦ ([], split_csv rest)
      | some (tags, body) ↦ (trim_space body, split_csv tags)
    ]

module _ (rt : Runtime) (c : Contract) where
  unfoldable pub any_tag_matches : List Text → List Text → Bool
  any_tag_matches want have = any_by (λ t. text_in (to_lower rt t) (map (to_lower rt) want)) have

  -- The candidates that a search ranks.
  unfoldable pub is_found : List Text → VectorCandidate → Bool
  is_found tags candidate =
      not (c.is_disabled candidate.item)
      && not (ltb 0 (length tags) && not (any_tag_matches tags candidate.item.tags))

  unfoldable pub candidate_score : Float64 → List Text → VectorCandidate → Float64
  candidate_score boost tags candidate =
      rt.fmul
        (rt.fmul
          (rt.fadd (rt.fmul candidate.similarity float_0_7)
            (rt.fmul (tag_overlap rt tags candidate.item.tags) float_0_3))
          (importance_multiplier rt candidate.item.importance))
        (saved_boost_multiplier c candidate.item boost)

  unfoldable pub search : Embedder → Text → ℤ → SemanticMemory → Result (List SearchResult)
  unfolding best parse_tag_prefix
  search e query top_k m =
      let (text, tags) = parse_tag_prefix query in
      if text_eq (trim_space query) [] then err empty_query else (do
        candidates ← m.vector_backend text m.store.items (snapshot_vectors m.store) e
        ok (
            best (positive_or 5 top_k) (
              map (λ x. record { item = x.item; score = candidate_score m.saved_boost tags x })
                (keep_if (is_found tags) candidates))))
