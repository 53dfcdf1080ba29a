-- ===== src/Engines/Episodic.antt =====
-- memory/engine_episodic.go: the episodic memory, whose scores fade with the age of an item.
use llm_agent_memory.Common.{
  ℕ, ℤ, pos, not, none, some, Option, List, [], map, Text, codes, text_eq, trim_space, keep_if,
  Float64, zero_float, float_0_2, float_0_8, float_le, Runtime, positive_or, if◌then◌else◌,
}
use llm_agent_memory.Errors.{Result, ok, err, embedder_required, empty_query, ◌>>=◌}
use llm_agent_memory.Contract.{Time, Duration, SearchResult, Contract}
use llm_agent_memory.Store.{Store, Embedder, new_store, snapshot_vectors}
use llm_agent_memory.Scoring.{time_decay, importance_multiplier, saved_boost_multiplier}
use llm_agent_memory.Engines.{VectorCandidate, VectorBackend, best}
use llm_agent_memory.Engines.Semantic.{backend_or_default}

pub record EpisodicOptions : Type 0 where
  pub recency_half_life_days : Float64
  pub saved_boost : Float64
  pub vector_backend : Option VectorBackend

pub record EpisodicMemory : Type 0 where
  pub store : Store
  pub recency_half_life_days : Float64
  pub saved_boost : Float64
  pub vector_backend : VectorBackend

-- The bits of 24 and of 30.
abbrev pub float_24 : Float64
float_24 = 0x4038000000000000

abbrev pub float_30 : Float64
float_30 = 0x403e000000000000

abbrev pub hour : ℕ
hour = 3600000000000

unfoldable pub new_episodic : Runtime → Option Embedder → EpisodicOptions → Result EpisodicMemory
new_episodic rt none opts = err embedder_required
new_episodic rt (some e) opts = ok (record {
  store = new_store (codes "epi");
  recency_half_life_days =
      if float_le opts.recency_half_life_days zero_float
      then float_30
      else opts.recency_half_life_days;
  saved_boost = opts.saved_boost;
  vector_backend = backend_or_default rt opts.vector_backend;
})

module _ (rt : Runtime) (c : Contract) (now : Time) where
  abbrev pub half_life : Float64 → Duration
  half_life days = rt.to_duration (rt.fmul (rt.fmul days float_24) (rt.of_int (pos hour)))

  unfoldable pub candidate_score : EpisodicMemory → VectorCandidate → Float64
  candidate_score m candidate =
      rt.fmul
        (rt.fmul
          (rt.fadd (rt.fmul candidate.similarity float_0_8) (
            rt.fmul
              (time_decay rt now candidate.item.created_at (half_life m.recency_half_life_days))
              float_0_2))
          (importance_multiplier rt candidate.item.importance))
        (saved_boost_multiplier c candidate.item m.saved_boost)

  unfoldable pub search : Embedder → Text → ℤ → EpisodicMemory → Result (List SearchResult)
  unfolding best
  search e query top_k m = if text_eq (trim_space query) [] then err empty_query else (do
    candidates ← m.vector_backend query m.store.items (snapshot_vectors m.store) e
    ok (
        best (positive_or 5 top_k) (
          map (λ x. record { item = x.item; score = candidate_score m x })
            (keep_if (λ x. not (c.is_disabled x.item)) candidates))))
