-- ===== src/Engines.antt =====
-- What the three engines share: memory/vector_backend.go, `sortDesc` of memory/engine_working.go,
-- and the end of each `Search`. The engines themselves are the child modules.
pub mod Ranking
pub mod Answers
pub mod Eviction
pub mod Working
pub mod Semantic
pub mod Episodic
use llm_agent_memory.Common.{
  ℕ, ℤ, Bool, not, List, [], ◌∷◌, map, Text, Dict, lookup, Float64, float_lt, insertion_sort,
  Runtime, ltb, positive_or, length, take, if◌then◌else◌,
}
use llm_agent_memory.Errors.{Result, ok, err, ◌>>=◌}
use llm_agent_memory.Contract.{Vector, MemoryItem, SearchResult, Contract}
use llm_agent_memory.Store.{Embedder, query_embedding}
use llm_agent_memory.Scoring.{vector_score}
use llm_agent_memory.Snapshots.{vector_of}

pub record VectorCandidate : Type 0 where
  pub item : MemoryItem
  pub similarity : Float64

-- A vector search that the user may supply.
abbrev pub VectorBackend : Type 0
VectorBackend = Text → Dict MemoryItem → Dict Vector → Embedder → Result (List VectorCandidate)

-- The default backend: every item, with its similarity to the query.
unfoldable pub in_memory_candidates : Runtime → VectorBackend
in_memory_candidates rt query items vectors e = do
  qv ← query_embedding e 0 query
  ok (
      map
        (λ (id, it). record {
          item = it;
          similarity = vector_score rt qv (vector_of (lookup id vectors));
        })
        (rt.range items))

-- Highest score first; equal scores keep their order.
unfoldable pub sort_desc : List SearchResult → List SearchResult
unfolding insertion_sort
sort_desc = insertion_sort (λ a b. float_lt b.score a.score)

-- `sortDesc(out)`, and `out[:topK]` if there are more.
unfoldable pub best : ℕ → List SearchResult → List SearchResult
unfolding sort_desc
best top_k results =
    let out = sort_desc results in if ltb top_k (length out) then take top_k out else out
