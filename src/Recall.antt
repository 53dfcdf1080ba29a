-- ===== src/Recall.antt =====
-- memory/recall_engine.go, memory/parallel_search.go and memory/unified_search.go: searches of
-- several tiers at once, whose results are merged, freed of duplicates, sorted and cut off.
pub mod Engine
pub mod Unified
pub mod Merging
pub mod Ranking
pub mod Kept
pub mod Asked
pub mod Whole
pub mod Outcomes
use llm_agent_memory.Common.{
  ◌≡◌, ℕ, suc, ◌+◌, ℤ, Bool, true, not, ◌&&◌, none, some, Option, List, [], ◌∷◌, ◌++◌, map, Text,
  text_eq, text_lt, Float64, float_lt, float_eq, Runtime, if◌then◌else◌,
}
use llm_agent_memory.Errors.{
  Error, Result, ok, err, wrapped, is_kind_disabled, parallel_manager_required,
}
use llm_agent_memory.Contract.{Kind, working, episodic, semantic, MemoryItem, SearchResult}
use llm_agent_memory.Manager.{Manager, Method, kinds}
use llm_agent_memory.Manager
use llm_agent_memory.Manager.FanOut.{KindMap, lookup_kind}
use llm_agent_memory.Observing.{Observer, Config, ConfigOption, new_config}

-- The answers of the goroutines, one for each task, in the order in which they ran.
abbrev pub Answers : Type 0
Answers = List (Kind × Result (List SearchResult))

module _ {W : Type 0} where
  -- Each goroutine searches one tier; a search is one step on the world.
  unfoldable pub run_searches : Manager W → Text → List (Kind × ℤ) → W → Answers × W
  run_searches m query [] w = ([], w)
  run_searches m query ((k, limit) ∷ tasks) w =
      let (r, w') = Manager.search m k query limit w in
      let (answers, w'') = run_searches m query tasks w' in ((k, r) ∷ answers, w'')

-- The loop over the channel: a disabled tier is left out, any other error ends it.
unfoldable pub collect :
    Answers → KindMap (List SearchResult) → Result (KindMap (List SearchResult))
unfolding is_kind_disabled
collect [] out = ok out
collect ((k, ok results) ∷ rest) out = collect rest (out ++ (k, results) ∷ [])
collect ((k, err e) ∷ rest) out =
    let others = collect rest out in if is_kind_disabled e then others else err (wrapped e)

module _ {W : Type 0} (rt : Runtime) where
  unfoldable pub search_tiers :
      Manager W → Text → List (Kind × ℤ) → Method W (KindMap (List SearchResult))
  unfolding run_searches collect
  search_tiers m query tasks w =
      let (answers, w') = run_searches m query (rt.interleave tasks) w in
      (collect (rt.interleave answers) [], w')

  unfoldable pub search_all_parallel : Manager W → Text → ℤ → Method W (KindMap (List SearchResult))
  unfolding search_tiers
  search_all_parallel m query top_k = search_tiers m query (map (λ k. (k, top_k)) kinds)

pub record ParallelSearcher (W : Type 0) : Type 0 where
  pub mgr : Manager W
  pub cfg : Config W

unfoldable pub new_parallel_searcher :
    {W : Type 0} → Option (Manager W) → List (ConfigOption W) → Result (ParallelSearcher W)
new_parallel_searcher none opts = err parallel_manager_required
new_parallel_searcher (some m) opts = ok (record { mgr = m; cfg = new_config opts })

-- A result with the tier that it came from, under the key by which duplicates are found.
abbrev pub Key : Type 0
Key = Text × Text

abbrev pub key_of : SearchResult → Key
key_of r = (r.item.id, r.item.content)

unfoldable pub key_eq : Key → Key → Bool
key_eq (i, a) (j, b) = text_eq i j && text_eq a b

pub record Origin : Type 0 where
  pub result : SearchResult
  pub kind : Kind

abbrev pub Best : Type 0
Best = List (Key × Origin)

-- `prev, ok := best[k]; if !ok || sr.Score > prev.Score { best[k] = sr }`
unfoldable pub keep_best : Kind → SearchResult → Best → Best
unfolding key_eq
keep_best kind r [] = (key_of r, record { result = r; kind = kind }) ∷ []
keep_best kind r ((k, prev) ∷ best) =
    let rest = keep_best kind r best in
    if key_eq k (key_of r)
    then (if float_lt prev.result.score r.score
        then (key_of r, record { result = r; kind = kind }) ∷ best
        else (k, prev) ∷ best)
    else (k, prev) ∷ rest

unfoldable pub keep_best_of : Kind → List SearchResult → Best → Best
unfolding keep_best
keep_best_of kind [] best = best
keep_best_of kind (r ∷ rs) best = keep_best_of kind rs (keep_best kind r best)

abbrev pub results_of : Option (List SearchResult) → List SearchResult
results_of none = []
results_of (some rs) = rs

-- The results of a kind: none where the map has no entry.
abbrev pub results_at : KindMap (List SearchResult) → Kind → List SearchResult
results_at per_kind kind = results_of (lookup_kind kind per_kind)

-- The loop over the kinds, in their canonical order.
unfoldable pub merge_loop : KindMap (List SearchResult) → List Kind → Best → Best
unfolding keep_best_of
merge_loop per_kind [] best = best
merge_loop per_kind (k ∷ ks) best =
    merge_loop per_kind ks (keep_best_of k (results_at per_kind k) best)

-- Score descending, then id ascending.
unfoldable pub ranked_before : SearchResult → SearchResult → Bool
ranked_before a b =
    if not (float_eq a.score b.score) then float_lt b.score a.score else text_lt a.item.id b.item.id

unfoldable pub ranked : Runtime → Best → List SearchResult
ranked rt best = rt.sort ranked_before (map (λ (_, v). v.result) (rt.range best))
