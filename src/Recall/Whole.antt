-- ===== src/Recall/Whole.antt =====
-- memory/unified_search.go: a unified search, from the call to what it returns.
use llm_agent_memory.Common.{
  ◌≡◌, refl, sym, ℕ, zero, suc, ◌≤◌, ◌⊎◌, inl, inr, ℤ, pos, negsuc, true, List, [], map, Text, All,
  All-mono, length, take, take_of_length-le, positive_or, Runtime, IsLawful, byte_length,
}
use llm_agent_memory.Errors.{Error, Result, ok, err, wrapped, Result-cases}
use llm_agent_memory.Contract.{Kind, SearchResult}
use llm_agent_memory.Manager.{kinds}
use llm_agent_memory.Manager
use llm_agent_memory.Manager.FanOut.{KindMap}
use llm_agent_memory.Observing.{search_total, emit}
use llm_agent_memory.Engines.Ranking.{IsNumber}
use llm_agent_memory.Recall.{search_all_parallel, results_at, merge_loop, ranked}
use llm_agent_memory.Recall.Engine.{total_candidates}
use llm_agent_memory.Recall.Unified.{UnifiedSearcher, search_unified, cut_off}
use llm_agent_memory.Recall.Asked.{search_tiers-Asked}
use llm_agent_memory.Recall.Kept.{IsTop, take-IsTop, headed, length-merged}

cut_off-take :
    (total : ℕ) (top_k : ℤ) (rs : List SearchResult)
    → length rs ≤ total
    → cut_off top_k rs ≡ take (positive_or total top_k) rs
unfolding cut_off
cut_off-take total (pos zero) rs short = sym (take_of_length-le total rs short)
cut_off-take total (negsuc n) rs short = sym (take_of_length-le total rs short)
cut_off-take total (pos (suc k)) rs short = headed (suc k) rs

abbrev pub all_answers :
    {W : Type 0} → Runtime → UnifiedSearcher W → Text → ℤ → W → Result (KindMap (List SearchResult))
all_answers rt u query top_k w =
    (search_all_parallel rt u.mgr query top_k
      (emit u.cfg.observer (search_total (byte_length query)) w)).0

module _ {W : Type 0} (rt : Runtime) (lawful : IsLawful rt) (u : UnifiedSearcher W) (query : Text)
    (top_k : ℤ) (P : Kind → SearchResult → Type 0)
    (holds : (k : Kind) (limit : ℤ) (w : W) (rs : List SearchResult)
      → (Manager.search u.mgr k query limit w).0 ≡ ok rs
      → All (λ q. P k q × IsNumber q) rs)
    (w : W) where
  search_unified_err :
      (x : Error)
      → all_answers rt u query top_k w ≡ err x
      → (search_unified rt u query top_k w).0 ≡ err (wrapped x)
  unfolding search_unified
  search_unified_err x h = rw (search_unified, h) refl

  search_unified_ok :
      (found : KindMap (List SearchResult))
      → all_answers rt u query top_k w ≡ ok found
      → (search_unified rt u query top_k w).0
        ≡ ok (cut_off top_k (ranked rt (merge_loop found kinds [])))
  unfolding search_unified
  search_unified_ok found h = rw (search_unified, h) refl

  answered_well :
      (k : Kind) (q : SearchResult) → (true ≡ true) × (P k q × IsNumber q) → P k q × IsNumber q
  answered_well k q (_, a) = a

  answers-All :
      (found : KindMap (List SearchResult))
      → all_answers rt u query top_k w ≡ ok found
      → All (λ k. All (λ q. P k q × IsNumber q) (results_at found k)) kinds
  unfolding search_all_parallel
  answers-All found h =
      let asked =
        search_tiers-Asked rt lawful u.mgr query (λ k. true) (λ k q. P k q × IsNumber q) holds
          (map (λ k. (k, top_k)) kinds) _ found (refl, (refl, (refl, tt))) h in
      All-mono (λ k. All-mono (answered_well k) (results_at found k)) kinds asked

  -- A unified search returns the error that asking the tiers ends with, or of what they found at
  -- most `topK` results (all if that is not positive), no two with the same id and content, by
  -- descending score and then by id; each has, for a tier, whatever property all results of that
  -- tier's searches have. Every result that a tier found is among them, or a better one of its id
  -- and content is, or they are `topK` of which none has a lower score. (No score is NaN.)
  pub search_unified_lem :
      ((x : Error) × (all_answers rt u query top_k w ≡ err x)
        × ((search_unified rt u query top_k w).0 ≡ err (wrapped x)))
      ⊎ ((found : KindMap (List SearchResult)) × (all_answers rt u query top_k w ≡ ok found)
          × (rs : List SearchResult) × ((search_unified rt u query top_k w).0 ≡ ok rs)
          × IsTop P found (positive_or (total_candidates found kinds) top_k) rs)
  search_unified_lem = elim (Result-cases (all_answers rt u query top_k w)) [
    | inr (x, failed) ↦ inl (x, failed, search_unified_err x failed)
    | inl (found, answered) ↦
        let total : ℕ = total_candidates found kinds in
        let held = answers-All found answered in
        inr (
          found,
          answered,
          cut_off top_k (ranked rt (merge_loop found kinds [])),
          search_unified_ok found answered,
          rw (cut_off-take total top_k _ (length-merged rt lawful P found held))
              (take-IsTop rt lawful P found held (positive_or total top_k)),
        )
  ]
