-- ===== src/Recall/Unified.antt =====
-- `UnifiedSearcher.SearchUnified`.
use llm_agent_memory.Common.{
  ℤ, pos, zero, suc, negsuc, none, some, Option, List, [], Text, Runtime, ltb, length, take,
  if◌then◌else◌, byte_length,
}
use llm_agent_memory.Errors.{Result, ok, err, wrapped, unified_manager_required}
use llm_agent_memory.Contract.{SearchResult}
use llm_agent_memory.Manager.{Manager, Method, kinds}
use llm_agent_memory.Observing.{search_total, search_hits, emit, Config, ConfigOption, new_config}
use llm_agent_memory.Recall.{search_all_parallel, merge_loop, ranked}

pub record UnifiedSearcher (W : Type 0) : Type 0 where
  pub mgr : Manager W
  pub cfg : Config W

unfoldable pub new_unified_searcher :
    {W : Type 0} → Option (Manager W) → List (ConfigOption W) → Result (UnifiedSearcher W)
new_unified_searcher none opts = err unified_manager_required
new_unified_searcher (some m) opts = ok (record { mgr = m; cfg = new_config opts })

-- `if topK > 0 && len(out) > topK { out = out[:topK] }`
unfoldable pub cut_off : ℤ → List SearchResult → List SearchResult
cut_off (pos zero) out = out
cut_off (negsuc n) out = out
cut_off (pos (suc k)) out = if ltb (suc k) (length out) then take (suc k) out else out

module _ {W : Type 0} (rt : Runtime) where
  unfoldable pub search_unified : UnifiedSearcher W → Text → ℤ → Method W (List SearchResult)
  unfolding search_all_parallel merge_loop ranked cut_off emit
  search_unified u query top_k w =
      let (found, w') =
        search_all_parallel rt u.mgr query top_k
          (emit u.cfg.observer (search_total (byte_length query)) w) in
      elim found [
        | err e ↦ (err (wrapped e), w')
        | ok per_kind ↦
            let out = cut_off top_k (ranked rt (merge_loop per_kind kinds [])) in
            (ok out, emit u.cfg.observer (search_hits (length out)) w')
      ]
