-- ===== src/Tests/Recalling.antt =====
-- A recall and a unified search of two tiers that answer at once.
use llm_agent_memory.Common.{
  ℕ, ◌≡◌, refl, subst, ◌+◌, ◌⊎◌, ℤ, pos, true, none, some, List, [], ◌∷◌, codes, All, length,
  is_nan,
}
use llm_agent_memory.Errors.{Error, ok, err, wrapped}
use llm_agent_memory.Contract.{Kind, working, episodic, semantic, SearchResult}
use llm_agent_memory.Manager.{
  Manager, Memory, no_tier, kinds, has_kind, dispatch, require_memory, tier_for,
}
use llm_agent_memory.Manager
use llm_agent_memory.Manager.FanOut.{KindMap}
use llm_agent_memory.Engines.Ranking.{IsNumber}
use llm_agent_memory.Recall.Engine.{
  RecallEngine, RecallOptions, maybe_per_tier, recall, total_candidates, UnifiedRecall,
}
use llm_agent_memory.Recall.Outcomes.{recall_lem, Participates, answers, tiers_of}
use llm_agent_memory.Recall.Kept.{IsTop}
use llm_agent_memory.Recall.Unified.{UnifiedSearcher, search_unified}
use llm_agent_memory.Recall.Whole.{search_unified_lem, all_answers}
use llm_agent_memory.Tests.Fixtures.{rt, rt-IsLawful, first_item, second_item, unnamed_item}
use llm_agent_memory.Tests.Tiers.{memory}

abbrev some_results : List SearchResult
some_results =
    record { item = first_item; score = 1 }
    ∷ record { item = second_item; score = 3 }
    ∷ record { item = unnamed_item; score = 2 }
    ∷ []

abbrev answering : Kind → Memory ℕ
answering kind = record memory { kind = kind; search = λ q k w. (ok some_results, w + 1) }

abbrev mgr : Manager ℕ
mgr = record {
  opts = record {
    working = record no_tier { memory = some (answering Kind.working) };
    episodic = no_tier;
    semantic = record no_tier { memory = some (answering Kind.semantic) };
    snapshot_store = none;
  };
}

abbrev IsDated : Kind → SearchResult → Type 0
IsDated k r = r.item.accessed_at ≡ 0

ok_inj : {A : Type 0} {a b : A} → ok a ≡ ok b → a ≡ b
ok_inj h = cc h

some_results-IsDated : All (λ q. IsDated working q × IsNumber q) some_results
unfolding is_nan
some_results-IsDated = ((refl, refl), ((refl, refl), ((refl, refl), tt)))

found-IsDated :
    (k : Kind) (limit : ℤ) (w : ℕ) (rs : List SearchResult)
    → (Manager.search mgr k (codes "x") limit w).0 ≡ ok rs
    → All (λ q. IsDated k q × IsNumber q) rs
unfolding Manager.search is_nan
found-IsDated working limit w rs e = subst (All _) (ok_inj e) some_results-IsDated
found-IsDated episodic limit w rs e = cc e
found-IsDated semantic limit w rs e = subst (All _) (ok_inj e) some_results-IsDated
found-IsDated (Kind.unlisted t) limit w rs e = cc e

abbrev engine : RecallEngine ℕ
engine = record { mgr = mgr; cfg = record { observer = none } }

-- The best two of the working and the semantic tier.
abbrev opts : RecallOptions
opts = record { top_k = pos 2; tiers = 0; budgets = []; include_provenance = true }

recall_lem_example :
    ((tiers_of engine opts ≡ [])
      × ((recall rt engine (codes "x") opts 0).0
          ≡ ok (record { results = []; per_tier = maybe_per_tier opts; total_dropped = 0 })))
    ⊎ ((x : Error) × (answers engine opts rt (codes "x") 0 ≡ err x)
        × ((recall rt engine (codes "x") opts 0).0 ≡ err x))
    ⊎ ((found : KindMap (List SearchResult)) × (answers engine opts rt (codes "x") 0 ≡ ok found)
        × (out : UnifiedRecall) × ((recall rt engine (codes "x") opts 0).0 ≡ ok out)
        × IsTop (Participates engine opts IsDated) found 2 out.results
        × (out.total_dropped + length out.results ≡ total_candidates found kinds))
recall_lem_example = recall_lem rt rt-IsLawful engine (codes "x") opts IsDated found-IsDated 0

abbrev searcher : UnifiedSearcher ℕ
searcher = record { mgr = mgr; cfg = record { observer = none } }

search_unified_lem_example :
    ((x : Error) × (all_answers rt searcher (codes "x") (pos 2) 0 ≡ err x)
      × ((search_unified rt searcher (codes "x") (pos 2) 0).0 ≡ err (wrapped x)))
    ⊎ ((found : KindMap (List SearchResult)) × (all_answers rt searcher (codes "x") (pos 2) 0
          ≡ ok found)
        × (rs : List SearchResult) × ((search_unified rt searcher (codes "x") (pos 2) 0).0 ≡ ok rs)
        × IsTop IsDated found 2 rs)
search_unified_lem_example =
    search_unified_lem rt rt-IsLawful searcher (codes "x") (pos 2) IsDated found-IsDated 0
