-- ===== src/Recall/Outcomes.antt =====
-- memory/recall_engine.go: a recall, from the call to what it returns.
use llm_agent_memory.Common.{
  ◌≡◌, refl, ap, ◌∙◌, ℕ, ◌+◌, ◌⊎◌, inl, inr, ℤ, Bool, true, not, ◌&&◌, ◌==◌, List, [], ◌∷◌, map,
  Text, All, All-map, All-mono, keep_if-IsTrue, length, positive_or, Runtime, IsLawful, List-cases,
  if◌then◌else◌, byte_length,
}
use llm_agent_memory.Errors.{Error, Result, ok, err, Result-cases}
use llm_agent_memory.Contract.{Kind, SearchResult}
use llm_agent_memory.Manager.{Manager, kinds, has_kind}
use llm_agent_memory.Manager
use llm_agent_memory.Manager.FanOut.{KindMap}
use llm_agent_memory.Observing.{search_total, emit}
use llm_agent_memory.Engines.Ranking.{IsNumber}
use llm_agent_memory.Recall.{search_tiers, results_at}
use llm_agent_memory.Recall.Engine.{
  RecallEngine, RecallOptions, all_tiers, tier_bit, participating, maybe_per_tier, budget_for,
  recall, recall_tiers, merge_results, UnifiedRecall, total_candidates,
}
use llm_agent_memory.Recall.Kept.{IsTop, merge_results-IsTop}
use Prim.Native.Nat.{bit_and}
use llm_agent_memory.Recall.Asked.{search_tiers-Asked}

abbrev pub mask : RecallOptions → ℕ
mask opts = if opts.tiers == 0 then all_tiers else opts.tiers

abbrev pub top : RecallOptions → ℕ
top opts = positive_or 10 opts.top_k

module _ {W : Type 0} (r : RecallEngine W) (opts : RecallOptions) where
  -- The tier is in the mask and active.
  abbrev pub takes_part : Kind → Bool
  takes_part k = not (bit_and (mask opts) (tier_bit k) == 0) && has_kind r.mgr k

  abbrev pub tiers_of : List Kind
  tiers_of = participating r.mgr (mask opts)

  abbrev pub tasks : List (Kind × ℤ)
  tasks = map (λ k. (k, budget_for opts.budgets (top opts) k)) tiers_of

  abbrev pub told : Text → W → W
  told query w = emit r.cfg.observer (search_total (byte_length query)) w

  abbrev pub answers : Runtime → Text → W → Result (KindMap (List SearchResult))
  answers rt query w = (search_tiers rt r.mgr query tasks (told query w)).0

  -- From a tier that takes part, with a property of that tier's results.
  abbrev pub Participates : (Kind → SearchResult → Type 0) → Kind → SearchResult → Type 0
  Participates P k q = (takes_part k ≡ true) × P k q

module _ {W : Type 0} (rt : Runtime) (lawful : IsLawful rt) (r : RecallEngine W) (query : Text)
    (opts : RecallOptions) (P : Kind → SearchResult → Type 0)
    (holds : (k : Kind) (limit : ℤ) (w : W) (rs : List SearchResult)
      → (Manager.search r.mgr k query limit w).0 ≡ ok rs
      → All (λ q. P k q × IsNumber q) rs) where
  participating-takes_part : All (λ k. takes_part r opts k ≡ true) (tiers_of r opts)
  unfolding participating
  participating-takes_part = keep_if-IsTrue (takes_part r opts) kinds

  module _ (w : W) where
    recall_none :
        tiers_of r opts ≡ []
        → (recall rt r query opts w).0
          ≡ ok (record { results = []; per_tier = maybe_per_tier opts; total_dropped = 0 })
    unfolding recall
    recall_none h = rw (recall, h) refl

    recall_some :
        (k : Kind) (ks : List Kind)
        → tiers_of r opts ≡ k ∷ ks
        → recall rt r query opts w
          ≡ recall_tiers rt r query opts (top opts) (tiers_of r opts) (told r opts query w)
    unfolding recall
    recall_some k ks h = rw (recall, h) refl

    recall_tiers_err :
        (x : Error)
        → answers r opts rt query w ≡ err x
        → (recall_tiers rt r query opts (top opts) (tiers_of r opts) (told r opts query w)).0
          ≡ err x
    unfolding recall_tiers
    recall_tiers_err x h = rw (recall_tiers, h) refl

    recall_tiers_ok :
        (found : KindMap (List SearchResult))
        → answers r opts rt query w ≡ ok found
        → (recall_tiers rt r query opts (top opts) (tiers_of r opts) (told r opts query w)).0
          ≡ ok (merge_results rt (top opts) opts.include_provenance (tiers_of r opts) found)
    unfolding recall_tiers
    recall_tiers_ok found h = rw (recall_tiers, h) refl

    regroup :
        (k : Kind) (q : SearchResult)
        → (takes_part r opts k ≡ true) × (P k q × IsNumber q)
        → Participates r opts P k q × IsNumber q
    regroup k q (part, (p, n)) = ((part, p), n)

    tasks-takes_part : All (λ (k, _). takes_part r opts k ≡ true) (tasks r opts)
    tasks-takes_part = All-map _ _ (tiers_of r opts) participating-takes_part

    answers-Participates :
        (found : KindMap (List SearchResult))
        → answers r opts rt query w ≡ ok found
        → All (λ k. All (λ q. Participates r opts P k q × IsNumber q) (results_at found k)) kinds
    answers-Participates found h =
        let asked =
          search_tiers-Asked rt lawful r.mgr query (takes_part r opts) (λ k q. P k q × IsNumber q)
            holds (tasks r opts) (told r opts query w) found tasks-takes_part h in
        All-mono (λ k. All-mono (regroup k) (results_at found k)) kinds asked

    -- A recall of no tier is empty. Else it returns the error that asking the tiers ends with, or
    -- of what they found at most `TopK` results (10 if that is not positive), no two with the same
    -- id and content, by descending score and then by id; each has, for a tier that takes part,
    -- whatever property all results of that tier's searches have. Every result that a tier found is
    -- among them, or a better one of its id and content is, or they are `TopK` of which none has a
    -- lower score; and all that were found are returned or counted as dropped. (No score is NaN.)
    pub recall_lem :
        ((tiers_of r opts ≡ [])
          × ((recall rt r query opts w).0
              ≡ ok (record { results = []; per_tier = maybe_per_tier opts; total_dropped = 0 })))
        ⊎ ((x : Error) × (answers r opts rt query w ≡ err x)
            × ((recall rt r query opts w).0 ≡ err x))
        ⊎ ((found : KindMap (List SearchResult)) × (answers r opts rt query w ≡ ok found)
            × (out : UnifiedRecall) × ((recall rt r query opts w).0 ≡ ok out)
            × IsTop (Participates r opts P) found (top opts) out.results
            × (out.total_dropped + length out.results ≡ total_candidates found kinds))
    recall_lem = elim (List-cases (tiers_of r opts)) [
      | inl none_there ↦ inl (none_there, recall_none none_there)
      | inr (k, ks, there) ↦
          let opened = recall_some k ks there in
          elim (Result-cases (answers r opts rt query w)) [
            | inr (x, failed) ↦
                inr (inl (x, failed, ap (λ z. z.0) opened ∙ recall_tiers_err x failed))
            | inl (found, answered) ↦
                let (top_ones, count) =
                  merge_results-IsTop rt lawful (Participates r opts P) found
                    (answers-Participates found answered) (top opts) opts.include_provenance
                    (tiers_of r opts) in
                inr (
                  inr (
                    found,
                    answered,
                    merge_results rt (top opts) opts.include_provenance (tiers_of r opts) found,
                    ap (λ z. z.0) opened ∙ recall_tiers_ok found answered,
                    top_ones,
                    count,
                  ))
          ]
    ]
