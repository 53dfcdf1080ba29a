-- ===== src/Recall/Engine.antt =====
-- `RecallEngine.Recall`.
use Prim.Native.Nat.{bit_and}
use llm_agent_memory.Common.{
  ℕ, suc, ◌+◌, ◌-◌, ℤ, pos, Bool, not, ◌&&◌, none, some, Option, List, [], ◌∷◌, map, Text, Runtime,
  ltb, ◌==◌, positive_or, length, take, if◌then◌else◌, keep_if, byte_length,
}
use llm_agent_memory.Errors.{Result, ok, err, recall_manager_required}
use llm_agent_memory.Contract.{Kind, working, episodic, semantic, kind_eq, SearchResult}
use llm_agent_memory.Manager.{Manager, Method, kinds, has_kind}
use llm_agent_memory.Manager.FanOut.{KindMap, lookup_kind}
use llm_agent_memory.Observing.{search_total, search_hits, emit, Config, ConfigOption, new_config}
use llm_agent_memory.Recall.{
  Best, Key, key_of, key_eq, search_tiers, results_at, merge_loop, ranked,
}

-- A `uint8` of bits.
abbrev pub TierMask : Type 0
TierMask = ℕ

abbrev pub tier_working : TierMask
tier_working = 1

abbrev pub tier_episodic : TierMask
tier_episodic = 2

abbrev pub tier_semantic : TierMask
tier_semantic = 4

abbrev pub all_tiers : TierMask
all_tiers = 7

pub record RecallOptions : Type 0 where
  pub top_k : ℤ
  pub tiers : TierMask
  pub budgets : KindMap ℤ
  pub include_provenance : Bool

pub record TierStats : Type 0 where
  pub considered : ℕ
  pub returned : ℕ

-- A nil map of statistics is `none`.
pub record UnifiedRecall : Type 0 where
  pub results : List SearchResult
  pub per_tier : Option (KindMap TierStats)
  pub total_dropped : ℕ

pub record RecallEngine (W : Type 0) : Type 0 where
  pub mgr : Manager W
  pub cfg : Config W

unfoldable pub new_recall_engine :
    {W : Type 0} → Option (Manager W) → List (ConfigOption W) → Result (RecallEngine W)
new_recall_engine none opts = err recall_manager_required
new_recall_engine (some m) opts = ok (record { mgr = m; cfg = new_config opts })

-- The bit of a kind; no bit for another string.
abbrev pub tier_bit : Kind → TierMask
tier_bit working = tier_working
tier_bit episodic = tier_episodic
tier_bit semantic = tier_semantic
tier_bit (Kind.unlisted s) = 0

module _ {W : Type 0} where
  unfoldable pub participating : Manager W → TierMask → List Kind
  unfolding has_kind
  participating m mask = keep_if (λ k. not (bit_and mask (tier_bit k) == 0) && has_kind m k) kinds

unfoldable pub maybe_per_tier : RecallOptions → Option (KindMap TierStats)
maybe_per_tier opts = if opts.include_provenance then some [] else none

-- `if b, ok := opts.Budgets[kind]; ok && b > 0 { budget = b }`
unfoldable pub budget_for : KindMap ℤ → ℕ → Kind → ℤ
unfolding lookup_kind
budget_for budgets top_k kind = elim (lookup_kind kind budgets) [
  | none ↦ pos top_k
  | some b ↦ pos (positive_or top_k b)
]

unfoldable pub total_candidates : KindMap (List SearchResult) → List Kind → ℕ
total_candidates per_kind [] = 0
total_candidates per_kind (k ∷ ks) = length (results_at per_kind k) + total_candidates per_kind ks

-- `origin[k]`
unfoldable pub origin_of : Key → Best → Option Kind
unfolding key_eq
origin_of k [] = none
origin_of k ((j, v) ∷ best) =
    let rest = origin_of k best in if key_eq j k then some v.kind else rest

-- How many of the results came from the tier.
unfoldable pub returned_from : Best → Kind → List SearchResult → ℕ
unfolding origin_of kind_eq
returned_from best kind [] = 0
returned_from best kind (r ∷ rs) =
    let rest = returned_from best kind rs in
    elim (origin_of (key_of r) best) [
      | none ↦ rest
      | some k ↦ if kind_eq k kind then suc rest else rest
    ]

-- Merging what the tiers returned: the part of `Recall` after the channel is closed.
unfoldable pub merge_results :
    Runtime → ℕ → Bool → List Kind → KindMap (List SearchResult) → UnifiedRecall
unfolding merge_loop total_candidates ranked
merge_results rt top_k provenance tiers per_kind =
    let best = merge_loop per_kind kinds [] in
    let merged = ranked rt best in
    let results = if ltb top_k (length merged) then take top_k merged else merged in
    let dropped = total_candidates per_kind kinds - length merged in
    record {
      results = results;
      per_tier =
          if provenance
          then some (
              map
                (λ k. (
                  k,
                  record {
                    considered = length (results_at per_kind k);
                    returned = returned_from best k results;
                  },
                ))
                tiers)
          else none;
      total_dropped =
          if ltb top_k (length merged) then dropped + (length merged - top_k) else dropped;
    }

module _ {W : Type 0} (rt : Runtime) where
  unfoldable pub recall_tiers :
      RecallEngine W → Text → RecallOptions → ℕ → List Kind → Method W UnifiedRecall
  unfolding search_tiers merge_results budget_for
  recall_tiers r query opts top_k tiers w =
      let (found, w') =
        search_tiers rt r.mgr query (map (λ k. (k, budget_for opts.budgets top_k k)) tiers) w in
      elim found [
        | err e ↦ (err e, w')
        | ok per_kind ↦
            let out = merge_results rt top_k opts.include_provenance tiers per_kind in
            (ok out, emit r.cfg.observer (search_hits (length out.results)) w')
      ]

  unfoldable pub recall : RecallEngine W → Text → RecallOptions → Method W UnifiedRecall
  unfolding recall_tiers participating emit
  recall r query opts w =
      let tiers = participating r.mgr (if opts.tiers == 0 then all_tiers else opts.tiers) in
      let top_k = positive_or 10 opts.top_k in
      let w' = emit r.cfg.observer (search_total (byte_length query)) w in
      elim tiers [
        | [] ↦ (ok (record { results = []; per_tier = maybe_per_tier opts; total_dropped = 0 }), w')
        | k ∷ ks ↦ recall_tiers r query opts top_k (k ∷ ks) w'
      ]
