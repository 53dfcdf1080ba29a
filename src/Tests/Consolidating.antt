-- ===== src/Tests/Consolidating.antt =====
-- A consolidation from a working memory, beside a counter of the items that the episodic memory
-- got.
use llm_agent_memory.Common.{
  ◌≡◌, ◌≤◌, ◌<◌, ◌⊎◌, some, arith, IsMap, length, length-perm, length-keep_if-le, refl, ℕ, ◌+◌, pos,
  time_sub, saturated, none, List, [], ◌∷◌, codes, text_eq, lookup, All, float_lt, float_le, is_nan,
  float_rank, one_float,
}
use llm_agent_memory.Errors.{Error, ok, err}
use llm_agent_memory.Contract.{MemoryItem, episodic, ConsolidateOptions}
use llm_agent_memory.Observing.{emit}
use llm_agent_memory.Store.{query_embedding, update, update_item, reembed}
use llm_agent_memory.Engines.Working.{WorkingMemory}
use llm_agent_memory.Manager.{
  Memory, dispatch, require_memory, tier_for, memory_of_tier, require_local_memory,
}
use llm_agent_memory.Manager
use llm_agent_memory.Tiers.{working_tier}
use llm_agent_memory.Lifecycle.Consolidator.{
  consolidate, promote, promote_loop, is_due, promotion_count, stamp_source,
}
use llm_agent_memory.Lifecycle.Marks.{consolidator, IsOnce, promote_loop-IsOnce}
use llm_agent_memory.Engines.Semantic.{backend_or_default}
use llm_agent_memory.Store.Keyed.{values}
use llm_agent_memory.Listing.{candidates, matches_filter}
use llm_agent_memory.Listing.Stores.{candidates-perm}
use llm_agent_memory.Lifecycle.Paging.{no_filter}
use llm_agent_memory.Lifecycle.TwoTiers.{Both, both, listed}
use llm_agent_memory.Lifecycle.Consolidated.{item_at, due, after, consolidate_lem}
use llm_agent_memory.Tests.Fixtures.{
  rt, rt-IsLawful, contract, codec, embedder, first_item, second_item,
}

-- Takes every item.
abbrev counter : Memory (WorkingMemory × ℕ)
counter = record {
  kind = episodic;
  add = λ it w. (ok (codes "e"), (w.0, w.1 + 1));
  search = λ q k w. (ok [], w);
  get = λ id w. (ok first_item, w);
  update = λ id fn w. (ok tt, w);
  remove = λ id w. (ok tt, w);
  stats = λ w. record { count = 0; capacity = pos 0; avg_importance = 0; oldest_age = pos 0 };
  as_lister = none;
  as_exporter = none;
  as_importer = none;
}

abbrev important_item : MemoryItem
important_item = record second_item { importance = one_float }

abbrev items : List MemoryItem
items = important_item ∷ first_item ∷ []

abbrev memory : WorkingMemory
memory = record {
  store = record {
    items = (codes "a", first_item) ∷ (codes "b", important_item) ∷ [];
    vectors = [];
    prefix = codes "w";
    seq = 0;
  };
  opts = record { capacity = pos 5; decay = pos 1; saved_boost = 0 };
}

abbrev any_age : ConsolidateOptions
any_age = record { threshold = 0; min_age = pos 0 }

promote_loop-IsOnce_example :
    All
      (IsOnce rt contract codec embedder 7 8 counter
        (λ it w. refl)
        9
        any_age
        99
        any_age
        (promote_loop rt
          (consolidator rt contract codec embedder 7 8 counter (λ it w. refl))
          9
          any_age
          items
          0
          (memory, 0)).1)
      items
unfolding lookup text_eq promote_loop promote is_due promotion_count time_sub saturated float_lt
    float_le is_nan float_rank emit Manager.add Manager.update dispatch require_memory tier_for
    memory_of_tier require_local_memory working_tier update update_item reembed stamp_source
promote_loop-IsOnce_example =
    promote_loop-IsOnce rt contract codec embedder 7 8 counter (λ it w. refl) 9 any_age items 0
      (memory, 0) 99 any_age ((refl, tt), (tt, tt)) (refl, (refl, tt)) (refl, (refl, tt)) refl

abbrev tiers : Both
tiers = (
  memory,
  record {
    store = record { items = []; vectors = []; prefix = codes "e"; seq = 0 };
    recency_half_life_days = one_float;
    saved_boost = 0;
    vector_backend = backend_or_default rt none;
  },
)

memory-IsMap : IsMap memory.store.items
unfolding lookup text_eq
memory-IsMap = (refl, (refl, tt))

few : length (listed rt contract tiers) ≤ 200
few = omega (
  arith,
  length-perm (candidates-perm rt rt-IsLawful contract memory.store no_filter),
  length-keep_if-le (λ it. matches_filter rt contract it no_filter) (values memory.store.items),
)

none_yet : length (candidates rt contract tiers.1.store no_filter) ≤ 200
none_yet = omega (
  arith,
  length-perm (candidates-perm rt rt-IsLawful contract tiers.1.store no_filter),
  length-keep_if-le (λ it. matches_filter rt contract it no_filter) (values tiers.1.store.items),
)

consolidate_lem_example :
    ((w' : Both) × (consolidate rt (both rt contract codec embedder 7 8) 1 9 any_age tiers
        ≡ some ((length (due rt contract codec embedder 7 8 9 any_age tiers), none), w'))
      × All
          (λ it.
            item_at rt contract codec embedder 7 8 9 any_age it.id w'
            ≡ some (after rt contract codec embedder 7 8 9 any_age it))
          (values memory.store.items))
    ⊎ ((n : ℕ) × (x : Error) × (w' : Both) × (consolidate rt
            (both rt contract codec embedder 7 8)
            1
            9
            any_age
            tiers
          ≡ some ((n, some x), w'))
        × (n < length (due rt contract codec embedder 7 8 9 any_age tiers))
        × (it : MemoryItem) × (y : Error) × (query_embedding embedder 0 it.content ≡ err y))
consolidate_lem_example =
    consolidate_lem rt contract codec embedder 7 8 9 any_age rt-IsLawful tiers memory-IsMap
      (refl, (refl, tt)) 0 few none_yet
