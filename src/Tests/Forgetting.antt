-- ===== src/Tests/Forgetting.antt =====
-- Forgetting over a working memory.
use llm_agent_memory.Common.{
  arith, ◌≡◌, refl, ℕ, ◌+◌, ◌<◌, ◌≤◌, pos, none, some, [], ◌∷◌, Text, codes, text_eq, lookup,
  insertion_sort, insert_by, IsMap, All, length, is_nan, float_lt, float_rank, one_float,
}
use llm_agent_memory.Contract.{MemoryItem, working, zero_scope, ForgetOptions, by_importance}
use llm_agent_memory.Store.Keyed.{IsKeyed}
use llm_agent_memory.Listing.{candidates, matches_filter, listed_before, max_int}
use llm_agent_memory.Listing.Complete.{IsEncodable}
use llm_agent_memory.Engines.Working.{WorkingMemory}
use llm_agent_memory.Lifecycle.Paging.{no_filter}
use llm_agent_memory.Lifecycle.Forgetting.{forget_scoped, is_unimportant}
use llm_agent_memory.Lifecycle.Forgotten.{alone, goes, spared, forget_scoped-alone}
use llm_agent_memory.Tests.Fixtures.{
  rt, rt-IsLawful, contract, codec, codec-IsFaithful, embedder, first_item, second_item,
}

abbrev important_item : MemoryItem
important_item = record second_item { importance = one_float }

-- Two items, one of them important.
abbrev memory : WorkingMemory
memory = record {
  store = record {
    items = (codes "a", first_item) ∷ (codes "b", important_item) ∷ [];
    vectors = [];
    prefix = codes "w";
    seq = 0;
  };
  opts = record { capacity = pos 5; decay = pos 1; saved_boost = 0 };
}

memory-IsMap : IsMap memory.store.items
unfolding lookup text_eq
memory-IsMap = (refl, (refl, tt))

memory-IsKeyed : IsKeyed memory.store.items
memory-IsKeyed = (refl, (refl, tt))

candidates_of_memory :
    candidates rt contract memory.store no_filter ≡ important_item ∷ first_item ∷ []
unfolding candidates matches_filter insertion_sort insert_by listed_before text_eq float_lt is_nan
    float_rank
candidates_of_memory = refl

candidates-IsEncodable : All (IsEncodable codec) (candidates rt contract memory.store no_filter)
unfolding text_eq
candidates-IsEncodable = rw candidates_of_memory ((refl, (_, refl)), ((refl, (_, refl)), tt))

candidates-fit : length (candidates rt contract memory.store no_filter) + 200 ≤ max_int
candidates-fit = rw candidates_of_memory (omega arith)

candidates-bound : length (candidates rt contract memory.store no_filter) < 3
candidates-bound = rw candidates_of_memory (omega arith)

-- What is less important than 1 goes.
abbrev drop_unimportant : ForgetOptions
drop_unimportant = record {
  strategy = by_importance;
  threshold = one_float;
  max_age = pos 0;
  keep = pos 0;
}

forget_scoped-alone_example :
    (n : ℕ) × (w' : WorkingMemory) × (forget_scoped rt contract
        (alone rt rt-IsLawful contract codec codec-IsFaithful embedder 7 8)
        zero_scope
        3
        9
        working
        drop_unimportant
        memory
      ≡ some ((n, none), w'))
    × ((j : Text)
        → lookup j w'.store.items
          ≡ spared rt rt-IsLawful contract codec codec-IsFaithful embedder 7 8
              (goes rt rt-IsLawful contract codec codec-IsFaithful embedder 7 8 zero_scope
                (is_unimportant one_float))
              (lookup j memory.store.items))
unfolding text_eq
forget_scoped-alone_example =
    forget_scoped-alone rt rt-IsLawful contract codec codec-IsFaithful embedder 7 8 zero_scope 3 9
      drop_unimportant (is_unimportant one_float) memory refl memory-IsMap memory-IsKeyed
      candidates-IsEncodable candidates-fit candidates-bound
