-- ===== src/Tests/Accessing.antt =====
-- A working memory with an item of another user, seen through a scoped manager.
use llm_agent_memory.Common.{◌⊎◌, pos, some, [], ◌∷◌, codes}
use llm_agent_memory.Contract.{MemoryItem, Scope, text_map}
use llm_agent_memory.Store.{new_store}
use llm_agent_memory.Scopes.{scope_key, scope_map}
use llm_agent_memory.Engines.Working.{WorkingMemory}
use llm_agent_memory.Scoped.Access.{IsMissing, IsHidden, IsServed, scoped_access}
use llm_agent_memory.Tests.Fixtures.{
  rt, rt-IsLawful, contract, codec, codec-IsFaithful, embedder, first_item, second_item,
}

abbrev mine : Scope
mine = record { user = codes "u"; project = []; session = [] }

abbrev theirs : Scope
theirs = record { user = codes "v"; project = []; session = [] }

abbrev their_item : MemoryItem
their_item = record first_item { metadata = some ((scope_key, text_map (scope_map theirs)) ∷ []) }

abbrev shared_memory : WorkingMemory
shared_memory = record {
  store = record (new_store (codes "wrk")) {
    items = (codes "a", their_item) ∷ (codes "b", second_item) ∷ [];
    vectors = (codes "a", some (codes "x")) ∷ (codes "b", some (codes "y")) ∷ [];
  };
  opts = record { capacity = pos 5; decay = pos 10; saved_boost = 0 };
}

abbrev renamed : MemoryItem → MemoryItem
renamed it = record it { content = codes "new" }

scoped_access_example :
    IsMissing rt rt-IsLawful contract codec codec-IsFaithful embedder 7 8 mine
      (codes "a")
      renamed
      shared_memory
    ⊎ ((it : MemoryItem) × IsHidden rt rt-IsLawful contract codec codec-IsFaithful embedder 7 8 mine
          (codes "a")
          renamed
          shared_memory
          it)
    ⊎ ((it : MemoryItem) × IsServed rt rt-IsLawful contract codec codec-IsFaithful embedder 7 8 mine
          (codes "a")
          renamed
          shared_memory
          it)
scoped_access_example =
    scoped_access rt rt-IsLawful contract codec codec-IsFaithful embedder 7 8 mine (codes "a")
      renamed shared_memory
