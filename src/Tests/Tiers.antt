-- ===== src/Tests/Tiers.antt =====
-- Managers, policies and engines on a small world: a counter of the calls that were made.
use llm_agent_memory.Common.{
  arith, ◌≡◌, refl, ℕ, ◌+◌, ◌≤◌, pos, true, false, none, some, List, [], ◌∷◌, ◌++◌, codes, text_eq,
  lookup, insert, is_nan, All, length, IsSorted, Permᴰ, min, suc,
}
use llm_agent_memory.Errors.{ok, err, rejected_by_policy}
use llm_agent_memory.Contract.{MemoryItem, Kind, SearchResult, Scope, zero_scope}
use llm_agent_memory.Store.{query_embedding, new_store}
use llm_agent_memory.Store.Invariant.{new_store-IsWellFormed}
use llm_agent_memory.Scopes.{read_scope, stamp_scope, scope_of_value}
use llm_agent_memory.Manager.{
  Memory, Manager, TierOptions, Method, no_tier, require_memory, dispatch, tier_for, memory_of_tier,
  require_local_memory,
}
use llm_agent_memory.Manager
use llm_agent_memory.Policies.{
  Sanitizer, sanitize_loop, sanitizing_add, with_sanitizer, WritePolicy, PolicyEnforcingMemory,
  policy_add, policy_adapter, accept, system_write,
}
use llm_agent_memory.Policies.Chains.{with_sanitizer-append, sanitizing_add_stops}
use llm_agent_memory.Policies.Decisions.{policy_add-policy_adapter}
use llm_agent_memory.Scoped.{ScopedManager}
use llm_agent_memory.Scoped
use llm_agent_memory.Scoped.Isolation.{search-IsInScope, IsInScope}
use llm_agent_memory.Manager.{has_kind, kinds}
use llm_agent_memory.Manager.FanOut.{KindMap}
use llm_agent_memory.Manager.Dispatch.{
  dispatch-has_kind, tier_memory, Reaches, Refuses, missing_error,
}
use llm_agent_memory.Common.{◌⊎◌}
use llm_agent_memory.Engines.{best}
use llm_agent_memory.Engines.Ranking.{best_lem, higher}
use llm_agent_memory.Engines.Working.{WorkingMemory, add_working}
use llm_agent_memory.Engines.Eviction.{add_working-length}
use llm_agent_memory.Engines.Answers.{working_search_lem, IsAnswer}
use llm_agent_memory.Engines.Working
use llm_agent_memory.Common.{trim_space}
use llm_agent_memory.Errors.{Error, empty_query}
use llm_agent_memory.Tests.Fixtures.{
  rt, rt-IsLawful, contract, embedder, first_item, second_item, unnamed_item,
}

abbrev here : Scope
here = record zero_scope { user = codes "u" }

abbrev there : Scope
there = record zero_scope { user = codes "v" }

-- A memory that holds one item of the scope `here`, and counts the calls.
abbrev held : MemoryItem
held = stamp_scope contract first_item here

abbrev pub memory : Memory ℕ
memory = record {
  kind = Kind.working;
  add = λ it w. (ok it.id, w + 1);
  search = λ q k w. (ok (record { item = held; score = 1 } ∷ []), w + 1);
  get = λ id w. (ok held, w + 1);
  update = λ id fn w. (ok tt, w + 1);
  remove = λ id w. (ok tt, w + 1);
  stats = λ w. record { count = 1; capacity = pos 0; avg_importance = 0; oldest_age = pos 0 };
  as_lister = none;
  as_exporter = none;
  as_importer = none;
}

abbrev passes : Sanitizer ℕ
passes kind it w = (ok (it, true), w + 10)

abbrev drops : Sanitizer ℕ
drops kind it w = (ok (it, false), w + 100)

with_sanitizer-append_example :
    (with_sanitizer (with_sanitizer memory (passes ∷ [])) (drops ∷ [])).add second_item 0
    ≡ (with_sanitizer memory (drops ∷ passes ∷ [])).add second_item 0
with_sanitizer-append_example =
    with_sanitizer-append memory (passes ∷ []) (drops ∷ []) second_item 0

sanitizing_add_stops_example :
    sanitizing_add memory (passes ∷ drops ∷ passes ∷ []) second_item 0
    ≡ (err rejected_by_policy, 110)
unfolding sanitize_loop
sanitizing_add_stops_example =
    sanitizing_add_stops memory (passes ∷ []) (passes ∷ []) drops second_item second_item
      (ok (second_item, false)) rejected_by_policy 0 10 110 refl refl refl

abbrev mgr : Manager ℕ
mgr = record {
  opts = record {
    working = record no_tier { memory = some memory };
    episodic = no_tier;
    semantic = no_tier;
    snapshot_store = none;
  };
}

abbrev policy : WritePolicy ℕ
policy write w =
    (record { verdict = accept; kind = write.kind; item = first_item; reason = [] }, w + 5)

abbrev enforcing : PolicyEnforcingMemory ℕ
enforcing = record { mgr = mgr; policy = policy; cfg = record { observer = none } }

policy_add-policy_adapter_example :
    policy_add enforcing (system_write memory.kind second_item) 0
    ≡ (with_sanitizer memory (policy_adapter enforcing.policy ∷ [])).add second_item 0
unfolding require_memory tier_for memory_of_tier require_local_memory
policy_add-policy_adapter_example =
    policy_add-policy_adapter enforcing memory second_item 0 refl refl (λ write v. refl)

abbrev scoped : ScopedManager ℕ
scoped = record { inner = mgr }

search-IsInScope_example :
    All (IsInScope contract here scoped) (record { item = held; score = 1 } ∷ [])
unfolding Scoped.search Scoped.filter_by_scope Manager.search dispatch require_memory tier_for
    memory_of_tier require_local_memory read_scope stamp_scope scope_of_value lookup insert text_eq
search-IsInScope_example =
    search-IsInScope contract here scoped Kind.working (codes "q") (pos 5) 0
      (record { item = held; score = 1 } ∷ []) refl refl

abbrev three_results : List SearchResult
three_results =
    record { item = first_item; score = 1 }
    ∷ record { item = second_item; score = 3 }
    ∷ record { item = unnamed_item; score = 2 }
    ∷ []

best_lem_example :
    (left_out : List SearchResult) × Permᴰ (best 2 three_results ++ left_out) three_results
    × IsSorted higher (best 2 three_results ++ left_out)
    × (length (best 2 three_results) ≡ min 2 (length three_results))
unfolding is_nan
best_lem_example = best_lem 2 three_results (refl, (refl, (refl, tt)))

abbrev small : WorkingMemory
small = record {
  store = new_store (codes "wrk");
  opts = record { capacity = pos 1; decay = pos 10; saved_boost = 0 };
}

small_fits : length small.store.items ≤ suc 0
small_fits = omega arith

add_working-length_example :
    length (add_working rt contract 20 embedder 7 first_item small).1.store.items ≤ suc 0
unfolding query_embedding
add_working-length_example =
    add_working-length rt rt-IsLawful contract 20 embedder 7 first_item small 0 (some (codes "x"))
      (new_store-IsWellFormed (codes "wrk")) refl refl small_fits

dispatch-has_kind_example :
    ((has_kind mgr Kind.semantic ≡ true)
      × (mem : Memory ℕ) × (tier_memory mgr Kind.semantic ≡ some mem)
      × Reaches mgr Kind.semantic mem)
    ⊎ ((has_kind mgr Kind.semantic ≡ false)
        × Refuses mgr Kind.semantic (missing_error Kind.semantic))
dispatch-has_kind_example = dispatch-has_kind mgr Kind.semantic

abbrev answers : KindMap (List SearchResult)
answers = (Kind.working, three_results) ∷ (Kind.semantic, three_results) ∷ []

abbrev IsDated : MemoryItem → Type 0
IsDated it = it.created_at ≡ 3

abbrev filled : WorkingMemory
filled = record {
  store = record (new_store (codes "wrk")) { items = (codes "a", first_item) ∷ [] };
  opts = record { capacity = pos 1; decay = pos 10; saved_boost = 0 };
}

working_search_lem_example :
    ((text_eq (trim_space (codes "x")) [] ≡ true)
      × (Working.search rt contract 20 embedder (codes "x") (pos 1) filled ≡ err empty_query))
    ⊎ ((x : Error) × (query_embedding embedder 0 (codes "x") ≡ err x)
        × (Working.search rt contract 20 embedder (codes "x") (pos 1) filled ≡ err x))
    ⊎ ((rs : List SearchResult) × (Working.search rt contract 20 embedder (codes "x") (pos 1) filled
          ≡ ok rs)
        × IsAnswer rt contract 20 embedder (codes "x") (pos 1) filled IsDated rs)
working_search_lem_example =
    working_search_lem rt contract 20 embedder (codes "x") (pos 1) filled rt-IsLawful IsDated
      (refl, tt)
