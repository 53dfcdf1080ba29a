-- ===== src/Store/Statistics.antt =====
-- `stats` of memory/engine_scored_store.go, and what it says of the store.
use llm_agent_memory.Common.{
  ℤ, pos, [], ◌∷◌, Dict, Float64, zero_float, Runtime, ltb, length, time_sub, if◌then◌else◌,
}
use llm_agent_memory.Contract.{Time, MemoryItem, Stats}
use llm_agent_memory.Store.{Store}

-- The two results of the loop: the sum of the importances, and the oldest creation time.
unfoldable pub sum_loop : Runtime → Dict MemoryItem → Float64 → Float64
sum_loop rt [] sum = sum
sum_loop rt ((_, it) ∷ rest) sum = sum_loop rt rest (rt.fadd sum it.importance)

unfoldable pub earliest_loop : Dict MemoryItem → Time → Time
earliest_loop [] oldest = oldest
earliest_loop ((_, it) ∷ rest) oldest =
    earliest_loop rest (if ltb it.created_at oldest then it.created_at else oldest)

-- `now` is the reading before the loop, `later` that of `time.Since`.
unfoldable pub stats : Runtime → Time → Time → ℤ → Store → Stats
unfolding sum_loop earliest_loop
stats rt now later capacity s = elim s.items [
  | [] ↦ record { count = 0; capacity = capacity; avg_importance = zero_float; oldest_age = pos 0 }
  | _ ∷ _ ↦ record {
    count = length s.items;
    capacity = capacity;
    avg_importance =
        rt.fdiv (sum_loop rt (rt.range s.items) zero_float) (rt.of_int (pos (length s.items)));
    oldest_age = time_sub later (earliest_loop (rt.range s.items) now);
  }
]
