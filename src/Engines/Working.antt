-- ===== src/Engines/Working.antt =====
-- memory/engine_working.go: the working memory, which holds at most `capacity` items.
use llm_agent_memory.Common.{
  ◌||◌, ℕ, ℤ, pos, Bool, true, not, none, some, Option, List, [], ◌∷◌, map, Text, text_eq,
  trim_space, Dict, lookup, Float64, float_lt, float_0_3, float_0_7, Runtime, ltb, leb_ℤ,
  positive_or, keep_if, length, if◌then◌else◌,
}
use llm_agent_memory.Errors.{Result, ok, err, embedder_required, empty_query, ◌>>=◌}
use llm_agent_memory.Contract.{Time, Duration, Vector, MemoryItem, SearchResult, Contract}
use llm_agent_memory.Store.{
  Store, Embedder, new_store, query_embedding, add, remove, snapshot_vectors,
}
use llm_agent_memory.Scoring.{
  vector_score, keyword_score, time_decay, importance_multiplier, saved_boost_multiplier,
}
use llm_agent_memory.Snapshots.{vector_of}
use llm_agent_memory.Engines.{best}
use llm_agent_memory.Common.{codes}

pub record WorkingOptions : Type 0 where
  pub capacity : ℤ
  pub decay : Duration
  pub saved_boost : Float64

pub record WorkingMemory : Type 0 where
  pub store : Store
  pub opts : WorkingOptions

abbrev pub day : ℕ
day = 86400000000000

unfoldable pub new_working : Option Embedder → WorkingOptions → Result WorkingMemory
new_working none opts = err embedder_required
new_working (some e) opts = ok (record {
  store = new_store (codes "wrk");
  opts = record opts {
    capacity = pos (positive_or 50 opts.capacity);
    decay = pos (positive_or day opts.decay);
  };
})

module _ (rt : Runtime) (c : Contract) (now : Time) where
  unfoldable pub score : WorkingOptions → Text → Vector → MemoryItem → Vector → Float64
  score opts query qv it iv =
      rt.fmul
        (rt.fmul
          (rt.fmul
            (rt.fadd (rt.fmul (vector_score rt qv iv) float_0_7)
              (rt.fmul (keyword_score rt query it.content) float_0_3))
            (time_decay rt now it.created_at opts.decay))
          (importance_multiplier rt it.importance))
        (saved_boost_multiplier c it opts.saved_boost)

  unfoldable pub search : Embedder → Text → ℤ → WorkingMemory → Result (List SearchResult)
  unfolding best
  search e query top_k w = if text_eq (trim_space query) [] then err empty_query else (do
    qv ← query_embedding e 0 query
    ok (
        best (positive_or 5 top_k) (
          map
            (λ (id, it). record {
              item = it;
              score = score w.opts query qv it (vector_of (lookup id (snapshot_vectors w.store)));
            })
            (keep_if (λ (id, it). not (c.is_disabled it)) (rt.range w.store.items)))))

  -- The loop of `evictOldest`: the id of the oldest item created before `oldest`.
  unfoldable pub oldest_loop : Dict MemoryItem → Text → Time → Text
  oldest_loop [] oldest_id oldest = oldest_id
  oldest_loop ((id, it) ∷ rest) oldest_id oldest = elim (ltb it.created_at oldest) [
    | true ↦ oldest_loop rest id it.created_at
    | Bool.false ↦ oldest_loop rest oldest_id oldest
  ]

  unfoldable pub evict_oldest : Store → Store
  unfolding oldest_loop
  evict_oldest s =
      let oldest_id = oldest_loop (rt.range s.items) [] now in
      if text_eq oldest_id [] then s else (remove oldest_id s).1

  -- The ids with their scores against the probe, lowest score first.
  unfoldable pub scored : WorkingOptions → Text → Vector → Store → List (Text × Float64)
  scored opts probe qv s =
      rt.sort (λ (_, a) (_, b). float_lt a b)
        (map (λ (id, it). (id, score opts probe qv it (vector_of (lookup id (snapshot_vectors s)))))
          (rt.range s.items))

  abbrev pub remove_first : List (Text × Float64) → Store → Store
  remove_first [] s = s
  remove_first ((id, _) ∷ _) s = (remove id s).1

  -- The embedding of the probe is the second call of an `add`.
  unfoldable pub evict_if_over_capacity : Embedder → WorkingOptions → Text → Store → Store
  evict_if_over_capacity e opts probe s =
      if leb_ℤ opts.capacity (pos 0) || leb_ℤ (pos (length s.items)) opts.capacity
      then s
      else elim (query_embedding e 1 probe) [
        | err _ ↦ evict_oldest s
        | ok qv ↦ remove_first (scored opts probe qv s) s
      ]

  unfoldable pub add_working :
      Embedder → ℕ → MemoryItem → WorkingMemory → Result Text × WorkingMemory
  add_working e stamp item w =
      let (r, s) = add e stamp now item w.store in
      elim r [
        | err x ↦ (err x, record w { store = s })
        | ok id ↦ (ok id, record w { store = evict_if_over_capacity e w.opts item.content s })
      ]
