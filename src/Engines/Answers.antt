-- ===== src/Engines/Answers.antt =====
-- What the answers of a search are.
use mathlib.Core.List.Permᴰ
use llm_agent_memory.Common.{
  ◌≡◌, refl, ℕ, ◌≤◌, ℤ, Bool, true, false, not, List, [], map, Text, text_eq, trim_space, All,
  All-take, All-perm, All-mono, All-map, All-keep_if, keep_if, keep_if-IsTrue, length, length-take,
  positive_or, Runtime, IsLawful, lookup, ◌⊎◌, Bool-cases, inl, inr, arith,
}
use llm_agent_memory.Errors.{Error, empty_query, ok, err, Result-cases}
use llm_agent_memory.Contract.{Time, Vector, MemoryItem, SearchResult, Contract}
use llm_agent_memory.Store.{Embedder, query_embedding, snapshot_vectors}
use llm_agent_memory.Snapshots.{vector_of}
use llm_agent_memory.Engines.{best, sort_desc}
use llm_agent_memory.Engines.Ranking.{best-take, sort_desc-perm}
use llm_agent_memory.Engines.Working.{WorkingMemory}
use llm_agent_memory.Engines.Working

best-All :
    (P : SearchResult → Type 0) (top_k : ℕ) (rs : List SearchResult)
    → All P rs
    → All P (best top_k rs)
best-All P top_k rs h =
    rw (best-take top_k rs)
      (All-take P top_k (sort_desc rs) (All-perm P (Permᴰ.symm (sort_desc-perm rs)) h))

best-length : (top_k : ℕ) (rs : List SearchResult) → length (best top_k rs) ≤ top_k
best-length top_k rs = rw (best-take top_k rs) (omega (arith, length-take top_k (sort_desc rs)))

not-true : (b : Bool) → not b ≡ true → b ≡ false
not-true true h = cc h
not-true false h = refl

module _ {A : Type 0} (P : SearchResult → Type 0) (f : A → SearchResult) (p : A → Bool) where
  -- The best of the elements that pass a test, scored.
  best_of_kept :
      (top_k : ℕ) (xs : List A)
      → ((x : A) → p x ≡ true → P (f x))
      → All P (best top_k (map f (keep_if p xs)))
  best_of_kept top_k xs h =
      best-All P top_k (map f (keep_if p xs))
        (All-map P f (keep_if p xs) (All-mono h (keep_if p xs) (keep_if-IsTrue p xs)))

  best_of_All :
      (top_k : ℕ) (xs : List A) → All (λ x. P (f x)) xs → All P (best top_k (map f (keep_if p xs)))
  best_of_All top_k xs h =
      best-All P top_k (map f (keep_if p xs))
        (All-map P f (keep_if p xs) (All-keep_if (λ x. P (f x)) p xs h))

module _ (rt : Runtime) (c : Contract) (now : Time) (e : Embedder) (query : Text) (top_k : ℤ)
    (m : WorkingMemory) where
  abbrev result_of : Vector → Text × MemoryItem → SearchResult
  result_of qv (id, it) = record {
    item = it;
    score =
        Working.score rt c now m.opts query qv it
          (vector_of (lookup id (snapshot_vectors m.store)));
  }

  abbrev answer : Vector → List SearchResult
  answer qv =
      best (positive_or 5 top_k)
        (map (result_of qv) (keep_if (λ (id, it). not (c.is_disabled it)) (rt.range m.store.items)))

  search_blank :
      text_eq (trim_space query) [] ≡ true
      → Working.search rt c now e query top_k m ≡ err empty_query
  unfolding Working.search
  search_blank b = rw (Working.search, b) refl

  search_refused :
      (x : Error)
      → text_eq (trim_space query) [] ≡ false
      → query_embedding e 0 query ≡ err x
      → Working.search rt c now e query top_k m ≡ err x
  unfolding Working.search
  search_refused x b q = rw (Working.search, b, q) refl

  search_answered :
      (qv : Vector)
      → text_eq (trim_space query) [] ≡ false
      → query_embedding e 0 query ≡ ok qv
      → Working.search rt c now e query top_k m ≡ ok (answer qv)
  unfolding Working.search
  search_answered qv b q = rw (Working.search, b, q) refl

  -- The shape of an answer.
  abbrev pub IsAnswer : (MemoryItem → Type 0) → List SearchResult → Type 0
  IsAnswer P rs =
      (length rs ≤ positive_or 5 top_k)
      × All (λ r. c.is_disabled r.item ≡ false) rs
      × All (λ r. P r.item) rs

  answer-IsAnswer :
      (lawful : IsLawful rt) (P : MemoryItem → Type 0) (qv : Vector)
      → All (λ (_, it). P it) m.store.items
      → IsAnswer P (answer qv)
  answer-IsAnswer lawful P qv holds = (
    best-length _ _,
    best_of_kept (λ r. c.is_disabled r.item ≡ false) (result_of qv) _ _ (rt.range m.store.items)
        (λ (_, it) k. not-true (c.is_disabled it) k),
    best_of_All (λ r. P r.item) (result_of qv) _ _ (rt.range m.store.items)
        (All-perm _ (Permᴰ.symm (lawful.range-perm m.store.items)) holds),
  )

  -- A search of the working memory fails for a blank query and when the embedder fails. Else it
  -- returns at most `topK` results (5 if that is not positive), none of them disabled, and each an
  -- item of the store: whatever holds of all items there holds of them.
  pub working_search_lem :
      (lawful : IsLawful rt) (P : MemoryItem → Type 0)
      → All (λ (_, it). P it) m.store.items
      → ((text_eq (trim_space query) [] ≡ true)
          × (Working.search rt c now e query top_k m ≡ err empty_query))
        ⊎ ((x : Error) × (query_embedding e 0 query ≡ err x)
            × (Working.search rt c now e query top_k m ≡ err x))
        ⊎ ((rs : List SearchResult) × (Working.search rt c now e query top_k m ≡ ok rs)
            × IsAnswer P rs)
  working_search_lem lawful P holds = elim (Bool-cases (text_eq (trim_space query) [])) [
    | inl b ↦ inl (b, search_blank b)
    | inr b ↦ elim (Result-cases (query_embedding e 0 query)) [
      | inl (qv, q) ↦
          inr (inr (answer qv, search_answered qv b q, answer-IsAnswer lawful P qv holds))
      | inr (x, q) ↦ inr (inl (x, q, search_refused x b q))
    ]
  ]
