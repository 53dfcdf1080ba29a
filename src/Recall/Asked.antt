-- ===== src/Recall/Asked.antt =====
-- memory/parallel_search.go and memory/recall_engine.go: the answers of the tiers that were asked.
use mathlib.Core.List.Permᴰ
use llm_agent_memory.Common.{
  ◌≡◌, subst, inl, inr, ℤ, Bool, true, List, [], ◌∷◌, Text, All, All-perm, All-append, All-mono,
  All-of, Runtime, IsLawful, Bool-cases, arith,
}
use llm_agent_memory.Errors.{Result, ok, err, is_kind_disabled, Result-cases}
use llm_agent_memory.Contract.{Kind, kind_eq, SearchResult}
use llm_agent_memory.Manager.{Manager, kinds, has_kind}
use llm_agent_memory.Manager
use llm_agent_memory.Manager.FanOut.{KindMap, lookup_kind}
use llm_agent_memory.Manager.Kinds.{kind_eq_iff}
use llm_agent_memory.Recall.{Answers, run_searches, collect, search_tiers, results_at}

ok_inj : {A : Type 0} {a b : A} → ok a ≡ ok b → a ≡ b
ok_inj h = cc h

module _ (P : Kind → SearchResult → Type 0) where
  -- Whatever was answered has the property with its kind.
  abbrev IsAnswer : Kind × Result (List SearchResult) → Type 0
  IsAnswer (k, ok rs) = All (P k) rs
  IsAnswer (k, err e) = Unit

  abbrev IsFound : Kind × List SearchResult → Type 0
  IsFound (k, rs) = All (P k) rs

  collect-IsFound :
      (answers : Answers) (out found : KindMap (List SearchResult))
      → All IsAnswer answers
      → All IsFound out
      → collect answers out ≡ ok found
      → All IsFound found
  unfolding collect
  collect-IsFound [] out found h k e = subst (All IsFound) (ok_inj e) k
  collect-IsFound ((k, ok rs) ∷ rest) out found h q e =
      collect-IsFound rest _ found h.1 (All-append IsFound out _ q (h.0, tt)) e
  collect-IsFound ((k, err x) ∷ rest) out found h q e = elim (Bool-cases (is_kind_disabled x)) [
    | inl off ↦ collect-IsFound rest out found h.1 q (ground arith)
    | inr other ↦ absurd (ground arith)
  ]

  results_at-IsFound :
      (found : KindMap (List SearchResult)) (k : Kind)
      → All IsFound found
      → All (P k) (results_at found k)
  unfolding lookup_kind
  results_at-IsFound [] k h = tt
  results_at-IsFound ((j, rs) ∷ found) k h = elim (Bool-cases (kind_eq j k)) [
    | inl same ↦ rw same (subst (λ z. All (P z) rs) ((kind_eq_iff j k).0 same) h.0)
    | inr other ↦ rw other (results_at-IsFound found k h.1)
  ]

module _ {W : Type 0} (rt : Runtime) (lawful : IsLawful rt) (m : Manager W) (query : Text)
    (asked : Kind → Bool) (P : Kind → SearchResult → Type 0)
    (holds : (k : Kind) (limit : ℤ) (w : W) (rs : List SearchResult)
      → (Manager.search m k query limit w).0 ≡ ok rs
      → All (P k) rs) where
  abbrev pub Asked : Kind → SearchResult → Type 0
  Asked k r = (asked k ≡ true) × P k r

  search-IsAnswer :
      (k : Kind) (limit : ℤ) (w : W)
      → asked k ≡ true
      → IsAnswer Asked (k, (Manager.search m k query limit w).0)
  search-IsAnswer k limit w a = elim (Result-cases (Manager.search m k query limit w).0) [
    | inl (rs, e) ↦ rw e (All-mono (λ r p. (a, p)) rs (holds k limit w rs e))
    | inr (x, e) ↦ rw e tt
  ]

  run_searches-IsAnswer :
      (tasks : List (Kind × ℤ)) (w : W)
      → All (λ (k, _). asked k ≡ true) tasks
      → All (IsAnswer Asked) (run_searches m query tasks w).0
  unfolding run_searches
  run_searches-IsAnswer [] w h = tt
  run_searches-IsAnswer ((k, limit) ∷ tasks) w h =
      (search-IsAnswer k limit w h.0, run_searches-IsAnswer tasks _ h.1)

  pub search_tiers-Asked :
      (tasks : List (Kind × ℤ)) (w : W) (found : KindMap (List SearchResult))
      → All (λ (k, _). asked k ≡ true) tasks
      → (search_tiers rt m query tasks w).0 ≡ ok found
      → All (λ k. All (Asked k) (results_at found k)) kinds
  unfolding search_tiers
  search_tiers-Asked tasks w found h e =
      let shuffled = All-perm _ (Permᴰ.symm (lawful.interleave-perm tasks)) h in
      let answers = run_searches-IsAnswer (rt.interleave tasks) w shuffled in
      let arrived = All-perm _ (Permᴰ.symm (lawful.interleave-perm _)) answers in
      let all_found = collect-IsFound Asked _ [] found arrived tt e in
      All-of _ (λ k. results_at-IsFound Asked found k all_found) kinds
