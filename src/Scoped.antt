-- ===== src/Scoped.antt =====
-- memory/scoped_manager_local.go: a manager whose reads and writes stay within the scope of the
-- context, which each method takes as an argument.
pub mod Isolation
pub mod Access
use llm_agent_memory.Common.{
  ℕ, ℤ, Bool, none, some, Option, List, [], ◌∷◌, map, Text, keep_if, if◌then◌else◌,
}
use llm_agent_memory.Errors.{Error, Result, ok, err, not_found, manager_required}
use llm_agent_memory.Contract.{
  Kind, MemoryItem, SearchResult, Stats, Scope, ListFilter, ListPage, ConsolidateOptions,
  ForgetOptions, Contract,
}
use llm_agent_memory.Scopes.{read_scope, stamp_scope}
use llm_agent_memory.Manager.{Manager, Method}
use llm_agent_memory.Manager
use llm_agent_memory.Manager.FanOut.{KindMap, Partial, search_all, list_all, stats_all}

pub record ScopedManager (W : Type 0) : Type 0 where
  pub inner : Manager W

unfoldable pub new_scoped_manager : {W : Type 0} → Option (Manager W) → Result (ScopedManager W)
new_scoped_manager none = err manager_required
new_scoped_manager (some m) = ok (record { inner = m })

module _ {W : Type 0} (c : Contract) (scope : Scope) (sm : ScopedManager W) where
  -- Whether an item lies in the scope of the context.
  abbrev pub in_scope : MemoryItem → Bool
  in_scope it = c.scope_matches scope (read_scope it)

  unfoldable pub add : Kind → MemoryItem → Method W Text
  unfolding stamp_scope
  add kind item w = Manager.add sm.inner kind (stamp_scope c item scope) w

  -- The inner `Get`, whose item must lie in the scope.
  unfoldable pub get : Kind → Text → Method W MemoryItem
  get kind id w =
      let (r, w') = Manager.get sm.inner kind id w in
      elim r [ err e ↦ (err e, w') | ok it ↦ (if in_scope it then ok it else err not_found, w') ]

  -- `Update` and `Remove` first get the item, and go on only if it lies in the scope.
  unfoldable pub guarded : Kind → Text → Method W (Unit {0}) → Method W (Unit {0})
  guarded kind id action w =
      let (r, w') = Manager.get sm.inner kind id w in
      elim r [
        | err e ↦ (err e, w')
        | ok it ↦ if in_scope it then action w' else (err not_found, w')
      ]

  unfoldable pub update : Kind → Text → (MemoryItem → MemoryItem) → Method W (Unit {0})
  unfolding guarded
  update kind id fn = guarded kind id (Manager.update sm.inner kind id fn)

  unfoldable pub remove : Kind → Text → Method W (Unit {0})
  unfolding guarded
  remove kind id = guarded kind id (Manager.remove sm.inner kind id)

  unfoldable pub filter_by_scope : List SearchResult → List SearchResult
  filter_by_scope results =
      if c.scope_is_zero scope then results else keep_if (λ r. in_scope r.item) results

  unfoldable pub search : Kind → Text → ℤ → Method W (List SearchResult)
  unfolding filter_by_scope
  search kind query top_k w =
      let (r, w') = Manager.search sm.inner kind query top_k w in
      elim r [ err e ↦ (err e, w') | ok raw ↦ (ok (filter_by_scope raw), w') ]

  unfoldable pub scoped_search_all : Text → ℤ → Method W (KindMap (List SearchResult))
  unfolding filter_by_scope
  scoped_search_all query top_k w =
      let ((raw, failed), w') = search_all sm.inner query top_k w in
      elim failed [
        | some e ↦ (err e, w')
        | none ↦ (ok (map (λ (k, results). (k, filter_by_scope results)) raw), w')
      ]

  unfoldable pub scoped_list_all : ListFilter → ℤ → KindMap Text → W → Partial ListPage × W
  scoped_list_all f page_size cursors w =
      let f' = if c.scope_is_zero scope then f else record f { scope = scope } in
      list_all sm.inner f' page_size cursors w

  unfoldable pub consolidate : ConsolidateOptions → Method W ℕ
  consolidate opts = Manager.consolidate sm.inner opts

  unfoldable pub forget : Kind → ForgetOptions → Method W ℕ
  forget kind opts = Manager.forget sm.inner kind opts

  unfoldable pub scoped_stats_all : W → KindMap Stats
  scoped_stats_all w = stats_all sm.inner w
