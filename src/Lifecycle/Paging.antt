-- ===== src/Lifecycle/Paging.antt =====
-- `listAllPaged` of memory/consolidator.go and `listAllScoped` of memory/scoped_lifecycle.go, which
-- are one loop over two ways of listing: they ask for a page of every kind until no page has a next
-- cursor. The loop has no bound, so it takes fuel; `none` means that the fuel ran out.
use llm_agent_memory.Common.{
  ℕ, zero, suc, ℤ, pos, false, Option, none, some, List, [], ◌∷◌, ◌++◌, Text, text_eq, Runtime,
  positive_or, if◌then◌else◌,
}
use llm_agent_memory.Errors.{Result, ok, err, wrapped}
use llm_agent_memory.Contract.{
  Kind, kind_eq, MemoryItem, ListFilter, ListPage, Scope, zero_scope, Contract,
}
use llm_agent_memory.Manager.{Manager}
use llm_agent_memory.Manager.FanOut.{KindMap, Partial, lookup_kind, list_all}
use llm_agent_memory.Scoped.{ScopedManager, scoped_list_all}

-- `ListFilter{}`
abbrev pub no_filter : ListFilter
no_filter = record {
  include_disabled = false;
  pinned_only = false;
  source = [];
  category = [];
  scope = zero_scope;
  min_importance = 0;
  tags = [];
}

-- `out[kind] = append(out[kind], items...)`
unfoldable pub append_at : {A : Type 0} → Kind → List A → KindMap (List A) → KindMap (List A)
append_at k items [] = (k, items) ∷ []
append_at k items ((j, old) ∷ out) =
    let rest = append_at k items out in
    if kind_eq j k then (j, old ++ items) ∷ out else (j, old) ∷ rest

-- What the loop over the pages adds to `out`, and the next cursors that it collects.
unfoldable pub collect_items :
    KindMap ListPage → KindMap (List MemoryItem) → KindMap (List MemoryItem)
unfolding append_at
collect_items [] out = out
collect_items ((k, page) ∷ pages) out = collect_items pages (append_at k page.items out)

unfoldable pub next_cursors : KindMap ListPage → KindMap Text
next_cursors [] = []
next_cursors ((k, page) ∷ pages) =
    let rest = next_cursors pages in
    if text_eq page.next_cursor [] then rest else (k, page.next_cursor) ∷ rest

-- A page of every kind, each after its cursor.
abbrev pub Pager : Type 0 → Type 0
Pager W = KindMap Text → W → Partial ListPage × W

abbrev pub Listed : Type 0
Listed = KindMap (List MemoryItem)

-- What is collected for a kind.
abbrev pub items_of : Option (List MemoryItem) → List MemoryItem
items_of none = []
items_of (some items) = items

abbrev pub at_kind : Listed → Kind → List MemoryItem
at_kind out k = items_of (lookup_kind k out)

-- The body of the loop, after the pages have come: `more` is the next round.
module _ {W : Type 0} (rt : Runtime)
    (more : Listed → KindMap Text → W → Option (Result Listed × W)) where
  abbrev pub after_cursors : Listed → KindMap Text → W → Option (Result Listed × W)
  after_cursors out [] w = some (ok out, w)
  after_cursors out (next ∷ rest) w = more out (next ∷ rest) w

  abbrev pub after_pages : Listed → Partial ListPage × W → Option (Result Listed × W)
  after_pages out ((pages, some e), w) = some (err (wrapped e), w)
  after_pages out ((pages, none), w) =
      after_cursors (collect_items (rt.range pages) out) (next_cursors (rt.range pages)) w

unfoldable pub paging_loop :
    {W : Type 0} → Runtime → Pager W → ℕ → Listed → KindMap Text → W → Option (Result Listed × W)
unfolding collect_items next_cursors
paging_loop rt pager zero out cursors w = none
paging_loop rt pager (suc fuel) out cursors w =
    after_pages rt (paging_loop rt pager fuel) out (pager cursors w)

module _ {W : Type 0} (rt : Runtime) where
  -- The manager's pages, of every item.
  unfoldable pub list_all_paged : ℕ → Manager W → ℤ → W → Option (Result Listed × W)
  unfolding paging_loop
  list_all_paged fuel m page_size w =
      paging_loop rt (list_all m no_filter (pos (positive_or 200 page_size))) fuel [] [] w

  -- The scoped manager's pages, of the items of the scope.
  unfoldable pub list_all_scoped :
      Contract → Scope → ℕ → ScopedManager W → ℤ → W → Option (Result Listed × W)
  unfolding paging_loop
  list_all_scoped c scope fuel sm page_size w =
      paging_loop rt (scoped_list_all c scope sm no_filter (pos (positive_or 200 page_size))) fuel
        [] [] w
