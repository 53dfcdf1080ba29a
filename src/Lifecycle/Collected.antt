-- ===== src/Lifecycle/Collected.antt =====
-- What one round of the paging loop collects, by lookups.
use llm_agent_memory.Common.{
  ◌≡◌, refl, ◌∙◌, false, Option, none, some, List, [], ◌∷◌, ◌++◌, map, Text, text_eq_iff, All,
  All-mono, All-zip, if◌then◌else◌, arith, inl, inr, ◌⊎◌,
}
use llm_agent_memory.Contract.{Kind, kind_eq, MemoryItem, ListPage}
use llm_agent_memory.Manager.FanOut.{KindMap, lookup_kind, cursor_at}
use llm_agent_memory.Manager.Kinds.{kind_eq_iff, kind_eq_refl, IsKindMap}
use llm_agent_memory.Lifecycle.Paging.{
  items_of, at_kind, append_at, collect_items, next_cursors, Listed,
}

pub List-cases {ℓ} : {A : Type ℓ} (l : List A) → (l ≡ []) ⊎ ((x : A) × (xs : List A) × (l ≡ x ∷ xs))
List-cases [] = inl refl
List-cases (x ∷ xs) = inr (x, xs, refl)

pub lookup-append_at :
    (k j : Kind) (items : List MemoryItem) (out : Listed)
    → lookup_kind j (append_at k items out)
      ≡ (if kind_eq k j then some (at_kind out k ++ items) else lookup_kind j out)
unfolding lookup_kind append_at
lookup-append_at k j items [] = ground arith
lookup-append_at k j items ((i, old) ∷ out) =
    ground
      (arith, lookup-append_at k j items out, kind_eq_iff i k, kind_eq_iff i j, kind_eq_iff k j)

pub no_cursor : (k : Kind) → cursor_at [] k ≡ []
unfolding lookup_kind
no_cursor k = refl

pub no_item : (k : Kind) → at_kind [] k ≡ []
unfolding lookup_kind
no_item k = refl

abbrev pub extended : Option ListPage → Option (List MemoryItem) → Option (List MemoryItem)
extended none old = old
extended (some page) old = some (items_of old ++ page.items)

pub lookup-collect_items :
    (pages : KindMap ListPage) (out : Listed) (j : Kind)
    → IsKindMap pages
    → lookup_kind j (collect_items pages out) ≡ extended (lookup_kind j pages) (lookup_kind j out)
unfolding lookup_kind collect_items
lookup-collect_items [] out j h = refl
lookup-collect_items ((k, page) ∷ pages) out j h =
    lookup-collect_items pages (append_at k page.items out) j h.1
    ∙ ground (arith, h.0, lookup-append_at k j page.items out, kind_eq_iff k j)

-- The next cursor of a page, where there is one.
abbrev pub cursor_of : Option ListPage → Text
cursor_of none = []
cursor_of (some page) = page.next_cursor

pub cursor_at-next_cursors :
    (pages : KindMap ListPage) (j : Kind)
    → IsKindMap pages
    → cursor_at (next_cursors pages) j ≡ cursor_of (lookup_kind j pages)
unfolding lookup_kind next_cursors
cursor_at-next_cursors [] j h = refl
cursor_at-next_cursors ((k, page) ∷ pages) j h = ground (
  arith,
  h.0,
  cursor_at-next_cursors pages j h.1,
  kind_eq_iff k j,
  text_eq_iff page.next_cursor [],
)

-- No next cursor is left where every page is a last one.
pub next_cursors_last :
    (pages : KindMap ListPage)
    → All (λ (_, page). page.next_cursor ≡ []) pages
    → next_cursors pages ≡ []
unfolding next_cursors
next_cursors_last [] h = refl
next_cursors_last ((k, page) ∷ pages) h =
    ground (arith, h.0, next_cursors_last pages h.1, text_eq_iff page.next_cursor [])

abbrev pub HasDistinctKinds : List Kind → Type 0
HasDistinctKinds [] = Unit
HasDistinctKinds (k ∷ ks) = All (λ j. kind_eq k j ≡ false) ks × HasDistinctKinds ks

module _ {A : Type 0} (f : Kind → A) where
  -- The map that gives each of the kinds its value.
  abbrev pub tabulated : List Kind → KindMap A
  tabulated ks = map (λ k. (k, f k)) ks

  lookup-tabulated_ne :
      (k : Kind) (ks : List Kind)
      → All (λ j. kind_eq k j ≡ false) ks
      → lookup_kind k (tabulated ks) ≡ none
  unfolding lookup_kind
  lookup-tabulated_ne k [] h = refl
  lookup-tabulated_ne k (j ∷ ks) h =
      ground (arith, h.0, lookup-tabulated_ne k ks h.1, kind_eq_iff k j, kind_eq_iff j k)

  pub tabulated-IsKindMap : (ks : List Kind) → HasDistinctKinds ks → IsKindMap (tabulated ks)
  tabulated-IsKindMap [] h = tt
  tabulated-IsKindMap (k ∷ ks) h = (lookup-tabulated_ne k ks h.0, tabulated-IsKindMap ks h.1)

  lookup-tabulated_cons :
      (k j : Kind) (ks : List Kind)
      → kind_eq k j ≡ false
      → lookup_kind j (tabulated ks) ≡ some (f j)
      → lookup_kind j (tabulated (k ∷ ks)) ≡ some (f j)
  unfolding lookup_kind
  lookup-tabulated_cons k j ks h e = ground (arith, h, e)

  pub lookup-tabulated :
      (ks : List Kind)
      → HasDistinctKinds ks
      → All (λ k. lookup_kind k (tabulated ks) ≡ some (f k)) ks
  unfolding lookup_kind
  lookup-tabulated [] h = tt
  lookup-tabulated (k ∷ ks) h = (
    ground (arith, kind_eq_refl k),
    All-mono (λ j p. lookup-tabulated_cons k j ks p.0 p.1) ks
        (All-zip _ _ ks h.0 (lookup-tabulated ks h.1)),
  )
