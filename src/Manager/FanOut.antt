-- ===== src/Manager/FanOut.antt =====
-- The methods of the manager that visit every tier: StatsAll, SearchAll and ListAll.
use llm_agent_memory.Common.{ℤ, Option, none, some, List, [], ◌∷◌, ◌++◌, Text}
use llm_agent_memory.Errors.{Error, Result, ok, err, wrapped}
use llm_agent_memory.Contract.{Kind, kind_eq, SearchResult, Stats, ListFilter, ListPage}
use llm_agent_memory.Common.{if◌then◌else◌}
use llm_agent_memory.Manager.{Manager, Memory, Method, Lister, tier_for, tier_or_none, kinds}

-- A map from kinds, in the order in which `range` visits it.
abbrev pub KindMap : Type 0 → Type 0
KindMap A = List (Kind × A)

unfoldable pub lookup_kind : {A : Type 0} → Kind → KindMap A → Option A
unfolding kind_eq
lookup_kind k [] = none
lookup_kind k ((j, a) ∷ m) = if kind_eq j k then some a else lookup_kind k m

-- `cursors[kind]`
abbrev pub cursor_at : KindMap Text → Kind → Text
cursor_at cursors kind = elim (lookup_kind kind cursors) [ none ↦ [] | some c ↦ c ]

-- What a fan-out returns: the map so far, also beside an error.
abbrev pub Partial : Type 0 → Type 0
Partial A = KindMap A × Option Error

module _ {W A : Type 0} where
  -- The loop over the kinds; a visit that gives `none` skips the tier, one that fails ends the
  -- loop.
  unfoldable pub fan_out :
      (Kind → W → Option (Result A) × W) → List Kind → KindMap A → W → Partial A × W
  fan_out visit [] out w = ((out, none), w)
  fan_out visit (k ∷ ks) out w =
      let (r, w') = visit k w in
      elim r [
        | none ↦ fan_out visit ks out w'
        | some (err e) ↦ ((out, some (wrapped e)), w')
        | some (ok a) ↦ fan_out visit ks (out ++ (k, a) ∷ []) w'
      ]

  -- A method called on an object that may be missing.
  abbrev pub visit_with : {B : Type 0} → Option B → (B → Method W A) → W → Option (Result A) × W
  visit_with none call w = (none, w)
  visit_with (some b) call w = let (r, w') = call b w in (some r, w')

module _ {W : Type 0} (m : Manager W) where
  abbrev pub memory_at : Kind → Option (Memory W)
  memory_at kind = (tier_or_none (tier_for m kind)).memory

  -- The kinds of `kinds` whose tier has a memory, with its statistics.
  unfoldable pub stats_loop : List Kind → W → KindMap Stats
  unfolding tier_for
  stats_loop [] w = []
  stats_loop (k ∷ ks) w =
      let rest = stats_loop ks w in
      elim (memory_at k) [ none ↦ rest | some mem ↦ (k, mem.stats w) ∷ rest ]

  unfoldable pub stats_all : W → KindMap Stats
  unfolding stats_loop
  stats_all w = stats_loop kinds w

  unfoldable pub search_all : Text → ℤ → W → Partial (List SearchResult) × W
  unfolding fan_out tier_for
  search_all query top_k w =
      fan_out (λ kind. visit_with (memory_at kind) (λ mem. mem.search query top_k)) kinds [] w

  -- `Tier.Lister`, or the memory itself if it is a lister.
  unfoldable pub lister_at : Kind → Option (Lister W)
  unfolding tier_for
  lister_at kind = elim (memory_at kind) [
    | none ↦ none
    | some mem ↦ elim (tier_or_none (tier_for m kind)).lister [
      | none ↦ mem.as_lister
      | some l ↦ some l
    ]
  ]

  unfoldable pub list_all : ListFilter → ℤ → KindMap Text → W → Partial ListPage × W
  unfolding fan_out lister_at
  list_all f page_size cursors w =
      fan_out
        (λ kind.
          visit_with (lister_at kind) (λ lister. lister f page_size (cursor_at cursors kind)))
        kinds [] w
