-- ===== src/Lifecycle/WorkingAlone.antt =====
-- The listings of memory/consolidator.go and memory/scoped_lifecycle.go over a manager whose only
-- tier is the working memory of memory/engine_working.go.
use mathlib.Core.Path.{fun_ext}
use llm_agent_memory.Common.{
  ◌≡◌, refl, ap, ◌∙◌, ℕ, zero, suc, ◌+◌, ◌<◌, ◌≤◌, ℤ, pos, none, some, List, [], ◌∷◌, Text, IsMap,
  Permᴰ, Runtime, IsLawful, length, All, if◌then◌else◌, inl, inr,
}
use llm_agent_memory.Errors.{Result-cases, ok}
use llm_agent_memory.Contract.{working, MemoryItem, ListFilter, Scope, Contract, Time}
use llm_agent_memory.Store.{Embedder}
use llm_agent_memory.Store.Keyed.{IsKeyed}
use llm_agent_memory.Listing.{CursorCodec, IsFaithful, candidates, list_from_store, max_int}
use llm_agent_memory.Listing.Complete.{gather, IsEncodable}
use llm_agent_memory.Listing.Pages.{IsListing}
use llm_agent_memory.Listing.Stores.{matching, follow_store, follow-store}
use llm_agent_memory.Engines.Working.{WorkingMemory}
use llm_agent_memory.Manager.{Manager, no_tier, tier_for}
use llm_agent_memory.Manager.FanOut.{KindMap, cursor_at, list_all, fan_out, lister_at}
use llm_agent_memory.Scoped.{scoped_list_all}
use llm_agent_memory.Tiers.{working_tier}
use llm_agent_memory.Lifecycle.Paging.{no_filter, list_all_scoped, paging_loop}
use llm_agent_memory.Lifecycle.OneKind.{one, follows, paging_loop-follows}

module _ (rt : Runtime) (lawful : IsLawful rt) (c : Contract) (codec : CursorCodec)
    (faithful : IsFaithful codec) (e : Embedder) (stamp : ℕ) (now : Time) where
  abbrev pub working_alone : Manager WorkingMemory
  working_alone = record {
    opts = record {
      working = record no_tier { memory = some (working_tier rt c codec e stamp now) };
      episodic = no_tier;
      semantic = no_tier;
      snapshot_store = none;
    };
  }

  list_all-one :
      (f : ListFilter) (size : ℤ) (cursors : KindMap Text) (w : WorkingMemory)
      → list_all working_alone f size cursors w
        ≡ (one working (list_from_store rt c codec w.store f size (cursor_at cursors working)), w)
  unfolding list_all fan_out lister_at tier_for working_tier
  list_all-one f size cursors w =
      elim (Result-cases (list_from_store rt c codec w.store f size (cursor_at cursors working))) [
        | inl (page, g) ↦ rw (list_all, fan_out, lister_at, g) refl
        | inr (x, g) ↦ rw (list_all, fan_out, lister_at, g) refl
      ]

  follows-follow_store :
      (s : WorkingMemory) (f : ListFilter) (size : ℤ) (fuel : ℕ) (cursor : Text)
      → follows (list_from_store rt c codec s.store f size) fuel cursor
        ≡ follow_store rt c codec s.store f size fuel cursor
  unfolding follows follow_store
  follows-follow_store s f size zero cursor = refl
  follows-follow_store s f size (suc fuel) cursor =
      ap (gather (list_from_store rt c codec s.store f size cursor))
        (fun_ext (follows-follow_store s f size fuel))

  -- The filter that reaches the store.
  abbrev pub scoped_filter : Scope → ListFilter
  scoped_filter scope =
      if c.scope_is_zero scope then no_filter else record no_filter { scope = scope }

  module _ (w : WorkingMemory) (unique : IsMap w.store.items) (keyed : IsKeyed w.store.items) where
    -- With fuel for more rounds than the store has matching items, the loop over the pages of the
    -- working memory alone returns exactly those, each once and newest first.
    listed_alone :
        (f : ListFilter) (fuel : ℕ)
        → All (IsEncodable codec) (candidates rt c w.store f)
        → length (candidates rt c w.store f) + 200 ≤ max_int
        → length (candidates rt c w.store f) < fuel
        → (found : List MemoryItem) × (paging_loop rt
              (list_all working_alone f (pos 200))
              fuel
              []
              []
              w
            ≡ some (ok ((working, found) ∷ []), w))
          × Permᴰ found (matching rt c w.store f)
          × IsListing found
    listed_alone f fuel encodable fits enough =
        let (found, g, p, l) =
          follow-store rt lawful c codec faithful w.store f (pos 200) fuel unique keyed encodable
            fits enough in
        (
          found,
          paging_loop-follows rt lawful working (list_from_store rt c codec w.store f (pos 200))
              (list_all working_alone f (pos 200)) w (λ cursors. list_all-one f (pos 200) cursors w)
              fuel found (follows-follow_store w f (pos 200) fuel [] ∙ g),
          p,
          l,
        )

    pub list_all_scoped-alone :
        (scope : Scope) (fuel : ℕ)
        → All (IsEncodable codec) (candidates rt c w.store (scoped_filter scope))
        → length (candidates rt c w.store (scoped_filter scope)) + 200 ≤ max_int
        → length (candidates rt c w.store (scoped_filter scope)) < fuel
        → (found : List MemoryItem) × (list_all_scoped rt c scope fuel
              (record { inner = working_alone })
              (pos 200)
              w
            ≡ some (ok ((working, found) ∷ []), w))
          × Permᴰ found (matching rt c w.store (scoped_filter scope))
          × IsListing found
    unfolding list_all_scoped scoped_list_all
    list_all_scoped-alone scope = listed_alone (scoped_filter scope)
