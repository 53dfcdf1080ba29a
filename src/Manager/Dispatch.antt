-- ===== src/Manager/Dispatch.antt =====
-- Which memory a call of the manager reaches.
use llm_agent_memory.Common.{
  ◌≡◌, refl, ℤ, true, false, Option, none, some, Text, Option-cases, inl, inr, ◌⊎◌, not,
}
use llm_agent_memory.Errors.{Error, ok, err, wrapped, tier_disabled, unknown_kind}
use llm_agent_memory.Contract.{Kind, working, episodic, semantic, MemoryItem}
use llm_agent_memory.Manager.{
  Manager, Memory, has_kind, tier_for, require_memory, memory_of_tier, require_local_memory,
  dispatch, is_nil, add, get, update, remove, search,
}

-- The error for a kind that the manager does not have.
abbrev pub missing_error : Kind → Error
missing_error (Kind.unlisted s) = wrapped unknown_kind
missing_error _ = wrapped tier_disabled

module _ {W : Type 0} where
  -- The five calls fail with `e` and leave the world alone.
  abbrev pub Refuses : Manager W → Kind → Error → Type 0
  Refuses m kind e =
      ((item : MemoryItem) (w : W) → add m kind item w ≡ (err e, w))
      × ((id : Text) (w : W) → get m kind id w ≡ (err e, w))
      × ((id : Text) (fn : MemoryItem → MemoryItem) (w : W) → update m kind id fn w ≡ (err e, w))
      × ((id : Text) (w : W) → remove m kind id w ≡ (err e, w))
      × ((query : Text) (top_k : ℤ) (w : W) → search m kind query top_k w ≡ (err e, w))

  -- The five calls are those of the memory.
  abbrev pub Reaches : Manager W → Kind → Memory W → Type 0
  Reaches m kind mem =
      ((item : MemoryItem) (w : W) → add m kind item w ≡ mem.add item w)
      × ((id : Text) (w : W) → get m kind id w ≡ mem.get id w)
      × ((id : Text) (fn : MemoryItem → MemoryItem) (w : W)
          → update m kind id fn w ≡ mem.update id fn w)
      × ((id : Text) (w : W) → remove m kind id w ≡ mem.remove id w)
      × ((query : Text) (top_k : ℤ) (w : W)
          → search m kind query top_k w ≡ mem.search query top_k w)

  refuses :
      (m : Manager W) (kind : Kind) (e : Error) → require_memory m kind ≡ err e → Refuses m kind e
  unfolding add get update remove search dispatch
  refuses m kind e h = (
    λ item w. rw (add, h) refl,
    λ id w. rw (get, h) refl,
    λ id fn w. rw (update, h) refl,
    λ id w. rw (remove, h) refl,
    λ query top_k w. rw (search, h) refl,
  )

  reaches :
      (m : Manager W) (kind : Kind) (mem : Memory W)
      → require_memory m kind ≡ ok mem
      → Reaches m kind mem
  unfolding add get update remove search dispatch
  reaches m kind mem h = (
    λ item w. rw (add, h) refl,
    λ id w. rw (get, h) refl,
    λ id fn w. rw (update, h) refl,
    λ id w. rw (remove, h) refl,
    λ query top_k w. rw (search, h) refl,
  )

  -- The tier of a kind, by name.
  abbrev pub tier_memory : Manager W → Kind → Option (Memory W)
  tier_memory m working = m.opts.working.memory
  tier_memory m episodic = m.opts.episodic.memory
  tier_memory m semantic = m.opts.semantic.memory
  tier_memory m (Kind.unlisted s) = none

  tier_missing :
      (m : Manager W) (kind : Kind)
      → tier_memory m kind ≡ none
      → require_memory m kind ≡ err (missing_error kind)
  unfolding require_memory memory_of_tier tier_for
  tier_missing m working h = rw (require_memory, h) refl
  tier_missing m episodic h = rw (require_memory, h) refl
  tier_missing m semantic h = rw (require_memory, h) refl
  tier_missing m (Kind.unlisted s) h = refl

  tier_found :
      (m : Manager W) (kind : Kind) (mem : Memory W)
      → tier_memory m kind ≡ some mem
      → require_memory m kind ≡ ok mem
  unfolding require_memory memory_of_tier tier_for require_local_memory
  tier_found m working mem h = rw (require_memory, h) refl
  tier_found m episodic mem h = rw (require_memory, h) refl
  tier_found m semantic mem h = rw (require_memory, h) refl
  tier_found m (Kind.unlisted s) mem h = cc h

  has_kind-tier_memory :
      (m : Manager W) (kind : Kind) → has_kind m kind ≡ not (is_nil (tier_memory m kind))
  unfolding has_kind tier_for
  has_kind-tier_memory m working = refl
  has_kind-tier_memory m episodic = refl
  has_kind-tier_memory m semantic = refl
  has_kind-tier_memory m (Kind.unlisted s) = refl

  -- A kind is either one that the manager has, and then each of the five calls is the call of that
  -- tier's own memory; or it has none, and then each call fails with one and the same error,
  -- "unknown kind" for a name that is no tier's and "tier disabled" for a tier without a memory,
  -- and changes nothing.
  pub dispatch-has_kind :
      (m : Manager W) (kind : Kind)
      → ((has_kind m kind ≡ true)
          × (mem : Memory W) × (tier_memory m kind ≡ some mem)
          × Reaches m kind mem)
        ⊎ ((has_kind m kind ≡ false) × Refuses m kind (missing_error kind))
  dispatch-has_kind m kind = elim (Option-cases (tier_memory m kind)) [
    | inl e ↦
        inr (rw (has_kind-tier_memory m kind, e) refl, refuses m kind _ (tier_missing m kind e))
    | inr (mem, e) ↦ inl (
      rw (has_kind-tier_memory m kind, e) refl,
      mem,
      e,
      reaches m kind mem (tier_found m kind mem e),
    )
  ]
