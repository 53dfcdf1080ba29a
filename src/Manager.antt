-- ===== src/Manager.antt =====
-- memory/manager.go: the coordinator of the three tiers. A tier's memory is any object with the
-- methods of the `Memory` interface; its methods act on a world `W` that all objects share, and may
-- do anything to it.
pub mod Dispatch
pub mod Kinds
pub mod FanOut
pub mod Persistence
pub mod Selections
pub mod Worlds
use llm_agent_memory.Common.{
  ℕ, ℤ, Bool, true, false, not, ◌&&◌, Option, none, some, List, [], ◌∷◌, Text, if◌then◌else◌,
}
use llm_agent_memory.Errors.{
  Result, ok, err, wrapped, no_tiers, tier_disabled, unknown_kind, unsupported_memory,
  capability_missing,
}
use llm_agent_memory.Contract.{
  Kind, working, episodic, semantic, MemoryItem, SearchResult, Stats, ListFilter, ListPage,
  Snapshot, ImportMode, ImportReport, ConsolidateOptions, ForgetOptions,
}

-- A method that may fail and changes the world.
abbrev pub Method : Type 0 → Type 0 → Type 0
Method W A = W → Result A × W

abbrev pub Lister : Type 0 → Type 0
Lister W = ListFilter → ℤ → Text → Method W ListPage

abbrev pub Exporter : Type 0 → Type 0
Exporter W = Method W Snapshot

abbrev pub Importer : Type 0 → Type 0
Importer W = Snapshot → ImportMode → Method W ImportReport

-- The methods of a memory. The last three are what a type assertion on it finds.
pub record Memory (W : Type 0) : Type 0 where
  pub kind : Kind
  pub add : MemoryItem → Method W Text
  pub search : Text → ℤ → Method W (List SearchResult)
  pub get : Text → Method W MemoryItem
  pub update : Text → (MemoryItem → MemoryItem) → Method W (Unit {0})
  pub remove : Text → Method W (Unit {0})
  pub stats : W → Stats
  pub as_lister : Option (Lister W)
  pub as_exporter : Option (Exporter W)
  pub as_importer : Option (Importer W)

pub record LifecycleMemory (W : Type 0) : Type 0 where
  pub consolidate : ConsolidateOptions → Method W ℕ
  pub forget : Kind → ForgetOptions → Method W ℕ

pub record TierOptions (W : Type 0) : Type 0 where
  pub memory : Option (Memory W)
  pub lister : Option (Lister W)
  pub exporter : Option (Exporter W)
  pub importer : Option (Importer W)
  pub lifecycle : Option (LifecycleMemory W)

-- A store of snapshots; `load_kind` is the method that a type assertion on it may find.
pub record SnapshotStore (W : Type 0) : Type 0 where
  pub save : Text → Snapshot → Method W (Unit {0})
  pub load : Text → Method W Snapshot
  pub load_kind : Option (Text → Kind → Method W Snapshot)

pub record Options (W : Type 0) : Type 0 where
  pub working : TierOptions W
  pub episodic : TierOptions W
  pub semantic : TierOptions W
  pub snapshot_store : Option (SnapshotStore W)

pub record Manager (W : Type 0) : Type 0 where
  pub opts : Options W

abbrev pub kinds : List Kind
kinds = working ∷ episodic ∷ semantic ∷ []

abbrev pub is_nil {ℓ} : {A : Type ℓ} → Option A → Bool
is_nil none = true
is_nil (some a) = false

module _ {W : Type 0} where
  -- The zero value of `TierOptions`.
  abbrev pub no_tier : TierOptions W
  no_tier = record {
    memory = none;
    lister = none;
    exporter = none;
    importer = none;
    lifecycle = none;
  }

  unfoldable pub new_manager : Options W → Result (Manager W)
  new_manager opts =
      if is_nil opts.working.memory && (is_nil opts.episodic.memory && is_nil opts.semantic.memory)
      then err no_tiers
      else ok (record { opts = opts })

  unfoldable pub tier_for : Manager W → Kind → Result (TierOptions W)
  tier_for m working = ok m.opts.working
  tier_for m episodic = ok m.opts.episodic
  tier_for m semantic = ok m.opts.semantic
  tier_for m (Kind.unlisted s) = err (wrapped unknown_kind)

  -- `t, _ := m.tierFor(kind)`
  abbrev pub tier_or_none : Result (TierOptions W) → TierOptions W
  tier_or_none (ok t) = t
  tier_or_none (err e) = no_tier

  -- Whatever is not nil has the methods of `Memory`.
  unfoldable pub require_local_memory : Option (Memory W) → Result (Memory W)
  require_local_memory none = err unsupported_memory
  require_local_memory (some mem) = ok mem

  unfoldable pub has_kind : Manager W → Kind → Bool
  unfolding tier_for
  has_kind m kind = not (is_nil (tier_or_none (tier_for m kind)).memory)

  -- The memory of a tier, if it has one.
  unfoldable pub memory_of_tier : Result (TierOptions W) → Result (Memory W)
  unfolding require_local_memory
  memory_of_tier (err e) = err e
  memory_of_tier (ok t) = elim t.memory [
    | none ↦ err (wrapped tier_disabled)
    | some mem ↦ require_local_memory (some mem)
  ]

  unfoldable pub require_memory : Manager W → Kind → Result (Memory W)
  unfolding tier_for memory_of_tier
  require_memory m kind = memory_of_tier (tier_for m kind)

  -- A call of the memory that is required; without one, the error, and the world as it is.
  unfoldable pub dispatch : {A : Type 0} → Result (Memory W) → (Memory W → Method W A) → Method W A
  dispatch (err e) call w = (err e, w)
  dispatch (ok mem) call w = call mem w

  unfoldable pub add : Manager W → Kind → MemoryItem → Method W Text
  unfolding dispatch require_memory
  add m kind item = dispatch (require_memory m kind) (λ mem. mem.add item)

  unfoldable pub get : Manager W → Kind → Text → Method W MemoryItem
  unfolding dispatch require_memory
  get m kind id = dispatch (require_memory m kind) (λ mem. mem.get id)

  unfoldable pub update : Manager W → Kind → Text → (MemoryItem → MemoryItem) → Method W (Unit {0})
  unfolding dispatch require_memory
  update m kind id fn = dispatch (require_memory m kind) (λ mem. mem.update id fn)

  unfoldable pub remove : Manager W → Kind → Text → Method W (Unit {0})
  unfolding dispatch require_memory
  remove m kind id = dispatch (require_memory m kind) (λ mem. mem.remove id)

  unfoldable pub search : Manager W → Kind → Text → ℤ → Method W (List SearchResult)
  unfolding dispatch require_memory
  search m kind query top_k = dispatch (require_memory m kind) (λ mem. mem.search query top_k)

  unfoldable pub consolidate : Manager W → ConsolidateOptions → Method W ℕ
  consolidate m opts w = elim m.opts.working.lifecycle [
    | none ↦ (err (wrapped capability_missing), w)
    | some l ↦ l.consolidate opts w
  ]

  unfoldable pub forget : Manager W → Kind → ForgetOptions → Method W ℕ
  unfolding tier_for
  forget m kind opts w = elim (tier_for m kind) [
    | err e ↦ (err e, w)
    | ok t ↦ elim t.lifecycle [
      | none ↦ (err (wrapped capability_missing), w)
      | some l ↦ l.forget kind opts w
    ]
  ]
