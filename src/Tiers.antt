-- ===== src/Tiers.antt =====
-- The methods of the three engines as a manager sees them (memory/engine_working.go,
-- memory/engine_semantic.go, memory/engine_episodic.go): most of them pass on to the scored store.
-- The clock readings within one call of a tier are one reading, `now`.
pub mod Restore
use llm_agent_memory.Common.{List, ℕ, ℤ, pos, not, Option, none, some, Text, Runtime, if◌then◌else◌}
use llm_agent_memory.Errors.{
  Result, ok, err, wrapped, embedder_required, snapshot_kind_mismatch, ◌>>=◌,
}
use llm_agent_memory.Contract.{
  Time, Kind, kind_eq, MemoryItem, SearchResult, Snapshot, ImportMode, replace, ImportReport,
  Contract,
}
use llm_agent_memory.Store.{Store, Embedder, add, get, update, remove}
use llm_agent_memory.Store.Statistics.{stats}
use llm_agent_memory.Listing.{CursorCodec, list_from_store}
use llm_agent_memory.Snapshots.{export_from_store, import_into_store}
use llm_agent_memory.Engines.Working.{WorkingMemory, WorkingOptions, new_working, add_working}
use llm_agent_memory.Engines.Working
use llm_agent_memory.Engines.Semantic.{SemanticMemory, SemanticOptions, new_semantic}
use llm_agent_memory.Engines.Semantic
use llm_agent_memory.Engines.Episodic.{EpisodicMemory, EpisodicOptions, new_episodic}
use llm_agent_memory.Engines.Episodic
use llm_agent_memory.Manager.{Memory, Method}

-- `Import` of an engine: a snapshot of another kind is refused.
unfoldable pub import_kind :
    Contract → Kind → Snapshot → ImportMode → Store → Result ImportReport × Store
unfolding kind_eq
import_kind c kind snap mode s =
    if not (kind_eq snap.kind kind)
    then (err (wrapped snapshot_kind_mismatch), s)
    else import_into_store c snap mode s

-- A method of an engine that is a method of its store.
abbrev pub through :
    {E A : Type 0} → (E → Store) → (E → Store → E) → (Store → Result A × Store) → Method E A
through store put method m = let (r, s) = method (store m) in (r, put m s)

module _ (rt : Runtime) (c : Contract) (codec : CursorCodec) (e : Embedder) (stamp : ℕ)
    (now : Time) where
  -- A memory whose methods pass on to its store, but for `Add` and `Search`.
  abbrev pub store_memory :
      {E : Type 0}
      → Kind
      → (E → ℤ)
      → (E → Store)
      → (E → Store → E)
      → (MemoryItem → Method E Text)
      → (Text → ℤ → E → Result (List SearchResult))
      → Memory E
  store_memory kind capacity store put add_item search_items = record {
    kind = kind;
    add = add_item;
    search = λ query top_k m. (search_items query top_k m, m);
    get = λ id. through store put (get now id);
    update = λ id fn. through store put (update e now id fn);
    remove = λ id. through store put (remove id);
    stats = λ m. stats rt now now (capacity m) (store m);
    as_lister = some (λ f size cursor m. (list_from_store rt c codec (store m) f size cursor, m));
    as_exporter = some (λ m. (ok (export_from_store rt c (store m) kind), m));
    as_importer = some (λ snap mode. through store put (import_kind c kind snap mode));
  }

  unfoldable pub working_tier : Memory WorkingMemory
  unfolding import_kind
  working_tier =
      store_memory Kind.working (λ w. w.opts.capacity) (λ w. w.store)
        (λ w s. record w { store = s }) (add_working rt c now e stamp) (Working.search rt c now e)

  unfoldable pub semantic_tier : Memory SemanticMemory
  unfolding import_kind
  semantic_tier =
      store_memory Kind.semantic (λ m. pos 0) (λ m. m.store) (λ m s. record m { store = s })
        (λ item. through (λ m. m.store) (λ m s. record m { store = s }) (add e stamp now item))
        (Semantic.search rt c e)

  unfoldable pub episodic_tier : Memory EpisodicMemory
  unfolding import_kind
  episodic_tier =
      store_memory Kind.episodic (λ m. pos 0) (λ m. m.store) (λ m s. record m { store = s })
        (λ item. through (λ m. m.store) (λ m s. record m { store = s }) (add e stamp now item))
        (Episodic.search rt c now e)

-- The engine of a constructor with a snapshot imported into it.
abbrev pub restored : {E : Type 0} → Result E → (E → Result ImportReport × E) → Result E
restored made load = do m ← made; let (r, m') = load m; r >>= λ _. ok m'

unfoldable pub restore_working :
    Contract → Option Embedder → Snapshot → WorkingOptions → Result WorkingMemory
unfolding new_working import_kind
restore_working c none snap opts = err embedder_required
restore_working c (some e) snap opts = restored (new_working (some e) opts) (
    through (λ w. w.store) (λ w s. record w { store = s })
      (import_kind c Kind.working snap replace))

unfoldable pub restore_semantic :
    Runtime → Contract → Option Embedder → Snapshot → SemanticOptions → Result SemanticMemory
unfolding new_semantic import_kind
restore_semantic rt c none snap opts = err embedder_required
restore_semantic rt c (some e) snap opts = restored (new_semantic rt (some e) opts) (
    through (λ m. m.store) (λ m s. record m { store = s })
      (import_kind c Kind.semantic snap replace))

unfoldable pub restore_episodic :
    Runtime → Contract → Option Embedder → Snapshot → EpisodicOptions → Result EpisodicMemory
unfolding new_episodic import_kind
restore_episodic rt c none snap opts = err embedder_required
restore_episodic rt c (some e) snap opts = restored (new_episodic rt (some e) opts) (
    through (λ m. m.store) (λ m s. record m { store = s })
      (import_kind c Kind.episodic snap replace))
