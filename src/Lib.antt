-- ===== src/Lib.antt =====
-- The memory engines of this repository (package `memory`), as a verification library.
--
-- The program keeps an agent's memories in three tiers: working, episodic and semantic. Each tier is
-- an engine over a scored store, a map of items beside a map of their embedding vectors. A manager
-- sends calls to the tiers and fans searches, listings and snapshots out over them. Wrappers stand in
-- front: sanitizers and write policies see an item before it is stored, a scoped manager keeps a
-- caller within the scope of its context, and the searchers merge the answers of the tiers. A
-- consolidator promotes working items to the episodic memory, a scoped lifecycle manager does so and
-- forgets within a scope, and snapshots may go to an SQLite database.
--
-- The files and the code that they model:
--   Common/           lists, texts (lists of code points), Go maps (association lists whose order is
--                     the order of `range`), signed integers, float64 as bit patterns, and what the
--                     code takes from the Go runtime (record Runtime, with its laws IsLawful)
--   Errors, Contract  error values, and the data of the contract module that memory/types_alias.go
--                     re-exports; the functions of that module are parameters (record Contract)
--   Store             memory/engine_scored_store.go, `scoredStore`: `add`, `get`, `update` (two locked
--                     steps), `remove`, `snapshot`. A method takes its clock reading and returns its
--                     result with the store that it leaves. Store/Branches, Behaviour, Invariant,
--                     Keyed and Names hold the proofs about one call after the other;
--                     Store/Interleaving is a step relation of concurrent calls, each step what is
--                     done under one lock, and Locked, Current and Races hold its proofs
--   Scoring           the scoring functions of the same file
--   Scopes            memory/scope_local.go and `readScope` of memory/engine_list.go
--   Listing           memory/engine_list.go: filters, cursors and pages; Listing/Pages, Complete and
--                     Stores follow the cursors of a listing, OnePage is one that ends at once
--   Snapshots         memory/engine_persistence.go: export and import
--   Engines           memory/vector_backend.go, memory/engine_working.go, memory/engine_semantic.go
--                     and memory/engine_episodic.go; Engines/Ranking, Answers
--                     and Eviction hold the proofs
--   Manager           memory/manager.go: dispatch, Manager/FanOut and Manager/Persistence. A memory is
--                     a record of methods that act on a world shared by all objects; `none` stands for
--                     a nil interface or for a type assertion that fails. Manager/Worlds puts two
--                     memories side by side, Kinds and Selections are about maps of kinds
--   Tiers             the methods of the three engines as a manager sees them, and their restoring
--                     constructors (memory/engine_working.go, memory/engine_semantic.go,
--                     memory/engine_episodic.go), with Tiers/Restore for the proofs; Store/Statistics
--                     is `stats` of the scored store
--   Lifecycle/        Consolidator is memory/consolidator.go, Forgetting memory/scoped_lifecycle.go,
--                     and Paging the loop of both that lists every kind. Collected, Rounds, Counting,
--                     Promotion, Copies, PairSort, Victims and ScopedStatistics hold the proofs, and
--                     OneKind, WorkingAlone, Names, Forgotten and Marks those about a real engine;
--                     TwoTiers, Kept, Succeeds and Consolidated are about a consolidation between
--                     two real engines
--   ItemHelpers       memory/memory_item_helpers.go
--   Sqlite            memory/sqlite_store.go, over a record of the statements that it sends (Database);
--                     Sqlite/Schema is its migration and `NewSQLiteStore`; Sqlite/Keys, Tables,
--                     Loads, Effects and Opening hold the proofs, Saves and Recovered those about a
--                     manager that exports into the store
--   Observing         memory/observer.go
--   Policies          memory/policy_hook.go and memory/write_policy.go
--   Scoped            memory/scoped_manager_local.go; Scoped/Isolation holds the proofs over any
--                     manager, Scoped/Access those over a real working memory
--   Recall            memory/parallel_search.go, memory/unified_search.go, memory/recall_engine.go;
--                     Recall/Merging, Ranking, Kept and Asked hold the lemmas, Outcomes and Whole the
--                     proofs about whole calls
--   Tests             concrete runs
--
-- Parameters: the embedder, the contract module's functions, JSON and base64 of cursors, JSON of
-- snapshots, the database with its driver and the laws of its table and its transactions, the order of
-- `range`, of goroutines and of elements that a sort finds alike, Unicode case mapping, and
-- floating-point arithmetic. Comparisons of floats are defined on the bit patterns, NaN included.
--
-- Bounds: an int is 64 bits wide where the code adds to one (`end_index` of Listing). A client that
-- follows cursors has fuel, and one unit more than the listing has items is enough. The loop that lists
-- every kind has no bound in the code; it has fuel here, one unit for each round, and as many units as
-- there are rounds until every kind is at its start again are enough. Loops over lists are structural
-- recursion.
--
-- Simplified: items are values, so metadata maps are never shared. (In Go the copies of an item that
-- a listing returns share its metadata map: if `Consolidate` is given an item with metadata twice, it
-- skips the second copy after the first was promoted, and `promote_loop` here promotes it again. The
-- listing of one page, or of a single tier, has no item twice.) The clock readings within one
-- engine call are one reading; message texts of errors are left out; a method under one lock is one
-- step. Two calls run at the same time only in Store/Interleaving and Store/Races; elsewhere calls
-- follow one another, and goroutines of one search take turns.
--
-- Not modelled: doc.go, memory/doc.go and memory/version.go, which have no behaviour; the text of the
-- SQL statements; `Close` of the SQLite store, which only calls the driver; `Manager.Lookup`, which
-- is `require_memory`.
pub mod Common
pub mod Errors
pub mod Contract
pub mod Store
pub mod Scoring
pub mod Scopes
pub mod Listing
pub mod Snapshots
pub mod Engines
pub mod Manager
pub mod Tiers
pub mod Lifecycle
pub mod ItemHelpers
pub mod Sqlite
pub mod Observing
pub mod Policies
pub mod Scoped
pub mod Recall
pub mod Tests
