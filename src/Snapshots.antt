-- ===== src/Snapshots.antt =====
-- memory/engine_persistence.go: a store exported to a snapshot and imported from one.
pub mod Imports
pub mod Merging
pub mod RoundTrip
use llm_agent_memory.Common.{
  ℕ, ◌+◌, Bool, true, false, not, Option, none, some, List, [], ◌∷◌, map, Text, text_eq, text_lt,
  Dict, lookup, insert, erase, Runtime, ltb, ◌==◌, has_key, if◌then◌else◌,
}
use llm_agent_memory.Errors.{
  Error, Result, ok, err, wrapped, snapshot_version_mismatch, unknown_import_mode,
}
use llm_agent_memory.Contract.{
  Time, Vector, Kind, MemoryItem, SnapshotItem, Snapshot, ImportMode, replace, merge, upsert,
  ImportReport, Contract,
}
use llm_agent_memory.Store.{Store, copied, snapshot_vectors}

-- `vecs[id]`: nil where the map has no vector.
abbrev pub vector_of : Option Vector → Vector
vector_of none = none
vector_of (some v) = v

-- The order of a snapshot: oldest first, and by id among items of one time.
unfoldable pub exported_before : Text × MemoryItem → Text × MemoryItem → Bool
exported_before (i, a) (j, b) =
    if a.created_at == b.created_at then text_lt i j else ltb a.created_at b.created_at

module _ (rt : Runtime) (c : Contract) where
  unfoldable pub export_from_store : Store → Kind → Snapshot
  export_from_store s kind = record {
    version = c.snapshot_version;
    kind = kind;
    items =
        map (λ (id, it). record { item = it; vector = vector_of (lookup id (snapshot_vectors s)) })
          (rt.sort exported_before (rt.range s.items));
  }

abbrev pub empty_report : ImportReport
empty_report = record { loaded = 0; replaced = 0; skipped = 0; errors = 0 }

-- `s.vectors[id] = cp` for a vector that is not nil; else the map stays.
abbrev pub put_vector : Text → Vector → Dict Vector → Dict Vector
put_vector id none vectors = vectors
put_vector id (some v) vectors = insert id (some v) vectors

-- `s.vectors[id] = cp`, or `delete(s.vectors, id)` for a nil vector.
abbrev pub set_vector : Text → Vector → Dict Vector → Dict Vector
set_vector id none vectors = erase id vectors
set_vector id (some v) vectors = insert id (some v) vectors

-- The store with the item under its id, and its vectors.
abbrev pub load : SnapshotItem → (Text → Vector → Dict Vector → Dict Vector) → Store → Store
load si write s = record s {
  items = insert si.item.id si.item s.items;
  vectors = write si.item.id si.vector s.vectors;
}

-- One round of the import loop.
unfoldable pub import_item :
    ImportMode → SnapshotItem → ImportReport → Store → Result ImportReport × Store
import_item mode si rpt s =
    let exists = has_key si.item.id s.items in
    if text_eq si.item.id [] then (ok (record rpt { errors = rpt.errors + 1 }), s) else elim mode [
      | merge ↦
          if exists
          then (ok (record rpt { skipped = rpt.skipped + 1 }), s)
          else (ok (record rpt { loaded = rpt.loaded + 1 }), load si put_vector s)
      | upsert ↦ (
        ok (
            if exists
            then record rpt { replaced = rpt.replaced + 1 }
            else record rpt { loaded = rpt.loaded + 1 }),
        load si set_vector s,
      )
      | replace ↦ (ok (record rpt { loaded = rpt.loaded + 1 }), load si put_vector s)
      | ImportMode.unlisted _ ↦ (err unknown_import_mode, s)
    ]

unfoldable pub import_loop :
    ImportMode → List SnapshotItem → ImportReport → Store → Result ImportReport × Store
unfolding import_item
import_loop mode [] rpt s = (ok rpt, s)
import_loop mode (si ∷ rest) rpt s =
    let (r, s') = import_item mode si rpt s in
    elim r [ err e ↦ (err e, s') | ok rpt' ↦ import_loop mode rest rpt' s' ]

-- A replacing import starts from empty maps.
abbrev pub cleared : ImportMode → Store → Store
cleared replace s = record s { items = []; vectors = [] }
cleared _ s = s

unfoldable pub import_into_store :
    Contract → Snapshot → ImportMode → Store → Result ImportReport × Store
import_into_store c snap mode s =
    if not (snap.version == c.snapshot_version)
    then (err (wrapped snapshot_version_mismatch), s)
    else import_loop mode snap.items empty_report (cleared mode s)
