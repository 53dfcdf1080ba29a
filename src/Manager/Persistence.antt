-- ===== src/Manager/Persistence.antt =====
-- ExportAll and ImportAll of the manager, and the store of snapshots that they may go through.
use llm_agent_memory.Common.{
  Option, none, some, List, [], ◌∷◌, ◌++◌, Text, text_eq, Runtime, if◌then◌else◌,
}
use llm_agent_memory.Errors.{
  Error, Result, ok, err, wrapped, is_not_exist, snapshot_store_not_configured,
}
use llm_agent_memory.Contract.{Kind, kind_eq, Snapshot, ImportMode, ImportReport}
use llm_agent_memory.Manager.{
  Manager, Method, Exporter, Importer, SnapshotStore, tier_for, tier_or_none, kinds,
}
use llm_agent_memory.Manager.FanOut.{KindMap, Partial, fan_out, visit_with, memory_at}

module _ {W : Type 0} (m : Manager W) where
  unfoldable pub exporter_at : Kind → Option (Exporter W)
  unfolding tier_for
  exporter_at kind = elim (memory_at m kind) [
    | none ↦ none
    | some mem ↦ elim (tier_or_none (tier_for m kind)).exporter [
      | none ↦ mem.as_exporter
      | some e ↦ some e
    ]
  ]

  unfoldable pub importer_at : Kind → Option (Importer W)
  unfolding tier_for
  importer_at kind = elim (memory_at m kind) [
    | none ↦ none
    | some mem ↦ elim (tier_or_none (tier_for m kind)).importer [
      | none ↦ mem.as_importer
      | some i ↦ some i
    ]
  ]

  unfoldable pub save_loop : SnapshotStore W → Text → List (Kind × Snapshot) → W → Option Error × W
  save_loop store key [] w = (none, w)
  save_loop store key ((_, snap) ∷ rest) w =
      let (r, w') = store.save key snap w in
      elim r [ err e ↦ (some e, w') | ok _ ↦ save_loop store key rest w' ]

  unfoldable pub export_all : Runtime → Text → W → Partial Snapshot × W
  unfolding fan_out exporter_at save_loop
  export_all rt persist_key w =
      let ((out, failed), w') =
        fan_out (λ kind. visit_with (exporter_at kind) (λ e. e)) kinds [] w in
      elim failed [
        | some e ↦ ((out, some e), w')
        | none ↦ if text_eq persist_key [] then ((out, none), w') else elim m.opts.snapshot_store [
          | none ↦ ((out, some snapshot_store_not_configured), w')
          | some store ↦
              let (saved, w'') = save_loop store persist_key (rt.range out) w' in
              ((out, saved), w'')
        ]
      ]

  -- The snapshot of one kind: by `LoadKind` where the store has it, else by `Load`, skipping a
  -- snapshot of another kind.
  unfoldable pub load_one : SnapshotStore W → Text → Kind → W → Option (Result Snapshot) × W
  unfolding kind_eq
  load_one store key kind w = elim store.load_kind [
    | some load_kind ↦ let (r, w') = load_kind key kind w in (some r, w')
    | none ↦
        let (r, w') = store.load key w in
        elim r [
          | err e ↦ (some (err e), w')
          | ok snap ↦ (if kind_eq snap.kind kind then some (ok snap) else none, w')
        ]
  ]

  -- The loop of `loadAllFromStore`: a missing key is skipped, any other error ends it.
  unfoldable pub load_loop :
      SnapshotStore W → Text → List Kind → KindMap Snapshot → Method W (KindMap Snapshot)
  unfolding load_one is_not_exist
  load_loop store key [] out w = (ok out, w)
  load_loop store key (k ∷ ks) out w =
      let (r, w') = load_one store key k w in
      elim r [
        | none ↦ load_loop store key ks out w'
        | some (ok snap) ↦ load_loop store key ks (out ++ (k, snap) ∷ []) w'
        | some (err e) ↦
            let rest = load_loop store key ks out w' in
            if is_not_exist e then rest else (err (wrapped e), w')
      ]

  unfoldable pub load_all_from_store : SnapshotStore W → Text → Method W (KindMap Snapshot)
  unfolding load_loop
  load_all_from_store store key w = load_loop store key kinds [] w

  unfoldable pub import_loop :
      ImportMode → List (Kind × Snapshot) → KindMap ImportReport → W → Partial ImportReport × W
  unfolding importer_at
  import_loop mode [] out w = ((out, none), w)
  import_loop mode ((k, snap) ∷ rest) out w =
      let (r, w') = visit_with (importer_at k) (λ imp. imp snap mode) w in
      elim r [
        | none ↦ import_loop mode rest out w'
        | some (err e) ↦ ((out, some (wrapped e)), w')
        | some (ok rpt) ↦ import_loop mode rest (out ++ (k, rpt) ∷ []) w'
      ]

  -- `none` stands for a nil map of snapshots.
  unfoldable pub import_all :
      Runtime → Option (KindMap Snapshot) → Text → ImportMode → W → Partial ImportReport × W
  unfolding import_loop load_all_from_store
  import_all rt (some snaps) persist_key mode w = import_loop mode (rt.range snaps) [] w
  import_all rt none persist_key mode w =
      if text_eq persist_key [] then (([], none), w) else elim m.opts.snapshot_store [
        | none ↦ (([], some snapshot_store_not_configured), w)
        | some store ↦
            let (r, w') = load_all_from_store store persist_key w in
            elim r [
              | err e ↦ (([], some e), w')
              | ok loaded ↦ import_loop mode (rt.range loaded) [] w'
            ]
      ]
