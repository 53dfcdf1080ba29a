-- ===== src/Sqlite/Recovered.antt =====
-- ExportAll of memory/manager.go into the store of memory/sqlite_store.go, and ImportAll out of it.
use mathlib.Core.List.Permᴰ
use mathlib.Core.Option
use llm_agent_memory.Common.{
  ◌≡◌, refl, sym, ap, ◌∙◌, subst, false, Option, none, some, [], Text, text_eq, All, All-perm,
  All-mono, Runtime, IsLawful, Option-cases, inl, inr, List, ◌∷◌,
}
use llm_agent_memory.Errors.{Error, ok}
use llm_agent_memory.Contract.{Kind, Snapshot, ImportMode}
use llm_agent_memory.Manager.{Manager, SnapshotStore, kinds}
use llm_agent_memory.Manager.FanOut.{KindMap, Partial, lookup_kind, fan_out, visit_with}
use llm_agent_memory.Manager.Kinds.{SameKinds-range}
use llm_agent_memory.Manager.Selections.{
  Selection, entries_of, Selection-entries_of, fan_out-Selection,
}
use llm_agent_memory.Manager.Persistence.{
  exporter_at, save_loop, export_all, load_all_from_store, import_all,
}
use llm_agent_memory.Sqlite.{
  Payload, SnapshotCodec, SqliteStore, sanitize_sqlite_key, as_snapshot_store,
}
use llm_agent_memory.Sqlite.Tables.{Table, IsSql, Answers}
use llm_agent_memory.Sqlite.Saves.{cell, IsSaved, save_loop-IsSaved, IsHeld, load_loop-entries_of}

-- Every encoding decodes, to what encoding and decoding make of the snapshot: `normal`. (It need not
-- be the snapshot: `encoding/json` reads a number in a map of `any` back as a float64.)
abbrev pub Decodes : SnapshotCodec → (Snapshot → Snapshot) → Type 0
Decodes json normal =
    (snap : Snapshot) (payload : Payload)
    → json.marshal snap ≡ ok payload
    → json.unmarshal payload ≡ ok (normal snap)

-- The snapshots of a map, each changed.
abbrev pub each_snapshot : (Snapshot → Snapshot) → KindMap Snapshot → KindMap Snapshot
each_snapshot f [] = []
each_snapshot f ((k, snap) ∷ out) = (k, f snap) ∷ each_snapshot f out

entries_of-each_snapshot :
    (f : Snapshot → Snapshot) (g : Kind → Option Snapshot) (ks : List Kind)
    → entries_of (λ k. Option.map f (g k)) ks ≡ each_snapshot f (entries_of g ks)
entries_of-each_snapshot f g [] = refl
entries_of-each_snapshot f g (k ∷ ks) = elim (Option-cases (g k)) [
  | inl e ↦ rw (entries_of, e) (entries_of-each_snapshot f g ks)
  | inr (snap, e) ↦ rw (entries_of, e) (ap (λ z. (k, f snap) ∷ z) (entries_of-each_snapshot f g ks))
]

module _ {W : Type 0} (table : W → Table) (key : Text) where
  -- The snapshots are labelled with their own kinds, and a kind without one has no row at the key.
  abbrev pub IsRecoverable : KindMap Snapshot → W → Type 0
  IsRecoverable out w =
      All (λ (j, snap). snap.kind ≡ j) out
      × All (λ k. lookup_kind k out ≡ none → cell table key w k ≡ none) kinds

module _ {W : Type 0} (rt : Runtime) (json : SnapshotCodec) (s : SqliteStore W) (now : Text)
    (table : W → Table) (m : Manager W) (key : Text) where
  -- ImportAll with the key reads back `out` in `w1`, and goes on with it.
  abbrev pub ReadsBack : KindMap Snapshot → W → Type 0
  ReadsBack out w1 =
      (w2 : W) × (table w2 ≡ table w1)
      × (load_all_from_store m (as_snapshot_store json s now) key w1 ≡ (ok out, w2))
      × ((mode : ImportMode)
          → import_all m rt none key mode w1 ≡ import_all m rt (some out) [] mode w2)

module _ {W : Type 0} (rt : Runtime) (lawful : IsLawful rt) (json : SnapshotCodec)
    (s : SqliteStore W) (now : Text) (table : W → Table) (sql : IsSql s.db table)
    (answers : Answers s.db) (m : Manager W)
    (configured : m.opts.snapshot_store ≡ some (as_snapshot_store json s now)) (key : Text)
    (named : text_eq key [] ≡ false) (normal : Snapshot → Snapshot)
    (codec : Decodes json normal) where
  abbrev gathered : W → Partial Snapshot × W
  gathered w = fan_out (λ kind. visit_with (exporter_at m kind) (λ e. e)) kinds [] w

  abbrev saved : W → Option Error × W
  saved w =
      save_loop m (as_snapshot_store json s now) key (rt.range (gathered w).0.0) (gathered w).1

  export_failed :
      (w : W) (x : Error) → (gathered w).0.1 ≡ some x → (export_all m rt key w).0.1 ≡ some x
  unfolding export_all
  export_failed w x h = rw (export_all, h) refl

  export_saved :
      (w : W)
      → (gathered w).0.1 ≡ none
      → export_all m rt key w ≡ (((gathered w).0.0, (saved w).0), (saved w).1)
  unfolding export_all
  export_saved w h = rw (export_all, h, named, configured) refl

  import_by_key :
      (mode : ImportMode) (loaded : KindMap Snapshot) (w w' : W)
      → load_all_from_store m (as_snapshot_store json s now) key w ≡ (ok loaded, w')
      → import_all m rt none key mode w ≡ import_all m rt (some loaded) [] mode w'
  unfolding import_all
  import_by_key mode loaded w w' h = simp (import_all, named, configured, h)

  IsHeld-saved :
      (o : Option Snapshot) (before after : Option Payload)
      → (o ≡ none → after ≡ none)
      → IsSaved json o before after
      → IsHeld json (Option.map normal o) after
  IsHeld-saved none before after missing h = missing refl
  IsHeld-saved (some snap) before after missing (payload, encoded, c) =
      (payload, codec snap payload encoded, c)

  gathered-Selection : (w : W) → Selection kinds (gathered w).0.0
  gathered-Selection w =
      let (ys, chosen, same) =
        fan_out-Selection (λ kind. visit_with (exporter_at m kind) (λ e. e)) kinds [] w in
      subst (Selection kinds) (sym same) chosen

  cells-IsHeld :
      (w : W)
      → (saved w).0 ≡ none
      → IsRecoverable table key (gathered w).0.0 (saved w).1
      → All
          (λ k.
            IsHeld json
              (Option.map normal (lookup_kind k (gathered w).0.0))
              (cell table key (saved w).1 k))
          kinds
  cells-IsHeld w done (own, missing) =
      let out : KindMap Snapshot = (gathered w).0.0 in
      let store : SnapshotStore W = as_snapshot_store json s now in
      let distinct = (Selection-entries_of out (gathered-Selection w)).0 in
      let (distinct', same) = SameKinds-range rt lawful out distinct in
      let own' = All-perm _ (Permᴰ.symm (lawful.range-perm out)) own in
      All-mono
        (λ k gone. IsHeld-saved (lookup_kind k out) _ _ gone (
          subst
            (λ o.
              IsSaved json o (table (gathered w).1 (sanitize_sqlite_key key) k)
                (table (saved w).1 (sanitize_sqlite_key key) k))
            (same k)
            (save_loop-IsSaved json s now table sql answers key m (rt.range out) (gathered w).1 k
              distinct' own' done)))
        kinds missing

  saved-ReadsBack :
      (w : W)
      → (saved w).0 ≡ none
      → IsRecoverable table key (gathered w).0.0 (saved w).1
      → ReadsBack rt json s now table m key (each_snapshot normal (gathered w).0.0) (saved w).1
  unfolding load_all_from_store
  saved-ReadsBack w done recoverable =
      let out : KindMap Snapshot = (gathered w).0.0 in
      let (w2, loads, same) =
        load_loop-entries_of json s now table sql answers key m
          (λ k. Option.map normal (lookup_kind k out)) kinds [] (saved w).1
          (cells-IsHeld w done recoverable) in
      let read : KindMap Snapshot = each_snapshot normal out in
      let canonical =
        entries_of-each_snapshot normal (λ k. lookup_kind k out) kinds
        ∙ ap (each_snapshot normal) (Selection-entries_of out (gathered-Selection w)).1 in
      let loaded = loads ∙ ap (λ z. (ok z, w2)) canonical in
      (w2, same, loaded, λ mode. import_by_key mode read (saved w).1 w2 loaded)

  -- For a manager whose snapshot store is the SQLite store, a key that is not empty, a database
  -- whose statements do what SQL documents and whose queries are all answered, and a codec that
  -- decodes every encoding of a snapshot to its normal form. If an ExportAll with the key returns no
  -- error, it returns snapshots labelled with the kinds of their tiers, and a tier without a snapshot
  -- has no row at the key after it, then from there ImportAll with the key reads back the normal
  -- forms of just the snapshots that ExportAll returned, and does with them what ImportAll of these
  -- normal forms does.
  pub import_all-export_all :
      (w : W)
      → let ((out, failed), w1) = export_all m rt key w in
        failed ≡ none
        → IsRecoverable table key out w1
        → ReadsBack rt json s now table m key (each_snapshot normal out) w1
  import_all-export_all w done recoverable = elim (Option-cases (gathered w).0.1) [
    | inr (x, failed) ↦ cc (done, export_failed w x failed)
    | inl h ↦
        let same = export_saved w h in
        subst (λ z. ReadsBack rt json s now table m key (each_snapshot normal z.0.0) z.1) (sym same)
          (saved-ReadsBack w (ap (λ z. z.0.1) (sym same) ∙ done)
            (subst (λ z. IsRecoverable table key z.0.0 z.1) same recoverable))
  ]
