-- ===== src/Sqlite/Saves.antt =====
-- The loops of memory/manager.go that save and load the snapshots of all kinds, over the store of
-- memory/sqlite_store.go.
use mathlib.Core.List.{append_assoc, append-nil}
use llm_agent_memory.Common.{
  ◌≡◌, refl, sym, ap, ◌∙◌, subst, true, if◌then◌else◌, Option, none, some, List, [], ◌∷◌, ◌++◌,
  Text, text_eq_refl, All, Option-cases, Bool-cases, inl, inr,
}
use llm_agent_memory.Errors.{
  Error, ok, err, wrapped, is_not_exist, not_exist, kind_required, Result-cases,
}
use llm_agent_memory.Contract.{Kind, kind_eq, Snapshot}
use llm_agent_memory.Manager.{Manager, SnapshotStore}
use llm_agent_memory.Manager.FanOut.{KindMap, lookup_kind}
use llm_agent_memory.Manager.Kinds.{IsKindMap, kind_eq_iff}
use llm_agent_memory.Manager.Selections.{entries_of, entries_of-none, entries_of-some}
use llm_agent_memory.Manager.Persistence.{save_loop, load_loop, load_one}
use llm_agent_memory.Sqlite.{
  Payload, SnapshotCodec, SqliteStore, sanitize_sqlite_key, is_no_kind, save, decoded, load_kind,
  as_snapshot_store,
}
use llm_agent_memory.Sqlite.Tables.{Table, IsSql, Answers, load_kind-refines}
use llm_agent_memory.Sqlite.Loads.{load_kind-decoded, table-save}

module _ {W : Type 0} (m : Manager W) (store : SnapshotStore W) (key : Text) where
  save_loop_err :
      (j : Kind) (snap : Snapshot) (rest : KindMap Snapshot) (w : W) (x : Error)
      → (store.save key snap w).0 ≡ err x
      → (save_loop m store key ((j, snap) ∷ rest) w).0 ≡ some x
  unfolding save_loop
  save_loop_err j snap rest w x h = rw (save_loop, h) refl

  save_loop_ok :
      (j : Kind) (snap : Snapshot) (rest : KindMap Snapshot) (w : W)
      → (store.save key snap w).0 ≡ ok tt
      → save_loop m store key ((j, snap) ∷ rest) w
        ≡ save_loop m store key rest (store.save key snap w).1
  unfolding save_loop
  save_loop_ok j snap rest w h = rw (save_loop, h) refl

-- The cell of a kind at a key.
abbrev pub cell : {W : Type 0} → (W → Table) → Text → W → Kind → Option Payload
cell table key w k = table w (sanitize_sqlite_key key) k

module _ (json : SnapshotCodec) where
  -- The cell of a kind, before and after saving what may be the snapshot of that kind.
  abbrev pub IsSaved : Option Snapshot → Option Payload → Option Payload → Type 0
  IsSaved none before after = after ≡ before
  IsSaved (some snap) before after =
      (payload : Payload) × (json.marshal snap ≡ ok payload) × (after ≡ some payload)

  -- The cell of a kind that has a snapshot decodes to it; that of any other is empty.
  abbrev pub IsHeld : Option Snapshot → Option Payload → Type 0
  IsHeld none c = c ≡ none
  IsHeld (some snap) c =
      (payload : Payload) × (json.unmarshal payload ≡ ok snap) × (c ≡ some payload)

module _ {W : Type 0} (json : SnapshotCodec) (s : SqliteStore W) (now : Text) where
  save-marshal :
      (key : Text) (snap : Snapshot) (w : W)
      → (save json s now key snap w).0 ≡ ok tt
      → (payload : Payload) × (json.marshal snap ≡ ok payload)
  unfolding save
  save-marshal key snap w done = elim (Result-cases (json.marshal snap)) [
    | inl found ↦ found
    | inr (x, m) ↦ elim (Bool-cases (is_no_kind snap.kind)) [
      | inl h ↦
          let failed : (save json s now key snap w).0 ≡ err kind_required = rw (save, h) refl in
          cc (done, failed)
      | inr h ↦
          let failed : (save json s now key snap w).0 ≡ err (wrapped x) = rw (save, h, m) refl in
          cc (done, failed)
    ]
  ]

  module _ (table : W → Table) (sql : IsSql s.db table) (answers : Answers s.db) (key : Text) where
    absent :
        (j k : Kind) (rest : KindMap Snapshot)
        → lookup_kind j rest ≡ none
        → kind_eq j k ≡ true
        → lookup_kind k rest ≡ none
    absent j k rest h same = subst (λ z. lookup_kind z rest ≡ none) ((kind_eq_iff j k).0 same) h

    cell-save :
        (snap : Snapshot) (payload : Payload) (w : W) (k : Kind)
        → (save json s now key snap w).0 ≡ ok tt
        → json.marshal snap ≡ ok payload
        → cell table key (save json s now key snap w).1 k
          ≡ (if kind_eq snap.kind k then some payload else cell table key w k)
    cell-save snap payload w k done encoded =
        ap (λ t. t (sanitize_sqlite_key key) k)
          (table-save json s table sql answers now key snap payload w done encoded)
        ∙ rw (text_eq_refl (sanitize_sqlite_key key)) refl

    -- The loop that saves the snapshots ends without an error only if each kind's cell has become
    -- the encoding of its snapshot, and no other cell of the key has changed.
    pub save_loop-IsSaved :
        (m : Manager W) (l : KindMap Snapshot) (w : W) (k : Kind)
        → IsKindMap l
        → All (λ (j, snap). snap.kind ≡ j) l
        → (save_loop m (as_snapshot_store json s now) key l w).0 ≡ none
        → IsSaved json
            (lookup_kind k l)
            (cell table key w k)
            (cell table key (save_loop m (as_snapshot_store json s now) key l w).1 k)
    unfolding save_loop lookup_kind
    save_loop-IsSaved m [] w k distinct own done = refl
    save_loop-IsSaved m ((j, snap) ∷ rest) w k distinct own done =
        let store : SnapshotStore W = as_snapshot_store json s now in
        let w1 : W = (save json s now key snap w).1 in
        elim (Result-cases (save json s now key snap w).0) [
          | inr (x, failed) ↦ cc (done, save_loop_err m store key j snap rest w x failed)
          | inl (_, stored) ↦
              let (payload, encoded) = save-marshal key snap w stored in
              let opened = save_loop_ok m store key j snap rest w stored in
              let done' = ap (λ z. z.0) (sym opened) ∙ done in
              let later = save_loop-IsSaved m rest w1 k distinct.1 own.1 done' in
              let ended : Option Payload = cell table key (save_loop m store key rest w1).1 k in
              let changed = cell-save snap payload w k stored encoded in
              rw opened (elim (Bool-cases (kind_eq j k)) [
                | inl same ↦ rw same (
                  payload,
                  encoded,
                  subst (λ o. IsSaved json o (cell table key w1 k) ended)
                        (absent j k rest distinct.0 same) later
                      ∙ changed
                      ∙ rw (own.0, same) refl,
                )
                | inr other ↦ rw other (
                    subst (λ z. IsSaved json (lookup_kind k rest) z ended)
                      (changed ∙ rw (own.0, other) refl) later)
              ])
        ]

    load_kind_missing :
        (k : Kind) (w : W)
        → cell table key w k ≡ none
        → (load_kind json s key k w).0 ≡ err (wrapped not_exist)
    unfolding decoded
    load_kind_missing k w h =
        load_kind-decoded json s table sql answers key k w ∙ rw (h, decoded) refl

    load_kind_held :
        (k : Kind) (w : W) (snap : Snapshot) (payload : Payload)
        → json.unmarshal payload ≡ ok snap
        → cell table key w k ≡ some payload
        → (load_kind json s key k w).0 ≡ ok snap
    unfolding decoded
    load_kind_held k w snap payload u h =
        load_kind-decoded json s table sql answers key k w ∙ rw (h, decoded, u) refl

    module _ (m : Manager W) (k : Kind) (ks : List Kind) (out : KindMap Snapshot) (w : W) where
      load_loop_missing :
          cell table key w k ≡ none
          → load_loop m (as_snapshot_store json s now) key (k ∷ ks) out w
            ≡ load_loop m (as_snapshot_store json s now) key ks out (load_kind json s key k w).1
      unfolding load_loop load_one is_not_exist
      load_loop_missing h = rw (load_loop, load_kind_missing k w h) refl

      load_loop_held :
          (snap : Snapshot) (payload : Payload)
          → json.unmarshal payload ≡ ok snap
          → cell table key w k ≡ some payload
          → load_loop m (as_snapshot_store json s now) key (k ∷ ks) out w
            ≡ load_loop m
                (as_snapshot_store json s now)
                key
                ks
                (out ++ (k, snap) ∷ [])
                (load_kind json s key k w).1
      unfolding load_loop load_one
      load_loop_held snap payload u h = rw (load_loop, load_kind_held k w snap payload u h) refl

    -- Loading every kind gives the snapshots that are held, in the order of the kinds.
    pub load_loop-entries_of :
        (m : Manager W) (f : Kind → Option Snapshot) (ks : List Kind) (out : KindMap Snapshot)
        (w : W)
        → All (λ k. IsHeld json (f k) (cell table key w k)) ks
        → (w' : W) × (load_loop m (as_snapshot_store json s now) key ks out w
            ≡ (ok (out ++ entries_of f ks), w'))
          × (table w' ≡ table w)
    unfolding load_loop
    load_loop-entries_of m f [] out w held = (w, ap (λ z. (ok z, w)) (sym (append-nil out)), refl)
    load_loop-entries_of m f (k ∷ ks) out w held =
        let w1 : W = (load_kind json s key k w).1 in
        let same : table w1 ≡ table w = (load_kind-refines json s table sql key k w).0 in
        let held' : All (λ j. IsHeld json (f j) (cell table key w1 j)) ks =
          subst (λ t. All (λ j. IsHeld json (f j) (t (sanitize_sqlite_key key) j)) ks) (sym same)
            held.1 in
        elim (Option-cases (f k)) [
          | inl e ↦
              let (w', p, t) = load_loop-entries_of m f ks out w1 held' in
              let gone = subst (λ o. IsHeld json o (cell table key w k)) e held.0 in
              (
                w',
                load_loop_missing m k ks out w gone
                    ∙ p
                    ∙ ap (λ z. (ok (out ++ z), w')) (sym (entries_of-none f k ks e)),
                t ∙ same,
              )
          | inr (snap, e) ↦
              let (w', p, t) = load_loop-entries_of m f ks (out ++ (k, snap) ∷ []) w1 held' in
              let (payload, u, c) = subst (λ o. IsHeld json o (cell table key w k)) e held.0 in
              (
                w',
                load_loop_held m k ks out w snap payload u c
                    ∙ p
                    ∙ ap (λ z. (ok z, w'))
                        (append_assoc out ((k, snap) ∷ []) (entries_of f ks)
                          ∙ ap (λ z. out ++ z) (sym (entries_of-some f k ks snap e))),
                t ∙ same,
              )
        ]
