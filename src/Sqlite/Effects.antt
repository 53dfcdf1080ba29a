-- ===== src/Sqlite/Effects.antt =====
-- What `LoadKind` of memory/sqlite_store.go returns after a `Save` and after a `Delete`.
use llm_agent_memory.Common.{
  ◌≡◌, refl, sym, ap, ◌∙◌, true, false, Text, text_eq, Bool-cases, inl, inr, ◌⊎◌, if◌then◌else◌,
}
use llm_agent_memory.Errors.{
  Error, Result, Result-cases, ok, err, wrapped, wrap_err, not_exist, kind_required,
}
use llm_agent_memory.Contract.{Kind, Snapshot}
use llm_agent_memory.Sqlite.{
  Payload, SnapshotCodec, SqliteStore, sanitize_sqlite_key, is_no_kind, save, decoded, load_kind,
  delete,
}
use llm_agent_memory.Sqlite.Tables.{Table, IsSql, Answers, put, clear, after, is_cell}
use llm_agent_memory.Sqlite.Loads.{load_kind-decoded}

module _ {W : Type 0} (json : SnapshotCodec) (s : SqliteStore W) (now key : Text) (snap : Snapshot)
    (w : W) where
  save_no_kind : is_no_kind snap.kind ≡ true → save json s now key snap w ≡ (err kind_required, w)
  unfolding save
  save_no_kind h = rw (save, h) refl

  save_unencoded :
      (e : Error)
      → is_no_kind snap.kind ≡ false
      → json.marshal snap ≡ err e
      → save json s now key snap w ≡ (err (wrapped e), w)
  unfolding save
  save_unencoded e h m = rw (save, h, m) refl

  save_encoded :
      (payload : Payload)
      → is_no_kind snap.kind ≡ false
      → json.marshal snap ≡ ok payload
      → let (r, w') = s.db.upsert_snapshot (sanitize_sqlite_key key) snap.kind payload now w in
        save json s now key snap w ≡ (wrap_err r, w')
  unfolding save
  save_encoded payload h m = rw (save, h, m) refl

module _ {W : Type 0} (json : SnapshotCodec) (s : SqliteStore W) (table : W → Table)
    (sql : IsSql s.db table) (answers : Answers s.db) (key' : Text) (kind : Kind) where
  abbrev loads : W → Result Snapshot
  loads w = (load_kind json s key' kind w).0

  loads_same : (w w' : W) → table w' ≡ table w → loads w' ≡ loads w
  loads_same w w' h =
      load_kind-decoded json s table sql answers key' kind w'
      ∙ ap (λ t. decoded json s (ok (t (sanitize_sqlite_key key') kind))) h
      ∙ sym (load_kind-decoded json s table sql answers key' kind w)

  loads-put :
      (k : Text) (j : Kind) (payload : Payload) (w w' : W)
      → table w' ≡ put k j payload (table w)
      → loads w' ≡ (
          if is_cell k j (sanitize_sqlite_key key') kind
          then wrap_err (json.unmarshal payload)
          else loads w)
  unfolding decoded
  loads-put k j payload w w' h =
      load_kind-decoded json s table sql answers key' kind w'
      ∙ ap (λ t. decoded json s (ok (t (sanitize_sqlite_key key') kind))) h
      ∙ elim (Bool-cases (is_cell k j (sanitize_sqlite_key key') kind)) [
        | inl e ↦ rw e refl
        | inr e ↦ rw e (sym (load_kind-decoded json s table sql answers key' kind w))
      ]

  loads-clear :
      (k : Text) (w w' : W)
      → table w' ≡ clear k (table w)
      → loads w'
        ≡ (if text_eq k (sanitize_sqlite_key key') then err (wrapped not_exist) else loads w)
  unfolding decoded
  loads-clear k w w' h =
      load_kind-decoded json s table sql answers key' kind w'
      ∙ ap (λ t. decoded json s (ok (t (sanitize_sqlite_key key') kind))) h
      ∙ elim (Bool-cases (text_eq k (sanitize_sqlite_key key'))) [
        | inl e ↦ rw e refl
        | inr e ↦ rw e (sym (load_kind-decoded json s table sql answers key' kind w))
      ]

  -- `Save` on every branch, and what `LoadKind` returns after it.
  abbrev pub SaveEffect : Text → Text → Snapshot → W → Type 0
  SaveEffect now key snap w =
      let (r, w') = save json s now key snap w in
      let k : Text = sanitize_sqlite_key key in
      ((is_no_kind snap.kind ≡ true) × (r ≡ err kind_required) × (w' ≡ w))
      ⊎ ((e : Error) × (is_no_kind snap.kind ≡ false)
          × (json.marshal snap ≡ err e)
          × (r ≡ err (wrapped e))
          × (w' ≡ w))
      ⊎ ((payload : Payload) × (e : Error) × (is_no_kind snap.kind ≡ false)
          × (json.marshal snap ≡ ok payload)
          × ((s.db.upsert_snapshot k snap.kind payload now w).0 ≡ err e)
          × (r ≡ err (wrapped e))
          × (loads w' ≡ loads w))
      ⊎ ((payload : Payload) × (is_no_kind snap.kind ≡ false)
          × (json.marshal snap ≡ ok payload)
          × ((s.db.upsert_snapshot k snap.kind payload now w).0 ≡ ok tt)
          × (r ≡ ok tt)
          × (loads w' ≡ (
              if is_cell k snap.kind (sanitize_sqlite_key key') kind
              then wrap_err (json.unmarshal payload)
              else loads w)))

  -- `Delete` on both branches, and what `LoadKind` returns after it.
  abbrev pub DeleteEffect : Text → W → Type 0
  DeleteEffect key w =
      let (r, w') = delete json s key w in
      let k : Text = sanitize_sqlite_key key in
      ((e : Error) × ((s.db.delete_snapshots k w).0 ≡ err e)
        × (r ≡ err (wrapped e))
        × (loads w' ≡ loads w))
      ⊎ (((s.db.delete_snapshots k w).0 ≡ ok tt)
          × (r ≡ ok tt)
          × (loads w' ≡ (
              if text_eq k (sanitize_sqlite_key key') then err (wrapped not_exist) else loads w)))

  save-SaveEffect : (now key : Text) (snap : Snapshot) (w : W) → SaveEffect now key snap w
  save-SaveEffect now key snap w = elim (Bool-cases (is_no_kind snap.kind)) [
    | inl h ↦
        let same = save_no_kind json s now key snap w h in
        inl (h, ap (λ z. z.0) same, ap (λ z. z.1) same)
    | inr h ↦ elim (Result-cases (json.marshal snap)) [
      | inr (e, m) ↦
          let same = save_unencoded json s now key snap w e h m in
          inr (inl (e, h, m, ap (λ z. z.0) same, ap (λ z. z.1) same))
      | inl (payload, m) ↦
          let k : Text = sanitize_sqlite_key key in
          let up : Result (Unit {0}) × W = s.db.upsert_snapshot k snap.kind payload now w in
          let same = save_encoded json s now key snap w payload h m in
          let stored = sql.upsert-puts k snap.kind payload now w in
          elim (Result-cases up.0) [
            | inr (e, u) ↦ inr (
                inr (
                  inl (
                    payload,
                    e,
                    h,
                    m,
                    u,
                    ap (λ z. z.0) same ∙ ap wrap_err u,
                    ap (λ z. loads z.1) same
                        ∙ loads_same w up.1 (
                            stored
                            ∙ ap (λ r. after r (put k snap.kind payload (table w)) (table w)) u),
                  )))
            | inl (a, u) ↦ inr (
                inr (
                  inr (
                    payload,
                    h,
                    m,
                    u,
                    ap (λ z. z.0) same ∙ ap wrap_err u,
                    ap (λ z. loads z.1) same
                        ∙ loads-put k snap.kind payload w up.1 (
                            stored
                            ∙ ap (λ r. after r (put k snap.kind payload (table w)) (table w)) u),
                  )))
          ]
    ]
  ]

  delete-DeleteEffect : (key : Text) (w : W) → DeleteEffect key w
  unfolding delete
  delete-DeleteEffect key w =
      let k : Text = sanitize_sqlite_key key in
      let (r, w') = s.db.delete_snapshots k w in
      let cleared = sql.delete-clears k w in
      elim (Result-cases r) [
        | inr (e, u) ↦ inl (
          e,
          u,
          ap wrap_err u,
          loads_same w w' (cleared ∙ ap (λ r. after r (clear k (table w)) (table w)) u),
        )
        | inl (a, u) ↦ inr (
          u,
          ap wrap_err u,
          loads-clear k w w' (cleared ∙ ap (λ r. after r (clear k (table w)) (table w)) u),
        )
      ]

  -- For a database whose statements do what SQL documents and whose queries are all answered.
  -- `Save` refuses a snapshot without a kind and fails on one that cannot be encoded, and then
  -- changes nothing; else it fails just where the upsert does, and then `LoadKind` returns what it
  -- returned before. A `Save` that succeeds makes `LoadKind` return the decoding of the encoded
  -- snapshot under its kind and every key that is sanitized alike, and what it returned before
  -- under any other kind or key. `Delete` fails just where its statement does, with nothing changed
  -- for `LoadKind`; else `LoadKind` finds no snapshot of any kind under a key that is sanitized
  -- alike, and returns what it returned before under any other.
  pub load_kind_effects :
      (now key : Text) (snap : Snapshot) (w : W) → SaveEffect now key snap w × DeleteEffect key w
  load_kind_effects now key snap w = (save-SaveEffect now key snap w, delete-DeleteEffect key w)
