-- ===== src/Sqlite/Tables.antt =====
-- What the store of memory/sqlite_store.go makes of the table of snapshots.
use llm_agent_memory.Common.{
  ◌≡◌, refl, sym, ap, ◌∙◌, Bool, false, Option, none, some, Text, text_eq, Bool-cases, inl, inr,
  ◌⊎◌, if◌then◌else◌,
}
use llm_agent_memory.Errors.{Error, Result, Result-cases, ok, err, wrapped, wrap_err}
use llm_agent_memory.Contract.{Kind, kind_eq, Snapshot}
use llm_agent_memory.Sqlite.{
  Payload, Database, SnapshotCodec, SqliteStore, sanitize_sqlite_key, is_no_kind, save, decoded,
  load_kind, delete,
}

-- The table of snapshots: the payload at a key and a kind.
abbrev pub Table : Type 0
Table = Text → Kind → Option Payload

-- The cell at `k` and `j`.
abbrev pub is_cell : Text → Kind → Text → Kind → Bool
is_cell k j k' j' = if text_eq k k' then kind_eq j j' else false

abbrev pub put : Text → Kind → Payload → Table → Table
put k j payload t k' j' = if is_cell k j k' j' then some payload else t k' j'

abbrev pub clear : Text → Table → Table
clear k t k' j' = if text_eq k k' then none else t k' j'

-- The table after a statement that may have failed.
abbrev pub after : {A : Type 0} → Result A → Table → Table → Table
after (ok a) new old = new
after (err e) new old = old

-- What SQL documents of the statements: a query that is answered gives what the table has, and
-- queries change nothing of it; an upsert and a delete do what they say, or fail and leave the
-- table as it was.
pub record IsSql {W : Type 0} (db : Database W) (table : W → Table) : Type 0 where
  pub query-finds :
      (k : Text) (j : Kind) (w : W) (c : Option Payload)
      → (db.query_snapshot k j w).0 ≡ ok c
      → c ≡ table w k j
  pub query-keeps : (k : Text) (j : Kind) (w : W) → table (db.query_snapshot k j w).1 ≡ table w
  pub upsert-puts :
      (k : Text) (j : Kind) (payload : Payload) (now : Text) (w : W)
      → table (db.upsert_snapshot k j payload now w).1
        ≡ after (db.upsert_snapshot k j payload now w).0 (put k j payload (table w)) (table w)
  pub delete-clears :
      (k : Text) (w : W)
      → table (db.delete_snapshots k w).1
        ≡ after (db.delete_snapshots k w).0 (clear k (table w)) (table w)

-- Every query is answered.
abbrev pub Answers : {W : Type 0} → Database W → Type 0
Answers {W} db =
    (k : Text) (j : Kind) (w : W) → (c : Option Payload) × ((db.query_snapshot k j w).0 ≡ ok c)

after-wrap_err :
    {A : Type 0} (r : Result A) (new old : Table) → after (wrap_err r) new old ≡ after r new old
after-wrap_err (ok a) new old = refl
after-wrap_err (err e) new old = refl

module _ {W : Type 0} (json : SnapshotCodec) (s : SqliteStore W) (table : W → Table)
    (sql : IsSql s.db table) where
  -- The abstract `Save`: the encoding is put at the sanitized key and the kind of the snapshot.
  abbrev pub saved : Text → Snapshot → Table → Table
  saved key snap t = elim (json.marshal snap) [
    | err e ↦ t
    | ok payload ↦ put (sanitize_sqlite_key key) snap.kind payload t
  ]

  -- The three operations, as the table sees them: where they return no error, and where they do.
  abbrev pub RefinesSave : Type 0
  RefinesSave =
      (now key : Text) (snap : Snapshot) (w : W)
      → table (save json s now key snap w).1
        ≡ after (save json s now key snap w).0 (saved key snap (table w)) (table w)

  abbrev pub RefinesDelete : Type 0
  RefinesDelete =
      (key : Text) (w : W)
      → table (delete json s key w).1
        ≡ after (delete json s key w).0 (clear (sanitize_sqlite_key key) (table w)) (table w)

  abbrev pub RefinesLoad : Type 0
  RefinesLoad =
      (key : Text) (kind : Kind) (w : W)
      → (table (load_kind json s key kind w).1 ≡ table w)
        × (((load_kind json s key kind w).0
              ≡ decoded json s (ok (table w (sanitize_sqlite_key key) kind)))
            ⊎ ((e : Error) × ((s.db.query_snapshot (sanitize_sqlite_key key) kind w).0 ≡ err e)
                × ((load_kind json s key kind w).0 ≡ err (wrapped e))))

  pub save-refines : RefinesSave
  unfolding save
  save-refines now key snap w = elim (Bool-cases (is_no_kind snap.kind)) [
    | inl missing ↦ rw (save, missing) refl
    | inr given ↦ elim (Result-cases (json.marshal snap)) [
      | inl (payload, m) ↦
          rw (save, given, saved, m)
            (sql.upsert-puts (sanitize_sqlite_key key) snap.kind payload now w
              ∙ sym (
                  after-wrap_err
                    (s.db.upsert_snapshot (sanitize_sqlite_key key) snap.kind payload now w).0
                    (put (sanitize_sqlite_key key) snap.kind payload (table w)) (table w)))
      | inr (e, m) ↦ rw (save, given, m) refl
    ]
  ]

  pub delete-refines : RefinesDelete
  unfolding delete
  delete-refines key w =
      let k : Text = sanitize_sqlite_key key in
      sql.delete-clears k w
      ∙ sym (after-wrap_err (s.db.delete_snapshots k w).0 (clear k (table w)) (table w))

  pub load_kind-refines : RefinesLoad
  unfolding load_kind decoded
  load_kind-refines key kind w =
      let k : Text = sanitize_sqlite_key key in
      (
        sql.query-keeps k kind w,
        elim (Result-cases (s.db.query_snapshot k kind w).0) [
          | inl (c, e) ↦ inl (rw e (ap (λ o. decoded json s (ok o)) (sql.query-finds k kind w c e)))
          | inr (e, f) ↦ inr (e, f, rw f refl)
        ],
      )
