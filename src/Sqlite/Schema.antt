-- ===== src/Sqlite/Schema.antt =====
-- The schema of memory/sqlite_store.go: its versions, its migration, and `NewSQLiteStore`.
use llm_agent_memory.Common.{
  ℕ, ◌==◌, ℤ, pos, negsuc, ltb_ℤ, Bool, true, false, ◌||◌, Option, none, some, List, [], ◌∷◌, Text,
  codes, contains_text, if◌then◌else◌,
}
use llm_agent_memory.Errors.{
  Error, Result, ok, err, wrapped, wrap_err, dsn_required, schema_version_ahead, no_schema_table,
}
use llm_agent_memory.Manager.{Method}
use llm_agent_memory.Sqlite.{
  Statement, create_schema_table, create_snapshots_table, create_key_index, Database, SqliteStore,
}

-- `isNoSchemaTable`: the driver's error whose text says that the table is missing is a constructor.
unfoldable pub is_no_schema_table : Error → Bool
is_no_schema_table no_schema_table = true
is_no_schema_table (wrapped e) = is_no_schema_table e
is_no_schema_table _ = false

-- The loop of `appliedVersions`: the versions so far, also beside an error.
unfoldable pub scan_versions : List (Result ℤ) → Option Error → List ℤ → List ℤ × Option Error
scan_versions [] failed out = (out, failed)
scan_versions (err e ∷ rows) failed out = (out, some e)
scan_versions (ok v ∷ rows) failed out = scan_versions rows failed (v ∷ out)

-- `applied[version]`
abbrev pub is_applied : List ℤ → ℕ → Bool
is_applied [] n = false
is_applied (pos m ∷ applied) n = m == n || is_applied applied n
is_applied (negsuc m ∷ applied) n = is_applied applied n

abbrev pub schema_version : ℕ
schema_version = 1

-- The migrations, each with its statements in order.
abbrev pub migrations : List (ℕ × List Statement)
migrations = (1, create_schema_table ∷ create_snapshots_table ∷ create_key_index ∷ []) ∷ []

module _ {W : Type 0} (db : Database W) where
  unfoldable pub applied_versions : W → (List ℤ × Option Error) × W
  applied_versions w =
      let (r, w') = db.query_versions w in
      elim r [ err e ↦ (([], some e), w') | ok (rows, failed) ↦ (scan_versions rows failed [], w') ]

  -- The statements of one migration.
  unfoldable pub exec_all : List Statement → Method W (Unit {0})
  exec_all [] w = (ok tt, w)
  exec_all (stmt ∷ stmts) w =
      let (r, w') = db.exec_tx stmt w in
      elim r [ err e ↦ (err (wrapped e), w') | ok _ ↦ exec_all stmts w' ]

  -- The loop over the migrations; `now` is the text of the time.
  unfoldable pub run_migrations : Text → List ℤ → List (ℕ × List Statement) → Method W (Unit {0})
  run_migrations now applied [] w = (ok tt, w)
  run_migrations now applied ((version, stmts) ∷ rest) w = elim (is_applied applied version) [
    | true ↦ run_migrations now applied rest w
    | false ↦
        let (r, w') = exec_all stmts w in
        elim r [
          | err e ↦ (err e, w')
          | ok _ ↦
              let (r', w'') = db.insert_version_tx (pos version) now w' in
              elim r' [
                | err e ↦ (err (wrapped e), w'')
                | ok _ ↦ run_migrations now applied rest w''
              ]
        ]
  ]

  -- What is done within the transaction, `Commit` included.
  unfoldable pub in_transaction : Text → List ℤ → Method W (Unit {0})
  in_transaction now applied w =
      let (r, w') = run_migrations now applied migrations w in
      elim r [ err e ↦ (err e, w') | ok _ ↦ let (r', w'') = db.commit w' in (wrap_err r', w'') ]

  -- What follows the reading of the versions; the deferred `Rollback` runs last.
  unfoldable pub migrate_from : Text → List ℤ → Method W (Unit {0})
  migrate_from now applied w =
      let (r, w') = db.begin_tx w in
      elim r [
        | err e ↦ (err (wrapped e), w')
        | ok _ ↦ let (r', w'') = in_transaction now applied w' in (r', db.rollback w'')
      ]

  unfoldable pub migrate : Text → Method W (Unit {0})
  migrate now w =
      let ((applied, failed), w') = applied_versions w in
      elim failed [
        | none ↦ migrate_from now applied w'
        | some e ↦ elim (is_no_schema_table e) [
          | true ↦ migrate_from now applied w'
          | false ↦ (err (wrapped e), w')
        ]
      ]

  unfoldable pub current_version : Method W ℤ
  current_version w =
      let (r, w') = db.query_max_version w in
      elim r [
        | err e ↦ (err (wrapped e), w')
        | ok none ↦ (ok (pos 0), w')
        | ok (some v) ↦ (ok v, w')
      ]

  -- What `NewSQLiteStore` does with the opened database.
  unfoldable pub prepare : Text → Method W (SqliteStore W)
  prepare now w =
      let (r, w') = migrate now w in
      elim r [
        | err e ↦ (err e, db.close w')
        | ok _ ↦
            let (v, w'') = current_version w' in
            elim v [
              | err e ↦ (err e, db.close w'')
              | ok current ↦
                  if ltb_ℤ (pos schema_version) current
                  then (err (wrapped schema_version_ahead), db.close w'')
                  else (ok (record { db = db }), w'')
            ]
      ]

-- `open_db` is `sql.Open`.
unfoldable pub new_sqlite_store :
    {W : Type 0} → (Text → Method W (Database W)) → Text → Text → Method W (SqliteStore W)
new_sqlite_store open_db now [] w = (err dsn_required, w)
new_sqlite_store open_db now (ch ∷ chars) w =
    let dsn : Text = ch ∷ chars in
    let (r, w') = open_db dsn w in
    elim r [
      | err e ↦ (err (wrapped e), w')
      | ok db ↦
          let in_memory =
            contains_text dsn (codes ":memory:") || contains_text dsn (codes "mode=memory") in
          prepare db now (if in_memory then db.set_max_open_conns 1 w' else w')
    ]
