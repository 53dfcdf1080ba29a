-- ===== src/Sqlite.antt =====
-- memory/sqlite_store.go: the store of snapshots in an SQLite database. The driver and the database
-- are a parameter: one method for each statement that the code sends, each acting on the world. A
-- query without a row answers `none` (`sql.ErrNoRows`).
pub mod Keys
pub mod Tables
pub mod Loads
pub mod Effects
pub mod Saves
pub mod Recovered
pub mod Schema
pub mod Opening
use llm_agent_memory.Common.{
  ℕ, ◌==◌, ℤ, pos, negsuc, ltb_ℤ, leb, Bool, true, false, not, ◌&&◌, ◌||◌, Option, none, some, List,
  [], ◌∷◌, Text, codes, text_eq, contains_text, if◌then◌else◌,
}
use llm_agent_memory.Errors.{
  Error, Result, ok, err, wrapped, wrap_err, is_not_exist, dsn_required, schema_version_ahead,
  kind_required, not_exist, no_schema_table,
}
use llm_agent_memory.Contract.{Kind, working, episodic, semantic, Snapshot}
use llm_agent_memory.Manager.{Method, SnapshotStore}

abbrev pub Payload : Type 0
Payload = List ℕ

-- The rows of a query: each with what scanning it gives, then the error of the iteration.
abbrev pub Rows : Type 0 → Type 0
Rows A = List (Result A) × Option Error

-- The statements of the migration.
pub data Statement : Type 0 where
  create_schema_table create_snapshots_table create_key_index : Statement

pub record Database (W : Type 0) : Type 0 where
  pub set_max_open_conns : ℕ → W → W
  pub close : W → W
  -- `SELECT version FROM memory_store_schema` and `SELECT MAX(version) FROM memory_store_schema`
  pub query_versions : Method W (Rows ℤ)
  pub query_max_version : Method W (Option ℤ)
  -- a transaction
  pub begin_tx : Method W (Unit {0})
  pub exec_tx : Statement → Method W (Unit {0})
  pub insert_version_tx : ℤ → Text → Method W (Unit {0})
  pub commit : Method W (Unit {0})
  pub rollback : W → W
  -- `INSERT ... ON CONFLICT(key, kind) DO UPDATE ...`: key, kind, snapshot_json, updated_at
  pub upsert_snapshot : Text → Kind → Payload → Text → Method W (Unit {0})
  -- `SELECT snapshot_json ... WHERE key = ? AND kind = ?`
  pub query_snapshot : Text → Kind → Method W (Option Payload)
  -- `DELETE ... WHERE key = ?`
  pub delete_snapshots : Text → Method W (Unit {0})
  -- `SELECT DISTINCT key ... ORDER BY key ASC`
  pub query_keys : Method W (Rows Text)

-- `json.Marshal` and `json.Unmarshal` of a snapshot.
pub record SnapshotCodec : Type 0 where
  pub marshal : Snapshot → Result Payload
  pub unmarshal : Payload → Result Snapshot

pub record SqliteStore (W : Type 0) : Type 0 where
  pub db : Database W

unfoldable pub in_range : ℕ → ℕ → ℕ → Bool
in_range low high r = leb low r && leb r high

-- The characters that a key may have: those from `a` to `z`, `A` to `Z` and `0` to `9`, `-` and
-- `_`.
unfoldable pub is_key_char : ℕ → Bool
is_key_char r = in_range 97 122 r || in_range 65 90 r || in_range 48 57 r || r == 45 || r == 95

-- The loop of `sanitizeSQLiteKey`.
unfoldable pub key_chars : Text → Text
key_chars [] = []
key_chars (r ∷ s) = (if is_key_char r then r else 95) ∷ key_chars s

unfoldable pub sanitize_sqlite_key : Text → Text
sanitize_sqlite_key s = elim (key_chars s) [ [] ↦ 95 ∷ [] | r ∷ rest ↦ r ∷ rest ]

-- `snap.Kind == ""`
abbrev pub is_no_kind : Kind → Bool
is_no_kind (Kind.unlisted s) = text_eq s []
is_no_kind _ = false

-- The loop of `List`.
unfoldable pub scan_keys : List (Result Text) → Option Error → Result (List Text)
scan_keys [] none = ok []
scan_keys [] (some e) = err (wrapped e)
scan_keys (err e ∷ rows) failed = err (wrapped e)
scan_keys (ok k ∷ rows) failed = elim (scan_keys rows failed) [
  | err e ↦ err e
  | ok rest ↦ ok (k ∷ rest)
]

module _ {W : Type 0} (json : SnapshotCodec) (s : SqliteStore W) where
  -- `now` is the text of the time.
  unfoldable pub save : Text → Text → Snapshot → Method W (Unit {0})
  save now key snap w = elim (is_no_kind snap.kind) [
    | true ↦ (err kind_required, w)
    | false ↦ elim (json.marshal snap) [
      | err e ↦ (err (wrapped e), w)
      | ok payload ↦
          let (r, w') = s.db.upsert_snapshot (sanitize_sqlite_key key) snap.kind payload now w in
          (wrap_err r, w')
    ]
  ]

  -- What becomes of the row that was found.
  unfoldable pub decoded : Result (Option Payload) → Result Snapshot
  decoded (err e) = err (wrapped e)
  decoded (ok none) = err (wrapped not_exist)
  decoded (ok (some payload)) = wrap_err (json.unmarshal payload)

  unfoldable pub load_kind : Text → Kind → Method W Snapshot
  load_kind key kind w =
      let (r, w') = s.db.query_snapshot (sanitize_sqlite_key key) kind w in (decoded r, w')

  -- The loop over the kinds.
  unfoldable pub load_first : Text → List Kind → Method W Snapshot
  load_first key [] w = (err (wrapped not_exist), w)
  load_first key (kind ∷ kinds) w =
      let (r, w') = load_kind key kind w in
      elim r [
        | ok snap ↦ (ok snap, w')
        | err e ↦ elim (is_not_exist e) [ true ↦ load_first key kinds w' | false ↦ (err e, w') ]
      ]

  unfoldable pub load : Text → Method W Snapshot
  load key w = load_first key (working ∷ episodic ∷ semantic ∷ []) w

  unfoldable pub delete : Text → Method W (Unit {0})
  delete key w = let (r, w') = s.db.delete_snapshots (sanitize_sqlite_key key) w in (wrap_err r, w')

  unfoldable pub list : Method W (List Text)
  list w =
      let (r, w') = s.db.query_keys w in
      elim r [ err e ↦ (err (wrapped e), w') | ok (rows, failed) ↦ (scan_keys rows failed, w') ]

  -- The store as the manager takes it.
  abbrev pub as_snapshot_store : Text → SnapshotStore W
  as_snapshot_store now = record { save = save now; load = load; load_kind = some load_kind }
