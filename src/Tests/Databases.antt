-- ===== src/Tests/Databases.antt =====
-- The store of snapshots on a database in memory: the list of the rows of its table.
use llm_agent_memory.Common.{
  ◌≡◌, refl, sym, ℕ, ◌+◌, ℤ, pos, ltb_ℤ, false, none, some, [], ◌∷◌, Text, codes, ◌⊎◌,
}
use llm_agent_memory.Errors.{Error, Result, ok, err, no_schema_table, external}
use llm_agent_memory.Contract.{episodic, Snapshot}
use llm_agent_memory.Sqlite.{
  Statement, create_schema_table, create_snapshots_table, create_key_index, Database, SnapshotCodec,
  SqliteStore, sanitize_sqlite_key, key_chars, is_key_char, in_range,
}
use llm_agent_memory.Sqlite.Schema.{
  applied_versions, migrate_from, in_transaction, run_migrations, exec_all, is_no_schema_table,
  migrate, prepare, current_version, schema_version,
}
use llm_agent_memory.Sqlite.Tables.{Table, IsSql, Answers, put, clear}
use llm_agent_memory.Sqlite.Effects.{SaveEffect, DeleteEffect, load_kind_effects}
use llm_agent_memory.Sqlite.Opening.{IsTransactional, migrate-KeepsOnError, prepare_lem}

-- The world is the table itself, and every statement succeeds.
abbrev pub db : Database Table
db = record {
  set_max_open_conns = λ n t. t;
  close = λ t. t;
  query_versions = λ t. (ok (ok (pos 1) ∷ [], none), t);
  query_max_version = λ t. (ok (some (pos 1)), t);
  begin_tx = λ t. (ok tt, t);
  exec_tx = λ stmt t. (ok tt, t);
  insert_version_tx = λ v now t. (ok tt, t);
  commit = λ t. (ok tt, t);
  rollback = λ t. t;
  upsert_snapshot = λ k j payload now t. (ok tt, put k j payload t);
  query_snapshot = λ k j t. (ok (t k j), t);
  delete_snapshots = λ k t. (ok tt, clear k t);
  query_keys = λ t. (ok ([], none), t);
}

ok_inj : {A : Type 0} {a b : A} → ok a ≡ ok b → a ≡ b
ok_inj h = cc h

pub db-IsSql : IsSql db (λ t. t)
db-IsSql = record {
  query-finds = λ k j w c h. sym (ok_inj h);
  query-keeps = λ k j w. refl;
  upsert-puts = λ k j payload now w. refl;
  delete-clears = λ k w. refl;
}

pub db-Answers : Answers db
db-Answers k j w = (w k j, refl)

abbrev pub snapshot : Snapshot
snapshot = record { version = 1; kind = episodic; items = [] }

-- Snapshots without items, by their versions; all are of the episodic memory.
abbrev pub json : SnapshotCodec
json = record {
  marshal = λ snap. ok (snap.version ∷ []);
  unmarshal = λ payload. elim payload [
    | [] ↦ err no_schema_table
    | v ∷ rest ↦ ok (record { version = v; kind = episodic; items = [] })
  ];
}

abbrev pub store : SqliteStore Table
store = record { db = db }

abbrev pub empty : Table
empty k j = none

abbrev pub now : Text
now = codes "now"

-- One row.
abbrev one_row : Table
one_row = put (codes "k") episodic (1 ∷ []) empty

-- A snapshot stored over the row of another key, and that key's rows deleted.
load_kind_effects_example :
    SaveEffect json store
      (λ t. t)
      db-IsSql
      db-Answers
      (codes "k")
      episodic
      now
      (codes "a/b")
      snapshot
      one_row
    × DeleteEffect json store
        (λ t. t)
        db-IsSql
        db-Answers
        (codes "k")
        episodic
        (codes "a/b")
        one_row
load_kind_effects_example =
    load_kind_effects json store (λ t. t) db-IsSql db-Answers (codes "k") episodic now (codes "a/b")
      snapshot one_row

-- Two keys that are stored under one.
collision_test : sanitize_sqlite_key (codes "a/b") ≡ sanitize_sqlite_key (codes "a_b")
unfolding sanitize_sqlite_key key_chars is_key_char in_range
collision_test = refl

-- A new database, in which the second statement of the migration fails; the world is what a
-- transaction has changed, beside what is durable.
abbrev second_fails : Statement → ℕ × ℕ → Result (Unit {0}) × (ℕ × ℕ)
second_fails create_snapshots_table w = (err (external 0), w)
second_fails stmt (pending, durable) = (ok tt, (pending + 1, durable))

abbrev failing_db : Database (ℕ × ℕ)
failing_db = record {
  set_max_open_conns = λ n w. w;
  close = λ w. w;
  query_versions = λ w. (err no_schema_table, w);
  query_max_version = λ w. (ok none, w);
  begin_tx = λ w. (ok tt, (w.1, w.1));
  exec_tx = λ stmt w. second_fails stmt w;
  insert_version_tx = λ v now w. (ok tt, (w.0 + 1, w.1));
  commit = λ w. (ok tt, (w.0, w.0));
  rollback = λ w. (w.1, w.1);
  upsert_snapshot = λ k j payload now w. (err (external 0), w);
  query_snapshot = λ k j w. (err (external 0), w);
  delete_snapshots = λ k w. (err (external 0), w);
  query_keys = λ w. (err (external 0), w);
}

second_fails-keeps : (stmt : Statement) (w : ℕ × ℕ) → (second_fails stmt w).1.1 ≡ w.1
second_fails-keeps create_schema_table (pending, durable) = refl
second_fails-keeps create_snapshots_table w = refl
second_fails-keeps create_key_index (pending, durable) = refl

abbrev durable_part : ℕ × ℕ → ℕ
durable_part w = w.1

failing_db-IsTransactional : IsTransactional failing_db durable_part
failing_db-IsTransactional = record {
  query_versions-keeps = λ w. refl;
  begin_tx-keeps = λ w. refl;
  exec_tx-keeps = second_fails-keeps;
  insert_version_tx-keeps = λ v now w. refl;
  rollback-keeps = λ w. refl;
  commit-fails = λ e w h. cc h;
}

migrate-KeepsOnError_example : durable_part (migrate failing_db now (5, 5)).1 ≡ 5
unfolding migrate applied_versions migrate_from in_transaction run_migrations exec_all
    is_no_schema_table
migrate-KeepsOnError_example =
    migrate-KeepsOnError failing_db durable_part failing_db-IsTransactional now (5, 5)

prepare_lem_example :
    ((v : ℤ) × (w1 : Table) × (migrate db now one_row ≡ (ok tt, w1))
      × ((current_version db w1).0 ≡ ok v)
      × (ltb_ℤ (pos schema_version) v ≡ false)
      × (prepare db now one_row ≡ (ok (record { db = db }), (current_version db w1).1)))
    ⊎ ((e : Error) × (w1 : Table) × (prepare db now one_row ≡ (err e, db.close w1)))
prepare_lem_example = prepare_lem db now one_row
