-- ===== src/Sqlite/Opening.antt =====
-- Opening the database of memory/sqlite_store.go: migration and the check of the version.
use llm_agent_memory.Common.{
  ◌≡◌, refl, ap, ◌∙◌, ℕ, ℤ, pos, ltb_ℤ, false, List, [], ◌∷◌, Text, Bool-cases, Option-cases, inl,
  inr, ◌⊎◌,
}
use llm_agent_memory.Errors.{
  Error, Result, Result-cases, ok, err, wrapped, wrap_err, schema_version_ahead,
}
use llm_agent_memory.Sqlite.{Database, Statement}
use llm_agent_memory.Sqlite.Schema.{
  is_applied, is_no_schema_table, applied_versions, exec_all, run_migrations, in_transaction,
  migrate_from, migrate, current_version, prepare, migrations, schema_version,
}

-- What a database documents of transactions, for what it holds durably: only a commit that returns
-- no error changes it.
pub record IsTransactional {W S : Type 0} (db : Database W) (durable : W → S) : Type 0 where
  pub query_versions-keeps : (w : W) → durable (db.query_versions w).1 ≡ durable w
  pub begin_tx-keeps : (w : W) → durable (db.begin_tx w).1 ≡ durable w
  pub exec_tx-keeps : (stmt : Statement) (w : W) → durable (db.exec_tx stmt w).1 ≡ durable w
  pub insert_version_tx-keeps :
      (v : ℤ) (now : Text) (w : W) → durable (db.insert_version_tx v now w).1 ≡ durable w
  pub rollback-keeps : (w : W) → durable (db.rollback w) ≡ durable w
  pub commit-fails :
      (e : Error) (w : W) → (db.commit w).0 ≡ err e → durable (db.commit w).1 ≡ durable w

module _ {W S : Type 0} (db : Database W) (durable : W → S) (tx : IsTransactional db durable)
    (now : Text) where
  -- A call that began in `w` with this result has left what is durable as it was, if it is an
  -- error.
  abbrev pub KeepsOnError : {A : Type 0} → W → Result A → W → Type 0
  KeepsOnError w (ok a) w' = Unit
  KeepsOnError w (err e) w' = durable w' ≡ durable w

  abbrev Keeps : {A : Type 0} → W → Result A × W → Type 0
  Keeps w r = durable r.1 ≡ durable w

  exec_all-Keeps : (stmts : List Statement) (w : W) → Keeps w (exec_all db stmts w)
  unfolding exec_all
  exec_all-Keeps [] w = refl
  exec_all-Keeps (stmt ∷ stmts) w = elim (Result-cases (db.exec_tx stmt w).0) [
    | inl (u, e) ↦
        rw (exec_all, e) (exec_all-Keeps stmts (db.exec_tx stmt w).1 ∙ tx.exec_tx-keeps stmt w)
    | inr (f, e) ↦ rw (exec_all, e) (tx.exec_tx-keeps stmt w)
  ]

  run_migrations-Keeps :
      (applied : List ℤ) (todo : List (ℕ × List Statement)) (w : W)
      → Keeps w (run_migrations db now applied todo w)
  unfolding run_migrations
  run_migrations-Keeps applied [] w = refl
  run_migrations-Keeps applied ((v, stmts) ∷ todo) w =
      let w1 : W = (exec_all db stmts w).1 in
      let inserted = tx.insert_version_tx-keeps (pos v) now w1 ∙ exec_all-Keeps stmts w in
      elim (Bool-cases (is_applied applied v)) [
        | inl done ↦ rw (run_migrations, done) (run_migrations-Keeps applied todo w)
        | inr pending ↦ elim (Result-cases (exec_all db stmts w).0) [
          | inr (f, e) ↦ rw (run_migrations, pending, e) (exec_all-Keeps stmts w)
          | inl (u, e) ↦ elim (Result-cases (db.insert_version_tx (pos v) now w1).0) [
            | inr (f, e') ↦ rw (run_migrations, pending, e, e') inserted
            | inl (u', e') ↦
                rw (run_migrations, pending, e, e')
                  (run_migrations-Keeps applied todo (db.insert_version_tx (pos v) now w1).1
                    ∙ inserted)
          ]
        ]
      ]

  wrap_err-KeepsOnError :
      {A : Type 0} (w w' : W) (r : Result A)
      → ((e : Error) → r ≡ err e → durable w' ≡ durable w)
      → KeepsOnError w (wrap_err r) w'
  wrap_err-KeepsOnError w w' (ok a) h = tt
  wrap_err-KeepsOnError w w' (err e) h = h e refl

  in_transaction-KeepsOnError :
      (applied : List ℤ) (w : W)
      → KeepsOnError w (in_transaction db now applied w).0 (in_transaction db now applied w).1
  unfolding in_transaction
  in_transaction-KeepsOnError applied w =
      let w1 : W = (run_migrations db now applied migrations w).1 in
      let ran = run_migrations-Keeps applied migrations w in
      elim (Result-cases (run_migrations db now applied migrations w).0) [
        | inr (f, g) ↦ rw (in_transaction, g) ran
        | inl (u, g) ↦
            rw (in_transaction, g)
              (wrap_err-KeepsOnError w (db.commit w1).1 (db.commit w1).0
                (λ e k. tx.commit-fails e w1 k ∙ ran))
      ]

  -- What holds at the start of a call that changes nothing durable before and after holds of both.
  KeepsOnError-around :
      {A : Type 0} (w w1 w2 w3 : W) (r : Result A)
      → durable w1 ≡ durable w
      → durable w3 ≡ durable w2
      → KeepsOnError w1 r w2
      → KeepsOnError w r w3
  KeepsOnError-around w w1 w2 w3 (ok a) before behind h = tt
  KeepsOnError-around w w1 w2 w3 (err e) before behind h = behind ∙ h ∙ before

  migrate_from-KeepsOnError :
      (applied : List ℤ) (w : W)
      → KeepsOnError w (migrate_from db now applied w).0 (migrate_from db now applied w).1
  unfolding migrate_from
  migrate_from-KeepsOnError applied w =
      let w1 : W = (db.begin_tx w).1 in
      elim (Result-cases (db.begin_tx w).0) [
        | inr (f, g) ↦ rw (migrate_from, g) (tx.begin_tx-keeps w)
        | inl (u, g) ↦
            let (r, w2) = in_transaction db now applied w1 in
            rw (migrate_from, g)
              (KeepsOnError-around w w1 w2 (db.rollback w2) r (tx.begin_tx-keeps w)
                (tx.rollback-keeps w2) (in_transaction-KeepsOnError applied w1))
      ]

  applied_versions-keeps : (w : W) → durable (applied_versions db w).1 ≡ durable w
  unfolding applied_versions
  applied_versions-keeps w = elim (Result-cases (db.query_versions w).0) [
    | inl (rows, g) ↦ rw (applied_versions, g) (tx.query_versions-keeps w)
    | inr (e, g) ↦ rw (applied_versions, g) (tx.query_versions-keeps w)
  ]

  -- A migration that returns an error, wherever it failed, has left what the database holds durably
  -- as it was.
  pub migrate-KeepsOnError : (w : W) → KeepsOnError w (migrate db now w).0 (migrate db now w).1
  unfolding migrate
  migrate-KeepsOnError w =
      let ((applied, failed), w1) = applied_versions db w in
      let read = applied_versions-keeps w in
      let goes_on =
        KeepsOnError-around w w1 (migrate_from db now applied w1).1
          (migrate_from db now applied w1).1 (migrate_from db now applied w1).0 read refl
          (migrate_from-KeepsOnError applied w1) in
      elim (Option-cases failed) [
        | inl none_failed ↦ rw (migrate, none_failed) goes_on
        | inr (e, g) ↦ elim (Bool-cases (is_no_schema_table e)) [
          | inl missing ↦ rw (migrate, g, missing) goes_on
          | inr other ↦ rw (migrate, g, other) read
        ]
      ]

-- A store is handed out only after a migration that returned no error, over a database whose version
-- is then no higher than that of the code; in every other case the database has been closed last and
-- an error is returned.
pub prepare_lem :
    {W : Type 0} (db : Database W) (now : Text) (w : W)
    → ((v : ℤ) × (w1 : W) × (migrate db now w ≡ (ok tt, w1))
        × ((current_version db w1).0 ≡ ok v)
        × (ltb_ℤ (pos schema_version) v ≡ false)
        × (prepare db now w ≡ (ok (record { db = db }), (current_version db w1).1)))
      ⊎ ((e : Error) × (w1 : W) × (prepare db now w ≡ (err e, db.close w1)))
unfolding prepare
prepare_lem db now w =
    let w1 = (migrate db now w).1 in
    elim (Result-cases (migrate db now w).0) [
      | inr (e, g) ↦ inr (e, w1, rw (prepare, g) refl)
      | inl (u, g) ↦ elim (Result-cases (current_version db w1).0) [
        | inr (e, k) ↦ inr (e, (current_version db w1).1, rw (prepare, g, k) refl)
        | inl (v, k) ↦ elim (Bool-cases (ltb_ℤ (pos schema_version) v)) [
          | inl ahead ↦ inr (
            wrapped schema_version_ahead,
            (current_version db w1).1,
            rw (prepare, g, k, ahead) refl,
          )
          | inr fits ↦ inl (v, w1, ap (λ z. (z, w1)) g, k, fits, rw (prepare, g, k, fits) refl)
        ]
      ]
    ]
