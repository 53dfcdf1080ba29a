-- ===== src/Sqlite/Loads.antt =====
-- What the store of memory/sqlite_store.go gives back, with queries that are answered.
use llm_agent_memory.Common.{
  ◌≡◌, refl, sym, ap, ◌∙◌, subst, none, some, List, [], ◌∷◌, ◌++◌, Text, text_eq_refl, All, arith,
}
use llm_agent_memory.Errors.{ok, err, wrapped, is_not_exist, not_exist}
use llm_agent_memory.Contract.{Kind, working, episodic, semantic, Snapshot}
use llm_agent_memory.Manager.Kinds.{kind_eq_refl}
use llm_agent_memory.Sqlite.{
  Payload, SnapshotCodec, SqliteStore, sanitize_sqlite_key, save, decoded, load_kind, load_first,
  load, delete,
}
use llm_agent_memory.Sqlite.Tables.{
  Table, put, clear, IsSql, Answers, saved, save-refines, delete-refines, load_kind-refines,
}

module _ {W : Type 0} (json : SnapshotCodec) (s : SqliteStore W) (table : W → Table)
    (sql : IsSql s.db table) (answers : Answers s.db) where
  -- With queries that are answered, what `LoadKind` returns is what the table has.
  pub load_kind-decoded :
      (key : Text) (kind : Kind) (w : W)
      → (load_kind json s key kind w).0
        ≡ decoded json s (ok (table w (sanitize_sqlite_key key) kind))
  unfolding load_kind
  load_kind-decoded key kind w =
      let k : Text = sanitize_sqlite_key key in
      let (c, e) = answers k kind w in
      rw e (ap (λ o. decoded json s (ok o)) (sql.query-finds k kind w c e))

  put_same :
      (k : Text) (j : Kind) (payload : Payload) (t : Table) → put k j payload t k j ≡ some payload
  put_same k j payload t = ground (arith, kind_eq_refl j, text_eq_refl k)

  pub table-save :
      (now key : Text) (snap : Snapshot) (payload : Payload) (w : W)
      → (save json s now key snap w).0 ≡ ok tt
      → json.marshal snap ≡ ok payload
      → table (save json s now key snap w).1
        ≡ put (sanitize_sqlite_key key) snap.kind payload (table w)
  table-save now key snap payload w done m =
      save-refines json s table sql now key snap w ∙ rw (done, saved, m) refl

  table-delete :
      (key : Text) (w : W)
      → (delete json s key w).0 ≡ ok tt
      → table (delete json s key w).1 ≡ clear (sanitize_sqlite_key key) (table w)
  table-delete key w done = delete-refines json s table sql key w ∙ rw done refl

  -- What `Save` has stored without an error, `LoadKind` gives back under every key that is
  -- sanitized alike, if the encoding of the snapshot decodes to it.
  pub load_kind-save :
      (now key key' : Text) (snap : Snapshot) (payload : Payload) (w : W)
      → (save json s now key snap w).0 ≡ ok tt
      → json.marshal snap ≡ ok payload
      → json.unmarshal payload ≡ ok snap
      → sanitize_sqlite_key key' ≡ sanitize_sqlite_key key
      → (load_kind json s key' snap.kind (save json s now key snap w).1).0 ≡ ok snap
  unfolding decoded
  load_kind-save now key key' snap payload w done m u same =
      load_kind-decoded key' snap.kind (save json s now key snap w).1
      ∙ rw
          (
            table-save now key snap payload w done m,
            same,
            put_same (sanitize_sqlite_key key) snap.kind payload (table w),
            decoded,
            u,
          )
          refl

  missing_kind :
      (key : Text) (kind : Kind) (w : W)
      → table w (sanitize_sqlite_key key) kind ≡ none
      → (load_kind json s key kind w).0 ≡ err (wrapped not_exist)
  unfolding decoded
  missing_kind key kind w h = load_kind-decoded key kind w ∙ rw (h, decoded) refl

  -- The loop over the kinds passes over those that the table does not have.
  load_first-append :
      (key : Text) (pre kinds : List Kind) (w : W)
      → All (λ j. table w (sanitize_sqlite_key key) j ≡ none) pre
      → (w' : W) × (load_first json s key (pre ++ kinds) w ≡ load_first json s key kinds w')
        × (table w' ≡ table w)
  unfolding load_first is_not_exist
  load_first-append key [] kinds w h = (w, refl, refl)
  load_first-append key (kind ∷ pre) kinds w h =
      let w1 : W = (load_kind json s key kind w).1 in
      let same : table w1 ≡ table w = (load_kind-refines json s table sql key kind w).0 in
      let (w', e, t) =
        load_first-append key pre kinds w1
          (subst (λ u. All (λ j. u (sanitize_sqlite_key key) j ≡ none) pre) (sym same) h.1) in
      (w', rw (load_first, missing_kind key kind w h.0) e, t ∙ same)

  -- `Load` gives the snapshot of the first kind, in the order working, episodic, semantic, that the
  -- table has at the key, if it can be decoded: the kinds after it are not looked at.
  pub load_first-found :
      (key : Text) (pre post : List Kind) (kind : Kind) (payload : Payload) (snap : Snapshot)
      (w : W)
      → pre ++ kind ∷ post ≡ working ∷ episodic ∷ semantic ∷ []
      → All (λ j. table w (sanitize_sqlite_key key) j ≡ none) pre
      → table w (sanitize_sqlite_key key) kind ≡ some payload
      → json.unmarshal payload ≡ ok snap
      → (load json s key w).0 ≡ ok snap
  unfolding load load_first decoded
  load_first-found key pre post kind payload snap w order missing here u =
      let (w', e, t) = load_first-append key pre (kind ∷ post) w missing in
      let here' : table w' (sanitize_sqlite_key key) kind ≡ some payload =
        ap (λ u'. u' (sanitize_sqlite_key key) kind) t ∙ here in
      let found : (load_kind json s key kind w').0 ≡ ok snap =
        load_kind-decoded key kind w' ∙ rw (here', decoded, u) refl in
      ap (λ ks. (load_first json s key ks w).0) (sym order)
      ∙ ap (λ r. r.0) e
      ∙ rw (load_first, found) refl

  -- After a `Delete` that returned no error, every kind is missing at the key, and so is the key
  -- itself for `Load`.
  pub load-delete :
      (key : Text) (w : W)
      → (delete json s key w).0 ≡ ok tt
      → ((kind : Kind)
          → (load_kind json s key kind (delete json s key w).1).0 ≡ err (wrapped not_exist))
        × ((load json s key (delete json s key w).1).0 ≡ err (wrapped not_exist))
  unfolding load load_first
  load-delete key w done =
      let w1 : W = (delete json s key w).1 in
      let k : Text = sanitize_sqlite_key key in
      let gone : (j : Kind) → table w1 k j ≡ none =
        λ j. ap (λ u. u k j) (table-delete key w done) ∙ rw (text_eq_refl k) refl in
      let (w', e, t) =
        load_first-append key (working ∷ episodic ∷ semantic ∷ []) [] w1
          (gone working, (gone episodic, (gone semantic, tt))) in
      (λ kind. missing_kind key kind w1 (gone kind), ap (λ r. r.0) e)
