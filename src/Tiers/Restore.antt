-- ===== src/Tiers/Restore.antt =====
-- The restoring constructors of memory/engine_working.go, memory/engine_semantic.go and
-- memory/engine_episodic.go undo `Export`.
use llm_agent_memory.Common.{◌≡◌, refl, ap, ◌∙◌, some, Text, lookup, All, Runtime, IsLawful}
use llm_agent_memory.Errors.{ok, ◌>>=◌}
use llm_agent_memory.Contract.{Kind, working, semantic, episodic, Contract, replace}
use llm_agent_memory.Store.{Store, Embedder, snapshot_vectors}
use llm_agent_memory.Store.Invariant.{IsWellFormed}
use llm_agent_memory.Snapshots.{export_from_store, import_into_store}
use llm_agent_memory.Snapshots.RoundTrip.{IsEntry, import-export}
use llm_agent_memory.Manager.Kinds.{kind_eq_refl}
use llm_agent_memory.Engines.Working.{WorkingMemory, WorkingOptions, new_working}
use llm_agent_memory.Engines.Semantic.{SemanticMemory, SemanticOptions, new_semantic}
use llm_agent_memory.Engines.Episodic.{EpisodicMemory, EpisodicOptions, new_episodic}
use llm_agent_memory.Tiers.{
  import_kind, through, restored, restore_working, restore_semantic, restore_episodic,
}

module _ (rt : Runtime) (lawful : IsLawful rt) (c : Contract) (s : Store) (well : IsWellFormed s)
    (entries : All IsEntry s.items) where
  -- A store with the items of `s` and the vectors that a snapshot shows of it.
  abbrev pub Holds : Store → Type 0
  Holds t =
      ((k : Text) → lookup k t.items ≡ lookup k s.items)
      × ((k : Text) → lookup k t.vectors ≡ lookup k (snapshot_vectors s))

  import_kind-export :
      (kind : Kind) (t : Store)
      → import_kind c kind (export_from_store rt c s kind) replace t
        ≡ import_into_store c (export_from_store rt c s kind) replace t
  unfolding import_kind export_from_store
  import_kind-export kind t = rw (kind_eq_refl kind) refl

  -- For an engine whose store is replaced by `put`.
  restored-export :
      {E : Type 0} (kind : Kind) (store : E → Store) (put : E → Store → E) (m : E)
      → ((t : Store) → store (put m t) ≡ t)
      → (m' : E) × (restored
            (ok m)
            (through store put (import_kind c kind (export_from_store rt c s kind) replace))
          ≡ ok m')
        × Holds (store m')
  restored-export kind store put m same =
      let (r, t) = import_into_store c (export_from_store rt c s kind) replace (store m) in
      let (done, items, vectors) = import-export rt lawful c s (store m) kind well entries in
      (
        put m t,
        ap (λ z. z.0 >>= λ _. ok (put m z.1)) (import_kind-export kind (store m))
            ∙ ap (λ z. z >>= λ _. ok (put m t)) done,
        (
          λ k. ap (λ z. lookup k z.items) (same t) ∙ items k,
          λ k. ap (λ z. lookup k z.vectors) (same t) ∙ vectors k,
        ),
      )

  -- The three restoring constructors undo `Export`: from the snapshot of a well-formed store whose
  -- items stand under their own ids, none of them empty, each makes without an error an engine that
  -- has exactly those items, with exactly the vectors that a snapshot shows of the store. (For a
  -- working memory this holds whatever the capacity in the options.)
  pub restore-export :
      (e : Embedder) (wo : WorkingOptions) (so : SemanticOptions) (eo : EpisodicOptions)
      → ((m : WorkingMemory) × (restore_working c (some e) (export_from_store rt c s working) wo
            ≡ ok m)
          × Holds m.store)
        × ((m : SemanticMemory) × (restore_semantic rt c
                (some e)
                (export_from_store rt c s semantic)
                so
              ≡ ok m)
            × Holds m.store)
        × ((m : EpisodicMemory) × (restore_episodic rt c
                (some e)
                (export_from_store rt c s episodic)
                eo
              ≡ ok m)
            × Holds m.store)
  unfolding restore_working restore_semantic restore_episodic new_working new_semantic new_episodic
  restore-export e wo so eo = (
    restored-export working (λ m. m.store) (λ m t. record m { store = t }) _ (λ t. refl),
    restored-export semantic (λ m. m.store) (λ m t. record m { store = t }) _ (λ t. refl),
    restored-export episodic (λ m. m.store) (λ m t. record m { store = t }) _ (λ t. refl),
  )
