-- ===== src/Store/Locked.antt =====
-- The calls of engine_scored_store.go side by side: what each method with one locked
-- step, and the first step of `update`, leaves under one key.
use llm_agent_memory.Common.{
  ℕ, ◌≡◌, ◌≢◌, ◌⊎◌, inl, inr, refl, ◌∙◌, subst, List, [], ◌∷◌, Option, none, some, Text, text_eq,
  text_eq_iff, lookup, lookup-insert, lookup-erase, true, arith, Bool-cases, Option-cases,
}
use llm_agent_memory.Errors.{Result-cases}
use llm_agent_memory.Contract.{Time, Vector, MemoryItem}
use llm_agent_memory.Store.{
  Store, Embedder, query_embedding, add, get, update_item, remove, updated,
}
use llm_agent_memory.Store.Branches.{
  stored, named, add_embedded, add_refused, get_missing, get_found, remove_missing, remove_found,
  update_item_missing, update_item_found,
}
use llm_agent_memory.Store.Behaviour.{SameMaps-named}
use llm_agent_memory.Store.Interleaving.{Waiting, waiting_for, then_waits, IsCurrent, CurrentAt}

module _ (e : Embedder) where
  IsCurrent-content :
      (old new : MemoryItem) (v : Option Vector) (ps : List MemoryItem)
      → new.content ≡ old.content
      → IsCurrent e (some old) v ps
      → IsCurrent e (some new) v ps
  IsCurrent-content old new (some v) [] same h = rw same h
  IsCurrent-content old new none [] same h = absurd h
  IsCurrent-content old new v (p ∷ []) same h = same ∙ h
  IsCurrent-content old new v (p ∷ q ∷ ps) same h = absurd h

  pub IsCurrent-waits :
      (o : Option MemoryItem) (v : Option Vector) (ps : List MemoryItem)
      → ps ≢ []
      → IsCurrent e o v ps
      → (item p : MemoryItem) × (o ≡ some item) × (ps ≡ p ∷ []) × (item.content ≡ p.content)
  IsCurrent-waits o v [] ne h = absurd (ne refl)
  IsCurrent-waits none v (p ∷ []) ne h = absurd h
  IsCurrent-waits (some item) v (p ∷ []) ne h = (item, p, refl, refl, h)
  IsCurrent-waits o v (p ∷ q ∷ ps) ne h = absurd h

  pub same_key : (id k : Text) → text_eq id k ≡ true → id ≡ k
  same_key id k h = ground (arith, text_eq_iff id k)

  kept_content :
      (new old : MemoryItem) → text_eq new.content old.content ≡ true → new.content ≡ old.content
  kept_content new old h = ground (arith, text_eq_iff new.content old.content)

  -- What `k` has, once `id` is found to be `k`.
  IsCurrent-found :
      (id k : Text) (item : MemoryItem) (s : Store) (ws : Waiting)
      → text_eq id k ≡ true
      → lookup id s.items ≡ some item
      → CurrentAt e k (record { store = s; waiting = ws })
      → IsCurrent e (some item) (lookup k s.vectors) (waiting_for k ws)
  IsCurrent-found id k item s ws same found h =
      subst (λ o. IsCurrent e o (lookup k s.vectors) (waiting_for k ws))
        (subst (λ z. lookup z s.items ≡ some item) (same_key id k same) found) h

  module _ (k : Text) (ws : Waiting) where
    pub add-CurrentAt :
        (stamp : ℕ) (now : Time) (item : MemoryItem) (s : Store)
        → ((stored e stamp now item s).id ≢ k) ⊎ (waiting_for k ws ≡ [])
        → CurrentAt e k (record { store = s; waiting = ws })
        → CurrentAt e k (record { store = (add e stamp now item s).1; waiting = ws })
    add-CurrentAt stamp now item s spares h =
        let new : MemoryItem = stored e stamp now item s in
        let (same_items, same_vectors) = SameMaps-named e stamp now item s in
        elim (Result-cases (query_embedding e 0 new.content)) [
          | inr (x, failed) ↦
              rw (add_refused e stamp now item s x failed, same_items, same_vectors) h
          | inl (vec, found) ↦
              rw
                (
                  add_embedded e stamp now item s vec found,
                  lookup-insert new.id k new (named e stamp now item s).items,
                  lookup-insert new.id k vec (named e stamp now item s).vectors,
                  same_items,
                  same_vectors,
                )
                (elim (Bool-cases (text_eq new.id k)) [
                  | inr other ↦ rw other h
                  | inl same ↦ elim spares [
                    | inl differ ↦ absurd (differ (ground (arith, text_eq_iff new.id k)))
                    | inr idle ↦ rw (same, idle) found
                  ]
                ])
        ]

    pub get-CurrentAt :
        (now : Time) (id : Text) (s : Store)
        → CurrentAt e k (record { store = s; waiting = ws })
        → CurrentAt e k (record { store = (get now id s).1; waiting = ws })
    get-CurrentAt now id s h = elim (Option-cases (lookup id s.items)) [
      | inl missing ↦ rw (get_missing now id s missing) h
      | inr (item, found) ↦
          let new : MemoryItem = record item { accessed_at = now } in
          rw (get_found now id s item found, lookup-insert id k new s.items)
            (elim (Bool-cases (text_eq id k)) [
              | inr other ↦ rw other h
              | inl same ↦ rw same (
                  IsCurrent-content item new _ _ refl (IsCurrent-found id k item s ws same found h))
            ])
    ]

    pub remove-CurrentAt :
        (id : Text) (s : Store)
        → (id ≢ k) ⊎ (waiting_for k ws ≡ [])
        → CurrentAt e k (record { store = s; waiting = ws })
        → CurrentAt e k (record { store = (remove id s).1; waiting = ws })
    remove-CurrentAt id s spares h = elim (Option-cases (lookup id s.items)) [
      | inl missing ↦ rw (remove_missing id s missing) h
      | inr (item, found) ↦
          rw (remove_found id s item found, lookup-erase id k s.items, lookup-erase id k s.vectors)
            (elim (Bool-cases (text_eq id k)) [
              | inr other ↦ rw other h
              | inl same ↦ elim spares [
                | inl differ ↦ absurd (differ (same_key id k same))
                | inr idle ↦ rw (same, idle) tt
              ]
            ])
    ]

    pub begin-CurrentAt :
        (now : Time) (id : Text) (fn : MemoryItem → MemoryItem) (s : Store)
        → (id ≢ k) ⊎ (waiting_for k ws ≡ [])
        → CurrentAt e k (record { store = s; waiting = ws })
        → CurrentAt e k (record {
          store = (update_item now id fn s).1;
          waiting = then_waits id (update_item now id fn s).0 ws;
        })
    begin-CurrentAt now id fn s spares h = elim (Option-cases (lookup id s.items)) [
      | inl missing ↦ rw (update_item_missing now id fn s missing) h
      | inr (item, found) ↦
          let new : MemoryItem = updated now fn item in
          rw (update_item_found now id fn s item found, lookup-insert id k new s.items)
            (elim (Bool-cases (text_eq new.content item.content)) [
              | inl unchanged ↦ rw unchanged (elim (Bool-cases (text_eq id k)) [
                | inr other ↦ rw other h
                | inl same ↦ rw same (
                    IsCurrent-content item new _ _ (kept_content new item unchanged)
                      (IsCurrent-found id k item s ws same found h))
              ])
              | inr differs ↦ rw differs (elim (Bool-cases (text_eq id k)) [
                | inr other ↦ rw other h
                | inl same ↦ elim spares [
                  | inl differ ↦ absurd (differ (same_key id k same))
                  | inr idle ↦ rw (same, idle) refl
                ]
              ])
            ])
    ]
