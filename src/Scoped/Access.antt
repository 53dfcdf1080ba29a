-- ===== src/Scoped/Access.antt =====
-- The scoped manager of memory/scoped_manager_local.go over the working memory of
-- memory/engine_working.go: what its `Get`, `Update` and `Remove` do to the stored items.
use llm_agent_memory.Common.{
  ◌≡◌, refl, sym, subst, ap, ◌∙◌, ℕ, true, false, Option, none, some, Text, text_eq, lookup, insert,
  erase, lookup-insert, lookup-insert_self, lookup-erase, Puts, Drops, Runtime, IsLawful,
  Bool-cases, Option-cases, inl, inr, ◌⊎◌,
}
use llm_agent_memory.Errors.{Result, Result-cases, ok, err, not_found}
use llm_agent_memory.Contract.{working, MemoryItem, Scope, Contract, Time}
use llm_agent_memory.Scopes.{read_scope}
use llm_agent_memory.Store.{Store, Embedder, query_embedding, updated, update_vector}
use llm_agent_memory.Store
use llm_agent_memory.Store.Branches.{
  get_missing, get_found, remove_found, update_found, replaced, changed,
}
use llm_agent_memory.Listing.{CursorCodec, IsFaithful}
use llm_agent_memory.Engines.Working.{WorkingMemory}
use llm_agent_memory.Manager
use llm_agent_memory.Tiers.{working_tier, through}
use llm_agent_memory.Scoped.{ScopedManager, get, update, remove}
use llm_agent_memory.Scoped.Isolation.{no_item, outside_scope, inside_scope}
use llm_agent_memory.Lifecycle.WorkingAlone.{working_alone}

module _ (rt : Runtime) (lawful : IsLawful rt) (c : Contract) (codec : CursorCodec)
    (faithful : IsFaithful codec) (e : Embedder) (stamp : ℕ) (now : Time) (scope : Scope)
    (id : Text) (fn : MemoryItem → MemoryItem) (w : WorkingMemory) where
  abbrev pub sm : ScopedManager WorkingMemory
  sm = record { inner = working_alone rt lawful c codec faithful e stamp now }

  abbrev with_store : Store → WorkingMemory
  with_store s = record w { store = s }

  -- The item with the time of the access, and the memory with that item.
  abbrev pub touched : MemoryItem → MemoryItem
  touched it = record it { accessed_at = now }

  abbrev read_memory : MemoryItem → WorkingMemory
  read_memory it = with_store (record w.store { items = insert id (touched it) w.store.items })

  manager_get :
      Manager.get sm.inner working id w
      ≡ through (λ v. v.store) (λ v s. record v { store = s }) (Store.get now id) w
  unfolding Manager.get working_tier Manager.dispatch Manager.require_memory Manager.tier_for
  manager_get = refl

  manager_get_missing :
      lookup id w.store.items ≡ none → Manager.get sm.inner working id w ≡ (err not_found, w)
  manager_get_missing h =
      manager_get ∙ ap (λ z. (z.0, with_store z.1)) (get_missing now id w.store h)

  manager_get_found :
      (it : MemoryItem)
      → lookup id w.store.items ≡ some it
      → Manager.get sm.inner working id w ≡ (ok (touched it), read_memory it)
  manager_get_found it h =
      manager_get ∙ ap (λ z. (z.0, with_store z.1)) (get_found now id w.store it h)

  manager_update :
      (v : WorkingMemory)
      → (Manager.update sm.inner working id fn v).1.store.items
        ≡ (Store.update e now id fn v.store).1.items
  unfolding Manager.update working_tier Manager.dispatch Manager.require_memory Manager.tier_for
  manager_update v = refl

  manager_remove :
      (v : WorkingMemory)
      → Manager.remove sm.inner working id v
        ≡ through (λ v. v.store) (λ v s. record v { store = s }) (Store.remove id) v
  unfolding Manager.remove working_tier Manager.dispatch Manager.require_memory Manager.tier_for
  manager_remove v = refl

  reembed_items : (o : Option MemoryItem) (s : Store) → (Store.reembed e id o s).1.items ≡ s.items
  unfolding Store.reembed update_vector
  reembed_items none s = refl
  reembed_items (some it) s = elim (Result-cases (query_embedding e 0 it.content)) [
    | inl (vec, h) ↦ rw (Store.reembed, h) refl
    | inr (x, h) ↦ rw (Store.reembed, h) refl
  ]

  -- Every item but that of `id` as before, and this one with the time of the access.
  abbrev pub Touches : MemoryItem → WorkingMemory → Type 0
  Touches it w' =
      Puts id (touched it) w.store.items w'.store.items
      × (w'.store.vectors ≡ w.store.vectors)
      × (w'.opts ≡ w.opts)

  -- "Not found", with nothing changed but that time.
  abbrev pub Hides : {A : Type 0} → MemoryItem → Result A × WorkingMemory → Type 0
  Hides it (r, w') = (r ≡ err not_found) × Touches it w'

  read-Touches : (it : MemoryItem) → Touches it (read_memory it)
  read-Touches it = ((λ j. lookup-insert id j (touched it) w.store.items), refl, refl)

  hides :
      {A : Type 0} (it : MemoryItem) (z : Result A × WorkingMemory)
      → z ≡ (err not_found, read_memory it)
      → Hides it z
  hides it z h = subst (λ y. Hides it y) (sym h) (refl, read-Touches it)

  read_scope-touched : (it : MemoryItem) → read_scope (touched it) ≡ read_scope it
  unfolding read_scope
  read_scope-touched it = refl

  -- The update of the item that was read, as lookups see it.
  update-Puts :
      (it : MemoryItem)
      → Puts id
          (updated now fn (touched it))
          w.store.items
          (Manager.update sm.inner working id fn (read_memory it)).1.store.items
  update-Puts it j =
      let s : Store = (read_memory it).store in
      let known = lookup-insert_self id (touched it) w.store.items in
      let new : MemoryItem = updated now fn (touched it) in
      let items : (Manager.update sm.inner working id fn (read_memory it)).1.store.items
          ≡ insert id new s.items =
        manager_update (read_memory it)
        ∙ ap (λ z. z.1.items) (update_found e now id fn s (touched it) known)
        ∙ reembed_items (changed now id fn s (touched it)) (replaced now id fn s (touched it)) in
      let here = lookup-insert id j new s.items in
      let before = lookup-insert id j (touched it) w.store.items in
      rw (items, here)
        (elim (Bool-cases (text_eq id j)) [ inl h ↦ rw h refl | inr h ↦ rw (before, h) refl ])

  -- The removal of the item that was read.
  abbrev pub Removes : Result (Unit {0}) × WorkingMemory → Type 0
  Removes (r, w') =
      (r ≡ ok tt)
      × Drops id w.store.items w'.store.items
      × Drops id w.store.vectors w'.store.vectors

  read_memory-Drops :
      (it : MemoryItem) → Drops id w.store.items (erase id (read_memory it).store.items)
  read_memory-Drops it j =
      let gone = lookup-erase id j (read_memory it).store.items in
      let before = lookup-insert id j (touched it) w.store.items in
      rw gone (elim (Bool-cases (text_eq id j)) [ inl h ↦ rw h refl | inr h ↦ rw (before, h) refl ])

  remove-Removes : (it : MemoryItem) → Removes (Manager.remove sm.inner working id (read_memory it))
  remove-Removes it =
      let s : Store = (read_memory it).store in
      let known = lookup-insert_self id (touched it) w.store.items in
      let removed =
        manager_remove (read_memory it)
        ∙ ap (λ z. (z.0, with_store z.1)) (remove_found id s (touched it) known) in
      subst Removes (sym removed)
        (refl, read_memory-Drops it, λ j. lookup-erase id j w.store.vectors)

  -- The outcomes for an id that is not stored, for an item of another scope, and for one of the
  -- scope.
  abbrev pub IsMissing : Type 0
  IsMissing =
      (lookup id w.store.items ≡ none)
      × (get c scope sm working id w ≡ (err not_found, w))
      × (update c scope sm working id fn w ≡ (err not_found, w))
      × (remove c scope sm working id w ≡ (err not_found, w))

  abbrev pub IsHidden : MemoryItem → Type 0
  IsHidden it =
      (lookup id w.store.items ≡ some it)
      × (c.scope_matches scope (read_scope it) ≡ false)
      × Hides it (get c scope sm working id w)
      × Hides it (update c scope sm working id fn w)
      × Hides it (remove c scope sm working id w)

  abbrev pub IsServed : MemoryItem → Type 0
  IsServed it =
      (lookup id w.store.items ≡ some it)
      × (c.scope_matches scope (read_scope it) ≡ true)
      × ((get c scope sm working id w).0 ≡ ok (touched it))
      × Touches it (get c scope sm working id w).1
      × Puts id (updated now fn (touched it)) w.store.items
          (update c scope sm working id fn w).1.store.items
      × Removes (remove c scope sm working id w)

  -- `Get`, `Update` and `Remove` in a scope, of the working memory. For an id that is not stored all
  -- three say "not found" and change nothing. For an item of another scope all three say "not found"
  -- as well, and change nothing but the time of that item's last access, which reading it sets: no
  -- other field of it, no other item, no vector. For an item of the scope, `Get` returns it with
  -- that time and changes nothing else, `Update` stores the updated item and changes no other, and
  -- `Remove` succeeds and drops the item and its vector and no others.
  pub scoped_access :
      IsMissing ⊎ ((it : MemoryItem) × IsHidden it) ⊎ ((it : MemoryItem) × IsServed it)
  scoped_access = elim (Option-cases (lookup id w.store.items)) [
    | inl h ↦
        let (g, u, r) = no_item c scope sm working id fn not_found w w (manager_get_missing h) in
        inl (h, g, u, r)
    | inr (it, h) ↦
        let read = manager_get_found it h in
        let same = ap (c.scope_matches scope) (read_scope-touched it) in
        elim (Bool-cases (c.scope_matches scope (read_scope it))) [
          | inr out ↦
              let (g, u, r) =
                outside_scope c scope sm working id fn (touched it) w (read_memory it) read
                  (same ∙ out) in
              inr (inl (it, (h, out, hides it _ g, hides it _ u, hides it _ r)))
          | inl within ↦
              let (g, u, r) =
                inside_scope c scope sm working id fn (touched it) w (read_memory it) read
                  (same ∙ within) in
              inr (
                inr (
                  it,
                  (
                    h,
                    within,
                    ap (λ z. z.0) g,
                    subst (λ z. Touches it z.1) (sym g) (read-Touches it),
                    subst (λ z. Puts id (updated now fn (touched it)) w.store.items z.1.store.items)
                        (sym u) (update-Puts it),
                    subst Removes (sym r) (remove-Removes it),
                  ),
                ))
        ]
  ]
