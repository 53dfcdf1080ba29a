-- ===== src/Store/Races.antt =====
-- `update` gives the lock back between its two steps, while it embeds the new content. What another
-- caller does in between is seen here, on paths of the steps of Store/Interleaving.
use llm_agent_memory.Common.{
  ◌≡◌, ◌≢◌, refl, sym, subst, ap, ◌∙◌, false, Option, none, some, [], ◌∷◌, Text, text_eq, lookup,
  insert, erase, lookup-erase_self, lookup-insert_self,
}
use llm_agent_memory.Errors.{ok}
use llm_agent_memory.Contract.{Time, Vector, MemoryItem}
use llm_agent_memory.Store.{Store, Embedder, query_embedding, update_item, updated}
use llm_agent_memory.Store.Branches.{update_item_found, remove_found, replaced}
use llm_agent_memory.Store.Invariant.{IsWellFormed}
use llm_agent_memory.Store.Interleaving.{
  Waiting, Shared, here, Step, removes, begins_update, ends_update, then_waits, IsSettled,
  CurrentAt, Steps, stay, then_step,
}
use llm_agent_memory.Store.Current.{reembed_found}

abbrev shared : Store → Waiting → Shared
shared s ws = record { store = s; waiting = ws }

some_inj : {A : Type 0} {a b : A} → some a ≡ some b → a ≡ b
some_inj h = cc h

ok_inj : {A : Type 0} {a b : A} → ok a ≡ ok b → a ≡ b
ok_inj h = cc h

-- Nobody is embedding.
abbrev pub idle : Store → Shared
idle s = shared s []

abbrev with_vector : Text → Vector → Store → Store
with_vector id vec s = record s { vectors = insert id vec s.vectors }

abbrev without : Text → Store → Store
without id s = record s { items = erase id s.items; vectors = erase id s.vectors }

-- A function that changes the content of the item.
abbrev pub Changes : Time → (MemoryItem → MemoryItem) → MemoryItem → Type 0
Changes now fn item = text_eq (updated now fn item).content item.content ≡ false

module _ (e : Embedder) where
  Step-begins :
      (now : Time) (id : Text) (fn : MemoryItem → MemoryItem) (item : MemoryItem) (s : Store)
      (ws : Waiting)
      → lookup id s.items ≡ some item
      → Changes now fn item
      → Step e (shared s ws) (shared (replaced now id fn s item) ((id, updated now fn item) ∷ ws))
  Step-begins now id fn item s ws found differs =
      let began : update_item now id fn s
          ≡ (ok (some (updated now fn item)), replaced now id fn s item) =
        rw (update_item_found now id fn s item found, differs) refl in
      subst (λ z. Step e (shared s ws) (shared z.1 (then_waits id z.0 ws))) began
        (begins_update now id fn)

  Step-removes :
      (id : Text) (item : MemoryItem) (s : Store) (ws : Waiting)
      → lookup id s.items ≡ some item
      → Step e (shared s ws) (shared (without id s) ws)
  Step-removes id item s ws found =
      subst (λ z. Step e (shared s ws) (shared z.1 ws)) (remove_found id s item found) (removes id)

  Step-ends :
      (id : Text) (p : MemoryItem) (vec : Vector) (s : Store) (ws : Waiting)
      → query_embedding e 0 p.content ≡ ok vec
      → Step e (shared s ((id, p) ∷ ws)) (shared (with_vector id vec s) ws)
  Step-ends id p vec s ws h =
      subst (λ z. Step e (shared s ((id, p) ∷ ws)) (shared z ws)) (reembed_found e id p s vec h)
        (ends_update id p here)

  module _ (now : Time) (id : Text) (fn : MemoryItem → MemoryItem) (item : MemoryItem) (s : Store)
      (vec : Vector) (found : lookup id s.items ≡ some item) (differs : Changes now fn item)
      (embeds : query_embedding e 0 (updated now fn item).content ≡ ok vec) where
    -- Another caller removes the item.
    update_across_remove :
        (t : Store) × Steps e (idle s) (idle t)
        × (lookup id t.items ≡ none)
        × (lookup id t.vectors ≡ some vec)
    update_across_remove =
        let new : MemoryItem = updated now fn item in
        let begun : Store = replaced now id fn s item in
        let known = lookup-insert_self id new s.items in
        let p1 = then_step stay (Step-begins now id fn item s [] found differs) in
        let p2 = then_step p1 (Step-removes id new begun ((id, new) ∷ []) known) in
        let p3 = then_step p2 (Step-ends id new vec (without id begun) [] embeds) in
        (
          with_vector id vec (without id begun),
          p3,
          lookup-erase_self id begun.items,
          lookup-insert_self id vec (erase id s.vectors),
        )

    -- Another caller updates the item.
    update_across_update :
        (fn' : MemoryItem → MemoryItem) (vec' : Vector)
        → Changes now fn' (updated now fn item)
        → query_embedding e 0 (updated now fn' (updated now fn item)).content ≡ ok vec'
        → (t : Store) × Steps e (idle s) (idle t)
          × (lookup id t.items ≡ some (updated now fn' (updated now fn item)))
          × (lookup id t.vectors ≡ some vec)
    update_across_update fn' vec' differs' embeds' =
        let new : MemoryItem = updated now fn item in
        let newer : MemoryItem = updated now fn' new in
        let begun : Store = replaced now id fn s item in
        let both : Store = replaced now id fn' begun new in
        let known = lookup-insert_self id new s.items in
        let p1 = then_step stay (Step-begins now id fn item s [] found differs) in
        let p2 = then_step p1 (Step-begins now id fn' new begun ((id, new) ∷ []) known differs') in
        let p3 = then_step p2 (Step-ends id newer vec' both ((id, new) ∷ []) embeds') in
        let p4 = then_step p3 (Step-ends id new vec (with_vector id vec' both) [] embeds) in
        (
          with_vector id vec (with_vector id vec' both),
          p4,
          lookup-insert_self id newer begun.items,
          lookup-insert_self id vec (insert id vec' s.vectors),
        )

not-IsSettled :
    (e : Embedder) (o : Option MemoryItem) (v : Option Vector) (item : MemoryItem)
    (vec vec' : Vector)
    → o ≡ some item
    → v ≡ some vec
    → query_embedding e 0 item.content ≡ ok vec'
    → vec ≢ vec'
    → ¬ IsSettled e o v
not-IsSettled e none v item vec vec' h k embeds apart settled = cc h
not-IsSettled e (some i) none item vec vec' h k embeds apart settled = cc k
not-IsSettled e (some i) (some x) item vec vec' h k embeds apart settled = apart (
    some_inj (sym k)
    ∙ ok_inj (sym settled ∙ ap (λ z. query_embedding e 0 z.content) (some_inj h) ∙ embeds))

-- From a store that has the item, with nobody embedding, and with updates that change its content
-- and whose contents can be embedded, the locked steps lead to two states in which again nobody is
-- embedding. If another caller removes the item between the two steps of an update, the store has
-- the item's vector without the item, and is not well formed. If two updates overlap and the first
-- writes its vector last, the item has the content of the second beside the vector of the first,
-- and if the two contents have different vectors, the item's vector is not that of its content.
pub update_races :
    (e : Embedder) (now : Time) (id : Text) (fn fn' : MemoryItem → MemoryItem) (item : MemoryItem)
    (s : Store) (vec vec' : Vector)
    → lookup id s.items ≡ some item
    → Changes now fn item
    → Changes now fn' (updated now fn item)
    → query_embedding e 0 (updated now fn item).content ≡ ok vec
    → query_embedding e 0 (updated now fn' (updated now fn item)).content ≡ ok vec'
    → vec ≢ vec'
    → ((t : Store) × Steps e (idle s) (idle t)
        × (lookup id t.items ≡ none)
        × (lookup id t.vectors ≡ some vec)
        × (¬ IsWellFormed t))
      × ((t : Store) × Steps e (idle s) (idle t)
          × (lookup id t.items ≡ some (updated now fn' (updated now fn item)))
          × (lookup id t.vectors ≡ some vec)
          × (¬ CurrentAt e id (idle t)))
update_races e now id fn fn' item s vec vec' found differs differs' embeds embeds' apart =
    let (t, p, gone, kept) = update_across_remove e now id fn item s vec found differs embeds in
    let (u, q, second, first) =
      update_across_update e now id fn item s vec found differs embeds fn' vec' differs' embeds' in
    (
      (t, p, gone, kept, λ w. cc (w.covered id gone, kept)),
      (u, q, second, first, not-IsSettled e _ _ _ vec vec' second first embeds' apart),
    )
