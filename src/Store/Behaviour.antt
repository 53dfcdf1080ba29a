-- ===== src/Store/Behaviour.antt =====
-- What each method of the store does on each of its branches, as later lookups see it.
use llm_agent_memory.Common.{
  ℕ, ◌+◌, ◌≡◌, ◌≢◌, ◌⊎◌, refl, Option, none, some, Text, text_eq, lookup, lookup-insert,
  lookup-erase, arith, length, length-erase, Option-cases, inl, inr, Bool-cases, Puts, Drops, Dict,
  text_eq_refl, text_eq_iff,
}
use llm_agent_memory.Errors.{Error, Result, ok, err, wrapped, not_found, Result-cases}
use llm_agent_memory.Contract.{Time, Vector, MemoryItem}
use llm_agent_memory.Store.{
  Store, Embedder, query_embedding, assign_id, add, get, update, remove, reembed, update_vector,
  updated,
}
use llm_agent_memory.Store.Branches.{
  stored, named, add_embedded, add_refused, get_found, remove_missing, remove_found, changed,
  update_missing, update_found,
}
use llm_agent_memory.Store.Invariant.{IsWellFormed}

-- Only the sequence number may differ.
abbrev pub SameMaps : Store → Store → Type 0
SameMaps s t = (t.items ≡ s.items) × (t.vectors ≡ s.vectors)

module _ (e : Embedder) (stamp : ℕ) (now : Time) (item : MemoryItem) (s : Store) where
  pub SameMaps-named : SameMaps s (named e stamp now item s)
  unfolding assign_id
  SameMaps-named = ground arith

  abbrev pub AddStores : Vector → Result Text × Store → Type 0
  AddStores vec (r, t) =
      let new = stored e stamp now item s in
      (r ≡ ok new.id) × Puts new.id new s.items t.items × Puts new.id vec s.vectors t.vectors

  -- An `add` returns an id exactly when the embedder answers. It has then put the stamped item and
  -- its vector under that id, every other entry being as it was; else both maps are as they were.
  pub add_lem :
      ((vec : Vector) × (query_embedding e 0 (stored e stamp now item s).content ≡ ok vec)
        × AddStores vec (add e stamp now item s))
      ⊎ ((x : Error) × (query_embedding e 0 (stored e stamp now item s).content ≡ err x)
          × ((add e stamp now item s).0 ≡ err (wrapped x))
          × SameMaps s (add e stamp now item s).1)
  add_lem =
      let new : MemoryItem = stored e stamp now item s in
      let (same_items, same_vectors) = SameMaps-named in
      elim (Result-cases (query_embedding e 0 new.content)) [
        | inl (vec, found) ↦ inl (
          vec,
          found,
          rw (add_embedded e stamp now item s vec found) (
            refl,
            λ k. rw (lookup-insert new.id k new _, same_items) refl,
            λ k. rw (lookup-insert new.id k vec _, same_vectors) refl,
          ),
        )
        | inr (x, failed) ↦ inr (
          x,
          failed,
          rw (add_refused e stamp now item s x failed) refl,
          rw (add_refused e stamp now item s x failed) SameMaps-named,
        )
      ]

-- What `add` has stored, a later `get` by the id it returned gives back, with the new access time
-- as its only difference.
pub get-add :
    (e : Embedder) (stamp : ℕ) (now later : Time) (item : MemoryItem) (s : Store) (id : Text)
    → (add e stamp now item s).0 ≡ ok id
    → (get later id (add e stamp now item s).1).0
      ≡ ok (record (stored e stamp now item s) { accessed_at = later })
get-add e stamp now later item s id h = elim (add_lem e stamp now item s) [
  | inl (vec, _, stores) ↦
      let t : Store = (add e stamp now item s).1 in
      let new : MemoryItem = stored e stamp now item s in
      let found : lookup id t.items ≡ some new =
        ground (arith, stores.1 id, stores.0, text_eq_refl id) in
      rw (get_found later id t new found) refl
  | inr (x, _, failed, _) ↦ cc
]

-- A `remove` of a known id makes it unknown, leaves every other entry as it was and the store
-- smaller by one item; that of an unknown id says "not found" and changes nothing.
pub remove_lem :
    (id : Text) (s : Store)
    → IsWellFormed s
    → ((lookup id s.items ≡ none) × (remove id s ≡ (err not_found, s)))
      ⊎ (((remove id s).0 ≡ ok tt)
          × Drops id s.items (remove id s).1.items
          × Drops id s.vectors (remove id s).1.vectors
          × (length (remove id s).1.items + 1 ≡ length s.items))
remove_lem id s w = elim (Option-cases (lookup id s.items)) [
  | inl e ↦ inl (e, remove_missing id s e)
  | inr (item, e) ↦ inr (
      rw (remove_found id s item e) (
        refl,
        λ k. lookup-erase id k s.items,
        λ k. lookup-erase id k s.vectors,
        length-erase id item s.items w.items_map e,
      ))
]

-- What `update` does about the vector when `old` becomes `new`.
abbrev pub Reembeds :
    Embedder → Text → MemoryItem → MemoryItem → Dict Vector → Result (Unit {0}) × Store → Type 0
Reembeds e id old new before (r, t) =
    ((new.content ≡ old.content) × (r ≡ ok tt) × (t.vectors ≡ before))
    ⊎ ((new.content ≢ old.content)
        × (vec : Vector) × (query_embedding e 0 new.content ≡ ok vec)
        × (r ≡ ok tt)
        × Puts id vec before t.vectors)
    ⊎ ((new.content ≢ old.content)
        × (x : Error) × (query_embedding e 0 new.content ≡ err x)
        × (r ≡ err (wrapped x))
        × (t.vectors ≡ before))

pub items-reembed :
    (e : Embedder) (id : Text) (c : Option MemoryItem) (s : Store)
    → (reembed e id c s).1.items ≡ s.items
unfolding reembed
items-reembed e id none s = refl
items-reembed e id (some item) s = ground arith

reembed_same : (e : Embedder) (id : Text) (s : Store) → reembed e id none s ≡ (ok tt, s)
unfolding reembed
reembed_same e id s = refl

module _ (e : Embedder) (id : Text) (old new : MemoryItem) (s : Store)
    (differ : new.content ≢ old.content) where
  Reembeds-reembed : Reembeds e id old new s.vectors (reembed e id (some new) s)
  unfolding reembed update_vector
  Reembeds-reembed = elim (Result-cases (query_embedding e 0 new.content)) [
    | inl (vec, found) ↦ inr (
        inl (
          differ,
          vec,
          found,
          rw (found, reembed) refl,
          rw (found, reembed) (λ k. lookup-insert id k vec s.vectors),
        ))
    | inr (x, failed) ↦
        inr (inr (differ, x, failed, rw (failed, reembed) refl, rw (failed, reembed) refl))
  ]

-- An `update` of a known id always stores the changed item, also when it returns an error: only if
-- the content changed and embedding it failed does it return one, and the item then stands beside
-- the vector of its old content. Of an unknown id it says "not found" and changes nothing.
pub update_lem :
    (e : Embedder) (now : Time) (id : Text) (fn : MemoryItem → MemoryItem) (s : Store)
    → ((lookup id s.items ≡ none) × (update e now id fn s ≡ (err not_found, s)))
      ⊎ ((item : MemoryItem) × (lookup id s.items ≡ some item)
          × Puts id (updated now fn item) s.items (update e now id fn s).1.items
          × Reembeds e id item (updated now fn item) s.vectors (update e now id fn s))
update_lem e now id fn s = elim (Option-cases (lookup id s.items)) [
  | inl missing ↦ inl (missing, update_missing e now id fn s missing)
  | inr (item, found) ↦
      let new : MemoryItem = updated now fn item in
      inr (
        item,
        found,
        rw (update_found e now id fn s item found, items-reembed e id (changed now id fn s item))
            (λ k. lookup-insert id k new s.items),
        rw (update_found e now id fn s item found)
            (elim (Bool-cases (text_eq new.content item.content)) [
              | inl same ↦ rw (same, reembed_same e id) (inl ((text_eq_iff _ _).0 same, refl, refl))
              | inr differ ↦
                  rw differ
                    (Reembeds-reembed e id item new _ (λ p. cc (differ, (text_eq_iff _ _).1 p)))
            ]),
      )
]
