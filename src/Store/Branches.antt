-- ===== src/Store/Branches.antt =====
-- The result and the store of each method on each of its branches, as equations that keep the
-- method itself shut.
use llm_agent_memory.Common.{
  ℕ, ◌≡◌, Option, none, some, Text, text_eq, lookup, insert, erase, arith, if◌then◌else◌,
}
use llm_agent_memory.Errors.{Error, ok, err, wrapped, not_found}
use llm_agent_memory.Contract.{Time, Vector, MemoryItem}
use llm_agent_memory.Store.{
  Store, Embedder, query_embedding, assign_id, stamped, add, get, update, remove, update_item,
  reembed, updated,
}

module _ (e : Embedder) (stamp : ℕ) (now : Time) (item : MemoryItem) (s : Store) where
  -- The item as `add` stores it, and the store with the sequence number that it leaves.
  abbrev pub stored : MemoryItem
  stored = stamped now (assign_id stamp item s).0

  abbrev pub named : Store
  named = (assign_id stamp item s).1

  pub add_embedded :
      (vec : Vector)
      → query_embedding e 0 stored.content ≡ ok vec
      → add e stamp now item s ≡ (
        ok stored.id,
        record named {
          items = insert stored.id stored named.items;
          vectors = insert stored.id vec named.vectors;
        },
      )
  unfolding add
  add_embedded vec found = rw (found, add)

  pub add_refused :
      (x : Error)
      → query_embedding e 0 stored.content ≡ err x
      → add e stamp now item s ≡ (err (wrapped x), named)
  unfolding add
  add_refused x failed = rw (failed, add)

module _ (now : Time) (id : Text) (s : Store) where
  pub get_missing : lookup id s.items ≡ none → get now id s ≡ (err not_found, s)
  unfolding get
  get_missing h = rw (h, get)

  pub get_found :
      (item : MemoryItem)
      → lookup id s.items ≡ some item
      → let touched : MemoryItem = record item { accessed_at = now } in
        get now id s ≡ (ok touched, record s { items = insert id touched s.items })
  unfolding get
  get_found item h = rw (h, get)

module _ (id : Text) (s : Store) where
  pub remove_missing : lookup id s.items ≡ none → remove id s ≡ (err not_found, s)
  unfolding remove
  remove_missing h = rw (h, remove)

  pub remove_found :
      (item : MemoryItem)
      → lookup id s.items ≡ some item
      → remove id s ≡ (ok tt, record s { items = erase id s.items; vectors = erase id s.vectors })
  unfolding remove
  remove_found item h = rw (h, remove)

module _ (now : Time) (id : Text) (fn : MemoryItem → MemoryItem) (s : Store) where
  pub update_item_missing : lookup id s.items ≡ none → update_item now id fn s ≡ (err not_found, s)
  unfolding update_item
  update_item_missing h = rw (h, update_item)

  -- The item to embed anew, if the content of `item` changes.
  abbrev pub changed : MemoryItem → Option MemoryItem
  changed item =
      if text_eq (updated now fn item).content item.content
      then none
      else some (updated now fn item)

  abbrev pub replaced : MemoryItem → Store
  replaced item = record s { items = insert id (updated now fn item) s.items }

  pub update_item_found :
      (item : MemoryItem)
      → lookup id s.items ≡ some item
      → update_item now id fn s ≡ (ok (changed item), replaced item)
  unfolding update_item
  update_item_found item h = rw (h, update_item)

module _ (e : Embedder) (now : Time) (id : Text) (fn : MemoryItem → MemoryItem) (s : Store) where
  pub update_missing : lookup id s.items ≡ none → update e now id fn s ≡ (err not_found, s)
  unfolding update
  update_missing h = ground arith

  pub update_found :
      (item : MemoryItem)
      → lookup id s.items ≡ some item
      → update e now id fn s ≡ reembed e id (changed now id fn s item) (replaced now id fn s item)
  unfolding update
  update_found item h = ground arith
