-- ===== src/Tests/Sharing.antt =====
-- Concurrent calls of one store, on a concrete sequence of their locked steps.
use llm_agent_memory.Common.{
  arith, List, ◌∷◌, ◌≡◌, ◌≢◌, refl, ap, true, false, inl, inr, [], some, Text, codes, text_eq,
  lookup, insert,
}
use llm_agent_memory.Contract.{MemoryItem}
use llm_agent_memory.Store.{
  generated_id, new_store, query_embedding, assign_id, stamped, add, get, update_item, reembed,
  updated, Store,
}
use llm_agent_memory.Store.Branches.{stored}
use llm_agent_memory.Store.Invariant.{Call}
use llm_agent_memory.Store.Decimal.{decimal}
use llm_agent_memory.Store.Names.{generated_id-add}
use llm_agent_memory.Store.Interleaving.{
  Shared, here, adds, gets, begins_update, ends_update, Reach, start, later, CurrentAt,
}
use llm_agent_memory.Store.Current.{Reach-CurrentAt}
use llm_agent_memory.Tests.Fixtures.{embedder, first_item, second_item, unnamed_item}

abbrev key : Text
key = codes "a"

abbrev renamed : MemoryItem → MemoryItem
renamed it = record it { content = codes "new" }

abbrev fresh : Shared
fresh = record { store = new_store (codes "wrk"); waiting = [] }

-- The item is added, an update of it begins, another item is added and this one read meanwhile, and
-- the update ends.
abbrev one_added : Store
one_added = (add embedder 7 10 first_item fresh.store).1

abbrev begun : Store
begun = (update_item 11 key renamed one_added).1

abbrev two_added : Store
two_added = (add embedder 8 12 second_item begun).1

abbrev read_once : Store
read_once = (get 13 key two_added).1

abbrev waits : MemoryItem
waits = updated 11 renamed (stored embedder 7 10 first_item fresh.store)

abbrev ended : Shared
ended = record { store = (reembed embedder key (some waits) read_once).1; waiting = [] }

other_id : (stored embedder 8 12 second_item begun).id ≢ key
unfolding assign_id stamped text_eq
other_id h = let apart : false ≡ true = ap (λ z. text_eq z key) h in cc apart

interleaved : Reach embedder key fresh ended
unfolding add assign_id stamped query_embedding lookup insert text_eq update_item updated get
interleaved =
    later
      (later
        (later
          (later (later start (adds 7 10 first_item) (inr refl)) (begins_update 11 key renamed)
            (inr refl))
          (adds 8 12 second_item) (inl other_id))
        (gets 13 key) tt)
      (ends_update key waits here) (inr (some (codes "new"), refl))

Reach-CurrentAt_example : CurrentAt embedder key ended
unfolding lookup
Reach-CurrentAt_example = Reach-CurrentAt embedder key tt refl interleaved

-- Two items without an id, with a read and another item in between.
abbrev between : List Call
between = Call.gets 8 key ∷ Call.adds embedder 7 9 first_item ∷ []

generated_id-add_example : codes "wrk_7_1" ≢ codes "wrk_7_2"
unfolding add assign_id stamped query_embedding generated_id decimal lookup insert text_eq get
generated_id-add_example =
    generated_id-add embedder embedder 7 7 10 12 unnamed_item unnamed_item between fresh.store
      (codes "wrk_7_1") (codes "wrk_7_2") refl refl refl refl (omega arith)
