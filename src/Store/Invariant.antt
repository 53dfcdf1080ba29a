-- ===== src/Store/Invariant.antt =====
-- The invariant of the store: its two maps are maps, and a vector is kept only beside its item.
use llm_agent_memory.Common.{
  ℕ, ◌≡◌, ◌≢◌, refl, insert, erase, text_eq, lookup-insert_self, Option, none, some, List, [], ◌∷◌,
  Text, text_eq_iff, lookup, IsMap, lookup-insert, lookup-erase, insert-IsMap, erase-IsMap, inl,
  inr, Option-cases, arith, Bool-cases,
}
use llm_agent_memory.Errors.{Result-cases}
use llm_agent_memory.Contract.{Time, Vector, MemoryItem}
use llm_agent_memory.Store.{
  Store, Embedder, new_store, query_embedding, assign_id, add, get, update, remove, reembed,
  updated,
}
use llm_agent_memory.Store.Branches.{
  stored, named, add_embedded, add_refused, get_missing, get_found, remove_missing, remove_found,
  update_missing, update_found,
}

pub record IsWellFormed (s : Store) : Type 0 where
  pub items_map : IsMap s.items
  pub vectors_map : IsMap s.vectors
  pub covered : (k : Text) → lookup k s.items ≡ none → lookup k s.vectors ≡ none

pub new_store-IsWellFormed : (prefix : Text) → IsWellFormed (new_store prefix)
unfolding lookup
new_store-IsWellFormed prefix = record { items_map = tt; vectors_map = tt; covered = λ k h. refl }

-- The three writes, each by the laws of `insert` and `erase`.
pub put_item-IsWellFormed :
    (id : Text) (item : MemoryItem) (s : Store)
    → IsWellFormed s
    → IsWellFormed (record s { items = insert id item s.items })
put_item-IsWellFormed id item s h = record {
  items_map = insert-IsMap id item s.items h.items_map;
  vectors_map = h.vectors_map;
  covered = λ k. ground (arith, h.covered k, lookup-insert id k item s.items);
}

pub put_vector-IsWellFormed :
    (id : Text) (vec : Vector) (s : Store)
    → IsWellFormed s
    → lookup id s.items ≢ none
    → IsWellFormed (record s { vectors = insert id vec s.vectors })
put_vector-IsWellFormed id vec s h known = record {
  items_map = h.items_map;
  vectors_map = insert-IsMap id vec s.vectors h.vectors_map;
  covered = λ k. ground (arith, h.covered k, lookup-insert id k vec s.vectors, text_eq_iff id k);
}

pub drop-IsWellFormed :
    (id : Text) (s : Store)
    → IsWellFormed s
    → IsWellFormed (record s { items = erase id s.items; vectors = erase id s.vectors })
drop-IsWellFormed id s h = record {
  items_map = erase-IsMap id s.items h.items_map;
  vectors_map = erase-IsMap id s.vectors h.vectors_map;
  covered =
      λ k. ground (arith, h.covered k, lookup-erase id k s.items, lookup-erase id k s.vectors);
}

assign_id-IsWellFormed :
    (stamp : ℕ) (item : MemoryItem) (s : Store)
    → IsWellFormed s
    → IsWellFormed (assign_id stamp item s).1
unfolding assign_id
assign_id-IsWellFormed stamp item s h = elim (Bool-cases (text_eq item.id [])) [
  | inl e ↦
      rw e (record { items_map = h.items_map; vectors_map = h.vectors_map; covered = h.covered })
  | inr e ↦ rw e h
]

pub add-IsWellFormed :
    (e : Embedder) (stamp : ℕ) (now : Time) (item : MemoryItem) (s : Store)
    → IsWellFormed s
    → IsWellFormed (add e stamp now item s).1
add-IsWellFormed e stamp now item s h =
    let new : MemoryItem = stored e stamp now item s in
    let s' : Store = named e stamp now item s in
    let h' = assign_id-IsWellFormed stamp item s h in
    elim (Result-cases (query_embedding e 0 new.content)) [
      | inl (vec, found) ↦ rw (add_embedded e stamp now item s vec found) (
          put_vector-IsWellFormed new.id vec _ (put_item-IsWellFormed new.id new s' h')
            (λ p. cc (p, lookup-insert_self new.id new s'.items)))
      | inr (x, failed) ↦ rw (add_refused e stamp now item s x failed) h'
    ]

get-IsWellFormed :
    (now : Time) (id : Text) (s : Store) → IsWellFormed s → IsWellFormed (get now id s).1
get-IsWellFormed now id s h = elim (Option-cases (lookup id s.items)) [
  | inl e ↦ rw (get_missing now id s e) h
  | inr (item, e) ↦ rw (get_found now id s item e) (put_item-IsWellFormed id _ s h)
]

remove-IsWellFormed : (id : Text) (s : Store) → IsWellFormed s → IsWellFormed (remove id s).1
remove-IsWellFormed id s h = elim (Option-cases (lookup id s.items)) [
  | inl e ↦ rw (remove_missing id s e) h
  | inr (item, e) ↦ rw (remove_found id s item e) (drop-IsWellFormed id s h)
]

reembed-IsWellFormed :
    (e : Embedder) (id : Text) (changed : Option MemoryItem) (s : Store)
    → IsWellFormed s
    → lookup id s.items ≢ none
    → IsWellFormed (reembed e id changed s).1
unfolding reembed
reembed-IsWellFormed e id none s h known = h
reembed-IsWellFormed e id (some item) s h known =
    elim (Result-cases (query_embedding e 0 item.content)) [
      | inl (vec, found) ↦ rw (found, reembed) (put_vector-IsWellFormed id vec s h known)
      | inr (x, failed) ↦ rw (failed, reembed) h
    ]

update-IsWellFormed :
    (e : Embedder) (now : Time) (id : Text) (fn : MemoryItem → MemoryItem) (s : Store)
    → IsWellFormed s
    → IsWellFormed (update e now id fn s).1
update-IsWellFormed e now id fn s h = elim (Option-cases (lookup id s.items)) [
  | inl missing ↦ rw (update_missing e now id fn s missing) h
  | inr (item, found) ↦ rw (update_found e now id fn s item found) (
      reembed-IsWellFormed e id _ _ (put_item-IsWellFormed id _ s h)
        (λ p. cc (p, lookup-insert_self id (updated now fn item) s.items)))
]

-- The calls that a client may make of a store.
pub data Call : Type 0 where
  adds : Embedder → ℕ → Time → MemoryItem → Call
  gets : Time → Text → Call
  updates : Embedder → Time → Text → (MemoryItem → MemoryItem) → Call
  removes : Text → Call

abbrev pub step : Call → Store → Store
step (adds e stamp now item) s = (add e stamp now item s).1
step (gets now id) s = (get now id s).1
step (updates e now id fn) s = (update e now id fn s).1
step (removes id) s = (remove id s).1

abbrev pub run : List Call → Store → Store
run [] s = s
run (c ∷ cs) s = run cs (step c s)

step-IsWellFormed : (c : Call) (s : Store) → IsWellFormed s → IsWellFormed (step c s)
step-IsWellFormed (adds e stamp now item) s h = add-IsWellFormed e stamp now item s h
step-IsWellFormed (gets now id) s h = get-IsWellFormed now id s h
step-IsWellFormed (updates e now id fn) s h = update-IsWellFormed e now id fn s h
step-IsWellFormed (removes id) s h = remove-IsWellFormed id s h

-- Calls made one after the other, failing or not, that start from a well-formed store leave a
-- well-formed one.
pub run-IsWellFormed : (cs : List Call) (s : Store) → IsWellFormed s → IsWellFormed (run cs s)
run-IsWellFormed [] s h = h
run-IsWellFormed (c ∷ cs) s h = run-IsWellFormed cs (step c s) (step-IsWellFormed c s h)
