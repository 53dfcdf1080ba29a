-- ===== src/Store/Interleaving.antt =====
-- The callers of one store at the same time: each step is what a method does under one lock, and an
-- `update` that must embed a new content waits between its two steps, while others go on. `get`
-- reads the item under one lock and writes its access time under another, if it is still there: only
-- the second step changes the store, as a whole `get` at that moment does.
use llm_agent_memory.Common.{
  ℕ, ◌≡◌, ◌≢◌, ◌⊎◌, List, [], ◌∷◌, Option, none, some, Text, text_eq, lookup, if◌then◌else◌,
}
use llm_agent_memory.Errors.{Result, ok, err}
use llm_agent_memory.Contract.{Time, Vector, MemoryItem}
use llm_agent_memory.Store.{
  Store, Embedder, query_embedding, add, get, update_item, reembed, remove,
}
use llm_agent_memory.Store.Branches.{stored}

-- An id and the item whose content is being embedded.
abbrev pub Waiting : Type 0
Waiting = List (Text × MemoryItem)

pub record Shared : Type 0 where
  pub store : Store
  pub waiting : Waiting

-- The items that wait for their vector under `k`.
abbrev pub waiting_for : Text → Waiting → List MemoryItem
waiting_for k [] = []
waiting_for k ((j, p) ∷ ws) = let rest = waiting_for k ws in if text_eq j k then p ∷ rest else rest

-- The wait of the last update that began, if it has one.
abbrev pub then_waits : Text → Result (Option MemoryItem) → Waiting → Waiting
then_waits id (err x) ws = ws
then_waits id (ok none) ws = ws
then_waits id (ok (some p)) ws = (id, p) ∷ ws

-- One of those that wait, and the others.
pub data Picks (w : Text × MemoryItem) : Waiting → Waiting → Type 0 where
  here : {ws : Waiting} → Picks w ws (w ∷ ws)
  there :
      {v : Text × MemoryItem} {rest ws : Waiting} → Picks w rest ws → Picks w (v ∷ rest) (v ∷ ws)

module _ (e : Embedder) where
  pub data Step (s : Shared) : Shared → Type 0 where
    adds :
        (stamp : ℕ) (now : Time) (item : MemoryItem)
        → Step s (record { store = (add e stamp now item s.store).1; waiting = s.waiting })
    gets :
        (now : Time) (id : Text)
        → Step s (record { store = (get now id s.store).1; waiting = s.waiting })
    removes : (id : Text) → Step s (record { store = (remove id s.store).1; waiting = s.waiting })
    begins_update :
        (now : Time) (id : Text) (fn : MemoryItem → MemoryItem)
        → Step s (record {
          store = (update_item now id fn s.store).1;
          waiting = then_waits id (update_item now id fn s.store).0 s.waiting;
        })
    ends_update :
        (id : Text) (p : MemoryItem) {rest : Waiting}
        → Picks (id, p) rest s.waiting
        → Step s (record { store = (reembed e id (some p) s.store).1; waiting = rest })

  -- Any steps, one after the other.
  pub data Steps (s : Shared) : Shared → Type 0 where
    stay : Steps s s
    then_step : {t u : Shared} → Steps s t → Step t u → Steps s u

  -- A step that does not disturb an `update` of `k`: nobody adds, updates or removes `k` while its
  -- new content is being embedded, and embedding that content succeeds.
  abbrev pub Spares : {s t : Shared} → Text → Step s t → Type 0
  Spares {s} k (adds stamp now item) =
      ((stored e stamp now item s.store).id ≢ k) ⊎ (waiting_for k s.waiting ≡ [])
  Spares k (gets now id) = Unit
  Spares {s} k (removes id) = (id ≢ k) ⊎ (waiting_for k s.waiting ≡ [])
  Spares {s} k (begins_update now id fn) = (id ≢ k) ⊎ (waiting_for k s.waiting ≡ [])
  Spares k (ends_update id p picks) =
      (id ≢ k) ⊎ ((v : Vector) × (query_embedding e 0 p.content ≡ ok v))

  -- Neither an item nor a vector, or an item with the vector of its content.
  abbrev pub IsSettled : Option MemoryItem → Option Vector → Type 0
  IsSettled none none = Unit
  IsSettled (some item) (some v) = query_embedding e 0 item.content ≡ ok v
  IsSettled none (some v) = ⊥
  IsSettled (some item) none = ⊥

  abbrev pub HasContent : Text → Option MemoryItem → Type 0
  HasContent content none = ⊥
  HasContent content (some item) = item.content ≡ content

  -- Settled where no update waits; where one waits, it is the only one, and embeds what is stored.
  abbrev pub IsCurrent : Option MemoryItem → Option Vector → List MemoryItem → Type 0
  IsCurrent o v [] = IsSettled o v
  IsCurrent o v (p ∷ []) = HasContent p.content o
  IsCurrent o v (p ∷ q ∷ ps) = ⊥

  abbrev pub CurrentAt : Text → Shared → Type 0
  CurrentAt k s =
      IsCurrent (lookup k s.store.items) (lookup k s.store.vectors) (waiting_for k s.waiting)

  -- The states that the steps lead to, from `s`, sparing `k`.
  pub data Reach (k : Text) (s : Shared) : Shared → Type 0 where
    start : Reach k s s
    later : {t u : Shared} → Reach k s t → (move : Step t u) → Spares k move → Reach k s u
