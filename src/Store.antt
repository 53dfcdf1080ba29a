-- ===== src/Store.antt =====
-- memory/engine_scored_store.go: the store behind each engine, a map of items beside a map of their
-- vectors. A method takes the clock readings that it makes and returns its result with the store
-- that it leaves. Each method but `update` runs under one lock; `update` is two locked steps.
pub mod Decimal
pub mod Branches
pub mod Invariant
pub mod Behaviour
pub mod Keyed
pub mod Names
pub mod Races
pub mod Interleaving
pub mod Locked
pub mod Current
pub mod Statistics
use llm_agent_memory.Common.{
  ℕ, suc, ◌+◌, Bool, true, false, not, Option, none, some, List, [], ◌∷◌, ◌++◌, Text, codes,
  text_eq, Dict, lookup, insert, erase, map, clamp_unit, ◌==◌, if◌then◌else◌,
}
use llm_agent_memory.Errors.{Error, not_found, wrapped, Result, ok, err, ◌>>=◌}
use llm_agent_memory.Contract.{Time, Vector, MemoryItem}
use Decimal.{decimal}

-- The user's embedder, on one text. Its answer may differ from call to call: the number is the
-- place of the call in the operation that makes it.
abbrev pub Embedder : Type 0
Embedder = ℕ → Text → Result (List Vector)

pub record Store : Type 0 where
  pub items : Dict MemoryItem
  pub vectors : Dict Vector
  pub prefix : Text
  pub seq : ℕ

abbrev pub new_store : Text → Store
new_store prefix = record { items = []; vectors = []; prefix = prefix; seq = 0 }

-- The first vector of the answer, or nil.
unfoldable pub query_embedding : Embedder → ℕ → Text → Result Vector
query_embedding e call query = do
  vectors ← e call query
  elim vectors [ [] ↦ ok none | v ∷ _ ↦ ok v ]

-- `fmt.Sprintf("%s_%d_%d", s.prefix, time.Now().UnixNano(), s.seq)`
unfoldable pub generated_id : Text → ℕ → ℕ → Text
generated_id prefix stamp seq =
    prefix ++ (codes "_" ++ (decimal stamp ++ (codes "_" ++ decimal seq)))

-- `if item.ID == "" { s.seq++; item.ID = ... }`
unfoldable pub assign_id : ℕ → MemoryItem → Store → MemoryItem × Store
assign_id stamp item s =
    if text_eq item.id []
    then (
      record item { id = generated_id s.prefix stamp (s.seq + 1) },
      record s { seq = s.seq + 1 },
    )
    else (item, s)

-- The timestamps and the range of the importance.
unfoldable pub stamped : Time → MemoryItem → MemoryItem
stamped now item = record item {
  created_at = if item.created_at == 0 then now else item.created_at;
  accessed_at = now;
  importance = clamp_unit item.importance;
}

unfoldable pub add : Embedder → ℕ → Time → MemoryItem → Store → Result Text × Store
unfolding assign_id stamped
add e stamp now item s =
    let (named, s') = assign_id stamp item s in
    let stored = stamped now named in
    elim (query_embedding e 0 stored.content) [
      | err x ↦ (err (wrapped x), s')
      | ok vec ↦ (
        ok stored.id,
        record s' {
          items = insert stored.id stored s'.items;
          vectors = insert stored.id vec s'.vectors;
        },
      )
    ]

unfoldable pub get : Time → Text → Store → Result MemoryItem × Store
get now id s = elim (lookup id s.items) [
  | none ↦ (err not_found, s)
  | some item ↦
      let current = record item { accessed_at = now } in
      (ok current, record s { items = insert id current s.items })
]

-- What `update` stores under `id`.
unfoldable pub updated : Time → (MemoryItem → MemoryItem) → MemoryItem → MemoryItem
updated now fn item = record (fn item) {
  accessed_at = now;
  importance = clamp_unit (fn item).importance;
}

-- The first locked step of `update`: the new item, if its content changed.
unfoldable pub update_item :
    Time → Text → (MemoryItem → MemoryItem) → Store → Result (Option MemoryItem) × Store
unfolding updated
update_item now id fn s = elim (lookup id s.items) [
  | none ↦ (err not_found, s)
  | some item ↦
      let item' = updated now fn item in
      (
        ok (if text_eq item'.content item.content then none else some item'),
        record s { items = insert id item' s.items },
      )
]

-- The second locked step.
unfoldable pub update_vector : Text → Vector → Store → Store
update_vector id vec s = record s { vectors = insert id vec s.vectors }

unfoldable pub reembed : Embedder → Text → Option MemoryItem → Store → Result (Unit {0}) × Store
unfolding update_vector
reembed e id none s = (ok tt, s)
reembed e id (some item) s = elim (query_embedding e 0 item.content) [
  | err x ↦ (err (wrapped x), s)
  | ok vec ↦ (ok tt, update_vector id vec s)
]

unfoldable pub update :
    Embedder → Time → Text → (MemoryItem → MemoryItem) → Store → Result (Unit {0}) × Store
unfolding update_item reembed
update e now id fn s =
    let (r, s') = update_item now id fn s in
    elim r [ err x ↦ (err x, s') | ok changed ↦ reembed e id changed s' ]

unfoldable pub remove : Text → Store → Result (Unit {0}) × Store
remove id s = elim (lookup id s.items) [
  | none ↦ (err not_found, s)
  | some item ↦ (ok tt, record s { items = erase id s.items; vectors = erase id s.vectors })
]

-- `make` and `copy` turn a nil slice into an empty one.
abbrev pub copied : Vector → Vector
copied none = some []
copied (some v) = some v

-- The copies that `snapshot` returns; a map is a value here, so only the vectors can differ.
unfoldable pub snapshot_vectors : Store → Dict Vector
snapshot_vectors s = map (λ (k, v). (k, copied v)) s.vectors
