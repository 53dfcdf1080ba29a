-- ===== src/Scopes.antt =====
-- memory/scope_local.go, and `readScope` of memory/engine_list.go: the scope that an item carries
-- in its metadata. A context is the scope that it carries, the zero scope if none.
use llm_agent_memory.Common.{
  ◌≡◌, Option, none, some, [], ◌∷◌, Text, codes, Dict, lookup, insert, text_eq, if◌then◌else◌, refl,
  Bool-cases, true, false, inl, inr, ◌⊎◌, lookup-insert, lookup-insert_self,
}
use llm_agent_memory.Contract.{
  Value, text, text_map, any_map, Fields, end, field, MemoryItem, Scope, zero_scope, Contract,
}

abbrev pub scope_key : Text
scope_key = codes "_scope"

-- `m[k]` of a `map[string]string`
abbrev pub text_or_empty : Option Text → Text
text_or_empty none = []
text_or_empty (some s) = s

-- `stringOr(m[k])` of a `map[string]any`
unfoldable pub field_text : Text → Fields → Text
field_text k end = []
field_text k (field j v fs) =
    let rest = field_text k fs in if text_eq j k then elim v [ text s ↦ s | _ ↦ [] ] else rest

unfoldable pub scope_of_value : Value → Scope
scope_of_value (text_map m) = record {
  user = text_or_empty (lookup (codes "user") m);
  project = text_or_empty (lookup (codes "project") m);
  session = text_or_empty (lookup (codes "session") m);
}
scope_of_value (any_map m) = record {
  user = field_text (codes "user") m;
  project = field_text (codes "project") m;
  session = field_text (codes "session") m;
}
scope_of_value _ = zero_scope

-- The value under a key of a metadata map; a nil map has none.
abbrev pub meta_value : Text → Option (Dict Value) → Option Value
meta_value k none = none
meta_value k (some m) = lookup k m

unfoldable pub read_scope : MemoryItem → Scope
read_scope it = elim (meta_value scope_key it.metadata) [
  | none ↦ zero_scope
  | some raw ↦ scope_of_value raw
]

abbrev pub scope_map : Scope → Dict Text
scope_map s =
    (codes "user", s.user) ∷ (codes "project", s.project) ∷ (codes "session", s.session) ∷ []

-- The entries of a metadata map; a nil one is made anew.
abbrev pub entries : Option (Dict Value) → Dict Value
entries none = []
entries (some m) = m

unfoldable pub stamp_scope : Contract → MemoryItem → Scope → MemoryItem
stamp_scope c item s = if c.scope_is_zero s then item else record item {
  metadata = some (insert scope_key (text_map (scope_map s)) (entries item.metadata));
}

scope_of_value-scope_map : (s : Scope) → scope_of_value (text_map (scope_map s)) ≡ s
unfolding scope_of_value lookup text_eq
scope_of_value-scope_map s = refl

meta_value-insert :
    (k : Text) (v : Value) (key : Text) (m : Option (Dict Value))
    → meta_value k (some (insert key v (entries m)))
      ≡ (if text_eq key k then some v else meta_value k m)
unfolding lookup
meta_value-insert k v key none = lookup-insert key k v []
meta_value-insert k v key (some m) = lookup-insert key k v m

-- A zero scope leaves the item as it is. Any other scope that `stampScope` writes, `readScope` reads
-- back, whatever the metadata held before, nil included: under the key of the scope the metadata
-- has the scope's three fields, under every other key what it had, and nothing else of the item
-- changes.
pub read_scope-stamp_scope :
    (c : Contract) (item : MemoryItem) (s : Scope) (k : Text)
    → ((c.scope_is_zero s ≡ true) × (stamp_scope c item s ≡ item))
      ⊎ ((c.scope_is_zero s ≡ false)
          × (read_scope (stamp_scope c item s) ≡ s)
          × (meta_value k (stamp_scope c item s).metadata ≡ (
              if text_eq scope_key k
              then some (text_map (scope_map s))
              else meta_value k item.metadata))
          × (record (stamp_scope c item s) { metadata = item.metadata } ≡ item))
unfolding read_scope stamp_scope
read_scope-stamp_scope c item s k = elim (Bool-cases (c.scope_is_zero s)) [
  | inl z ↦ inl (z, rw (z, stamp_scope) refl)
  | inr z ↦
      let written = lookup-insert_self scope_key (text_map (scope_map s)) (entries item.metadata) in
      inr (
        z,
        rw (z, stamp_scope) (rw (written, read_scope) (scope_of_value-scope_map s)),
        rw (z, stamp_scope) (meta_value-insert k (text_map (scope_map s)) scope_key item.metadata),
        rw (z, stamp_scope) refl,
      )
]
