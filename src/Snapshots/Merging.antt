-- ===== src/Snapshots/Merging.antt =====
-- What a merging import does to the items that a store already has.
use llm_agent_memory.Common.{
  ◌≡◌, false, some, List, [], ◌∷◌, Text, text_eq, text_eq_iff, lookup, insert, has_key,
  lookup-insert, arith, Bool-cases, inl, inr, ◌==◌,
}
use llm_agent_memory.Errors.{Result-cases}
use llm_agent_memory.Contract.{MemoryItem, SnapshotItem, Snapshot, ImportReport, merge, Contract}
use llm_agent_memory.Store.{Store}
use llm_agent_memory.Snapshots.{import_item, import_loop, import_into_store, empty_report}
use llm_agent_memory.Snapshots.Imports.{import_loop_ok, import_loop_err}

-- An item put under a new key changes no item that is there.
insert_absent :
    (k j : Text) (new it : MemoryItem) (s : Store)
    → has_key k s.items ≡ false
    → lookup j s.items ≡ some it
    → lookup j (insert k new s.items) ≡ some it
insert_absent k j new it s h e = ground (arith, lookup-insert k j new s.items, text_eq_iff k j)

merge_item-lookup :
    (si : SnapshotItem) (rpt : ImportReport) (j : Text) (it : MemoryItem) (s : Store)
    → lookup j s.items ≡ some it
    → lookup j (import_item merge si rpt s).1.items ≡ some it
unfolding import_item
merge_item-lookup si rpt j it s e = elim (Bool-cases (text_eq si.item.id [])) [
  | inl h ↦ rw h e
  | inr h ↦ elim (Bool-cases (has_key si.item.id s.items)) [
    | inl k ↦ rw (h, k) e
    | inr k ↦ rw (h, k) (insert_absent si.item.id j si.item it s k e)
  ]
]

merge_loop-lookup :
    (items : List SnapshotItem) (rpt : ImportReport) (j : Text) (it : MemoryItem) (s : Store)
    → lookup j s.items ≡ some it
    → lookup j (import_loop merge items rpt s).1.items ≡ some it
unfolding import_loop
merge_loop-lookup [] rpt j it s e = e
merge_loop-lookup (si ∷ rest) rpt j it s e =
    let kept = merge_item-lookup si rpt j it s e in
    elim (Result-cases (import_item merge si rpt s).0) [
      | inl (r, h) ↦
          rw (import_loop_ok merge si rest rpt s r h) (merge_loop-lookup rest r j it _ kept)
      | inr (x, h) ↦ rw (import_loop_err merge si rest rpt s x h) kept
    ]

-- A merging import never replaces or drops an item that the store has, whatever the snapshot.
pub import_merge-lookup :
    (c : Contract) (snap : Snapshot) (j : Text) (it : MemoryItem) (s : Store)
    → lookup j s.items ≡ some it
    → lookup j (import_into_store c snap merge s).1.items ≡ some it
unfolding import_into_store
import_merge-lookup c snap j it s e = elim (Bool-cases (snap.version == c.snapshot_version)) [
  | inl v ↦ rw v (merge_loop-lookup snap.items empty_report j it s e)
  | inr v ↦ rw v e
]
