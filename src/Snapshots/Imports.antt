-- ===== src/Snapshots/Imports.antt =====
-- What an import keeps of the store, and what its report says.
use llm_agent_memory.Common.{
  ℕ, ◌+◌, ◌≡◌, ◌≢◌, refl, sym, ap, ◌∙◌, false, none, some, List, [], ◌∷◌, Text, text_eq, lookup,
  insert, erase, has_key, length, Bool-cases, inl, inr, arith, lookup-insert_self, lookup-erase,
  erase-IsMap, ◌==◌,
}
use llm_agent_memory.Errors.{Error, ok, err, Result-cases}
use llm_agent_memory.Contract.{
  Vector, MemoryItem, SnapshotItem, Snapshot, ImportMode, replace, merge, upsert, ImportReport,
  Contract,
}
use llm_agent_memory.Store.{Store}
use llm_agent_memory.Store.Invariant.{IsWellFormed, put_item-IsWellFormed, put_vector-IsWellFormed}
use llm_agent_memory.Store.Keyed.{IsKeyed, insert-IsKeyed}
use llm_agent_memory.Snapshots.{
  put_vector, set_vector, load, import_item, import_loop, cleared, import_into_store, empty_report,
}

-- The store is well formed and its items stand under their own ids.
abbrev pub IsSound : Store → Type 0
IsSound s = IsWellFormed s × IsKeyed s.items

drop_vector-IsWellFormed :
    (id : Text) (s : Store)
    → IsWellFormed s
    → IsWellFormed (record s { vectors = erase id s.vectors })
drop_vector-IsWellFormed id s h = record {
  items_map = h.items_map;
  vectors_map = erase-IsMap id s.vectors h.vectors_map;
  covered = λ k. ground (arith, h.covered k, lookup-erase id k s.vectors);
}

module _ (item : MemoryItem) (s : Store) (h : IsSound s) where
  abbrev with_item : Store
  with_item = record s { items = insert item.id item s.items }

  with_item-IsWellFormed : IsWellFormed with_item
  with_item-IsWellFormed = put_item-IsWellFormed item.id item s h.0

  has_item : lookup item.id with_item.items ≢ none
  has_item p = cc (p, lookup-insert_self item.id item s.items)

  load_put-IsSound : (v : Vector) → IsSound (load (record { item = item; vector = v }) put_vector s)
  load_put-IsSound none = (with_item-IsWellFormed, insert-IsKeyed item s.items h.1)
  load_put-IsSound (some v) = (
    put_vector-IsWellFormed item.id (some v) with_item with_item-IsWellFormed has_item,
    insert-IsKeyed item s.items h.1,
  )

  load_set-IsSound : (v : Vector) → IsSound (load (record { item = item; vector = v }) set_vector s)
  load_set-IsSound none = (
    drop_vector-IsWellFormed item.id with_item with_item-IsWellFormed,
    insert-IsKeyed item s.items h.1,
  )
  load_set-IsSound (some v) = (
    put_vector-IsWellFormed item.id (some v) with_item with_item-IsWellFormed has_item,
    insert-IsKeyed item s.items h.1,
  )

import_named-IsSound :
    (mode : ImportMode) (si : SnapshotItem) (rpt : ImportReport) (s : Store)
    → text_eq si.item.id [] ≡ false
    → IsSound s
    → IsSound (import_item mode si rpt s).1
unfolding import_item
import_named-IsSound replace si rpt s e h = rw e (load_put-IsSound si.item s h si.vector)
import_named-IsSound upsert si rpt s e h = rw e (load_set-IsSound si.item s h si.vector)
import_named-IsSound (ImportMode.unlisted t) si rpt s e h = rw e h
import_named-IsSound merge si rpt s e h = elim (Bool-cases (has_key si.item.id s.items)) [
  | inl k ↦ rw (e, k) h
  | inr k ↦ rw (e, k) (load_put-IsSound si.item s h si.vector)
]

import_item-IsSound :
    (mode : ImportMode) (si : SnapshotItem) (rpt : ImportReport) (s : Store)
    → IsSound s
    → IsSound (import_item mode si rpt s).1
unfolding import_item
import_item-IsSound mode si rpt s h = elim (Bool-cases (text_eq si.item.id [])) [
  | inl e ↦ rw e h
  | inr e ↦ import_named-IsSound mode si rpt s e h
]

module _ (mode : ImportMode) (si : SnapshotItem) (rest : List SnapshotItem) (rpt : ImportReport)
    (s : Store) where
  pub import_loop_ok :
      (r : ImportReport)
      → (import_item mode si rpt s).0 ≡ ok r
      → import_loop mode (si ∷ rest) rpt s ≡ import_loop mode rest r (import_item mode si rpt s).1
  unfolding import_loop
  import_loop_ok r e = rw (import_loop, e) refl

  pub import_loop_err :
      (x : Error)
      → (import_item mode si rpt s).0 ≡ err x
      → import_loop mode (si ∷ rest) rpt s ≡ (err x, (import_item mode si rpt s).1)
  unfolding import_loop
  import_loop_err x e = rw (import_loop, e) refl

import_loop-IsSound :
    (mode : ImportMode) (items : List SnapshotItem) (rpt : ImportReport) (s : Store)
    → IsSound s
    → IsSound (import_loop mode items rpt s).1
unfolding import_loop
import_loop-IsSound mode [] rpt s h = h
import_loop-IsSound mode (si ∷ rest) rpt s h =
    let next = import_item-IsSound mode si rpt s h in
    elim (Result-cases (import_item mode si rpt s).0) [
      | inl (r, e) ↦
          rw (import_loop_ok mode si rest rpt s r e) (import_loop-IsSound mode rest r _ next)
      | inr (x, e) ↦ rw (import_loop_err mode si rest rpt s x e) next
    ]

cleared-IsSound : (mode : ImportMode) (s : Store) → IsSound s → IsSound (cleared mode s)
unfolding lookup
cleared-IsSound replace s h =
    (record { items_map = tt; vectors_map = tt; covered = λ k e. refl }, tt)
cleared-IsSound merge s h = h
cleared-IsSound upsert s h = h
cleared-IsSound (ImportMode.unlisted t) s h = h

-- An import in any mode, failing or not, of any snapshot into a well-formed store whose items stand
-- under their own ids leaves such a store.
pub import-IsSound :
    (c : Contract) (snap : Snapshot) (mode : ImportMode) (s : Store)
    → IsSound s
    → IsSound (import_into_store c snap mode s).1
unfolding import_into_store
import-IsSound c snap mode s h = elim (Bool-cases (snap.version == c.snapshot_version)) [
  | inl e ↦ rw e (import_loop-IsSound mode snap.items empty_report _ (cleared-IsSound mode s h))
  | inr e ↦ rw e h
]

abbrev pub total : ImportReport → ℕ
total r = r.loaded + r.replaced + r.skipped + r.errors

import_item-total :
    (mode : ImportMode) (si : SnapshotItem) (rpt r : ImportReport) (s : Store)
    → (import_item mode si rpt s).0 ≡ ok r
    → total r ≡ total rpt + 1
unfolding import_item
import_item-total replace si rpt r s h = ground arith
import_item-total upsert si rpt r s h = ground arith
import_item-total (ImportMode.unlisted t) si rpt r s h = ground arith
import_item-total merge si rpt r s h = ground arith

import_loop-total :
    (mode : ImportMode) (items : List SnapshotItem) (rpt r : ImportReport) (s : Store)
    → (import_loop mode items rpt s).0 ≡ ok r
    → total r ≡ total rpt + length items
unfolding import_loop
import_loop-total mode [] rpt r s h = ground arith
import_loop-total mode (si ∷ rest) rpt r s h = elim (Result-cases (import_item mode si rpt s).0) [
  | inl (rpt', e) ↦ omega (
    arith,
    import_item-total mode si rpt rpt' s e,
    import_loop-total mode rest rpt' r _
        (sym (ap (λ p. p.0) (import_loop_ok mode si rest rpt s rpt' e)) ∙ h),
  )
  | inr (x, e) ↦ cc (h, ap (λ p. p.0) (import_loop_err mode si rest rpt s x e))
]

-- The report of an import that succeeds accounts for every item of the snapshot exactly once.
pub import-total :
    (c : Contract) (snap : Snapshot) (mode : ImportMode) (s : Store) (r : ImportReport)
    → (import_into_store c snap mode s).0 ≡ ok r
    → r.loaded + r.replaced + r.skipped + r.errors ≡ length snap.items
unfolding import_into_store
import-total c snap mode s r h = elim (Bool-cases (snap.version == c.snapshot_version)) [
  | inl e ↦
      let counted =
        import_loop-total mode snap.items empty_report r (cleared mode s) (ground (arith, h, e)) in
      omega (arith, counted)
  | inr e ↦ absurd (ground (arith, h, e))
]
