-- ===== src/Snapshots/RoundTrip.antt =====
-- A store exported and imported again.
use mathlib.Core.List.Permᴰ
use llm_agent_memory.Common.{
  ◌≡◌, refl, sym, ap, ◌∙◌, subst, ℕ, ◌+◌, true, false, Option, none, some, [], ◌∷◌, map, Permᴰ,
  Text, text_eq, text_eq_iff, Dict, has_key, is_some, lookup, insert, IsMap, lookup-insert, All,
  All-perm, arith, if◌then◌else◌, Runtime, IsLawful, length, length-perm, ◌==◌,
}
use llm_agent_memory.Errors.{ok}
use llm_agent_memory.Contract.{
  Vector, Kind, MemoryItem, SnapshotItem, ImportReport, replace, Contract,
}
use llm_agent_memory.Store.{Store, copied, snapshot_vectors}
use llm_agent_memory.Store.Invariant.{IsWellFormed}
use llm_agent_memory.Snapshots.{
  vector_of, exported_before, export_from_store, import_item, import_loop, import_into_store,
  empty_report, put_vector,
}
use llm_agent_memory.Snapshots.Imports.{import_loop_ok}

module _ {V : Type 0} where
  abbrev SameMap : Dict V → Dict V → Type 0
  SameMap xs ys = IsMap ys × ((k : Text) → lookup k ys ≡ lookup k xs)

  swap-SameMap : (a b : Text × V) (l : Dict V) → IsMap (a ∷ b ∷ l) → SameMap (a ∷ b ∷ l) (b ∷ a ∷ l)
  unfolding lookup
  swap-SameMap (i, v) (j, w) l h = (
    ground (arith, h, text_eq_iff i j, text_eq_iff j i),
    λ k. ground (arith, h, text_eq_iff i j, text_eq_iff j i, text_eq_iff i k, text_eq_iff j k),
  )

  cons-SameMap :
      (a : Text × V) (xs ys : Dict V) → IsMap (a ∷ xs) → SameMap xs ys → SameMap (a ∷ xs) (a ∷ ys)
  unfolding lookup
  cons-SameMap (i, v) xs ys h s = ((s.1 i ∙ h.0, s.0), λ k. ground (arith, s.1 k))

  -- The order of a map's entries does not matter.
  perm-SameMap : {xs ys : Dict V} → Permᴰ xs ys → IsMap xs → SameMap xs ys
  perm-SameMap Permᴰ.nil h = (tt, λ k. refl)
  perm-SameMap (Permᴰ.cons {a = a} {b = b} {l₁ = l₁} {l₂ = l₂} e p) h =
      subst (λ z. SameMap (a ∷ l₁) (z ∷ l₂)) e (cons-SameMap a l₁ l₂ h (perm-SameMap p h.1))
  perm-SameMap (Permᴰ.swap {a = a} {b = b} {b' = b'} {l = l} e f) h =
      subst (λ z. SameMap (a ∷ b ∷ l) (z ∷ b' ∷ l)) f
        (subst (λ z. SameMap (a ∷ b ∷ l) (b ∷ z ∷ l)) e (swap-SameMap a b l h))
  perm-SameMap (Permᴰ.trans p q) h =
      let s = perm-SameMap p h in let t = perm-SameMap q s.0 in (t.0, λ k. t.1 k ∙ s.1 k)

-- The key names an item, which stands under its own id.
abbrev pub IsEntry : Text × MemoryItem → Type 0
IsEntry (k, item) = (item.id ≡ k) × (text_eq k [] ≡ false)

abbrev or_else {ℓ} : {A : Type ℓ} → Option A → Option A → Option A
or_else (some a) o = some a
or_else none o = o

-- What the map of vectors holds for a vector of a snapshot.
abbrev held : Vector → Option Vector
held none = none
held (some v) = some (some v)

lookup-put_vector :
    (j k : Text) (v : Vector) (m : Dict Vector)
    → lookup k (put_vector j v m)
      ≡ (if text_eq j k then or_else (held v) (lookup k m) else lookup k m)
lookup-put_vector j k none m = ground arith
lookup-put_vector j k (some v) m = lookup-insert j k (some v) m

module _ (vectors : Dict Vector) where
  abbrev exported : Text × MemoryItem → SnapshotItem
  exported (k, item) = record { item = item; vector = vector_of (lookup k vectors) }

  -- What one entry adds to the store.
  abbrev loaded : Text → Vector → MemoryItem → Store → Store
  loaded k v item s = record s { items = insert k item s.items; vectors = put_vector k v s.vectors }

  import_own :
      (v : Vector) (item : MemoryItem) (rpt : ImportReport) (s : Store)
      → text_eq item.id [] ≡ false
      → import_item replace (record { item = item; vector = v }) rpt s
        ≡ (ok (record rpt { loaded = rpt.loaded + 1 }), loaded item.id v item s)
  unfolding import_item
  import_own v item rpt s n = rw (import_item, n) refl

  import_exported :
      (k : Text) (item : MemoryItem) (rpt : ImportReport) (s : Store)
      → IsEntry (k, item)
      → import_item replace (exported (k, item)) rpt s ≡ (
        ok (record rpt { loaded = rpt.loaded + 1 }),
        loaded k (vector_of (lookup k vectors)) item s,
      )
  import_exported k item rpt s (e, n) =
      let v : Vector = vector_of (lookup k vectors) in
      subst
        (λ z.
          import_item replace (record { item = item; vector = v }) rpt s
          ≡ (ok (record rpt { loaded = rpt.loaded + 1 }), loaded z v item s))
        e (import_own v item rpt s (subst (λ z. text_eq z [] ≡ false) (sym e) n))

  abbrev all_loaded : Dict MemoryItem → Store → Store
  all_loaded [] s = s
  all_loaded ((k, item) ∷ l) s = all_loaded l (loaded k (vector_of (lookup k vectors)) item s)

  import_loop-exported :
      (l : Dict MemoryItem) (rpt : ImportReport) (s : Store)
      → All IsEntry l
      → import_loop replace (map exported l) rpt s
        ≡ (ok (record rpt { loaded = rpt.loaded + length l }), all_loaded l s)
  unfolding import_loop
  import_loop-exported [] rpt s h = ap (λ n. (ok (record rpt { loaded = n }), s)) (omega arith)
  import_loop-exported ((k, item) ∷ l) rpt s h =
      let one = import_exported k item rpt s h.0 in
      let rpt' : ImportReport = record rpt { loaded = rpt.loaded + 1 } in
      import_loop_ok replace (exported (k, item)) (map exported l) rpt s rpt' (ap (λ r. r.0) one)
      ∙ ap (λ r. import_loop replace (map exported l) rpt' r.1) one
      ∙ import_loop-exported l rpt' (loaded k (vector_of (lookup k vectors)) item s) h.1
      ∙ ap (λ n. (ok (record rpt { loaded = n }), all_loaded ((k, item) ∷ l) s)) (omega arith)

  lookup-all_loaded :
      (l : Dict MemoryItem) (s : Store) (k : Text)
      → IsMap l
      → lookup k (all_loaded l s).items ≡ or_else (lookup k l) (lookup k s.items)
  unfolding lookup
  lookup-all_loaded [] s k h = refl
  lookup-all_loaded ((j, item) ∷ l) s k h =
      let v : Vector = vector_of (lookup j vectors) in
      lookup-all_loaded l (loaded j v item s) k h.1
      ∙ ground (arith, h.0, lookup-insert j k item s.items, text_eq_iff j k)

  lookup-all_loaded_vectors :
      (l : Dict MemoryItem) (s : Store) (k : Text)
      → IsMap l
      → lookup k (all_loaded l s).vectors ≡ (
          if has_key k l
          then or_else (held (vector_of (lookup k vectors))) (lookup k s.vectors)
          else lookup k s.vectors)
  unfolding lookup
  lookup-all_loaded_vectors [] s k h = refl
  lookup-all_loaded_vectors ((j, item) ∷ l) s k h =
      let v : Vector = vector_of (lookup j vectors) in
      lookup-all_loaded_vectors l (loaded j v item s) k h.1
      ∙ ground (arith, h.0, lookup-put_vector j k v s.vectors, text_eq_iff j k)

==_refl : (n : ℕ) → (n == n) ≡ true
==_refl n = ground arith

or_else-none : {A : Type 0} (o : Option A) → or_else o none ≡ o
or_else-none none = refl
or_else-none (some a) = refl

-- The vectors of a snapshot are never nil.
held-copied :
    (k : Text) (m : Dict Vector)
    → held (vector_of (lookup k (map (λ (j, v). (j, copied v)) m)))
      ≡ lookup k (map (λ (j, v). (j, copied v)) m)
unfolding lookup
held-copied k [] = refl
held-copied k ((j, none) ∷ m) = ground (arith, held-copied k m)
held-copied k ((j, some v) ∷ m) = ground (arith, held-copied k m)

copied_absent :
    (k : Text) (m : Dict Vector)
    → lookup k m ≡ none
    → lookup k (map (λ (j, v). (j, copied v)) m) ≡ none
unfolding lookup
copied_absent k [] h = refl
copied_absent k ((j, v) ∷ m) h = ground (arith, h, copied_absent k m)

vector_at :
    (k : Text) (s : Store) (o : Option MemoryItem)
    → (o ≡ none → lookup k s.vectors ≡ none)
    → (if is_some o then or_else (held (vector_of (lookup k (snapshot_vectors s)))) none else none)
      ≡ lookup k (snapshot_vectors s)
unfolding snapshot_vectors
vector_at k s none h = sym (copied_absent k s.vectors (h refl))
vector_at k s (some item) h = or_else-none _ ∙ held-copied k s.vectors

abbrev pub cleared_store : Store → Store
cleared_store t = record t { items = []; vectors = [] }

module _ (rt : Runtime) (lawful : IsLawful rt) (c : Contract) (s t : Store) (kind : Kind) where
  abbrev entries_in_order : Dict MemoryItem
  entries_in_order = rt.sort exported_before (rt.range s.items)

  import_exported_store :
      All IsEntry entries_in_order
      → import_into_store c (export_from_store rt c s kind) replace t ≡ (
        ok (record empty_report { loaded = 0 + length entries_in_order }),
        all_loaded (snapshot_vectors s) entries_in_order (cleared_store t),
      )
  unfolding import_into_store export_from_store
  import_exported_store h =
      rw (import_into_store, ==_refl c.snapshot_version)
        (import_loop-exported (snapshot_vectors s) entries_in_order empty_report (cleared_store t)
          h)

  -- A snapshot of a well-formed store whose items stand under their own ids, none of them empty,
  -- imported into any store in the replacing mode: the import succeeds, its report counts every
  -- item as loaded, and the store then has exactly the items of the first one, with exactly the
  -- vectors that a snapshot shows of it.
  pub import-export :
      IsWellFormed s
      → All IsEntry s.items
      → let (r, t') = import_into_store c (export_from_store rt c s kind) replace t in
        (r ≡ ok (record empty_report { loaded = length s.items }))
        × ((k : Text) → lookup k t'.items ≡ lookup k s.items)
        × ((k : Text) → lookup k t'.vectors ≡ lookup k (snapshot_vectors s))
  unfolding lookup
  import-export w h =
      let p : Permᴰ entries_in_order s.items =
        Permᴰ.trans (lawful.sort-perm exported_before _) (lawful.range-perm s.items) in
      let same = perm-SameMap (Permᴰ.symm p) w.items_map in
      rw (import_exported_store (All-perm IsEntry (Permᴰ.symm p) h)) (
        ap (λ n. ok (record empty_report { loaded = n })) (omega (arith, length-perm p)),
        λ k.
            lookup-all_loaded (snapshot_vectors s) entries_in_order (cleared_store t) k same.0
            ∙ or_else-none _
            ∙ same.1 k,
        λ k.
            lookup-all_loaded_vectors (snapshot_vectors s) entries_in_order (cleared_store t) k
              same.0
            ∙ vector_at k s (lookup k entries_in_order) (λ e. w.covered k (sym (same.1 k) ∙ e)),
      )
