-- ===== src/Engines/Eviction.antt =====
-- The capacity of the working memory.
use mathlib.Core.List.Permᴰ
use llm_agent_memory.Common.{
  ℕ, ◌+◌, ◌≤◌, ◌≡◌, ◌≢◌, refl, ap, sym, ◌∙◌, true, false, none, List, [], ◌∷◌, map, Permᴰ, All,
  All-perm, length, length-perm, pos, leb_ℤ, Bool-cases, Option-cases, inl, inr, arith, Text, Dict,
  lookup, length-insert, length-erase, Runtime, IsLawful, Float64, All-map, All-mono, text_eq_refl,
  ◌<◌, suc, length-map,
}
use llm_agent_memory.Errors.{Error, ok, err, Result-cases}
use llm_agent_memory.Contract.{Time, Vector, MemoryItem, Contract}
use llm_agent_memory.Store.{Store, Embedder, query_embedding, add}
use llm_agent_memory.Store.Branches.{stored, add_embedded, add_refused, remove_found}
use llm_agent_memory.Store.Behaviour.{SameMaps-named}
use llm_agent_memory.Store.Invariant.{IsWellFormed, add-IsWellFormed}
use llm_agent_memory.Engines.Working.{
  WorkingOptions, WorkingMemory, scored, remove_first, evict_if_over_capacity, add_working,
}

module _ (e : Embedder) (stamp : ℕ) (now : Time) (item : MemoryItem) (s : Store) where
  -- At most one item more than before, and none if it fails.
  add-length :
      (id : Text)
      → (add e stamp now item s).0 ≡ ok id
      → length (add e stamp now item s).1.items ≤ length s.items + 1
  add-length id h =
      let new : MemoryItem = stored e stamp now item s in
      let same = (SameMaps-named e stamp now item s).0 in
      elim (Result-cases (query_embedding e 0 new.content)) [
        | inl (vec, found) ↦
            rw (add_embedded e stamp now item s vec found, same)
              (ground (arith, length-insert new.id new s.items))
        | inr (x, failed) ↦ rw (add_refused e stamp now item s x failed, same) (omega arith)
      ]

  add_failed-length :
      (x : Error)
      → (add e stamp now item s).0 ≡ err x
      → length (add e stamp now item s).1.items ≡ length s.items
  add_failed-length x h =
      let new : MemoryItem = stored e stamp now item s in
      let same = (SameMaps-named e stamp now item s).0 in
      elim (Result-cases (query_embedding e 0 new.content)) [
        | inl (vec, found) ↦ cc (h, ap (λ p. p.0) (add_embedded e stamp now item s vec found))
        | inr (y, failed) ↦ rw (add_refused e stamp now item s y failed, same) refl
      ]

module _ {V : Type 0} where
  abbrev IsKnown : Dict V → Text → Type 0
  IsKnown m k = lookup k m ≢ none

  IsKnown-cons : (j : Text) (v : V) (m : Dict V) (k : Text) → IsKnown m k → IsKnown ((j, v) ∷ m) k
  unfolding lookup
  IsKnown-cons j v m k h = ground (arith, h)

  -- Every entry's key is found.
  entries-IsKnown : (m : Dict V) → All (λ (k, _). IsKnown m k) m
  unfolding lookup
  entries-IsKnown [] = tt
  entries-IsKnown ((j, v) ∷ m) = (
    ground (arith, text_eq_refl j),
    All-mono (λ (k, _) h. IsKnown-cons j v m k h) m (entries-IsKnown m),
  )

module _ (rt : Runtime) (c : Contract) (now : Time) where
  remove_first-length :
      (l : List (Text × Float64)) (s : Store)
      → IsWellFormed s
      → All (λ (k, _). IsKnown s.items k) l
      → 0 < length l
      → length (remove_first rt c now l s).items + 1 ≡ length s.items
  remove_first-length [] s w h n = elim n [ ]
  remove_first-length ((id, score) ∷ l) s w h n = elim (Option-cases (lookup id s.items)) [
    | inl missing ↦ absurd (h.0 missing)
    | inr (item, found) ↦ omega (
      arith,
      ap (λ r. length r.1.items) (remove_found id s item found),
      length-erase id item s.items w.items_map found,
    )
  ]

not_zero : (n : ℕ) → leb_ℤ (pos (suc n)) (pos 0) ≡ false
not_zero n = ground arith

within : (m n : ℕ) → leb_ℤ (pos m) (pos n) ≡ true → m ≤ n
within m n h = ground arith

not_within : (m n : ℕ) → leb_ℤ (pos m) (pos n) ≡ false → n < m
not_within m n h = ground arith

module _ (rt : Runtime) (lawful : IsLawful rt) (c : Contract) (now : Time) where
  scored-perm :
      (opts : WorkingOptions) (probe : Text) (qv : Vector) (s : Store)
      → (f : Text × MemoryItem → Text × Float64) × ((x : Text × MemoryItem) → (f x).0 ≡ x.0)
        × Permᴰ (scored rt c now opts probe qv s) (map f s.items)
  unfolding scored
  scored-perm opts probe qv s =
      (_, λ x. refl, Permᴰ.trans (lawful.sort-perm _ _) (Permᴰ.map _ (lawful.range-perm s.items)))

  evict-length :
      (e : Embedder) (opts : WorkingOptions) (probe : Text) (qv : Vector) (size : ℕ) (s : Store)
      → IsWellFormed s
      → opts.capacity ≡ pos (suc size)
      → query_embedding e 1 probe ≡ ok qv
      → length s.items ≤ suc size + 1
      → length (evict_if_over_capacity rt c now e opts probe s).items ≤ suc size
  unfolding evict_if_over_capacity
  evict-length e opts probe qv size s w limit embedded room =
      let l : List (Text × Float64) = scored rt c now opts probe qv s in
      let (f, keeps, p) = scored-perm opts probe qv s in
      let known : All (λ (k, _). IsKnown s.items k) l = All-perm _ (Permᴰ.symm p) (
        All-map _ f s.items (
          All-mono (λ x h q. h (sym (ap (λ k. lookup k s.items) (keeps x)) ∙ q)) s.items
            (entries-IsKnown s.items))) in
      let count : length l ≡ length s.items = length-perm p ∙ length-map f s.items in
      elim (Bool-cases (leb_ℤ (pos (length s.items)) (pos (suc size)))) [
        | inr over ↦
            rw (evict_if_over_capacity, limit, not_zero size, over, embedded)
              (omega (
                arith,
                remove_first-length rt c now l s w known
                    (omega (arith, count, not_within (length s.items) (suc size) over)),
              ))
        | inl under ↦
            rw (evict_if_over_capacity, limit, not_zero size, under)
              (omega (arith, within _ _ under))
      ]

  -- A well-formed working memory that holds no more items than its positive capacity holds no more
  -- than that after an `Add` either, failing or not, provided that the probe with which it picks the
  -- item to drop can be embedded.
  pub add_working-length :
      (e : Embedder) (stamp : ℕ) (item : MemoryItem) (m : WorkingMemory) (size : ℕ) (qv : Vector)
      → IsWellFormed m.store
      → m.opts.capacity ≡ pos (suc size)
      → query_embedding e 1 item.content ≡ ok qv
      → length m.store.items ≤ suc size
      → length (add_working rt c now e stamp item m).1.store.items ≤ suc size
  unfolding add_working
  add_working-length e stamp item m size qv w limit embedded room =
      elim (Result-cases (add e stamp now item m.store).0) [
        | inl (id, h) ↦
            rw (add_working, h)
              (evict-length e m.opts item.content qv size _
                (add-IsWellFormed e stamp now item m.store w) limit embedded
                (omega (arith, add-length e stamp now item m.store id h)))
        | inr (x, h) ↦
            rw (add_working, h) (omega (arith, add_failed-length e stamp now item m.store x h))
      ]
