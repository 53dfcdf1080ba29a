-- ===== src/Lifecycle/TwoTiers.antt =====
-- The listing of memory/consolidator.go over a manager with the working memory and the episodic
-- memory (memory/engine_working.go, memory/engine_episodic.go), each of which fits one page.
use mathlib.Core.List.Permᴰ
use llm_agent_memory.Common.{
  ◌≡◌, refl, sym, ap, ◌∙◌, subst, ℕ, suc, ◌≤◌, ◌⊎◌, inl, inr, pos, none, some, Option, List, [],
  ◌∷◌, Text, text_eq, All, All-perm, Permᴰ, Runtime, IsLawful, length, length-perm, arith,
}
use llm_agent_memory.Errors.{Result, ok}
use llm_agent_memory.Contract.{
  working, episodic, Kind, MemoryItem, ListPage, Contract, Time, kind_eq,
}
use llm_agent_memory.Store.{Embedder}
use llm_agent_memory.Listing.{CursorCodec, candidates}
use llm_agent_memory.Listing.OnePage.{list_from_store-fits}
use llm_agent_memory.Engines.Working.{WorkingMemory}
use llm_agent_memory.Engines.Episodic.{EpisodicMemory}
use llm_agent_memory.Manager.{Memory, tier_for}
use llm_agent_memory.Manager.FanOut.{KindMap, lookup_kind, list_all, fan_out, lister_at}
use llm_agent_memory.Manager.Kinds.{IsKindMap, SameKinds-perm}
use llm_agent_memory.Manager.Worlds.{memory_after}
use llm_agent_memory.Tiers.{working_tier, episodic_tier}
use llm_agent_memory.Lifecycle.Paging.{
  Listed, no_filter, append_at, collect_items, next_cursors, at_kind, after_pages, after_cursors,
  paging_loop, list_all_paged,
}
use llm_agent_memory.Lifecycle.Consolidator.{Consolidator}
use llm_agent_memory.Lifecycle.Marks.{consolidator}

-- A map of two kinds is visited in one order or the other.
module _ {A : Type 0} (a b : A) where
  abbrev first : Kind × A
  first = (working, a)

  abbrev second : Kind × A
  second = (episodic, b)

  twice :
      (p x y : Kind × A)
      → x ≡ p
      → y ≡ p
      → lookup_kind x.0 (y ∷ []) ≡ none
      → lookup_kind p.0 (p ∷ []) ≡ none
  twice p x y ex ey h =
      subst (λ z. lookup_kind z.0 (p ∷ []) ≡ none) ex
        (subst (λ z. lookup_kind x.0 (z ∷ []) ≡ none) ey h)

  two_of :
      (m : KindMap A)
      → length m ≡ 2
      → All (λ x. (x ≡ first) ⊎ (x ≡ second)) m
      → IsKindMap m
      → (m ≡ first ∷ second ∷ []) ⊎ (m ≡ second ∷ first ∷ [])
  unfolding lookup_kind kind_eq
  two_of [] n h d = absurd (omega (arith, n))
  two_of (x ∷ []) n h d = absurd (omega (arith, n))
  two_of (x ∷ y ∷ z ∷ m) n h d = absurd (omega (arith, n))
  two_of (x ∷ y ∷ []) n (hx, (hy, _)) d = elim hx [
    | inl ex ↦ elim hy [
      | inl ey ↦ absurd (cc (twice first x y ex ey d.0))
      | inr ey ↦ inl (ap (λ z. z ∷ y ∷ []) ex ∙ ap (λ z. first ∷ z ∷ []) ey)
    ]
    | inr ex ↦ elim hy [
      | inl ey ↦ inr (ap (λ z. z ∷ y ∷ []) ex ∙ ap (λ z. second ∷ z ∷ []) ey)
      | inr ey ↦ absurd (cc (twice second x y ex ey d.0))
    ]
  ]

  pair-perm :
      (m : KindMap A)
      → Permᴰ m (first ∷ second ∷ [])
      → (m ≡ first ∷ second ∷ []) ⊎ (m ≡ second ∷ first ∷ [])
  unfolding lookup_kind kind_eq
  pair-perm m p =
      two_of m (length-perm p) (All-perm _ (Permᴰ.symm p) (inl refl, (inr refl, tt)))
        (SameKinds-perm (Permᴰ.symm p) (refl, (refl, tt))).0

abbrev whole_page : List MemoryItem → ListPage
whole_page items = record { items = items; next_cursor = [] }

-- Two pages without a next cursor end the loop, in either order.
module _ {W : Type 0} (rt : Runtime) (more : Listed → KindMap Text → W → Option (Result Listed × W))
    (xs ys : List MemoryItem) (w : W) where
  abbrev Ends : KindMap ListPage → Type 0
  Ends pages =
      (out : Listed) × (after_cursors rt more (collect_items pages []) (next_cursors pages) w
        ≡ some (ok out, w))
      × (at_kind out working ≡ xs)

  pages-Ends :
      (pages : KindMap ListPage)
      → Permᴰ pages ((working, whole_page xs) ∷ (episodic, whole_page ys) ∷ [])
      → Ends pages
  unfolding collect_items next_cursors append_at lookup_kind kind_eq text_eq
  pages-Ends pages p = elim (pair-perm (whole_page xs) (whole_page ys) pages p) [
    | inl e ↦ subst Ends (sym e) ((working, xs) ∷ (episodic, ys) ∷ [], refl, refl)
    | inr e ↦ subst Ends (sym e) ((episodic, ys) ∷ (working, xs) ∷ [], refl, refl)
  ]

abbrev pub Both : Type 0
Both = WorkingMemory × EpisodicMemory

-- The enabled items of the working memory, as they are listed.
abbrev pub listed : Runtime → Contract → Both → List MemoryItem
listed rt c w = candidates rt c w.0.store no_filter

module _ (rt : Runtime) (c : Contract) (codec : CursorCodec) (e : Embedder) (stamp : ℕ)
    (t : Time) where
  abbrev pub episodic_after : Memory Both
  episodic_after = memory_after (episodic_tier rt c codec e stamp t)

  -- The consolidator over the two memories, without an observer.
  abbrev pub both : Consolidator Both
  both = consolidator rt c codec e stamp t episodic_after (λ it w. refl)

  module _ (lawful : IsLawful rt) (w : Both) (few : length (listed rt c w) ≤ 200)
      (few' : length (candidates rt c w.1.store no_filter) ≤ 200) where
    list_all-both : list_all both.mgr no_filter (pos 200) [] w ≡ (
      (
        (working, record { items = listed rt c w; next_cursor = [] })
            ∷ (episodic, record { items = candidates rt c w.1.store no_filter; next_cursor = [] })
            ∷ [],
        none,
      ),
      w,
    )
    unfolding list_all fan_out lister_at tier_for lookup_kind working_tier episodic_tier
    list_all-both =
        rw
          (
            list_all,
            fan_out,
            lister_at,
            list_from_store-fits rt c codec w.0.store no_filter 199 few (omega arith),
            list_from_store-fits rt c codec w.1.store no_filter 199 few' (omega arith),
          )
          refl

    pub list_all_paged-both :
        (fuel : ℕ)
        → (out : Listed) × (list_all_paged rt (suc fuel) both.mgr (pos 200) w ≡ some (ok out, w))
          × (at_kind out working ≡ listed rt c w)
    unfolding list_all_paged paging_loop
    list_all_paged-both fuel =
        let more = paging_loop rt (list_all both.mgr no_filter (pos 200)) fuel in
        let (out, ends, found) =
          pages-Ends rt more (listed rt c w) (candidates rt c w.1.store no_filter) w _
            (lawful.range-perm _) in
        (out, ap (after_pages rt more []) list_all-both ∙ ends, found)
