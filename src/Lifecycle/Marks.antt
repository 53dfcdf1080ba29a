-- ===== src/Lifecycle/Marks.antt =====
-- What the promotions of memory/consolidator.go leave in a real working memory
-- (memory/engine_working.go). The episodic memory is any memory that stores elsewhere.
use llm_agent_memory.Common.{
  ◌≡◌, refl, sym, ap, ◌∙◌, subst, ℕ, suc, pos, ltb_ℤ, true, false, Option, none, some, List, [],
  ◌∷◌, Text, text_eq, text_eq_refl, lookup, Runtime, All, All-mono, All-zip, text_eq_sym, ◌&&◌,
  Bool-cases, inl, inr, ◌⊎◌, if◌then◌else◌,
}
use llm_agent_memory.Errors.{Error, Result, Result-cases, ok, err, wrapped}
use llm_agent_memory.Contract.{Time, MemoryItem, Contract, ConsolidateOptions}
use llm_agent_memory.Store.{Store, Embedder, updated}
use llm_agent_memory.Store
use llm_agent_memory.Store.Keyed.{HasDistinctIds}
use llm_agent_memory.Store.Behaviour.{update_lem}
use llm_agent_memory.Listing.{CursorCodec}
use llm_agent_memory.Engines.Working.{WorkingMemory}
use llm_agent_memory.Observing.{emit}
use llm_agent_memory.Manager.{
  Manager, Memory, Method, no_tier, dispatch, require_memory, tier_for, memory_of_tier,
  require_local_memory,
}
use llm_agent_memory.Manager
use llm_agent_memory.Manager.Worlds.{memory_beside}
use llm_agent_memory.Tiers.{working_tier}
use llm_agent_memory.Lifecycle.Consolidator.{
  Counted, Consolidator, is_due, promoted_clone, stamp_source, promotion_count, promote,
  promote_loop,
}
use llm_agent_memory.Lifecycle.Promotion.{not_due-count, counted-stamp_source}

some_inj : {A : Type 0} {a b : A} → some a ≡ some b → a ≡ b
some_inj h = cc h

module _ {X : Type 0} (rt : Runtime) (c : Contract) (codec : CursorCodec) (e : Embedder) (stamp : ℕ)
    (t : Time) (other : Memory (WorkingMemory × X))
    (apart : (it : MemoryItem) (w : WorkingMemory × X) → (other.add it w).1.0 ≡ w.0) where
  abbrev pub consolidator : Consolidator (WorkingMemory × X)
  consolidator = record {
    mgr = record {
      opts = record {
        working = record no_tier {
          memory = some (memory_beside (working_tier rt c codec e stamp t));
        };
        episodic = record no_tier { memory = some other };
        semantic = no_tier;
        snapshot_store = none;
      };
    };
    cfg = record { observer = none };
  }

  -- The items of the working memory.
  abbrev pub at : Text → WorkingMemory × X → Option MemoryItem
  at j w = lookup j w.0.store.items

  abbrev updated_store : Time → Text → WorkingMemory × X → Result (Unit {0}) × Store
  updated_store now id w = Store.update e t id (stamp_source rt now) w.0.store

  abbrev added : MemoryItem → WorkingMemory × X → WorkingMemory × X
  added it w = (other.add (promoted_clone it) w).1

  -- A promotion either leaves the working memory as it is, or updates the item.
  promote-cases :
      (now : Time) (it : MemoryItem) (w : WorkingMemory × X)
      → ((x : Error) × ((promote rt consolidator now it w).0 ≡ err x)
          × ((promote rt consolidator now it w).1.0.store ≡ w.0.store))
        ⊎ ((promote rt consolidator now it w).1.0.store ≡ (updated_store now it.id w).1)
  unfolding promote emit Manager.add Manager.update dispatch require_memory tier_for memory_of_tier
      require_local_memory working_tier
  promote-cases now it w = elim (Result-cases (other.add (promoted_clone it) w).0) [
    | inr (x, failed) ↦ inl (
      wrapped x,
      rw (promote, failed) refl,
      rw (promote, failed) (ap (λ m. m.store) (apart (promoted_clone it) w)),
    )
    | inl (id, done) ↦
        let same : (Store.update e t it.id (stamp_source rt now) (added it w).0.store).1
            ≡ (updated_store now it.id w).1 =
          ap (λ m. (Store.update e t it.id (stamp_source rt now) m.store).1)
            (apart (promoted_clone it) w) in
        elim (Result-cases (Store.update e t it.id (stamp_source rt now) (added it w).0.store).0) [
          | inl (u, g) ↦ inr (rw (promote, done, g) same)
          | inr (x, g) ↦ inr (rw (promote, done, g) same)
        ]
  ]

  -- The item as a promotion leaves it.
  abbrev pub marked : Time → MemoryItem → MemoryItem
  marked now it = updated t (stamp_source rt now) it

  -- The other items stay as they are.
  pub at-promote_other :
      (now : Time) (it : MemoryItem) (w : WorkingMemory × X) (j : Text)
      → text_eq it.id j ≡ false
      → at j (promote rt consolidator now it w).1 ≡ at j w
  at-promote_other now it w j other_id = elim (promote-cases now it w) [
    | inl (x, g, same) ↦ ap (λ s. lookup j s.items) same
    | inr done ↦
        ap (λ s. lookup j s.items) done
        ∙ (elim (update_lem e t it.id (stamp_source rt now) w.0.store) [
          | inl (missing, same) ↦ ap (λ r. lookup j r.1.items) same
          | inr (item, found, puts, vectors) ↦ puts j ∙ rw other_id refl
        ])
  ]

  at-promote :
      (now : Time) (it : MemoryItem) (w : WorkingMemory × X)
      → (promote rt consolidator now it w).0 ≡ ok tt
      → at it.id w ≡ some it
      → at it.id (promote rt consolidator now it w).1 ≡ some (marked now it)
  at-promote now it w success here = elim (promote-cases now it w) [
    | inl (x, g, same) ↦ absurd (cc (success, g))
    | inr done ↦
        ap (λ s. lookup it.id s.items) done
        ∙ (elim (update_lem e t it.id (stamp_source rt now) w.0.store) [
          | inl (missing, same) ↦ absurd (cc (missing, here))
          | inr (item, found, puts, vectors) ↦
              puts it.id
              ∙ rw (text_eq_refl it.id)
                  (ap (λ i. some (marked now i)) (some_inj (sym found ∙ here)))
        ])
  ]

  module _ (now : Time) (opts : ConsolidateOptions) where
    abbrev loop : List MemoryItem → ℕ → WorkingMemory × X → Counted × (WorkingMemory × X)
    loop items count w = promote_loop rt consolidator now opts items count w

    abbrev after_one : MemoryItem → WorkingMemory × X → WorkingMemory × X
    after_one it w = (promote rt consolidator now it w).1

    -- The loop in its three cases.
    pub loop-passes :
        (it : MemoryItem) (rest : List MemoryItem) (count : ℕ) (w : WorkingMemory × X)
        → is_due rt now opts it ≡ false
        → loop (it ∷ rest) count w ≡ loop rest count w
    unfolding promote_loop
    loop-passes it rest count w h = rw (promote_loop, h) refl

    loop-stops :
        (it : MemoryItem) (rest : List MemoryItem) (count : ℕ) (w : WorkingMemory × X) (x : Error)
        → is_due rt now opts it ≡ true
        → (promote rt consolidator now it w).0 ≡ err x
        → loop (it ∷ rest) count w ≡ ((count, some x), after_one it w)
    unfolding promote_loop
    loop-stops it rest count w x h g = rw (promote_loop, h, g) refl

    pub loop-goes_on :
        (it : MemoryItem) (rest : List MemoryItem) (count : ℕ) (w : WorkingMemory × X)
        → is_due rt now opts it ≡ true
        → (promote rt consolidator now it w).0 ≡ ok tt
        → loop (it ∷ rest) count w ≡ loop rest (suc count) (after_one it w)
    unfolding promote_loop
    loop-goes_on it rest count w h g = rw (promote_loop, h, g) refl

    pub at-loop_other :
        (items : List MemoryItem) (count : ℕ) (w : WorkingMemory × X) (j : Text)
        → All (λ x. text_eq x.id j ≡ false) items
        → at j (loop items count w).1 ≡ at j w
    unfolding promote_loop
    at-loop_other [] count w j h = refl
    at-loop_other (it ∷ rest) count w j h = elim (Bool-cases (is_due rt now opts it)) [
      | inr passed ↦
          ap (λ r. at j r.1) (loop-passes it rest count w passed) ∙ at-loop_other rest count w j h.1
      | inl due ↦ elim (Result-cases (promote rt consolidator now it w).0) [
        | inr (x, g) ↦
            ap (λ r. at j r.1) (loop-stops it rest count w x due g)
            ∙ at-promote_other now it w j h.0
        | inl (u, g) ↦
            ap (λ r. at j r.1) (loop-goes_on it rest count w due g)
            ∙ at-loop_other rest (suc count) (after_one it w) j h.1
            ∙ at-promote_other now it w j h.0
      ]
    ]

    -- What the loop leaves of a listed item.
    abbrev pub left : MemoryItem → MemoryItem
    left it = if is_due rt now opts it then marked now it else it

    abbrev IsLeft : List MemoryItem → Counted × (WorkingMemory × X) → Type 0
    IsLeft items r = All (λ it. at it.id r.1 ≡ some (left it)) items

    apart_from :
        (it : MemoryItem) (rest : List MemoryItem)
        → All (λ x. text_eq it.id x.id ≡ false) rest
        → All (λ x. text_eq x.id it.id ≡ false) rest
    apart_from it rest d = All-mono (λ x h. text_eq_sym x.id it.id ∙ h) rest d

    pub at-loop :
        (items : List MemoryItem) (count : ℕ) (w : WorkingMemory × X)
        → HasDistinctIds items
        → All (λ it. at it.id w ≡ some it) items
        → (loop items count w).0.1 ≡ none
        → IsLeft items (loop items count w)
    at-loop [] count w d here success = tt
    at-loop (it ∷ rest) count w d here success = elim (Bool-cases (is_due rt now opts it)) [
      | inr passed ↦
          let same = loop-passes it rest count w passed in
          subst (IsLeft (it ∷ rest)) (sym same) (
            at-loop_other rest count w it.id (apart_from it rest d.0)
                ∙ here.0
                ∙ ap (λ b. some (if b then marked now it else it)) (sym passed),
            at-loop rest count w d.1 here.1 (sym (ap (λ r. r.0.1) same) ∙ success),
          )
      | inl due ↦ elim (Result-cases (promote rt consolidator now it w).0) [
        | inr (x, g) ↦
            absurd (cc (sym (ap (λ r. r.0.1) (loop-stops it rest count w x due g)) ∙ success))
        | inl (u, g) ↦
            let w1 : WorkingMemory × X = after_one it w in
            let same = loop-goes_on it rest count w due g in
            let here' : All (λ x. at x.id w1 ≡ some x) rest =
              All-mono (λ x h. at-promote_other now it w x.id h.0 ∙ h.1) rest
                (All-zip _ _ rest d.0 here.1) in
            subst (IsLeft (it ∷ rest)) (sym same) (
              at-loop_other rest (suc count) w1 it.id (apart_from it rest d.0)
                  ∙ at-promote now it w g here.0
                  ∙ ap (λ b. some (if b then marked now it else it)) (sym due),
              at-loop rest (suc count) w1 d.1 here' (sym (ap (λ r. r.0.1) same) ∙ success),
            )
      ]
    ]

    -- The item has its place in the working memory, and if this run promoted it, it is not due
    -- later.
    abbrev pub IsOnce : Time → ConsolidateOptions → WorkingMemory × X → MemoryItem → Type 0
    IsOnce later opts' w it =
        (new : MemoryItem) × (at it.id w ≡ some new)
        × ((is_due rt now opts it && is_due rt later opts' new) ≡ false)

    not_due-marked :
        (later : Time) (opts' : ConsolidateOptions) (it : MemoryItem)
        → ltb_ℤ (promotion_count rt it) (pos 0) ≡ false
        → is_due rt now opts it ≡ true
        → is_due rt later opts' (marked now it) ≡ false
    unfolding updated promotion_count
    not_due-marked later opts' it n h =
        not_due-count rt later opts' (marked now it) (counted-stamp_source rt now opts it n h)

    pub left-IsOnce :
        (later : Time) (opts' : ConsolidateOptions) (it : MemoryItem)
        → ltb_ℤ (promotion_count rt it) (pos 0) ≡ false
        → (is_due rt now opts it && is_due rt later opts' (left it)) ≡ false
    left-IsOnce later opts' it n = elim (Bool-cases (is_due rt now opts it)) [
      | inl due ↦ rw due (not_due-marked later opts' it n due)
      | inr passed ↦ rw passed refl
    ]

    -- Promote once, as the working memory shows it: after a run over listed items that stand in the
    -- memory under distinct ids, with no negative count, that returns no error, every one of them
    -- still stands under its id, and one that the run promoted is not due from then on, at any time
    -- and under any options. (The episodic memory is any memory whose `Add` leaves the working
    -- memory alone; there is no observer.)
    pub promote_loop-IsOnce :
        (items : List MemoryItem) (count : ℕ) (w : WorkingMemory × X) (later : Time)
        (opts' : ConsolidateOptions)
        → HasDistinctIds items
        → All (λ it. at it.id w ≡ some it) items
        → All (λ it. ltb_ℤ (promotion_count rt it) (pos 0) ≡ false) items
        → (promote_loop rt consolidator now opts items count w).0.1 ≡ none
        → All (IsOnce later opts' (promote_loop rt consolidator now opts items count w).1) items
    promote_loop-IsOnce items count w later opts' d here n success =
        All-mono (λ it h. (left it, h.0, left-IsOnce later opts' it h.1)) items
          (All-zip _ _ items (at-loop items count w d here success) n)
