-- ===== src/Lifecycle/Succeeds.antt =====
-- The promotions of memory/consolidator.go into a memory whose `Add` succeeds.
use llm_agent_memory.Common.{
  ◌≡◌, refl, sym, ap, subst, ◌∙◌, ℕ, suc, Option, none, some, List, [], ◌∷◌, Text, text_eq, lookup,
  Runtime, All, All-mono, All-zip, Bool-cases, inl, inr, ◌⊎◌,
}
use llm_agent_memory.Errors.{Error, ok, err}
use llm_agent_memory.Contract.{Time, MemoryItem, Contract, ConsolidateOptions}
use llm_agent_memory.Store.{Store, Embedder, query_embedding, updated, stamped, assign_id}
use llm_agent_memory.Store
use llm_agent_memory.Store.Keyed.{HasDistinctIds}
use llm_agent_memory.Store.Behaviour.{update_lem, add_lem}
use llm_agent_memory.Listing.{CursorCodec}
use llm_agent_memory.Engines.Working.{WorkingMemory}
use llm_agent_memory.Observing.{emit}
use llm_agent_memory.Manager.{
  Memory, dispatch, require_memory, tier_for, memory_of_tier, require_local_memory,
}
use llm_agent_memory.Manager
use llm_agent_memory.Tiers.{working_tier, episodic_tier}
use llm_agent_memory.Lifecycle.Consolidator.{
  is_due, promoted_clone, stamp_source, promote, promote_loop,
}
use llm_agent_memory.Lifecycle.TwoTiers.{Both, episodic_after}
use llm_agent_memory.Lifecycle.Marks.{consolidator, at, at-promote_other, loop-passes, loop-goes_on}

-- An update that leaves the content alone succeeds wherever the id is known.
update-stamp_source :
    (rt : Runtime) (e : Embedder) (t now : Time) (id : Text) (item : MemoryItem) (s : Store)
    → lookup id s.items ≡ some item
    → (Store.update e t id (stamp_source rt now) s).0 ≡ ok tt
unfolding updated stamp_source
update-stamp_source rt e t now id item s known = elim (update_lem e t id (stamp_source rt now) s) [
  | inl (missing, same) ↦ absurd (cc (missing, known))
  | inr (old, found, puts, inl (same, done, vectors)) ↦ done
  | inr (old, found, puts, inr (inl r)) ↦ absurd (r.0 refl)
  | inr (old, found, puts, inr (inr r)) ↦ absurd (r.0 refl)
]

module _ {X : Type 0} (rt : Runtime) (c : Contract) (codec : CursorCodec) (e : Embedder) (stamp : ℕ)
    (t : Time) (other : Memory (WorkingMemory × X))
    (apart : (it : MemoryItem) (w : WorkingMemory × X) → (other.add it w).1.0 ≡ w.0)
    (Refused : MemoryItem → Type 0)
    (adds : (it : MemoryItem) (w : WorkingMemory × X)
      → ((id : Text) × ((other.add (promoted_clone it) w).0 ≡ ok id)) ⊎ Refused it)
    (now : Time) where
  abbrev Ends : Option Error → Type 0
  Ends failed = (failed ≡ none) ⊎ ((it : MemoryItem) × Refused it)

  promote-succeeds :
      (it : MemoryItem) (w : WorkingMemory × X)
      → at rt c codec e stamp t other apart it.id w ≡ some it
      → ((promote rt (consolidator rt c codec e stamp t other apart) now it w).0 ≡ ok tt)
        ⊎ Refused it
  unfolding promote emit Manager.add Manager.update dispatch require_memory tier_for memory_of_tier
      require_local_memory working_tier
  promote-succeeds it w here = elim (adds it w) [
    | inr refused ↦ inr refused
    | inl (id, done) ↦
        let kept = ap (λ m. lookup it.id m.store.items) (apart (promoted_clone it) w) ∙ here in
        let stamped =
          update-stamp_source rt e t now it.id it (other.add (promoted_clone it) w).1.0.store
            kept in
        inl (rw (promote, done, stamped) refl)
  ]

  -- The loop over items that stand in the working memory ends without an error, unless an item is
  -- refused.
  pub promote_loop-succeeds :
      (opts : ConsolidateOptions) (items : List MemoryItem) (count : ℕ) (w : WorkingMemory × X)
      → HasDistinctIds items
      → All (λ it. at rt c codec e stamp t other apart it.id w ≡ some it) items
      → ((promote_loop rt
            (consolidator rt c codec e stamp t other apart)
            now
            opts
            items
            count
            w).0.1
          ≡ none)
        ⊎ ((it : MemoryItem) × Refused it)
  unfolding promote_loop
  promote_loop-succeeds opts [] count w d here = inl refl
  promote_loop-succeeds opts (it ∷ rest) count w d here =
      elim (Bool-cases (is_due rt now opts it)) [
        | inr passed ↦
            let same =
              loop-passes rt c codec e stamp t other apart now opts it rest count w passed in
            subst Ends (sym (ap (λ r. r.0.1) same))
              (promote_loop-succeeds opts rest count w d.1 here.1)
        | inl due ↦ elim (promote-succeeds it w here.0) [
          | inr refused ↦ inr (it, refused)
          | inl done ↦
              let stay =
                All-mono
                  (λ x h. at-promote_other rt c codec e stamp t other apart now it w x.id h.0 ∙ h.1)
                  rest (All-zip _ _ rest d.0 here.1) in
              let same =
                loop-goes_on rt c codec e stamp t other apart now opts it rest count w due done in
              subst Ends (sym (ap (λ r. r.0.1) same))
                (promote_loop-succeeds opts rest (suc count) _ d.1 stay)
        ]
      ]

-- The episodic memory refuses an item only if its content cannot be embedded.
pub episodic-adds :
    (rt : Runtime) (c : Contract) (codec : CursorCodec) (e : Embedder) (stamp : ℕ) (t : Time)
    (it : MemoryItem) (w : Both)
    → ((id : Text) × (((episodic_after rt c codec e stamp t).add (promoted_clone it) w).0 ≡ ok id))
      ⊎ ((x : Error) × (query_embedding e 0 it.content ≡ err x))
unfolding episodic_tier promoted_clone stamped assign_id text_eq
episodic-adds rt c codec e stamp t it w = elim (add_lem e stamp t (promoted_clone it) w.1.store) [
  | inl (vec, found, stores) ↦ inl (_, stores.0)
  | inr (x, failed, r, rest) ↦ inr (x, failed)
]
