-- ===== src/ItemHelpers.antt =====
-- memory/memory_item_helpers.go: the constructors of items. The setters and getters of the metadata
-- are the contract module's.
use llm_agent_memory.Common.{
  ◌≡◌, ap, ◌∙◌, Bool, true, false, Option, Text, Dict, Float64, zero_float, one_float, float_lt,
  clamp_unit, clamp_unit_bounds,
}
use llm_agent_memory.Contract.{Value, MemoryItem, zero_item, Category, Source, Contract}

unfoldable pub new_saved_memory : Contract → Text → Category → MemoryItem
new_saved_memory c content cat =
    let it = c.set_pinned (record zero_item { content = content; importance = one_float }) true in
    c.set_category (c.set_source it c.user_saved) cat

-- The two ifs on the confidence are those of `clamp_unit`.
unfoldable pub new_inferred_memory : Contract → Text → Category → Float64 → MemoryItem
new_inferred_memory c content cat confidence =
    let it =
      c.set_pinned (record zero_item { content = content; importance = clamp_unit confidence })
        false in
    c.set_category (c.set_source it c.agent_inferred) cat

-- What the contract module documents of its helpers: a setter changes the metadata only, a getter
-- finds what its setter wrote, and no setter disturbs the getter of another.
pub record HasHelpers (c : Contract) : Type 0 where
  pub set_pinned-metadata :
      (it : MemoryItem) (b : Bool)
      → (m : Option (Dict Value)) × (c.set_pinned it b ≡ record it { metadata = m })
  pub set_source-metadata :
      (it : MemoryItem) (s : Source)
      → (m : Option (Dict Value)) × (c.set_source it s ≡ record it { metadata = m })
  pub set_category-metadata :
      (it : MemoryItem) (s : Category)
      → (m : Option (Dict Value)) × (c.set_category it s ≡ record it { metadata = m })
  pub is_pinned-set_pinned : (it : MemoryItem) (b : Bool) → c.is_pinned (c.set_pinned it b) ≡ b
  pub is_pinned-set_source :
      (it : MemoryItem) (s : Source) → c.is_pinned (c.set_source it s) ≡ c.is_pinned it
  pub is_pinned-set_category :
      (it : MemoryItem) (s : Category) → c.is_pinned (c.set_category it s) ≡ c.is_pinned it
  pub get_source-set_source : (it : MemoryItem) (s : Source) → c.get_source (c.set_source it s) ≡ s
  pub get_source-set_category :
      (it : MemoryItem) (s : Category) → c.get_source (c.set_category it s) ≡ c.get_source it
  pub get_category-set_category :
      (it : MemoryItem) (s : Category) → c.get_category (c.set_category it s) ≡ s

module _ (c : Contract) (h : HasHelpers c) where
  -- The three setters, one after the other.
  abbrev marked : MemoryItem → Bool → Source → Category → MemoryItem
  marked it b s cat = c.set_category (c.set_source (c.set_pinned it b) s) cat

  -- What is read of an item: its content, importance, pinned mark, source and category.
  abbrev pub Reads : MemoryItem → Text → Float64 → Bool → Source → Category → Type 0
  Reads it content importance b s cat =
      (it.content ≡ content)
      × (it.importance ≡ importance)
      × (c.is_pinned it ≡ b)
      × (c.get_source it ≡ s)
      × (c.get_category it ≡ cat)

  marked-Reads :
      (it : MemoryItem) (b : Bool) (s : Source) (cat : Category)
      → Reads (marked it b s cat) it.content it.importance b s cat
  marked-Reads it b s cat =
      let pinned : MemoryItem = c.set_pinned it b in
      let sourced : MemoryItem = c.set_source pinned s in
      let e1 = (h.set_pinned-metadata it b).1 in
      let e2 = (h.set_source-metadata pinned s).1 in
      let e3 = (h.set_category-metadata sourced cat).1 in
      (
        ap (λ i. i.content) e3 ∙ ap (λ i. i.content) e2 ∙ ap (λ i. i.content) e1,
        ap (λ i. i.importance) e3 ∙ ap (λ i. i.importance) e2 ∙ ap (λ i. i.importance) e1,
        h.is_pinned-set_category sourced cat
            ∙ h.is_pinned-set_source pinned s
            ∙ h.is_pinned-set_pinned it b,
        h.get_source-set_category sourced cat ∙ h.get_source-set_source pinned s,
        h.get_category-set_category sourced cat,
      )

  -- A saved memory is pinned, of full importance and from the user; an inferred one is not pinned,
  -- from the agent, and its importance is the confidence brought into the unit interval: no number
  -- below 0 or above 1. Both carry the content and the category given.
  pub new_memory_lem :
      (content : Text) (cat : Category) (confidence : Float64)
      → Reads (new_saved_memory c content cat) content one_float true c.user_saved cat
        × Reads
            (new_inferred_memory c content cat confidence)
            content
            (clamp_unit confidence)
            false
            c.agent_inferred
            cat
        × (float_lt (new_inferred_memory c content cat confidence).importance zero_float ≡ false)
        × (float_lt one_float (new_inferred_memory c content cat confidence).importance ≡ false)
  unfolding new_saved_memory new_inferred_memory
  new_memory_lem content cat confidence =
      let saved = record zero_item { content = content; importance = one_float } in
      let inferred = record zero_item { content = content; importance = clamp_unit confidence } in
      let reads = marked-Reads inferred false c.agent_inferred cat in
      (
        marked-Reads saved true c.user_saved cat,
        reads,
        ap (λ x. float_lt x zero_float) reads.1 ∙ (clamp_unit_bounds confidence).0,
        ap (λ x. float_lt one_float x) reads.1 ∙ (clamp_unit_bounds confidence).1,
      )
