-- ===== src/Tests/Items.antt =====
-- The constructors of items, with helpers that keep the marks in the metadata.
use llm_agent_memory.Common.{
  ◌≡◌, refl, ap, ◌∙◌, Bool, true, false, Option, some, [], Text, codes, lookup, insert,
  lookup-insert, lookup-insert_self, text_eq, clamp_unit, float_lt, zero_float, one_float,
}
use llm_agent_memory.Contract.{Value, text, boolean, MemoryItem, Contract}
use llm_agent_memory.Scopes.{entries}
use llm_agent_memory.ItemHelpers.{
  new_saved_memory, new_inferred_memory, HasHelpers, Reads, new_memory_lem,
}
use llm_agent_memory.Tests.Fixtures.{contract}

abbrev marked_at : Text → Value → MemoryItem → MemoryItem
marked_at k v it = record it { metadata = some (insert k v (entries it.metadata)) }

abbrev read_at : Text → MemoryItem → Option Value
read_at k it = lookup k (entries it.metadata)

abbrev truth : Option Value → Bool
truth (some (boolean b)) = b
truth _ = false

abbrev text_of : Option Value → Text
text_of (some (text s)) = s
text_of _ = []

abbrev marking : Contract
marking = record contract {
  is_pinned = λ it. truth (read_at (codes "p") it);
  get_source = λ it. text_of (read_at (codes "s") it);
  get_category = λ it. text_of (read_at (codes "c") it);
  set_pinned = λ it b. marked_at (codes "p") (boolean b) it;
  set_source = λ it s. marked_at (codes "s") (text s) it;
  set_category = λ it s. marked_at (codes "c") (text s) it;
}

read_self : (k : Text) (v : Value) (it : MemoryItem) → read_at k (marked_at k v it) ≡ some v
read_self k v it = lookup-insert_self k v (entries it.metadata)

read_other :
    (k j : Text) (v : Value) (it : MemoryItem)
    → text_eq k j ≡ false
    → read_at j (marked_at k v it) ≡ read_at j it
read_other k j v it h = lookup-insert k j v (entries it.metadata) ∙ rw h refl

marking-HasHelpers : HasHelpers marking
unfolding text_eq
marking-HasHelpers = record {
  set_pinned-metadata = λ it b. (_, refl);
  set_source-metadata = λ it s. (_, refl);
  set_category-metadata = λ it s. (_, refl);
  is_pinned-set_pinned = λ it b. ap truth (read_self (codes "p") (boolean b) it);
  is_pinned-set_source = λ it s. ap truth (read_other (codes "s") (codes "p") (text s) it refl);
  is_pinned-set_category = λ it s. ap truth (read_other (codes "c") (codes "p") (text s) it refl);
  get_source-set_source = λ it s. ap text_of (read_self (codes "s") (text s) it);
  get_source-set_category =
      λ it s. ap text_of (read_other (codes "c") (codes "s") (text s) it refl);
  get_category-set_category = λ it s. ap text_of (read_self (codes "c") (text s) it);
}

-- A confidence of infinity.
new_memory_lem_example :
    Reads marking marking-HasHelpers
      (new_saved_memory marking (codes "x") (codes "fact"))
      (codes "x")
      one_float
      true
      (codes "user")
      (codes "fact")
    × Reads marking marking-HasHelpers
        (new_inferred_memory marking (codes "x") (codes "fact") 0x7ff0000000000000)
        (codes "x")
        (clamp_unit 0x7ff0000000000000)
        false
        (codes "agent")
        (codes "fact")
    × (float_lt
          (new_inferred_memory marking (codes "x") (codes "fact") 0x7ff0000000000000).importance
          zero_float
        ≡ false)
    × (float_lt one_float
          (new_inferred_memory marking (codes "x") (codes "fact") 0x7ff0000000000000).importance
        ≡ false)
new_memory_lem_example =
    new_memory_lem marking marking-HasHelpers (codes "x") (codes "fact") 0x7ff0000000000000
