-- ===== src/Lifecycle/Promotion.antt =====
-- What memory/consolidator.go promotes: which items, how many, and each at most once.
use llm_agent_memory.Common.{
  ℕ, ◌≡◌, refl, ℤ, pos, ltb_ℤ, leb_ℤ, Bool, true, false, Option, none, some, List, [], ◌∷◌, map,
  arith, negsuc, Text, text_eq, lookup, insert, lookup-insert, lookup-insert_self, Dict, Runtime,
  keep_if, All, Bool-cases, inl, inr, if◌then◌else◌,
}
use llm_agent_memory.Contract.{Time, Value, time, MemoryItem, ConsolidateOptions}
use llm_agent_memory.Scopes.{meta_value, entries}
use llm_agent_memory.Lifecycle.Counting.{run_each, after_step-ext, IsCount, run_each-IsCount}
use llm_agent_memory.Lifecycle.Consolidator.{
  Consolidator, consolidated_at_key, promotion_count_key, promotion_count, incremented, is_due,
  stamp_source, promote, promote_loop,
}

entries_lem : (k : Text) (o : Option (Dict Value)) → lookup k (entries o) ≡ meta_value k o
unfolding lookup
entries_lem k none = refl
entries_lem k (some m) = refl

keys_differ : text_eq consolidated_at_key promotion_count_key ≡ false
unfolding text_eq
keys_differ = refl

-- What the update of a source leaves and writes, by lookups.
dated-lookup :
    (now : Time) (it : MemoryItem)
    → lookup promotion_count_key (insert consolidated_at_key (time now) (entries it.metadata))
      ≡ meta_value promotion_count_key it.metadata
dated-lookup now it = cc (
  lookup-insert consolidated_at_key promotion_count_key (time now) (entries it.metadata),
  keys_differ,
  entries_lem promotion_count_key it.metadata,
)

count-stamp_source :
    (rt : Runtime) (now : Time) (it : MemoryItem)
    → promotion_count rt (stamp_source rt now it) ≡ incremented (promotion_count rt it)
unfolding promotion_count stamp_source
count-stamp_source rt now it = rw (lookup-insert_self, dated-lookup now it) refl

last_test :
    (a b c : Bool)
    → (if a then false else if b then false else if c then false else true) ≡ true
    → c ≡ false
last_test a b false h = refl
last_test false false true h = cc h
last_test false true true h = cc h
last_test true b true h = cc h

last_test_fails :
    (a b : Bool) → (if a then false else if b then false else if true then false else true) ≡ false
last_test_fails false false = refl
last_test_fails false true = refl
last_test_fails true b = refl

is_due-count :
    (rt : Runtime) (now : Time) (opts : ConsolidateOptions) (it : MemoryItem)
    → is_due rt now opts it ≡ true
    → leb_ℤ (pos 1) (promotion_count rt it) ≡ false
unfolding is_due
is_due-count rt now opts it h = last_test _ _ _ h

pub not_due-count :
    (rt : Runtime) (now : Time) (opts : ConsolidateOptions) (it : MemoryItem)
    → leb_ℤ (pos 1) (promotion_count rt it) ≡ true
    → is_due rt now opts it ≡ false
unfolding is_due
not_due-count rt now opts it h = rw (is_due, h) (last_test_fails _ _)

one_more :
    (z : ℤ)
    → ltb_ℤ z (pos 0) ≡ false
    → leb_ℤ (pos 1) z ≡ false
    → leb_ℤ (pos 1) (incremented z) ≡ true
unfolding incremented
one_more (pos n) h k = ground arith
one_more (negsuc n) h k = ground arith

pub counted-stamp_source :
    (rt : Runtime) (now : Time) (opts : ConsolidateOptions) (it : MemoryItem)
    → ltb_ℤ (promotion_count rt it) (pos 0) ≡ false
    → is_due rt now opts it ≡ true
    → leb_ℤ (pos 1) (promotion_count rt (stamp_source rt now it)) ≡ true
counted-stamp_source rt now opts it n h =
    rw (count-stamp_source rt now it)
      (one_more (promotion_count rt it) n (is_due-count rt now opts it h))

-- An item that has been promoted and whose count was not negative is never due again: not at any
-- later time, and under no options.
is_due-stamp_source :
    (rt : Runtime) (now later : Time) (opts opts' : ConsolidateOptions) (it : MemoryItem)
    → ltb_ℤ (promotion_count rt it) (pos 0) ≡ false
    → is_due rt now opts it ≡ true
    → is_due rt later opts' (stamp_source rt now it) ≡ false
is_due-stamp_source rt now later opts opts' it n h =
    not_due-count rt later opts' (stamp_source rt now it) (counted-stamp_source rt now opts it n h)

module _ {W : Type 0} (rt : Runtime) (con : Consolidator W) (now : Time) where
  -- The loop over the working items is the promotion, one after the other in the order of the
  -- listing and until the first error, of just the items that are due; the others are passed over.
  pub promote_loop-run_each :
      (opts : ConsolidateOptions) (items : List MemoryItem) (count : ℕ) (w : W)
      → promote_loop rt con now opts items count w
        ≡ run_each (promote rt con now) (keep_if (is_due rt now opts) items) count w
  unfolding promote_loop
  promote_loop-run_each opts [] count w = refl
  promote_loop-run_each opts (it ∷ rest) count w = elim (Bool-cases (is_due rt now opts it)) [
    | inl due ↦
        let ih = promote_loop-run_each opts rest in
        rw (promote_loop, due)
          (after_step-ext (promote rt con now) count (promote_loop rt con now opts rest) _
            (promote rt con now it w) ih)
    | inr not_due ↦ rw (promote_loop, not_due) (promote_loop-run_each opts rest count w)
  ]

  -- The number that the loop returns: without an error it has grown by the number of items that are
  -- due, with one by fewer, and it is never below the count it began with.
  pub promote_loop-IsCount :
      (opts : ConsolidateOptions) (items : List MemoryItem) (count : ℕ) (w : W)
      → IsCount count
          (keep_if (is_due rt now opts) items)
          (promote_loop rt con now opts items count w).0
  promote_loop-IsCount opts items count w =
      rw (promote_loop-run_each opts items count w)
        (run_each-IsCount (promote rt con now) (keep_if (is_due rt now opts) items) count w)

  -- A consolidation over the items that an earlier one promoted, as that one stamped them, promotes
  -- none and changes nothing, at any later time and under any options, if no count was negative at
  -- first.
  pub promote_loop-stamp_source :
      (later : Time) (opts opts' : ConsolidateOptions) (items : List MemoryItem) (count : ℕ) (w : W)
      → All (λ it. ltb_ℤ (promotion_count rt it) (pos 0) ≡ false) items
      → promote_loop rt con later opts'
          (map (stamp_source rt now) (keep_if (is_due rt now opts) items))
          count
          w
        ≡ ((count, none), w)
  unfolding promote_loop
  promote_loop-stamp_source later opts opts' [] count w h = refl
  promote_loop-stamp_source later opts opts' (it ∷ rest) count w h =
      let ih = promote_loop-stamp_source later opts opts' rest count w h.1 in
      elim (Bool-cases (is_due rt now opts it)) [
        | inl due ↦
            rw (due, promote_loop, is_due-stamp_source rt now later opts opts' it h.0 due) ih
        | inr not_due ↦ rw not_due ih
      ]
