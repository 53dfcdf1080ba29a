-- ===== src/Lifecycle/Consolidated.antt =====
-- `Consolidate` of memory/consolidator.go over the working memory of memory/engine_working.go and
-- the episodic memory of memory/engine_episodic.go: from the call to what it leaves.
use mathlib.Core.List.Permᴰ
use llm_agent_memory.Common.{
  ◌≡◌, refl, sym, ap, ◌∙◌, ℕ, suc, ◌<◌, ◌≤◌, ◌⊎◌, inl, inr, Bool, true, false, none, some, Option,
  Option-cases, Bool-cases, List, Text, text_eq, text_eq_iff, IsMap, All, All-perm, All-mono,
  All-zip, All-keep_if, keep_if, keep_if-IsTrue, Runtime, IsLawful, length, if◌then◌else◌,
}
use llm_agent_memory.Errors.{Error, ok, err}
use llm_agent_memory.Contract.{working, MemoryItem, Contract, Time, ConsolidateOptions}
use llm_agent_memory.Store.{Embedder, query_embedding}
use llm_agent_memory.Store.Keyed.{
  IsKeyed, values, HasDistinctIds, HasDistinctIds-perm, values-HasDistinctIds,
  keep_if-HasDistinctIds,
}
use llm_agent_memory.Listing.{CursorCodec, candidates, matches_filter}
use llm_agent_memory.Listing.Stores.{candidates-perm}
use llm_agent_memory.Observing.{emit}
use llm_agent_memory.Lifecycle.Paging.{Listed, no_filter, at_kind}
use llm_agent_memory.Lifecycle.Counting.{IsCount}
use llm_agent_memory.Lifecycle.Consolidator.{
  Counted, is_due, promote_loop, consolidate_listed, consolidate,
}
use llm_agent_memory.Lifecycle.Promotion.{promote_loop-IsCount}
use llm_agent_memory.Lifecycle.Marks.{at, left, at-loop, at-loop_other}
use llm_agent_memory.Lifecycle.Succeeds.{promote_loop-succeeds, episodic-adds}
use llm_agent_memory.Lifecycle.TwoTiers.{Both, both, listed, episodic_after, list_all_paged-both}
use llm_agent_memory.Lifecycle.Kept.{values-lookup, All-of_kept, IsCount-err, IsCount-ok}

some_inj : {A : Type 0} {a b : A} → some a ≡ some b → a ≡ b
some_inj h = cc h

module _ (rt : Runtime) (c : Contract) (codec : CursorCodec) (e : Embedder) (stamp : ℕ)
    (t now : Time) (opts : ConsolidateOptions) where
  abbrev enabled : MemoryItem → Bool
  enabled it = matches_filter rt c it no_filter

  abbrev pub item_at : Text → Both → Option MemoryItem
  item_at = at rt c codec e stamp t (episodic_after rt c codec e stamp t) (λ it w. refl)

  abbrev over : List MemoryItem → Both → Counted × Both
  over items w = promote_loop rt (both rt c codec e stamp t) now opts items 0 w

  abbrev kept : Option Error → Counted × Both → Counted × Both
  kept failed r = ((r.0.0, failed), r.1)

  abbrev run : Both → Counted × Both
  run w = over (listed rt c w) w

  abbrev pub due : Both → List MemoryItem
  due w = keep_if (is_due rt now opts) (listed rt c w)

  consolidate_listed-run :
      (out : Listed) (w : Both)
      → at_kind out working ≡ listed rt c w
      → consolidate_listed rt (both rt c codec e stamp t) now opts (ok out, w) ≡ run w
  unfolding consolidate_listed emit
  consolidate_listed-run out w h = elim (Option-cases (run w).0.1) [
    | inl f ↦ rw (consolidate_listed, h, f) (ap (λ l. kept none (over l w)) h)
    | inr (x, f) ↦ rw (consolidate_listed, h, f) (ap (λ l. kept (some x) (over l w)) h)
  ]

  consolidate-run :
      (lawful : IsLawful rt) (fuel : ℕ) (w : Both)
      → length (listed rt c w) ≤ 200
      → length (candidates rt c w.1.store no_filter) ≤ 200
      → consolidate rt (both rt c codec e stamp t) (suc fuel) now opts w ≡ some (run w)
  unfolding consolidate
  consolidate-run lawful fuel w few few' =
      let (out, lists, found) = list_all_paged-both rt c codec e stamp t lawful w few few' fuel in
      ap
        (λ z. elim z [
          | none ↦ none
          | some l ↦ some (consolidate_listed rt (both rt c codec e stamp t) now opts l)
        ])
        lists
      ∙ ap some (consolidate_listed-run out w found)

  -- The item as the consolidation marks it, if it is due.
  abbrev pub marked_if_due : MemoryItem → MemoryItem
  marked_if_due it =
      left rt c codec e stamp t (episodic_after rt c codec e stamp t) (λ it w. refl) now opts it

  -- What a consolidation without an error leaves of an item of the working memory.
  abbrev pub after : MemoryItem → MemoryItem
  after it = if enabled it then marked_if_due it else it

  module _ (lawful : IsLawful rt) (w : Both) (u : IsMap w.0.store.items)
      (k : IsKeyed w.0.store.items) where
    listed-All : (P : MemoryItem → Type 0) → All P (values w.0.store.items) → All P (listed rt c w)
    listed-All P h =
        All-perm P (Permᴰ.symm (candidates-perm rt lawful c w.0.store no_filter))
          (All-keep_if P enabled (values w.0.store.items) h)

    listed-enabled : All (λ it. enabled it ≡ true) (listed rt c w)
    listed-enabled =
        All-perm _ (Permᴰ.symm (candidates-perm rt lawful c w.0.store no_filter))
          (keep_if-IsTrue enabled (values w.0.store.items))

    listed-HasDistinctIds : HasDistinctIds (listed rt c w)
    listed-HasDistinctIds =
        HasDistinctIds-perm (Permᴰ.symm (candidates-perm rt lawful c w.0.store no_filter)) (
          keep_if-HasDistinctIds enabled (values w.0.store.items)
            (values-HasDistinctIds w.0.store.items u k))

    -- An item that is not listed has an id that no listed one has.
    unlisted_id :
        (it x : MemoryItem)
        → enabled it ≡ false
        → item_at it.id w ≡ some it
        → enabled x ≡ true
        → item_at x.id w ≡ some x
        → text_eq x.id it.id ≡ false
    unlisted_id it x off here on there = elim (Bool-cases (text_eq x.id it.id)) [
      | inr other ↦ other
      | inl same ↦
          let met = sym there ∙ ap (λ z. item_at z w) ((text_eq_iff x.id it.id).0 same) ∙ here in
          absurd (cc (sym on ∙ ap enabled (some_inj met) ∙ off))
    ]

    listed-here : All (λ it. item_at it.id w ≡ some it) (listed rt c w)
    listed-here = listed-All _ (values-lookup w.0.store.items u k)

    listed-after :
        (run w).0.1 ≡ none
        → All
            (λ it. enabled it ≡ true → item_at it.id (run w).1 ≡ some (after it))
            (values w.0.store.items)
    listed-after done =
        let loop =
          at-loop rt c codec e stamp t (episodic_after rt c codec e stamp t) (λ it w. refl) now opts
            (listed rt c w) 0 w listed-HasDistinctIds listed-here done in
        All-mono (λ it h on. h on ∙ ap (λ b. some (if b then marked_if_due it else it)) (sym on))
          (values w.0.store.items)
          (All-of_kept _ enabled (values w.0.store.items)
            (All-perm _ (candidates-perm rt lawful c w.0.store no_filter) loop))

    unlisted-after :
        (it : MemoryItem)
        → item_at it.id w ≡ some it
        → enabled it ≡ false
        → item_at it.id (run w).1 ≡ some (after it)
    unlisted-after it here off =
        at-loop_other rt c codec e stamp t (episodic_after rt c codec e stamp t) (λ it w. refl) now
          opts (listed rt c w) 0 w it.id
          (All-mono (λ x h. unlisted_id it x off here h.0 h.1) (listed rt c w)
            (All-zip _ _ (listed rt c w) listed-enabled listed-here))
        ∙ here
        ∙ ap (λ b. some (if b then marked_if_due it else it)) (sym off)

    all-after :
        (run w).0.1 ≡ none
        → All (λ it. item_at it.id (run w).1 ≡ some (after it)) (values w.0.store.items)
    all-after done =
        All-mono
          (λ it h. elim (Bool-cases (enabled it)) [
            | inl on ↦ h.0 on
            | inr off ↦ unlisted-after it h.1 off
          ])
          (values w.0.store.items)
          (All-zip _ _ (values w.0.store.items) (listed-after done)
            (values-lookup w.0.store.items u k))

    module _ (fuel : ℕ) (few : length (listed rt c w) ≤ 200)
        (few' : length (candidates rt c w.1.store no_filter) ≤ 200) where
      abbrev outcome : Option (Counted × Both)
      outcome = consolidate rt (both rt c codec e stamp t) (suc fuel) now opts w

      abbrev Succeeds : Type 0
      Succeeds =
          (w' : Both) × (outcome ≡ some ((length (due w), none), w'))
          × All (λ it. item_at it.id w' ≡ some (after it)) (values w.0.store.items)

      counted : IsCount 0 (due w) (run w).0
      counted = promote_loop-IsCount rt (both rt c codec e stamp t) now opts (listed rt c w) 0 w

      without_error : (run w).0.1 ≡ none → Succeeds
      without_error done = (
        (run w).1,
        consolidate-run lawful fuel w few few'
            ∙ rw (sym (IsCount-ok (due w) (run w).0 done counted))
                (ap (λ f. some (((run w).0.0, f), (run w).1)) done),
        all-after done,
      )

      -- A `Consolidate` of a working memory whose items stand under their own ids, with no more
      -- than 200 enabled items there and no more in the episodic memory, ends after one page. It
      -- returns the number of the enabled items that are due without an error, and of the working
      -- memory's items it has marked exactly these and left the others as they were; or it returns
      -- an error and a smaller number, which happens only if the embedder fails for the content of
      -- an item.
      pub consolidate_lem :
          ((w' : Both) × (consolidate rt (both rt c codec e stamp t) (suc fuel) now opts w
              ≡ some ((length (due w), none), w'))
            × All (λ it. item_at it.id w' ≡ some (after it)) (values w.0.store.items))
          ⊎ ((n : ℕ) × (x : Error) × (w' : Both) × (consolidate rt
                  (both rt c codec e stamp t)
                  (suc fuel)
                  now
                  opts
                  w
                ≡ some ((n, some x), w'))
              × (n < length (due w))
              × (it : MemoryItem) × (y : Error) × (query_embedding e 0 it.content ≡ err y))
      consolidate_lem =
          elim (promote_loop-succeeds rt c codec e stamp t (episodic_after rt c codec e stamp t)
            (λ it w. refl) (λ it. (y : Error) × (query_embedding e 0 it.content ≡ err y))
            (episodic-adds rt c codec e stamp t) now opts (listed rt c w) 0 w listed-HasDistinctIds
            listed-here) [
              | inl done ↦ inl (without_error done)
              | inr (it, (y, refused)) ↦ elim (Option-cases (run w).0.1) [
                | inl done ↦ inl (without_error done)
                | inr (x, failed) ↦ inr (
                  (run w).0.0,
                  x,
                  (run w).1,
                  consolidate-run lawful fuel w few few'
                      ∙ ap (λ f. some (((run w).0.0, f), (run w).1)) failed,
                  IsCount-err (due w) (run w).0 x failed counted,
                  it,
                  y,
                  refused,
                )
              ]
            ]
