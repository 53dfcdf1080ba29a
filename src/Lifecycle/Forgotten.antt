-- ===== src/Lifecycle/Forgotten.antt =====
-- What `ForgetScoped` of memory/scoped_lifecycle.go leaves of a working memory.
use llm_agent_memory.Common.{
  any_by-perm, ◌≡◌, refl, sym, ap, ◌∙◌, ℕ, ◌+◌, ◌<◌, ◌≤◌, pos, leb_ℤ, Bool, true, false, not, ◌&&◌,
  ◌||◌, Option, none, some, List, [], ◌∷◌, Text, text_eq, text_eq_iff, lookup, lookup-erase, IsMap,
  Permᴰ, Runtime, IsLawful, length, All, keep_if, any_by, if◌then◌else◌, inl, inr, Bool-cases,
  Option-cases,
}
use llm_agent_memory.Errors.{Result-cases}
use llm_agent_memory.Contract.{
  MemoryItem, Contract, Kind, kind_eq, working, Time, Scope, ForgetOptions, ForgetStrategy,
  by_importance, by_age, by_capacity,
}
use llm_agent_memory.Store.{Store, Embedder}
use llm_agent_memory.Store
use llm_agent_memory.Engines.Working.{WorkingMemory}
use llm_agent_memory.Manager.{
  remove, dispatch, require_memory, tier_for, memory_of_tier, require_local_memory,
}
use llm_agent_memory.Observing.{emit}
use llm_agent_memory.Manager.FanOut.{lookup_kind}
use llm_agent_memory.Lifecycle.Consolidator.{Counted}
use llm_agent_memory.Tiers.{working_tier}
use llm_agent_memory.Listing.{CursorCodec, IsFaithful, matches_filter, candidates, max_int}
use llm_agent_memory.Listing.Complete.{IsEncodable}
use llm_agent_memory.Listing.Stores.{matching}
use llm_agent_memory.Store.Keyed.{IsKeyed, values}
use llm_agent_memory.Lifecycle.Forgetting.{
  ForgetPair, ScopedLifecycleManager, unpinned_pairs, remove_one, remove_pairs, remove_by,
  forget_scoped, forget_listed, forget_candidates, is_unimportant, is_old, forgotten,
}
use llm_agent_memory.Lifecycle.Victims.{remove_by-remove_pairs}
use llm_agent_memory.Lifecycle.WorkingAlone.{working_alone, scoped_filter, list_all_scoped-alone}
use llm_agent_memory.Lifecycle.Names.{
  names, passes, any_by-keep_if, any_by-unpinned_pairs, any_by-values, any_by-ext, regroup,
}

some_inj : {A : Type 0} {a b : A} → some a ≡ some b → a ≡ b
some_inj h = cc h

-- The test by which a strategy without a capacity forgets.
abbrev pub forgets_by : Time → ForgetOptions → ForgetStrategy → Option (MemoryItem → Bool)
forgets_by now opts by_importance = some (is_unimportant opts.threshold)
forgets_by now opts by_age =
    if leb_ℤ opts.max_age (pos 0) then none else some (is_old now opts.max_age)
forgets_by now opts by_capacity = none
forgets_by now opts (ForgetStrategy.unlisted t) = none

forget_candidates-by :
    {W : Type 0} (rt : Runtime) (c : Contract) (s : ScopedLifecycleManager W) (now : Time)
    (kind : Kind) (opts : ForgetOptions) (strategy : ForgetStrategy) (test : MemoryItem → Bool)
    (items : List MemoryItem) (w : W)
    → forgets_by now opts strategy ≡ some test
    → forget_candidates rt c s now kind opts strategy items w
      ≡ forgotten rt c s kind (remove_by rt c s kind test items (0, w))
unfolding forget_candidates
forget_candidates-by rt c s now kind opts by_importance test items w h =
    ap (λ t. forgotten rt c s kind (remove_by rt c s kind t items (0, w))) (some_inj h)
forget_candidates-by rt c s now kind opts by_age test items w h =
    elim (Bool-cases (leb_ℤ opts.max_age (pos 0))) [
      | inl unset ↦ absurd (cc (rw unset at h))
      | inr given ↦
          rw (forget_candidates, given)
            (ap (λ t. forgotten rt c s kind (remove_by rt c s kind t items (0, w)))
              (some_inj (rw given at h)))
    ]
forget_candidates-by rt c s now kind opts by_capacity test items w h = absurd (cc h)
forget_candidates-by rt c s now kind opts (ForgetStrategy.unlisted t) test items w h = absurd (cc h)

both :
    (a b : Bool) (o : Option MemoryItem)
    → (if b then none else (if a then none else o)) ≡ (if a || b then none else o)
both true true o = refl
both true false o = refl
both false b o = refl

module _ (rt : Runtime) (lawful : IsLawful rt) (c : Contract) (codec : CursorCodec)
    (faithful : IsFaithful codec) (e : Embedder) (stamp : ℕ) (now : Time) where
  -- The lifecycle manager over the working memory alone, without an observer.
  abbrev pub alone : ScopedLifecycleManager WorkingMemory
  alone = record {
    sm = record { inner = working_alone rt lawful c codec faithful e stamp now };
    cfg = record { observer = none };
  }

  lookup-remove :
      (id j : Text) (s : Store)
      → lookup j (Store.remove id s).1.items ≡ (if text_eq id j then none else lookup j s.items)
  unfolding Store.remove
  lookup-remove id j s = elim (Option-cases (lookup id s.items)) [
    | inr (it, found) ↦ rw (Store.remove, found) (lookup-erase id j s.items)
    | inl missing ↦
        rw (Store.remove, missing)
          (elim (Bool-cases (text_eq id j)) [
            | inl same ↦
                rw same (ap (λ z. lookup z s.items) (sym ((text_eq_iff id j).0 same)) ∙ missing)
            | inr other ↦ rw other refl
          ])
  ]

  lookup-remove_one :
      (id j : Text) (n : ℕ) (w : WorkingMemory)
      → lookup j (remove_one rt c alone working id (n, w)).1.store.items
        ≡ (if text_eq id j then none else lookup j w.store.items)
  unfolding remove_one remove dispatch require_memory tier_for memory_of_tier require_local_memory
      working_tier
  lookup-remove_one id j n w = elim (Result-cases (Store.remove id w.store).0) [
    | inl (u, done) ↦ rw (remove_one, done) (lookup-remove id j w.store)
    | inr (x, failed) ↦ rw (remove_one, failed) (lookup-remove id j w.store)
  ]

  lookup-remove_pairs :
      (pairs : List ForgetPair) (j : Text) (st : ℕ × WorkingMemory)
      → lookup j (remove_pairs rt c alone working pairs st).1.store.items
        ≡ (if any_by (names j) pairs then none else lookup j st.1.store.items)
  unfolding remove_pairs
  lookup-remove_pairs [] j st = refl
  lookup-remove_pairs (p ∷ pairs) j st =
      lookup-remove_pairs pairs j (remove_one rt c alone working p.id st)
      ∙ ap (λ o. if any_by (names j) pairs then none else o) (lookup-remove_one p.id j st.0 st.1)
      ∙ both (text_eq p.id j) (any_by (names j) pairs) (lookup j st.1.store.items)

  -- The items that go: enabled and in the scope, not pinned, and failing the test of the strategy.
  abbrev pub goes : Scope → (MemoryItem → Bool) → MemoryItem → Bool
  goes scope test it =
      (not (c.is_pinned it) && test it)
      && matches_filter rt c it (scoped_filter rt lawful c codec faithful e stamp now scope)

  -- What is left under an id.
  abbrev pub spared : (MemoryItem → Bool) → Option MemoryItem → Option MemoryItem
  spared p o = if passes p o then none else o

  named_victims :
      (scope : Scope) (test : MemoryItem → Bool) (found : List MemoryItem) (w : WorkingMemory)
      (j : Text)
      → IsMap w.store.items
      → IsKeyed w.store.items
      → Permᴰ found
          (matching rt c w.store (scoped_filter rt lawful c codec faithful e stamp now scope))
      → any_by (names j) (unpinned_pairs c (keep_if test found))
        ≡ passes (goes scope test) (lookup j w.store.items)
  named_victims scope test found w j u k p =
      any_by-unpinned_pairs c j (keep_if test found)
      ∙ any_by-keep_if (λ it. text_eq it.id j && not (c.is_pinned it)) test found
      ∙ any_by-perm _ p
      ∙ any_by-keep_if _ _ (values w.store.items)
      ∙ any_by-ext _ (λ it. text_eq it.id j && goes scope test it) (values w.store.items)
          (λ it. regroup (text_eq it.id j) (not (c.is_pinned it)) (test it) _)
      ∙ any_by-values (goes scope test) j w.store.items u k

  -- Forgetting in a scope by importance, or by age with a positive age, over a manager whose only
  -- tier is a working memory whose items stand under their own ids: with fuel for more rounds than
  -- there are listed items the call returns without an error, and the memory has then lost exactly
  -- the enabled, unpinned items of the scope that fail the test of the strategy; every other item
  -- stands under its id as before. (Cursors can be encoded, the listing does not overflow an int,
  -- and there is no observer.)
  pub forget_scoped-alone :
      (scope : Scope) (fuel : ℕ) (now' : Time) (opts : ForgetOptions) (test : MemoryItem → Bool)
      (w : WorkingMemory)
      → forgets_by now' opts opts.strategy ≡ some test
      → IsMap w.store.items
      → IsKeyed w.store.items
      → All
          (IsEncodable codec)
          (candidates rt c w.store (scoped_filter rt lawful c codec faithful e stamp now scope))
      → length
            (candidates rt c w.store (scoped_filter rt lawful c codec faithful e stamp now scope))
          + 200
        ≤ max_int
      → length
          (candidates rt c w.store (scoped_filter rt lawful c codec faithful e stamp now scope))
        < fuel
      → (n : ℕ) × (w' : WorkingMemory) × (forget_scoped rt c alone scope fuel now' working opts w
          ≡ some ((n, none), w'))
        × ((j : Text) → lookup j w'.store.items ≡ spared (goes scope test) (lookup j w.store.items))
  unfolding forget_scoped forget_listed lookup_kind kind_eq emit
  forget_scoped-alone scope fuel now' opts test w strategy u k encodable fits enough =
      let (found, listed, p, sorted) =
        list_all_scoped-alone rt lawful c codec faithful e stamp now w u k scope fuel encodable fits
          enough in
      let victims : List ForgetPair = unpinned_pairs c (keep_if test found) in
      let (n, w') = remove_pairs rt c alone working victims (0, w) in
      (
        n,
        w',
        ap
              (λ l. elim l as (λ _. Option (Counted × WorkingMemory)) [
                | none ↦ none
                | some listed' ↦ some (forget_listed rt c alone now' working opts listed')
              ])
              listed
            ∙ ap some (
                forget_candidates-by rt c alone now' working opts opts.strategy test found w
                  strategy
                ∙ ap (forgotten rt c alone working)
                    (remove_by-remove_pairs rt c alone working test found (0, w))),
        λ j.
            lookup-remove_pairs victims j (0, w)
            ∙ ap (λ b. if b then none else lookup j w.store.items)
                (named_victims scope test found w j u k p),
      )
