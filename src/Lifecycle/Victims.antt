-- ===== src/Lifecycle/Victims.antt =====
-- Which items `ForgetScoped` of memory/scoped_lifecycle.go removes.
use mathlib.Core.List.Permᴰ
use mathlib.Core.List.{Memᴰ}
use llm_agent_memory.Common.{
  ◌≡◌, refl, sym, ap, subst, ℕ, zero, suc, ◌-◌, ◌<◌, ℤ, pos, negsuc, leb, leb_ℤ, Bool, true, false,
  Option, none, some, List, [], ◌∷◌, ◌++◌, Permᴰ, Runtime, length, length-perm, take, drop,
  take-append-drop, length-drop, All, All-perm, All-take, keep_if, Bool-cases, inl, inr, arith,
}
use llm_agent_memory.Errors.{Error, max_age_required, unknown_strategy}
use llm_agent_memory.Contract.{
  Contract, MemoryItem, Kind, Time, ForgetOptions, ForgetStrategy, by_importance, by_age,
  by_capacity,
}
use llm_agent_memory.Lifecycle.Consolidator.{Counted}
use mathlib.Core.Logic.{◌⊎◌}
use llm_agent_memory.Lifecycle.Forgetting.{
  ForgetPair, ScopedLifecycleManager, is_unimportant, is_old, remove_one, remove_by, remove_pairs,
  forgotten, forget_beyond, forget_to_capacity, forget_candidates, sort_pairs_by_imp_asc,
  unpinned_pairs,
}
use llm_agent_memory.Lifecycle.PairSort.{
  IsNumber, is_below, across, sort_pairs_by_imp_asc-perm, sort_pairs_by_imp_asc-IsSorted,
}

-- The pair of one of the items, and one that is not pinned.
abbrev pub IsUnpinnedOf : Contract → List MemoryItem → ForgetPair → Type 0
IsUnpinnedOf c items p =
    (it : MemoryItem) × Memᴰ it items
    × (c.is_pinned it ≡ false)
    × (p ≡ record { id = it.id; imp = it.importance })

IsUnpinnedOf-cons :
    (c : Contract) (it : MemoryItem) (items : List MemoryItem) (pairs : List ForgetPair)
    → All (IsUnpinnedOf c items) pairs
    → All (IsUnpinnedOf c (it ∷ items)) pairs
IsUnpinnedOf-cons c it items [] h = tt
IsUnpinnedOf-cons c it items (p ∷ pairs) h =
    ((h.0.0, Memᴰ.tail h.0.1, h.0.2, h.0.3), IsUnpinnedOf-cons c it items pairs h.1)

unpinned_pairs-IsUnpinnedOf :
    (c : Contract) (test : MemoryItem → Bool) (items : List MemoryItem)
    → All (IsUnpinnedOf c items) (unpinned_pairs c (keep_if test items))
unfolding unpinned_pairs
unpinned_pairs-IsUnpinnedOf c test [] = tt
unpinned_pairs-IsUnpinnedOf c test (it ∷ items) =
    let ih = IsUnpinnedOf-cons c it items _ (unpinned_pairs-IsUnpinnedOf c test items) in
    elim (Bool-cases (test it)) [
      | inl t ↦ elim (Bool-cases (c.is_pinned it)) [
        | inl pinned ↦ rw (t, unpinned_pairs, pinned) ih
        | inr free ↦ rw (t, unpinned_pairs, free) ((it, Memᴰ.head refl, free, refl), ih)
      ]
      | inr f ↦ rw f ih
    ]

module _ {W : Type 0} (rt : Runtime) (c : Contract) (s : ScopedLifecycleManager W) where
  -- The loop over the candidates removes those that are not pinned and pass the test.
  pub remove_by-remove_pairs :
      (kind : Kind) (test : MemoryItem → Bool) (items : List MemoryItem) (st : ℕ × W)
      → remove_by rt c s kind test items st
        ≡ remove_pairs rt c s kind (unpinned_pairs c (keep_if test items)) st
  unfolding remove_by remove_pairs unpinned_pairs
  remove_by-remove_pairs kind test [] st = refl
  remove_by-remove_pairs kind test (it ∷ items) st =
      let ih = remove_by-remove_pairs kind test items in
      elim (Bool-cases (test it)) [
        | inl t ↦ elim (Bool-cases (c.is_pinned it)) [
          | inl pinned ↦ rw (remove_by, t, unpinned_pairs, pinned) (ih st)
          | inr free ↦
              rw (remove_by, t, unpinned_pairs, free) (ih (remove_one rt c s kind it.id st))
        ]
        | inr f ↦ elim (Bool-cases (c.is_pinned it)) [
          | inl pinned ↦ rw (remove_by, f, pinned) (ih st)
          | inr free ↦ rw (remove_by, f, free) (ih st)
        ]
      ]

  -- The result of a call is that of removing the items of some unpinned pairs, or the call changes
  -- nothing.
  abbrev pub Forgets : Kind → List MemoryItem → W → Counted × W → Type 0
  Forgets kind items w result =
      ((victims : List ForgetPair) × All (IsUnpinnedOf c items) victims
        × (result ≡ forgotten rt c s kind (remove_pairs rt c s kind victims (0, w))))
      ⊎ ((failed : Option Error) × (result ≡ ((0, failed), w)))

  keep_if_all : (items : List MemoryItem) → keep_if (λ it. true) items ≡ items
  keep_if_all [] = refl
  keep_if_all (it ∷ items) = ap (◌∷◌ it) (keep_if_all items)

  abbrev cut_at : List ForgetPair → ℕ → ℕ
  cut_at all keep = length all - keep

  unpinned_pairs-All-IsUnpinnedOf :
      (items : List MemoryItem) → All (IsUnpinnedOf c items) (unpinned_pairs c items)
  unpinned_pairs-All-IsUnpinnedOf items =
      subst (λ its. All (IsUnpinnedOf c items) (unpinned_pairs c its)) (keep_if_all items)
        (unpinned_pairs-IsUnpinnedOf c (λ it. true) items)

  forget_by-Forgets :
      (kind : Kind) (test : MemoryItem → Bool) (items : List MemoryItem) (w : W)
      → Forgets kind items w (forgotten rt c s kind (remove_by rt c s kind test items (0, w)))
  forget_by-Forgets kind test items w = inl (
    unpinned_pairs c (keep_if test items),
    unpinned_pairs-IsUnpinnedOf c test items,
    ap (forgotten rt c s kind) (remove_by-remove_pairs kind test items (0, w)),
  )

  forget_beyond-Forgets :
      (kind : Kind) (keep : ℕ) (items : List MemoryItem) (w : W)
      → Forgets kind items w (forget_beyond rt c s kind keep (unpinned_pairs c items) w)
  unfolding forget_beyond
  forget_beyond-Forgets kind keep items w =
      let all : List ForgetPair = unpinned_pairs c items in
      let sorted : List ForgetPair = sort_pairs_by_imp_asc all in
      elim (Bool-cases (leb (length all) keep)) [
        | inl few ↦ inr (none, rw (forget_beyond, few) refl)
        | inr many ↦ inl (
          take (cut_at all keep) sorted,
          All-take _ (cut_at all keep) sorted (
              All-perm _ (Permᴰ.symm (sort_pairs_by_imp_asc-perm all))
                (unpinned_pairs-All-IsUnpinnedOf items)),
          rw (forget_beyond, many) refl,
        )
      ]

  forget_to_capacity-Forgets :
      (kind : Kind) (keep : ℤ) (items : List MemoryItem) (w : W)
      → Forgets kind items w (forget_to_capacity rt c s kind keep items w)
  forget_to_capacity-Forgets kind (pos zero) items w = inr (none, refl)
  forget_to_capacity-Forgets kind (pos (suc n)) items w = forget_beyond-Forgets kind (suc n) items w
  forget_to_capacity-Forgets kind (negsuc n) items w = inr (none, refl)

  -- Forgetting removes only candidates that are not pinned, whatever the strategy: a call either
  -- changes nothing and returns the count 0, or it removes, one after the other, the items of a
  -- list of pairs that all stand for unpinned candidates, and then reports the event with the
  -- count.
  pub forget_candidates-Forgets :
      (now : Time) (kind : Kind) (opts : ForgetOptions) (strategy : ForgetStrategy)
      (items : List MemoryItem) (w : W)
      → Forgets kind items w (forget_candidates rt c s now kind opts strategy items w)
  unfolding forget_candidates
  forget_candidates-Forgets now kind opts by_importance items w =
      forget_by-Forgets kind (is_unimportant opts.threshold) items w
  forget_candidates-Forgets now kind opts by_age items w =
      elim (Bool-cases (leb_ℤ opts.max_age (pos 0))) [
        | inl none_given ↦ inr (some max_age_required, rw (forget_candidates, none_given) refl)
        | inr given ↦
            rw (forget_candidates, given) (forget_by-Forgets kind (is_old now opts.max_age) items w)
      ]
  forget_candidates-Forgets now kind opts by_capacity items w =
      forget_to_capacity-Forgets kind opts.keep items w
  forget_candidates-Forgets now kind opts (ForgetStrategy.unlisted t) items w =
      inr (some unknown_strategy, refl)

  -- Above the capacity, what is left is the best: with more unpinned candidates than the positive
  -- number to keep, none of whose importances is a NaN, the call removes all of them but exactly
  -- that number, and none that is kept is less important than one that is removed.
  pub forget_candidates-capacity :
      (now : Time) (kind : Kind) (opts : ForgetOptions) (keep : ℕ) (items : List MemoryItem) (w : W)
      → opts.keep ≡ pos (suc keep)
      → suc keep < length (unpinned_pairs c items)
      → All IsNumber (unpinned_pairs c items)
      → (victims kept : List ForgetPair) × (forget_candidates rt c s now kind opts by_capacity items
            w
          ≡ forgotten rt c s kind (remove_pairs rt c s kind victims (0, w)))
        × Permᴰ (victims ++ kept) (unpinned_pairs c items)
        × (length kept ≡ suc keep)
        × All (λ v. All (λ k. is_below k v ≡ false) kept) victims
  unfolding forget_candidates forget_beyond
  forget_candidates-capacity now kind opts keep items w e more numbers =
      let all : List ForgetPair = unpinned_pairs c items in
      let sorted : List ForgetPair = sort_pairs_by_imp_asc all in
      let n : ℕ = cut_at all (suc keep) in
      let many : leb (length all) (suc keep) ≡ false = ground arith in
      (
        take n sorted,
        drop n sorted,
        rw (forget_candidates, e, forget_beyond, many) refl,
        subst (λ l. Permᴰ l all) (sym (take-append-drop n sorted)) (sort_pairs_by_imp_asc-perm all),
        omega (arith, length-drop n sorted, length-perm (sort_pairs_by_imp_asc-perm all)),
        across n sorted (sort_pairs_by_imp_asc-IsSorted all numbers),
      )
