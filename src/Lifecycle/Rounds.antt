-- ===== src/Lifecycle/Rounds.antt =====
-- What the paging loop collects, round by round.
use mathlib.Core.List.Permᴰ
use llm_agent_memory.Common.{
  ◌≡◌, sym, ap, ◌∙◌, subst, ℕ, zero, suc, ◌+◌, ◌≤◌, ◌<◌, none, some, List, [], ◌∷◌, ◌++◌, Text,
  Runtime, IsLawful, All, All-mono, All-zip, All-map, All-of, ◌-◌, All-perm, arith, ltb, ltb→lt,
  ltb-false→le, Bool-cases, inl, inr,
}
use llm_agent_memory.Errors.{ok}
use llm_agent_memory.Contract.{Kind, MemoryItem, ListPage}
use llm_agent_memory.Manager.FanOut.{KindMap, lookup_kind, cursor_at}
use llm_agent_memory.Manager.Kinds.{SameKinds, SameKinds-range}
use llm_agent_memory.Lifecycle.Paging.{
  collect_items, next_cursors, Pager, Listed, paging_loop, after_pages, after_cursors,
}
use llm_agent_memory.Lifecycle.Paging.{items_of, at_kind}
use llm_agent_memory.Lifecycle.Collected.{
  List-cases, no_cursor, no_item, cursor_of, extended, lookup-collect_items, cursor_at-next_cursors,
  next_cursors_last, HasDistinctKinds, tabulated, tabulated-IsKindMap, lookup-tabulated,
}

module _ {W : Type 0} (rt : Runtime) (lawful : IsLawful rt) (pager : Pager W) (w : W)
    (ks : List Kind) (distinct : HasDistinctKinds ks) (page : Kind → ℕ → ListPage) where
  -- The cursor with which the page of round `i` is asked for, and what the rounds before it
  -- collect.
  abbrev pub cursor : Kind → ℕ → Text
  cursor k zero = []
  cursor k (suc i) = (page k i).next_cursor

  abbrev pub laps : Kind → ℕ → List MemoryItem
  laps k zero = []
  laps k (suc i) = laps k i ++ (page k i).items

  -- Every kind is at its start again.
  abbrev pub IsEnd : ℕ → Type 0
  IsEnd i = All (λ k. cursor k i ≡ []) ks

  abbrev pages : ℕ → KindMap ListPage
  pages i = tabulated (λ k. page k i) ks

  abbrev pub Answers : ℕ → Type 0
  Answers i =
      (cursors : KindMap Text)
      → All (λ k. cursor_at cursors k ≡ cursor k i) ks
      → pager cursors w ≡ ((pages i, none), w)

  -- The loop ends at the first round `m` after which every kind is at its start again, with the
  -- items of all the pages so far.
  abbrev pub IsOutcome : ℕ → ℕ → Listed → Type 0
  IsOutcome n m out =
      (0 < m)
      × (m ≤ n)
      × IsEnd m
      × ((i : ℕ) → 0 < i → i < m → ¬ IsEnd i)
      × All (λ k. at_kind out k ≡ laps k m) ks

  module _ (i : ℕ) where
    ranged : SameKinds (pages i) (rt.range (pages i))
    ranged = SameKinds-range rt lawful (pages i) (tabulated-IsKindMap (λ k. page k i) ks distinct)

    lookup-ranged : All (λ k. lookup_kind k (rt.range (pages i)) ≡ some (page k i)) ks
    lookup-ranged =
        All-mono (λ k e. ranged.1 k ∙ e) ks (lookup-tabulated (λ k. page k i) ks distinct)

    cursor_at-next :
        All (λ k. cursor_at (next_cursors (rt.range (pages i))) k ≡ cursor k (suc i)) ks
    cursor_at-next =
        All-mono (λ k e. cursor_at-next_cursors (rt.range (pages i)) k ranged.0 ∙ ap cursor_of e) ks
          lookup-ranged

    next_cursors-end : IsEnd (suc i) → next_cursors (rt.range (pages i)) ≡ []
    next_cursors-end h =
        next_cursors_last (rt.range (pages i))
          (All-perm _ (Permᴰ.symm (lawful.range-perm (pages i))) (All-map _ _ ks h))

    at_kind-collect :
        (out : Listed)
        → All (λ k. at_kind out k ≡ laps k i) ks
        → All (λ k. at_kind (collect_items (rt.range (pages i)) out) k ≡ laps k (suc i)) ks
    at_kind-collect out h =
        All-mono
          (λ k p.
            ap items_of (lookup-collect_items (rt.range (pages i)) out k ranged.0)
            ∙ ap (λ o. items_of (extended o (lookup_kind k out))) p.0
            ∙ ap (λ l. l ++ (page k i).items) p.1)
          ks (All-zip _ _ ks lookup-ranged h)

  module _ (i fuel : ℕ) (out : Listed) (cursors : KindMap Text)
      (here : All (λ k. cursor_at cursors k ≡ cursor k i) ks) (answers : Answers i) where
    abbrev collected : Listed
    collected = collect_items (rt.range (pages i)) out

    one_round :
        paging_loop rt pager (suc fuel) out cursors w
        ≡ after_cursors rt
            (paging_loop rt pager fuel)
            collected
            (next_cursors (rt.range (pages i)))
            w
    unfolding paging_loop
    one_round = ap (after_pages rt (paging_loop rt pager fuel) out) (answers cursors here)

    last_round :
        next_cursors (rt.range (pages i)) ≡ []
        → paging_loop rt pager (suc fuel) out cursors w ≡ some (ok collected, w)
    last_round e =
        one_round ∙ ap (λ c. after_cursors rt (paging_loop rt pager fuel) collected c w) e

    next_round :
        (c : Kind × Text) (more : KindMap Text)
        → next_cursors (rt.range (pages i)) ≡ c ∷ more
        → paging_loop rt pager (suc fuel) out cursors w
          ≡ paging_loop rt pager fuel collected (c ∷ more) w
    next_round c more e =
        one_round ∙ ap (λ c. after_cursors rt (paging_loop rt pager fuel) collected c w) e

  cursors-next :
      (i : ℕ) (cs : KindMap Text)
      → next_cursors (rt.range (pages i)) ≡ cs
      → All (λ k. cursor_at cs k ≡ cursor k (suc i)) ks
  cursors-next i cs e =
      subst (λ z. All (λ k. cursor_at z k ≡ cursor k (suc i)) ks) e (cursor_at-next i)

  IsEnd-next : (i : ℕ) → next_cursors (rt.range (pages i)) ≡ [] → IsEnd (suc i)
  unfolding lookup_kind
  IsEnd-next i e = All-mono (λ k p. sym p) ks (cursors-next i [] e)

  no-IsEnd :
      (i : ℕ) (c : Kind × Text) (more : KindMap Text)
      → next_cursors (rt.range (pages i)) ≡ c ∷ more
      → ¬ IsEnd (suc i)
  no-IsEnd i c more e h = cc (e, next_cursors-end i h)

  no-IsEnd_before :
      (i : ℕ)
      → ((j : ℕ) → 0 < j → j < suc i → ¬ IsEnd j)
      → ¬ IsEnd (suc i)
      → (j : ℕ) → 0 < j
      → j < suc (suc i)
      → ¬ IsEnd j
  no-IsEnd_before i first here j p q = elim (Bool-cases (ltb j (suc i))) [
    | inl before ↦ first j p (ltb→lt j (suc i) before)
    | inr not_before ↦
        let now : suc i ≡ j = omega (arith, ltb-false→le j (suc i) not_before) in
        subst (λ z. ¬ IsEnd z) now here
  ]

  module _ (n : ℕ) (ends : IsEnd n) (answers : (i : ℕ) → i < n → Answers i) where
    -- How the loop goes on from round `i`.
    abbrev Finishes : ℕ → Listed → KindMap Text → Type 0
    Finishes fuel out cursors =
        (m : ℕ) × (out' : Listed) × (paging_loop rt pager fuel out cursors w ≡ some (ok out', w))
        × IsOutcome n m out'

    rounds_from :
        (left i fuel : ℕ) (out : Listed) (cursors : KindMap Text)
        → i + suc left ≡ n
        → left < fuel
        → All (λ k. cursor_at cursors k ≡ cursor k i) ks
        → All (λ k. at_kind out k ≡ laps k i) ks
        → ((j : ℕ) → 0 < j → j < suc i → ¬ IsEnd j)
        → Finishes fuel out cursors
    rounds_from left i zero out cursors e f here so_far first = elim f [ ]
    rounds_from left i (suc fuel) out cursors e f here so_far first =
        let a : Answers i = answers i (omega arith) in
        let out' : Listed = collect_items (rt.range (pages i)) out in
        let so_far' = at_kind-collect i out so_far in
        elim (List-cases (next_cursors (rt.range (pages i)))) [
          | inl done ↦ (
            suc i,
            out',
            last_round i fuel out cursors here a done,
            (omega arith, omega arith, IsEnd-next i done, first, so_far'),
          )
          | inr (c, more, again) ↦
              let not_end = no-IsEnd i c more again in
              elim left as (λ l. i + suc l ≡ n → l < suc fuel → Finishes (suc fuel) out cursors) [
                | zero ↦ λ e' f'.
                    let now : n ≡ suc i = omega arith in absurd (not_end (subst IsEnd now ends))
                | suc l ↦ λ e' f'.
                    let (m, final, runs, outcome) =
                      rounds_from l (suc i) fuel out' (c ∷ more) (omega arith) (omega arith)
                        (cursors-next i (c ∷ more) again) so_far'
                        (no-IsEnd_before i first not_end) in
                    (m, final, next_round i fuel out cursors here a c more again ∙ runs, outcome)
              ]
                e f
        ]

  -- For a pager whose pages do not change: if after some number `n` of rounds every kind would be
  -- at its start again, the loop ends within `n` rounds without an error, at the first such round
  -- `m`, and what it has collected of a kind are all the pages of that kind that `m` rounds saw,
  -- laps over the same pages included.
  pub paging_loop-IsOutcome :
      (n fuel : ℕ)
      → 0 < n
      → n ≤ fuel
      → IsEnd n
      → ((i : ℕ) → i < n → Answers i)
      → (m : ℕ) × (out : Listed) × (paging_loop rt pager fuel [] [] w ≡ some (ok out, w))
        × IsOutcome n m out
  paging_loop-IsOutcome n fuel p f ends answers =
      rounds_from n ends answers (n - 1) 0 fuel [] [] (omega arith) (omega arith)
        (All-of (λ k. cursor_at [] k ≡ []) no_cursor ks)
        (All-of (λ k. at_kind [] k ≡ []) no_item ks) (λ j q r. absurd (omega arith))
