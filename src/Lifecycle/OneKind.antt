-- ===== src/Lifecycle/OneKind.antt =====
-- The paging loop of memory/consolidator.go and memory/scoped_lifecycle.go over a manager that
-- lists a single kind: it is the client of Listing that follows the cursors.
use mathlib.Core.List.{append_assoc}
use llm_agent_memory.Common.{
  ◌≡◌, refl, sym, ap, ◌∙◌, ℕ, zero, suc, Option, none, some, List, [], ◌∷◌, ◌++◌, Text, text_eq,
  Permᴰ, Runtime, IsLawful, true, false, Bool-cases, Option-cases, inl, inr, ◌⊎◌, length,
  length-perm, arith,
}
use llm_agent_memory.Errors.{Error, Result, Result-cases, ok, err, wrapped}
use llm_agent_memory.Contract.{Kind, MemoryItem, ListPage}
use llm_agent_memory.Manager.FanOut.{KindMap, Partial, lookup_kind, cursor_at}
use llm_agent_memory.Manager.Kinds.{kind_eq_refl}
use llm_agent_memory.Listing.Complete.{gather}
use llm_agent_memory.Lifecycle.Paging.{
  append_at, collect_items, next_cursors, Pager, Listed, paging_loop, after_pages, after_cursors,
}

nil_of_length : {A : Type 0} (xs : List A) → length xs ≡ 0 → xs ≡ []
nil_of_length [] h = refl
nil_of_length (x ∷ xs) h = absurd (omega arith)

cons_inj : {A : Type 0} {a b : A} {l m : List A} → a ∷ l ≡ b ∷ m → (a ≡ b) × (l ≡ m)
cons_inj h = (cc h, cc h)

some_inj : {A : Type 0} {a b : A} → some a ≡ some b → a ≡ b
some_inj h = cc h

perm_singleton : {A : Type 0} {xs ys : List A} (x : A) → Permᴰ xs ys → ys ≡ x ∷ [] → xs ≡ x ∷ []
perm_singleton x Permᴰ.nil h = h
perm_singleton x (Permᴰ.cons {a = a} {b = b} {l₁ = l} {l₂ = m} e p) h =
    let (hd, tl) = cons_inj h in
    let short : l ≡ [] = nil_of_length l (length-perm p ∙ ap length tl) in
    ap (λ z. z ∷ l) (e ∙ hd) ∙ ap (◌∷◌ x) short
perm_singleton x (Permᴰ.swap e f) h = absurd (omega (arith, ap length h))
perm_singleton x (Permᴰ.trans p q) h = perm_singleton x p (perm_singleton x q h)

-- What a listing of the kind alone returns.
abbrev pub one : Kind → Result ListPage → Partial ListPage
one k (ok page) = ((k, page) ∷ [], none)
one k (err e) = ([], some (wrapped e))

-- The client that follows the cursors of `list`.
unfoldable pub follows : (Text → Result ListPage) → ℕ → Text → Option (List MemoryItem)
follows list zero cursor = none
follows list (suc fuel) cursor = gather (list cursor) (follows list fuel)

gather_cases :
    (page : ListPage) (more : Text → Option (List MemoryItem)) (found : List MemoryItem)
    → gather (ok page) more ≡ some found
    → ((text_eq page.next_cursor [] ≡ true) × (page.items ≡ found))
      ⊎ ((later : List MemoryItem) × (text_eq page.next_cursor [] ≡ false)
          × (more page.next_cursor ≡ some later)
          × (page.items ++ later ≡ found))
unfolding gather
gather_cases page more found h = elim (Bool-cases (text_eq page.next_cursor [])) [
  | inl last ↦ inl (last, some_inj (rw (gather, last) at h))
  | inr goes_on ↦ elim (Option-cases (more page.next_cursor)) [
    | inl stuck ↦ absurd (cc (rw (gather, goes_on, stuck) at h))
    | inr (later, e) ↦ inr (later, goes_on, e, some_inj (rw (gather, goes_on, e) at h))
  ]
]

gather_err : (e : Error) (more : Text → Option (List MemoryItem)) → none ≡ gather (err e) more
unfolding gather
gather_err e more = refl

module _ {W : Type 0} (rt : Runtime) (lawful : IsLawful rt) (k : Kind)
    (list : Text → Result ListPage) (pager : Pager W) (w : W)
    (answers : (cursors : KindMap Text)
      → pager cursors w ≡ (one k (list (cursor_at cursors k)), w)) where
  range-one : (page : ListPage) → rt.range ((k, page) ∷ []) ≡ (k, page) ∷ []
  range-one page = perm_singleton (k, page) (lawful.range-perm ((k, page) ∷ [])) refl

  one_round :
      (fuel : ℕ) (out : Listed) (cursors : KindMap Text) (page : ListPage)
      → list (cursor_at cursors k) ≡ ok page
      → paging_loop rt pager (suc fuel) out cursors w
        ≡ after_cursors rt
            (paging_loop rt pager fuel)
            (append_at k page.items out)
            (next_cursors ((k, page) ∷ []))
            w
  unfolding paging_loop collect_items
  one_round fuel out cursors page e =
      ap (after_pages rt (paging_loop rt pager fuel) out) (answers cursors)
      ∙ ap (λ r. after_pages rt (paging_loop rt pager fuel) out (one k r, w)) e
      ∙ ap
          (λ pages.
            after_cursors rt (paging_loop rt pager fuel) (collect_items pages out)
              (next_cursors pages) w)
          (range-one page)

  append_at_same :
      (before items : List MemoryItem)
      → append_at k items ((k, before) ∷ []) ≡ (k, before ++ items) ∷ []
  unfolding append_at
  append_at_same before items = rw (kind_eq_refl k) refl

  cursor_at_same : (t : Text) → cursor_at ((k, t) ∷ []) k ≡ t
  unfolding lookup_kind
  cursor_at_same t = rw (cursor_at, kind_eq_refl k) refl

  loop_from :
      (fuel : ℕ) (out : Listed) (before found : List MemoryItem) (cursors : KindMap Text)
      → ((items : List MemoryItem) → append_at k items out ≡ (k, before ++ items) ∷ [])
      → follows list fuel (cursor_at cursors k) ≡ some found
      → paging_loop rt pager fuel out cursors w ≡ some (ok ((k, before ++ found) ∷ []), w)
  unfolding follows next_cursors
  loop_from zero out before found cursors h f = absurd (cc f)
  loop_from (suc fuel) out before found cursors h f =
      elim (Result-cases (list (cursor_at cursors k))) [
        | inr (e, failed) ↦ absurd (
            cc (
              gather_err e (follows list fuel)
              ∙ sym (ap (λ r. gather r (follows list fuel)) failed)
              ∙ f))
        | inl (page, e) ↦
            elim (gather_cases page (follows list fuel) found
              (sym (ap (λ r. gather r (follows list fuel)) e) ∙ f)) [
                | inl (last, same) ↦
                    one_round fuel out cursors page e
                    ∙ ap
                        (λ o.
                          after_cursors rt (paging_loop rt pager fuel) o
                            (next_cursors ((k, page) ∷ [])) w)
                        (h page.items)
                    ∙ rw (next_cursors, last, same) refl
                | inr (later, goes_on, rest, same) ↦
                    one_round fuel out cursors page e
                    ∙ ap
                        (λ o.
                          after_cursors rt (paging_loop rt pager fuel) o
                            (next_cursors ((k, page) ∷ [])) w)
                        (h page.items)
                    ∙ rw (next_cursors, goes_on)
                        (loop_from fuel ((k, before ++ page.items) ∷ []) (before ++ page.items)
                            later ((k, page.next_cursor) ∷ [])
                            (append_at_same (before ++ page.items))
                            (ap (follows list fuel) (cursor_at_same page.next_cursor) ∙ rest)
                          ∙ ap (λ l. some (ok ((k, l) ∷ []), w))
                              (append_assoc before page.items later ∙ ap (λ l. before ++ l) same))
              ]
      ]

  -- The loop returns what the client collects.
  pub paging_loop-follows :
      (fuel : ℕ) (found : List MemoryItem)
      → follows list fuel [] ≡ some found
      → paging_loop rt pager fuel [] [] w ≡ some (ok ((k, found) ∷ []), w)
  unfolding append_at lookup_kind
  paging_loop-follows fuel found h = loop_from fuel [] [] found [] (λ items. refl) h
