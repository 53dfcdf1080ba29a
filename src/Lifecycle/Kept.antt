-- ===== src/Lifecycle/Kept.antt =====
-- Lookups of the items that a filter keeps, and the counts of the loops of memory/consolidator.go.
use llm_agent_memory.Common.{
  ◌≡◌, sym, ◌∙◌, subst, ◌<◌, inl, inr, Bool, true, none, some, Bool-cases, List, [], ◌∷◌, text_eq,
  text_eq_iff, lookup, Dict, IsMap, All, All-mono, keep_if, length, arith,
}
use llm_agent_memory.Errors.{Error}
use llm_agent_memory.Contract.{MemoryItem}
use llm_agent_memory.Store.Keyed.{IsKeyed, values}
use llm_agent_memory.Lifecycle.Counting.{IsCount}
use llm_agent_memory.Lifecycle.Consolidator.{Counted}

-- Each item of a map is what its id leads to.
pub values-lookup :
    (m : Dict MemoryItem) → IsMap m → IsKeyed m → All (λ it. lookup it.id m ≡ some it) (values m)
unfolding lookup
values-lookup [] u k = tt
values-lookup ((i, it) ∷ m) u k = (
  ground (arith, k.0, text_eq_iff i it.id),
  All-mono (λ x h. later x h) (values m) (values-lookup m u.1 k.1),
)
  where
    later : (x : MemoryItem) → lookup x.id m ≡ some x → lookup x.id ((i, it) ∷ m) ≡ some x
    later x h = elim (Bool-cases (text_eq i x.id)) [
      | inr other ↦ rw other h
      | inl same ↦
          absurd (cc (sym (subst (λ z. lookup z m ≡ none) ((text_eq_iff i x.id).0 same) u.0) ∙ h))
    ]

pub All-of_kept :
    {A : Type 0} (P : A → Type 0) (p : A → Bool) (xs : List A)
    → All P (keep_if p xs)
    → All (λ x. p x ≡ true → P x) xs
All-of_kept P p [] h = tt
All-of_kept P p (x ∷ xs) h = elim (Bool-cases (p x)) [
  | inl on ↦ let h' = rw on at h in ((λ on'. h'.0), All-of_kept P p xs h'.1)
  | inr off ↦ ((λ on. absurd (cc (sym on ∙ off))), All-of_kept P p xs (rw off at h))
]

pub IsCount-err :
    (due : List MemoryItem) (counted : Counted) (x : Error)
    → counted.1 ≡ some x
    → IsCount 0 due counted
    → counted.0 < length due
IsCount-err due (n, none) x h c = absurd (cc h)
IsCount-err due (n, some e) x h c = omega (arith, c.1)

pub IsCount-ok :
    (due : List MemoryItem) (counted : Counted)
    → counted.1 ≡ none
    → IsCount 0 due counted
    → counted.0 ≡ length due
IsCount-ok due (n, none) h c = omega (arith, c)
IsCount-ok due (n, some e) h c = absurd (cc h)
