-- ===== src/Lifecycle/Names.antt =====
-- Which ids the pairs of memory/scoped_lifecycle.go name, by the items of the store that they come
-- from.
use llm_agent_memory.Common.{
  ◌≡◌, refl, sym, ap, ◌∙◌, Bool, true, false, not, ◌&&◌, ◌||◌, Option, none, some, List, [], ◌∷◌,
  Text, text_eq, text_eq_iff, Dict, lookup, IsMap, keep_if, any_by, arith, inl, inr, Bool-cases,
}
use llm_agent_memory.Contract.{MemoryItem, Contract}
use llm_agent_memory.Store.Keyed.{IsKeyed, values}
use llm_agent_memory.Lifecycle.Forgetting.{ForgetPair, unpinned_pairs}

pub any_by-keep_if :
    {A : Type 0} (p q : A → Bool) (xs : List A)
    → any_by p (keep_if q xs) ≡ any_by (λ x. p x && q x) xs
any_by-keep_if p q [] = refl
any_by-keep_if p q (x ∷ xs) = ground (arith, any_by-keep_if p q xs)

abbrev pub names : Text → ForgetPair → Bool
names j p = text_eq p.id j

pub any_by-unpinned_pairs :
    (c : Contract) (j : Text) (items : List MemoryItem)
    → any_by (names j) (unpinned_pairs c items)
      ≡ any_by (λ it. text_eq it.id j && not (c.is_pinned it)) items
unfolding unpinned_pairs
any_by-unpinned_pairs c j [] = refl
any_by-unpinned_pairs c j (it ∷ items) = ground (arith, any_by-unpinned_pairs c j items)

-- A test of the item under a key.
abbrev pub passes : (MemoryItem → Bool) → Option MemoryItem → Bool
passes p none = false
passes p (some it) = p it

or_false : (b : Bool) → (b || false) ≡ b
or_false true = refl
or_false false = refl

pub any_by-values :
    (p : MemoryItem → Bool) (j : Text) (m : Dict MemoryItem)
    → IsMap m
    → IsKeyed m
    → any_by (λ it. text_eq it.id j && p it) (values m) ≡ passes p (lookup j m)
unfolding lookup
any_by-values p j [] u k = refl
any_by-values p j ((i, it) ∷ m) u k =
    let ih = any_by-values p j m u.1 k.1 in
    let named : text_eq it.id j ≡ text_eq i j = ap (λ z. text_eq z j) k.0 in
    elim (Bool-cases (text_eq i j)) [
      | inl same ↦
          let gone : passes p (lookup j m) ≡ false =
            ap (λ z. passes p (lookup z m)) (sym ((text_eq_iff i j).0 same)) ∙ ap (passes p) u.0 in
          rw (named, same, ih ∙ gone) (or_false (p it))
      | inr other ↦ rw (named, other) ih
    ]

pub any_by-ext :
    {A : Type 0} (p q : A → Bool) (xs : List A) → ((x : A) → p x ≡ q x) → any_by p xs ≡ any_by q xs
any_by-ext p q [] h = refl
any_by-ext p q (x ∷ xs) h = ground (arith, h x, any_by-ext p q xs h)

pub regroup : (a b c d : Bool) → (((a && b) && c) && d) ≡ (a && ((b && c) && d))
regroup true b c d = refl
regroup false b c d = refl
