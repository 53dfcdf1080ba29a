-- ===== src/Manager/Kinds.antt =====
-- Maps from kinds: the order in which `range` visits one does not show in its lookups.
use mathlib.Core.List.Permᴰ
use llm_agent_memory.Common.{
  ◌≡◌, refl, ◌∙◌, subst, ◌↔◌, true, none, [], ◌∷◌, Permᴰ, text_eq_iff, arith, Runtime, IsLawful,
}
use llm_agent_memory.Contract.{Kind, working, episodic, semantic, kind_eq}
use llm_agent_memory.Manager.FanOut.{KindMap, lookup_kind}

pub kind_eq_iff : (a b : Kind) → (kind_eq a b ≡ true) ↔ (a ≡ b)
unfolding kind_eq
kind_eq_iff (Kind.unlisted s) (Kind.unlisted t) = ground (arith, text_eq_iff s t)
kind_eq_iff working b = ground arith
kind_eq_iff episodic b = ground arith
kind_eq_iff semantic b = ground arith
kind_eq_iff (Kind.unlisted s) working = ground arith
kind_eq_iff (Kind.unlisted s) episodic = ground arith
kind_eq_iff (Kind.unlisted s) semantic = ground arith

pub kind_eq_refl : (k : Kind) → kind_eq k k ≡ true
kind_eq_refl k = (kind_eq_iff k k).1 refl

module _ {A : Type 0} where
  -- A map has at most one entry for a kind.
  abbrev pub IsKindMap : KindMap A → Type 0
  IsKindMap [] = Unit
  IsKindMap ((k, a) ∷ m) = (lookup_kind k m ≡ none) × IsKindMap m

  abbrev pub SameKinds : KindMap A → KindMap A → Type 0
  SameKinds xs ys = IsKindMap ys × ((k : Kind) → lookup_kind k ys ≡ lookup_kind k xs)

  SameKinds-swap :
      (a b : Kind × A) (m : KindMap A) → IsKindMap (a ∷ b ∷ m) → SameKinds (a ∷ b ∷ m) (b ∷ a ∷ m)
  unfolding lookup_kind
  SameKinds-swap (i, v) (j, w) m h = (
    ground (arith, h, kind_eq_iff i j, kind_eq_iff j i),
    λ k. ground (arith, h, kind_eq_iff i j, kind_eq_iff j i, kind_eq_iff i k, kind_eq_iff j k),
  )

  SameKinds-cons :
      (a : Kind × A) (xs ys : KindMap A)
      → IsKindMap (a ∷ xs)
      → SameKinds xs ys
      → SameKinds (a ∷ xs) (a ∷ ys)
  unfolding lookup_kind
  SameKinds-cons (i, v) xs ys h s = ((s.1 i ∙ h.0, s.0), λ k. ground (arith, s.1 k))

  pub SameKinds-perm : {xs ys : KindMap A} → Permᴰ xs ys → IsKindMap xs → SameKinds xs ys
  SameKinds-perm Permᴰ.nil h = (tt, λ k. refl)
  SameKinds-perm (Permᴰ.cons {a = a} {b = b} {l₁ = m} {l₂ = n} e p) h =
      subst (λ z. SameKinds (a ∷ m) (z ∷ n)) e (SameKinds-cons a m n h (SameKinds-perm p h.1))
  SameKinds-perm (Permᴰ.swap {a = a} {b = b} {b' = b'} {l = m} e f) h =
      subst (λ z. SameKinds (a ∷ b ∷ m) (z ∷ b' ∷ m)) f
        (subst (λ z. SameKinds (a ∷ b ∷ m) (b ∷ z ∷ m)) e (SameKinds-swap a b m h))
  SameKinds-perm (Permᴰ.trans p q) h =
      let s = SameKinds-perm p h in let t = SameKinds-perm q s.0 in (t.0, λ k. t.1 k ∙ s.1 k)

  pub SameKinds-range :
      (rt : Runtime) → IsLawful rt → (m : KindMap A) → IsKindMap m → SameKinds m (rt.range m)
  SameKinds-range rt lawful m h = SameKinds-perm (Permᴰ.symm (lawful.range-perm m)) h
