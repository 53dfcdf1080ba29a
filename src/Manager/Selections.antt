-- ===== src/Manager/Selections.antt =====
-- The map that a loop over the kinds fills: the kinds of its entries, and their order.
use mathlib.Core.List.{append_assoc, append-nil}
use llm_agent_memory.Common.{
  ◌≡◌, refl, sym, ◌∙◌, Option, none, some, List, [], ◌∷◌, ◌++◌, Option-cases, inl, inr,
}
use llm_agent_memory.Errors.{Result, Result-cases}
use llm_agent_memory.Contract.{Kind}
use llm_agent_memory.Manager.{kinds}
use llm_agent_memory.Manager.FanOut.{KindMap, lookup_kind, fan_out}
use llm_agent_memory.Manager.Kinds.{IsKindMap}

-- Entries for some of the kinds, in their order.
pub data Selection {A : Type 0} : List Kind → KindMap A → Type 0 where
  over : Selection [] []
  skipped : {k : Kind} {ks : List Kind} {ys : KindMap A} → Selection ks ys → Selection (k ∷ ks) ys
  taken :
      {k : Kind} {ks : List Kind} {ys : KindMap A} (a : A)
      → Selection ks ys
      → Selection (k ∷ ks) ((k, a) ∷ ys)

-- The entries that `f` gives, in the order of the kinds.
abbrev pub entries_of : {A : Type 0} → (Kind → Option A) → List Kind → KindMap A
entries_of f [] = []
entries_of f (k ∷ ks) =
    let rest = entries_of f ks in elim (f k) [ none ↦ rest | some a ↦ (k, a) ∷ rest ]

module _ {A : Type 0} where
  module _ (f : Kind → Option A) (k : Kind) (ks : List Kind) where
    pub entries_of-none : f k ≡ none → entries_of f (k ∷ ks) ≡ entries_of f ks
    entries_of-none h = rw (entries_of, h) refl

    pub entries_of-some : (a : A) → f k ≡ some a → entries_of f (k ∷ ks) ≡ (k, a) ∷ entries_of f ks
    entries_of-some a h = rw (entries_of, h) refl

  all_skipped : (ks : List Kind) → Selection {A = A} ks []
  all_skipped [] = over
  all_skipped (k ∷ ks) = skipped (all_skipped ks)

  -- A selection of all kinds is a map, and its own lookups in their order.
  pub Selection-entries_of :
      (ys : KindMap A)
      → Selection kinds ys
      → IsKindMap ys × (entries_of (λ k. lookup_kind k ys) kinds ≡ ys)
  unfolding lookup_kind
  Selection-entries_of ys (skipped (skipped (skipped over))) = (tt, refl)
  Selection-entries_of ys (taken a (skipped (skipped over))) = ((refl, tt), refl)
  Selection-entries_of ys (skipped (taken a (skipped over))) = ((refl, tt), refl)
  Selection-entries_of ys (skipped (skipped (taken a over))) = ((refl, tt), refl)
  Selection-entries_of ys (taken a (taken b (skipped over))) = ((refl, (refl, tt)), refl)
  Selection-entries_of ys (taken a (skipped (taken b over))) = ((refl, (refl, tt)), refl)
  Selection-entries_of ys (skipped (taken a (taken b over))) = ((refl, (refl, tt)), refl)
  Selection-entries_of ys (taken a (taken b (taken c over))) = ((refl, (refl, (refl, tt))), refl)

module _ {W A : Type 0} (visit : Kind → W → Option (Result A) × W) where
  -- Whatever the visits answer, the loop adds a selection of its kinds.
  pub fan_out-Selection :
      (ks : List Kind) (out : KindMap A) (w : W)
      → (ys : KindMap A) × Selection ks ys × ((fan_out visit ks out w).0.0 ≡ out ++ ys)
  unfolding fan_out
  fan_out-Selection [] out w = ([], over, sym (append-nil out))
  fan_out-Selection (k ∷ ks) out w = elim (Option-cases (visit k w).0) [
    | inl e ↦
        let (ys, s, p) = fan_out-Selection ks out (visit k w).1 in
        (ys, skipped s, rw (fan_out, e) p)
    | inr (r, e) ↦ elim (Result-cases r) [
      | inr (x, f) ↦ ([], all_skipped (k ∷ ks), rw (fan_out, e, f) (sym (append-nil out)))
      | inl (a, f) ↦
          let (ys, s, p) = fan_out-Selection ks (out ++ (k, a) ∷ []) (visit k w).1 in
          ((k, a) ∷ ys, taken a s, rw (fan_out, e, f) (p ∙ append_assoc out ((k, a) ∷ []) ys))
    ]
  ]
