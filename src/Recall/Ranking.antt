-- ===== src/Recall/Ranking.antt =====
-- The entries of a merge, and the order in which they are ranked: the same code in the recall
-- engine and in the unified search.
use mathlib.Core.List.Permᴰ
use llm_agent_memory.Common.{
  ◌≡◌, refl, sym, ap, ◌∙◌, ◌+◌, ◌≤◌, Bool, true, false, not, ◌&&◌, List, [], ◌∷◌, map, Permᴰ,
  text_lt_asym, text_lt_incomp_trans, float_lt, float_eq, float_lt_asym, All, All-perm, Pairwise,
  any_by, length, Runtime, IsLawful, IsSorted, IsStrictWeak, arith,
}
use llm_agent_memory.Contract.{Kind, SearchResult}
use llm_agent_memory.Manager.FanOut.{KindMap}
use llm_agent_memory.Engines.Ranking.{IsNumber}
use llm_agent_memory.Recall.{
  Key, key_of, key_eq, Origin, Best, keep_best, keep_best_of, results_at, merge_loop, ranked_before,
  ranked,
}
use llm_agent_memory.Recall.Engine.{total_candidates}
use llm_agent_memory.Recall.Merging.{HasDistinctKeys, has_entry, is_covered, key_eq_sym}

ranked_before_asym : (a b : SearchResult) → ranked_before a b ≡ true → ranked_before b a ≡ false
unfolding ranked_before float_eq
ranked_before_asym a b h =
    ground (arith, float_lt_asym b.score a.score, text_lt_asym a.item.id b.item.id)

ranked_before_incomp_trans :
    (a b c : SearchResult)
    → IsNumber a
    → IsNumber b
    → IsNumber c
    → ranked_before b a ≡ false
    → ranked_before c b ≡ false
    → ranked_before c a ≡ false
unfolding ranked_before float_eq float_lt
ranked_before_incomp_trans a b c na nb nc h k =
    ground (arith, text_lt_incomp_trans a.item.id b.item.id c.item.id)

pub ranked_before-IsStrictWeak : IsStrictWeak IsNumber ranked_before
ranked_before-IsStrictWeak = record {
  asym = λ a b _ _. ranked_before_asym a b;
  incomp_trans = ranked_before_incomp_trans;
}

-- A result that does not come before another has no higher score.
pub ranked_before-score :
    (a b : SearchResult)
    → IsNumber a
    → IsNumber b
    → ranked_before b a ≡ false
    → float_lt a.score b.score ≡ false
unfolding ranked_before float_eq float_lt
ranked_before-score a b na nb h = ground arith

abbrev pub values : Best → List SearchResult
values = map (λ (_, v). v.result)

module _ (P : Kind → SearchResult → Type 0) where
  -- An entry stands under the key of its result, which has the property with its kind.
  abbrev pub IsEntry : Key × Origin → Type 0
  IsEntry (k, o) = (k ≡ key_of o.result) × P o.kind o.result

  keep_best-IsEntry :
      (kind : Kind) (r : SearchResult) (best : Best)
      → P kind r
      → All IsEntry best
      → All IsEntry (keep_best kind r best)
  unfolding keep_best
  keep_best-IsEntry kind r [] p h = ((refl, p), tt)
  keep_best-IsEntry kind r ((k, o) ∷ best) p h = ground (arith, keep_best-IsEntry kind r best p h.1)

  keep_best_of-IsEntry :
      (kind : Kind) (rs : List SearchResult) (best : Best)
      → All (P kind) rs
      → All IsEntry best
      → All IsEntry (keep_best_of kind rs best)
  unfolding keep_best_of
  keep_best_of-IsEntry kind [] best p h = h
  keep_best_of-IsEntry kind (r ∷ rs) best p h =
      keep_best_of-IsEntry kind rs _ p.1 (keep_best-IsEntry kind r best p.0 h)

  pub merge_loop-IsEntry :
      (per_kind : KindMap (List SearchResult)) (ks : List Kind) (best : Best)
      → All (λ k. All (P k) (results_at per_kind k)) ks
      → All IsEntry best
      → All IsEntry (merge_loop per_kind ks best)
  unfolding merge_loop
  merge_loop-IsEntry per_kind [] best p h = h
  merge_loop-IsEntry per_kind (k ∷ ks) best p h =
      merge_loop-IsEntry per_kind ks _ p.1 (keep_best_of-IsEntry k _ best p.0 h)

abbrev pub Differs : SearchResult → SearchResult → Type 0
Differs a b = key_eq (key_of a) (key_of b) ≡ false

-- `r` has the key of `q` and no lower score.
abbrev pub covers : SearchResult → SearchResult → Bool
covers q r = key_eq (key_of r) (key_of q) && not (float_lt r.score q.score)

module _ (P : Kind → SearchResult → Type 0) where
  has_entry-Differs :
      (x : SearchResult) (best : Best)
      → All (IsEntry P) best
      → has_entry (key_of x) best ≡ false
      → All (Differs x) (values best)
  has_entry-Differs x [] h n = tt
  has_entry-Differs x ((k, o) ∷ best) h n =
      ground (arith, has_entry-Differs x best h.1, key_eq_sym (key_of x) k)

  pub values-Pairwise :
      (best : Best) → All (IsEntry P) best → HasDistinctKeys best → Pairwise Differs (values best)
  values-Pairwise [] h d = tt
  values-Pairwise ((k, o) ∷ best) h d = (
    has_entry-Differs o.result best h.1 (ap (λ z. has_entry z best) (sym h.0.0) ∙ d.0),
    values-Pairwise best h.1 d.1,
  )

  pub is_covered-values :
      (q : SearchResult) (best : Best)
      → All (IsEntry P) best
      → is_covered q best ≡ true
      → any_by (covers q) (values best) ≡ true
  is_covered-values q [] h c = c
  is_covered-values q ((k, o) ∷ best) h c = ground (arith, is_covered-values q best h.1)

length-keep_best :
    (kind : Kind) (r : SearchResult) (best : Best)
    → length (keep_best kind r best) ≤ length best + 1
unfolding keep_best
length-keep_best kind r [] = omega arith
length-keep_best kind r ((k, o) ∷ best) = ground (arith, length-keep_best kind r best)

length-keep_best_of :
    (kind : Kind) (rs : List SearchResult) (best : Best)
    → length (keep_best_of kind rs best) ≤ length best + length rs
unfolding keep_best_of
length-keep_best_of kind [] best = omega arith
length-keep_best_of kind (r ∷ rs) best =
    omega (arith, length-keep_best kind r best, length-keep_best_of kind rs (keep_best kind r best))

pub length-merge_loop :
    (per_kind : KindMap (List SearchResult)) (ks : List Kind) (best : Best)
    → length (merge_loop per_kind ks best) ≤ length best + total_candidates per_kind ks
unfolding merge_loop total_candidates
length-merge_loop per_kind [] best = omega arith
length-merge_loop per_kind (k ∷ ks) best = omega (
  arith,
  length-keep_best_of k (results_at per_kind k) best,
  length-merge_loop per_kind ks (keep_best_of k (results_at per_kind k) best),
)

module _ (rt : Runtime) (lawful : IsLawful rt) (best : Best) where
  pub ranked-perm : Permᴰ (ranked rt best) (values best)
  unfolding ranked
  ranked-perm = Permᴰ.trans (lawful.sort-perm _ _) (Permᴰ.map _ (lawful.range-perm best))

  pub ranked-IsSorted : All IsNumber (values best) → IsSorted ranked_before (ranked rt best)
  unfolding ranked
  ranked-IsSorted n =
      lawful.sort-IsSorted IsNumber ranked_before ranked_before-IsStrictWeak _
        (All-perm IsNumber (Permᴰ.symm (Permᴰ.map _ (lawful.range-perm best))) n)
