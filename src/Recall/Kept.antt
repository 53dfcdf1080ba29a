-- ===== src/Recall/Kept.antt =====
-- What a recall and a unified search keep of the tiers' answers: the head of the ranked entries.
use mathlib.Core.List.Permᴰ
use mathlib.Core.List.{Memᴰ}
use llm_agent_memory.Common.{
  ◌≡◌, refl, sym, ◌∙◌, ℕ, zero, suc, ◌+◌, ◌-◌, ◌≤◌, ◌⊎◌, inl, inr, Bool, true, false, List, [], ◌∷◌,
  All, All-perm, All-take, All-map, All-mono, All-zip, Pairwise, Pairwise-perm, Pairwise-take,
  any_by, any_by-perm, length, length-take, length-perm, length-map, take, take_of_length-le, ltb,
  ltb-false→le, ltb→lt, Bool-cases, Runtime, IsLawful, IsSorted, float_lt, float_lt_incomp_trans,
  arith, if◌then◌else◌,
}
use llm_agent_memory.Contract.{Kind, SearchResult}
use llm_agent_memory.Manager.{kinds}
use llm_agent_memory.Manager.FanOut.{KindMap}
use llm_agent_memory.Engines.Ranking.{IsNumber}
use llm_agent_memory.Recall.{key_of, Best, results_at, merge_loop, ranked_before, ranked}
use llm_agent_memory.Recall.Engine.{total_candidates, merge_results}
use llm_agent_memory.Recall.Merging.{IsCovered, key_eq_sym, merge_loop_lem}
use llm_agent_memory.Recall.Ranking.{
  ranked_before-score, values, IsEntry, Differs, covers, values-Pairwise, is_covered-values,
  merge_loop-IsEntry, length-merge_loop, ranked-perm, ranked-IsSorted,
}

-- `q` itself, or a better result of its key, is kept; or the results are `top_k`, none with a lower
-- score than `q`.
abbrev pub IsKeptOrBeaten : ℕ → List SearchResult → SearchResult → Type 0
IsKeptOrBeaten top_k results q =
    (any_by (covers q) results ≡ true)
    ⊎ ((length results ≡ top_k) × All (λ r. float_lt r.score q.score ≡ false) results)

members : {A : Type 0} (xs : List A) → All (λ x. Memᴰ x xs) xs
members [] = tt
members (x ∷ xs) = (Memᴰ.head refl, All-mono (λ y m. Memᴰ.tail m) xs (members xs))

cover_later :
    (q x : SearchResult) (xs : List SearchResult)
    → IsNumber x
    → All IsNumber xs
    → All (λ y. ranked_before y x ≡ false) xs
    → any_by (covers q) xs ≡ true
    → float_lt x.score q.score ≡ false
cover_later q x [] nx n s c = cc c
cover_later q x (y ∷ ys) nx n s c = ground (
  arith,
  cover_later q x ys nx n.1 s.1,
  ranked_before-score x y nx n.0 s.0,
  float_lt_incomp_trans q.score y.score x.score n.0,
)

take-IsKeptOrBeaten :
    (top_k : ℕ) (q : SearchResult) (xs : List SearchResult)
    → All IsNumber xs
    → IsSorted ranked_before xs
    → any_by (covers q) xs ≡ true
    → IsKeptOrBeaten top_k (take top_k xs) q
take-IsKeptOrBeaten zero q xs n s c = inr (refl, tt)
take-IsKeptOrBeaten (suc m) q [] n s c = cc c
take-IsKeptOrBeaten (suc m) q (x ∷ xs) n s c = elim (Bool-cases (covers q x)) [
  | inl now ↦ inl (rw now refl)
  | inr other ↦
      let later : any_by (covers q) xs ≡ true = ground arith in
      elim (take-IsKeptOrBeaten m q xs n.1 s.1 later) [
        | inl kept ↦ inl (rw (other, kept) refl)
        | inr (full, beaten) ↦
            inr (omega (arith, full), (cover_later q x xs n.0 n.1 s.0 later, beaten))
      ]
]

IsSorted-take :
    (n : ℕ) (xs : List SearchResult)
    → IsSorted ranked_before xs
    → IsSorted ranked_before (take n xs)
IsSorted-take zero xs s = tt
IsSorted-take (suc n) [] s = tt
IsSorted-take (suc n) (x ∷ xs) s = (All-take _ n xs s.0, IsSorted-take n xs s.1)

pub headed :
    (top_k : ℕ) (rs : List SearchResult)
    → (if ltb top_k (length rs) then take top_k rs else rs) ≡ take top_k rs
headed top_k rs = elim (Bool-cases (ltb top_k (length rs))) [
  | inl h ↦ rw h refl
  | inr h ↦ rw h (sym (take_of_length-le top_k rs (ltb-false→le top_k _ h)))
]

-- What is dropped, also at the cut, and what is left.
counted :
    (total top_k : ℕ) (rs : List SearchResult)
    → length rs ≤ total
    → (if ltb top_k (length rs) then total - length rs + (length rs - top_k) else total - length rs)
        + length (if ltb top_k (length rs) then take top_k rs else rs)
      ≡ total
counted total top_k rs short = elim (Bool-cases (ltb top_k (length rs))) [
  | inl h ↦ rw h (omega (arith, short, ltb→lt top_k (length rs) h, length-take top_k rs))
  | inr h ↦ rw h (omega (arith, short))
]

-- The results are at most `top_k`, each one of a tier's, with the property of that tier, no two with
-- the same id and content, in order; and every result of a tier is kept or beaten.
abbrev pub IsTop :
    (Kind → SearchResult → Type 0) → KindMap (List SearchResult) → ℕ → List SearchResult → Type 0
IsTop P per_kind top_k results =
    (length results ≤ top_k)
    × All (λ r. (k : Kind) × P k r × Memᴰ r (results_at per_kind k)) results
    × Pairwise Differs results
    × IsSorted ranked_before results
    × All (λ k. All (IsKeptOrBeaten top_k results) (results_at per_kind k)) kinds

module _ (rt : Runtime) (lawful : IsLawful rt) (P : Kind → SearchResult → Type 0)
    (per_kind : KindMap (List SearchResult))
    (holds : All (λ k. All (λ r. P k r × IsNumber r) (results_at per_kind k)) kinds) where
  abbrev merged : Best
  merged = merge_loop per_kind kinds []

  -- Of a tier's results, a number, and with the property.
  abbrev IsGood : Kind → SearchResult → Type 0
  IsGood k r = (P k r × Memᴰ r (results_at per_kind k)) × IsNumber r

  good :
      (k : Kind) (r : SearchResult)
      → (P k r × IsNumber r) × Memᴰ r (results_at per_kind k)
      → IsGood k r
  good k r ((p, n), m) = ((p, m), n)

  all-IsGood :
      (ks : List Kind)
      → All (λ k. All (λ r. P k r × IsNumber r) (results_at per_kind k)) ks
      → All (λ k. All (IsGood k) (results_at per_kind k)) ks
  all-IsGood ks h =
      All-mono
        (λ k here.
          All-mono (good k) (results_at per_kind k)
            (All-zip _ _ (results_at per_kind k) here (members (results_at per_kind k))))
        ks h

  entries : All (IsEntry IsGood) merged
  entries = merge_loop-IsEntry IsGood per_kind kinds [] (all-IsGood kinds holds) tt

  to_ranked : (Q : SearchResult → Type 0) → All Q (values merged) → All Q (ranked rt merged)
  to_ranked Q h = All-perm Q (Permᴰ.symm (ranked-perm rt lawful merged)) h

  numbers : All IsNumber (values merged)
  numbers = All-map IsNumber _ merged (All-mono (λ (k, o) e. e.1.1) merged entries)

  kept_or_beaten :
      (top_k : ℕ) (q : SearchResult)
      → IsCovered merged q
      → IsKeptOrBeaten top_k (take top_k (ranked rt merged)) q
  kept_or_beaten top_k q c =
      take-IsKeptOrBeaten top_k q (ranked rt merged) (to_ranked IsNumber numbers)
        (ranked-IsSorted rt lawful merged numbers)
        (any_by-perm (covers q) (ranked-perm rt lawful merged)
          ∙ is_covered-values _ q merged entries c)

  pub take-IsTop : (top_k : ℕ) → IsTop P per_kind top_k (take top_k (ranked rt merged))
  take-IsTop top_k = (
    omega (arith, length-take top_k (ranked rt merged)),
    All-take _ top_k (ranked rt merged) (
        to_ranked _
          (All-map _ _ merged (All-mono (λ (k, o) e. (o.kind, e.1.0.0, e.1.0.1)) merged entries))),
    Pairwise-take Differs top_k (ranked rt merged) (
        Pairwise-perm Differs (λ x y d. key_eq_sym (key_of y) (key_of x) ∙ d)
          (Permᴰ.symm (ranked-perm rt lawful merged))
          (values-Pairwise _ merged entries (merge_loop_lem per_kind kinds).0)),
    IsSorted-take top_k (ranked rt merged) (ranked-IsSorted rt lawful merged numbers),
    All-mono (λ k. All-mono (kept_or_beaten top_k) (results_at per_kind k)) kinds
        (merge_loop_lem per_kind kinds).1,
  )

  pub length-merged : length (ranked rt merged) ≤ total_candidates per_kind kinds
  length-merged = omega (
    arith,
    length-merge_loop per_kind kinds [],
    length-perm (ranked-perm rt lawful merged),
    length-map (λ (_, v). v.result) merged,
  )

  -- The results are the top ones, and every candidate is among them or counted as dropped.
  pub merge_results-IsTop :
      (top_k : ℕ) (provenance : Bool) (tiers : List Kind)
      → let out = merge_results rt top_k provenance tiers per_kind in
        IsTop P per_kind top_k out.results
        × (out.total_dropped + length out.results ≡ total_candidates per_kind kinds)
  unfolding merge_results
  merge_results-IsTop top_k provenance tiers = (
    rw (headed top_k (ranked rt merged)) (take-IsTop top_k),
    counted (total_candidates per_kind kinds) top_k (ranked rt merged) length-merged,
  )
