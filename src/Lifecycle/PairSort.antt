-- ===== src/Lifecycle/PairSort.antt =====
-- `sortPairsByImpAsc` of memory/scoped_lifecycle.go sorts.
use mathlib.Core.List.Permᴰ
use mathlib.Core.List.{reverse_aux}
use llm_agent_memory.Common.{
  ◌≡◌, ℕ, zero, suc, Bool, false, List, [], ◌∷◌, ◌++◌, Permᴰ, float_lt, is_nan, float_lt_asym,
  float_lt_incomp_trans, take, drop, All, All-perm, All-drop, All-zip, All-of, insert_by-perm,
  insert_by-IsSorted, IsSorted, IsStrictWeak,
}
use llm_agent_memory.Lifecycle.Forgetting.{
  ForgetPair, is_above, swap_down, sort_loop, sort_pairs_by_imp_asc,
}

sort_loop-perm : (sorted pairs : List ForgetPair) → Permᴰ (sort_loop sorted pairs) (sorted ++ pairs)
unfolding sort_loop
sort_loop-perm sorted [] = Permᴰ.symm (Permᴰ.append-nil sorted)
sort_loop-perm sorted (p ∷ pairs) = Permᴰ.trans (sort_loop-perm (swap_down p sorted) pairs) (
    Permᴰ.trans (Permᴰ.append_right pairs (insert_by-perm is_above p sorted))
      (Permᴰ.symm (Permᴰ.middle p sorted pairs)))

-- No importance is a NaN.
abbrev pub IsNumber : ForgetPair → Type 0
IsNumber p = is_nan p.imp ≡ false

is_above-IsStrictWeak : IsStrictWeak IsNumber is_above
is_above-IsStrictWeak = record {
  asym = λ p q np nq h. float_lt_asym q.imp p.imp h;
  incomp_trans = λ p q r np nq nr h k. float_lt_incomp_trans r.imp q.imp p.imp nq k h;
}

sort_loop-IsSorted :
    (sorted pairs : List ForgetPair)
    → All IsNumber sorted
    → All IsNumber pairs
    → IsSorted is_above sorted
    → IsSorted is_above (sort_loop sorted pairs)
unfolding sort_loop
sort_loop-IsSorted sorted [] ns np s = s
sort_loop-IsSorted sorted (p ∷ pairs) ns np s =
    sort_loop-IsSorted (swap_down p sorted) pairs
      (All-perm IsNumber (Permᴰ.symm (insert_by-perm is_above p sorted)) (np.0, ns)) np.1
      (insert_by-IsSorted is_above-IsStrictWeak p sorted np.0 ns s)

-- The order of the result: from low to high.
abbrev pub is_below : ForgetPair → ForgetPair → Bool
is_below p q = float_lt p.imp q.imp

reverse_aux-IsSorted :
    (xs ys : List ForgetPair)
    → IsSorted is_above xs
    → IsSorted is_below ys
    → All (λ x. All (λ y. is_below y x ≡ false) ys) xs
    → IsSorted is_below (reverse_aux xs ys)
reverse_aux-IsSorted [] ys sx sy h = sy
reverse_aux-IsSorted (x ∷ xs) ys sx sy h =
    reverse_aux-IsSorted xs (x ∷ ys) sx.1 (h.0, sy) (All-zip _ _ xs sx.0 h.1)

-- The order of a sorted list, across a cut.
pub across :
    (n : ℕ) (xs : List ForgetPair)
    → IsSorted is_below xs
    → All (λ v. All (λ k. is_below k v ≡ false) (drop n xs)) (take n xs)
across zero xs s = tt
across (suc n) [] s = tt
across (suc n) (x ∷ xs) s = (All-drop _ n xs s.0, across n xs s.1)

pub sort_pairs_by_imp_asc-perm :
    (pairs : List ForgetPair) → Permᴰ (sort_pairs_by_imp_asc pairs) pairs
unfolding sort_pairs_by_imp_asc
sort_pairs_by_imp_asc-perm pairs =
    Permᴰ.trans (Permᴰ.reverse (sort_loop [] pairs)) (sort_loop-perm [] pairs)

pub sort_pairs_by_imp_asc-IsSorted :
    (pairs : List ForgetPair) → All IsNumber pairs → IsSorted is_below (sort_pairs_by_imp_asc pairs)
unfolding sort_pairs_by_imp_asc
sort_pairs_by_imp_asc-IsSorted pairs n =
    reverse_aux-IsSorted (sort_loop [] pairs) [] (sort_loop-IsSorted [] pairs tt n tt) tt
      (All-of _ (λ x. tt) (sort_loop [] pairs))
