-- ===== src/Recall/Merging.antt =====
-- What merging the tiers' answers keeps.
use llm_agent_memory.Common.{
  ◌≡◌, refl, Bool, true, false, not, ◌||◌, List, [], ◌∷◌, text_eq_iff, All, All-mono, Float64,
  float_lt, float_lt_irrefl, float_lt_trans, if◌then◌else◌, arith,
}
use llm_agent_memory.Contract.{Kind, SearchResult}
use llm_agent_memory.Manager.FanOut.{KindMap}
use llm_agent_memory.Recall.{
  Key, key_of, key_eq, Best, keep_best, keep_best_of, results_at, merge_loop,
}

-- The entry with the result's key has no lower score.
abbrev pub is_covered : SearchResult → Best → Bool
is_covered r [] = false
is_covered r ((k, o) ∷ best) =
    if key_eq k (key_of r) then not (float_lt o.result.score r.score) else is_covered r best

pub key_eq_trans : (a b c : Key) → key_eq a b ≡ true → key_eq a c ≡ key_eq b c
unfolding key_eq
key_eq_trans a b c h = ground (arith, text_eq_iff a.0 b.0, text_eq_iff a.1 b.1)

key_eq_refl : (a : Key) → key_eq a a ≡ true
unfolding key_eq
key_eq_refl a = ground (arith, text_eq_iff a.0 a.0, text_eq_iff a.1 a.1)

still_lower : (a b c : Float64) → float_lt a b ≡ true → float_lt a c ≡ false → float_lt b c ≡ false
still_lower a b c h k = ground (arith, float_lt_trans a b c)

is_covered-keep_best :
    (kind : Kind) (r : SearchResult) (best : Best) → is_covered r (keep_best kind r best) ≡ true
unfolding keep_best
is_covered-keep_best kind r [] = ground (arith, key_eq_refl (key_of r), float_lt_irrefl r.score)
is_covered-keep_best kind r ((k, o) ∷ best) =
    ground
      (arith, key_eq_refl (key_of r), float_lt_irrefl r.score, is_covered-keep_best kind r best)

is_covered-keep_best_other :
    (kind : Kind) (r q : SearchResult) (best : Best)
    → is_covered q best ≡ true
    → is_covered q (keep_best kind r best) ≡ true
unfolding keep_best
is_covered-keep_best_other kind r q [] h = cc h
is_covered-keep_best_other kind r q ((k, o) ∷ best) h = ground (
  arith,
  h,
  key_eq_trans k (key_of r) (key_of q),
  still_lower o.result.score r.score q.score,
  is_covered-keep_best_other kind r q best,
)

abbrev pub IsCovered : Best → SearchResult → Type 0
IsCovered best r = is_covered r best ≡ true

keep_best_of-IsCovered :
    (kind : Kind) (rs : List SearchResult) (best : Best) (q : SearchResult)
    → IsCovered best q
    → IsCovered (keep_best_of kind rs best) q
unfolding keep_best_of
keep_best_of-IsCovered kind [] best q h = h
keep_best_of-IsCovered kind (r ∷ rs) best q h =
    keep_best_of-IsCovered kind rs _ q (is_covered-keep_best_other kind r q best h)

keep_best_of-All :
    (kind : Kind) (rs : List SearchResult) (best : Best)
    → All (IsCovered (keep_best_of kind rs best)) rs
unfolding keep_best_of
keep_best_of-All kind [] best = tt
keep_best_of-All kind (r ∷ rs) best = (
  keep_best_of-IsCovered kind rs _ r (is_covered-keep_best kind r best),
  keep_best_of-All kind rs (keep_best kind r best),
)

merge_loop-IsCovered :
    (per_kind : KindMap (List SearchResult)) (ks : List Kind) (best : Best) (q : SearchResult)
    → IsCovered best q
    → IsCovered (merge_loop per_kind ks best) q
unfolding merge_loop
merge_loop-IsCovered per_kind [] best q h = h
merge_loop-IsCovered per_kind (k ∷ ks) best q h =
    merge_loop-IsCovered per_kind ks _ q (keep_best_of-IsCovered k (results_at per_kind k) best q h)

merge_loop-All :
    (per_kind : KindMap (List SearchResult)) (ks : List Kind) (best : Best)
    → All (λ k. All (IsCovered (merge_loop per_kind ks best)) (results_at per_kind k)) ks
unfolding merge_loop
merge_loop-All per_kind [] best = tt
merge_loop-All per_kind (k ∷ ks) best = (
  All-mono (λ r h. merge_loop-IsCovered per_kind ks _ r h) (results_at per_kind k)
      (keep_best_of-All k (results_at per_kind k) best),
  merge_loop-All per_kind ks (keep_best_of k (results_at per_kind k) best),
)

-- The key has an entry.
abbrev pub has_entry : Key → Best → Bool
has_entry q [] = false
has_entry q ((k, o) ∷ best) = key_eq k q || has_entry q best

-- No two entries with the same key.
abbrev pub HasDistinctKeys : Best → Type 0
HasDistinctKeys [] = Unit
HasDistinctKeys ((k, o) ∷ best) = (has_entry k best ≡ false) × HasDistinctKeys best

pub key_eq_sym : (a b : Key) → key_eq a b ≡ key_eq b a
unfolding key_eq
key_eq_sym a b =
    ground
      (arith, text_eq_iff a.0 b.0, text_eq_iff a.1 b.1, text_eq_iff b.0 a.0, text_eq_iff b.1 a.1)

has_entry-keep_best :
    (kind : Kind) (r : SearchResult) (q : Key) (best : Best)
    → has_entry q (keep_best kind r best) ≡ (key_eq (key_of r) q || has_entry q best)
unfolding keep_best
has_entry-keep_best kind r q [] = refl
has_entry-keep_best kind r q ((k, o) ∷ best) =
    ground (arith, has_entry-keep_best kind r q best, key_eq_trans k (key_of r) q)

has_entry_eq : (a b : Key) (best : Best) → key_eq a b ≡ true → has_entry a best ≡ has_entry b best
has_entry_eq a b [] h = refl
has_entry_eq a b ((k, o) ∷ best) h =
    ground (arith, h, has_entry_eq a b best, key_eq_trans a b k, key_eq_sym a k, key_eq_sym b k)

keep_best-HasDistinctKeys :
    (kind : Kind) (r : SearchResult) (best : Best)
    → HasDistinctKeys best
    → HasDistinctKeys (keep_best kind r best)
unfolding keep_best
keep_best-HasDistinctKeys kind r [] h = (refl, tt)
keep_best-HasDistinctKeys kind r ((k, o) ∷ best) h = ground (
  arith,
  keep_best-HasDistinctKeys kind r best h.1,
  has_entry-keep_best kind r k best,
  has_entry_eq k (key_of r) best,
  key_eq_sym k (key_of r),
)

keep_best_of-HasDistinctKeys :
    (kind : Kind) (rs : List SearchResult) (best : Best)
    → HasDistinctKeys best
    → HasDistinctKeys (keep_best_of kind rs best)
unfolding keep_best_of
keep_best_of-HasDistinctKeys kind [] best h = h
keep_best_of-HasDistinctKeys kind (r ∷ rs) best h =
    keep_best_of-HasDistinctKeys kind rs _ (keep_best-HasDistinctKeys kind r best h)

merge_loop-HasDistinctKeys :
    (per_kind : KindMap (List SearchResult)) (ks : List Kind) (best : Best)
    → HasDistinctKeys best
    → HasDistinctKeys (merge_loop per_kind ks best)
unfolding merge_loop
merge_loop-HasDistinctKeys per_kind [] best h = h
merge_loop-HasDistinctKeys per_kind (k ∷ ks) best h =
    merge_loop-HasDistinctKeys per_kind ks _
      (keep_best_of-HasDistinctKeys k (results_at per_kind k) best h)

-- The merge of what the tiers returned has one entry for a pair of id and content, and for each
-- result of each tier an entry with that pair and no lower score.
pub merge_loop_lem :
    (per_kind : KindMap (List SearchResult)) (ks : List Kind)
    → HasDistinctKeys (merge_loop per_kind ks [])
      × All (λ k. All (IsCovered (merge_loop per_kind ks [])) (results_at per_kind k)) ks
merge_loop_lem per_kind ks =
    (merge_loop-HasDistinctKeys per_kind ks [] tt, merge_loop-All per_kind ks [])
