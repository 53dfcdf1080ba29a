-- ===== src/Lifecycle/ScopedStatistics.antt =====
-- What `StatsScoped` of memory/scoped_lifecycle.go says of the items.
use mathlib.Core.List.{Memᴰ}
use llm_agent_memory.Common.{
  ◌≡◌, refl, sym, ◌∙◌, zero_float, ◌≤◌, ltb, ℤ, pos, some, List, [], ◌∷◌, Runtime, length, time_sub,
  All, Bool-cases, inl, inr, ◌⊎◌, arith, if◌then◌else◌,
}
use llm_agent_memory.Contract.{Time, MemoryItem}
use llm_agent_memory.Lifecycle.Forgetting.{oldest_of, scoped_stats, imp_sum}

-- `t` is the creation time of one of the items, and no later than that of any.
abbrev pub IsOldest : Time → List MemoryItem → Type 0
IsOldest t items =
    ((it : MemoryItem) × Memᴰ it items × (it.created_at ≡ t)) × All (λ it. t ≤ it.created_at) items

-- What the loop finds from `t` on.
abbrev Lowers : Time → List MemoryItem → Time → Type 0
Lowers t items t' =
    (t' ≤ t)
    × All (λ it. t' ≤ it.created_at) items
    × ((t' ≡ t) ⊎ ((it : MemoryItem) × Memᴰ it items × (it.created_at ≡ t')))

-- The earlier of the two.
abbrev earlier : MemoryItem → Time → Time
earlier it t = if ltb it.created_at t then it.created_at else t

earlier-le : (it : MemoryItem) (t : Time) → (earlier it t ≤ t) × (earlier it t ≤ it.created_at)
earlier-le it t = ground arith

earlier_cases : (it : MemoryItem) (t : Time) → (earlier it t ≡ t) ⊎ (earlier it t ≡ it.created_at)
earlier_cases it t = elim (Bool-cases (ltb it.created_at t)) [
  | inl h ↦ inr (rw h refl)
  | inr h ↦ inl (rw h refl)
]

found-cons :
    (it : MemoryItem) (items : List MemoryItem) (t t0 t' : Time)
    → (t0 ≡ t) ⊎ (t0 ≡ it.created_at)
    → (t' ≡ t0) ⊎ ((j : MemoryItem) × Memᴰ j items × (j.created_at ≡ t'))
    → (t' ≡ t) ⊎ ((j : MemoryItem) × Memᴰ j (it ∷ items) × (j.created_at ≡ t'))
found-cons it items t t0 t' (inl e) (inl f) = inl (f ∙ e)
found-cons it items t t0 t' (inr e) (inl f) = inr (it, Memᴰ.head refl, sym (f ∙ e))
found-cons it items t t0 t' e (inr (j, m, f)) = inr (j, Memᴰ.tail m, f)

Lowers-cons :
    (it : MemoryItem) (items : List MemoryItem) (t t' : Time)
    → Lowers (earlier it t) items t'
    → Lowers t (it ∷ items) t'
Lowers-cons it items t t' (below, least, found) = (
  omega (arith, below, (earlier-le it t).0),
  (omega (arith, below, (earlier-le it t).1), least),
  found-cons it items t (earlier it t) t' (earlier_cases it t) found,
)

oldest_of-Lowers :
    (items : List MemoryItem) (t : Time)
    → (t' : Time) × (oldest_of items (some t) ≡ some t') × Lowers t items t'
unfolding oldest_of
oldest_of-Lowers [] t = (t, refl, (omega arith, tt, inl refl))
oldest_of-Lowers (it ∷ items) t =
    let (t', e, l) = oldest_of-Lowers items (earlier it t) in (t', e, Lowers-cons it items t t' l)

found_first :
    (it : MemoryItem) (items : List MemoryItem) (t' : Time)
    → (t' ≡ it.created_at) ⊎ ((j : MemoryItem) × Memᴰ j items × (j.created_at ≡ t'))
    → (j : MemoryItem) × Memᴰ j (it ∷ items) × (j.created_at ≡ t')
found_first it items t' (inl e) = (it, Memᴰ.head refl, sym e)
found_first it items t' (inr (j, m, e)) = (j, Memᴰ.tail m, e)

-- The statistics of a kind with an item: their number, the capacity of the memory, the sum of the
-- importances in the order of the listing over that number, and the age of an item that no other
-- item is older than.
pub scoped_stats_lem :
    (rt : Runtime) (now : Time) (capacity : ℤ) (it : MemoryItem) (items : List MemoryItem)
    → (t : Time) × IsOldest t (it ∷ items)
      × (scoped_stats rt now capacity (it ∷ items) ≡ record {
        count = length (it ∷ items);
        capacity = capacity;
        avg_importance =
            rt.fdiv (imp_sum rt (it ∷ items) zero_float) (rt.of_int (pos (length (it ∷ items))));
        oldest_age = time_sub now t;
      })
unfolding scoped_stats oldest_of
scoped_stats_lem rt now capacity it items =
    let (t, e, (below, least, found)) = oldest_of-Lowers items it.created_at in
    (t, (found_first it items t found, (below, least)), rw (scoped_stats, e) refl)
