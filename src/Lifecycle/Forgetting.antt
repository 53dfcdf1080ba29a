-- ===== src/Lifecycle/Forgetting.antt =====
-- memory/scoped_lifecycle.go: consolidation, forgetting and statistics of the items in the scope of
-- the context.
use mathlib.Core.List.{reverse}
use llm_agent_memory.Common.{
  ℕ, zero, suc, ◌+◌, ◌-◌, ℤ, pos, negsuc, ltb, leb, ltb_ℤ, leb_ℤ, ◌==◌, time_sub, Bool, true, false,
  Option, none, some, List, [], ◌∷◌, Text, Float64, zero_float, float_lt, Runtime, length, take,
  insert_by, if◌then◌else◌,
}
use llm_agent_memory.Errors.{
  Result, ok, err, wrapped, scoped_manager_required, max_age_required, unknown_strategy,
}
use llm_agent_memory.Contract.{
  Time, Duration, Kind, working, episodic, MemoryItem, Stats, Scope, Contract, ConsolidateOptions,
  ForgetOptions, ForgetStrategy, by_importance, by_age, by_capacity,
}
use llm_agent_memory.Observing.{
  consolidated_total, forgotten_total, emit, Config, ConfigOption, new_config,
}
use llm_agent_memory.Manager.{Manager, Method}
use llm_agent_memory.Manager
use llm_agent_memory.Manager.FanOut.{KindMap, lookup_kind, stats_all}
use llm_agent_memory.Scoped.{ScopedManager}
use llm_agent_memory.Lifecycle.Paging.{Listed, at_kind, list_all_scoped}
use llm_agent_memory.Lifecycle.Consolidator.{Counted, threshold_or_default}

pub record ScopedLifecycleManager (W : Type 0) : Type 0 where
  pub sm : ScopedManager W
  pub cfg : Config W

unfoldable pub new_scoped_lifecycle_manager :
    {W : Type 0}
    → Option (ScopedManager W)
    → List (ConfigOption W)
    → Result (ScopedLifecycleManager W)
new_scoped_lifecycle_manager none opts = err scoped_manager_required
new_scoped_lifecycle_manager (some sm) opts = ok (record { sm = sm; cfg = new_config opts })

-- `t.Add(d).Before(now)` for a positive `d`.
abbrev pub add_before : Time → Duration → Time → Bool
add_before t (pos n) now = ltb (t + n) now
add_before t (negsuc n) now = ltb t (now + suc n)

-- The `continue`s of `ConsolidateScoped`: whether the item is promoted.
unfoldable pub is_ripe : Time → ConsolidateOptions → MemoryItem → Bool
is_ripe now opts it =
    if float_lt it.importance (threshold_or_default opts.threshold)
    then false
    else if ltb_ℤ (pos 0) opts.min_age
    then (if it.created_at == 0 then false else add_before it.created_at opts.min_age now)
    else true

pub record ForgetPair : Type 0 where
  pub id : Text
  pub imp : Float64

-- `pairs[j-1].imp > pairs[j].imp`, with the later pair first.
abbrev pub is_above : ForgetPair → ForgetPair → Bool
is_above p q = float_lt q.imp p.imp

-- The inner loop swaps `p` down past the pairs above it; `sorted` is the part of the slice before
-- `p`, from its end.
abbrev pub swap_down : ForgetPair → List ForgetPair → List ForgetPair
swap_down p sorted = insert_by is_above p sorted

-- The outer loop, with the sorted part from its end.
unfoldable pub sort_loop : List ForgetPair → List ForgetPair → List ForgetPair
sort_loop sorted [] = sorted
sort_loop sorted (p ∷ pairs) = sort_loop (swap_down p sorted) pairs

unfoldable pub sort_pairs_by_imp_asc : List ForgetPair → List ForgetPair
sort_pairs_by_imp_asc pairs = reverse (sort_loop [] pairs)

-- The pairs of the items that are not pinned.
unfoldable pub unpinned_pairs : Contract → List MemoryItem → List ForgetPair
unpinned_pairs c [] = []
unpinned_pairs c (it ∷ items) =
    let rest = unpinned_pairs c items in
    if c.is_pinned it then rest else record { id = it.id; imp = it.importance } ∷ rest

-- The two tests that a loop over the candidates removes by.
abbrev pub is_unimportant : Float64 → MemoryItem → Bool
is_unimportant threshold it = float_lt it.importance threshold

abbrev pub is_old : Time → Duration → MemoryItem → Bool
is_old now max_age it = ltb_ℤ max_age (time_sub now it.created_at)

-- The sum of the importances, and the oldest creation time; `hasItem` is false where it is `none`.
unfoldable pub imp_sum : Runtime → List MemoryItem → Float64 → Float64
imp_sum rt [] sum = sum
imp_sum rt (it ∷ items) sum = imp_sum rt items (rt.fadd sum it.importance)

unfoldable pub oldest_of : List MemoryItem → Option Time → Option Time
oldest_of [] oldest = oldest
oldest_of (it ∷ items) none = oldest_of items (some it.created_at)
oldest_of (it ∷ items) (some t) =
    oldest_of items (some (if ltb it.created_at t then it.created_at else t))

-- `innerStats[kind].Capacity`
abbrev pub capacity_of : Option Stats → ℤ
capacity_of none = pos 0
capacity_of (some st) = st.capacity

unfoldable pub scoped_stats : Runtime → Time → ℤ → List MemoryItem → Stats
scoped_stats rt now capacity items = record {
  count = length items;
  capacity = capacity;
  avg_importance = elim items [
    | [] ↦ zero_float
    | it ∷ rest ↦ rt.fdiv (imp_sum rt (it ∷ rest) zero_float) (rt.of_int (pos (length (it ∷ rest))))
  ];
  oldest_age = elim (oldest_of items none) [ none ↦ pos 0 | some t ↦ time_sub now t ];
}

-- The map that the loop over the kinds builds.
unfoldable pub stats_of_kinds : Runtime → Time → KindMap Stats → Listed → KindMap Stats
stats_of_kinds rt now inner [] = []
stats_of_kinds rt now inner ((k, items) ∷ rest) =
    (k, scoped_stats rt now (capacity_of (lookup_kind k inner)) items)
    ∷ stats_of_kinds rt now inner rest

module _ {W : Type 0} (rt : Runtime) (c : Contract) (s : ScopedLifecycleManager W) where
  abbrev pub inner : Manager W
  inner = s.sm.inner

  -- The loop over the working items; `clock i` is the time that the reading for item `i` finds.
  unfoldable pub copy_loop :
      (ℕ → Time) → ConsolidateOptions → ℕ → List MemoryItem → ℕ → W → Counted × W
  copy_loop clock opts i [] count w = ((count, none), w)
  copy_loop clock opts i (it ∷ rest) count w = elim (is_ripe (clock i) opts it) [
    | false ↦ copy_loop clock opts (suc i) rest count w
    | true ↦
        let (r, w') = Manager.add inner episodic (record it { id = [] }) w in
        elim r [
          | err e ↦ ((count, some (wrapped e)), w')
          | ok _ ↦ copy_loop clock opts (suc i) rest (suc count) w'
        ]
  ]

  unfoldable pub copy_listed : (ℕ → Time) → ConsolidateOptions → Result Listed × W → Counted × W
  copy_listed clock opts (err e, w) = ((0, some (wrapped e)), w)
  copy_listed clock opts (ok out, w) =
      let ((count, failed), w') = copy_loop clock opts 0 (at_kind out working) 0 w in
      elim failed [
        | some e ↦ ((count, some e), w')
        | none ↦ ((count, none), emit s.cfg.observer (consolidated_total count) w')
      ]

  -- `none` means that the fuel of the listing ran out, here and below.
  unfoldable pub consolidate_scoped :
      Scope → ℕ → (ℕ → Time) → ConsolidateOptions → W → Option (Counted × W)
  consolidate_scoped scope fuel clock opts w =
      elim (list_all_scoped rt c scope fuel s.sm (pos 200) w) [
        | none ↦ none
        | some listed ↦ some (copy_listed clock opts listed)
      ]

  -- `if err := mgr.Remove(ctx, kind, id); err == nil { count++ }`
  unfoldable pub remove_one : Kind → Text → ℕ × W → ℕ × W
  remove_one kind id (count, w) =
      let (r, w') = Manager.remove inner kind id w in
      elim r [ err e ↦ (count, w') | ok _ ↦ (suc count, w') ]

  -- The loop over the candidates that skips the pinned ones and removes by a test.
  unfoldable pub remove_by : Kind → (MemoryItem → Bool) → List MemoryItem → ℕ × W → ℕ × W
  remove_by kind test [] st = st
  remove_by kind test (it ∷ rest) st =
      let st' = remove_one kind it.id st in
      remove_by kind test rest (if c.is_pinned it then st else if test it then st' else st)

  -- The loop over the first pairs.
  unfoldable pub remove_pairs : Kind → List ForgetPair → ℕ × W → ℕ × W
  remove_pairs kind [] st = st
  remove_pairs kind (p ∷ pairs) st = remove_pairs kind pairs (remove_one kind p.id st)

  abbrev pub forgotten : Kind → ℕ × W → Counted × W
  forgotten kind (count, w) = ((count, none), emit s.cfg.observer (forgotten_total kind count) w)

  -- The rest of the capacity branch, for a positive `Keep`.
  unfoldable pub forget_beyond : Kind → ℕ → List ForgetPair → W → Counted × W
  forget_beyond kind keep all w =
      let victims = take (length all - keep) (sort_pairs_by_imp_asc all) in
      if leb (length all) keep
      then ((0, none), w)
      else forgotten kind (remove_pairs kind victims (0, w))

  -- The capacity branch.
  abbrev pub forget_to_capacity : Kind → ℤ → List MemoryItem → W → Counted × W
  forget_to_capacity kind (pos zero) candidates w = ((0, none), w)
  forget_to_capacity kind (pos (suc n)) candidates w =
      forget_beyond kind (suc n) (unpinned_pairs c candidates) w
  forget_to_capacity kind (negsuc n) candidates w = ((0, none), w)

  -- The `switch`, on the candidates.
  unfoldable pub forget_candidates :
      Time → Kind → ForgetOptions → ForgetStrategy → List MemoryItem → W → Counted × W
  forget_candidates now kind opts by_importance candidates w =
      forgotten kind (remove_by kind (is_unimportant opts.threshold) candidates (0, w))
  forget_candidates now kind opts by_age candidates w =
      if leb_ℤ opts.max_age (pos 0)
      then ((0, some max_age_required), w)
      else forgotten kind (remove_by kind (is_old now opts.max_age) candidates (0, w))
  forget_candidates now kind opts by_capacity candidates w =
      forget_to_capacity kind opts.keep candidates w
  forget_candidates now kind opts (ForgetStrategy.unlisted t) candidates w =
      ((0, some unknown_strategy), w)

  unfoldable pub forget_listed : Time → Kind → ForgetOptions → Result Listed × W → Counted × W
  forget_listed now kind opts (err e, w) = ((0, some (wrapped e)), w)
  forget_listed now kind opts (ok out, w) =
      forget_candidates now kind opts opts.strategy (at_kind out kind) w

  unfoldable pub forget_scoped : Scope → ℕ → Time → Kind → ForgetOptions → W → Option (Counted × W)
  forget_scoped scope fuel now kind opts w =
      elim (list_all_scoped rt c scope fuel s.sm (pos 200) w) [
        | none ↦ none
        | some listed ↦ some (forget_listed now kind opts listed)
      ]

  unfoldable pub stats_listed : Time → Result Listed × W → Result (KindMap Stats) × W
  stats_listed now (err e, w) = (err (wrapped e), w)
  stats_listed now (ok out, w) = (ok (stats_of_kinds rt now (stats_all inner w) (rt.range out)), w)

  unfoldable pub stats_scoped : Scope → ℕ → Time → W → Option (Result (KindMap Stats) × W)
  stats_scoped scope fuel now w = elim (list_all_scoped rt c scope fuel s.sm (pos 200) w) [
    | none ↦ none
    | some listed ↦ some (stats_listed now listed)
  ]
