-- ===== src/Tests/Lifecycles.antt =====
-- Consolidation, forgetting and paging on a small world: the list of the calls that were made.
use llm_agent_memory.Common.{
  arith, ◌≡◌, refl, ℕ, zero, suc, ◌+◌, ◌<◌, pos, false, none, some, List, [], ◌∷◌, ◌++◌, Text,
  codes, text_eq, keep_if, lookup, is_nan, float_lt, float_le, float_rank, one_float, All, length,
  Permᴰ, time_sub, if◌then◌else◌,
}
use llm_agent_memory.Errors.{ok, err, not_found}
use llm_agent_memory.Contract.{
  MemoryItem, Kind, kind_eq, working, semantic, ListPage, ForgetOptions, by_capacity,
  ConsolidateOptions,
}
use llm_agent_memory.Manager.{Memory, Manager, no_tier}
use llm_agent_memory.Manager.FanOut.{cursor_at}
use llm_agent_memory.Lifecycle.Paging.{Pager, Listed, paging_loop}
use llm_agent_memory.Lifecycle.Collected.{HasDistinctKinds}
use llm_agent_memory.Lifecycle.Rounds.{Answers, IsOutcome, paging_loop-IsOutcome}
use llm_agent_memory.Lifecycle.Consolidator.{Consolidator, is_due, promotion_count}
use llm_agent_memory.Lifecycle.Forgetting.{
  ScopedLifecycleManager, ForgetPair, forget_candidates, forgotten, remove_pairs, unpinned_pairs,
}
use llm_agent_memory.Lifecycle.PairSort.{is_below}
use llm_agent_memory.Lifecycle.Victims.{
  Forgets, forget_candidates-Forgets, forget_candidates-capacity,
}
use llm_agent_memory.Tests.Fixtures.{
  rt, rt-IsLawful, contract, first_item, second_item, unnamed_item,
}

-- The working memory has two pages, the semantic one a single page, which is listed twice.
abbrev page : Kind → ℕ → ListPage
page working zero = record { items = first_item ∷ []; next_cursor = codes "1" }
page working (suc i) = record { items = second_item ∷ []; next_cursor = [] }
page _ i = record { items = unnamed_item ∷ []; next_cursor = [] }

abbrev page_number : Text → ℕ
page_number [] = 0
page_number (ch ∷ rest) = 1

abbrev pager : Pager ℕ
pager cursors w = (
  (
    (working, page working (page_number (cursor_at cursors working)))
        ∷ (semantic, page semantic (page_number (cursor_at cursors semantic)))
        ∷ [],
    none,
  ),
  w,
)

abbrev listed_kinds : List Kind
listed_kinds = working ∷ semantic ∷ []

distinct : HasDistinctKinds listed_kinds
unfolding kind_eq
distinct = ((refl, tt), (tt, tt))

answers : (i : ℕ) → i < 2 → Answers rt rt-IsLawful pager 7 listed_kinds distinct page i
unfolding text_eq
answers zero h cursors e = rw e.0 refl
answers (suc zero) h cursors e = rw e.0 refl
answers (suc (suc i)) h cursors e = absurd (omega (arith, h))

paging_loop-IsOutcome_example :
    (m : ℕ) × (out : Listed) × (paging_loop rt pager 2 [] [] 7 ≡ some (ok out, 7))
    × IsOutcome rt rt-IsLawful pager 7 listed_kinds distinct page 2 m out
paging_loop-IsOutcome_example =
    paging_loop-IsOutcome rt rt-IsLawful pager 7 listed_kinds distinct page 2 2 (omega arith)
      (omega arith) (refl, (refl, tt)) answers

-- A memory that numbers its calls: every call succeeds but the removal of "b".
abbrev memory : Memory ℕ
memory = record {
  kind = working;
  add = λ it w. (ok it.id, w + 1);
  search = λ q k w. (ok [], w + 1);
  get = λ id w. (ok first_item, w + 1);
  update = λ id fn w. (ok tt, w + 10);
  remove = λ id w. (if text_eq id (codes "b") then err not_found else ok tt, w + 100);
  stats = λ w. record { count = 1; capacity = pos 0; avg_importance = 0; oldest_age = pos 0 };
  as_lister = none;
  as_exporter = none;
  as_importer = none;
}

abbrev mgr : Manager ℕ
mgr = record {
  opts = record {
    working = record no_tier { memory = some memory };
    episodic = record no_tier { memory = some memory };
    semantic = no_tier;
    snapshot_store = none;
  };
}

abbrev consolidator : Consolidator ℕ
consolidator = record { mgr = mgr; cfg = record { observer = none } }

abbrev lifecycle : ScopedLifecycleManager ℕ
lifecycle = record { sm = record { inner = mgr }; cfg = record { observer = none } }

-- A threshold of 0.7; the importances are 1 and 0.
abbrev any_age : ConsolidateOptions
any_age = record { threshold = 0; min_age = pos 0 }

abbrev important_item : MemoryItem
important_item = record first_item { importance = one_float }

abbrev items : List MemoryItem
items = important_item ∷ second_item ∷ []

-- One item is due.
due_test : keep_if (is_due rt 9 any_age) items ≡ important_item ∷ []
unfolding is_due promotion_count time_sub float_lt float_le is_nan float_rank lookup text_eq
due_test = refl

abbrev keep_one : ForgetOptions
keep_one = record { strategy = by_capacity; threshold = 0; max_age = pos 0; keep = pos 1 }

forget_candidates-Forgets_example :
    Forgets rt contract lifecycle working items 0
      (forget_candidates rt contract lifecycle 9 working keep_one by_capacity items 0)
forget_candidates-Forgets_example =
    forget_candidates-Forgets rt contract lifecycle 9 working keep_one by_capacity items 0

forget_candidates-capacity_example :
    (victims kept : List ForgetPair) × (forget_candidates rt contract lifecycle 9 working keep_one
        by_capacity items 0
      ≡ forgotten rt contract lifecycle working
          (remove_pairs rt contract lifecycle working victims (0, 0)))
    × Permᴰ (victims ++ kept) (unpinned_pairs contract items)
    × (length kept ≡ 1)
    × All (λ v. All (λ k. is_below k v ≡ false) kept) victims
unfolding unpinned_pairs is_nan
forget_candidates-capacity_example =
    forget_candidates-capacity rt contract lifecycle 9 working keep_one 0 items 0 refl (omega arith)
      (refl, (refl, tt))
