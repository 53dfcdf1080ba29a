-- ===== src/Lifecycle/Copies.antt =====
-- What `ConsolidateScoped` of memory/scoped_lifecycle.go copies, and how many.
use llm_agent_memory.Common.{
  ◌≡◌, refl, ℕ, suc, some, List, [], ◌∷◌, Runtime, Bool-cases, inl, inr, if◌then◌else◌,
}
use llm_agent_memory.Errors.{Result, ok, err, wrapped}
use llm_agent_memory.Contract.{Time, episodic, MemoryItem, Contract, ConsolidateOptions}
use llm_agent_memory.Manager.{Method}
use llm_agent_memory.Manager
use llm_agent_memory.Lifecycle.Consolidator.{Counted}
use llm_agent_memory.Lifecycle.Counting.{run_each, after_step, IsCount, run_each-IsCount}
use llm_agent_memory.Lifecycle.Forgetting.{ScopedLifecycleManager, inner, is_ripe, copy_loop}

-- The items that pass the tests, each at the time at which it is looked at; the first is looked at
-- at the time numbered `i`.
abbrev pub ripe_items : (ℕ → Time) → ConsolidateOptions → ℕ → List MemoryItem → List MemoryItem
ripe_items clock opts i [] = []
ripe_items clock opts i (it ∷ items) =
    let rest = ripe_items clock opts (suc i) items in
    if is_ripe (clock i) opts it then it ∷ rest else rest

-- An answer of which only the error counts.
abbrev answered : {A : Type 0} → Result A → Result (Unit {0})
answered (ok a) = ok tt
answered (err e) = err (wrapped e)

module _ {W : Type 0} (rt : Runtime) (c : Contract) (s : ScopedLifecycleManager W) where
  -- The copy of one item goes to the episodic memory, without its id and otherwise as it is.
  abbrev pub copy : MemoryItem → Method W (Unit {0})
  copy it w =
      let (r, w') = Manager.add (inner rt c s) episodic (record it { id = [] }) w in
      (answered r, w')

  after_copy :
      {A : Type 0} (count : ℕ) (more more' : ℕ → W → Counted × W) (r : Result A × W)
      → ((n : ℕ) (w : W) → more n w ≡ more' n w)
      → (elim r.0 as (λ _. Counted × W) [
        | err e ↦ ((count, some (wrapped e)), r.1)
        | ok _ ↦ more (suc count) r.1
      ])
        ≡ after_step copy count more' (answered r.0, r.1)
  after_copy count more more' (ok a, w) h = h (suc count) w
  after_copy count more more' (err e, w) h = refl

  -- `ConsolidateScoped` adds, one after the other and until the first error, a copy of just the
  -- items that pass the tests at the time at which each is looked at.
  pub copy_loop-run_each :
      (clock : ℕ → Time) (opts : ConsolidateOptions) (i : ℕ) (items : List MemoryItem) (count : ℕ)
      (w : W)
      → copy_loop rt c s clock opts i items count w
        ≡ run_each copy (ripe_items clock opts i items) count w
  unfolding copy_loop
  copy_loop-run_each clock opts i [] count w = refl
  copy_loop-run_each clock opts i (it ∷ items) count w =
      elim (Bool-cases (is_ripe (clock i) opts it)) [
        | inl ripe ↦
            rw (copy_loop, ripe)
              (after_copy count (copy_loop rt c s clock opts (suc i) items) _
                (Manager.add (inner rt c s) episodic (record it { id = [] }) w)
                (copy_loop-run_each clock opts (suc i) items))
        | inr unripe ↦ rw (copy_loop, unripe) (copy_loop-run_each clock opts (suc i) items count w)
      ]

  -- The number of copies that the loop returns: without an error it has grown by the number of
  -- items that pass the tests, with one by fewer, and it is never below the count it began with.
  pub copy_loop-IsCount :
      (clock : ℕ → Time) (opts : ConsolidateOptions) (i : ℕ) (items : List MemoryItem) (count : ℕ)
      (w : W)
      → IsCount count
          (ripe_items clock opts i items)
          (copy_loop rt c s clock opts i items count w).0
  copy_loop-IsCount clock opts i items count w =
      rw (copy_loop-run_each clock opts i items count w)
        (run_each-IsCount copy (ripe_items clock opts i items) count w)
