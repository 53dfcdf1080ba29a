-- ===== src/Lifecycle/Counting.antt =====
-- A loop that does one thing with every item of a list until an error, and counts: what the
-- consolidations of memory/consolidator.go and memory/scoped_lifecycle.go come to.
use llm_agent_memory.Common.{
  ℕ, suc, ◌+◌, ◌<◌, ◌≤◌, ◌≡◌, refl, none, some, List, [], ◌∷◌, length, arith,
}
use llm_agent_memory.Errors.{Result, ok, err}
use llm_agent_memory.Contract.{MemoryItem}
use llm_agent_memory.Manager.{Method}
use llm_agent_memory.Lifecycle.Consolidator.{Counted}

-- `n` is `count` and the number of the items of `due`, or it is less and there was an error.
abbrev pub IsCount : ℕ → List MemoryItem → Counted → Type 0
IsCount count due (n, none) = n ≡ count + length due
IsCount count due (n, some e) = (count ≤ n) × (n < count + length due)

IsCount-suc :
    (it : MemoryItem) (due : List MemoryItem) (count : ℕ) (counted : Counted)
    → IsCount (suc count) due counted
    → IsCount count (it ∷ due) counted
IsCount-suc it due count (n, none) h = omega (arith, h)
IsCount-suc it due count (n, some e) h = (omega (arith, h.0), omega (arith, h.1))

module _ {W : Type 0} (step : MemoryItem → Method W (Unit {0})) where
  -- The loop as it goes on after a step.
  abbrev pub after_step : ℕ → (ℕ → W → Counted × W) → Result (Unit {0}) × W → Counted × W
  after_step count more r = elim r.0 [
    | err e ↦ ((count, some e), r.1)
    | ok _ ↦ more (suc count) r.1
  ]

  abbrev pub run_each : List MemoryItem → ℕ → W → Counted × W
  run_each [] count w = ((count, none), w)
  run_each (it ∷ rest) count w = after_step count (run_each rest) (step it w)

  pub after_step-ext :
      (count : ℕ) (more more' : ℕ → W → Counted × W) (r : Result (Unit {0}) × W)
      → ((n : ℕ) (w : W) → more n w ≡ more' n w)
      → after_step count more r ≡ after_step count more' r
  after_step-ext count more more' (ok u, w) h = h (suc count) w
  after_step-ext count more more' (err e, w) h = refl

  IsCount-after_step :
      (it : MemoryItem) (due : List MemoryItem) (count : ℕ) (r : Result (Unit {0}) × W)
      → ((w : W) → IsCount (suc count) due (run_each due (suc count) w).0)
      → IsCount count (it ∷ due) (after_step count (run_each due) r).0
  IsCount-after_step it due count (ok u, w) ih =
      IsCount-suc it due count (run_each due (suc count) w).0 (ih w)
  IsCount-after_step it due count (err e, w) ih = (omega arith, omega arith)

  pub run_each-IsCount :
      (due : List MemoryItem) (count : ℕ) (w : W) → IsCount count due (run_each due count w).0
  run_each-IsCount [] count w = omega arith
  run_each-IsCount (it ∷ rest) count w =
      IsCount-after_step it rest count (step it w) (run_each-IsCount rest (suc count))
